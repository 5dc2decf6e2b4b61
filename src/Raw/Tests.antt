-- ===== src/Raw/Tests.antt =====
-- permanode/src/raw.rs: the theorems at a block of one byte.
use gb_parano1d_permanode.Prelude.{◌≡◌, refl, true, some, leb, length}
use gb_parano1d_permanode.Prelude.Result.{ok}
use gb_parano1d_permanode.Store.Rows.{Database}
use gb_parano1d_permanode.Store.Blocks.{block_id}
use gb_parano1d_permanode.Decode.Chain.{Block}
use gb_parano1d_permanode.Decode.Bound.{decode_bound_block}
use gb_parano1d_permanode.Raw.Archive.{store, load, insert_raw_block}
use gb_parano1d_permanode.Raw.Roundtrip.{load-store, load-bound}
use gb_parano1d_permanode.Samples.{
  sample_chain, sample_zlib, sample_zlib-restores, sample_database, sample_bytes,
}

abbrev with_raw : Database
unfolding insert_raw_block
with_raw = insert_raw_block sample_database 1 "zlib" 1 sample_bytes "node" 2

stored :
    store sample_chain sample_zlib 100 sample_database 5 "a" sample_bytes "node" 2
    ≡ ok (with_raw, true)
unfolding store block_id
stored = refl

load-store_example : load sample_chain sample_zlib 100 with_raw 5 "a" ≡ ok (some sample_bytes)
load-store_example =
    load-store sample_chain sample_zlib 100 sample_database with_raw 5 "a" sample_bytes "node" 2
      sample_zlib-restores stored

load-bound_example :
    (leb (length sample_bytes) 100 ≡ true)
    × ((block : Block) × (decode_bound_block sample_chain sample_bytes 5 "a" ≡ ok block))
load-bound_example =
    load-bound sample_chain sample_zlib 100 with_raw 5 "a" sample_bytes load-store_example
