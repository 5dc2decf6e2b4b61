-- ===== src/Raw/Archive.antt =====
-- permanode/src/raw.rs: keeping a block's bytes, checked on the way in and on the way out. The zlib
-- codec of `flate2` is a parameter.
use gb_parano1d_permanode.Prelude.{
  ℕ, ◌+◌, Bool, true, false, ◌&&◌, not, Option, none, some, String, List, [], ◌∷◌, ◌==◌, leb,
  str_eq, length, any, find, take, map, retain, if◌then◌else◌,
}
use gb_parano1d_permanode.Prelude.Result.{Result, ok, ◌>>=◌, ◌>>◌, ensure, require}
use gb_parano1d_permanode.Store.Rows.{BlockRow, RawRow, Database, insert_or_ignore}
use gb_parano1d_permanode.Store.Blocks.{block_id, is_archived, canonical_block_filter}
use gb_parano1d_permanode.Decode.Chain.{Chain}
use gb_parano1d_permanode.Decode.Bound.{decode_bound_block}

-- `flate2`: `inflate data n` reads at most `n` bytes of what `data` decompresses to, `none` where
-- the data is damaged.
pub record Zlib : Type 0 where
  pub deflate : List ℕ → List ℕ
  pub inflate : List ℕ → ℕ → Option (List ℕ)

abbrev pub codec_name : String
codec_name = "zlib"

unfoldable pub has_raw_block : Database → ℕ → Bool
has_raw_block db id = any (λ (r : RawRow). r.block_id == id) db.raw_blocks

unfoldable pub insert_raw_block : Database → ℕ → String → ℕ → List ℕ → String → ℕ → Database
insert_raw_block db id codec raw_len bytes source now = record db {
  raw_blocks =
      insert_or_ignore (λ a b. b.block_id == a.block_id)
        (record {
          block_id = id;
          codec = codec;
          raw_len = raw_len;
          bytes = bytes;
          source = source;
          stored_at = now;
        })
        db.raw_blocks;
}

-- The join of `raw_blocks` with its block.
unfoldable pub raw_block : Database → ℕ → String → Option RawRow
unfolding block_id
raw_block db height hash = elim (block_id db height hash) [
  | none ↦ none
  | some id ↦ find (λ (r : RawRow). r.block_id == id) db.raw_blocks
]

-- `ORDER BY b.height`
abbrev insert_by_height : ℕ × String → List (ℕ × String) → List (ℕ × String)
insert_by_height x [] = x ∷ []
insert_by_height x (y ∷ ys) = if leb x.0 y.0 then x ∷ y ∷ ys else y ∷ insert_by_height x ys

abbrev sort_by_height : List (ℕ × String) → List (ℕ × String)
sort_by_height [] = []
sort_by_height (x ∷ xs) = insert_by_height x (sort_by_height xs)

unfoldable pub blocks_missing_raw : Database → ℕ → ℕ → ℕ → List (ℕ × String)
unfolding has_raw_block
blocks_missing_raw db from to limit =
    let missing = λ (b : BlockRow).
      leb from b.height
      && leb b.height to
      && b.body_captured
      && is_archived b
      && not (has_raw_block db b.id)
      && canonical_block_filter db b.id in
    take (sort_by_height (map (λ (b : BlockRow). (b.height, b.hash)) (retain missing db.blocks)))
      limit

module _ (chain : Chain) (zlib : Zlib) (max_block_bytes : ℕ) where
  unfoldable pub verify : List ℕ → ℕ → String → Result (Unit {0})
  unfolding decode_bound_block
  verify bytes height hash = do
    ensure (leb (length bytes) max_block_bytes)
    bound ← decode_bound_block chain bytes height hash
    ok tt

  unfoldable pub decompress : String → List ℕ → ℕ → Result (List ℕ)
  decompress codec packed raw_len = do
    ensure (str_eq codec codec_name)
    ensure (leb raw_len max_block_bytes)
    out ← require (zlib.inflate packed (raw_len + 1))
    ensure (length out == raw_len)
    ok out

  -- The database afterwards, and whether the bytes were kept.
  unfoldable pub store : Database → ℕ → String → List ℕ → String → ℕ → Result (Database × Bool)
  unfolding has_raw_block verify insert_raw_block
  store db height hash bytes source now = elim (block_id db height hash) [
    | none ↦ ok (db, false)
    | some id ↦ if has_raw_block db id then ok (db, false) else (do
      verify bytes height hash
      ok (insert_raw_block db id codec_name (length bytes) (zlib.deflate bytes) source now, true))
  ]

  unfoldable pub load : Database → ℕ → String → Result (Option (List ℕ))
  unfolding raw_block decompress verify
  load db height hash = elim (raw_block db height hash) [
    | none ↦ ok none
    | some row ↦ do
      bytes ← decompress row.codec row.bytes row.raw_len
      verify bytes height hash
      ok (some bytes)
  ]
