-- ===== src/Raw/Roundtrip.antt =====
-- permanode/src/raw.rs: `store` and `load` together.
use gb_parano1d_permanode.Prelude.{
  ℕ, ◌+◌, ◌≤◌, ◌≡◌, refl, Bool, true, false, none, some, String, List, ◌∷◌, ◌==◌, leb, length,
  arith, Bool-cases, Option-cases, inl, inr, ◌⊎◌, subst,
}
use gb_parano1d_permanode.Prelude.Result.{ok, err, Result-cases}
use gb_parano1d_permanode.Store.Rows.{RawRow, Database}
use gb_parano1d_permanode.Store.Blocks.{block_id}
use gb_parano1d_permanode.Decode.Chain.{Chain, Block}
use gb_parano1d_permanode.Decode.Bound.{decode_bound_block}
use gb_parano1d_permanode.Raw.Archive.{
  Zlib, codec_name, has_raw_block, raw_block, verify, decompress, store, load,
}

module _ (chain : Chain) (zlib : Zlib) (max_block_bytes : ℕ) where
  abbrev kept_row : ℕ → List ℕ → String → ℕ → RawRow
  kept_row id bytes source now = record {
    block_id = id;
    codec = codec_name;
    raw_len = length bytes;
    bytes = zlib.deflate bytes;
    source = source;
    stored_at = now;
  }

  -- What an accepted store has done.
  pub store-cases :
      (db : Database) (height : ℕ) (hash : String) (bytes : List ℕ) (source : String) (now : ℕ)
      (db' : Database) (kept : Bool)
      → store chain zlib max_block_bytes db height hash bytes source now ≡ ok (db', kept)
      → ((kept ≡ false) × (db' ≡ db))
        ⊎ ((id : ℕ) × (kept ≡ true)
            × (block_id db height hash ≡ some id)
            × (has_raw_block db id ≡ false)
            × (verify chain zlib max_block_bytes bytes height hash ≡ ok tt)
            × (db' ≡ record db { raw_blocks = kept_row id bytes source now ∷ db.raw_blocks }))
  unfolding store
  store-cases db height hash bytes source now db' kept e =
      elim (Option-cases (block_id db height hash)) [
        | inl unknown ↦
            let e' : ok (db, false) ≡ ok (db', kept) = rw (unknown, store) at e in inl (cc, cc)
        | inr (id, known) ↦ elim (Bool-cases (has_raw_block db id)) [
          | inl old ↦
              let e' : ok (db, false) ≡ ok (db', kept) = rw (known, old, store) at e in inl (cc, cc)
          | inr new ↦ elim (Result-cases (verify chain zlib max_block_bytes bytes height hash)) [
            | inl bad ↦ let e' : err ≡ ok (db', kept) = rw (known, new, bad, store) at e in cc
            | inr (u, good) ↦
                let row : Database = record db {
                  raw_blocks = kept_row id bytes source now ∷ db.raw_blocks;
                } in
                let e' : ok (row, true) ≡ ok (db', kept) = rw (known, new, good, store) at e in
                inr (id, cc, known, new, good, cc)
          ]
        ]
      ]

  verify-fits :
      (bytes : List ℕ) (height : ℕ) (hash : String)
      → verify chain zlib max_block_bytes bytes height hash ≡ ok tt
      → leb (length bytes) max_block_bytes ≡ true
  unfolding verify
  verify-fits bytes height hash e = elim (Bool-cases (leb (length bytes) max_block_bytes)) [
    | inl fits ↦ fits
    | inr large ↦ let e' : err ≡ ok tt = rw (large, verify) at e in cc
  ]

  raw_block-newest :
      (db : Database) (height : ℕ) (hash : String) (id : ℕ) (row : RawRow)
      → block_id db height hash ≡ some id
      → row.block_id ≡ id
      → raw_block (record db { raw_blocks = row ∷ db.raw_blocks }) height hash ≡ some row
  unfolding raw_block
  raw_block-newest db height hash id row known own =
      let self : (row.block_id == id) ≡ true = ground arith in rw (raw_block, known, self) refl

  decompress-deflate :
      (bytes : List ℕ)
      → zlib.inflate (zlib.deflate bytes) (length bytes + 1) ≡ some bytes
      → leb (length bytes) max_block_bytes ≡ true
      → decompress chain zlib max_block_bytes codec_name (zlib.deflate bytes) (length bytes)
        ≡ ok bytes
  unfolding decompress
  decompress-deflate bytes inflated fits =
      let self : (length bytes == length bytes) ≡ true = ground arith in
      rw (fits, inflated, self, decompress) refl

  load-present :
      (db : Database) (height : ℕ) (hash : String) (bytes : List ℕ) (row : RawRow)
      → raw_block db height hash ≡ some row
      → decompress chain zlib max_block_bytes row.codec row.bytes row.raw_len ≡ ok bytes
      → verify chain zlib max_block_bytes bytes height hash ≡ ok tt
      → load chain zlib max_block_bytes db height hash ≡ ok (some bytes)
  unfolding load
  load-present db height hash bytes row present unpacked good =
      rw (load, present, unpacked, good) refl

  -- A block that `store` keeps is what `load` reads back, where the codec restores what it packed.
  pub load-store :
      (db db' : Database) (height : ℕ) (hash : String) (bytes : List ℕ) (source : String) (now : ℕ)
      → ((packed : List ℕ) (limit : ℕ)
          → length packed ≤ limit
          → zlib.inflate (zlib.deflate packed) limit ≡ some packed)
      → store chain zlib max_block_bytes db height hash bytes source now ≡ ok (db', true)
      → load chain zlib max_block_bytes db' height hash ≡ ok (some bytes)
  load-store db db' height hash bytes source now codec e =
      elim (store-cases db height hash bytes source now db' true e) [
        | inl (unkept, same) ↦ cc
        | inr (id, was_kept, known, new, good, eq) ↦
            let row = kept_row id bytes source now in
            let found = raw_block-newest db height hash id row known refl in
            let restored =
              decompress-deflate bytes (codec bytes (length bytes + 1) (omega arith))
                (verify-fits bytes height hash good) in
            rw eq (load-present _ height hash bytes row found restored good)
      ]

  verify-binds :
      (bytes : List ℕ) (height : ℕ) (hash : String)
      → verify chain zlib max_block_bytes bytes height hash ≡ ok tt
      → (block : Block) × (decode_bound_block chain bytes height hash ≡ ok block)
  unfolding verify
  verify-binds bytes height hash e =
      elim (Result-cases (decode_bound_block chain bytes height hash)) [
        | inl bad ↦
            let e' : err ≡ ok tt = rw (verify-fits bytes height hash e, bad, verify) at e in cc
        | inr bound ↦ bound
      ]

  -- What is read back is bound to its height and hash, and within the size limit.
  pub load-bound :
      (db : Database) (height : ℕ) (hash : String) (bytes : List ℕ)
      → load chain zlib max_block_bytes db height hash ≡ ok (some bytes)
      → (leb (length bytes) max_block_bytes ≡ true)
        × ((block : Block) × (decode_bound_block chain bytes height hash ≡ ok block))
  unfolding load
  load-bound db height hash bytes e = elim (Option-cases (raw_block db height hash)) [
    | inl absent ↦ let e' : ok none ≡ ok (some bytes) = rw (absent, load) at e in cc
    | inr (row, present) ↦
        elim (Result-cases
          (decompress chain zlib max_block_bytes row.codec row.bytes row.raw_len)) [
            | inl damaged ↦ let e' : err ≡ ok (some bytes) = rw (present, damaged, load) at e in cc
            | inr (out, unpacked) ↦
                elim (Result-cases (verify chain zlib max_block_bytes out height hash)) [
                  | inl bad ↦
                      let e' : err ≡ ok (some bytes) = rw (present, unpacked, bad, load) at e in cc
                  | inr (u, good) ↦
                      let e' : ok (some out) ≡ ok (some bytes) =
                        rw (present, unpacked, good, load) at e in
                      let same : out ≡ bytes = cc in
                      let proven =
                        subst
                          (λ (x : List ℕ). verify chain zlib max_block_bytes x height hash ≡ ok u)
                          same good in
                      (verify-fits bytes height hash proven, verify-binds bytes height hash proven)
                ]
          ]
  ]
