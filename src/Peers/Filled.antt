-- ===== src/Peers/Filled.antt =====
-- permanode/src/import.rs, `fill_gaps`: what a gap that is filled rests on.
use gb_parano1d_permanode.Prelude.{
  ℕ, ◌≡◌, ◌⊎◌, refl, subst, Bool, false, ◌&&◌, Option, none, some, String, List, [], ◌∷◌, ◌==◌, any,
  Bool-cases, Option-cases, inl, inr,
}
use gb_parano1d_permanode.Prelude.Result.{Result, ok, err, Result-cases}
use gb_parano1d_permanode.Store.Rows.{BlockRow, GapRow, Database, update_where}
use gb_parano1d_permanode.Store.Blocks.{
  canonical_hash_at, uncaptured_block_id, block_by_id, mark_body_recovered,
}
use gb_parano1d_permanode.Store.Gaps.{is_open, resolve_gap}
use gb_parano1d_permanode.Store.Bodies.{RetainedBlockInfo, insert_transactions}
use gb_parano1d_permanode.Decode.Retained.{decode_retained_block}
use gb_parano1d_permanode.Raw.Archive
use gb_parano1d_permanode.Indexer.Record.{Env, record_contract_flags}
use gb_parano1d_permanode.Peers.Check.{TxTree, check_body}
use gb_parano1d_permanode.Peers.Whole.{IsWhole, check_body-IsWhole}
use gb_parano1d_permanode.Peers.Written.{
  IsWritten, mark_body_recovered-IsWritten, resolve_gap-IsWritten, record_contract_flags-IsWritten,
  store-IsWritten,
}
use gb_parano1d_permanode.Peers.Fill.{
  Offer, raw, body, skipped, refused, aborted, filled, FillSettings, write_gap, take_body,
  take_offer, fill_gap,
}

-- There is an open gap at a height.
abbrev pub has_open_gap : Database → ℕ → Bool
has_open_gap db height = any (λ (g : GapRow). (g.height == height) && is_open g) db.ingest_gaps

resolve_gap-closes :
    (db : Database) (height now : ℕ) (note : String)
    → has_open_gap (resolve_gap db height now note) height ≡ false
unfolding resolve_gap
resolve_gap-closes db height now note = go db.ingest_gaps
  where
    go :
        (rows : List GapRow)
        → any
            (λ g. (g.height == height) && is_open g)
            (update_where
              (λ g. (g.height == height) && is_open g)
              (λ g. record g { resolved_at = some now; resolution = some note })
              rows)
          ≡ false
    go [] = refl
    go (g ∷ rows) = elim (Bool-cases ((g.height == height) && is_open g)) [
      | inl here ↦ elim (Bool-cases (g.height == height)) [
        | inl same ↦ rw (here, same) (go rows)
        | inr other ↦ rw (here, other) (go rows)
      ]
      | inr elsewhere ↦ rw (elsewhere, elsewhere) (go rows)
    ]

module _ (env : Env) (tree : TxTree) (settings : FillSettings) where
  -- What a body comes from: the bytes that were offered decode to it, or it was offered itself.
  abbrev pub ComesFrom : ℕ → String → RetainedBlockInfo → Result (Option Offer) → Type 0
  ComesFrom height hash retained answer =
      (answer ≡ ok (some (body retained)))
      ⊎ ((bytes : List ℕ) × (answer ≡ ok (some (raw bytes)))
          × (decode_retained_block env.chain bytes height hash ≡ ok retained))

  -- What the writes for a gap leave.
  abbrev pub IsFilledBy : Database → ℕ → ℕ → RetainedBlockInfo → Database → Type 0
  IsFilledBy db height id retained db' =
      IsWritten db id retained db' × (has_open_gap db' height ≡ false)

  write_gap-IsFilledBy :
      (db : Database) (height : ℕ) (hash : String) (id : ℕ) (retained : RetainedBlockInfo)
      (bytes : Option (List ℕ)) (now : ℕ) (db' : Database)
      → write_gap env tree settings db height hash id retained bytes now ≡ filled db'
      → IsFilledBy db height id retained db'
  unfolding write_gap
  write_gap-IsFilledBy db height hash id retained bytes now db' e =
      let note = settings.resolution in
      let source = settings.body_source in
      let written = mark_body_recovered (insert_transactions db id retained) id source in
      let first = mark_body_recovered-IsWritten db id retained source in
      let closed : (d : Database)
          → IsWritten db id retained d
          → filled (resolve_gap d height now note) ≡ filled db'
          → IsFilledBy db height id retained db' =
        λ d done same.
          let eq : resolve_gap d height now note ≡ db' = cc in
          subst (IsFilledBy db height id retained) eq (
            resolve_gap-IsWritten db id retained d height now note done,
            resolve_gap-closes d height now note,
          ) in
      elim (Option-cases bytes) [
        | inl without ↦ closed written first (rw (write_gap, without) at e)
        | inr (b, given) ↦
            let flagged = record_contract_flags env written height hash (some b) in
            let second =
              record_contract_flags-IsWritten db id retained env written height hash (some b)
                first in
            elim (Bool-cases settings.keep_raw) [
              | inr dropped ↦ closed flagged second (rw (write_gap, given, dropped) at e)
              | inl kept ↦
                  elim (Result-cases (
                    Archive.store env.chain env.zlib env.max_block_bytes flagged height hash b
                      source now)) [
                        | inl failing ↦
                            let e' : aborted ≡ filled db' =
                              rw (write_gap, given, kept, failing) at e in
                            cc
                        | inr ((stored, new), done) ↦
                            closed stored
                              (store-IsWritten db id retained env flagged height hash b source now
                                stored new done second)
                              (rw (write_gap, given, kept, done) at e)
                      ]
            ]
      ]

  take_body-IsWhole :
      (db : Database) (height : ℕ) (hash : String) (id : ℕ) (root : String)
      (retained : RetainedBlockInfo) (bytes : Option (List ℕ)) (now : ℕ) (db' : Database)
      → take_body env tree settings db height hash id root retained bytes now ≡ filled db'
      → IsWhole tree retained root × IsFilledBy db height id retained db'
  unfolding take_body
  take_body-IsWhole db height hash id root retained bytes now db' e =
      elim (Result-cases (check_body tree retained root)) [
        | inl bad ↦ let e' : refused ≡ filled db' = rw (take_body, bad) at e in cc
        | inr (u, good) ↦ (
          (check_body-IsWhole tree retained root).0 good,
          write_gap-IsFilledBy db height hash id retained bytes now db' (rw (take_body, good) at e),
        )
      ]

  take_offer-IsWhole :
      (db : Database) (height : ℕ) (hash : String) (id : ℕ) (root : String)
      (answer : Result (Option Offer)) (now : ℕ) (db' : Database)
      → take_offer env tree settings db height hash id root answer now ≡ filled db'
      → (retained : RetainedBlockInfo) × ComesFrom height hash retained answer
        × IsWhole tree retained root
        × IsFilledBy db height id retained db'
  unfolding take_offer
  take_offer-IsWhole db height hash id root err now db' e = cc
  take_offer-IsWhole db height hash id root (ok none) now db' e = cc
  take_offer-IsWhole db height hash id root (ok (some (body retained))) now db' e =
      let (whole, closed) = take_body-IsWhole db height hash id root retained none now db' e in
      (retained, inl refl, whole, closed)
  take_offer-IsWhole db height hash id root (ok (some (raw bytes))) now db' e =
      elim (Result-cases (decode_retained_block env.chain bytes height hash)) [
        | inl bad ↦ let e' : refused ≡ filled db' = rw (take_offer, bad) at e in cc
        | inr (retained, good) ↦
            let (whole, closed) =
              take_body-IsWhole db height hash id root retained (some bytes) now db'
                (rw (take_offer, good) at e) in
            (retained, inr (bytes, refl, good), whole, closed)
      ]

  module _ {S : Type 0} (find : S → ℕ → String → S × Result (Option Offer)) where
    -- What a filled gap rests on.
    pub record Filled (db : Database) (height : ℕ) (asked : S) (after : Database) : Type 0 where
      pub id : ℕ
      pub hash : String
      pub canonical : canonical_hash_at db height ≡ some (id, hash)
      pub block : ℕ
      pub lacking : uncaptured_block_id db height hash ≡ some block
      pub row : BlockRow
      pub on_record : block_by_id db block ≡ some row
      pub retained : RetainedBlockInfo
      pub origin : ComesFrom height hash retained (find asked height hash).1
      pub whole : IsWhole tree retained row.tx_root
      pub written : IsWritten db block retained after
      pub closed : has_open_gap after height ≡ false

    -- A gap is filled only where the canonical block of its height has no body, with a body that was
    -- offered for this block, or decoded from bytes offered for it, and that is whole by the root on
    -- record here. Afterwards the tables of the transactions and their parts are those that inserting
    -- this body gives, but for the contract flags, each of its positions has a row in the block, the
    -- block has a body, and the height has no open gap.
    pub fill_gap-Filled :
        (db : Database) (height : ℕ) (asked : S) (now : ℕ) (after : Database)
        → (fill_gap env tree settings find db height asked now).1 ≡ filled after
        → Filled db height asked after
    unfolding fill_gap
    fill_gap-Filled db height asked now after e =
        elim (Option-cases (canonical_hash_at db height)) [
          | inl unknown ↦ let e' : skipped ≡ filled after = rw (fill_gap, unknown) at e in cc
          | inr ((id, hash), known) ↦ elim (Option-cases (uncaptured_block_id db height hash)) [
            | inl recovered ↦
                let e' : skipped ≡ filled after = rw (fill_gap, known, recovered) at e in cc
            | inr (block, lacking) ↦ elim (Option-cases (block_by_id db block)) [
              | inl missing ↦
                  let e' : aborted ≡ filled after = rw (fill_gap, known, lacking, missing) at e in
                  cc
              | inr (b, row) ↦
                  let (retained, origin, whole, closed) =
                    take_offer-IsWhole db height hash block b.tx_root (find asked height hash).1 now
                      after (rw (fill_gap, known, lacking, row) at e) in
                  record {
                    id = id;
                    hash = hash;
                    canonical = known;
                    block = block;
                    lacking = lacking;
                    row = b;
                    on_record = row;
                    retained = retained;
                    origin = origin;
                    whole = whole;
                    written = closed.0;
                    closed = closed.1;
                  }
            ]
          ]
        ]
