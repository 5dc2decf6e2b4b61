-- ===== src/Indexer/Stored.antt =====
-- permanode/src/indexer.rs, `ingest_height`: what becomes of the body of a height.
use gb_parano1d_permanode.Prelude.{
  ℕ, ◌<◌, ◌≡◌, ◌⊎◌, refl, ap, subst, true, ◌||◌, none, some, String, false, str_eq, eq_iff,
  Bool-cases, Option-cases, inl, inr,
}
use gb_parano1d_permanode.Prelude.Result.{Result, ok, ◌>>=◌}
use gb_parano1d_permanode.Emission.Schedule.{v2_active}
use gb_parano1d_permanode.Store.Rows.{Database}
use gb_parano1d_permanode.Store.Blocks.{
  BlockHeaderInfo, canonical_hash_at, uncaptured_block_id, mark_body_recovered,
}
use gb_parano1d_permanode.Store.Gaps.{record_gap, resolve_gap}
use gb_parano1d_permanode.Store.Bodies.{RetainedBlockInfo, insert_transactions, set_totals}
use gb_parano1d_permanode.Store.Index.{keys, log}
use gb_parano1d_permanode.Store.Headers.{IsSound, IsRecorded, insert_block_header_row-canonical}
use gb_parano1d_permanode.Store.Frame.{
  SameIndex-trans, insert_transactions-SameIndex, record_gap-SameIndex,
}
use gb_parano1d_permanode.Store.Marked.{all_of-imp}
use gb_parano1d_permanode.Peers.Written.{has_places, insert_each-placed}
use gb_parano1d_permanode.Indexer.Node.{BlockDetailsInfo, RpcClient, Config}
use gb_parano1d_permanode.Indexer.Body.{BodyOutcome, store, gap, resolve_body, raw_for}
use gb_parano1d_permanode.Indexer.Record.{
  Env, record_contract_flags, keep_raw, write_body, store_block, upgrade_gap, record_gap_block,
  checked, ingest_outcome, ingest_note, ingest_height,
}
use gb_parano1d_permanode.Indexer.Frame.{
  record_contract_flags-SameIndex, keep_raw-SameIndex, checked-SameIndex,
}
use gb_parano1d_permanode.Indexer.Canonical.{
  IsRecorded-SameIndex, IsRecorded-known, upgrade_gap-SameIndex,
}
use gb_parano1d_permanode.Indexer.Ingest.{details_of, resolve_body-header}
use gb_parano1d_permanode.Indexer.Places.{
  has_gap_entry, KeepsPlaces, record_gap-has_gap_entry, record_contract_flags-KeepsPlaces,
  keep_raw-KeepsPlaces, checked-KeepsPlaces,
}

-- What becomes of a body with a source: its transactions are in the block that is canonical now, or
-- in the row of the block that lacked a body; or the block was canonical before and no row of it
-- lacks one.
abbrev pub IsBodyKept : Database → BlockHeaderInfo → ℕ → RetainedBlockInfo → Database → Type 0
IsBodyKept db h id retained db' =
    (has_places db'.transactions id retained.transactions ≡ true)
    ⊎ (((lacking : ℕ) × (uncaptured_block_id db h.height h.hash ≡ some lacking)
          × (has_places db'.transactions lacking retained.transactions ≡ true))
        ⊎ ((canonical_hash_at db h.height ≡ some (id, h.hash))
            × (uncaptured_block_id db h.height h.hash ≡ none)))

has_places-kept :
    (a b : Database) (id : ℕ) (retained : RetainedBlockInfo)
    → KeepsPlaces a b
    → has_places a.transactions id retained.transactions ≡ true
    → has_places b.transactions id retained.transactions ≡ true
has_places-kept a b id retained keeps held =
    all_of-imp _ _ retained.transactions (λ tx. keeps id tx.position) held

IsBodyKept-kept :
    (db : Database) (h : BlockHeaderInfo) (id : ℕ) (retained : RetainedBlockInfo) (a b : Database)
    → KeepsPlaces a b
    → IsBodyKept db h id retained a
    → IsBodyKept db h id retained b
IsBodyKept-kept db h id retained a b keeps (inl held) =
    inl (has_places-kept a b id retained keeps held)
IsBodyKept-kept db h id retained a b keeps (inr (inl (lacking, found, held))) =
    inr (inl (lacking, found, has_places-kept a b lacking retained keeps held))
IsBodyKept-kept db h id retained a b keeps (inr (inr whole)) = inr (inr whole)

insert_transactions-has_places :
    (db : Database) (id : ℕ) (retained : RetainedBlockInfo)
    → has_places (insert_transactions db id retained).transactions id retained.transactions ≡ true
unfolding insert_transactions
insert_transactions-has_places db id retained =
    insert_each-placed id (set_totals db id retained) retained.transactions

-- The database that a step returns, with the block recorded and what holds of it.
abbrev Handles : Database → BlockHeaderInfo → ℕ → (ℕ → Database → Type 0) → Result Database → Type 0
Handles db h now Holds r =
    (db' : Database) × (r ≡ ok db') × (id : ℕ) × IsRecorded db h now id db' × Holds id db'

module _ (db : Database) (h : BlockHeaderInfo) (now : ℕ) (pos : 0 < now)
    (sound : IsSound (keys db) (log db) now) where
  store_block-Handles :
      (retained : RetainedBlockInfo) (source : String)
      → Handles db h now (λ id. IsBodyKept db h id retained) (store_block db h retained source now)
  unfolding store_block upgrade_gap mark_body_recovered resolve_gap
  store_block-Handles retained source =
      let (new, d, row, recorded) =
        insert_block_header_row-canonical db h true (some source) now pos sound in
      let end = insert_transactions d new retained in
      let now_recorded =
        IsRecorded-SameIndex db h now new d end (insert_transactions-SameIndex d new retained)
          recorded in
      let places = insert_transactions-has_places d new retained in
      elim (Option-cases (canonical_hash_at db h.height)) [
        | inl absent ↦ rw (absent, store_block, row) (end, refl, new, now_recorded, inl places)
        | inr ((id, known), e) ↦ elim (Bool-cases (str_eq known h.hash)) [
          | inr other ↦ rw (e, other, store_block, row) (end, refl, new, now_recorded, inl places)
          | inl same ↦
              let here = IsRecorded-known db h now id known sound e same in
              let hash_eq : known ≡ h.hash = (eq_iff known h.hash).0 same in
              elim (Option-cases (uncaptured_block_id db h.height h.hash)) [
                | inl captured ↦
                    rw (e, same, captured, store_block)
                      (
                        db,
                        refl,
                        id,
                        here,
                        inr (inr (ap (λ (x : String). some (id, x)) hash_eq, refl)),
                      )
                | inr (lacking, missing) ↦
                    rw (e, same, missing, store_block)
                      (
                        upgrade_gap db h.height lacking retained source now,
                        refl,
                        id,
                        IsRecorded-SameIndex db h now id db _
                            (upgrade_gap-SameIndex db h.height lacking retained source now) here,
                        inr (
                            inl
                              (lacking, refl, insert_transactions-has_places db lacking retained)),
                      )
              ]
        ]
      ]

  record_gap_block-Handles :
      (details : BlockDetailsInfo) (note : String)
      → details.header ≡ h
      → Handles db h now
          (λ id d. has_gap_entry d h.height ≡ true)
          (record_gap_block db details note now)
  unfolding record_gap_block
  record_gap_block-Handles details note eq = rw eq (
      let (new, d, row, recorded) =
        insert_block_header_row-canonical db h false none now pos sound in
      let logged = λ (x : Database). record_gap x h.height (some h.hash) now note in
      let entry = λ (x : Database). record_gap-has_gap_entry x h.height (some h.hash) now note in
      let now_recorded =
        IsRecorded-SameIndex db h now new d (logged d)
          (record_gap-SameIndex d h.height (some h.hash) now note) recorded in
      elim (Option-cases (canonical_hash_at db h.height)) [
        | inl absent ↦
            rw (absent, record_gap_block, row) (logged d, refl, new, now_recorded, entry d)
        | inr ((id, known), e) ↦ elim (Bool-cases (str_eq known h.hash)) [
          | inr other ↦
              rw (e, other, record_gap_block, row) (logged d, refl, new, now_recorded, entry d)
          | inl same ↦
              rw (e, same, record_gap_block)
                (
                  logged db,
                  refl,
                  id,
                  IsRecorded-SameIndex db h now id db _
                      (record_gap-SameIndex db h.height (some h.hash) now note)
                      (IsRecorded-known db h now id known sound e same),
                  entry db,
                )
        ]
      ])

-- What becomes of a height by what was decided for it: its body is kept, or it has a gap entry.
abbrev pub IsHandled : Database → BodyOutcome → ℕ → Database → Type 0
IsHandled db (store details retained source at_hand) id db' =
    IsBodyKept db details.header id retained db'
IsHandled db (gap details note) id db' = has_gap_entry db' details.header.height ≡ true

module _ (env : Env) (rpc : RpcClient) (cfg : Config) (db : Database) (height now : ℕ)
    (pos : 0 < now) (sound : IsSound (keys db) (log db) now) where
  ingest_outcome-Handles :
      (outcome : BodyOutcome)
      → Handles db
          (details_of outcome).header
          now
          (IsHandled db outcome)
          (ingest_outcome env rpc cfg db height outcome now)
  unfolding ingest_outcome write_body
  ingest_outcome-Handles (gap details note) =
      record_gap_block-Handles db details.header now pos sound details note refl
  ingest_outcome-Handles (store details retained source at_hand) =
      let h = details.header in
      let wanted = cfg.decoder_selfcheck || cfg.archive_raw_blocks || v2_active height in
      let raw = raw_for rpc height wanted at_hand in
      let (stored, eq, id, recorded, body) =
        store_block-Handles db h now pos sound retained source in
      let flagged = record_contract_flags env stored height h.hash raw in
      let kept = keep_raw env cfg flagged height h.hash raw "node" now in
      let end = checked env cfg kept height h.hash retained source raw in
      let same =
        SameIndex-trans stored flagged end
          (record_contract_flags-SameIndex env stored height h.hash raw)
          (SameIndex-trans flagged kept end
            (keep_raw-SameIndex env cfg flagged height h.hash raw "node" now)
            (checked-SameIndex env cfg kept height h.hash retained source raw)) in
      let keeps : KeepsPlaces stored end = λ at place held.
        checked-KeepsPlaces env cfg kept height h.hash retained source raw at place (
          keep_raw-KeepsPlaces env cfg flagged height h.hash raw "node" now at place
            (record_contract_flags-KeepsPlaces env stored height h.hash raw at place held)) in
      (
        end,
        ap
            (λ (r : Result Database).
              r
              >>= (λ d. ok (
                  keep_raw env cfg (record_contract_flags env d height h.hash raw) height h.hash raw
                    "node" now))
              >>= (λ d. ok (checked env cfg d height h.hash retained source raw)))
            eq,
        id,
        IsRecorded-SameIndex db h now id stored end same recorded,
        IsBodyKept-kept db h id retained stored end keeps body,
      )

-- A height that the node has is recorded: the step succeeds, its block is the canonical one there
-- afterwards, every other height keeps its canonical block, and the database stays sound. If a
-- body was decided on for it, each position of the body has a row in the canonical block or in the
-- row of the block that lacked a body, unless the block was canonical before and lacked none;
-- otherwise the height has a gap entry, open or resolved.
pub ingest_height-IsHandled :
    (env : Env) (rpc : RpcClient) (cfg : Config) (db : Database) (height now : ℕ)
    (details : BlockDetailsInfo)
    → 0 < now
    → IsSound (keys db) (log db) now
    → rpc.get_block_details height ≡ ok (some details)
    → (db' : Database) × (ingest_height env rpc cfg db height now ≡ ok (some db'))
      × (id : ℕ) × IsRecorded db details.header now id db'
      × IsHandled db (resolve_body env.chain rpc cfg details (ingest_note env)) id db'
unfolding ingest_height
ingest_height-IsHandled env rpc cfg db height now details pos sound answer =
    let outcome = resolve_body env.chain rpc cfg details (ingest_note env) in
    let (db', eq, id, recorded, handled) =
      subst
        (λ (h : BlockHeaderInfo).
          Handles db h now (IsHandled db outcome)
            (ingest_outcome env rpc cfg db height outcome now))
        (resolve_body-header env.chain rpc cfg details (ingest_note env))
        (ingest_outcome-Handles env rpc cfg db height now pos sound outcome) in
    (db', rw (ingest_height, answer, eq) refl, id, recorded, handled)
