-- ===== src/Indexer/Canonical.antt =====
-- permanode/src/indexer.rs: what recording and re-checking a height do to the canonical blocks.
use gb_parano1d_permanode.Prelude.{
  ℕ, suc, ◌≤◌, ◌<◌, ◌≡◌, refl, ap, ◌∙◌, Bool, true, false, ◌==◌, Option, none, some, String,
  Bool-cases, Option-cases, inl, inr, arith, str_eq, eq_iff,
}
use native.Mathlib.Nat.{le_refl}
use gb_parano1d_permanode.Prelude.Result.{Result, ok, ◌>>=◌, require}
use gb_parano1d_permanode.Store.Rows.{Database}
use gb_parano1d_permanode.Store.Blocks.{
  BlockHeaderInfo, canonical_hash_at, uncaptured_block_id, mark_body_recovered,
  insert_block_header_row,
}
use gb_parano1d_permanode.Store.Gaps.{record_gap}
use gb_parano1d_permanode.Store.Bodies.{RetainedBlockInfo, insert_transactions}
use gb_parano1d_permanode.Store.Index.{keys, log}
use gb_parano1d_permanode.Store.Headers.{
  IsSound, IsRecorded, IsLogged-weaken, next_key, insert_block_header_row-canonical,
}
use gb_parano1d_permanode.Store.Frame.{
  SameIndex, SameIndex-trans, canonical_hash_at-SameIndex, IsSound-SameIndex,
  insert_transactions-SameIndex, mark_body_recovered-SameIndex, resolve_gap-SameIndex,
  record_gap-SameIndex,
}
use gb_parano1d_permanode.Indexer.Node.{BlockDetailsInfo}
use gb_parano1d_permanode.Indexer.Record.{store_block, upgrade_gap, record_gap_block}

pub IsRecorded-SameIndex :
    (db : Database) (h : BlockHeaderInfo) (now id : ℕ) (a b : Database)
    → SameIndex a b
    → IsRecorded db h now id a
    → IsRecorded db h now id b
IsRecorded-SameIndex db h now id a b same (blocks, sound) = (
  λ height. canonical_hash_at-SameIndex a b height same ∙ blocks height,
  IsSound-SameIndex a b (suc now) same sound,
)

pub IsSound-later :
    (db : Database) (now now' : ℕ)
    → now ≤ now'
    → IsSound (keys db) (log db) now
    → IsSound (keys db) (log db) now'
IsSound-later db now now' le sound = record {
  numbered = sound.numbered;
  timed = sound.timed;
  logged = IsLogged-weaken (next_key (keys db)) now _ now' (log db) (le_refl _) le sound.logged;
}

-- A block that is canonical already is recorded.
pub IsRecorded-known :
    (db : Database) (h : BlockHeaderInfo) (now id : ℕ) (known : String)
    → IsSound (keys db) (log db) now
    → canonical_hash_at db h.height ≡ some (id, known)
    → str_eq known h.hash ≡ true
    → IsRecorded db h now id db
IsRecorded-known db h now id known sound e same = (
  λ height. elim (Bool-cases (height == h.height)) [
    | inl here ↦
        let height_eq : height ≡ h.height = ground arith in
        let hash_eq : known ≡ h.hash = (eq_iff known h.hash).0 same in
        rw here
          (ap (canonical_hash_at db) height_eq ∙ e ∙ ap (λ (x : String). some (id, x)) hash_eq)
    | inr there ↦ rw there refl
  ],
  IsSound-later db now (suc now) (omega arith) sound,
)

pub upgrade_gap-SameIndex :
    (db : Database) (height id : ℕ) (retained : RetainedBlockInfo) (source : String) (now : ℕ)
    → SameIndex db (upgrade_gap db height id retained source now)
unfolding upgrade_gap
upgrade_gap-SameIndex db height id retained source now =
    let filled = insert_transactions db id retained in
    let marked = mark_body_recovered filled id source in
    SameIndex-trans db filled _ (insert_transactions-SameIndex db id retained) (
      SameIndex-trans filled marked _ (mark_body_recovered-SameIndex filled id source)
        (resolve_gap-SameIndex marked height now _))

-- The database that a step returns, in which the block is recorded.
abbrev pub Records : Database → BlockHeaderInfo → ℕ → Result Database → Type 0
Records db h now r = (db' : Database) × (r ≡ ok db') × (id : ℕ) × IsRecorded db h now id db'

module _ (db : Database) (h : BlockHeaderInfo) (now : ℕ) (pos : 0 < now)
    (sound : IsSound (keys db) (log db) now) where
  written-Records :
      (captured : Bool) (source : Option String) (write : ℕ → Database → Database)
      → ((id : ℕ) (d : Database) → SameIndex d (write id d))
      → Records db h now (
          require (insert_block_header_row db h captured source now)
          >>= (λ row. ok (write row.0 row.1)))
  written-Records captured source write same =
      let (id, db', row, recorded) =
        insert_block_header_row-canonical db h captured source now pos sound in
      (
        write id db',
        rw row refl,
        id,
        IsRecorded-SameIndex db h now id db' (write id db') (same id db') recorded,
      )

  pub store_block-Records :
      (retained : RetainedBlockInfo) (source : String)
      → Records db h now (store_block db h retained source now)
  unfolding store_block upgrade_gap
  store_block-Records retained source =
      let fresh =
        written-Records true (some source)
          (λ (id : ℕ) (d : Database). insert_transactions d id retained)
          (λ id d. insert_transactions-SameIndex d id retained) in
      elim (Option-cases (canonical_hash_at db h.height)) [
        | inl absent ↦ rw (absent, store_block) fresh
        | inr ((id, known), e) ↦ elim (Bool-cases (str_eq known h.hash)) [
          | inr other ↦ rw (e, other, store_block) fresh
          | inl same ↦
              let here = IsRecorded-known db h now id known sound e same in
              elim (Option-cases (uncaptured_block_id db h.height h.hash)) [
                | inl captured ↦ rw (e, same, captured, store_block) (db, refl, id, here)
                | inr (gap_id, missing) ↦
                    rw (e, same, missing, store_block)
                      (
                        upgrade_gap db h.height gap_id retained source now,
                        refl,
                        id,
                        IsRecorded-SameIndex db h now id db _
                            (upgrade_gap-SameIndex db h.height gap_id retained source now) here,
                      )
              ]
        ]
      ]

  pub record_gap_block-Records :
      (details : BlockDetailsInfo) (note : String)
      → details.header ≡ h
      → Records db h now (record_gap_block db details note now)
  unfolding record_gap_block
  record_gap_block-Records details note eq = rw eq (
      let fresh =
        written-Records false none
          (λ (id : ℕ) (d : Database). record_gap d h.height (some h.hash) now note)
          (λ id d. record_gap-SameIndex d h.height (some h.hash) now note) in
      elim (Option-cases (canonical_hash_at db h.height)) [
        | inl absent ↦ rw (absent, record_gap_block) fresh
        | inr ((id, known), e) ↦ elim (Bool-cases (str_eq known h.hash)) [
          | inr other ↦ rw (e, other, record_gap_block) fresh
          | inl same ↦
              rw (e, same, record_gap_block)
                (
                  record_gap db h.height (some h.hash) now note,
                  refl,
                  id,
                  IsRecorded-SameIndex db h now id db _
                      (record_gap-SameIndex db h.height (some h.hash) now note)
                      (IsRecorded-known db h now id known sound e same),
                )
        ]
      ])
