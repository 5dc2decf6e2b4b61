-- ===== src/Indexer/Places.antt =====
-- permanode/src/indexer.rs: the writes after a body is stored keep its transactions, and a gap that
-- is recorded has an entry.
use gb_parano1d_permanode.Prelude.{
  ℕ, ◌≡◌, refl, ◌∙◌, Bool, true, not, ◌&&◌, Option, none, some, String, List, [], ◌∷◌, false, ◌==◌,
  any, str_eq, arith, Bool-cases, Option-cases, inl, inr,
}
use gb_parano1d_permanode.Prelude.Result.{Result-cases}
use gb_parano1d_permanode.Emission.Schedule.{v2_active}
use gb_parano1d_permanode.Store.Rows.{
  TransactionRow, GapRow, Database, update_where, insert_or_ignore,
}
use gb_parano1d_permanode.Store.Blocks.{block_id}
use gb_parano1d_permanode.Store.Gaps.{same_gap, record_gap, get_state, set_state}
use gb_parano1d_permanode.Store.Bodies.{RetainedBlockInfo, is_tx, set_contract_flags}
use gb_parano1d_permanode.Store.Rows.{number, text}
use gb_parano1d_permanode.Decode.Retained.{decode_retained_block}
use gb_parano1d_permanode.Decode.Flags.{contract_flags}
use gb_parano1d_permanode.Raw.Archive
use gb_parano1d_permanode.Raw.Roundtrip.{store-cases}
use gb_parano1d_permanode.Peers.Written.{any-update_where, set_flags-places}
use gb_parano1d_permanode.Indexer.Node.{Config}
use gb_parano1d_permanode.Indexer.Record.{
  Env, record_contract_flags, keep_raw, checked, selfcheck, increment_mismatch_counter,
}

-- There is an entry for a gap at a height, open or resolved.
abbrev pub has_gap_entry : Database → ℕ → Bool
has_gap_entry db height = any (λ (g : GapRow). g.height == height) db.ingest_gaps

-- The positions of transactions that have a row stay.
abbrev pub KeepsPlaces : Database → Database → Type 0
KeepsPlaces a b =
    (at place : ℕ)
    → any (is_tx at place) a.transactions ≡ true
    → any (is_tx at place) b.transactions ≡ true

entry-flipped :
    (height : ℕ) (rows : List GapRow)
    → any (λ (g : GapRow). height == g.height) rows ≡ true
    → any (λ (g : GapRow). g.height == height) rows ≡ true
entry-flipped height [] e = e
entry-flipped height (g ∷ rows) e = elim (Bool-cases (g.height == height)) [
  | inl hit ↦ rw hit refl
  | inr miss ↦
      let miss' : (height == g.height) ≡ false = ground arith in
      rw miss (entry-flipped height rows (rw miss' at e))
]

pub record_gap-has_gap_entry :
    (db : Database) (height : ℕ) (hash : Option String) (now : ℕ) (note : String)
    → has_gap_entry (record_gap db height hash now note) height ≡ true
unfolding record_gap
record_gap-has_gap_entry db height hash now note =
    let self : (height == height) ≡ true = ground arith in go db.ingest_gaps self
  where
    new : GapRow
    new = record {
      height = height;
      hash = hash;
      detected_at = now;
      note = note;
      resolved_at = none;
      resolution = none;
    }

    go :
        (rows : List GapRow)
        → (height == height) ≡ true
        → any (λ (g : GapRow). g.height == height) (insert_or_ignore same_gap new rows) ≡ true
    go rows self = elim (Bool-cases (any (same_gap new) rows)) [
      | inl known ↦ rw known (entry-flipped height rows known)
      | inr fresh ↦ rw (fresh, self) refl
    ]

set_contract_flags-KeepsPlaces :
    (db : Database) (height : ℕ) (hash : String) (flags : List (ℕ × ℕ))
    → KeepsPlaces db (set_contract_flags db height hash flags)
unfolding set_contract_flags
set_contract_flags-KeepsPlaces db height hash flags at place held =
    elim (Option-cases (block_id db height hash)) [
      | inl unknown ↦ rw (unknown, set_contract_flags) held
      | inr (id, found) ↦
          let was_flagged =
            λ (t : TransactionRow). (t.block_id == id) && not (t.contract_flags == 0) in
          let reset = λ (t : TransactionRow). record t { contract_flags = 0 } in
          rw (found, set_contract_flags)
            (set_flags-places at place id flags (update_where was_flagged reset db.transactions)
              ∙ any-update_where (is_tx at place) was_flagged reset db.transactions (λ t. refl)
              ∙ held)
    ]

module _ (env : Env) where
  pub record_contract_flags-KeepsPlaces :
      (db : Database) (height : ℕ) (hash : String) (raw : Option (List ℕ))
      → KeepsPlaces db (record_contract_flags env db height hash raw)
  unfolding record_contract_flags
  record_contract_flags-KeepsPlaces db height hash raw at place held =
      elim (Bool-cases (v2_active height)) [
        | inr early ↦ rw (early, record_contract_flags) held
        | inl v2 ↦ elim (Option-cases raw) [
          | inl absent ↦ rw (v2, absent, record_contract_flags) held
          | inr (bytes, at_hand) ↦
              elim (Result-cases (contract_flags env.chain bytes height hash)) [
                | inl e ↦ rw (v2, at_hand, e, record_contract_flags) held
                | inr (flags, e) ↦
                    rw (v2, at_hand, e, record_contract_flags)
                      (set_contract_flags-KeepsPlaces db height hash flags at place held)
              ]
        ]
      ]

  pub keep_raw-KeepsPlaces :
      (cfg : Config) (db : Database) (height : ℕ) (hash : String) (raw : Option (List ℕ))
      (source : String) (now : ℕ)
      → KeepsPlaces db (keep_raw env cfg db height hash raw source now)
  unfolding keep_raw
  keep_raw-KeepsPlaces cfg db height hash raw source now at place held =
      elim (Bool-cases cfg.archive_raw_blocks) [
        | inr off ↦ rw (off, keep_raw) held
        | inl on ↦ elim (Option-cases raw) [
          | inl absent ↦ rw (on, absent, keep_raw) held
          | inr (bytes, at_hand) ↦
              elim (Result-cases (
                Archive.store env.chain env.zlib env.max_block_bytes db height hash bytes source
                  now)) [
                    | inl e ↦ rw (on, at_hand, e, keep_raw) held
                    | inr ((db', kept), e) ↦
                        elim (store-cases env.chain env.zlib env.max_block_bytes db height hash
                          bytes source now db' kept e) [
                            | inl (unkept, same) ↦ rw (on, at_hand, e, keep_raw, same) held
                            | inr (id, was_kept, known, new, good, eq) ↦
                                rw (on, at_hand, e, keep_raw, eq) held
                          ]
                  ]
        ]
      ]

  increment_mismatch_counter-KeepsPlaces :
      (db : Database) → KeepsPlaces db (increment_mismatch_counter env db)
  unfolding increment_mismatch_counter set_state
  increment_mismatch_counter-KeepsPlaces db at place held =
      elim (Option-cases (get_state db "decoder_mismatches")) [
        | inl absent ↦ rw (absent, increment_mismatch_counter) held
        | inr (number n, present) ↦ rw (present, increment_mismatch_counter) held
        | inr (text t, present) ↦ rw (present, increment_mismatch_counter) held
      ]

  selfcheck-KeepsPlaces :
      (db : Database) (height : ℕ) (hash : String) (theirs : RetainedBlockInfo) (raw : List ℕ)
      → KeepsPlaces db (selfcheck env db height hash theirs raw)
  unfolding selfcheck
  selfcheck-KeepsPlaces db height hash theirs raw at place held =
      elim (Result-cases (decode_retained_block env.chain raw height hash)) [
        | inl e ↦ rw (e, selfcheck) held
        | inr (mine, e) ↦ elim (Bool-cases (env.same_json (v2_active height) mine theirs)) [
          | inl same ↦ rw (e, same, selfcheck) held
          | inr differs ↦
              rw (e, differs, selfcheck) (increment_mismatch_counter-KeepsPlaces db at place held)
        ]
      ]

  pub checked-KeepsPlaces :
      (cfg : Config) (db : Database) (height : ℕ) (hash : String) (retained : RetainedBlockInfo)
      (source : String) (raw : Option (List ℕ))
      → KeepsPlaces db (checked env cfg db height hash retained source raw)
  checked-KeepsPlaces cfg db height hash retained source none at place held = held
  checked-KeepsPlaces cfg db height hash retained source (some raw) at place held =
      elim (Bool-cases (str_eq source "getblock")) [
        | inl decoded ↦ rw decoded held
        | inr given ↦ elim (Bool-cases cfg.decoder_selfcheck) [
          | inr off ↦ rw (given, off) held
          | inl on ↦
              rw (given, on) (selfcheck-KeepsPlaces db height hash retained raw at place held)
        ]
      ]
