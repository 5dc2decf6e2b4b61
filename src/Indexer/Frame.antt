-- ===== src/Indexer/Frame.antt =====
-- permanode/src/indexer.rs: what is written beside a block, and the canonical blocks.
use gb_parano1d_permanode.Prelude.{
  ℕ, ◌≡◌, refl, Bool, Option, none, some, String, List, Bool-cases, Option-cases, inl, inr, arith,
}
use gb_parano1d_permanode.Prelude.Result.{ok, Result-cases}
use gb_parano1d_permanode.Emission.Schedule.{v2_active}
use gb_parano1d_permanode.Store.Rows.{Database, number, text}
use gb_parano1d_permanode.Store.Gaps.{get_state}
use gb_parano1d_permanode.Store.Bodies.{RetainedBlockInfo}
use gb_parano1d_permanode.Store.Frame.{
  SameIndex, SameIndex-refl, set_contract_flags-SameIndex, set_state-SameIndex,
}
use gb_parano1d_permanode.Decode.Flags.{contract_flags}
use gb_parano1d_permanode.Decode.Retained.{decode_retained_block}
use gb_parano1d_permanode.Raw.Archive
use gb_parano1d_permanode.Raw.Archive.{has_raw_block}
use gb_parano1d_permanode.Raw.Roundtrip.{store-cases}
use gb_parano1d_permanode.Indexer.Node.{Config}
use gb_parano1d_permanode.Indexer.Record.{
  Env, record_contract_flags, keep_raw, increment_mismatch_counter, selfcheck, checked,
}

module _ (env : Env) where
  pub record_contract_flags-SameIndex :
      (db : Database) (height : ℕ) (hash : String) (raw : Option (List ℕ))
      → SameIndex db (record_contract_flags env db height hash raw)
  unfolding record_contract_flags
  record_contract_flags-SameIndex db height hash raw = elim (Bool-cases (v2_active height)) [
    | inr early ↦ rw (early, record_contract_flags) (SameIndex-refl db)
    | inl v2 ↦ elim (Option-cases raw) [
      | inl absent ↦ rw (v2, absent, record_contract_flags) (SameIndex-refl db)
      | inr (bytes, at_hand) ↦ elim (Result-cases (contract_flags env.chain bytes height hash)) [
        | inl e ↦ rw (v2, at_hand, e, record_contract_flags) (SameIndex-refl db)
        | inr (flags, e) ↦
            rw (v2, at_hand, e, record_contract_flags)
              (set_contract_flags-SameIndex db height hash flags)
      ]
    ]
  ]

  pub store-SameIndex :
      (db : Database) (height : ℕ) (hash : String) (bytes : List ℕ) (source : String) (now : ℕ)
      (db' : Database) (kept : Bool)
      → Archive.store env.chain env.zlib env.max_block_bytes db height hash bytes source now
        ≡ ok (db', kept)
      → SameIndex db db'
  store-SameIndex db height hash bytes source now db' kept e =
      elim (store-cases env.chain env.zlib env.max_block_bytes db height hash bytes source now db'
        kept e) [
          | inl (unkept, same) ↦ rw same (SameIndex-refl db)
          | inr (id, was_kept, known, new, good, eq) ↦
              rw eq (record { same_keys = refl; same_log = refl })
        ]

  pub keep_raw-SameIndex :
      (cfg : Config) (db : Database) (height : ℕ) (hash : String) (raw : Option (List ℕ))
      (source : String) (now : ℕ)
      → SameIndex db (keep_raw env cfg db height hash raw source now)
  unfolding keep_raw
  keep_raw-SameIndex cfg db height hash raw source now = elim (Bool-cases cfg.archive_raw_blocks) [
    | inr off ↦ rw (off, keep_raw) (SameIndex-refl db)
    | inl on ↦ elim (Option-cases raw) [
      | inl absent ↦ rw (on, absent, keep_raw) (SameIndex-refl db)
      | inr (bytes, at_hand) ↦
          elim (Result-cases (
            Archive.store env.chain env.zlib env.max_block_bytes db height hash bytes source now)) [
              | inl e ↦ rw (on, at_hand, e, keep_raw) (SameIndex-refl db)
              | inr ((db', kept), e) ↦
                  rw (on, at_hand, e, keep_raw)
                    (store-SameIndex db height hash bytes source now db' kept e)
            ]
    ]
  ]

  pub increment_mismatch_counter-SameIndex :
      (db : Database) → SameIndex db (increment_mismatch_counter env db)
  unfolding increment_mismatch_counter
  increment_mismatch_counter-SameIndex db =
      elim (Option-cases (get_state db "decoder_mismatches")) [
        | inl absent ↦
            rw (absent, increment_mismatch_counter) (set_state-SameIndex db "decoder_mismatches" _)
        | inr (number n, present) ↦
            rw (present, increment_mismatch_counter) (set_state-SameIndex db "decoder_mismatches" _)
        | inr (text t, present) ↦
            rw (present, increment_mismatch_counter) (set_state-SameIndex db "decoder_mismatches" _)
      ]

  pub selfcheck-SameIndex :
      (db : Database) (height : ℕ) (hash : String) (theirs : RetainedBlockInfo) (raw : List ℕ)
      → SameIndex db (selfcheck env db height hash theirs raw)
  unfolding selfcheck
  selfcheck-SameIndex db height hash theirs raw =
      elim (Result-cases (decode_retained_block env.chain raw height hash)) [
        | inl e ↦ rw (e, selfcheck) (SameIndex-refl db)
        | inr (mine, e) ↦ elim (Bool-cases (env.same_json (v2_active height) mine theirs)) [
          | inl same ↦ rw (e, same, selfcheck) (SameIndex-refl db)
          | inr differs ↦ rw (e, differs, selfcheck) (increment_mismatch_counter-SameIndex db)
        ]
      ]

  pub checked-SameIndex :
      (cfg : Config) (db : Database) (height : ℕ) (hash : String) (retained : RetainedBlockInfo)
      (source : String) (raw : Option (List ℕ))
      → SameIndex db (checked env cfg db height hash retained source raw)
  checked-SameIndex cfg db height hash retained source none = SameIndex-refl db
  checked-SameIndex cfg db height hash retained source (some raw) =
      ground (arith, SameIndex-refl db, selfcheck-SameIndex db height hash retained raw)
