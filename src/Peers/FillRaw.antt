-- ===== src/Peers/FillRaw.antt =====
-- permanode/src/import.rs, `fill_raw`: raw bytes for blocks whose body is on record.
use gb_parano1d_permanode.Prelude.{
  ℕ, suc, ◌+◌, Bool, true, false, Option, none, some, String, List, [], ◌∷◌, length, if◌then◌else◌,
}
use gb_parano1d_permanode.Prelude.Result.{Result, ok, err}
use gb_parano1d_permanode.Store.Rows.{Database}
use gb_parano1d_permanode.Raw.Archive
use gb_parano1d_permanode.Indexer.Record.{Env}
use gb_parano1d_permanode.Peers.Fill.{Run, RawReport}

-- What became of one block.
pub data RawOutcome : Type 0 where
  raw_absent raw_refused raw_aborted : RawOutcome
  raw_stored : Database → Bool → RawOutcome

abbrev pub count_kept : Bool → RawReport → RawReport
count_kept kept r = if kept then record r { kept = r.kept + 1 } else r

module _ (env : Env) (source : String) where
  unfoldable pub take_raw : Database → ℕ → String → Result (Option (List ℕ)) → ℕ → RawOutcome
  take_raw db height hash answer now = elim answer [
    | err ↦ raw_refused
    | ok none ↦ raw_absent
    | ok (some bytes) ↦
        elim (Archive.verify env.chain env.zlib env.max_block_bytes bytes height hash) [
          | err ↦ raw_refused
          | ok _ ↦
              elim (Archive.store env.chain env.zlib env.max_block_bytes db height hash bytes source
                now) [ err ↦ raw_aborted | ok (db', kept) ↦ raw_stored db' kept ]
        ]
  ]

  module _ {ℓ} {S : Type ℓ} (find : S → ℕ → String → S × Result (Option (List ℕ))) where
    unfoldable pub raw_fill_loop :
        Database → RawReport → S → List (ℕ × String) → ℕ → Run S RawReport
    unfolding take_raw
    raw_fill_loop db report asked [] now = record {
      db = db;
      report = report;
      asked = asked;
      completed = true;
    }
    raw_fill_loop db report asked ((height, hash) ∷ rest) now =
        let (asked', answer) = find asked height hash in
        elim (take_raw db height hash answer now) [
          | raw_absent ↦
              raw_fill_loop db (record report { not_in_source = report.not_in_source + 1 }) asked'
                rest (suc now)
          | raw_refused ↦
              raw_fill_loop db (record report { rejected = report.rejected + 1 }) asked' rest
                (suc now)
          | raw_aborted ↦ record { db = db; report = report; asked = asked'; completed = false }
          | raw_stored db' kept ↦ raw_fill_loop db' (count_kept kept report) asked' rest (suc now)
        ]

    unfoldable pub fill_raw : Database → List (ℕ × String) → S → ℕ → Run S RawReport
    unfolding raw_fill_loop
    fill_raw db candidates asked now =
        let report : RawReport = record {
          missing = length candidates;
          kept = 0;
          not_in_source = 0;
          rejected = 0;
          unreachable = [];
        } in
        raw_fill_loop db report asked candidates now
