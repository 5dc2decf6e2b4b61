-- ===== src/Indexer/SweepTests.antt =====
-- permanode/src/indexer.rs, `scan_live_state`: the sweep of a segment in which a recorded output is
-- gone and a foreign one is live.
use gb_parano1d_permanode.Prelude.{◌≡◌, refl, true, false, none, some, [], ◌∷◌, List}
use gb_parano1d_permanode.Prelude.Result.{ok}
use gb_parano1d_permanode.Store.Rows.{Database, OutputRow}
use gb_parano1d_permanode.Store.Blocks.{canonical_block_filter}
use gb_parano1d_permanode.Store.Slots.{
  StateSlot, StateSlotRow, contains_id, read_candidates, is_unspent_recorded, unmark_rows,
  unmark_live_outputs, mark_rows, mark_spent_in_gap, replace_state_slots,
}
use gb_parano1d_permanode.Indexer.Sweep.{reconcile_segment}
use gb_parano1d_permanode.Indexer.Swept.{ids_of, has_live_slots, reconcile_segment-live}
use gb_parano1d_permanode.Samples.{sample_database}

abbrev recorded_output : OutputRow
recorded_output = record {
  tx_id = 1;
  idx = 0;
  page = 0;
  lane = 0;
  slot_index = 12;
  amount_micronoid = 50;
  owner = "o";
  creation_id = some 77;
  spent_in_gap = false;
  spent_in_gap_at = none;
}

abbrev paid_database : Database
paid_database = record sample_database {
  transactions =
      record {
        id = 1;
        block_id = 1;
        position = 0;
        txid = "t";
        page_count = 1;
        fee_micronoid = 0;
        coinbase = true;
        development_payout = false;
        epoch_anchor = "e";
        input_owner = none;
        input_sum_micronoid = "0";
        output_sum_micronoid = "50";
        contract_flags = 0;
        source = none;
      }
      ∷ [];
  tx_outputs = recorded_output ∷ [];
}

abbrev foreign_slot : StateSlot
foreign_slot = record { slot_index = 13; creation_id = 80; owner = "p"; amount_micronoid = 9 }

abbrev swept_database : Database
swept_database = record paid_database {
  tx_outputs = record recorded_output { spent_in_gap = true; spent_in_gap_at = some 9 } ∷ [];
}

abbrev swept_slots : List StateSlotRow
swept_slots = record { segment = 1; slot = foreign_slot; seen_height = 6; seen_at = 9 } ∷ []

swept :
    reconcile_segment paid_database [] 1 10 (foreign_slot ∷ []) 6 9
    ≡ ok (swept_database, swept_slots)
unfolding reconcile_segment canonical_block_filter read_candidates is_unspent_recorded unmark_rows
    unmark_live_outputs mark_rows mark_spent_in_gap replace_state_slots
swept = refl

reconcile_segment-live_example :
    has_live_slots swept_database 6 10 20 (contains_id (ids_of (foreign_slot ∷ []))) ≡ true
reconcile_segment-live_example =
    reconcile_segment-live paid_database [] 1 10 (foreign_slot ∷ []) 6 9
      (swept_database, swept_slots) swept
