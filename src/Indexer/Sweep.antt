-- ===== src/Indexer/Sweep.antt =====
-- permanode/src/indexer.rs, `scan_live_state`: what one segment of the node's state, read in full,
-- changes in the record.
use gb_parano1d_permanode.Prelude.{ℕ, ◌+◌, ◌*◌, not, List, ◌++◌, retain, map}
use gb_parano1d_permanode.Prelude.Result.{Result, ok, ◌>>=◌}
use gb_parano1d_permanode.Store.Rows.{Database}
use gb_parano1d_permanode.Store.Slots.{
  Candidate, StateSlot, StateSlotRow, contains_id, recorded_creation_ids, replace_state_slots,
  unmark_live_outputs, unspent_recorded_outputs, mark_spent_in_gap,
}

-- The database transaction of a segment, from the slots that were read live in it; a step that fails
-- leaves no trace. The result has the record and the rows of `state_slots` afterwards.
unfoldable pub reconcile_segment :
    Database
    → List StateSlotRow
    → ℕ
    → ℕ
    → List StateSlot
    → ℕ
    → ℕ
    → Result (Database × List StateSlotRow)
reconcile_segment db state segment segment_size live start_height now =
    let start = segment * segment_size in
    let end = (segment + 1) * segment_size in
    recorded_creation_ids db start end >>= (λ recorded.
      let is_known = λ (s : StateSlot). contains_id recorded s.creation_id in
      let known = retain is_known live in
      let foreign = retain (λ s. not (is_known s)) live in
      let live_ids = map (λ (s : StateSlot). s.creation_id) (known ++ foreign) in
      unmark_live_outputs db start end live_ids >>= (λ back.
        unspent_recorded_outputs back.0 start_height start end >>= (λ unspent.
          let gone = retain (λ (c : Candidate). not (contains_id live_ids c.creation_id)) unspent in
          ok (
            mark_spent_in_gap back.0 gone now,
            replace_state_slots state segment foreign start_height now,
          ))))
