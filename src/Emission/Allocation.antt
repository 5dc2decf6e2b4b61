-- ===== src/Emission/Allocation.antt =====
-- core/src/emission.rs, `DevelopmentAllocation`: what one block pays to the development funds.
use gb_parano1d_permanode.Prelude.{
  ℕ, ◌-◌, ◌*◌, ◌/◌, ◌%◌, Bool, true, false, ◌&&◌, ◌||◌, not, Option, none, some, leb, ltb, ◌==◌,
  if◌then◌else◌, is_some, then_some,
}
use mathlib.Core.Option
use gb_parano1d_permanode.Emission.Schedule.{
  block_reward_at, development_share_denominator, v2_active, blocks_per_day, v2_blocks_per_day,
  legacy_development_allocation_end_height, development_allocation_end_height, v2_activation_height,
  log_slots_genesis,
}

pub record DevelopmentAllocation : Type 0 where
  pub active : Bool
  pub payout_due : Bool
  pub share_each : ℕ
  pub payout_each : Option ℕ
  pub miner_subsidy : ℕ

-- The early return of both eras.
unfoldable pub inactive_allocation : ℕ → DevelopmentAllocation
inactive_allocation subsidy = record {
  active = false;
  payout_due = false;
  share_each = 0;
  payout_each = none;
  miner_subsidy = subsidy;
}

-- The blocks that a v2 payout at `height` covers, if one is due.
unfoldable pub v2_payout_count : ℕ → Option ℕ
v2_payout_count height =
    let elapsed = height - (v2_activation_height - 1) in
    if height == v2_activation_height
    then none
    else if elapsed % v2_blocks_per_day == 0
    then some v2_blocks_per_day
    else if height == development_allocation_end_height
    then some (elapsed % v2_blocks_per_day)
    else none

unfoldable pub development_allocation_at : ℕ → ℕ → DevelopmentAllocation
unfolding inactive_allocation v2_payout_count
development_allocation_at height log_slots =
    let subsidy = block_reward_at height log_slots in
    let share_each = subsidy / development_share_denominator in
    if not (v2_active height)
    then if (height == 0) || ltb legacy_development_allocation_end_height height
      then inactive_allocation subsidy
      else (let payout_due = height % blocks_per_day == 0 in
          record {
            active = true;
            payout_due = payout_due;
            share_each = share_each;
            payout_each = then_some payout_due (share_each * blocks_per_day);
            miner_subsidy = subsidy - 2 * share_each;
          })
    else if ltb development_allocation_end_height height
    then inactive_allocation subsidy
    else let count = v2_payout_count height in
      record {
        active = true;
        payout_due = is_some count;
        share_each = share_each;
        payout_each = Option.map (λ blocks. share_each * blocks) count;
        miner_subsidy = subsidy - 2 * share_each;
      }

unfoldable pub development_allocation_active : ℕ → Bool
development_allocation_active height = ltb 0 height && leb height development_allocation_end_height

unfoldable pub miner_subsidy : ℕ → ℕ → ℕ
miner_subsidy height log_slots = (development_allocation_at height log_slots).miner_subsidy

-- `map_or(0, |each| 2 * each)`
abbrev pub both_funds : Option ℕ → ℕ
both_funds none = 0
both_funds (some each) = 2 * each

unfoldable pub development_payout : ℕ → ℕ → ℕ
development_payout height log_slots =
    both_funds (development_allocation_at height log_slots).payout_each

unfoldable pub is_development_payout_height : ℕ → Bool
is_development_payout_height height =
    (development_allocation_at height log_slots_genesis).payout_due
