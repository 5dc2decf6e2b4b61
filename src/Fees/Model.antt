-- ===== src/Fees/Model.antt =====
-- core/src/fees.rs, the constants and functions. Values are natural numbers; a `u64` or `u128`
-- operation that saturates or truncates says so.
use gb_parano1d_permanode.Prelude.{
  ℕ, ◌+◌, ◌-◌, ◌*◌, ◌/◌, ◌%◌, ◌^◌, min, max, ltb, leb, if◌then◌else◌,
}

abbrev pub u64_max : ℕ
u64_max = 2 ^ 64 - 1

abbrev pub u128_max : ℕ
u128_max = 2 ^ 128 - 1

-- `u64::saturating_add` and `u64::saturating_mul`; `saturating_sub` is `-`.
abbrev pub sat_add : ℕ → ℕ → ℕ
sat_add a b = min (a + b) u64_max

abbrev pub sat_mul : ℕ → ℕ → ℕ
sat_mul a b = min (a * b) u64_max

abbrev pub min_fee_base : ℕ
min_fee_base = 5_000

abbrev pub fee_per_input : ℕ
fee_per_input = 100

abbrev pub fee_per_output : ℕ
fee_per_output = 700

abbrev pub state_growth_fee_base : ℕ
state_growth_fee_base = 2_500

abbrev pub pressure_low_bps : ℕ
pressure_low_bps = 5_000

abbrev pub pressure_high_bps : ℕ
pressure_high_bps = 7_500

abbrev pub pressure_extreme_bps : ℕ
pressure_extreme_bps = 9_000

-- `1u128.checked_shl(log_slots).unwrap_or(u128::MAX).max(1)`
unfoldable pub slot_capacity : ℕ → ℕ
slot_capacity log_slots = max (if ltb log_slots 128 then 2 ^ log_slots else u128_max) 1

-- The cast `as u64` keeps the low 64 bits.
unfoldable pub occupancy_bps : ℕ → ℕ → ℕ
occupancy_bps active_slot_count log_slots =
    min (active_slot_count * 10_000) u128_max / slot_capacity log_slots % 2 ^ 64

-- The arms of the `match`, in order.
unfoldable pub multiplier_of_bps : ℕ → ℕ
multiplier_of_bps bps =
    if leb pressure_extreme_bps bps
    then 8
    else if leb pressure_high_bps bps
    then 4
    else if leb pressure_low_bps bps
    then 2
    else 1

unfoldable pub pressure_multiplier : ℕ → ℕ → ℕ
unfolding multiplier_of_bps
pressure_multiplier active_slot_count log_slots =
    multiplier_of_bps (occupancy_bps active_slot_count log_slots)

unfoldable pub state_growth_fee_per_slot : ℕ → ℕ → ℕ
state_growth_fee_per_slot active_slot_count log_slots =
    sat_mul state_growth_fee_base (pressure_multiplier active_slot_count log_slots)

pub record FeeBreakdown : Type 0 where
  pub base : ℕ
  pub input : ℕ
  pub output : ℕ
  pub net_new_slots : ℕ
  pub multiplier : ℕ
  pub occupancy : ℕ
  pub burned : ℕ
  pub required_total : ℕ
  pub tip : ℕ
  pub to_miner : ℕ

unfoldable pub fee_breakdown : ℕ → ℕ → ℕ → ℕ → ℕ → FeeBreakdown
fee_breakdown fee n_inputs n_outputs active_slot_count log_slots =
    let net_new_slots = n_outputs - n_inputs in
    let base : ℕ = min_fee_base in
    let input = sat_mul fee_per_input n_inputs in
    let output = sat_mul fee_per_output n_outputs in
    let multiplier = pressure_multiplier active_slot_count log_slots in
    let burned = sat_mul (sat_mul state_growth_fee_base multiplier) net_new_slots in
    let required_total = sat_add (sat_add (sat_add base input) output) burned in
    record {
      base = base;
      input = input;
      output = output;
      net_new_slots = net_new_slots;
      multiplier = multiplier;
      occupancy = occupancy_bps active_slot_count log_slots;
      burned = burned;
      required_total = required_total;
      tip = fee - required_total;
      to_miner = fee - burned;
    }
