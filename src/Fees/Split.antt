-- ===== src/Fees/Split.antt =====
-- core/src/fees.rs, `fee_breakdown`: how the parts of a fee relate.
use gb_parano1d_permanode.Prelude.{
  ℕ, ◌+◌, ◌-◌, ◌*◌, ◌^◌, ◌≤◌, ◌<◌, min, ◌≡◌, arith, leb, leb→le, Bool-cases, inl, inr, ◌↔◌,
}
use gb_parano1d_permanode.Fees.Model.{
  pressure_multiplier, multiplier_of_bps, fee_breakdown, u64_max,
}

multiplier-le : (active log_slots : ℕ) → pressure_multiplier active log_slots ≤ 8
unfolding pressure_multiplier multiplier_of_bps
multiplier-le active log_slots = ground arith

-- Where the counts are small enough for a `u64`, nothing saturates: the burned part is 2,500 times
-- the multiplier for each net-new slot, and the required total is the sum of the four parts.
pub fee_breakdown-exact :
    (fee n_inputs n_outputs active log_slots : ℕ)
    → 5_000 + 100 * n_inputs + 20_700 * n_outputs < 2 ^ 64
    → let b = fee_breakdown fee n_inputs n_outputs active log_slots in
      (b.burned ≡ 2_500 * pressure_multiplier active log_slots * (n_outputs - n_inputs))
      × (b.required_total
          ≡ 5_000
            + 100 * n_inputs
            + 700 * n_outputs
            + 2_500 * pressure_multiplier active log_slots * (n_outputs - n_inputs))
unfolding fee_breakdown
fee_breakdown-exact fee n_inputs n_outputs active log_slots fits =
    let m = pressure_multiplier active log_slots in
    let small : m ≤ 8 = multiplier-le active log_slots in
    let growth : 2_500 * m * (n_outputs - n_inputs) ≤ 20_000 * n_outputs = grind arith in
    let unsaturated : min (2_500 * m) u64_max ≡ 2_500 * m = omega arith in
    rw unsaturated (omega arith, omega arith)

-- A fee that covers the required total, with counts that fit, is divided without rest: the burned
-- part and the miner's part add up to the fee, so do the required total and the tip, and the miner
-- gets the base, input and output parts and the tip.
pub fee_breakdown-divides :
    (fee n_inputs n_outputs active log_slots : ℕ)
    → 5_000 + 100 * n_inputs + 20_700 * n_outputs < 2 ^ 64
    → (fee_breakdown fee n_inputs n_outputs active log_slots).required_total ≤ fee
    → let b = fee_breakdown fee n_inputs n_outputs active log_slots in
      (b.to_miner + b.burned ≡ fee)
      × (b.required_total + b.tip ≡ fee)
      × (b.to_miner ≡ b.base + b.input + b.output + b.tip)
unfolding fee_breakdown
fee_breakdown-divides fee n_inputs n_outputs active log_slots fits paid =
    let m = pressure_multiplier active log_slots in
    let small : m ≤ 8 = multiplier-le active log_slots in
    let growth : 2_500 * m * (n_outputs - n_inputs) ≤ 20_000 * n_outputs = grind arith in
    let unsaturated : min (2_500 * m) u64_max ≡ 2_500 * m = omega arith in
    let paid' = rw unsaturated at paid in rw unsaturated (omega arith, omega arith, omega arith)

multiplier-pos : (active log_slots : ℕ) → 1 ≤ pressure_multiplier active log_slots
unfolding pressure_multiplier multiplier_of_bps
multiplier-pos active log_slots = ground arith

burned-zero-growth :
    (rate n_inputs n_outputs : ℕ)
    → 1 ≤ rate
    → min (rate * (n_outputs - n_inputs)) u64_max ≡ 0
    → n_outputs ≤ n_inputs
burned-zero-growth rate n_inputs n_outputs pos e = elim (Bool-cases (leb n_outputs n_inputs)) [
  | inl shrinks ↦ leb→le _ _ shrinks
  | inr grows ↦
      let new : 1 ≤ n_outputs - n_inputs = ground arith in
      let product : 1 ≤ rate * (n_outputs - n_inputs) = grind arith in absurd (omega arith)
]

-- Something is burned exactly when the transaction has more outputs than inputs, whatever the fee
-- and the occupancy.
pub burned-zero :
    (fee n_inputs n_outputs active log_slots : ℕ)
    → ((fee_breakdown fee n_inputs n_outputs active log_slots).burned ≡ 0) ↔ (n_outputs ≤ n_inputs)
unfolding fee_breakdown
burned-zero fee n_inputs n_outputs active log_slots =
    let m = pressure_multiplier active log_slots in
    let pos : 1 ≤ min (2_500 * m) u64_max = omega (arith, multiplier-pos active log_slots) in
    (
      λ zero_burn. burned-zero-growth _ n_inputs n_outputs pos zero_burn,
      λ shrinks. let none_new : n_outputs - n_inputs ≡ 0 = omega arith in rw none_new (omega arith),
    )
