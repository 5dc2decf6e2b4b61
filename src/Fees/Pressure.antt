-- ===== src/Fees/Pressure.antt =====
-- core/src/fees.rs: the pressure multiplier against the exact occupancy of the state domain.
use gb_parano1d_permanode.Prelude.{
  ℕ, ◌*◌, ◌/◌, ◌^◌, ◌≤◌, ◌<◌, min, ◌≡◌, arith, leb, if◌then◌else◌, lt→ltb,
}
use native.Mathlib.Nat.{
  le-div_iff_mul-le, mod-eq_of_lt, pow-le-pow_right, one-le-pow, div-le_of_le-mul,
}
use gb_parano1d_permanode.Fees.Model.{
  u128_max, slot_capacity, occupancy_bps, multiplier_of_bps, pressure_multiplier,
}

slot_capacity-pow : (log_slots : ℕ) → log_slots < 128 → slot_capacity log_slots ≡ 2 ^ log_slots
unfolding slot_capacity
slot_capacity-pow log_slots h =
    rw (lt→ltb log_slots 128 h) (omega (arith, one-le-pow log_slots 2 (omega arith)))

-- Inside the state domain nothing saturates and nothing is cut off.
pub occupancy_bps-exact :
    (active log_slots : ℕ)
    → log_slots < 64
    → active ≤ 2 ^ log_slots
    → occupancy_bps active log_slots ≡ active * 10_000 / 2 ^ log_slots
unfolding occupancy_bps
occupancy_bps-exact active log_slots h le =
    let capacity : ℕ = 2 ^ log_slots in
    let small : capacity ≤ 2 ^ 63 = pow-le-pow_right (omega arith) {j = 63} (omega arith) in
    let unsaturated : min (active * 10_000) u128_max ≡ active * 10_000 = omega arith in
    let quotient : active * 10_000 / capacity ≤ 10_000 = div-le_of_le-mul capacity (omega arith) in
    rw (slot_capacity-pow log_slots (omega arith), unsaturated) (mod-eq_of_lt (omega arith))

-- The multiplier by the exact occupancy of a state domain of `capacity` slots.
abbrev pub multiplier_at : ℕ → ℕ → ℕ
multiplier_at active capacity =
    if leb (9 * capacity) (10 * active)
    then 8
    else if leb (3 * capacity) (4 * active)
    then 4
    else if leb capacity (2 * active)
    then 2
    else 1

pub pressure_multiplier-exact :
    (active log_slots : ℕ)
    → log_slots < 64
    → active ≤ 2 ^ log_slots
    → pressure_multiplier active log_slots ≡ multiplier_at active (2 ^ log_slots)
unfolding pressure_multiplier multiplier_of_bps
pressure_multiplier-exact active log_slots h le =
    let pos : 0 < 2 ^ log_slots = one-le-pow log_slots 2 (omega arith) in
    let extreme = le-div_iff_mul-le {k = 2 ^ log_slots} {x = 9_000} {y = active * 10_000} pos in
    let high = le-div_iff_mul-le {k = 2 ^ log_slots} {x = 7_500} {y = active * 10_000} pos in
    let low = le-div_iff_mul-le {k = 2 ^ log_slots} {x = 5_000} {y = active * 10_000} pos in
    rw (occupancy_bps-exact active log_slots h le) (ground arith)
