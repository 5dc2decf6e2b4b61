-- ===== src/Emission/Bounds.antt =====
-- core/src/emission.rs: the ranges of the subsidy, of its shares and of the next step.
use gb_parano1d_permanode.Prelude.{
  ℕ, suc, ◌+◌, ◌-◌, ◌*◌, ◌/◌, ◌^◌, ◌≤◌, ◌<◌, min, ◌%◌, ◌≡◌, refl, some, none, true, false,
  if◌then◌else◌, inl, inr, Option-cases, arith,
}
use native.Mathlib.Nat.{
  div-le_self, div-mul-le_self, le-div_iff_mul-le, pow-le-pow_right, one-le-pow, le_trans,
  mod-eq_of_lt,
}
use gb_parano1d_permanode.Emission.Allocation.{development_allocation_at, inactive_allocation}
use gb_parano1d_permanode.Emission.Schedule.{
  base_reward_micronoid, floor_reward_micronoid, block_reward, block_reward_at, v2_tier, v2_reward,
  log_slots_genesis, next_step_reward, v2_active, v2_reward_interval_blocks,
}

pub block_reward_bounds :
    (log_slots : ℕ)
    → (floor_reward_micronoid ≤ block_reward log_slots)
      × (block_reward log_slots ≤ base_reward_micronoid)
unfolding block_reward
block_reward_bounds log_slots = (
  omega arith,
  omega (arith, div-le_self base_reward_micronoid (2 ^ min (log_slots - log_slots_genesis) 63)),
)

-- The tier of a v2 height is an index of the table.
pub v2_tier-le : (height tier : ℕ) → v2_tier height ≡ some tier → tier ≤ 8
unfolding v2_tier
v2_tier-le height tier e = ground arith

pub v2_reward_bounds :
    (tier : ℕ) → tier ≤ 8 → (1_000_000 ≤ v2_reward tier) × (v2_reward tier ≤ 16_000_000)
v2_reward_bounds tier h = ground arith

pub v2_reward_mono : (tier : ℕ) → tier < 8 → v2_reward (suc tier) ≤ v2_reward tier
v2_reward_mono tier h = ground arith

div-antitone : (n a b : ℕ) → 0 < a → a ≤ b → n / b ≤ n / a
div-antitone n a b pos le =
    (le-div_iff_mul-le {x = n / b} pos).1 (le_trans (grind arith) (div-mul-le_self n b))

block_reward-antitone : (log_slots : ℕ) → block_reward (log_slots + 1) ≤ block_reward log_slots
unfolding block_reward
block_reward-antitone log_slots =
    let i = min (log_slots - 24) 63 in
    let j = min (log_slots + 1 - 24) 63 in
    let pow : 2 ^ i ≤ 2 ^ j = pow-le-pow_right (omega arith) (omega arith) in
    let quot : 50_000_000 / 2 ^ j ≤ 50_000_000 / 2 ^ i =
      div-antitone 50_000_000 (2 ^ i) (2 ^ j) (one-le-pow i 2 (omega arith)) pow in
    omega arith

next_v2_reward_bounds :
    (tier : ℕ)
    → tier ≤ 8
    → (1_000_000 ≤ v2_reward (min (tier + 1) 8)) × (v2_reward (min (tier + 1) 8) ≤ v2_reward tier)
next_v2_reward_bounds tier h = (ground arith, ground arith)

-- One block's allocation divides its whole subsidy: what the miner may mint and the two shares add
-- up to it, in every era, inside and outside the allocation period; each share is at most a 20th.
pub development_allocation_at-shares :
    (height log_slots : ℕ)
    → let a = development_allocation_at height log_slots in
      (a.miner_subsidy + 2 * a.share_each ≡ block_reward_at height log_slots)
      × (20 * a.share_each ≤ block_reward_at height log_slots)
unfolding development_allocation_at inactive_allocation
development_allocation_at-shares height log_slots = (ground arith, ground arith)

pub block_reward_at_bounds :
    (height log_slots : ℕ)
    → (floor_reward_micronoid ≤ block_reward_at height log_slots)
      × (block_reward_at height log_slots ≤ base_reward_micronoid)
unfolding block_reward_at
block_reward_at_bounds height log_slots = elim (Option-cases (v2_tier height)) [
  | inl legacy ↦ rw (legacy, block_reward_at) (block_reward_bounds log_slots)
  | inr (tier, v2) ↦
      let (lo, hi) = v2_reward_bounds tier (v2_tier-le height tier v2) in
      rw (v2, block_reward_at) (lo, omega arith)
]

v2_tier-none : (height : ℕ) → v2_tier height ≡ none → v2_active height ≡ false
unfolding v2_tier
v2_tier-none height e = ground arith

v2_tier-some : (height tier : ℕ) → v2_tier height ≡ some tier → v2_active height ≡ true
unfolding v2_tier
v2_tier-some height tier e = ground arith

v2_tier-later :
    (height tier : ℕ)
    → v2_tier height ≡ some tier
    → v2_tier (height + 365 * 2880) ≡ some (min (tier + 1) 8)
unfolding v2_tier
v2_tier-later height tier e = ground arith

-- For a state below the greatest `u32` size: before the fork, the subsidy after the next step is that
-- of the same height at a state of twice the size; from the fork on it is that of one interval
-- later. It is never above the present one and never below the floor.
pub next_step_reward-steps :
    (height log_slots : ℕ)
    → log_slots + 1 < 2 ^ 32
    → (next_step_reward height log_slots ≡ (
        if v2_active height
        then block_reward_at (height + v2_reward_interval_blocks) log_slots
        else block_reward_at height (log_slots + 1)))
      × (floor_reward_micronoid ≤ next_step_reward height log_slots)
      × (next_step_reward height log_slots ≤ block_reward_at height log_slots)
unfolding next_step_reward block_reward_at
next_step_reward-steps height log_slots fits =
    let whole : (log_slots + 1) % 2 ^ 32 ≡ log_slots + 1 = mod-eq_of_lt fits in
    elim (Option-cases (v2_tier height)) [
      | inl legacy ↦
          let era = v2_tier-none height legacy in
          rw (legacy, whole, era, block_reward_at, next_step_reward)
            (refl, (block_reward_bounds (log_slots + 1)).0, block_reward-antitone log_slots)
      | inr (tier, v2) ↦
          let era = v2_tier-some height tier v2 in
          rw (v2, era, v2_tier-later height tier v2, block_reward_at, next_step_reward)
            (let (lo, hi) = next_v2_reward_bounds tier (v2_tier-le height tier v2) in
              (refl, lo, hi))
    ]
