-- ===== src/Emission/Era.antt =====
-- core/src/emission.rs: what one block mints, in each era, as one equation.
use gb_parano1d_permanode.Prelude.{
  ℕ, ◌+◌, ◌-◌, ◌*◌, ◌/◌, ◌%◌, ◌≤◌, ◌<◌, ◌≡◌, none, some, arith, ◌==◌, leb, ltb, if◌then◌else◌,
}
use gb_parano1d_permanode.Emission.Schedule.{
  block_reward, block_reward_at, v2_tier, v2_reward, v2_tier_first_height,
}
use gb_parano1d_permanode.Emission.Allocation.{
  development_allocation_at, v2_payout_count, miner_subsidy, development_payout,
}

pub v2_tier-legacy : (height : ℕ) → height < 210_537 → v2_tier height ≡ none
unfolding v2_tier
v2_tier-legacy height h = ground arith

pub v2_tier-inside :
    (height tier : ℕ)
    → tier < 8
    → v2_tier_first_height tier ≤ height
    → height < v2_tier_first_height (tier + 1)
    → v2_tier height ≡ some tier
unfolding v2_tier
v2_tier-inside height tier t lo hi = ground arith

pub v2_tier-last : (height : ℕ) → v2_tier_first_height 8 ≤ height → v2_tier height ≡ some 8
unfolding v2_tier
v2_tier-last height lo = ground arith

pub miner_subsidy-legacy :
    (height log_slots : ℕ)
    → 0 < height
    → height < 210_537
    → miner_subsidy height log_slots ≡ block_reward log_slots - 2 * (block_reward log_slots / 20)
unfolding miner_subsidy development_allocation_at block_reward_at
miner_subsidy-legacy height log_slots pos legacy = ground (arith, v2_tier-legacy height)

pub development_payout-legacy :
    (height log_slots : ℕ)
    → 0 < height
    → height < 210_537
    → development_payout height log_slots
      ≡ (if height % 4320 == 0 then 2 * (block_reward log_slots / 20 * 4320) else 0)
unfolding development_payout development_allocation_at block_reward_at
development_payout-legacy height log_slots pos legacy = ground (arith, v2_tier-legacy height)

-- The blocks that the payout at a v2 height covers, 0 if none is due.
abbrev pub covered_blocks : ℕ → ℕ
covered_blocks height =
    if ltb 3_223_778 height
    then 0
    else if height == 210_537
    then 0
    else if (height - 210_536) % 2880 == 0
    then 2880
    else if height == 3_223_778
    then 762
    else 0

pub miner_subsidy-v2 :
    (height log_slots tier : ℕ)
    → 210_537 ≤ height
    → v2_tier height ≡ some tier
    → miner_subsidy height log_slots ≡ (
        if leb height 3_223_778 then v2_reward tier - 2 * (v2_reward tier / 20) else v2_reward tier)
unfolding miner_subsidy development_allocation_at block_reward_at
miner_subsidy-v2 height log_slots tier v2 e = ground arith

pub development_payout-v2 :
    (height log_slots tier : ℕ)
    → 210_537 ≤ height
    → v2_tier height ≡ some tier
    → development_payout height log_slots ≡ covered_blocks height * (2 * (v2_reward tier / 20))
unfolding development_payout development_allocation_at block_reward_at v2_payout_count
development_payout-v2 height log_slots tier v2 e = ground arith
