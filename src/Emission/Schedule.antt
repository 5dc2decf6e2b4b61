-- ===== src/Emission/Schedule.antt =====
-- core/src/emission.rs, the constants, the target times and the subsidy of a block.
use gb_parano1d_permanode.Prelude.{
  ℕ, ◌+◌, ◌-◌, ◌*◌, ◌/◌, ◌%◌, ◌^◌, min, max, Bool, Option, none, some, List, [], ◌∷◌, leb,
  if◌then◌else◌, length, get_or,
}

abbrev pub micronoid_per_noid : ℕ
micronoid_per_noid = 1_000_000

abbrev pub base_reward_micronoid : ℕ
base_reward_micronoid = 50 * micronoid_per_noid

abbrev pub floor_reward_micronoid : ℕ
floor_reward_micronoid = micronoid_per_noid

abbrev pub log_slots_genesis : ℕ
log_slots_genesis = 24

abbrev pub legacy_block_time : ℕ
legacy_block_time = 20

abbrev pub v2_block_time : ℕ
v2_block_time = 30

abbrev pub v2_activation_height : ℕ
v2_activation_height = 210_537

abbrev pub blocks_per_day : ℕ
blocks_per_day = 24 * 60 * 60 / legacy_block_time

abbrev pub v2_blocks_per_day : ℕ
v2_blocks_per_day = 24 * 60 * 60 / v2_block_time

abbrev pub v2_reward_interval_blocks : ℕ
v2_reward_interval_blocks = 365 * v2_blocks_per_day

abbrev pub v2_rewards_micronoid : List ℕ
v2_rewards_micronoid =
    16_000_000 ∷ 11_300_000 ∷ 8_000_000 ∷ 5_650_000 ∷ 4_000_000 ∷ 2_830_000 ∷ 2_000_000 ∷ 1_410_000
    ∷ 1_000_000 ∷ []

abbrev pub development_allocation_duration_seconds : ℕ
development_allocation_duration_seconds = 86_400 * 365 * 3

abbrev pub legacy_development_allocation_end_height : ℕ
legacy_development_allocation_end_height = blocks_per_day * 365 * 3

abbrev pub development_allocation_end_height : ℕ
development_allocation_end_height =
    (v2_activation_height - 1)
    + (development_allocation_duration_seconds - (v2_activation_height - 1) * legacy_block_time)
      / v2_block_time

abbrev pub development_share_denominator : ℕ
development_share_denominator = 20

abbrev pub v2_active : ℕ → Bool
v2_active height = leb v2_activation_height height

abbrev pub block_time_at : ℕ → ℕ
block_time_at height = if v2_active height then v2_block_time else legacy_block_time

-- Here `min` and the truncated subtraction are the source's `min` and `saturating_sub`; the other
-- subtractions of the source are written as they stand there. The products and their sum wrap as in
-- a release build; a product that is cut off first gives the same sum.
unfoldable pub target_seconds_between : ℕ → ℕ → ℕ
target_seconds_between from to =
    if leb to from
    then 0
    else let last_legacy : ℕ = v2_activation_height - 1 in
      let legacy = min to last_legacy - from in
      let v2 = to - from - legacy in (legacy * legacy_block_time + v2 * v2_block_time) % 2 ^ 64

-- `x >> k` is `x / 2 ^ k`.
unfoldable pub block_reward : ℕ → ℕ
block_reward log_slots =
    let halvings = log_slots - log_slots_genesis in
    max (base_reward_micronoid / 2 ^ min halvings 63) floor_reward_micronoid

unfoldable pub v2_tier : ℕ → Option ℕ
v2_tier height =
    if v2_active height
    then some (
        min ((height - v2_activation_height) / v2_reward_interval_blocks)
          (length v2_rewards_micronoid - 1))
    else none

abbrev pub v2_tier_first_height : ℕ → ℕ
v2_tier_first_height tier = v2_activation_height + tier * v2_reward_interval_blocks

-- `V2_REWARDS_MICRONOID[tier]`; an index past the table is no height's tier.
abbrev pub v2_reward : ℕ → ℕ
v2_reward tier = get_or v2_rewards_micronoid tier 0

unfoldable pub block_reward_at : ℕ → ℕ → ℕ
block_reward_at height log_slots = elim (v2_tier height) [
  | some tier ↦ v2_reward tier
  | none ↦ block_reward log_slots
]

-- `log_slots` is a `u32`.
unfoldable pub next_step_reward : ℕ → ℕ → ℕ
next_step_reward height log_slots = elim (v2_tier height) [
  | some tier ↦ v2_reward (min (tier + 1) (length v2_rewards_micronoid - 1))
  | none ↦ block_reward ((log_slots + 1) % 2 ^ 32)
]
