-- ===== src/Emission/Tests.antt =====
-- core/src/emission.rs: the theorems at heights of both eras.
use gb_parano1d_permanode.Prelude.{
  ℕ, ◌+◌, ◌*◌, ◌≤◌, ◌≡◌, refl, arith, List, [], ◌∷◌, sum_range, count_range,
}
use gb_parano1d_permanode.Emission.Schedule.{
  floor_reward_micronoid, block_time_at, target_seconds_between, block_reward_at, next_step_reward,
  v2_tier, block_reward,
}
use gb_parano1d_permanode.Emission.Allocation.{
  development_allocation_at, miner_subsidy, development_payout, is_development_payout_height,
}
use gb_parano1d_permanode.Emission.Totals.{
  emitted_split_up_to, development_payout_blocks_up_to, next_development_payout_height,
}
use gb_parano1d_permanode.Emission.Bounds.{next_step_reward-steps, development_allocation_at-shares}
use gb_parano1d_permanode.Emission.ClosedForm.{log_slots_at, emitted_split_up_to-eq-blocks}
use gb_parano1d_permanode.Emission.Payouts.{
  IsNextPayout, next_development_payout_height-IsNextPayout,
  development_payout_blocks_up_to-eq-count,
}
use gb_parano1d_permanode.Emission.Time.{target_seconds_between-eq-blocks}

-- Two expansions, one before the first payout and one after the fork's first.
abbrev two_expansions : List ℕ
two_expansions = 4_000 ∷ 213_000 ∷ []

legacy_reward : block_reward_at 1 26 ≡ 12_500_000
unfolding block_reward_at v2_tier block_reward
legacy_reward = refl

v2_reward_at_fork : block_reward_at 210_537 26 ≡ 16_000_000
unfolding block_reward_at v2_tier
v2_reward_at_fork = refl

emitted_split_up_to-eq-blocks_example : emitted_split_up_to 215_000 two_expansions ≡ record {
  miner = sum_range (λ h. miner_subsidy h (log_slots_at two_expansions h)) 1 215_000;
  development = sum_range (λ h. development_payout h (log_slots_at two_expansions h)) 1 215_000;
}
emitted_split_up_to-eq-blocks_example =
    emitted_split_up_to-eq-blocks 215_000 two_expansions (omega arith, (omega arith, tt))

next_development_payout_height-IsNextPayout_example :
    IsNextPayout 210_000 (next_development_payout_height 210_000)
next_development_payout_height-IsNextPayout_example =
    next_development_payout_height-IsNextPayout 210_000 (omega arith)

development_payout_blocks_up_to-eq-count_example :
    development_payout_blocks_up_to 9_000 ≡ count_range is_development_payout_height 1 9_000
development_payout_blocks_up_to-eq-count_example = development_payout_blocks_up_to-eq-count 9_000

target_seconds_between-eq-blocks_example :
    target_seconds_between 210_530 210_540 ≡ sum_range block_time_at 210_531 10
target_seconds_between-eq-blocks_example =
    target_seconds_between-eq-blocks 210_530 210_540 (omega arith)

development_allocation_at-shares_example :
    ((development_allocation_at 300_000 25).miner_subsidy
        + 2 * (development_allocation_at 300_000 25).share_each
      ≡ block_reward_at 300_000 25)
    × (20 * (development_allocation_at 300_000 25).share_each ≤ block_reward_at 300_000 25)
development_allocation_at-shares_example = development_allocation_at-shares 300_000 25

next_step_reward-steps_example :
    (next_step_reward 210_537 24 ≡ block_reward_at 1_261_737 24)
    × (floor_reward_micronoid ≤ next_step_reward 210_537 24)
    × (next_step_reward 210_537 24 ≤ block_reward_at 210_537 24)
next_step_reward-steps_example = next_step_reward-steps 210_537 24 (omega arith)
