-- ===== src/Emission/Totals.antt =====
-- core/src/emission.rs, the closed forms: payout counts, issued totals and the next payout.
use gb_parano1d_permanode.Prelude.{
  ℕ, zero, suc, ◌+◌, ◌-◌, ◌*◌, ◌/◌, ◌%◌, ◌^◌, min, max, ◌&&◌, not, Option, none, some, List, [],
  ◌∷◌, ◌++◌, leb, ltb, ◌==◌, if◌then◌else◌, length, retain, div_ceil,
}
use gb_parano1d_permanode.Emission.Schedule.{
  development_allocation_end_height, v2_activation_height, v2_blocks_per_day, blocks_per_day,
  log_slots_genesis, v2_active, block_reward, development_share_denominator, v2_rewards_micronoid,
  v2_reward, v2_tier_first_height,
}

abbrev pub final_partial_payout_blocks : ℕ
final_partial_payout_blocks =
    (development_allocation_end_height - (v2_activation_height - 1)) % v2_blocks_per_day

unfoldable pub v2_regular_payouts_in : ℕ → ℕ → ℕ
v2_regular_payouts_in lo hi =
    let base : ℕ = v2_activation_height - 1 in
    let hi' = min hi development_allocation_end_height in
    let lo' = max lo v2_activation_height in
    if ltb hi' lo'
    then 0
    else let k_max = (hi' - base) / v2_blocks_per_day in
      let k_min = div_ceil (lo' - base) v2_blocks_per_day in k_max + 1 - k_min

unfoldable pub development_payout_blocks_up_to : ℕ → ℕ
unfolding v2_regular_payouts_in
development_payout_blocks_up_to height =
    let legacy = min height (v2_activation_height - 1) / blocks_per_day in
    let v2 = v2_regular_payouts_in v2_activation_height height in
    let partial =
      not (final_partial_payout_blocks == 0) && leb development_allocation_end_height height in
    legacy + (if partial then v2 + 1 else v2)

pub record EmissionSplit : Type 0 where
  pub miner : ℕ
  pub development : ℕ

abbrev pub empty_split : EmissionSplit
empty_split = record { miner = 0; development = 0 }

-- `total.miner += range.miner; total.development += range.development`
abbrev pub add_split : EmissionSplit → EmissionSplit → EmissionSplit
add_split total range = record {
  miner = total.miner + range.miner;
  development = total.development + range.development;
}

unfoldable pub emitted_legacy_range : ℕ → ℕ → ℕ → EmissionSplit
emitted_legacy_range from to log_slots =
    if ltb to from
    then empty_split
    else let subsidy = block_reward log_slots in
      let share = block_reward log_slots / development_share_denominator in
      let n = to - from + 1 in
      let payout_blocks = to / blocks_per_day - (from - 1) / blocks_per_day in
      record {
        miner = n * (subsidy - 2 * share);
        development = payout_blocks * 2 * share * blocks_per_day;
      }

-- The loop over `bounds`, on its variables `start`, `log_slots` and `total`.
unfoldable pub legacy_loop : List ℕ → ℕ → ℕ → EmissionSplit → EmissionSplit
legacy_loop [] start log_slots total = total
legacy_loop (next ∷ bounds) start log_slots total = legacy_loop bounds next (log_slots + 1) (
    if ltb start next
    then add_split total (emitted_legacy_range start (next - 1) log_slots)
    else total)

unfoldable pub emitted_legacy_up_to : ℕ → List ℕ → EmissionSplit
unfolding legacy_loop
emitted_legacy_up_to height expansions =
    let bounds = retain (λ h. leb h height) expansions ++ (height + 1) ∷ [] in
    legacy_loop bounds 1 log_slots_genesis empty_split

-- The body of the loop over the tiers, from the test `last < first` on.
unfoldable pub emitted_tier_range : ℕ → ℕ → ℕ → EmissionSplit
unfolding v2_regular_payouts_in
emitted_tier_range first last tier =
    if ltb last first
    then empty_split
    else let reward = v2_reward tier in
      let share = v2_reward tier / development_share_denominator in
      let dev_last = min last development_allocation_end_height in
      let dev_blocks = if leb first dev_last then dev_last - first + 1 else 0 in
      let plain_blocks = last - first + 1 - dev_blocks in
      let regular = v2_regular_payouts_in first last * 2 * share * v2_blocks_per_day in
      let partial = final_partial_payout_blocks in
      let ends =
        leb first development_allocation_end_height && leb development_allocation_end_height last in
      record {
        miner = dev_blocks * (reward - 2 * share) + plain_blocks * reward;
        development = if not (partial == 0) && ends then regular + 2 * share * partial else regular;
      }

-- The part of one tier in the heights `from` to `to`: the whole body of that loop.
unfoldable pub emitted_v2_tier : ℕ → ℕ → ℕ → EmissionSplit
unfolding emitted_tier_range
emitted_v2_tier from to tier =
    let first = max (v2_tier_first_height tier) from in
    let last =
      if tier + 1 == length v2_rewards_micronoid
      then to
      else min (v2_tier_first_height (tier + 1) - 1) to in
    emitted_tier_range first last tier

-- `for tier in 0..tiers`
unfoldable pub v2_loop : ℕ → ℕ → ℕ → EmissionSplit
unfolding emitted_v2_tier
v2_loop from to zero = empty_split
v2_loop from to (suc tier) = add_split (v2_loop from to tier) (emitted_v2_tier from to tier)

unfoldable pub emitted_v2_between : ℕ → ℕ → EmissionSplit
unfolding v2_loop
emitted_v2_between from to =
    if ltb to from then empty_split else v2_loop from to (length v2_rewards_micronoid)

unfoldable pub emitted_split_up_to : ℕ → List ℕ → EmissionSplit
unfolding emitted_legacy_up_to emitted_v2_between
emitted_split_up_to height expansions =
    let total = emitted_legacy_up_to (min height (v2_activation_height - 1)) expansions in
    if v2_active height
    then add_split total (emitted_v2_between v2_activation_height height)
    else total

unfoldable pub emitted_up_to : ℕ → List ℕ → ℕ
unfolding emitted_split_up_to
emitted_up_to height expansions =
    let split = emitted_split_up_to height expansions in split.miner + split.development

-- The part of `next_development_payout_height` after the legacy branch. The sum wraps as in a
-- release build; nothing before it can.
unfoldable pub next_v2_payout_height : ℕ → Option ℕ
next_v2_payout_height height =
    let base : ℕ = v2_activation_height - 1 in
    let from = max height base in
    let next = (base + ((from - base) / v2_blocks_per_day + 1) * v2_blocks_per_day) % 2 ^ 64 in
    if leb next development_allocation_end_height
    then some next
    else if ltb height development_allocation_end_height && not (final_partial_payout_blocks == 0)
    then some development_allocation_end_height
    else none

unfoldable pub next_development_payout_height : ℕ → Option ℕ
unfolding next_v2_payout_height
next_development_payout_height height =
    let next = (height / blocks_per_day + 1) * blocks_per_day in
    if ltb height (v2_activation_height - 1) && ltb next v2_activation_height
    then some next
    else next_v2_payout_height height
