-- ===== src/Emission/Tiers.antt =====
-- core/src/emission.rs, `emitted_v2_between`: the closed form of each tier, and the loop over the
-- tiers, against the sum over the blocks.
use gb_parano1d_permanode.Prelude.{
  ℕ, zero, suc, ◌+◌, ◌-◌, ◌*◌, ◌/◌, ◌%◌, ◌≤◌, ◌<◌, min, max, ◌≡◌, refl, sym, ap, ap₂, ◌∙◌, arith,
  ◌==◌, ltb, true, false, leb, not, ◌⊎◌, inl, inr, Bool-cases, ◌&&◌, if◌then◌else◌, some, sum_range,
  count_range, sum_range-if, sum_range-mul, sum_range-congr, le→ltb_false,
}
use native.Mathlib.Nat.{add-suc, add-zero}
use gb_parano1d_permanode.Emission.Schedule.{v2_reward, v2_tier, v2_tier_first_height}
use gb_parano1d_permanode.Emission.Allocation.{miner_subsidy, development_payout}
use gb_parano1d_permanode.Emission.Totals.{
  EmissionSplit, empty_split, add_split, v2_regular_payouts_in, emitted_tier_range, emitted_v2_tier,
  v2_loop, emitted_v2_between,
}
use gb_parano1d_permanode.Emission.Era.{
  covered_blocks, miner_subsidy-v2, development_payout-v2, v2_tier-inside, v2_tier-last,
}
use gb_parano1d_permanode.Emission.Legacy.{minted_split, split_eq, minted_split-add}

count-allocation :
    (first n : ℕ)
    → count_range (λ h. leb h 3_223_778) first (suc n)
      ≡ (if leb first (min (first + n) 3_223_778) then min (first + n) 3_223_778 - first + 1 else 0)
unfolding count_range
count-allocation first zero = ground arith
count-allocation first (suc n) = ground (arith, count-allocation first n)

count-plain :
    (first n : ℕ)
    → count_range (λ h. leb h 3_223_778) first n + count_range (λ h. not (leb h 3_223_778)) first n
      ≡ n
unfolding count_range
count-plain first zero = refl
count-plain first (suc n) = ground (arith, count-plain first n)

plain_blocks :
    (first n : ℕ)
    → first
        + n
        - first
        + 1
        - (if leb first (min (first + n) 3_223_778)
            then min (first + n) 3_223_778 - first + 1
            else 0)
      ≡ count_range (λ h. not (leb h 3_223_778)) first (suc n)
plain_blocks first n = rw (← count-allocation first n) (omega (arith, count-plain first (suc n)))

-- The count of regular payouts as a difference of two counts from the fork on.
v2_regular_payouts_in-closed :
    (first last : ℕ)
    → 210_537 ≤ first
    → first ≤ last
    → v2_regular_payouts_in first last
      ≡ (min last 3_223_778 - 210_536) / 2880 - (first - 210_537) / 2880
unfolding v2_regular_payouts_in
v2_regular_payouts_in-closed first last v2 le = ground arith

-- 1 where a regular payout is due.
abbrev regular_at : ℕ → ℕ
regular_at height = if leb height 3_223_778 && ((height - 210_536) % 2880 == 0) then 1 else 0

regular-first : (first : ℕ) → 210_537 ≤ first → v2_regular_payouts_in first first ≡ regular_at first
regular-first first v2 = v2_regular_payouts_in-closed first first v2 (omega arith) ∙ ground arith

regular-step :
    (first last : ℕ)
    → 210_537 ≤ first
    → first ≤ last
    → v2_regular_payouts_in first (suc last)
      ≡ v2_regular_payouts_in first last + regular_at (suc last)
regular-step first last v2 le =
    rw
      (
        v2_regular_payouts_in-closed first (suc last) v2 (omega arith),
        v2_regular_payouts_in-closed first last v2 le,
      )
      (ground arith)

-- The last payout covers the incomplete interval.
covered_blocks-split :
    (height : ℕ)
    → 210_537 ≤ height
    → covered_blocks height ≡ regular_at height * 2880 + (if height == 3_223_778 then 762 else 0)
covered_blocks-split height v2 = ground arith

-- The blocks of the last payout, if it falls between `first` and `last`.
abbrev final_blocks : ℕ → ℕ → ℕ
final_blocks first last = if leb first 3_223_778 && leb 3_223_778 last then 762 else 0

final_blocks-step :
    (first last : ℕ)
    → first ≤ last
    → final_blocks first (suc last)
      ≡ final_blocks first last + (if suc last == 3_223_778 then 762 else 0)
final_blocks-step first last le = ground arith

covered_blocks-step :
    (first last total : ℕ)
    → 210_537 ≤ first
    → first ≤ last
    → total ≡ v2_regular_payouts_in first last * 2880 + final_blocks first last
    → total + covered_blocks (suc last)
      ≡ v2_regular_payouts_in first (suc last) * 2880 + final_blocks first (suc last)
covered_blocks-step first last total v2 le e =
    let split = covered_blocks-split (suc last) (omega arith) in
    let regular = regular-step first last v2 le in
    let final = final_blocks-step first last le in rw (split, regular, final, e) (omega arith)

sum-covered_blocks :
    (first n : ℕ)
    → 210_537 ≤ first
    → sum_range covered_blocks first (suc n)
      ≡ v2_regular_payouts_in first (first + n) * 2880 + final_blocks first (first + n)
unfolding sum_range
sum-covered_blocks first zero v2 =
    rw (add-zero first, regular-first first v2, covered_blocks-split first v2) (ground arith)
sum-covered_blocks first (suc n) v2 = rw (add-suc first n) (
    covered_blocks-step first (first + n) (sum_range covered_blocks first (suc n)) v2 (omega arith)
      (sum-covered_blocks first n v2))

tier-test-inner : (tier : ℕ) → tier < 8 → (tier + 1 == 9) ≡ false
tier-test-inner tier h = ground arith

module _ (log_slots : ℕ → ℕ) where
  -- One tier's closed form is the sum over its blocks, where they all lie in the tier.
  tier_range-minted :
      (first n tier : ℕ)
      → 210_537 ≤ first
      → ((h : ℕ) → first ≤ h → h < first + suc n → v2_tier h ≡ some tier)
      → emitted_tier_range first (first + n) tier ≡ minted_split log_slots first (suc n)
  unfolding emitted_tier_range
  tier_range-minted first n tier v2 inside =
      let reward = v2_reward tier in
      let share = v2_reward tier / 20 in
      let miner =
        sum_range-congr (λ h. miner_subsidy h (log_slots h))
          (λ h. if leb h 3_223_778 then reward - 2 * share else reward) first (suc n)
          (λ h lo hi. miner_subsidy-v2 h (log_slots h) tier (omega arith) (inside h lo hi)) in
      let development =
        sum_range-congr (λ h. development_payout h (log_slots h))
          (λ h. covered_blocks h * (2 * share)) first (suc n)
          (λ h lo hi. development_payout-v2 h (log_slots h) tier (omega arith) (inside h lo hi)) in
      rw (le→ltb_false (first + n) first (omega arith)) (
        split_eq _ _
          (rw (miner, sum_range-if (λ h. leb h 3_223_778) (reward - 2 * share) reward first (suc n))
            (ap₂ (λ (a b : ℕ). a * (reward - 2 * share) + b * reward)
              (sym (count-allocation first n)) (plain_blocks first n)))
          (rw
            (
              development,
              sum_range-mul covered_blocks (2 * share) first (suc n),
              sum-covered_blocks first n v2,
            )
            (ground arith)))

  tier_range-empty :
      (first last tier : ℕ)
      → ltb last first ≡ true
      → emitted_tier_range first last tier ≡ empty_split
  unfolding emitted_tier_range
  tier_range-empty first last tier none_left = rw none_left

  minted_split-zero : (start : ℕ) → minted_split log_slots start 0 ≡ empty_split
  unfolding sum_range
  minted_split-zero start = refl

  tier_cut-minted :
      (first last tier : ℕ)
      → 210_537 ≤ first
      → ((h : ℕ) → first ≤ h → h ≤ last → v2_tier h ≡ some tier)
      → emitted_tier_range first last tier ≡ minted_split log_slots first (last + 1 - first)
  tier_cut-minted first last tier v2 inside = elim (Bool-cases (ltb last first)) [
    | inl none_left ↦
        let empty : last + 1 - first ≡ 0 = ground arith in
        tier_range-empty first last tier none_left
        ∙ sym (ap (minted_split log_slots first) empty ∙ minted_split-zero first)
    | inr some_left ↦
        let le : first ≤ last = ground arith in
        let last_eq : first + (last - first) ≡ last = omega arith in
        let count_eq : suc (last - first) ≡ last + 1 - first = omega arith in
        rw (last_eq, count_eq) at
          (tier_range-minted first (last - first) tier v2 (λ h lo hi. inside h lo (omega arith)))
  ]

  -- Two stretches of blocks that meet, or the second of which is empty.
  minted_split-join :
      (from a first b c : ℕ)
      → ((b ≡ 0) × (c ≡ a)) ⊎ ((first ≡ from + a) × (c ≡ a + b))
      → add_split (minted_split log_slots from a) (minted_split log_slots first b)
        ≡ minted_split log_slots from c
  unfolding sum_range
  minted_split-join from a first b c (inl (empty, same)) =
      rw (empty, same) (split_eq _ _ (omega arith) (omega arith))
  minted_split-join from a first b c (inr (meet, whole)) =
      rw (meet, whole) (sym (minted_split-add log_slots from a b))

-- The first height after the blocks of the tiers below `tier`, cut to `to`.
abbrev tiers_end : ℕ → ℕ → ℕ
tiers_end to tier = if ltb 8 tier then to + 1 else min (to + 1) (v2_tier_first_height tier)

-- How the heights of one tier meet those before it, where the tier goes from `first` to below `next`.
meet :
    (from to first next : ℕ)
    → from ≤ to
    → first < next
    → ((min (next - 1) to + 1 - max first from ≡ 0)
        × (min (to + 1) next - from ≡ min (to + 1) first - from))
      ⊎ ((max first from ≡ from + (min (to + 1) first - from))
          × (min (to + 1) next - from
              ≡ min (to + 1) first - from + (min (next - 1) to + 1 - max first from)))
meet from to first next le lt = elim (Bool-cases (leb first to)) [
  | inl starts ↦ inr (ground arith, ground arith)
  | inr beyond ↦ inl (ground arith, ground arith)
]

meet-last :
    (from to first : ℕ)
    → from ≤ to
    → ((to + 1 - max first from ≡ 0) × (to + 1 - from ≡ min (to + 1) first - from))
      ⊎ ((max first from ≡ from + (min (to + 1) first - from))
          × (to + 1 - from ≡ min (to + 1) first - from + (to + 1 - max first from)))
meet-last from to first le = elim (Bool-cases (leb first to)) [
  | inl starts ↦ inr (ground arith, ground arith)
  | inr beyond ↦ inl (ground arith, ground arith)
]

tiers_end-inner :
    (to tier : ℕ) → tier ≤ 8 → tiers_end to tier ≡ min (to + 1) (v2_tier_first_height tier)
tiers_end-inner to tier h = ground arith

module _ (log_slots : ℕ → ℕ) (from to : ℕ) (v2 : 210_537 ≤ from) (le : from ≤ to) where
  inner_tier-joins :
      (tier : ℕ)
      → tier < 8
      → add_split
          (minted_split log_slots from (tiers_end to tier - from))
          (emitted_v2_tier from to tier)
        ≡ minted_split log_slots from (tiers_end to (suc tier) - from)
  unfolding emitted_v2_tier
  inner_tier-joins tier less =
      let first = v2_tier_first_height tier in
      let next = v2_tier_first_height (tier + 1) in
      let next_eq : v2_tier_first_height (suc tier) ≡ next = omega arith in
      rw
        (
          tiers_end-inner to tier (omega arith),
          tiers_end-inner to (suc tier) (omega arith),
          tier-test-inner tier less,
          next_eq,
        )
        (ap (add_split (minted_split log_slots from (min (to + 1) first - from))) (
            tier_cut-minted log_slots (max first from) (min (next - 1) to) tier (omega arith)
              (λ h lo hi. v2_tier-inside h tier less (omega arith) (omega arith)))
          ∙ minted_split-join log_slots from _ _ _ _ (meet from to first next le (omega arith)))

  last_tier-joins :
      add_split (minted_split log_slots from (tiers_end to 8 - from)) (emitted_v2_tier from to 8)
      ≡ minted_split log_slots from (tiers_end to 9 - from)
  unfolding emitted_v2_tier
  last_tier-joins =
      let first : ℕ = v2_tier_first_height 8 in
      ap (add_split (minted_split log_slots from (min (to + 1) first - from))) (
        tier_cut-minted log_slots (max first from) to 8 (omega arith)
          (λ h lo hi. v2_tier-last h (omega arith)))
      ∙ minted_split-join log_slots from _ _ _ _ (meet-last from to first le)

  -- The loop over the first tiers adds the blocks below the next tier.
  v2_loop-minted :
      (tiers : ℕ)
      → tiers ≤ 8
      → v2_loop from to tiers ≡ minted_split log_slots from (tiers_end to tiers - from)
  unfolding v2_loop
  v2_loop-minted zero t =
      let before : tiers_end to 0 - from ≡ 0 = ground arith in
      sym (ap (minted_split log_slots from) before ∙ minted_split-zero log_slots from)
  v2_loop-minted (suc tier) t =
      ap (λ (a : EmissionSplit). add_split a (emitted_v2_tier from to tier))
        (v2_loop-minted tier (omega arith))
      ∙ inner_tier-joins tier t

  -- The heights `from` to `to` after the fork: the closed form is the sum over the blocks.
  pub emitted_v2_between-minted :
      emitted_v2_between from to ≡ minted_split log_slots from (to + 1 - from)
  unfolding emitted_v2_between v2_loop
  emitted_v2_between-minted = rw (le→ltb_false to from le) (
      ap (λ (a : EmissionSplit). add_split a (emitted_v2_tier from to 8))
        (v2_loop-minted 8 (omega arith))
      ∙ last_tier-joins)
