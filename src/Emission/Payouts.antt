-- ===== src/Emission/Payouts.antt =====
-- core/src/emission.rs: which heights carry a development payout, how many do, and which is next.
use gb_parano1d_permanode.Prelude.{
  ℕ, zero, suc, ◌+◌, ◌-◌, ◌*◌, ◌/◌, ◌%◌, ◌^◌, ◌≤◌, ◌<◌, ◌≡◌, refl, arith, Bool, true, false, ◌&&◌,
  ◌||◌, ◌==◌, leb, ltb, if◌then◌else◌, Option, some, none, count_range, inl, inr, Bool-cases, ◌⊎◌,
  max, min, ◌∙◌, leb→le, ltb→lt, ltb_false→le,
}
use native.Mathlib.Nat.{mod-eq_of_lt}
use gb_parano1d_permanode.Emission.Allocation.{
  is_development_payout_height, development_allocation_at, v2_payout_count,
}
use gb_parano1d_permanode.Emission.Totals.{
  v2_regular_payouts_in, development_payout_blocks_up_to, next_v2_payout_height,
  next_development_payout_height,
}

-- A payout is due on every legacy multiple of 4,320, every 2,880 blocks after the fork up to the
-- end of the allocation, and at that end.
abbrev payout_due_at : ℕ → Bool
payout_due_at height =
    if ltb height 210_537
    then ltb 0 height && (height % 4320 == 0)
    else leb height 3_223_778 && (((height - 210_536) % 2880 == 0) || (height == 3_223_778))

is_development_payout_height-due :
    (height : ℕ) → is_development_payout_height height ≡ payout_due_at height
unfolding is_development_payout_height development_allocation_at v2_payout_count
is_development_payout_height-due height = ground arith

-- The answer of the search for the next payout, by its result.
abbrev pub IsNextPayout : ℕ → Option ℕ → Type 0
IsNextPayout height none = (h : ℕ) → height < h → is_development_payout_height h ≡ false
IsNextPayout height (some next) =
    (height < next)
    × (is_development_payout_height next ≡ true)
    × ((h : ℕ) → height < h → h < next → is_development_payout_height h ≡ false)

legacy-IsNextPayout :
    (height : ℕ)
    → (height / 4320 + 1) * 4320 < 210_537
    → IsNextPayout height (some ((height / 4320 + 1) * 4320))
legacy-IsNextPayout height lt = (
  omega arith,
  is_development_payout_height-due ((height / 4320 + 1) * 4320) ∙ ground arith,
  λ h lo hi. is_development_payout_height-due h ∙ ground arith,
)

module _ (height : ℕ) (beyond : (210_536 ≤ height) ⊎ (210_537 ≤ (height / 4320 + 1) * 4320)) where
  abbrev next_regular : ℕ
  next_regular = 210_536 + ((max height 210_536 - 210_536) / 2880 + 1) * 2880

  regular-IsNextPayout : next_regular ≤ 3_223_778 → IsNextPayout height (some next_regular)
  regular-IsNextPayout le = (
    omega arith,
    is_development_payout_height-due next_regular ∙ ground arith,
    λ h lo hi. is_development_payout_height-due h ∙ ground arith,
  )

  final-IsNextPayout :
      3_223_778 < next_regular → height < 3_223_778 → IsNextPayout height (some 3_223_778)
  final-IsNextPayout lt ends = (
    ends,
    is_development_payout_height-due 3_223_778 ∙ ground arith,
    λ h lo hi. is_development_payout_height-due h ∙ ground arith,
  )

  ended-IsNextPayout : 3_223_778 ≤ height → IsNextPayout height none
  ended-IsNextPayout ends h lo = is_development_payout_height-due h ∙ ground arith

  next_v2_payout_height-IsNextPayout :
      height + 2880 < 2 ^ 64 → IsNextPayout height (next_v2_payout_height height)
  unfolding next_v2_payout_height
  next_v2_payout_height-IsNextPayout fits =
      let whole : next_regular % 2 ^ 64 ≡ next_regular = mod-eq_of_lt (omega arith) in
      elim (Bool-cases (leb next_regular 3_223_778)) [
        | inl regular ↦ rw (whole, regular) (regular-IsNextPayout (leb→le _ _ regular))
        | inr past ↦ elim (Bool-cases (ltb height 3_223_778)) [
          | inl before ↦
              rw (whole, past, before) (final-IsNextPayout (ground arith) (ltb→lt _ _ before))
          | inr ended ↦ rw (whole, past, ended) (ended-IsNextPayout (ltb_false→le _ _ ended))
        ]
      ]

-- For a height more than 2,880 below 2 ^ 64, the next payout height is a payout height
-- above the given one with no payout in between; where there is no next one, no height above the
-- given one carries a payout.
pub next_development_payout_height-IsNextPayout :
    (height : ℕ)
    → height + 2880 < 2 ^ 64
    → IsNextPayout height (next_development_payout_height height)
unfolding next_development_payout_height
next_development_payout_height-IsNextPayout height fits =
    elim (Bool-cases (ltb height 210_536 && ltb ((height / 4320 + 1) * 4320) 210_537)) [
      | inl legacy ↦ rw legacy (legacy-IsNextPayout height (ground arith))
      | inr v2 ↦ rw v2 (next_v2_payout_height-IsNextPayout height (ground arith) fits)
    ]

payout_blocks-closed :
    (height : ℕ)
    → development_payout_blocks_up_to height
      ≡ min height 210_536 / 4320
        + (min height 3_223_778 - 210_536) / 2880
        + (if leb 3_223_778 height then 1 else 0)
unfolding development_payout_blocks_up_to v2_regular_payouts_in
payout_blocks-closed height = ground arith

payout_blocks-step :
    (height : ℕ)
    → development_payout_blocks_up_to (suc height) ≡ (
        if payout_due_at (suc height)
        then development_payout_blocks_up_to height + 1
        else development_payout_blocks_up_to height)
payout_blocks-step height =
    rw (payout_blocks-closed (suc height), payout_blocks-closed height) (ground arith)

-- The number of payout blocks up to a height is the count of the heights from 1 on that carry one.
pub development_payout_blocks_up_to-eq-count :
    (height : ℕ)
    → development_payout_blocks_up_to height ≡ count_range is_development_payout_height 1 height
unfolding count_range
development_payout_blocks_up_to-eq-count zero = payout_blocks-closed 0 ∙ refl
development_payout_blocks_up_to-eq-count (suc height) =
    let same : 1 + height ≡ suc height = omega arith in
    rw
      (
        same,
        is_development_payout_height-due (suc height),
        ← development_payout_blocks_up_to-eq-count height,
      )
      (payout_blocks-step height)
