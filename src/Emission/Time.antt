-- ===== src/Emission/Time.antt =====
-- core/src/emission.rs, `target_seconds_between`: the time of a stretch of blocks.
use gb_parano1d_permanode.Prelude.{
  ℕ, zero, suc, ◌+◌, ◌-◌, ◌≡◌, ap, ◌∙◌, sym, arith, leb, inl, inr, Bool-cases, sum_range,
  sum_range-zero, true, false, min, ◌*◌, ◌%◌, ◌^◌, ◌<◌,
}
use native.Mathlib.Nat.{mod-eq_of_lt}
use gb_parano1d_permanode.Emission.Schedule.{block_time_at, target_seconds_between}

target_seconds-none : (from to : ℕ) → leb to from ≡ true → target_seconds_between from to ≡ 0
unfolding target_seconds_between
target_seconds-none from to back = rw back

-- The sum before it is cut to 64 bits.
abbrev uncut_seconds : ℕ → ℕ → ℕ
uncut_seconds from to =
    let legacy = min to 210_536 - from in legacy * 20 + (to - from - legacy) * 30

uncut_seconds-sum :
    (from n : ℕ) → uncut_seconds from (from + n) ≡ sum_range block_time_at (from + 1) n
unfolding sum_range
uncut_seconds-sum from zero = ground arith
uncut_seconds-sum from (suc n) = ground (arith, uncut_seconds-sum from n)

target_seconds-cut :
    (from to : ℕ)
    → leb to from ≡ false
    → target_seconds_between from to ≡ uncut_seconds from to % 2 ^ 64
unfolding target_seconds_between
target_seconds-cut from to on = rw on

-- For two heights whose distance at 30 seconds a block fits a `u64`, the target time between them is
-- the sum of the target times of the blocks after the first up to and including the second, each at
-- its own era's interval; none if there are no such blocks.
pub target_seconds_between-eq-blocks :
    (from to : ℕ)
    → 30 * (to - from) < 2 ^ 64
    → target_seconds_between from to ≡ sum_range block_time_at (from + 1) (to - from)
target_seconds_between-eq-blocks from to fits = elim (Bool-cases (leb to from)) [
  | inl back ↦
      let empty : to - from ≡ 0 = ground arith in
      target_seconds-none from to back
      ∙ sym
          (ap (sum_range block_time_at (from + 1)) empty ∙ sum_range-zero block_time_at (from + 1))
  | inr on ↦
      let to_eq : from + (to - from) ≡ to = ground arith in
      let whole : uncut_seconds from to % 2 ^ 64 ≡ uncut_seconds from to =
        mod-eq_of_lt (omega arith) in
      target_seconds-cut from to on ∙ whole ∙ rw to_eq at (uncut_seconds-sum from (to - from))
]
