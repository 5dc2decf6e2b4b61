-- ===== src/Emission/Legacy.antt =====
-- core/src/emission.rs, `emitted_legacy_range` and the loop over the state expansions, against the
-- sum over the blocks.
use gb_parano1d_permanode.Prelude.{
  ℕ, zero, suc, ◌+◌, ◌-◌, ◌*◌, ◌/◌, ◌%◌, ◌≤◌, ◌<◌, ◌≡◌, refl, sym, ap, ap₂, ◌∙◌, arith, ◌==◌, ltb,
  if◌then◌else◌, List, [], ◌∷◌, ◌++◌, sum_range, count_range, sum_range-if, sum_range-congr,
  sum_range-const, sum_range-add, lt→ltb, le→ltb_false, retain, leb,
}
use gb_parano1d_permanode.Emission.Schedule.{block_reward}
use gb_parano1d_permanode.Emission.Allocation.{miner_subsidy, development_payout}
use gb_parano1d_permanode.Emission.Totals.{
  EmissionSplit, empty_split, add_split, emitted_legacy_range, legacy_loop, emitted_legacy_up_to,
}
use gb_parano1d_permanode.Emission.Era.{miner_subsidy-legacy, development_payout-legacy}

count_range-daily :
    (start n : ℕ)
    → 1 ≤ start
    → count_range (λ h. h % 4320 == 0) start (suc n) ≡ (start + n) / 4320 - (start - 1) / 4320
unfolding count_range
count_range-daily start zero h = ground arith
count_range-daily start (suc n) h = ground (arith, count_range-daily start n h)

legacy_range-miner :
    (start n log_slots : ℕ)
    → 1 ≤ start
    → start + n < 210_537
    → (emitted_legacy_range start (start + n) log_slots).miner
      ≡ sum_range (λ h. miner_subsidy h log_slots) start (suc n)
unfolding emitted_legacy_range
legacy_range-miner start n log_slots pos end =
    let minted = block_reward log_slots - 2 * (block_reward log_slots / 20) in
    let sum =
      sum_range-congr (λ h. miner_subsidy h log_slots) (λ _. minted) start (suc n)
        (λ h lo hi. miner_subsidy-legacy h log_slots (omega arith) (omega arith)) in
    rw (sum, sum_range-const minted start (suc n)) (ground arith)

legacy_range-development :
    (start n log_slots : ℕ)
    → 1 ≤ start
    → start + n < 210_537
    → (emitted_legacy_range start (start + n) log_slots).development
      ≡ sum_range (λ h. development_payout h log_slots) start (suc n)
unfolding emitted_legacy_range
legacy_range-development start n log_slots pos end =
    let paid = 2 * (block_reward log_slots / 20 * 4320) in
    let sum =
      sum_range-congr (λ h. development_payout h log_slots) (λ h. if h % 4320 == 0 then paid else 0)
        start (suc n)
        (λ h lo hi. development_payout-legacy h log_slots (omega arith) (omega arith)) in
    rw (sum, sum_range-if (λ h. h % 4320 == 0) paid 0 start (suc n), count_range-daily start n pos)
      (ground arith)

-- What the blocks from `start` on, `n` of them, mint at one state size each.
abbrev pub minted_split : (ℕ → ℕ) → ℕ → ℕ → EmissionSplit
minted_split log_slots start n = record {
  miner = sum_range (λ h. miner_subsidy h (log_slots h)) start n;
  development = sum_range (λ h. development_payout h (log_slots h)) start n;
}

pub split_eq : (a b : EmissionSplit) → a.miner ≡ b.miner → a.development ≡ b.development → a ≡ b
split_eq a b p q = λ i. record { miner = p i; development = q i }

-- One turn of the loop adds the blocks from `start` up to the next bound.
legacy_turn :
    (start k log_slots : ℕ) (total : EmissionSplit)
    → 1 ≤ start
    → start + k ≤ 210_537
    → (if ltb start (start + k)
        then add_split total (emitted_legacy_range start (start + k - 1) log_slots)
        else total)
      ≡ add_split total (minted_split (λ _. log_slots) start k)
unfolding sum_range
legacy_turn start zero log_slots total pos end =
    rw (le→ltb_false start (start + 0) (omega arith)) (split_eq _ _ (omega arith) (omega arith))
legacy_turn start (suc k) log_slots total pos end =
    let e : start + suc k - 1 ≡ start + k = omega arith in
    rw (
      e,
      lt→ltb start (start + suc k) (omega arith),
      ← legacy_range-miner start k log_slots pos (omega arith),
      ← legacy_range-development start k log_slots pos (omega arith),
    )

-- The state expansions reached at a height.
abbrev pub reached : List ℕ → ℕ → ℕ
reached [] h = 0
reached (e ∷ es) h = (if leb e h then 1 else 0) + reached es h

-- Heights in ascending order, from `lo` on.
abbrev pub IsAscending : ℕ → List ℕ → Type 0
IsAscending lo [] = Unit {0}
IsAscending lo (e ∷ es) = (lo ≤ e) × IsAscending e es

reached-before : (es : List ℕ) (lo h : ℕ) → IsAscending lo es → h < lo → reached es h ≡ 0
reached-before [] lo h a lt = refl
reached-before (e ∷ es) lo h a lt = ground (arith, reached-before es e h a.1)

abbrev AllUpTo : ℕ → List ℕ → Type 0
AllUpTo hi [] = Unit {0}
AllUpTo hi (e ∷ es) = (e ≤ hi) × AllUpTo hi es

pub minted_split-add :
    (f : ℕ → ℕ) (start m n : ℕ)
    → minted_split f start (m + n)
      ≡ add_split (minted_split f start m) (minted_split f (start + m) n)
minted_split-add f start m n = split_eq _ _ (sum_range-add _ start m n) (sum_range-add _ start m n)

pub minted_split-congr :
    (f g : ℕ → ℕ) (start n : ℕ)
    → ((h : ℕ) → start ≤ h → h < start + n → f h ≡ g h)
    → minted_split f start n ≡ minted_split g start n
minted_split-congr f g start n e =
    split_eq _ _ (sum_range-congr _ _ start n (λ h lo hi. ap (miner_subsidy h) (e h lo hi)))
      (sum_range-congr _ _ start n (λ h lo hi. ap (development_payout h) (e h lo hi)))

pub add_split_assoc :
    (a b c : EmissionSplit) → add_split (add_split a b) c ≡ add_split a (add_split b c)
add_split_assoc a b c = split_eq _ _ (omega arith) (omega arith)

legacy_turn-bound :
    (start next log_slots : ℕ) (total : EmissionSplit)
    → 1 ≤ start
    → start ≤ next
    → next ≤ 210_537
    → (if ltb start next
        then add_split total (emitted_legacy_range start (next - 1) log_slots)
        else total)
      ≡ add_split total (minted_split (λ _. log_slots) start (next - start))
legacy_turn-bound start next log_slots total pos le end =
    let e : start + (next - start) ≡ next = omega arith in
    rw e at (legacy_turn start (next - start) log_slots total pos (omega arith))

-- A range of blocks cut at a state expansion.
minted_split-cut :
    (es : List ℕ) (start e hi log_slots : ℕ)
    → start ≤ e
    → e ≤ hi
    → IsAscending e es
    → minted_split (λ h. log_slots + reached (e ∷ es) h) start (hi - start)
      ≡ add_split
          (minted_split (λ _. log_slots) start (e - start))
          (minted_split (λ h. log_slots + 1 + reached es h) e (hi - e))
minted_split-cut es start e hi log_slots le up asc =
    let f : ℕ → ℕ = λ h. log_slots + reached (e ∷ es) h in
    let length_eq : hi - start ≡ e - start + (hi - e) = omega arith in
    let start_eq : start + (e - start) ≡ e = omega arith in
    rw (length_eq, minted_split-add f start (e - start) (hi - e), start_eq)
      (ap₂ add_split
        (minted_split-congr f (λ _. log_slots) start (e - start)
          (λ h lo lt. ground (arith, reached-before es e h asc)))
        (minted_split-congr f (λ h. log_slots + 1 + reached es h) e (hi - e)
          (λ h lo lt. ground arith)))

pub add_split-empty : (a : EmissionSplit) → add_split empty_split a ≡ a
add_split-empty a = split_eq _ _ (omega arith) (omega arith)

-- The loop from `start` on adds every block below `hi`.
legacy_loop-minted :
    (es : List ℕ) (start hi log_slots : ℕ) (total : EmissionSplit)
    → 1 ≤ start
    → start ≤ hi
    → hi ≤ 210_537
    → IsAscending start es
    → AllUpTo hi es
    → legacy_loop (es ++ hi ∷ []) start log_slots total
      ≡ add_split total (minted_split (λ h. log_slots + reached es h) start (hi - start))
unfolding legacy_loop
legacy_loop-minted [] start hi log_slots total pos le end asc up =
    legacy_turn-bound start hi log_slots total pos le end
    ∙ ap (add_split total) (minted_split-congr _ _ start (hi - start) (λ h lo lt. omega arith))
legacy_loop-minted (e ∷ es) start hi log_slots total pos le end asc up =
    let first = minted_split (λ _. log_slots) start (e - start) in
    let rest = minted_split (λ h. log_slots + 1 + reached es h) e (hi - e) in
    ap (legacy_loop (es ++ hi ∷ []) e (log_slots + 1))
      (legacy_turn-bound start e log_slots total pos asc.0 (omega arith))
    ∙ legacy_loop-minted es e hi (log_slots + 1) (add_split total first) (omega arith) up.0 end
        asc.1 up.1
    ∙ add_split_assoc total first rest
    ∙ ap (add_split total) (sym (minted_split-cut es start e hi log_slots asc.0 up.0 asc.1))

IsAscending-weaken : (es : List ℕ) (lo' lo : ℕ) → lo ≤ lo' → IsAscending lo' es → IsAscending lo es
IsAscending-weaken [] lo' lo le asc = tt
IsAscending-weaken (e ∷ es) lo' lo le asc = (omega arith, asc.1)

retain-IsAscending :
    (es : List ℕ) (lo hi : ℕ) → IsAscending lo es → IsAscending lo (retain (λ h. leb h hi) es)
retain-IsAscending [] lo hi asc = tt
retain-IsAscending (e ∷ es) lo hi asc =
    let rest = retain-IsAscending es e hi asc.1 in
    ground (arith, IsAscending-weaken (retain (λ h. leb h hi) es) e lo)

retain-AllUpTo : (es : List ℕ) (hi : ℕ) → AllUpTo (hi + 1) (retain (λ h. leb h hi) es)
retain-AllUpTo [] hi = tt
retain-AllUpTo (e ∷ es) hi = ground (arith, retain-AllUpTo es hi)

-- Expansions above `hi` do not matter for the heights up to `hi`.
reached-retain :
    (es : List ℕ) (hi h : ℕ) → h ≤ hi → reached (retain (λ h. leb h hi) es) h ≡ reached es h
reached-retain [] hi h le = refl
reached-retain (e ∷ es) hi h le = ground (arith, reached-retain es hi h le)

pub emitted_legacy_up_to-minted :
    (height : ℕ) (es : List ℕ)
    → height < 210_537
    → IsAscending 1 es
    → emitted_legacy_up_to height es ≡ minted_split (λ h. 24 + reached es h) 1 height
unfolding emitted_legacy_up_to
emitted_legacy_up_to-minted height es end asc =
    let loop =
      legacy_loop-minted (retain (λ h. leb h height) es) 1 (height + 1) 24 empty_split (omega arith)
        (omega arith) (omega arith) (retain-IsAscending es 1 height asc)
        (retain-AllUpTo es height) in
    let n : height + 1 - 1 ≡ height = omega arith in
    loop
    ∙ add_split-empty _
    ∙ ap (minted_split _ 1) n
    ∙ minted_split-congr _ _ 1 height
        (λ h lo hi. ap (λ (k : ℕ). 24 + k) (reached-retain es height h (omega arith)))
