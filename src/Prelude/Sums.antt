-- ===== src/Prelude/Sums.antt =====
-- Sums over a range of consecutive heights.
use Prim.Native.Nat.{ℕ, zero, suc, ◌+◌, ◌*◌, ◌≤◌, ◌<◌}
use mathlib.Core.Path.{◌≡◌, refl, ap₂}
use mathlib.Core.Logic.{inl, inr}
use mathlib.Core.Bool.{Bool, not}
use native.Mathlib.Omega.{arith}
use native.Mathlib.Nat.{add-zero, add-suc, add_assoc}
use gb_parano1d_permanode.Prelude.Tests.{if◌then◌else◌, Bool-cases}

-- f start + f (start + 1) + … with n terms.
unfoldable pub sum_range : (ℕ → ℕ) → ℕ → ℕ → ℕ
sum_range f start zero = 0
sum_range f start (suc n) = sum_range f start n + f (start + n)

pub sum_range-zero : (f : ℕ → ℕ) (start : ℕ) → sum_range f start 0 ≡ 0
unfolding sum_range
sum_range-zero f start = refl

pub sum_range-suc :
    (f : ℕ → ℕ) (start n : ℕ) → sum_range f start (suc n) ≡ sum_range f start n + f (start + n)
unfolding sum_range
sum_range-suc f start n = refl

pub sum_range-add :
    (f : ℕ → ℕ) (start m n : ℕ)
    → sum_range f start (m + n) ≡ sum_range f start m + sum_range f (start + m) n
unfolding sum_range
sum_range-add f start m zero = rw (add-zero m) (omega arith)
sum_range-add f start m (suc n) =
    rw (add-suc m n, ← add_assoc start m n) (omega (arith, sum_range-add f start m n))

pub sum_range-congr :
    (f g : ℕ → ℕ) (start n : ℕ)
    → ((h : ℕ) → start ≤ h → h < start + n → f h ≡ g h)
    → sum_range f start n ≡ sum_range g start n
unfolding sum_range
sum_range-congr f g start zero e = refl
sum_range-congr f g start (suc n) e =
    ap₂ ◌+◌ (sum_range-congr f g start n (λ h p q. e h p (omega arith)))
      (e (start + n) (omega arith) (omega arith))

pub sum_range-const : (c : ℕ) (start n : ℕ) → sum_range (λ _. c) start n ≡ n * c
unfolding sum_range
sum_range-const c start zero = omega arith
sum_range-const c start (suc n) = omega (arith, sum_range-const c start n)

-- The number of heights from `start` on, `n` of them, that pass the test.
unfoldable pub count_range : (ℕ → Bool) → ℕ → ℕ → ℕ
count_range p start zero = 0
count_range p start (suc n) =
    if p (start + n) then count_range p start n + 1 else count_range p start n

-- A sum of two values chosen by a test.
pub sum_range-if :
    (p : ℕ → Bool) (a b start n : ℕ)
    → sum_range (λ h. if p h then a else b) start n
      ≡ count_range p start n * a + count_range (λ h. not (p h)) start n * b
unfolding sum_range count_range
sum_range-if p a b start zero = omega arith
sum_range-if p a b start (suc n) = elim (Bool-cases (p (start + n))) [
  | inl e ↦ rw e (omega (arith, sum_range-if p a b start n))
  | inr e ↦ rw e (omega (arith, sum_range-if p a b start n))
]

pub sum_range-mul :
    (f : ℕ → ℕ) (c start n : ℕ) → sum_range (λ h. f h * c) start n ≡ sum_range f start n * c
unfolding sum_range
sum_range-mul f c start zero = omega arith
sum_range-mul f c start (suc n) = omega (arith, sum_range-mul f c start n)

pub sum_range-plus :
    (f g : ℕ → ℕ) (start n : ℕ)
    → sum_range (λ h. f h + g h) start n ≡ sum_range f start n + sum_range g start n
unfolding sum_range
sum_range-plus f g start zero = omega arith
sum_range-plus f g start (suc n) = omega (arith, sum_range-plus f g start n)

pub sum_range-le :
    (f : ℕ → ℕ) (c start n : ℕ)
    → ((h : ℕ) → start ≤ h → h < start + n → f h ≤ c)
    → sum_range f start n ≤ n * c
unfolding sum_range
sum_range-le f c start zero e = omega arith
sum_range-le f c start (suc n) e = omega (
  arith,
  sum_range-le f c start n (λ h p q. e h p (omega arith)),
  e (start + n) (omega arith) (omega arith),
)
