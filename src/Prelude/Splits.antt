-- ===== src/Prelude/Splits.antt =====
-- Taking and dropping at the border of two lists, and words of bytes there and back.
use Prim.Native.Nat.{ℕ, zero, suc, ◌+◌, ◌-◌, ◌/◌, ◌%◌, ◌^◌, ◌<◌, ◌≤◌}
use mathlib.Core.Path.{◌≡◌, refl, ap}
use mathlib.Core.Bool.{true}
use mathlib.Core.List.{List, [], ◌∷◌, ◌++◌}
use native.Mathlib.Omega.{arith}
use gb_parano1d_permanode.Prelude.Lists.{length, take, drop}
use gb_parano1d_permanode.Prelude.Tests.{eq→==}
use gb_parano1d_permanode.Prelude.Words.{from_le_bytes, prefix_of, same_bytes}

module _ {ℓ} {A : Type ℓ} where
  pub length-drop : (xs : List A) (n : ℕ) → length (drop xs n) ≡ length xs - n
  length-drop xs zero = omega arith
  length-drop [] (suc n) = omega arith
  length-drop (x ∷ xs) (suc n) = omega (arith, length-drop xs n)

  pub length-take : (xs : List A) (n : ℕ) → n ≤ length xs → length (take xs n) ≡ n
  length-take xs zero le = refl
  length-take [] (suc n) le = omega arith
  length-take (x ∷ xs) (suc n) le =
      let ih = length-take xs n (omega (arith, le)) in omega (arith, ih)

  pub length-take_le :
      (xs : List A) (n : ℕ) → (length (take xs n) ≤ n) × (length (take xs n) ≤ length xs)
  length-take_le xs zero = (omega arith, omega arith)
  length-take_le [] (suc n) = (omega arith, omega arith)
  length-take_le (x ∷ xs) (suc n) =
      let ih = length-take_le xs n in (omega (arith, ih.0), omega (arith, ih.1))

  pub take-append : (xs ys : List A) (n : ℕ) → length xs ≡ n → take (xs ++ ys) n ≡ xs
  take-append [] ys zero e = refl
  take-append [] ys (suc n) e = ground (arith, e)
  take-append (x ∷ xs) ys zero e = ground (arith, e)
  take-append (x ∷ xs) ys (suc n) e =
      ap (λ (l : List A). x ∷ l) (take-append xs ys n (omega (arith, e)))

  pub drop-append : (xs ys : List A) (n : ℕ) → length xs ≡ n → drop (xs ++ ys) n ≡ ys
  drop-append [] ys zero e = refl
  drop-append [] ys (suc n) e = ground (arith, e)
  drop-append (x ∷ xs) ys zero e = ground (arith, e)
  drop-append (x ∷ xs) ys (suc n) e = drop-append xs ys n (omega (arith, e))

  pub drop-drop : (xs : List A) (m n : ℕ) → drop xs (m + n) ≡ drop (drop xs m) n
  drop-drop xs zero n = let e : 0 + n ≡ n = omega arith in rw e refl
  drop-drop [] (suc m) zero = let e : suc m + 0 ≡ suc m = omega arith in rw e refl
  drop-drop [] (suc m) (suc n) = let e : suc m + suc n ≡ suc (suc m + n) = omega arith in rw e refl
  drop-drop (x ∷ xs) (suc m) n =
      let e : suc m + n ≡ suc (m + n) = omega arith in rw e (drop-drop xs m n)

  pub take-over :
      (xs ys : List A) (m n : ℕ) → length xs ≡ m → take (xs ++ ys) (m + n) ≡ xs ++ take ys n
  take-over [] ys zero n e = let e : 0 + n ≡ n = omega arith in rw e refl
  take-over [] ys (suc m) n e = ground (arith, e)
  take-over (x ∷ xs) ys zero n e = ground (arith, e)
  take-over (x ∷ xs) ys (suc m) n e =
      let step : suc m + n ≡ suc (m + n) = omega arith in
      rw step (ap (λ (l : List A). x ∷ l) (take-over xs ys m n (omega (arith, e))))

pub prefix_of_refl : (bytes : List ℕ) → prefix_of bytes bytes ≡ true
prefix_of_refl [] = refl
prefix_of_refl (b ∷ bytes) = rw (eq→== b b refl) (prefix_of_refl bytes)

pub prefix_of-append : (bytes rest : List ℕ) → prefix_of bytes (bytes ++ rest) ≡ true
prefix_of-append [] rest = refl
prefix_of-append (b ∷ bytes) rest = rw (eq→== b b refl) (prefix_of-append bytes rest)

pub same_bytes_refl : (bytes : List ℕ) → same_bytes bytes bytes ≡ true
same_bytes_refl bytes = rw (prefix_of_refl bytes, eq→== (length bytes) (length bytes) refl) refl

-- `u64::to_le_bytes` is `to_le_bytes 8`.
abbrev pub to_le_bytes : ℕ → ℕ → List ℕ
to_le_bytes zero n = []
to_le_bytes (suc k) n = n % 256 ∷ to_le_bytes k (n / 256)

pub length-to_le_bytes : (k n : ℕ) → length (to_le_bytes k n) ≡ k
length-to_le_bytes zero n = refl
length-to_le_bytes (suc k) n = omega (arith, length-to_le_bytes k (n / 256))

pub from_le_bytes-to_le_bytes : (k n : ℕ) → n < 256 ^ k → from_le_bytes (to_le_bytes k n) ≡ n
from_le_bytes-to_le_bytes zero n lt = omega (arith, lt)
from_le_bytes-to_le_bytes (suc k) n lt =
    let ih = from_le_bytes-to_le_bytes k (n / 256) (omega (arith, lt)) in rw ih (omega arith)
