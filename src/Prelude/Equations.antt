-- ===== src/Prelude/Equations.antt =====
-- What a test that holds says.
use Prim.Native.Nat.{ℕ}
use Prim.Native.String.{String}
use mathlib.Core.Path.{◌≡◌}
use mathlib.Core.Bool.{Bool, true, ◌&&◌}
use native.Mathlib.Omega.{arith}
use text.Mathlib.Text.{◌==◌ as str_eq}
use text.Mathlib.TextEquality.{eq_iff}
use gb_parano1d_permanode.Prelude.Tests.{◌==◌}

pub and-eq : (a b : Bool) → (a && b) ≡ true → (a ≡ true) × (b ≡ true)
and-eq a b e = ground arith

pub eq-of_== : (a b : ℕ) → (a == b) ≡ true → a ≡ b
eq-of_== a b e = ground arith

pub eq-of_str_eq : (a b : String) → str_eq a b ≡ true → a ≡ b
eq-of_str_eq a b e = (eq_iff a b).0 e
