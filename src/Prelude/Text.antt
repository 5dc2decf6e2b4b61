-- ===== src/Prelude/Text.antt =====
-- Text as the list of its codes, for the searches that the library's `String` does not make.
use Prim.Native.Nat.{ℕ, ◌+◌}
use Prim.Native.String.{String}
use Prim.Native.Char.{code}
use mathlib.Core.Bool.{Bool, true, false, ◌&&◌, ◌||◌}
use mathlib.Core.List.{List, [], ◌∷◌}
use gb_parano1d_permanode.Prelude.Tests.{leb, ◌==◌, if◌then◌else◌}

abbrev pub codes : String → List ℕ
codes String.[] = []
codes (String.◌∷◌ c s) = code c ∷ codes s

-- An ASCII capital as its small letter.
abbrev pub lower : ℕ → ℕ
lower c = if leb c 90 && leb 65 c then 32 + c else c

abbrev pub starts_ignoring_case : List ℕ → List ℕ → Bool
starts_ignoring_case s [] = true
starts_ignoring_case [] (c ∷ t) = false
starts_ignoring_case (c ∷ s) (d ∷ t) = lower c == lower d && starts_ignoring_case s t

-- `LIKE '%t%'` for a text `t` with no wildcard: SQLite compares ASCII letters ignoring their case.
abbrev pub contains_ignoring_case : List ℕ → List ℕ → Bool
contains_ignoring_case [] t = starts_ignoring_case [] t
contains_ignoring_case (c ∷ s) t = starts_ignoring_case (c ∷ s) t || contains_ignoring_case s t
