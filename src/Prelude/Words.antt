-- ===== src/Prelude/Words.antt =====
-- Texts as Rust's `str` treats them, and words of bytes in little endian order.
use Prim.Native.Nat.{ℕ, ◌+◌, ◌-◌, ◌*◌}
use Prim.Native.String.{String, char_at}
use Prim.Native.Char.{Char, code}
use mathlib.Core.Bool.{Bool, true, false, ◌&&◌, ◌||◌}
use mathlib.Core.List.{List, [], ◌∷◌}
use gb_parano1d_permanode.Prelude.Tests.{leb, ◌==◌, if◌then◌else◌}
use gb_parano1d_permanode.Prelude.Lists.{length}

abbrev between : ℕ → ℕ → ℕ → Bool
between low c high = leb low c && leb c high

abbrev pub to_lower : Char → Char
to_lower c =
    if between 65 (code c) 90 then char_at "abcdefghijklmnopqrstuvwxyz" (code c - 65) else c

-- `str::to_ascii_lowercase`
abbrev pub to_ascii_lowercase : String → String
to_ascii_lowercase String.[] = String.[]
to_ascii_lowercase (String.◌∷◌ c s) = String.◌∷◌ (to_lower c) (to_ascii_lowercase s)

-- `u8::is_ascii_hexdigit`
abbrev pub is_hex_digit : Char → Bool
is_hex_digit c = between 48 (code c) 57 || (between 65 (code c) 70 || between 97 (code c) 102)

abbrev pub all_hex_digits : String → Bool
all_hex_digits String.[] = true
all_hex_digits (String.◌∷◌ c s) = is_hex_digit c && all_hex_digits s

-- `char::is_whitespace`: the characters with Unicode's `White_Space` property.
abbrev pub is_whitespace : Char → Bool
is_whitespace c =
    between 9 (code c) 13
    || (code c == 32)
    || (code c == 133)
    || (code c == 160)
    || (code c == 5760)
    || between 8192 (code c) 8202
    || between 8232 (code c) 8233
    || (code c == 8239)
    || (code c == 8287)
    || (code c == 12288)

-- `split_whitespace().collect()`: what is left without the white space.
abbrev pub without_whitespace : String → String
without_whitespace String.[] = String.[]
without_whitespace (String.◌∷◌ c s) =
    if is_whitespace c then without_whitespace s else String.◌∷◌ c (without_whitespace s)

abbrev pub is_empty : String → Bool
is_empty String.[] = true
is_empty (String.◌∷◌ c s) = false

abbrev pub trim_start : String → String
trim_start String.[] = String.[]
trim_start (String.◌∷◌ c s) = if is_whitespace c then trim_start s else String.◌∷◌ c s

abbrev pub trim_end : String → String
trim_end String.[] = String.[]
trim_end (String.◌∷◌ c s) =
    let rest = trim_end s in
    if is_whitespace c && is_empty rest then String.[] else String.◌∷◌ c rest

abbrev pub trim : String → String
trim s = trim_end (trim_start s)

-- `s.starts_with(c)` for the character with a code.
abbrev pub starts_with_char : String → ℕ → Bool
starts_with_char String.[] n = false
starts_with_char (String.◌∷◌ c s) n = code c == n

-- The text between line feeds: `str::lines`, but for a carriage return at a line's end and an empty
-- last line, which a caller that trims lines and leaves out empty ones does not see.
abbrev add_to_first : Char → List String → List String
add_to_first c [] = String.◌∷◌ c String.[] ∷ []
add_to_first c (l ∷ ls) = String.◌∷◌ c l ∷ ls

abbrev pub lines : String → List String
lines String.[] = []
lines (String.◌∷◌ c s) = if code c == 10 then String.[] ∷ lines s else add_to_first c (lines s)

abbrev pub prefix_of : List ℕ → List ℕ → Bool
prefix_of [] bytes = true
prefix_of (p ∷ ps) [] = false
prefix_of (p ∷ ps) (b ∷ bytes) = p == b && prefix_of ps bytes

-- The same bytes.
abbrev pub same_bytes : List ℕ → List ℕ → Bool
same_bytes a b = prefix_of a b && (length a == length b)

-- `u64::from_le_bytes`
abbrev pub from_le_bytes : List ℕ → ℕ
from_le_bytes [] = 0
from_le_bytes (b ∷ bytes) = b + 256 * from_le_bytes bytes

-- The greatest `u64`.
abbrev pub u64_max : ℕ
u64_max = 18446744073709551615

-- `!n` on a `u64`.
abbrev pub u64_not : ℕ → ℕ
u64_not n = u64_max - n
