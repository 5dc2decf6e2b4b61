-- ===== src/Receipts/File.antt =====
-- permanode/src/receipts.rs, `parse_receipt_file`: the entries of an input file, whatever its kind.
-- The UTF-8 decoder and the JSON reader are parameters.
use gb_parano1d_permanode.Prelude.{
  ℕ, Bool, not, ◌&&◌, Option, none, some, String, List, map, ◌==◌, retain, if◌then◌else◌,
}
use Prim.Native.Char.{code}
use gb_parano1d_permanode.Prelude.Result.{Result, ok, ◌>>=◌, require}
use gb_parano1d_permanode.Prelude.Words.{
  to_ascii_lowercase, without_whitespace, trim, trim_start, is_empty, lines, starts_with_char,
  prefix_of,
}
use gb_parano1d_permanode.Receipts.Journal.{JournalFormat, ReceiptMap, journal_magic, parse_journal}
use gb_parano1d_permanode.Receipts.Import.{ReceiptEntry}

-- `std::str::from_utf8`, and `serde_json::from_str` to a map in the order of its keys.
pub record FileFormat : Type 0 where
  pub journal : JournalFormat
  pub from_utf8 : List ℕ → Option String
  pub from_str : String → Option ReceiptMap

-- `joined.strip_prefix("0x").unwrap_or(&joined)`
abbrev without_0x : String → String
without_0x (String.◌∷◌ a (String.◌∷◌ b rest)) =
    if (code a == 48) && (code b == 120) then rest else String.◌∷◌ a (String.◌∷◌ b rest)
without_0x (String.◌∷◌ a String.[]) = String.◌∷◌ a String.[]
without_0x String.[] = String.[]

unfoldable pub clean_hex : String → String
clean_hex raw = to_ascii_lowercase (without_0x (without_whitespace raw))

unfoldable pub receipt_entry : String → Option String → String → ReceiptEntry
unfolding clean_hex
receipt_entry origin key hex = record { origin = origin; key = key; hex = clean_hex hex }

-- A line that holds a receipt: not blank and no comment.
abbrev pub is_receipt_line : String → Bool
is_receipt_line l = not (is_empty l) && not (starts_with_char l 35)

-- The wallet's older format, or a receipt a line.
unfoldable pub parse_text : FileFormat → String → String → Result (List ReceiptEntry)
unfolding receipt_entry
parse_text format origin text =
    if starts_with_char (trim_start text) 123
    then require (format.from_str text) >>= (λ receipts. ok (
        map (λ (e : String × String). receipt_entry origin (some (to_ascii_lowercase e.0)) e.1)
          receipts))
    else ok (map (receipt_entry origin none) (retain is_receipt_line (map trim (lines text))))

unfoldable pub parse_receipt_file : FileFormat → String → List ℕ → Result (List ReceiptEntry)
unfolding parse_journal parse_text receipt_entry
parse_receipt_file format origin bytes =
    if prefix_of journal_magic bytes
    then parse_journal format.journal bytes >>= (λ receipts.
      ok (map (λ (e : String × String). receipt_entry origin (some e.0) e.1) receipts))
    else require (format.from_utf8 bytes) >>= (λ text. parse_text format origin text)
