-- ===== src/Store/Gaps.antt =====
-- core/src/db.rs: the gap entries of `ingest_gaps` (one for each height) and `indexer_state`.
use gb_parano1d_permanode.Prelude.{
  ℕ, Bool, ◌&&◌, not, Option, none, some, String, List, [], ◌∷◌, ◌==◌, leb, str_eq, if◌then◌else◌,
  any, find, is_some, retain, sort_heights,
}
use mathlib.Core.Option
use mathlib.Core.List.{map}
use gb_parano1d_permanode.Store.Rows.{
  GapRow, BlockRow, StateValue, Database, update_where, insert_or_ignore,
}
use gb_parano1d_permanode.Store.Blocks.{canonical_block_filter, is_archived}

abbrev pub same_gap : GapRow → GapRow → Bool
same_gap a b = a.height == b.height

unfoldable pub record_gap : Database → ℕ → Option String → ℕ → String → Database
record_gap db height hash now note = record db {
  ingest_gaps =
      insert_or_ignore same_gap
        (record {
          height = height;
          hash = hash;
          detected_at = now;
          note = note;
          resolved_at = none;
          resolution = none;
        })
        db.ingest_gaps;
}

abbrev pub is_open : GapRow → Bool
is_open g = not (is_some g.resolved_at)

unfoldable pub resolve_gap : Database → ℕ → ℕ → String → Database
resolve_gap db height resolved_at resolution = record db {
  ingest_gaps =
      update_where (λ g. (g.height == height) && is_open g)
        (λ g. record g { resolved_at = some resolved_at; resolution = some resolution })
        db.ingest_gaps;
}

-- `ORDER BY height`
unfoldable pub open_gap_heights : Database → ℕ → List ℕ
open_gap_heights db min_height = sort_heights (
    map (λ (g : GapRow). g.height)
      (retain (λ g. is_open g && leb min_height g.height) db.ingest_gaps))

-- A canonical archive block with a body at a height.
abbrev pub has_canonical_body : Database → ℕ → Bool
has_canonical_body db height =
    any
      (λ (b : BlockRow).
        (b.height == height) && b.body_captured && is_archived b && canonical_block_filter db b.id)
      db.blocks

unfoldable pub resolve_gaps_with_bodies : Database → ℕ → Database
resolve_gaps_with_bodies db now = record db {
  ingest_gaps =
      update_where (λ g. is_open g && has_canonical_body db g.height)
        (λ g. record g { resolved_at = some now; resolution = some "body on record" })
        db.ingest_gaps;
}

abbrev pub has_key : String → String × StateValue → Bool
has_key key e = str_eq e.0 key

unfoldable pub get_state : Database → String → Option StateValue
get_state db key =
    Option.map (λ (e : String × StateValue). e.1) (find (has_key key) db.indexer_state)

abbrev put : String → StateValue → List (String × StateValue) → List (String × StateValue)
put key value [] = (key, value) ∷ []
put key value (e ∷ es) = if has_key key e then (e.0, value) ∷ es else e ∷ put key value es

unfoldable pub set_state : Database → String → StateValue → Database
set_state db key value = record db { indexer_state = put key value db.indexer_state }
