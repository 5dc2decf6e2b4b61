-- ===== src/Store/Sightings.antt =====
-- core/src/db.rs: when a block was seen at the tip and which proof class it has, noted here or taken
-- over from another permanode.
use gb_parano1d_permanode.Prelude.{
  ℕ, max, Bool, true, false, not, ◌&&◌, Option, none, some, String, List, [], ◌∷◌, ◌++◌, ◌==◌, leb,
  any, map, retain, take, is_some, order_by, if◌then◌else◌, codes,
}
use gb_parano1d_permanode.Prelude.Words.{prefix_of}
use gb_parano1d_permanode.Store.Rows.{BlockRow, Database, update_where}
use gb_parano1d_permanode.Store.Blocks.{is_block, is_archived}
use gb_parano1d_permanode.Store.Bodies.{is_unavailable}

-- `COALESCE(tip_seen_at_ms, ?3)`
abbrev pub coalesce : Option ℕ → ℕ → Option ℕ
coalesce none t = some t
coalesce (some s) t = some s

-- The database afterwards, and whether a row changed.
unfoldable pub set_tip_seen : Database → ℕ → String → ℕ → Database × Bool
set_tip_seen db height hash at_ms = (
  record db {
    blocks =
        update_where (is_block height hash)
          (λ b. record b { tip_seen_at_ms = coalesce b.tip_seen_at_ms at_ms }) db.blocks;
  },
  any (is_block height hash) db.blocks,
)

abbrev pub is_unseen : ℕ → String → BlockRow → Bool
is_unseen height hash b = is_block height hash b && not (is_some b.tip_seen_at_ms)

unfoldable pub adopt_tip_seen : Database → ℕ → String → ℕ → Database × Bool
adopt_tip_seen db height hash at_ms = (
  record db {
    blocks =
        update_where (is_unseen height hash) (λ b. record b { tip_seen_at_ms = some at_ms })
          db.blocks;
  },
  any (is_unseen height hash) db.blocks,
)

-- `MAX(height)`, 0 without blocks.
unfoldable pub seen_fill_tip : Database → ℕ
seen_fill_tip db = greatest db.blocks
  where
    greatest : List BlockRow → ℕ
    greatest [] = 0
    greatest (b ∷ bs) = max b.height (greatest bs)

unfoldable pub blocks_missing_seen : Database → ℕ → ℕ → ℕ → List (ℕ × String)
blocks_missing_seen db from to limit =
    let missing = λ (b : BlockRow).
      leb from b.height && leb b.height to && not (is_some b.tip_seen_at_ms) && is_archived b in
    take
      (map (λ (b : BlockRow). (b.height, b.hash))
        (order_by (λ (b : BlockRow). b.height) (retain missing db.blocks)))
      limit

-- `proof_class LIKE '%unavailable%'`, not true for NULL.
abbrev pub lacks_class : BlockRow → Bool
lacks_class b = elim b.proof_class [ none ↦ false | some class ↦ is_unavailable class ]

-- The heights from the greatest down, each once.
abbrev insert_down : ℕ → List ℕ → List ℕ
insert_down x [] = x ∷ []
insert_down x (y ∷ ys) =
    let rest = insert_down x ys in
    if x == y then y ∷ ys else if leb y x then x ∷ y ∷ ys else y ∷ rest

abbrev down_distinct : List ℕ → List ℕ
down_distinct [] = []
down_distinct (x ∷ xs) = insert_down x (down_distinct xs)

unfoldable pub blocks_missing_proof_class : Database → ℕ → ℕ → List ℕ
blocks_missing_proof_class db from limit =
    take
      (down_distinct (
        map (λ (b : BlockRow). b.height)
          (retain (λ b. leb from b.height && lacks_class b) db.blocks)))
      limit

-- `class.contains("unavailable")`
abbrev contains : List ℕ → List ℕ → Bool
contains [] t = prefix_of t []
contains (c ∷ s) t = if prefix_of t (c ∷ s) then true else contains s t

abbrev pub names_no_class : String → Bool
names_no_class class = contains (codes class) (codes "unavailable")

abbrev pub lacks_class_of : ℕ → String → BlockRow → Bool
lacks_class_of height hash b = is_block height hash b && lacks_class b

unfoldable pub adopt_proof_class : Database → ℕ → String → String → Database × Bool
adopt_proof_class db height hash class = if names_no_class class then (db, false) else (
  record db {
    blocks =
        update_where (lacks_class_of height hash) (λ b. record b { proof_class = some class })
          db.blocks;
  },
  any (lacks_class_of height hash) db.blocks,
)

-- `proof_classes_at`: the known classes of the blocks at some heights.
unfoldable pub proof_classes_at : Database → List ℕ → List (ℕ × String × String)
proof_classes_at db [] = []
proof_classes_at db (h ∷ heights) = known db.blocks ++ proof_classes_at db heights
  where
    known : List BlockRow → List (ℕ × String × String)
    known [] = []
    known (b ∷ bs) =
        let rest = known bs in
        if b.height == h
        then elim b.proof_class [
          | none ↦ rest
          | some class ↦ if is_unavailable class then rest else (b.height, b.hash, class) ∷ rest
        ]
        else rest

-- `seen_from` and `seen_in_range`: the arrival times noted here.
unfoldable pub seen_in_range : Database → ℕ → ℕ → ℕ → List (ℕ × String × ℕ)
seen_in_range db from to limit =
    take (order_by (λ (r : ℕ × String × ℕ). r.0) (seen db.blocks)) limit
  where
    seen : List BlockRow → List (ℕ × String × ℕ)
    seen [] = []
    seen (b ∷ bs) =
        let rest = seen bs in
        elim b.tip_seen_at_ms [
          | none ↦ rest
          | some t ↦
              if leb from b.height && leb b.height to then (b.height, b.hash, t) ∷ rest else rest
        ]
