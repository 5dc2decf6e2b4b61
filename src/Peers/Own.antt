-- ===== src/Peers/Own.antt =====
-- permanode/src/import.rs, `fill_seen_from_peers` and `fill_proof_from_peers`: what a permanode has noted
-- itself.
use gb_parano1d_permanode.Prelude.{
  ℕ, ◌≡◌, ◌⊎◌, refl, ◌∙◌, Bool, true, false, not, ◌&&◌, Option, none, some, String, List, [], ◌∷◌,
  is_some, Bool-cases, Option-cases, List-cases, inl, inr,
}
use gb_parano1d_permanode.Store.Rows.{BlockRow, Database}
use gb_parano1d_permanode.Store.Blocks.{block_by_id, has_id}
use gb_parano1d_permanode.Store.Frame.{find-update_where}
use gb_parano1d_permanode.Store.Sightings.{
  is_unseen, adopt_tip_seen, lacks_class, lacks_class_of, names_no_class, adopt_proof_class,
  blocks_missing_seen, blocks_missing_proof_class,
}
use gb_parano1d_permanode.Peers.Sightings.{
  Rows, rows, no_answer, unreadable, SightingPeers, adopt_seen, adopt_classes, first_and_last,
  fill_seen_loop, fill_seen_from_peers, fill_proof_loop, fill_proof_from_peers,
}

pub Rows-cases :
    {R : Type 0} (r : Rows R)
    → (r ≡ no_answer) ⊎ ((r ≡ unreadable) ⊎ ((answer : List R) × (r ≡ rows answer)))
Rows-cases no_answer = inl refl
Rows-cases unreadable = inr (inl refl)
Rows-cases (rows answer) = inr (inr (answer, refl))

and_not : (x : Bool) (o : Option ℕ) (t : ℕ) → o ≡ some t → (x && not (is_some o)) ≡ false
and_not true (some s) t e = refl
and_not false (some s) t e = refl
and_not x none t e = cc

and_false : (x y : Bool) → y ≡ false → (x && y) ≡ false
and_false true y e = e
and_false false y e = refl

module _ (id : ℕ) (b : BlockRow) where
  -- The row is the one with its id.
  abbrev Holds : Database → Type 0
  Holds db = block_by_id db id ≡ some b

  module _ (t : ℕ) (seen : b.tip_seen_at_ms ≡ some t) where
    seen_here : (height : ℕ) (hash : String) → is_unseen height hash b ≡ false
    seen_here height hash = and_not _ b.tip_seen_at_ms t seen

    adopt_tip_seen-Holds :
        (db : Database) (height : ℕ) (hash : String) (at_ms : ℕ)
        → Holds db
        → Holds (adopt_tip_seen db height hash at_ms).0
    unfolding block_by_id adopt_tip_seen
    adopt_tip_seen-Holds db height hash at_ms held =
        let view =
          find-update_where (has_id id) (is_unseen height hash)
            (λ b. record b { tip_seen_at_ms = some at_ms }) db.blocks (λ b. refl) in
        let miss = seen_here height hash in view ∙ rw held (rw miss refl)

    adopt_seen-Holds :
        (db : Database) (answer : List (ℕ × String × ℕ)) (n : ℕ)
        → Holds db
        → Holds (adopt_seen db answer n).0
    unfolding adopt_seen
    adopt_seen-Holds db [] n held = held
    adopt_seen-Holds db ((height, hash, at_ms) ∷ rest) n held =
        adopt_seen-Holds (adopt_tip_seen db height hash at_ms).0 rest _
          (adopt_tip_seen-Holds db height hash at_ms held)

    fill_seen_loop-Holds :
        (net : SightingPeers) (tip : ℕ) (db : Database) (peers : List String) (n : ℕ)
        → Holds db
        → Holds (fill_seen_loop net tip db peers n).db
    unfolding fill_seen_loop
    fill_seen_loop-Holds net tip db [] n held = held
    fill_seen_loop-Holds net tip db (peer ∷ peers) n held =
        let skip = fill_seen_loop-Holds net tip db peers n held in
        elim (Option-cases (net.seen_from peer)) [
          | inl silent ↦ rw (fill_seen_loop, silent) skip
          | inr (from, start) ↦
              elim (Option-cases (first_and_last (blocks_missing_seen db from tip 2_000))) [
                | inl nothing ↦ rw (fill_seen_loop, start, nothing) skip
                | inr ((lo, hi), range) ↦ elim (Rows-cases (net.seen peer lo hi)) [
                  | inl e ↦ rw (fill_seen_loop, start, range, e) skip
                  | inr (inl e) ↦ rw (fill_seen_loop, start, range, e) held
                  | inr (inr (answer, e)) ↦
                      rw (fill_seen_loop, start, range, e)
                        (fill_seen_loop-Holds net tip (adopt_seen db answer n).0 peers _
                          (adopt_seen-Holds db answer n held))
                ]
              ]
        ]

  module _ (known : lacks_class b ≡ false) where
    adopt_proof_class-Holds :
        (db : Database) (height : ℕ) (hash class : String)
        → Holds db
        → Holds (adopt_proof_class db height hash class).0
    unfolding block_by_id adopt_proof_class
    adopt_proof_class-Holds db height hash class held = elim (Bool-cases (names_no_class class)) [
      | inl nothing ↦ rw (adopt_proof_class, nothing) held
      | inr named ↦
          let view =
            find-update_where (has_id id) (lacks_class_of height hash)
              (λ b. record b { proof_class = some class }) db.blocks (λ b. refl) in
          let miss : lacks_class_of height hash b ≡ false = and_false _ (lacks_class b) known in
          rw (adopt_proof_class, named) (view ∙ rw held (rw miss refl))
    ]

    adopt_classes-Holds :
        (db : Database) (answer : List (ℕ × String × String)) (n : ℕ)
        → Holds db
        → Holds (adopt_classes db answer n).0
    unfolding adopt_classes
    adopt_classes-Holds db [] n held = held
    adopt_classes-Holds db ((height, hash, class) ∷ rest) n held =
        adopt_classes-Holds (adopt_proof_class db height hash class).0 rest _
          (adopt_proof_class-Holds db height hash class held)

    fill_proof_loop-Holds :
        (net : SightingPeers) (from : ℕ) (db : Database) (peers : List String) (n : ℕ)
        → Holds db
        → Holds (fill_proof_loop net from db peers n).db
    unfolding fill_proof_loop
    fill_proof_loop-Holds net from db [] n held = held
    fill_proof_loop-Holds net from db (peer ∷ peers) n held =
        elim (List-cases (blocks_missing_proof_class db from 200)) [
          | inl nothing ↦ rw (fill_proof_loop, nothing) held
          | inr (height, heights, missing) ↦ elim (Rows-cases (net.proof peer (height ∷ heights))) [
            | inl e ↦
                rw (fill_proof_loop, missing, e) (fill_proof_loop-Holds net from db peers n held)
            | inr (inl e) ↦ rw (fill_proof_loop, missing, e) held
            | inr (inr (answer, e)) ↦
                rw (fill_proof_loop, missing, e)
                  (fill_proof_loop-Holds net from (adopt_classes db answer n).0 peers _
                    (adopt_classes-Holds db answer n held))
          ]
        ]

-- Whatever the peers answer, a block that was seen here keeps its row: its arrival time is not
-- replaced by a peer's.
pub fill_seen_from_peers-keeps_own :
    (net : SightingPeers) (db : Database) (peers : List String) (id : ℕ) (b : BlockRow) (t : ℕ)
    → b.tip_seen_at_ms ≡ some t
    → block_by_id db id ≡ some b
    → block_by_id (fill_seen_from_peers net db peers).db id ≡ some b
unfolding fill_seen_from_peers
fill_seen_from_peers-keeps_own net db peers id b t seen held =
    fill_seen_loop-Holds id b t seen net _ db peers 0 held

-- Whatever the peers answer, a block with no proof class on record, or with one that the own node
-- gave, keeps its row.
pub fill_proof_from_peers-keeps_own :
    (net : SightingPeers) (db : Database) (peers : List String) (from id : ℕ) (b : BlockRow)
    → lacks_class b ≡ false
    → block_by_id db id ≡ some b
    → block_by_id (fill_proof_from_peers net db peers from).db id ≡ some b
unfolding fill_proof_from_peers
fill_proof_from_peers-keeps_own net db peers from id b known held =
    fill_proof_loop-Holds id b known net from db peers 0 held
