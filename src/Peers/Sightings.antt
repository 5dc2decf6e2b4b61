-- ===== src/Peers/Sightings.antt =====
-- permanode/src/import.rs, `fill_seen_from_peers` and `fill_proof_from_peers`: arrival times and proof
-- classes from other permanodes. Their answers over HTTP are a parameter.
use gb_parano1d_permanode.Prelude.{
  ℕ, ◌+◌, Bool, true, false, Option, none, some, String, List, [], ◌∷◌, if◌then◌else◌,
}
use gb_parano1d_permanode.Store.Rows.{Database}
use gb_parano1d_permanode.Store.Sightings.{
  adopt_tip_seen, adopt_proof_class, seen_fill_tip, blocks_missing_seen, blocks_missing_proof_class,
}

-- What a request comes to: rows, no answer (or another status than 200), or an unreadable one.
pub data Rows (R : Type 0) : Type 0 where
  rows : List R → Rows R
  no_answer unreadable : Rows R

pub record SightingPeers : Type 0 where
  pub seen_from : String → Option ℕ
  pub seen : String → ℕ → ℕ → Rows (ℕ × String × ℕ)
  pub proof : String → List ℕ → Rows (ℕ × String × String)

abbrev pub count_adopted : Database × Bool → ℕ → Database × ℕ
count_adopted (db, adopted) n = (db, if adopted then n + 1 else n)

-- The loops over the rows of an answer.
unfoldable pub adopt_seen : Database → List (ℕ × String × ℕ) → ℕ → Database × ℕ
unfolding adopt_tip_seen
adopt_seen db [] n = (db, n)
adopt_seen db ((height, hash, at_ms) ∷ rest) n =
    let (db', n') = count_adopted (adopt_tip_seen db height hash at_ms) n in adopt_seen db' rest n'

unfoldable pub adopt_classes : Database → List (ℕ × String × String) → ℕ → Database × ℕ
unfolding adopt_proof_class
adopt_classes db [] n = (db, n)
adopt_classes db ((height, hash, class) ∷ rest) n =
    let (db', n') = count_adopted (adopt_proof_class db height hash class) n in
    adopt_classes db' rest n'

-- `missing.first()` and `missing.last()`.
abbrev pub first_and_last : List (ℕ × String) → Option (ℕ × ℕ)
first_and_last [] = none
first_and_last ((height, hash) ∷ rest) = some (height, last height rest)
  where
    last : ℕ → List (ℕ × String) → ℕ
    last h [] = h
    last h ((h', hash') ∷ more) = last h' more

-- How a run ends; `completed` is false where an answer was not readable.
pub record Adopted : Type 0 where
  pub db : Database
  pub adopted : ℕ
  pub completed : Bool

module _ (net : SightingPeers) where
  unfoldable pub fill_seen_loop : ℕ → Database → List String → ℕ → Adopted
  unfolding adopt_seen blocks_missing_seen
  fill_seen_loop tip db [] n = record { db = db; adopted = n; completed = true }
  fill_seen_loop tip db (peer ∷ peers) n =
      let skip = fill_seen_loop tip db peers n in
      elim (net.seen_from peer) [
        | none ↦ skip
        | some from ↦ elim (first_and_last (blocks_missing_seen db from tip 2_000)) [
          | none ↦ skip
          | some (lo, hi) ↦ elim (net.seen peer lo hi) [
            | no_answer ↦ skip
            | unreadable ↦ record { db = db; adopted = n; completed = false }
            | rows answer ↦
                let (db', n') = adopt_seen db answer n in fill_seen_loop tip db' peers n'
          ]
        ]
      ]

  unfoldable pub fill_seen_from_peers : Database → List String → Adopted
  unfolding fill_seen_loop seen_fill_tip
  fill_seen_from_peers db peers = fill_seen_loop (seen_fill_tip db) db peers 0

  abbrev peer_proof_batch : ℕ
  peer_proof_batch = 200

  unfoldable pub fill_proof_loop : ℕ → Database → List String → ℕ → Adopted
  unfolding adopt_classes blocks_missing_proof_class
  fill_proof_loop from db [] n = record { db = db; adopted = n; completed = true }
  fill_proof_loop from db (peer ∷ peers) n =
      let missing = blocks_missing_proof_class db from peer_proof_batch in
      elim missing [
        | [] ↦ record { db = db; adopted = n; completed = true }
        | height ∷ heights ↦ elim (net.proof peer (height ∷ heights)) [
          | no_answer ↦ fill_proof_loop from db peers n
          | unreadable ↦ record { db = db; adopted = n; completed = false }
          | rows answer ↦
              let (db', n') = adopt_classes db answer n in fill_proof_loop from db' peers n'
        ]
      ]

  unfoldable pub fill_proof_from_peers : Database → List String → ℕ → Adopted
  unfolding fill_proof_loop
  fill_proof_from_peers db peers from = fill_proof_loop from db peers 0
