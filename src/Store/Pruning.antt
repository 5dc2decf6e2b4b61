-- ===== src/Store/Pruning.antt =====
-- core/src/db.rs, `prune_older_than`: what is pruned, and what stays.
use gb_parano1d_permanode.Prelude.{
  ℕ, ◌≡◌, refl, sym, ◌∙◌, Bool, true, false, List, [], ◌∷◌, map, ◌==◌, any, retain, if◌then◌else◌,
  arith, Bool-cases, inl, inr,
}
use gb_parano1d_permanode.Store.Rows.{BlockRow, Database, update_where}
use gb_parano1d_permanode.Store.Blocks.{has_id}
use gb_parano1d_permanode.Store.Bodies.{prune_block, prune_each, is_prunable}
use gb_parano1d_permanode.Store.Frame.{
  SameIndex, SameIndex-refl, SameIndex-trans, keys-update_where,
}

pub prune_block-SameIndex : (db : Database) (id : ℕ) → SameIndex db (prune_block db id)
unfolding prune_block
prune_block-SameIndex db id = record {
  same_keys = keys-update_where (has_id id) _ db.blocks (λ b. refl);
  same_log = refl;
}

pub prune_each-SameIndex : (db : Database) (ids : List ℕ) → SameIndex db (prune_each db ids)
unfolding prune_each
prune_each-SameIndex db [] = SameIndex-refl db
prune_each-SameIndex db (id ∷ ids) =
    SameIndex-trans db (prune_block db id) _ (prune_block-SameIndex db id)
      (prune_each-SameIndex (prune_block db id) ids)

abbrev pub is_one_of : List ℕ → ℕ → Bool
is_one_of ids id = any (λ (i : ℕ). id == i) ids

module _ (cutoff : ℕ) where
  -- The rows that are still to be pruned are among the ids.
  abbrev IsListed : List ℕ → List BlockRow → Type 0
  IsListed ids [] = Unit {0}
  IsListed ids (b ∷ rows) =
      (is_prunable cutoff b ≡ true → is_one_of ids b.id ≡ true) × IsListed ids rows

  IsListed-cons :
      (id : ℕ) (listed : List ℕ) (rows : List BlockRow)
      → IsListed listed rows
      → IsListed (id ∷ listed) rows
  IsListed-cons id listed [] h = tt
  IsListed-cons id listed (b ∷ rows) (head, h) =
      (λ due. ground (arith, head due), IsListed-cons id listed rows h)

  abbrev ids_of_rows : List BlockRow → List ℕ
  ids_of_rows rows = map (λ (b : BlockRow). b.id) rows

  IsListed-step :
      (test : Bool) (b : BlockRow) (kept rows : List BlockRow)
      → is_prunable cutoff b ≡ test
      → IsListed (ids_of_rows kept) rows
      → IsListed (ids_of_rows (if test then b ∷ kept else kept)) (b ∷ rows)
  IsListed-step true b kept rows e h =
      let self : (b.id == b.id) ≡ true = ground arith in
      (λ due. rw self refl, IsListed-cons b.id (ids_of_rows kept) rows h)
  IsListed-step false b kept rows e h = (λ due. let no : false ≡ true = sym e ∙ due in cc, h)

  pub IsListed-ids :
      (rows : List BlockRow) → IsListed (ids_of_rows (retain (is_prunable cutoff) rows)) rows
  IsListed-ids [] = tt
  IsListed-ids (b ∷ rows) =
      IsListed-step (is_prunable cutoff b) b (retain (is_prunable cutoff) rows) rows refl
        (IsListed-ids rows)

  IsListed-cleared :
      (id : ℕ) (listed : List ℕ) (rows : List BlockRow)
      → IsListed (id ∷ listed) rows
      → IsListed listed
          (update_where (has_id id) (λ (b : BlockRow). record b { body_captured = false }) rows)
  IsListed-cleared id listed [] h = tt
  IsListed-cleared id listed (b ∷ rows) (head, h) = elim (Bool-cases (b.id == id)) [
    | inl hit ↦ rw hit (λ due. ground (arith, due), IsListed-cleared id listed rows h)
    | inr miss ↦ rw miss (λ due. rw miss at (head due), IsListed-cleared id listed rows h)
  ]

  none-listed : (rows : List BlockRow) → IsListed [] rows → any (is_prunable cutoff) rows ≡ false
  none-listed [] h = refl
  none-listed (b ∷ rows) (head, h) = elim (Bool-cases (is_prunable cutoff b)) [
    | inl due ↦ let no : false ≡ true = head due in cc
    | inr kept ↦ rw kept (none-listed rows h)
  ]

  pub prune_each-none :
      (db : Database) (ids : List ℕ)
      → IsListed ids db.blocks
      → any (is_prunable cutoff) (prune_each db ids).blocks ≡ false
  unfolding prune_each prune_block
  prune_each-none db [] h = none-listed db.blocks h
  prune_each-none db (id ∷ ids) h =
      prune_each-none (prune_block db id) ids (IsListed-cleared id ids db.blocks h)
