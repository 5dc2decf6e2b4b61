-- ===== src/Store/Pruned.antt =====
-- core/src/db.rs, `prune_older_than`: the deletions of the loop over the blocks, all at once.
use gb_parano1d_permanode.Prelude.{
  ℕ, ◌≡◌, refl, sym, ap, ◌∙◌, Bool, true, false, not, ◌&&◌, List, [], ◌∷◌, map, ◌==◌, any, retain,
  if◌then◌else◌, arith, Bool-cases, inl, inr,
}
use gb_parano1d_permanode.Store.Rows.{
  BlockRow, TransactionRow, PageHashRow, InputRow, OutputRow, RawRow, Database, update_where,
}
use gb_parano1d_permanode.Store.Blocks.{has_id, canonical_hash_at}
use gb_parano1d_permanode.Store.Bodies.{prune_block, prune_each, is_prunable, prune_older_than}
use gb_parano1d_permanode.Store.Frame.{canonical_hash_at-SameIndex}
use gb_parano1d_permanode.Store.Pruning.{
  is_one_of, prune_each-SameIndex, prune_each-none, IsListed-ids,
}

-- A part is of a transaction of one of the blocks.
abbrev pub is_part_of : List TransactionRow → List ℕ → ℕ → Bool
is_part_of rows ids tx = any (λ (t : TransactionRow). (t.id == tx) && is_one_of ids t.block_id) rows

-- The database without the transactions of the blocks, their parts and their raw bytes.
abbrev pub without_bodies : List ℕ → Database → Database
without_bodies ids db = record db {
  tx_page_hashes =
      retain (λ (r : PageHashRow). not (is_part_of db.transactions ids r.tx_id)) db.tx_page_hashes;
  tx_inputs = retain (λ (r : InputRow). not (is_part_of db.transactions ids r.tx_id)) db.tx_inputs;
  tx_outputs =
      retain (λ (r : OutputRow). not (is_part_of db.transactions ids r.tx_id)) db.tx_outputs;
  transactions = retain (λ (t : TransactionRow). not (is_one_of ids t.block_id)) db.transactions;
  raw_blocks = retain (λ (r : RawRow). not (is_one_of ids r.block_id)) db.raw_blocks;
  blocks =
      map (λ (b : BlockRow). if is_one_of ids b.id then record b { body_captured = false } else b)
        db.blocks;
}

module _ {ℓ} {A : Type ℓ} where
  retain_all : (p : A → Bool) (xs : List A) → ((x : A) → p x ≡ true) → retain p xs ≡ xs
  retain_all p [] all = refl
  retain_all p (x ∷ xs) all = rw (all x) (ap (λ (ys : List A). x ∷ ys) (retain_all p xs all))

  retain-retain :
      (p q r : A → Bool) (xs : List A)
      → ((x : A) → r x ≡ (p x && q x))
      → retain q (retain p xs) ≡ retain r xs
  retain-retain p q r [] both = refl
  retain-retain p q r (x ∷ xs) both = elim (Bool-cases (p x)) [
    | inr out ↦
        let no : r x ≡ false = both x ∙ rw out refl in rw (out, no) (retain-retain p q r xs both)
    | inl stays ↦ elim (Bool-cases (q x)) [
      | inr out ↦
          let no : r x ≡ false = both x ∙ rw (stays, out) refl in
          rw (stays, out, no) (retain-retain p q r xs both)
      | inl on ↦
          let yes : r x ≡ true = both x ∙ rw (stays, on) refl in
          rw (stays, on, yes) (ap (λ (ys : List A). x ∷ ys) (retain-retain p q r xs both))
    ]
  ]

-- What is left after one block and then the others.
not_one_of-cons :
    (id : ℕ) (ids : List ℕ) (x : ℕ)
    → not (is_one_of (id ∷ ids) x) ≡ (not (x == id) && not (is_one_of ids x))
not_one_of-cons id ids x = ground arith

not_part_of-cons :
    (id : ℕ) (ids : List ℕ) (tx : ℕ) (rows : List TransactionRow)
    → not (is_part_of rows (id ∷ ids) tx) ≡ (
        not (any (λ (t : TransactionRow). (t.id == tx) && (t.block_id == id)) rows)
        && not (is_part_of (retain (λ (t : TransactionRow). not (t.block_id == id)) rows) ids tx))
not_part_of-cons id ids tx [] = refl
not_part_of-cons id ids tx (t ∷ rows) = elim (Bool-cases (t.block_id == id)) [
  | inl here ↦ elim (Bool-cases (t.id == tx)) [
    | inl this ↦ rw (here, this) refl
    | inr other ↦ rw (here, other) (not_part_of-cons id ids tx rows)
  ]
  | inr away ↦ elim (Bool-cases (t.id == tx)) [
    | inr other ↦ rw (away, other) (not_part_of-cons id ids tx rows)
    | inl this ↦ elim (Bool-cases (is_one_of ids t.block_id)) [
      | inl listed ↦ rw (away, this, listed) (ground arith)
      | inr free ↦ rw (away, this, free) (not_part_of-cons id ids tx rows)
    ]
  ]
]

abbrev cleared : List ℕ → BlockRow → BlockRow
cleared ids b = if is_one_of ids b.id then record b { body_captured = false } else b

cleared-cons :
    (id : ℕ) (ids : List ℕ) (rows : List BlockRow)
    → map
        (cleared ids)
        (update_where (has_id id) (λ (b : BlockRow). record b { body_captured = false }) rows)
      ≡ map (cleared (id ∷ ids)) rows
cleared-cons id ids [] = refl
cleared-cons id ids (b ∷ rows) =
    let c : BlockRow = record b { body_captured = false } in
    elim (Bool-cases (b.id == id)) [
      | inl here ↦ elim (Bool-cases (is_one_of ids b.id)) [
        | inl listed ↦
            rw (here, listed) (ap (λ (bs : List BlockRow). c ∷ bs) (cleared-cons id ids rows))
        | inr free ↦
            rw (here, free) (ap (λ (bs : List BlockRow). c ∷ bs) (cleared-cons id ids rows))
      ]
      | inr away ↦ elim (Bool-cases (is_one_of ids b.id)) [
        | inl listed ↦
            rw (away, listed) (ap (λ (bs : List BlockRow). c ∷ bs) (cleared-cons id ids rows))
        | inr free ↦
            rw (away, free) (ap (λ (bs : List BlockRow). b ∷ bs) (cleared-cons id ids rows))
      ]
    ]

cleared-none : (rows : List BlockRow) → map (cleared []) rows ≡ rows
cleared-none [] = refl
cleared-none (b ∷ rows) = ap (λ (bs : List BlockRow). b ∷ bs) (cleared-none rows)

no_parts : (rows : List TransactionRow) (tx : ℕ) → not (is_part_of rows [] tx) ≡ true
no_parts [] tx = refl
no_parts (t ∷ rows) tx = elim (Bool-cases (t.id == tx)) [
  | inl this ↦ rw this (no_parts rows tx)
  | inr other ↦ rw other (no_parts rows tx)
]

abbrev tables :
    Database
    → List PageHashRow
    → List InputRow
    → List OutputRow
    → List TransactionRow
    → List RawRow
    → List BlockRow
    → Database
tables db p i o t r b = record db {
  tx_page_hashes = p;
  tx_inputs = i;
  tx_outputs = o;
  transactions = t;
  raw_blocks = r;
  blocks = b;
}

-- Equal tables make equal databases.
same_tables :
    (db : Database) (p p' : List PageHashRow) (i i' : List InputRow) (o o' : List OutputRow)
    (t t' : List TransactionRow) (r r' : List RawRow) (b b' : List BlockRow)
    → p ≡ p'
    → i ≡ i'
    → o ≡ o'
    → t ≡ t'
    → r ≡ r'
    → b ≡ b'
    → tables db p i o t r b ≡ tables db p' i' o' t' r' b'
same_tables db p p' i i' o o' t t' r r' b b' ep ei eo et er eb = rw (ep, ei, eo, et, er, eb) refl

prune_each-without_bodies :
    (db : Database) (ids : List ℕ) → prune_each db ids ≡ without_bodies ids db
unfolding prune_each prune_block
prune_each-without_bodies db [] = sym (
    same_tables db _ db.tx_page_hashes _ db.tx_inputs _ db.tx_outputs _ db.transactions _
      db.raw_blocks _ db.blocks
      (retain_all _ db.tx_page_hashes (λ r. no_parts db.transactions r.tx_id))
      (retain_all _ db.tx_inputs (λ r. no_parts db.transactions r.tx_id))
      (retain_all _ db.tx_outputs (λ r. no_parts db.transactions r.tx_id))
      (retain_all _ db.transactions (λ t. refl)) (retain_all _ db.raw_blocks (λ r. refl))
      (cleared-none db.blocks))
prune_each-without_bodies db (id ∷ ids) =
    let part = λ (tx : ℕ). not_part_of-cons id ids tx db.transactions in
    prune_each-without_bodies (prune_block db id) ids
    ∙ same_tables db _ _ _ _ _ _ _ _ _ _ _ _
        (retain-retain _ _ _ db.tx_page_hashes (λ r. part r.tx_id))
        (retain-retain _ _ _ db.tx_inputs (λ r. part r.tx_id))
        (retain-retain _ _ _ db.tx_outputs (λ r. part r.tx_id))
        (retain-retain _ _ _ db.transactions (λ t. not_one_of-cons id ids t.block_id))
        (retain-retain _ _ _ db.raw_blocks (λ r. not_one_of-cons id ids r.block_id))
        (cleared-cons id ids db.blocks)

-- A pruning pass takes away the bodies of the blocks of the archive before the cutoff, and nothing
-- else: their transactions with their pages, inputs and outputs and their raw bytes are gone, their
-- rows say so, and all other rows stay. No block is left to prune, and every height keeps its
-- canonical block.
pub prune_older_than_complete :
    (cutoff : ℕ) (db : Database)
    → ((prune_older_than db cutoff).0
        ≡ without_bodies (map (λ b. b.id) (retain (is_prunable cutoff) db.blocks)) db)
      × (any (is_prunable cutoff) (prune_older_than db cutoff).0.blocks ≡ false)
      × ((height : ℕ)
          → canonical_hash_at (prune_older_than db cutoff).0 height ≡ canonical_hash_at db height)
unfolding prune_older_than
prune_older_than_complete cutoff db =
    let ids = map (λ (b : BlockRow). b.id) (retain (is_prunable cutoff) db.blocks) in
    (
      prune_each-without_bodies db ids,
      prune_each-none cutoff db ids (IsListed-ids cutoff db.blocks),
      λ height.
          canonical_hash_at-SameIndex db (prune_each db ids) height (prune_each-SameIndex db ids),
    )
