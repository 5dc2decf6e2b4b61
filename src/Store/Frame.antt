-- ===== src/Store/Frame.antt =====
-- core/src/db.rs and permanode/src/indexer.rs: the writes that are not about the keys of the block
-- rows or the status log, compared before and after.
use gb_parano1d_permanode.Prelude.{
  ℕ, ◌≡◌, refl, ap, ap₂, ◌∙◌, sym, Bool, Option, String, List, [], ◌∷◌, map, none, some, find,
  if◌then◌else◌, Bool-cases, Option-cases, inl, inr, arith,
}
use gb_parano1d_permanode.Store.Rows.{BlockRow, StatusRow, Database, StateValue, update_where}
use gb_parano1d_permanode.Store.Blocks.{canonical_hash_at, mark_body_recovered, has_id, block_id}
use gb_parano1d_permanode.Store.Gaps.{record_gap, resolve_gap, set_state}
use gb_parano1d_permanode.Store.Bodies.{
  BlockTransactionInfo, RetainedBlockInfo, insert_transaction, insert_each, insert_transactions,
  set_totals, set_contract_flags,
}
use gb_parano1d_permanode.Store.Index.{
  Key, key_of, keys, log, canonical_of, canonical_hash_at-index,
}
use gb_parano1d_permanode.Store.Headers.{IsSound}

pub record SameIndex (db db' : Database) : Type 0 where
  pub same_keys : keys db' ≡ keys db
  pub same_log : log db' ≡ log db

pub SameIndex-refl : (db : Database) → SameIndex db db
SameIndex-refl db = record { same_keys = refl; same_log = refl }

pub SameIndex-trans : (a b c : Database) → SameIndex a b → SameIndex b c → SameIndex a c
SameIndex-trans a b c p q = record {
  same_keys = q.same_keys ∙ p.same_keys;
  same_log = q.same_log ∙ p.same_log;
}

-- Every height keeps its canonical block.
pub canonical_hash_at-SameIndex :
    (db db' : Database) (height : ℕ)
    → SameIndex db db'
    → canonical_hash_at db' height ≡ canonical_hash_at db height
canonical_hash_at-SameIndex db db' height same =
    canonical_hash_at-index db' height
    ∙ ap₂ (λ (ks : List Key) (l : List StatusRow). canonical_of ks l height) same.same_keys
        same.same_log
    ∙ sym (canonical_hash_at-index db height)

pub IsSound-SameIndex :
    (db db' : Database) (now : ℕ)
    → SameIndex db db'
    → IsSound (keys db) (log db) now
    → IsSound (keys db') (log db') now
IsSound-SameIndex db db' now same h = rw (same.same_keys, same.same_log) h

pub keys-update_where :
    (p : BlockRow → Bool) (f : BlockRow → BlockRow) (rows : List BlockRow)
    → ((b : BlockRow) → key_of (f b) ≡ key_of b)
    → map key_of (update_where p f rows) ≡ map key_of rows
keys-update_where p f [] e = refl
keys-update_where p f (b ∷ rows) e = elim (Bool-cases (p b)) [
  | inl hit ↦ rw hit (ap₂ ◌∷◌ (e b) (keys-update_where p f rows e))
  | inr miss ↦ rw miss (ap (λ (ks : List Key). key_of b ∷ ks) (keys-update_where p f rows e))
]

pub mark_body_recovered-SameIndex :
    (db : Database) (id : ℕ) (source : String) → SameIndex db (mark_body_recovered db id source)
unfolding mark_body_recovered
mark_body_recovered-SameIndex db id source = record {
  same_keys = keys-update_where (has_id id) _ db.blocks (λ b. refl);
  same_log = refl;
}

pub resolve_gap-SameIndex :
    (db : Database) (height at : ℕ) (note : String) → SameIndex db (resolve_gap db height at note)
unfolding resolve_gap
resolve_gap-SameIndex db height at note = record { same_keys = refl; same_log = refl }

pub record_gap-SameIndex :
    (db : Database) (height : ℕ) (hash : Option String) (now : ℕ) (note : String)
    → SameIndex db (record_gap db height hash now note)
unfolding record_gap
record_gap-SameIndex db height hash now note = record { same_keys = refl; same_log = refl }

pub set_state-SameIndex :
    (db : Database) (key : String) (value : StateValue) → SameIndex db (set_state db key value)
unfolding set_state
set_state-SameIndex db key value = record { same_keys = refl; same_log = refl }

insert_transaction-SameIndex :
    (block : ℕ) (db : Database) (tx : BlockTransactionInfo)
    → SameIndex db (insert_transaction block db tx)
unfolding insert_transaction
insert_transaction-SameIndex block db tx = ground arith

insert_each-SameIndex :
    (block : ℕ) (db : Database) (txs : List BlockTransactionInfo)
    → SameIndex db (insert_each block db txs)
unfolding insert_each
insert_each-SameIndex block db [] = SameIndex-refl db
insert_each-SameIndex block db (tx ∷ txs) =
    SameIndex-trans db (insert_transaction block db tx) _ (insert_transaction-SameIndex block db tx)
      (insert_each-SameIndex block (insert_transaction block db tx) txs)

set_totals-SameIndex :
    (db : Database) (block : ℕ) (retained : RetainedBlockInfo)
    → SameIndex db (set_totals db block retained)
unfolding set_totals
set_totals-SameIndex db block retained = record {
  same_keys = keys-update_where (has_id block) _ db.blocks (λ b. refl);
  same_log = refl;
}

pub insert_transactions-SameIndex :
    (db : Database) (block : ℕ) (retained : RetainedBlockInfo)
    → SameIndex db (insert_transactions db block retained)
unfolding insert_transactions
insert_transactions-SameIndex db block retained =
    SameIndex-trans db (set_totals db block retained) _ (set_totals-SameIndex db block retained)
      (insert_each-SameIndex block (set_totals db block retained) retained.transactions)

pub set_contract_flags-SameIndex :
    (db : Database) (height : ℕ) (hash : String) (flags : List (ℕ × ℕ))
    → SameIndex db (set_contract_flags db height hash flags)
unfolding set_contract_flags
set_contract_flags-SameIndex db height hash flags = elim (Option-cases (block_id db height hash)) [
  | inl unknown ↦ rw (unknown, set_contract_flags) (SameIndex-refl db)
  | inr (id, found) ↦
      rw (found, set_contract_flags)
        (record {
          same_keys = keys-update_where (has_id id) _ db.blocks (λ b. refl);
          same_log = refl;
        })
]

-- The row that a lookup finds after rows that fit another test are changed.
pub find-update_where :
    (p q : BlockRow → Bool) (f : BlockRow → BlockRow) (rows : List BlockRow)
    → ((b : BlockRow) → p (f b) ≡ p b)
    → find p (update_where q f rows)
      ≡ elim (find p rows) [ none ↦ none | some b ↦ some (if q b then f b else b) ]
find-update_where p q f [] keep = refl
find-update_where p q f (r ∷ rows) keep = elim (Bool-cases (q r)) [
  | inl hit ↦ elim (Bool-cases (p r)) [
    | inl found ↦ rw (hit, keep r, found, hit) refl
    | inr other ↦ rw (hit, keep r, other) (find-update_where p q f rows keep)
  ]
  | inr miss ↦ elim (Bool-cases (p r)) [
    | inl found ↦ rw (miss, found, miss) refl
    | inr other ↦ rw (miss, other) (find-update_where p q f rows keep)
  ]
]
