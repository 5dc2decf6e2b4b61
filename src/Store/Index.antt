-- ===== src/Store/Index.antt =====
-- The part of the database that says which block is canonical at a height: the keys of the block
-- rows and the status log (core/src/db.rs, `canonical_hash_at`).
use gb_parano1d_permanode.Prelude.{
  ℕ, ◌≡◌, refl, ap, ◌∙◌, Bool, ◌&&◌, Option, none, some, String, List, [], ◌∷◌, map, arith, ◌==◌,
  find, is_some, Option-cases, inl, inr,
}
use mathlib.Core.Option
use gb_parano1d_permanode.Store.Rows.{BlockRow, StatusRow, Database}
use gb_parano1d_permanode.Store.Blocks.{
  latest_observed, is_canonical_status, is_current_canonical, canonical_hash_at, has_id,
}

pub record Key : Type 0 where
  pub key_id : ℕ
  pub key_height : ℕ
  pub key_hash : String

abbrev pub key_of : BlockRow → Key
key_of b = record { key_id = b.id; key_height = b.height; key_hash = b.hash }

abbrev pub keys : Database → List Key
keys db = map key_of db.blocks

abbrev pub log : Database → List StatusRow
log db = db.block_status_log

abbrev pub find_key : ℕ → List Key → Option Key
find_key id ks = find (λ (k : Key). k.key_id == id) ks

abbrev pub is_at : List Key → ℕ → ℕ → Bool
is_at ks height id = is_some (find (λ (k : Key). (k.key_id == id) && (k.key_height == height)) ks)

abbrev pub current : List Key → List StatusRow → ℕ → StatusRow → Bool
current ks l height s =
    is_canonical_status s.status
    && (s.observed_at == latest_observed l s.block_id)
    && is_at ks height s.block_id

abbrev pub answer : List Key → Option StatusRow → Option (ℕ × String)
answer ks none = none
answer ks (some s) =
    Option.map {B = ℕ × String} (λ (k : Key). (s.block_id, k.key_hash)) (find_key s.block_id ks)

-- The canonical block at a height, from the keys and the log alone.
abbrev pub canonical_of : List Key → List StatusRow → ℕ → Option (ℕ × String)
canonical_of ks l height = answer ks (find (current ks l height) l)

find-is_some-map :
    (rows : List BlockRow) (height id : ℕ)
    → is_some (find (λ b. has_id id b && (b.height == height)) rows)
      ≡ is_at (map key_of rows) height id
find-is_some-map [] height id = refl
find-is_some-map (b ∷ rows) height id = ground (arith, find-is_some-map rows height id)

hash-map :
    (rows : List BlockRow) (id : ℕ)
    → Option.map {B = ℕ × String} (λ (b : BlockRow). (id, b.hash)) (find (has_id id) rows)
      ≡ Option.map {B = ℕ × String} (λ (k : Key). (id, k.key_hash)) (find_key id (map key_of rows))
hash-map [] id = refl
hash-map (b ∷ rows) id = ground (arith, hash-map rows id)

pub find-congr {ℓ} :
    {A : Type ℓ} (p q : A → Bool) (xs : List A) → ((x : A) → p x ≡ q x) → find p xs ≡ find q xs
find-congr p q [] e = refl
find-congr p q (x ∷ xs) e = ground (arith, e x, find-congr p q xs e)

pub canonical_hash_at-index :
    (db : Database) (height : ℕ)
    → canonical_hash_at db height ≡ canonical_of (keys db) (log db) height
unfolding canonical_hash_at
canonical_hash_at-index db height =
    let same =
      find-congr (is_current_canonical db height) (current (keys db) (log db) height) (log db) (λ s.
        ap
          (λ (b : Bool).
            is_canonical_status s.status
            && (s.observed_at == latest_observed (log db) s.block_id)
            && b)
          (find-is_some-map db.blocks height s.block_id)) in
    elim (Option-cases (find (current (keys db) (log db) height) (log db))) [
      | inl none_found ↦ rw (same ∙ none_found, none_found, canonical_hash_at) refl
      | inr (s, found) ↦ rw (same ∙ found, found, canonical_hash_at) (hash-map db.blocks s.block_id)
    ]
