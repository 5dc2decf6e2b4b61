-- ===== src/Store/Orphans.antt =====
-- core/src/db.rs, `mark_orphaned`: the canonical blocks before and after.
use gb_parano1d_permanode.Prelude.{
  ℕ, suc, ◌<◌, ◌≡◌, sym, subst, ◌∙◌, Bool, true, false, none, some, String, List, [], ◌∷◌, arith,
  ◌==◌, ltb, find, Bool-cases, Option-cases, inl, inr,
}
use native.Mathlib.Nat.{le_refl}
use gb_parano1d_permanode.Store.Rows.{orphaned, StatusRow, Database}
use gb_parano1d_permanode.Store.Blocks.{latest_observed, canonical_hash_at, mark_orphaned}
use gb_parano1d_permanode.Store.Index.{
  Key, keys, log, find_key, is_at, current, canonical_of, canonical_hash_at-index,
}
use gb_parano1d_permanode.Store.Canonical.{canonical_of-elsewhere}
use gb_parano1d_permanode.Store.Headers.{
  IsSound, IsNumbered, next_key, IsLogged-latest, IsLogged-weaken, is_at-key, none-above,
}

find-holds {ℓ} : {A : Type ℓ} (p : A → Bool) (xs : List A) (x : A) → find p xs ≡ some x → p x ≡ true
find-holds p [] x e = cc
find-holds p (y ∷ ys) x e = elim (Bool-cases (p y)) [
  | inl hit ↦
      let e' : some y ≡ some x = rw hit at e in
      let same : y ≡ x = cc in subst (λ z. p z ≡ true) same hit
  | inr miss ↦ find-holds p ys x (rw miss at e)
]

find_key-below : (ks : List Key) (id : ℕ) (k : Key) → find_key id ks ≡ some k → id < next_key ks
find_key-below ks id k e = elim (Bool-cases (ltb id (next_key ks))) [
  | inl below ↦ ground arith
  | inr above ↦ let e' : none ≡ some k = sym (none-above ks id (ground arith)) ∙ e in cc
]

-- The block that is canonical at a height has its row there.
pub canonical_of-key :
    (ks : List Key) (l : List StatusRow) (height id : ℕ) (hash : String)
    → IsNumbered ks
    → canonical_of ks l height ≡ some (id, hash)
    → (k : Key) × (find_key id ks ≡ some k) × (k.key_height ≡ height) × (k.key_hash ≡ hash)
canonical_of-key ks l height id hash num e = elim (Option-cases (find (current ks l height) l)) [
  | inl absent ↦ let e' : none ≡ some (id, hash) = rw absent at e in cc
  | inr (s, found) ↦ elim (Option-cases (find_key s.block_id ks)) [
    | inl absent ↦ let e' : none ≡ some (id, hash) = rw (found, absent) at e in cc
    | inr (k, key) ↦
        let e' : some (s.block_id, k.key_hash) ≡ some (id, hash) = rw (found, key) at e in
        let id_eq : s.block_id ≡ id = cc in
        let hash_eq : k.key_hash ≡ hash = cc in
        let holds = find-holds (current ks l height) l s found in
        let at : is_at ks height s.block_id ≡ true = ground (arith, holds) in
        let height_eq = is_at-key ks s.block_id height k num key in
        (
          k,
          subst (λ (i : ℕ). find_key i ks ≡ some k) id_eq key,
          ground (arith, at, height_eq),
          hash_eq,
        )
  ]
]

module _ (db : Database) (height now old : ℕ) (known : String) (pos : 0 < now)
    (sound : IsSound (keys db) (log db) now)
    (current_block : canonical_hash_at db height ≡ some (old, known)) where
  old-key :
      (k : Key) × (find_key old (keys db) ≡ some k) × (k.key_height ≡ height) × (k.key_hash ≡ known)
  old-key =
      canonical_of-key (keys db) (log db) height old known sound.numbered
        (sym (canonical_hash_at-index db height) ∙ current_block)

  later : latest_observed (log db) old < now
  later = IsLogged-latest (next_key (keys db)) now old (log db) pos sound.logged

  pub mark_orphaned-IsSound :
      IsSound (keys (mark_orphaned db old now)) (log (mark_orphaned db old now)) (suc now)
  unfolding mark_orphaned
  mark_orphaned-IsSound =
      let (k, key, at, own) = old-key in
      record {
        numbered = sound.numbered;
        timed = (later, sound.timed);
        logged = (
          find_key-below (keys db) old k key,
          omega arith,
          IsLogged-weaken (next_key (keys db)) now _ _ (log db) (le_refl _) (omega arith)
              sound.logged,
        );
      }

  -- Every other height keeps its canonical block.
  pub mark_orphaned-elsewhere :
      (other : ℕ)
      → (other == height) ≡ false
      → canonical_hash_at (mark_orphaned db old now) other ≡ canonical_hash_at db other
  unfolding mark_orphaned
  mark_orphaned-elsewhere other differs =
      let (k, key, at, own) = old-key in
      let s : StatusRow = record { block_id = old; status = orphaned; observed_at = now } in
      let off : is_at (keys db) other old ≡ false =
        is_at-key (keys db) old other k sound.numbered key ∙ ground arith in
      canonical_hash_at-index (mark_orphaned db old now) other
      ∙ canonical_of-elsewhere (keys db) s (log db) other later off
      ∙ sym (canonical_hash_at-index db other)
