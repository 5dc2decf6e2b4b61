-- ===== src/Store/Headers.antt =====
-- permanode/src/indexer.rs, `insert_block_header_row`: the canonical blocks before and after.
use gb_parano1d_permanode.Prelude.{
  ℕ, suc, ◌≤◌, ◌<◌, ◌≡◌, refl, ap, subst, ◌∙◌, Bool, true, false, ◌&&◌, Option, none, some, String,
  List, [], ◌∷◌, arith, ◌==◌, if◌then◌else◌, find, any, is_some, Bool-cases, Option-cases, inl, inr,
  ◌⊎◌, map, eq_iff,
}
use native.Mathlib.Nat.{le_refl}
use text.Mathlib.TextPositions.{eq_refl}
use gb_parano1d_permanode.Store.Rows.{canonical, BlockRow, StatusRow, Database, next_id}
use gb_parano1d_permanode.Store.Blocks.{
  BlockHeaderInfo, latest_observed, is_block, same_block, header_row, block_id, canonical_hash_at,
  insert_block_row, insert_block_header_row, log_status,
}
use gb_parano1d_permanode.Store.Index.{
  Key, key_of, keys, log, find_key, is_at, canonical_of, canonical_hash_at-index,
}
use gb_parano1d_permanode.Store.Canonical.{
  IsTimed, NoRow, canonical_of-elsewhere, canonical_of-newest, canonical_of-new_key,
}

abbrev pub next_key : List Key → ℕ
next_key ks = next_id (λ (k : Key). k.key_id) ks

-- Newer rows have greater ids.
abbrev pub IsNumbered : List Key → Type 0
IsNumbered [] = Unit {0}
IsNumbered (k ∷ ks) = (next_key ks ≤ k.key_id) × IsNumbered ks

-- The log is about rows that exist, and about the past.
abbrev pub IsLogged : ℕ → ℕ → List StatusRow → Type 0
IsLogged next now [] = Unit {0}
IsLogged next now (s ∷ l) = (s.block_id < next) × (s.observed_at < now) × IsLogged next now l

-- What the lookups of the canonical block rest on.
pub record IsSound (ks : List Key) (l : List StatusRow) (now : ℕ) : Type 0 where
  pub numbered : IsNumbered ks
  pub timed : IsTimed l
  pub logged : IsLogged (next_key ks) now l

IsLogged-NoRow : (next now : ℕ) (l : List StatusRow) → IsLogged next now l → NoRow next l
IsLogged-NoRow next now [] h = tt
IsLogged-NoRow next now (s ∷ l) h = (ground arith, IsLogged-NoRow next now l h.2)

pub IsLogged-weaken :
    (next now next' now' : ℕ) (l : List StatusRow)
    → next ≤ next'
    → now ≤ now'
    → IsLogged next now l
    → IsLogged next' now' l
IsLogged-weaken next now next' now' [] p q h = tt
IsLogged-weaken next now next' now' (s ∷ l) p q h =
    (omega arith, omega arith, IsLogged-weaken next now next' now' l p q h.2)

pub IsLogged-latest :
    (next now id : ℕ) (l : List StatusRow)
    → 0 < now
    → IsLogged next now l
    → latest_observed l id < now
unfolding latest_observed
IsLogged-latest next now id [] pos h = pos
IsLogged-latest next now id (s ∷ l) pos h = ground (arith, IsLogged-latest next now id l pos h.2)

pub next-key_of :
    (rows : List BlockRow) → next_id (λ (b : BlockRow). b.id) rows ≡ next_key (map key_of rows)
next-key_of [] = refl
next-key_of (b ∷ rows) = rw (next-key_of rows) refl

-- What a lookup says of the row that it finds: the row has its id to itself.
abbrev Found : List Key → (BlockRow → Bool) → BlockRow → Type 0
Found ks p b =
    (b.id < next_key ks)
    × (p b ≡ true)
    × (find_key b.id ks ≡ some (key_of b))
    × (is_at ks b.height b.id ≡ true)

Found-head :
    (r : BlockRow) (ks : List Key) (p : BlockRow → Bool) → p r ≡ true → Found (key_of r ∷ ks) p r
Found-head r ks p hit =
    let id_eq : (r.id == r.id) ≡ true = ground arith in
    let height_eq : (r.height == r.height) ≡ true = ground arith in
    (omega arith, hit, rw id_eq refl, rw (id_eq, height_eq) refl)

Found-cons :
    (k : Key) (ks : List Key) (p : BlockRow → Bool) (b : BlockRow)
    → next_key ks ≤ k.key_id
    → Found ks p b
    → Found (k ∷ ks) p b
Found-cons k ks p b le (below, hit, key, at) =
    let ne : (k.key_id == b.id) ≡ false = ground arith in (omega arith, hit, rw ne key, rw ne at)

-- A row that a lookup finds is the one with its id.
pub find-block :
    (rows : List BlockRow) (p : BlockRow → Bool) (b : BlockRow)
    → IsNumbered (map key_of rows)
    → find p rows ≡ some b
    → Found (map key_of rows) p b
find-block [] p b num e = cc
find-block (r ∷ rows) p b num e = elim (Bool-cases (p r)) [
  | inl hit ↦
      let e' : some r ≡ some b = rw hit at e in
      let same : r ≡ b = cc in
      subst (Found (key_of r ∷ map key_of rows) p) same (Found-head r (map key_of rows) p hit)
  | inr miss ↦
      Found-cons (key_of r) (map key_of rows) p b num.0 (find-block rows p b num.1 (rw miss at e))
]

any-find : (rows : List BlockRow) (p : BlockRow → Bool) → any p rows ≡ is_some (find p rows)
any-find [] p = refl
any-find (r ∷ rows) p = elim (Bool-cases (p r)) [
  | inl hit ↦ rw hit refl
  | inr miss ↦ rw miss (any-find rows p)
]

module _ (db : Database) (h : BlockHeaderInfo) (captured : Bool) (source : Option String)
    (now : ℕ) where
  new_row : BlockRow
  new_row = header_row h captured source now (next_id (λ (b : BlockRow). b.id) db.blocks)

  -- The rows after the insert: those of before, with the block's row among them, or one more.
  insert_block_row-cases :
      ((find (is_block h.height h.hash) db.blocks ≡ none)
        × ((insert_block_row db h captured source now).blocks ≡ new_row ∷ db.blocks))
      ⊎ ((b : BlockRow) × (find (is_block h.height h.hash) db.blocks ≡ some b)
          × ((insert_block_row db h captured source now).blocks ≡ db.blocks))
  unfolding insert_block_row new_row
  insert_block_row-cases = elim (Option-cases (find (is_block h.height h.hash) db.blocks)) [
    | inl fresh ↦
        let unmet : any (same_block new_row) db.blocks ≡ false =
          any-find db.blocks (is_block h.height h.hash) ∙ ap is_some fresh in
        inl (fresh, rw unmet refl)
    | inr (b, old) ↦
        let met : any (same_block new_row) db.blocks ≡ true =
          any-find db.blocks (is_block h.height h.hash) ∙ ap is_some old in
        inr (b, old, rw met refl)
  ]

pub none-above : (ks : List Key) (id : ℕ) → next_key ks ≤ id → find_key id ks ≡ none
none-above [] id le = refl
none-above (k ∷ ks) id le =
    let ne : (k.key_id == id) ≡ false = ground arith in rw ne (none-above ks id (omega arith))

at-above :
    (ks : List Key) (height id : ℕ)
    → next_key ks ≤ id
    → find (λ (k : Key). (k.key_id == id) && (k.key_height == height)) ks ≡ none
at-above [] height id le = refl
at-above (k ∷ ks) height id le =
    let ne : (k.key_id == id) ≡ false = ground arith in rw ne (at-above ks height id (omega arith))

-- A block is at the height of its one row.
pub is_at-key :
    (ks : List Key) (id height : ℕ) (k : Key)
    → IsNumbered ks
    → find_key id ks ≡ some k
    → is_at ks height id ≡ (k.key_height == height)
is_at-key [] id height k num e = cc
is_at-key (j ∷ ks) id height k num e = elim (Bool-cases (j.key_id == id)) [
  | inl hit ↦
      let e' : some j ≡ some k = rw hit at e in
      let same : j ≡ k = cc in
      let above = at-above ks height id (ground arith) in
      subst (λ (x : Key). is_at (j ∷ ks) height id ≡ (x.key_height == height)) same
        (rw (hit, above)
          (elim (Bool-cases (j.key_height == height)) [ inl y ↦ rw y refl | inr n ↦ rw n refl ]))
  | inr miss ↦ rw miss (is_at-key ks id height k num.1 (rw miss at e))
]

-- A new canonical row, seen at every height.
canonical_of-recorded :
    (ks : List Key) (l : List StatusRow) (id now height : ℕ) (k : Key)
    → IsNumbered ks
    → latest_observed l id < now
    → find_key id ks ≡ some k
    → canonical_of ks ((record { block_id = id; status = canonical; observed_at = now }) ∷ l) height
      ≡ (if height == k.key_height then some (id, k.key_hash) else canonical_of ks l height)
canonical_of-recorded ks l id now height k num later e =
    let s : StatusRow = record { block_id = id; status = canonical; observed_at = now } in
    let at = is_at-key ks id height k num e in
    elim (Bool-cases (height == k.key_height)) [
      | inl here ↦
          let at' : is_at ks height id ≡ true = at ∙ ground arith in
          rw here (canonical_of-newest ks s l height later at' refl ∙ rw e refl)
      | inr there ↦
          let at' : is_at ks height id ≡ false = at ∙ ground arith in
          rw there (canonical_of-elsewhere ks s l height later at')
    ]

-- The block `id` is the canonical one at its height, every other height has the block it had in
-- `db`, and the database is sound.
abbrev pub IsRecorded : Database → BlockHeaderInfo → ℕ → ℕ → Database → Type 0
IsRecorded db h now id db' =
    ((height : ℕ)
      → canonical_hash_at db' height
        ≡ (if height == h.height then some (id, h.hash) else canonical_hash_at db height))
    × IsSound (keys db') (log db') (suc now)

module _ (db : Database) (h : BlockHeaderInfo) (now : ℕ) where
  recorded :
      (id : ℕ) (db' : Database) (k : Key)
      → 0 < now
      → IsSound (keys db) (log db) now
      → IsNumbered (keys db')
      → next_key (keys db) ≤ next_key (keys db')
      → id < next_key (keys db')
      → find_key id (keys db') ≡ some k
      → k.key_height ≡ h.height
      → k.key_hash ≡ h.hash
      → ((height : ℕ)
          → canonical_of (keys db') (log db) height ≡ canonical_of (keys db) (log db) height)
      → log db' ≡ (record { block_id = id; status = canonical; observed_at = now }) ∷ log db
      → IsRecorded db h now id db'
  recorded id db' k pos sound num grow below found height_eq hash_eq same logged =
      let later = IsLogged-latest (next_key (keys db)) now id (log db) pos sound.logged in
      (
        λ height.
            canonical_hash_at-index db' height
            ∙ ap (λ (l : List StatusRow). canonical_of (keys db') l height) logged
            ∙ canonical_of-recorded (keys db') (log db) id now height k num later found
            ∙ rw (height_eq, hash_eq, same height, canonical_hash_at-index db height) refl,
        rw logged (record {
          numbered = num;
          timed = (later, sound.timed);
          logged = (
            below,
            omega arith,
            IsLogged-weaken (next_key (keys db)) now _ _ (log db) grow (omega arith) sound.logged,
          );
        }),
      )

module _ (db : Database) (h : BlockHeaderInfo) (captured : Bool) (source : Option String)
    (now : ℕ) where
  abbrev placed : Database
  placed = insert_block_row db h captured source now

  header-written :
      (b : BlockRow)
      → find (is_block h.height h.hash) placed.blocks ≡ some b
      → insert_block_header_row db h captured source now
        ≡ some (b.id, log_status b.id canonical now placed)
  unfolding insert_block_header_row block_id
  header-written b found = rw found refl

  placed-log : log placed ≡ log db
  unfolding insert_block_row
  placed-log = refl

  fresh-found :
      placed.blocks ≡ new_row db h captured source now ∷ db.blocks
      → find (is_block h.height h.hash) placed.blocks ≡ some (new_row db h captured source now)
  unfolding new_row
  fresh-found rows =
      let height_eq : (h.height == h.height) ≡ true = ground arith in
      rw (rows, height_eq, eq_refl h.hash) refl

  fresh-key :
      placed.blocks ≡ new_row db h captured source now ∷ db.blocks
      → keys placed
        ≡ (record { key_id = next_key (keys db); key_height = h.height; key_hash = h.hash })
          ∷ keys db
  unfolding new_row
  fresh-key rows = ap (map key_of) rows ∙ rw (next-key_of db.blocks) refl

  fresh-id : (new_row db h captured source now).id ≡ next_key (keys db)
  unfolding new_row
  fresh-id = next-key_of db.blocks

  fresh-IsRecorded :
      0 < now
      → IsSound (keys db) (log db) now
      → placed.blocks ≡ new_row db h captured source now ∷ db.blocks
      → IsRecorded db h now
          (next_key (keys db))
          (log_status (next_key (keys db)) canonical now placed)
  fresh-IsRecorded pos sound rows =
      let next = next_key (keys db) in
      let k : Key = record { key_id = next; key_height = h.height; key_hash = h.hash } in
      let eq = fresh-key rows in
      let self : (next == next) ≡ true = ground arith in
      recorded db h now next (log_status next canonical now placed) k pos sound
        (rw eq (le_refl next, sound.numbered)) (rw eq (omega arith)) (rw eq (omega arith))
        (rw (eq, self) refl) refl refl
        (λ height. rw eq (
          canonical_of-new_key k (keys db) (log db) height
            (IsLogged-NoRow next now (log db) sound.logged)))
        (rw placed-log refl)

  known-IsRecorded :
      (b : BlockRow)
      → 0 < now
      → IsSound (keys db) (log db) now
      → find (is_block h.height h.hash) db.blocks ≡ some b
      → placed.blocks ≡ db.blocks
      → IsRecorded db h now b.id (log_status b.id canonical now placed)
  known-IsRecorded b pos sound old rows =
      let found = find-block db.blocks (is_block h.height h.hash) b sound.numbered old in
      let eq : keys placed ≡ keys db = ap (map key_of) rows in
      recorded db h now b.id (log_status b.id canonical now placed) (key_of b) pos sound
        (rw eq sound.numbered) (rw eq (le_refl _)) (rw eq found.0) (rw eq found.2)
        (ground (arith, found.1)) (ground (arith, found.1, eq_iff b.hash h.hash))
        (λ height. rw eq refl) (rw placed-log refl)

-- A sound database takes a header row at a later time: the row's block is then the canonical one at
-- its height, every other height keeps its canonical block, and the database stays sound.
pub insert_block_header_row-canonical :
    (db : Database) (h : BlockHeaderInfo) (captured : Bool) (source : Option String) (now : ℕ)
    → 0 < now
    → IsSound (keys db) (log db) now
    → (id : ℕ) × (db' : Database) × (insert_block_header_row db h captured source now
        ≡ some (id, db'))
      × IsRecorded db h now id db'
unfolding insert_block_header_row block_id
insert_block_header_row-canonical db h captured source now pos sound =
    elim (insert_block_row-cases db h captured source now) [
      | inl (fresh, rows) ↦
          let row = new_row db h captured source now in
          let found = fresh-found db h captured source now rows in
          (
            next_key (keys db),
            log_status (next_key (keys db)) canonical now (placed db h captured source now),
            rw (fresh-id db h captured source now) at
                (header-written db h captured source now row found),
            fresh-IsRecorded db h captured source now pos sound rows,
          )
      | inr (b, old, rows) ↦ (
        b.id,
        log_status b.id canonical now (placed db h captured source now),
        header-written db h captured source now b (rw rows old),
        known-IsRecorded db h captured source now b pos sound old rows,
      )
    ]
