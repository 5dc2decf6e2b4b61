-- ===== src/Decode/Binding.antt =====
-- permanode/src/decode.rs, `decode_bound_block`: what an accepted block is bound to.
use gb_parano1d_permanode.Prelude.{
  ℕ, ◌≡◌, refl, true, false, String, List, [], ◌∷◌, ◌==◌, str_eq, eq_iff, arith, some, Bool-cases,
  inl, inr, ap, ap₂, subst, ◌⊎◌, Bool, Option, none, if◌then◌else◌,
}
use gb_parano1d_permanode.Prelude.Result.{
  require-eq, unit-eq, ensure-eq, Result, ok, require, ensure, ◌>>=◌,
}
use gb_parano1d_permanode.Decode.Chain.{Chain, Block, Page}
use gb_parano1d_permanode.Decode.Bound.{bytes_eq, is_empty, check_tx_root, decode_bound_block}

bytes_eq-eq : (xs ys : List ℕ) → bytes_eq xs ys ≡ true → xs ≡ ys
bytes_eq-eq [] [] h = refl
bytes_eq-eq [] (y ∷ ys) h = cc
bytes_eq-eq (x ∷ xs) [] h = cc
bytes_eq-eq (x ∷ xs) (y ∷ ys) h = elim (Bool-cases (x == y)) [
  | inr differ ↦ let h' : false ≡ true = rw differ at h in cc
  | inl same ↦ let head : x ≡ y = ground arith in ap₂ ◌∷◌ head (bytes_eq-eq xs ys (rw same at h))
]

bytes_eq_refl : (xs : List ℕ) → bytes_eq xs xs ≡ true
bytes_eq_refl [] = refl
bytes_eq_refl (x ∷ xs) = let self : (x == x) ≡ true = ground arith in rw self (bytes_eq_refl xs)

ensure-true : (test : Bool) → ensure test ≡ ok tt → test ≡ true
ensure-true false e = cc
ensure-true true e = refl

abbrev root_checked : List Page → Option String → String → Result (Unit {0})
root_checked pages root wanted =
    if is_empty pages then ok tt else (require root >>= (λ r. ensure (str_eq r wanted)))

root_checked-says :
    (pages : List Page) (root : Option String) (wanted : String)
    → root_checked pages root wanted ≡ ok tt
    → (pages ≡ []) ⊎ (root ≡ some wanted)
root_checked-says [] root wanted e = inl refl
root_checked-says (page ∷ pages) none wanted e = cc
root_checked-says (page ∷ pages) (some r) wanted e =
    inr (ap some ((eq_iff r wanted).0 (ensure-true (str_eq r wanted) e)))

root_checked-ok :
    (pages : List Page) (root : Option String) (wanted : String)
    → (pages ≡ []) ⊎ (root ≡ some wanted)
    → root_checked pages root wanted ≡ ok tt
root_checked-ok pages root wanted (inl none_left) = rw none_left refl
root_checked-ok [] root wanted (inr same) = refl
root_checked-ok (page ∷ pages) root wanted (inr same) =
    let self : str_eq wanted wanted ≡ true = (eq_iff wanted wanted).1 refl in rw (same, self) refl

-- The block has no pages, or its pages have the root of its header.
abbrev pub IsRooted : Chain → Block → Type 0
IsRooted chain block =
    (block.transactions ≡ []) ⊎ (chain.compute_tx_root block.transactions ≡ some block.tx_root)

check_tx_root-IsRooted :
    (chain : Chain) (block : Block) → check_tx_root chain block ≡ ok tt → IsRooted chain block
unfolding check_tx_root
check_tx_root-IsRooted chain block e =
    root_checked-says block.transactions (chain.compute_tx_root block.transactions) block.tx_root e

IsRooted-check_tx_root :
    (chain : Chain) (block : Block) → IsRooted chain block → check_tx_root chain block ≡ ok tt
unfolding check_tx_root
IsRooted-check_tx_root chain block rooted =
    root_checked-ok block.transactions (chain.compute_tx_root block.transactions) block.tx_root
      rooted

-- What the block on record and the bytes have in common.
pub record IsBound (chain : Chain) (bytes : List ℕ) (height : ℕ) (hash : String) (block : Block)
    : Type 0 where
  pub decoded : chain.from_bytes bytes ≡ some block
  pub at_height : block.height ≡ height
  pub with_hash : block.block_id ≡ hash
  pub rooted : IsRooted chain block
  pub canonical_bytes : chain.to_bytes block ≡ bytes

module _ (chain : Chain) (bytes : List ℕ) (height : ℕ) (hash : String) (block : Block) where
  decode_bound_block-IsBound :
      decode_bound_block chain bytes height hash ≡ ok block → IsBound chain bytes height hash block
  unfolding decode_bound_block
  decode_bound_block-IsBound e =
      let (b, decoded, e1) = require-eq (chain.from_bytes bytes) _ block e in
      let (height_eq, e2) = ensure-eq (b.height == height) _ block e1 in
      let (hash_eq, e3) = ensure-eq (str_eq b.block_id hash) _ block e2 in
      let (root_ok, e4) = unit-eq (check_tx_root chain b) _ block e3 in
      let (bytes_ok, e5) = ensure-eq (bytes_eq (chain.to_bytes b) bytes) _ block e4 in
      let same : b ≡ block = cc in
      subst (IsBound chain bytes height hash) same (record {
        decoded = decoded;
        at_height = ground arith;
        with_hash = (eq_iff b.block_id hash).0 hash_eq;
        rooted = check_tx_root-IsRooted chain b root_ok;
        canonical_bytes = bytes_eq-eq (chain.to_bytes b) bytes bytes_ok;
      })

  IsBound-decode_bound_block :
      IsBound chain bytes height hash block → decode_bound_block chain bytes height hash ≡ ok block
  unfolding decode_bound_block
  IsBound-decode_bound_block h =
      let height_eq : (block.height == height) ≡ true = rw h.at_height (ground arith) in
      let hash_eq : str_eq block.block_id hash ≡ true =
        (eq_iff block.block_id hash).1 h.with_hash in
      let bytes_ok : bytes_eq (chain.to_bytes block) bytes ≡ true =
        rw h.canonical_bytes (bytes_eq_refl bytes) in
      rw
        (
          decode_bound_block,
          h.decoded,
          height_eq,
          hash_eq,
          IsRooted-check_tx_root chain block h.rooted,
          bytes_ok,
        )
        refl

-- Bytes are accepted exactly if they decode to a block at the height and with the hash, which has no
-- pages or whose pages have the header's root, and if they are the encoding of this block.
pub decode_bound_block-eq-ok :
    (chain : Chain) (bytes : List ℕ) (height : ℕ) (hash : String) (block : Block)
    → (decode_bound_block chain bytes height hash ≡ ok block
        → IsBound chain bytes height hash block)
      × (IsBound chain bytes height hash block
          → decode_bound_block chain bytes height hash ≡ ok block)
decode_bound_block-eq-ok chain bytes height hash block = (
  decode_bound_block-IsBound chain bytes height hash block,
  IsBound-decode_bound_block chain bytes height hash block,
)
