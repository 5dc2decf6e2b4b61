-- ===== src/Indexer/Linked.antt =====
-- permanode/src/indexer.rs, `backfill_headers`: what a batch of headers is.
use gb_parano1d_permanode.Prelude.{
  ℕ, zero, suc, ◌+◌, ◌-◌, ◌≤◌, ◌≡◌, refl, Bool, true, false, ◌&&◌, none, some, String, List, [],
  ◌∷◌, ◌==◌, str_eq, eq_iff, length, arith, ◌⊎◌, inl, inr, Bool-cases, ap, sym, ◌∙◌,
}
use gb_parano1d_permanode.Prelude.Result.{ok, err, ◌>>=◌, bind-eq, ensure-eq, Result-cases}
use gb_parano1d_permanode.Store.Blocks.{BlockHeaderInfo}
use gb_parano1d_permanode.Indexer.Node.{RpcClient}
use gb_parano1d_permanode.Indexer.Headers.{collect_headers}

-- A chain of headers from a height down: the first has the hash, each next one the hash that the
-- one before names as its parent.
abbrev pub IsLinked : ℕ → String → List BlockHeaderInfo → Type 0
IsLinked height hash [] = Unit {0}
IsLinked height hash (h ∷ hs) =
    (h.height ≡ height) × (h.hash ≡ hash) × IsLinked (height - 1) h.prev_hash hs

-- All headers that were asked for, or all down to height 1 where the node has none for genesis.
abbrev pub IsWhole : RpcClient → ℕ → ℕ → List BlockHeaderInfo → Type 0
IsWhole rpc rounds height batch =
    (length batch ≡ rounds) ⊎ ((rpc.get_block_header 0 ≡ ok none) × (length batch ≡ height))

both-true : (a b : Bool) → (a && b) ≡ true → (a ≡ true) × (b ≡ true)
both-true true b e = (refl, e)
both-true false b e = cc

IsWhole-cons :
    (rpc : RpcClient) (rounds height : ℕ) (header : BlockHeaderInfo) (rest : List BlockHeaderInfo)
    → suc rounds ≤ height + 1
    → IsWhole rpc rounds (height - 1) rest
    → IsWhole rpc (suc rounds) height (header ∷ rest)
IsWhole-cons rpc rounds height header rest le (inl all) = inl (omega arith)
IsWhole-cons rpc rounds height header rest le (inr (missing, count)) =
    elim (Bool-cases (height == 0)) [
      | inl genesis ↦ inl (ground arith)
      | inr above ↦ inr (missing, ground arith)
    ]

-- A batch of headers that is accepted is linked by its hashes from the expected one on, one height
-- lower each, and whole.
pub collect_headers-IsLinked :
    (rpc : RpcClient) (rounds height : ℕ) (expected_hash : String) (batch : List BlockHeaderInfo)
    → rounds ≤ height + 1
    → collect_headers rpc rounds height expected_hash ≡ ok batch
    → IsLinked height expected_hash batch × IsWhole rpc rounds height batch
unfolding collect_headers
collect_headers-IsLinked rpc zero height expected batch le e =
    let none_left : [] ≡ batch = cc in rw (← none_left) (tt, inl refl)
collect_headers-IsLinked rpc (suc rounds) height expected batch le e =
    elim (Result-cases (rpc.get_block_header height)) [
      | inl failing ↦ let e' : err ≡ ok batch = rw (collect_headers, failing) at e in cc
      | inr (none, absent) ↦ elim (Bool-cases (height == 0)) [
        | inr above ↦
            let e' : err ≡ ok batch = rw (collect_headers, absent, ◌>>=◌, above) at e in cc
        | inl genesis ↦
            let e' : ok [] ≡ ok batch = rw (collect_headers, absent, ◌>>=◌, genesis) at e in
            let none_left : [] ≡ batch = cc in
            let height_eq : height ≡ 0 = ground arith in
            rw (← none_left)
              (tt, inr (ap rpc.get_block_header (sym height_eq) ∙ absent, sym height_eq))
      ]
      | inr (some header, found) ↦
          let e' = rw (collect_headers, found, ◌>>=◌) at e in
          let (fits, e1) =
            ensure-eq (header.height == height && str_eq header.hash expected) _ batch e' in
          let (own, named) =
            both-true (header.height == height) (str_eq header.hash expected) fits in
          let (rest, collected, e2) =
            bind-eq (collect_headers rpc rounds (height - 1) header.prev_hash) _ batch e1 in
          let both : header ∷ rest ≡ batch = cc in
          let (chain, whole) =
            collect_headers-IsLinked rpc rounds (height - 1) header.prev_hash rest (omega arith)
              collected in
          rw (← both) (
            (ground (arith, own), (eq_iff header.hash expected).0 named, chain),
            IsWhole-cons rpc rounds height header rest le whole,
          )
    ]
