-- ===== src/Indexer/Coverage.antt =====
-- permanode/src/indexer.rs, `poll_once`: the loop over the new heights, as a whole.
use gb_parano1d_permanode.Prelude.{
  ℕ, zero, suc, ◌+◌, ◌≤◌, ◌<◌, ◌≡◌, refl, sym, ap, subst, ◌∙◌, true, false, some, arith, Bool-cases,
  inl, inr, ◌==◌,
}
use gb_parano1d_permanode.Prelude.Result.{ok}
use gb_parano1d_permanode.Store.Rows.{Database, number}
use gb_parano1d_permanode.Store.Blocks.{canonical_hash_at}
use gb_parano1d_permanode.Store.Gaps.{set_state}
use gb_parano1d_permanode.Store.Index.{keys, log}
use gb_parano1d_permanode.Store.Headers.{IsSound}
use gb_parano1d_permanode.Store.Frame.{
  canonical_hash_at-SameIndex, IsSound-SameIndex, set_state-SameIndex,
}
use gb_parano1d_permanode.Indexer.Node.{BlockDetailsInfo, RpcClient, Config}
use gb_parano1d_permanode.Indexer.Record.{Env}
use gb_parano1d_permanode.Indexer.Ingest.{ingest_height-IsRecorded}
use gb_parano1d_permanode.Indexer.Poll.{Progress, last_processed_key, ingest_loop}

module _ (env : Env) (cfg : Config) (rpc : RpcClient) where
  -- The node has a block at every one of these heights.
  abbrev pub HasHeights : ℕ → ℕ → Type 0
  HasHeights zero height = Unit {0}
  HasHeights (suc rounds) height =
      ((details : BlockDetailsInfo) × (rpc.get_block_details height ≡ ok (some details))
        × (details.header.height ≡ height))
      × HasHeights rounds (suc height)

  -- What the loop leaves: the node's block at each of its heights, and the old block elsewhere.
  abbrev pub Covers : ℕ → ℕ → ℕ → Database → Database → Type 0
  Covers rounds height now db db' =
      ((other : ℕ)
        → (other < height → canonical_hash_at db' other ≡ canonical_hash_at db other)
          × (height + rounds ≤ other → canonical_hash_at db' other ≡ canonical_hash_at db other)
          × (height ≤ other
              → other < height + rounds
              → (details : BlockDetailsInfo) → rpc.get_block_details other ≡ ok (some details)
              → (id : ℕ) × (canonical_hash_at db' other ≡ some (id, details.header.hash))))
      × IsSound (keys db') (log db') (now + rounds)

  pub ingest_loop-Covers :
      (rounds height now : ℕ) (db : Database)
      → 0 < now
      → IsSound (keys db) (log db) now
      → HasHeights rounds height
      → ((ingest_loop env cfg rpc rounds height now db).finished ≡ true)
        × Covers rounds height now db (ingest_loop env cfg rpc rounds height now db).db
  unfolding ingest_loop
  ingest_loop-Covers zero height now db pos sound has =
      let end : now ≡ now + 0 = omega arith in
      (
        refl,
        (
          λ other. (λ below. refl, λ above. refl, λ from below. ground arith),
          subst (λ (n : ℕ). IsSound (keys db) (log db) n) end sound,
        ),
      )
  ingest_loop-Covers (suc rounds) height now db pos sound ((details, answer, own), has) =
      let (db', eq, id, (blocks, sound')) =
        ingest_height-IsRecorded env rpc cfg db height now details pos sound answer in
      let marked = set_state db' last_processed_key (number height) in
      let same = set_state-SameIndex db' last_processed_key (number height) in
      let (finished, (rest, end)) =
        ingest_loop-Covers rounds (suc height) (suc now) marked (omega arith)
          (IsSound-SameIndex db' marked (suc now) same sound') has in
      let last = (ingest_loop env cfg rpc rounds (suc height) (suc now) marked).db in
      let elsewhere : (other : ℕ)
          → (other == height) ≡ false
          → canonical_hash_at marked other ≡ canonical_hash_at db other =
        λ other ne.
          canonical_hash_at-SameIndex db' marked other same ∙ blocks other ∙ rw (own, ne) refl in
      let clock : suc now + rounds ≡ now + suc rounds = omega arith in
      let step : ingest_loop env cfg rpc (suc rounds) height now db
          ≡ ingest_loop env cfg rpc rounds (suc height) (suc now) marked =
        rw (ingest_loop, eq) refl in
      subst (λ (p : Progress). (p.finished ≡ true) × Covers (suc rounds) height now db p.db)
        (sym step)
        (
          finished,
          (
            λ other. (
              λ below. (rest other).0 (omega arith) ∙ elsewhere other (ground arith),
              λ above. (rest other).1 (omega arith) ∙ elsewhere other (ground arith),
              λ from below d found. elim (Bool-cases (other == height)) [
                | inr later ↦ (rest other).2 (ground arith) (omega arith) d found
                | inl here ↦
                    let other_eq : other ≡ height = ground arith in
                    let found' : rpc.get_block_details height ≡ ok (some d) =
                      ap rpc.get_block_details (sym other_eq) ∙ found in
                    let same_answer : ok (some details) ≡ ok (some d) = sym answer ∙ found' in
                    let same_details : details ≡ d = cc in
                    (
                      id,
                      (rest other).0 (ground arith)
                          ∙ canonical_hash_at-SameIndex db' marked other same
                          ∙ blocks other
                          ∙ rw (own, here)
                              (ap (λ (x : BlockDetailsInfo). some (id, x.header.hash))
                                same_details),
                    )
              ],
            ),
            subst (λ (n : ℕ). IsSound (keys last) (log last) n) clock end,
          ),
        )
