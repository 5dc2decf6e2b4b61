-- ===== src/Indexer/Final.antt =====
-- permanode/src/indexer.rs, `poll_once`: the heights that a cycle does not touch.
use gb_parano1d_permanode.Prelude.{
  ℕ, zero, suc, ◌+◌, ◌-◌, ◌*◌, ◌≤◌, ◌<◌, ◌≡◌, refl, sym, ap, subst, ◌∙◌, Bool, true, false, Option,
  none, some, String, ◌==◌, str_eq, if◌then◌else◌, arith, ne→==_false, Bool-cases, Option-cases,
  inl, inr,
}
use gb_parano1d_permanode.Prelude.Result.{ok, err, ◌>>=◌, Result-cases}
use gb_parano1d_permanode.Store.Rows.{Database, number}
use gb_parano1d_permanode.Store.Blocks.{canonical_hash_at, mark_orphaned, is_header_only}
use gb_parano1d_permanode.Store.Gaps.{set_state, record_gap}
use gb_parano1d_permanode.Store.Index.{keys, log}
use gb_parano1d_permanode.Store.Headers.{IsSound}
use gb_parano1d_permanode.Store.Frame.{
  IsSound-SameIndex, canonical_hash_at-SameIndex, set_state-SameIndex, record_gap-SameIndex,
}
use gb_parano1d_permanode.Store.Orphans.{mark_orphaned-IsSound, mark_orphaned-elsewhere}
use gb_parano1d_permanode.Store.Blocks.{BlockHeaderInfo}
use gb_parano1d_permanode.Indexer.Ingest.{details_of}
use gb_parano1d_permanode.Indexer.Node.{BlockDetailsInfo, RpcClient, Config}
use gb_parano1d_permanode.Indexer.Body.{resolve_body}
use gb_parano1d_permanode.Indexer.Record.{
  Env, ingest_height, recheck_height, replace_block, write_replacement, reorg_note,
}
use gb_parano1d_permanode.Indexer.Ingest.{ingest_height-IsRecorded, resolve_body-header}
use gb_parano1d_permanode.Indexer.Reorg.{write_replacement-Records}
use gb_parano1d_permanode.Indexer.Poll.{
  Progress, done, and_then, last_processed_key, last_processed, ingest_loop, recheck_loop,
  complete_window, poll_once,
}
use gb_parano1d_permanode.Indexer.Cycle.{
  Sound, ingest_height-Sound, ingest_loop-Sound, recheck_height-Sound, complete_window-SameIndex,
  poll_once-tip,
}

-- The node answers a height with a block of that height.
abbrev pub AnswersHeights : RpcClient → Type 0
AnswersHeights rpc =
    (height : ℕ) (details : BlockDetailsInfo)
    → rpc.get_block_details height ≡ ok (some details)
    → details.header.height ≡ height

module _ (env : Env) (cfg : Config) (rpc : RpcClient) (honest : AnswersHeights rpc) where
  ingest_height_elsewhere :
      (db : Database) (height now : ℕ) (db' : Database) (other : ℕ)
      → 0 < now
      → Sound db now
      → (other == height) ≡ false
      → ingest_height env rpc cfg db height now ≡ ok (some db')
      → canonical_hash_at db' other ≡ canonical_hash_at db other
  unfolding ingest_height
  ingest_height_elsewhere db height now db' other pos sound differs e =
      elim (Result-cases (rpc.get_block_details height)) [
        | inl failing ↦ let e' : err ≡ ok (some db') = rw (ingest_height, failing) at e in cc
        | inr (none, absent) ↦
            let e' : ok none ≡ ok (some db') = rw (ingest_height, absent) at e in cc
        | inr (some details, answer) ↦
            let (d, eq, id, (blocks, sound')) =
              ingest_height-IsRecorded env rpc cfg db height now details pos sound answer in
            let e' : ok (some d) ≡ ok (some db') = sym eq ∙ e in
            let same : d ≡ db' = cc in
            let at : details.header.height ≡ height = honest height details answer in
            let kept : canonical_hash_at d other ≡ canonical_hash_at db other =
              blocks other ∙ rw (at, differs) refl in
            subst (λ (x : Database). canonical_hash_at x other ≡ canonical_hash_at db other) same
              kept
      ]

  ingest_loop_below :
      (rounds height now : ℕ) (db : Database) (other : ℕ)
      → 0 < now
      → Sound db now
      → other < height
      → canonical_hash_at (ingest_loop env cfg rpc rounds height now db).db other
        ≡ canonical_hash_at db other
  unfolding ingest_loop
  ingest_loop_below zero height now db other pos sound below = refl
  ingest_loop_below (suc rounds) height now db other pos sound below =
      elim (Result-cases (ingest_height env rpc cfg db height now)) [
        | inl failing ↦ rw (ingest_loop, failing) refl
        | inr (none, absent) ↦ rw (ingest_loop, absent) refl
        | inr (some db', eq) ↦
            let marked = set_state db' last_processed_key (number height) in
            let sound' =
              IsSound-SameIndex db' marked (suc now)
                (set_state-SameIndex db' last_processed_key (number height))
                (ingest_height-Sound env cfg rpc db height now db' pos sound eq) in
            let first =
              ingest_height_elsewhere db height now db' other pos sound
                (ne→==_false other height (omega (arith, below))) eq in
            let mark =
              canonical_hash_at-SameIndex db' marked other
                (set_state-SameIndex db' last_processed_key (number height)) in
            rw (ingest_loop, eq)
              (ingest_loop_below rounds (suc height) (suc now) marked other (omega arith) sound'
                  (omega (arith, below))
                ∙ mark
                ∙ first)
      ]

  replace_block_elsewhere :
      (db : Database) (height now old : ℕ) (known hash : String) (db' : Database) (other : ℕ)
      → 0 < now
      → Sound db now
      → canonical_hash_at db height ≡ some (old, known)
      → (other == height) ≡ false
      → replace_block env rpc cfg db height hash old now ≡ ok db'
      → canonical_hash_at db' other ≡ canonical_hash_at db other
  unfolding replace_block write_replacement
  replace_block_elsewhere db height now old known hash db' other pos sound current differs e =
      let marked = mark_orphaned db old now in
      let sound' = mark_orphaned-IsSound db height now old known pos sound current in
      let orphaned_only =
        mark_orphaned-elsewhere db height now old known pos sound current other differs in
      elim (Result-cases (rpc.get_block_details height)) [
        | inl failing ↦ let e' : err ≡ ok db' = rw (replace_block, failing) at e in cc
        | inr (none, absent) ↦
            let d = record_gap marked height (some hash) now (reorg_note env) in
            let e' : ok d ≡ ok db' = rw (replace_block, absent) at e in
            let same : d ≡ db' = cc in
            subst (λ (x : Database). canonical_hash_at x other ≡ canonical_hash_at db other) same
              (canonical_hash_at-SameIndex marked d other
                  (record_gap-SameIndex marked height (some hash) now (reorg_note env))
                ∙ orphaned_only)
        | inr (some details, answer) ↦
            let outcome = resolve_body env.chain rpc cfg details (reorg_note env) in
            let (d, eq, id, (blocks, sound2)) =
              write_replacement-Records env rpc cfg marked height now hash outcome sound' in
            let e' : write_replacement env rpc cfg marked height hash (some outcome) now ≡ ok db' =
              rw (replace_block, answer) at e in
            let same_result : ok d ≡ ok db' = sym eq ∙ e' in
            let same : d ≡ db' = cc in
            let at : (details_of outcome).header.height ≡ height =
              ap (λ (h : BlockHeaderInfo). h.height)
                (resolve_body-header env.chain rpc cfg details (reorg_note env))
              ∙ honest height details answer in
            let kept : canonical_hash_at d other ≡ canonical_hash_at db other =
              blocks other ∙ rw (at, differs) orphaned_only in
            subst (λ (x : Database). canonical_hash_at x other ≡ canonical_hash_at db other) same
              kept
      ]

  recheck_height_elsewhere :
      (db : Database) (height now : ℕ) (db' : Database) (other : ℕ)
      → 0 < now
      → Sound db now
      → (other == height) ≡ false
      → recheck_height env rpc cfg db height now ≡ ok db'
      → canonical_hash_at db' other ≡ canonical_hash_at db other
  unfolding recheck_height
  recheck_height_elsewhere db height now db' other pos sound differs e =
      let stay : ok db ≡ ok db' → canonical_hash_at db' other ≡ canonical_hash_at db other =
        λ same_result.
          let same : db ≡ db' = cc in
          subst (λ (x : Database). canonical_hash_at x other ≡ canonical_hash_at db other) same
            refl in
      elim (Result-cases (rpc.get_block_header height)) [
        | inl failing ↦ let e' : err ≡ ok db' = rw (recheck_height, failing) at e in cc
        | inr (none, absent) ↦ stay (rw (recheck_height, absent) at e)
        | inr (some header, answer) ↦ elim (Option-cases (canonical_hash_at db height)) [
          | inl empty ↦ stay (rw (recheck_height, answer, ◌>>=◌, empty) at e)
          | inr ((old, known), current) ↦ elim (Bool-cases (str_eq known header.hash)) [
            | inl same ↦ stay (rw (recheck_height, answer, ◌>>=◌, current, same) at e)
            | inr changed ↦ elim (Bool-cases (is_header_only db old)) [
              | inl header_only ↦
                  stay (rw (recheck_height, answer, ◌>>=◌, current, changed, header_only) at e)
              | inr archived ↦
                  replace_block_elsewhere db height now old known header.hash db' other pos sound
                    current differs
                    (rw (recheck_height, answer, ◌>>=◌, current, changed, archived) at e)
            ]
          ]
        ]
      ]

  recheck_loop_below :
      (rounds height now : ℕ) (db : Database) (other : ℕ)
      → 0 < now
      → Sound db now
      → other < height
      → canonical_hash_at (recheck_loop env cfg rpc rounds height now db).db other
        ≡ canonical_hash_at db other
  unfolding recheck_loop
  recheck_loop_below zero height now db other pos sound below = refl
  recheck_loop_below (suc rounds) height now db other pos sound below =
      elim (Result-cases (recheck_height env rpc cfg db height now)) [
        | inl failing ↦ rw (recheck_loop, failing) refl
        | inr (db', eq) ↦
            let sound' = recheck_height-Sound env cfg rpc db height now db' pos sound eq in
            let first =
              recheck_height_elsewhere db height now db' other pos sound
                (ne→==_false other height (omega (arith, below))) eq in
            rw (recheck_loop, eq)
              (recheck_loop_below rounds (suc height) (now + 2) db' other (omega arith) sound'
                  (omega (arith, below))
                ∙ first)
      ]

same-if :
    (test : Bool) (a b : Progress) (x : Option (ℕ × String)) (other : ℕ)
    → canonical_hash_at a.db other ≡ x
    → canonical_hash_at b.db other ≡ x
    → canonical_hash_at (if test then a else b).db other ≡ x
same-if true a b x other p q = p
same-if false a b x other p q = q

-- A poll cycle with a node that answers each height with a block of that height leaves the canonical
-- block of every height that was processed before and is below the window of the reorg re-check as
-- it was, whether the cycle finishes or not.
pub poll_once-settled :
    (env : Env) (cfg : Config) (rpc recheck_rpc gaps_rpc raw_rpc : RpcClient) (now : ℕ)
    (db : Database) (tip height : ℕ)
    → AnswersHeights rpc
    → AnswersHeights recheck_rpc
    → 0 < now
    → IsSound (keys db) (log db) now
    → rpc.block_count ≡ ok tip
    → height ≤ last_processed rpc db tip
    → height < tip - cfg.reorg_check_depth
    → canonical_hash_at (poll_once env cfg rpc recheck_rpc gaps_rpc raw_rpc now db).db height
      ≡ canonical_hash_at db height
poll_once-settled env cfg rpc recheck_rpc gaps_rpc raw_rpc now db tip height honest honest' pos
      sound answer known deep =
    let last = last_processed rpc db tip in
    let from = tip - cfg.reorg_check_depth in
    let clock = now + (tip - last) in
    let rounds = tip - from + 1 in
    let end = clock + 2 * rounds in
    let first = ingest_loop env cfg rpc (tip - last) (suc last) now db in
    let first_sound = ingest_loop-Sound env cfg rpc (tip - last) (suc last) now db pos sound in
    let first_same =
      ingest_loop_below env cfg rpc honest (tip - last) (suc last) now db height pos sound
        (omega (arith, known)) in
    let second = recheck_loop env cfg recheck_rpc rounds from clock first.db in
    let second_same =
      recheck_loop_below env cfg recheck_rpc honest' rounds from clock first.db height (omega arith)
        first_sound deep
      ∙ first_same in
    let both = and_then first (λ d. recheck_loop env cfg recheck_rpc rounds from clock d) in
    let both_same =
      same-if first.finished second first (canonical_hash_at db height) height second_same
        first_same in
    let window = complete_window env cfg gaps_rpc raw_rpc tip end both.db in
    let window_same =
      canonical_hash_at-SameIndex both.db window height
        (complete_window-SameIndex env cfg gaps_rpc raw_rpc tip end both.db)
      ∙ both_same in
    rw (poll_once-tip env cfg rpc recheck_rpc gaps_rpc raw_rpc now db tip answer) (
      same-if both.finished (done window) both (canonical_hash_at db height) height window_same
        both_same)
