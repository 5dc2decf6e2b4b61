-- ===== src/Indexer/Cycle.antt =====
-- permanode/src/indexer.rs, `poll_once`: the phases of a cycle and the soundness of the database.
use gb_parano1d_permanode.Prelude.{
  ℕ, zero, suc, ◌+◌, ◌-◌, ◌*◌, ◌≤◌, ◌<◌, ◌≡◌, refl, sym, subst, ◌∙◌, Bool, true, false, none, some,
  String, List, [], ◌∷◌, if◌then◌else◌, arith, Bool-cases, Option-cases, inl, inr, str_eq,
}
use gb_parano1d_permanode.Prelude.Result.{ok, err, ◌>>=◌, Result-cases}
use gb_parano1d_permanode.Store.Rows.{Database, number}
use gb_parano1d_permanode.Store.Blocks.{
  canonical_hash_at, is_header_only, mark_orphaned, mark_body_recovered, uncaptured_block_id,
}
use gb_parano1d_permanode.Store.Bodies.{insert_transactions}
use gb_parano1d_permanode.Store.Gaps.{set_state, record_gap, resolve_gap, open_gap_heights}
use gb_parano1d_permanode.Store.Index.{keys, log}
use gb_parano1d_permanode.Store.Headers.{IsSound}
use gb_parano1d_permanode.Store.Orphans.{mark_orphaned-IsSound}
use gb_parano1d_permanode.Store.Frame.{
  SameIndex, SameIndex-refl, SameIndex-trans, IsSound-SameIndex, set_state-SameIndex,
  record_gap-SameIndex, insert_transactions-SameIndex, mark_body_recovered-SameIndex,
  resolve_gap-SameIndex,
}
use gb_parano1d_permanode.Raw.Archive.{blocks_missing_raw}
use gb_parano1d_permanode.Indexer.Node.{RpcClient, Config, getblock_serving_window}
use gb_parano1d_permanode.Indexer.Body.{
  FallbackOutcome, recovered, no_body, decode_failed, try_getblock_fallback, fetch_raw,
  resolve_body,
}
use gb_parano1d_permanode.Indexer.Record.{
  Env, ingest_height, recheck_height, replace_block, backfill_gap, write_replacement,
  record_contract_flags, keep_raw, reorg_note,
}
use gb_parano1d_permanode.Indexer.Frame.{record_contract_flags-SameIndex, keep_raw-SameIndex}
use gb_parano1d_permanode.Indexer.Canonical.{IsSound-later}
use gb_parano1d_permanode.Indexer.Ingest.{ingest_height-IsRecorded}
use gb_parano1d_permanode.Indexer.Reorg.{write_replacement-Records}
use gb_parano1d_permanode.Indexer.Poll.{
  Progress, done, failed, and_then, last_processed_key, last_processed, ingest_loop, recheck_loop,
  backfill_loop, raw_loop, complete_window, poll_once,
}

abbrev pub Sound : Database → ℕ → Type 0
Sound db now = IsSound (keys db) (log db) now

SameIndex-if :
    (test : Bool) (db a b : Database)
    → SameIndex db a
    → SameIndex db b
    → SameIndex db (if test then a else b)
SameIndex-if true db a b p q = p
SameIndex-if false db a b p q = q

module _ (env : Env) (cfg : Config) where
  pub ingest_height-Sound :
      (rpc : RpcClient) (db : Database) (height now : ℕ) (db' : Database)
      → 0 < now
      → Sound db now
      → ingest_height env rpc cfg db height now ≡ ok (some db')
      → Sound db' (suc now)
  unfolding ingest_height
  ingest_height-Sound rpc db height now db' pos sound e =
      elim (Result-cases (rpc.get_block_details height)) [
        | inl failing ↦ let e' : err ≡ ok (some db') = rw (ingest_height, failing) at e in cc
        | inr (none, absent) ↦
            let e' : ok none ≡ ok (some db') = rw (ingest_height, absent) at e in cc
        | inr (some details, answer) ↦
            let (d, eq, id, (blocks, sound')) =
              ingest_height-IsRecorded env rpc cfg db height now details pos sound answer in
            let e' : ok (some d) ≡ ok (some db') = sym eq ∙ e in
            let same : d ≡ db' = cc in subst (λ (x : Database). Sound x (suc now)) same sound'
      ]

  pub ingest_loop-Sound :
      (rpc : RpcClient) (rounds height now : ℕ) (db : Database)
      → 0 < now
      → Sound db now
      → Sound (ingest_loop env cfg rpc rounds height now db).db (now + rounds)
  unfolding ingest_loop
  ingest_loop-Sound rpc zero height now db pos sound = IsSound-later db now _ (omega arith) sound
  ingest_loop-Sound rpc (suc rounds) height now db pos sound =
      elim (Result-cases (ingest_height env rpc cfg db height now)) [
        | inl failing ↦ rw (ingest_loop, failing) (IsSound-later db now _ (omega arith) sound)
        | inr (none, absent) ↦ rw (ingest_loop, absent) (IsSound-later db now _ (omega arith) sound)
        | inr (some db', eq) ↦
            let marked = set_state db' last_processed_key (number height) in
            let sound' =
              IsSound-SameIndex db' marked (suc now)
                (set_state-SameIndex db' last_processed_key (number height))
                (ingest_height-Sound rpc db height now db' pos sound eq) in
            let clock : suc now + rounds ≡ now + suc rounds = omega arith in
            let end =
              ingest_loop-Sound rpc rounds (suc height) (suc now) marked (omega arith) sound' in
            let last = (ingest_loop env cfg rpc rounds (suc height) (suc now) marked).db in
            rw (ingest_loop, eq) (subst (λ (n : ℕ). IsSound (keys last) (log last) n) clock end)
      ]

  replace_block-Sound :
      (rpc : RpcClient) (db : Database) (height now old : ℕ) (known hash : String) (db' : Database)
      → 0 < now
      → Sound db now
      → canonical_hash_at db height ≡ some (old, known)
      → replace_block env rpc cfg db height hash old now ≡ ok db'
      → Sound db' (suc (suc now))
  unfolding replace_block write_replacement
  replace_block-Sound rpc db height now old known hash db' pos sound current e =
      let marked = mark_orphaned db old now in
      let sound' = mark_orphaned-IsSound db height now old known pos sound current in
      elim (Result-cases (rpc.get_block_details height)) [
        | inl failing ↦ let e' : err ≡ ok db' = rw (replace_block, failing) at e in cc
        | inr (none, absent) ↦
            let d = record_gap marked height (some hash) now (reorg_note env) in
            let e' : ok d ≡ ok db' = rw (replace_block, absent) at e in
            let same : d ≡ db' = cc in
            subst (λ (x : Database). Sound x (suc (suc now))) same
              (IsSound-SameIndex marked d (suc (suc now))
                (record_gap-SameIndex marked height (some hash) now (reorg_note env))
                (IsSound-later marked (suc now) _ (omega arith) sound'))
        | inr (some details, answer) ↦
            let outcome = resolve_body env.chain rpc cfg details (reorg_note env) in
            let (d, eq, id, (blocks, sound2)) =
              write_replacement-Records env rpc cfg marked height now hash outcome sound' in
            let e' : write_replacement env rpc cfg marked height hash (some outcome) now ≡ ok db' =
              rw (replace_block, answer) at e in
            let same_result : ok d ≡ ok db' = sym eq ∙ e' in
            let same : d ≡ db' = cc in subst (λ (x : Database). Sound x (suc (suc now))) same sound2
      ]

  pub recheck_height-Sound :
      (rpc : RpcClient) (db : Database) (height now : ℕ) (db' : Database)
      → 0 < now
      → Sound db now
      → recheck_height env rpc cfg db height now ≡ ok db'
      → Sound db' (now + 2)
  unfolding recheck_height
  recheck_height-Sound rpc db height now db' pos sound e =
      let stay : ok db ≡ ok db' → Sound db' (now + 2) = λ same_result.
        let same : db ≡ db' = cc in
        subst (λ (x : Database). Sound x (now + 2)) same
          (IsSound-later db now _ (omega arith) sound) in
      elim (Result-cases (rpc.get_block_header height)) [
        | inl failing ↦ let e' : err ≡ ok db' = rw (recheck_height, failing) at e in cc
        | inr (none, absent) ↦ stay (rw (recheck_height, absent) at e)
        | inr (some header, answer) ↦ elim (Option-cases (canonical_hash_at db height)) [
          | inl empty ↦ stay (rw (recheck_height, answer, ◌>>=◌, empty) at e)
          | inr ((old, known), current) ↦ elim (Bool-cases (str_eq known header.hash)) [
            | inl same ↦ stay (rw (recheck_height, answer, ◌>>=◌, current, same) at e)
            | inr differs ↦ elim (Bool-cases (is_header_only db old)) [
              | inl header_only ↦
                  stay (rw (recheck_height, answer, ◌>>=◌, current, differs, header_only) at e)
              | inr archived ↦
                  let clock : suc (suc now) ≡ now + 2 = omega arith in
                  subst (λ (n : ℕ). IsSound (keys db') (log db') n) clock
                    (replace_block-Sound rpc db height now old known header.hash db' pos sound
                      current (rw (recheck_height, answer, ◌>>=◌, current, differs, archived) at e))
            ]
          ]
        ]
      ]

  recheck_loop-Sound :
      (rpc : RpcClient) (rounds height now : ℕ) (db : Database)
      → 0 < now
      → Sound db now
      → Sound (recheck_loop env cfg rpc rounds height now db).db (now + 2 * rounds)
  unfolding recheck_loop
  recheck_loop-Sound rpc zero height now db pos sound = IsSound-later db now _ (omega arith) sound
  recheck_loop-Sound rpc (suc rounds) height now db pos sound =
      elim (Result-cases (recheck_height env rpc cfg db height now)) [
        | inl failing ↦ rw (recheck_loop, failing) (IsSound-later db now _ (omega arith) sound)
        | inr (db', eq) ↦
            let sound' = recheck_height-Sound rpc db height now db' pos sound eq in
            let clock : now + 2 + 2 * rounds ≡ now + 2 * suc rounds = omega arith in
            let end =
              recheck_loop-Sound rpc rounds (suc height) (now + 2) db' (omega arith) sound' in
            let last = (recheck_loop env cfg rpc rounds (suc height) (now + 2) db').db in
            rw (recheck_loop, eq) (subst (λ (n : ℕ). IsSound (keys last) (log last) n) clock end)
      ]

  pub backfill_gap-SameIndex :
      (rpc : RpcClient) (db : Database) (height now : ℕ)
      → SameIndex db (backfill_gap env rpc cfg db height now)
  unfolding backfill_gap
  backfill_gap-SameIndex rpc db height now = elim (Option-cases (canonical_hash_at db height)) [
    | inl empty ↦ rw (backfill_gap, empty) (SameIndex-refl db)
    | inr ((id, hash), current) ↦ elim (Option-cases (uncaptured_block_id db height hash)) [
      | inl captured ↦ rw (backfill_gap, current, captured) (SameIndex-refl db)
      | inr (gap_id, missing) ↦
          rw (backfill_gap, current, missing)
            (fill (try_getblock_fallback env.chain rpc height hash) gap_id hash)
    ]
  ]
    where
      fill :
          (outcome : FallbackOutcome) (gap_id : ℕ) (hash : String)
          → SameIndex db (elim outcome [
            | recovered retained raw ↦
                resolve_gap
                  (keep_raw env cfg
                    (record_contract_flags env
                      (mark_body_recovered
                        (insert_transactions db gap_id retained)
                        gap_id
                        "getblock")
                      height
                      hash
                      (some raw))
                    height
                    hash
                    (some raw)
                    "node"
                    now)
                  height
                  now
                  "recovered via getBlock"
            | no_body ↦ db
            | decode_failed ↦ db
          ])
      fill no_body gap_id hash = SameIndex-refl db
      fill decode_failed gap_id hash = SameIndex-refl db
      fill (recovered retained raw) gap_id hash =
          let filled = insert_transactions db gap_id retained in
          let marked = mark_body_recovered filled gap_id "getblock" in
          let flagged = record_contract_flags env marked height hash (some raw) in
          let kept = keep_raw env cfg flagged height hash (some raw) "node" now in
          SameIndex-trans db filled _ (insert_transactions-SameIndex db gap_id retained) (
            SameIndex-trans filled marked _ (mark_body_recovered-SameIndex filled gap_id "getblock")
              (SameIndex-trans marked flagged _
                (record_contract_flags-SameIndex env marked height hash (some raw))
                (SameIndex-trans flagged kept _
                  (keep_raw-SameIndex env cfg flagged height hash (some raw) "node" now)
                  (resolve_gap-SameIndex kept height now "recovered via getBlock"))))

  backfill_loop-SameIndex :
      (rpc : RpcClient) (now : ℕ) (heights : List ℕ) (db : Database)
      → SameIndex db (backfill_loop env cfg rpc now heights db)
  unfolding backfill_loop
  backfill_loop-SameIndex rpc now [] db = SameIndex-refl db
  backfill_loop-SameIndex rpc now (height ∷ heights) db =
      let filled = backfill_gap env rpc cfg db height now in
      SameIndex-trans db filled _ (backfill_gap-SameIndex rpc db height now)
        (backfill_loop-SameIndex rpc (suc now) heights filled)

  raw_loop-SameIndex :
      (rpc : RpcClient) (now : ℕ) (blocks : List (ℕ × String)) (db : Database)
      → SameIndex db (raw_loop env cfg rpc now blocks db)
  unfolding raw_loop
  raw_loop-SameIndex rpc now [] db = SameIndex-refl db
  raw_loop-SameIndex rpc now ((height, hash) ∷ blocks) db =
      elim (Option-cases (fetch_raw rpc height)) [
        | inl absent ↦ rw (raw_loop, absent) (raw_loop-SameIndex rpc (suc now) blocks db)
        | inr (bytes, found) ↦
            let kept = keep_raw env cfg db height hash (some bytes) "node" now in
            rw (raw_loop, found)
              (SameIndex-trans db kept _
                (keep_raw-SameIndex env cfg db height hash (some bytes) "node" now)
                (raw_loop-SameIndex rpc (suc now) blocks kept))
      ]

  pub complete_window-SameIndex :
      (gaps_rpc raw_rpc : RpcClient) (tip now : ℕ) (db : Database)
      → SameIndex db (complete_window env cfg gaps_rpc raw_rpc tip now db)
  unfolding complete_window
  complete_window-SameIndex gaps_rpc raw_rpc tip now db =
      let min_height = tip - getblock_serving_window in
      let from_gaps = backfill_loop env cfg gaps_rpc now (open_gap_heights db min_height) db in
      let filled = if cfg.getblock_fallback then from_gaps else db in
      let gaps =
        SameIndex-if cfg.getblock_fallback db from_gaps db
          (backfill_loop-SameIndex gaps_rpc now (open_gap_heights db min_height) db)
          (SameIndex-refl db) in
      let missing = blocks_missing_raw filled min_height tip (getblock_serving_window + 1) in
      SameIndex-if cfg.archive_raw_blocks db (raw_loop env cfg raw_rpc now missing filled) filled
        (SameIndex-trans db filled _ gaps (raw_loop-SameIndex raw_rpc now missing filled)) gaps

Sound-if :
    (test : Bool) (now : ℕ) (a b : Progress)
    → Sound a.db now
    → Sound b.db now
    → Sound (if test then a else b).db now
Sound-if true now a b p q = p
Sound-if false now a b p q = q

module _ (env : Env) (cfg : Config) (rpc recheck_rpc gaps_rpc raw_rpc : RpcClient) (now : ℕ)
    (db : Database) where
  pub poll_once-failing :
      rpc.block_count ≡ err → poll_once env cfg rpc recheck_rpc gaps_rpc raw_rpc now db ≡ failed db
  unfolding poll_once
  poll_once-failing failing = rw (poll_once, failing) refl

  pub poll_once-tip :
      (tip : ℕ)
      → rpc.block_count ≡ ok tip
      → poll_once env cfg rpc recheck_rpc gaps_rpc raw_rpc now db ≡ (
          let last = last_processed rpc db tip in
          let from = tip - cfg.reorg_check_depth in
          let clock = now + (tip - last) in
          let rounds = tip - from + 1 in
          and_then
            (and_then
              (ingest_loop env cfg rpc (tip - last) (suc last) now db)
              (λ d. recheck_loop env cfg recheck_rpc rounds from clock d))
            (λ d. done (complete_window env cfg gaps_rpc raw_rpc tip (clock + 2 * rounds) d)))
  unfolding poll_once ingest_height
  poll_once-tip tip answer = rw (poll_once, answer) refl

-- Whatever the node answers in a poll cycle, the database that the cycle leaves, finished or not,
-- is sound at some later time, if the database was sound at its beginning.
pub poll_once-IsSound :
    (env : Env) (cfg : Config) (rpc recheck_rpc gaps_rpc raw_rpc : RpcClient) (now : ℕ)
    (db : Database)
    → 0 < now
    → IsSound (keys db) (log db) now
    → (end : ℕ) × (now ≤ end)
      × (let db' = (poll_once env cfg rpc recheck_rpc gaps_rpc raw_rpc now db).db in
          IsSound (keys db') (log db') end)
poll_once-IsSound env cfg rpc recheck_rpc gaps_rpc raw_rpc now db pos sound =
    elim (Result-cases rpc.block_count) [
      | inl failing ↦
          rw (poll_once-failing env cfg rpc recheck_rpc gaps_rpc raw_rpc now db failing)
            (now, omega arith, sound)
      | inr (tip, answer) ↦
          let last = last_processed rpc db tip in
          let from = tip - cfg.reorg_check_depth in
          let clock = now + (tip - last) in
          let rounds = tip - from + 1 in
          let end = clock + 2 * rounds in
          let first = ingest_loop env cfg rpc (tip - last) (suc last) now db in
          let first_sound =
            ingest_loop-Sound env cfg rpc (tip - last) (suc last) now db pos sound in
          let second = recheck_loop env cfg recheck_rpc rounds from clock first.db in
          let second_sound =
            recheck_loop-Sound env cfg recheck_rpc rounds from clock first.db (omega arith)
              first_sound in
          let both = and_then first (λ d. recheck_loop env cfg recheck_rpc rounds from clock d) in
          let both_sound =
            Sound-if first.finished end second first second_sound
              (IsSound-later first.db clock end (omega arith) first_sound) in
          let window = complete_window env cfg gaps_rpc raw_rpc tip end both.db in
          let window_sound =
            IsSound-SameIndex both.db window end
              (complete_window-SameIndex env cfg gaps_rpc raw_rpc tip end both.db) both_sound in
          rw (poll_once-tip env cfg rpc recheck_rpc gaps_rpc raw_rpc now db tip answer) (
            end,
            omega arith,
            Sound-if both.finished end (done window) both window_sound both_sound,
          )
    ]
