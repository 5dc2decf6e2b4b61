-- ===== src/System/Sound.antt =====
-- The operations together: the soundness of the databases they lead to.
use gb_parano1d_permanode.Prelude.{
  ℕ, suc, ◌+◌, ◌-◌, ◌<◌, ◌≡◌, ◌⊎◌, refl, subst, false, ◌&&◌, some, String, List, [], ◌∷◌, ◌==◌,
  str_eq, any, arith, if◌then◌else◌, Bool-cases, inl, inr,
}
use gb_parano1d_permanode.Prelude.Result.{ok, err, bind-eq, ◌>>=◌}
use gb_parano1d_permanode.Store.Rows.{BlockRow, StatusRow, Database}
use gb_parano1d_permanode.Store.Rows.{next_id, canonical, text, number}
use gb_parano1d_permanode.Store.Gaps.{set_state}
use gb_parano1d_permanode.Store.Blocks.{
  BlockHeaderInfo, latest_observed, header_row, header_only_source, log_status, InsertOutcome,
  inserted, already, conflict, insert_header_only_block,
}
use gb_parano1d_permanode.Indexer.Headers.{
  collect_headers, write_headers, backfill_batch, header_batch, header_backfill_key,
}
use gb_parano1d_permanode.Store.Index.{keys, log}
use gb_parano1d_permanode.Store.Headers.{IsSound, IsLogged, IsLogged-weaken, next_key, next-key_of}
use gb_parano1d_permanode.Indexer.Node.{RpcClient}
use gb_parano1d_permanode.Indexer.Canonical.{IsSound-later}
use gb_parano1d_permanode.Store.Frame.{set_state-SameIndex, SameIndex, IsSound-SameIndex}
use gb_parano1d_permanode.Indexer.Cycle.{poll_once-IsSound}
use gb_parano1d_permanode.Receipts.History.{import_receipts-SameHistory}
use gb_parano1d_permanode.Indexer.Cycle.{
  ingest_height-Sound, recheck_height-Sound, backfill_gap-SameIndex,
}
use gb_parano1d_permanode.Indexer.Frame.{keep_raw-SameIndex}
use gb_parano1d_permanode.Store.Pruning.{prune_block-SameIndex}
use gb_parano1d_permanode.Peers.Fill.{GapOutcome}
use gb_parano1d_permanode.Peers.Kept.{left_by, take_offer-SameIndex}
use gb_parano1d_permanode.System.{
  IsPast, World, Step, polls, ingests, rechecks, fills_gap, keeps_raw, sets_state,
  backfills_headers, imports_receipts, fills_gaps, takes_offer, fills_raw, takes_raw,
  imports_bodies, imports_raw, sees_tip, fills_seen, adopts_seen, fills_proof, adopts_proof, prunes,
  prunes_block, Reachable, fresh, after, IsTimelyStep, IsTimelyRun,
}
use gb_parano1d_permanode.System.Kept.{
  fill_from_peers-SameIndex, fill_raw_from_peers-SameIndex, import_bodies-SameIndex,
  import_raw-SameIndex, set_tip_seen-SameIndex, fill_seen_from_peers-SameIndex,
  fill_proof_from_peers-SameIndex, prune_older_than-SameIndex, take_raw-SameIndex,
  adopt_tip_seen-SameIndex, adopt_proof_class-SameIndex,
}

IsLogged-IsPast :
    (next m now : ℕ) (l : List StatusRow) → IsLogged next m l → IsPast now l → IsLogged next now l
IsLogged-IsPast next m now [] h p = tt
IsLogged-IsPast next m now (s ∷ l) (known, _, h) (past, p) =
    (known, past, IsLogged-IsPast next m now l h p)

-- Sound at some time.
abbrev pub SoundSometime : Database → Type 0
SoundSometime db = (now : ℕ) × IsSound (keys db) (log db) now

-- A sound database is sound at every time after its log.
IsSound-IsPast :
    (db : Database) (now : ℕ)
    → SoundSometime db
    → IsPast now (log db)
    → IsSound (keys db) (log db) now
IsSound-IsPast db now (m, sound) past = record {
  numbered = sound.numbered;
  timed = sound.timed;
  logged = IsLogged-IsPast (next_key (keys db)) m now (log db) sound.logged past;
}

-- A row that the log has nothing of.
latest_observed-new :
    (next m : ℕ) (l : List StatusRow) → IsLogged next m l → latest_observed l next ≡ 0
unfolding latest_observed
latest_observed-new next m [] h = refl
latest_observed-new next m (s ∷ l) (known, _, h) =
    let other : (s.block_id == next) ≡ false = ground arith in
    rw (latest_observed, other) (latest_observed-new next m l h)

-- A row of the header backfill, which may have the same time as the one before.
insert_header_only_block-IsSound :
    (db : Database) (h : BlockHeaderInfo) (now : ℕ) (db' : Database)
    → 0 < now
    → IsSound (keys db) (log db) (suc now)
    → insert_header_only_block db h now ≡ inserted db'
    → IsSound (keys db') (log db') (suc now)
unfolding insert_header_only_block
insert_header_only_block-IsSound db h now db' pos sound e =
    let next = next_id (λ (b : BlockRow). b.id) db.blocks in
    let row = header_row h false (some header_only_source) now next in
    let d = log_status next canonical now (record db { blocks = row ∷ db.blocks }) in
    let id : next ≡ next_key (keys db) = next-key_of db.blocks in
    let same_rows =
      any (λ (b : BlockRow). (b.height == h.height) && str_eq b.hash h.hash) db.blocks in
    let same_height = any (λ (b : BlockRow). b.height == h.height) db.blocks in
    elim (Bool-cases same_rows) [
      | inl held ↦ let e' : already ≡ inserted db' = rw held at e in cc
      | inr new ↦ elim (Bool-cases same_height) [
        | inl other ↦ let e' : conflict ≡ inserted db' = rw (new, other) at e in cc
        | inr free ↦
            let e' : inserted d ≡ inserted db' = rw (new, free) at e in
            let same : d ≡ db' = cc in
            subst (λ (x : Database). IsSound (keys x) (log x) (suc now)) same
              (record {
                numbered = (omega (arith, id), sound.numbered);
                timed = (
                  rw (id, latest_observed-new (next_key (keys db)) (suc now) (log db) sound.logged)
                      pos,
                  sound.timed,
                );
                logged = (
                  omega (arith, id),
                  omega arith,
                  IsLogged-weaken (next_key (keys db)) (suc now) _ _ (log db) (omega (arith, id))
                      (omega arith) sound.logged,
                );
              })
      ]
    ]

InsertOutcome-cases :
    (o : InsertOutcome) → (o ≡ already) ⊎ ((o ≡ conflict) ⊎ ((db : Database) × (o ≡ inserted db)))
InsertOutcome-cases already = inl refl
InsertOutcome-cases conflict = inr (inl refl)
InsertOutcome-cases (inserted db) = inr (inr (db, refl))

write_headers-IsSound :
    (db : Database) (batch : List BlockHeaderInfo) (now : ℕ) (db' : Database)
    → 0 < now
    → IsSound (keys db) (log db) (suc now)
    → write_headers db batch now ≡ ok db'
    → IsSound (keys db') (log db') (suc now)
unfolding write_headers
write_headers-IsSound db [] now db' pos sound e =
    let same : db ≡ db' = cc in
    subst (λ (x : Database). IsSound (keys x) (log x) (suc now)) same sound
write_headers-IsSound db (header ∷ batch) now db' pos sound e =
    elim (InsertOutcome-cases (insert_header_only_block db header now)) [
      | inl held ↦ write_headers-IsSound db batch now db' pos sound (rw (write_headers, held) at e)
      | inr (inl clash) ↦ let e' : err ≡ ok db' = rw (write_headers, clash) at e in cc
      | inr (inr (next, new)) ↦
          write_headers-IsSound next batch now db' pos
            (insert_header_only_block-IsSound db header now next pos sound new)
            (rw (write_headers, new) at e)
    ]

backfill_batch-IsSound :
    (rpc : RpcClient) (db : Database) (next : ℕ) (hash : String) (now : ℕ) (db' : Database)
    → 0 < now
    → IsSound (keys db) (log db) now
    → backfill_batch rpc db next hash now ≡ ok db'
    → SoundSometime db'
unfolding backfill_batch
backfill_batch-IsSound rpc db next hash now db' pos sound e =
    let low = next - (header_batch - 1) in
    let mark = if low == 0 then text "done" else number (low - 1) in
    let finish = λ (d : Database). ok (set_state d header_backfill_key mark) in
    let write = λ (batch : List BlockHeaderInfo). write_headers db batch now >>= finish in
    let (batch, linked, e1) =
      bind-eq (collect_headers rpc (next - low + 1) next hash) write db' e in
    let (written, done, e2) = bind-eq (write_headers db batch now) finish db' e1 in
    let sound' =
      write_headers-IsSound db batch now written pos
        (IsSound-later db now (suc now) (omega arith) sound) done in
    let same : set_state written header_backfill_key mark ≡ db' = cc in
    subst SoundSometime same (
      suc now,
      IsSound-SameIndex written (set_state written header_backfill_key mark) (suc now)
          (set_state-SameIndex written header_backfill_key mark) sound',
    )

IsSound-kept : (db db' : Database) → SameIndex db db' → SoundSometime db → SoundSometime db'
IsSound-kept db db' same (now, sound) = (now, IsSound-SameIndex db db' now same sound)

module _ (w : World) where
  Step-IsSound :
      (db db' : Database) (step : Step w db db')
      → IsTimelyStep w db db' step
      → SoundSometime db
      → SoundSometime db'
  Step-IsSound db _ (polls rpc recheck_rpc gaps_rpc raw_rpc now) (pos, past) sound =
      let (end, later, sound') =
        poll_once-IsSound w.env w.cfg rpc recheck_rpc gaps_rpc raw_rpc now db pos
          (IsSound-IsPast db now sound past) in
      (end, sound')
  Step-IsSound db _ (ingests rpc height now db' e) (pos, past) sound = (
    suc now,
    ingest_height-Sound w.env w.cfg rpc db height now db' pos (IsSound-IsPast db now sound past) e,
  )
  Step-IsSound db _ (rechecks rpc height now db' e) (pos, past) sound = (
    now + 2,
    recheck_height-Sound w.env w.cfg rpc db height now db' pos (IsSound-IsPast db now sound past) e,
  )
  Step-IsSound db _ (backfills_headers rpc next hash now db' e) (pos, past) sound =
      backfill_batch-IsSound rpc db next hash now db' pos (IsSound-IsPast db now sound past) e
  Step-IsSound db _ (fills_gap rpc height now) timely sound =
      IsSound-kept db _ (backfill_gap-SameIndex w.env w.cfg rpc db height now) sound
  Step-IsSound db _ (keeps_raw height hash raw source now) timely sound =
      IsSound-kept db _ (keep_raw-SameIndex w.env w.cfg db height hash raw source now) sound
  Step-IsSound db _ (sets_state key value) timely sound =
      IsSound-kept db _ (set_state-SameIndex db key value) sound
  Step-IsSound db _ (imports_receipts verify entries now) timely sound =
      let (kept, report) = import_receipts-SameHistory verify w.format db [] entries now in
      IsSound-kept db _ kept.index sound
  Step-IsSound db _ (fills_gaps net peers max keep_raw now) timely sound =
      IsSound-kept db _ (fill_from_peers-SameIndex w.env w.tree net db peers max keep_raw now) sound
  Step-IsSound db _ (takes_offer settings height hash id root answer now db' e) timely sound =
      let kept = take_offer-SameIndex w.env w.tree settings db height hash id root answer now in
      IsSound-kept db db'
        (subst (λ (o : GapOutcome). SameIndex db (left_by w.env w.tree settings db o)) e kept) sound
  Step-IsSound db _ (fills_raw net peers below max now) timely sound =
      IsSound-kept db _ (fill_raw_from_peers-SameIndex w.env net db peers below max now) sound
  Step-IsSound db _ (takes_raw source height hash answer now db' kept e) timely sound =
      IsSound-kept db db' (take_raw-SameIndex w.env source db height hash answer now db' kept e)
        sound
  Step-IsSound db _ (imports_bodies source has_raw name keep_raw now) timely sound =
      IsSound-kept db _ (import_bodies-SameIndex w.env source has_raw w.tree db name keep_raw now)
        sound
  Step-IsSound db _ (imports_raw source has_raw now) timely sound =
      IsSound-kept db _ (import_raw-SameIndex w.env source has_raw db now) sound
  Step-IsSound db _ (sees_tip height hash at_ms) timely sound =
      IsSound-kept db _ (set_tip_seen-SameIndex db height hash at_ms) sound
  Step-IsSound db _ (fills_seen net peers) timely sound =
      IsSound-kept db _ (fill_seen_from_peers-SameIndex net db peers) sound
  Step-IsSound db _ (adopts_seen height hash at_ms) timely sound =
      IsSound-kept db _ (adopt_tip_seen-SameIndex db height hash at_ms) sound
  Step-IsSound db _ (fills_proof net peers from) timely sound =
      IsSound-kept db _ (fill_proof_from_peers-SameIndex net db peers from) sound
  Step-IsSound db _ (adopts_proof height hash class) timely sound =
      IsSound-kept db _ (adopt_proof_class-SameIndex db height hash class) sound
  Step-IsSound db _ (prunes cutoff) timely sound =
      IsSound-kept db _ (prune_older_than-SameIndex db cutoff) sound
  Step-IsSound db _ (prunes_block id) timely sound =
      IsSound-kept db _ (prune_block-SameIndex db id) sound

  -- Every database that the operations, and the calls they are made of, lead to from a fresh one,
  -- in any order and whatever the node, the peers and the files say, is sound at some time, where
  -- the clock of each step that writes statuses reads a positive time later than the whole status
  -- log: the rows are numbered in order, and the log is about rows that exist, in the order of
  -- time.
  pub Reachable-IsSound :
      (db : Database) (run : Reachable w db) → IsTimelyRun w db run → SoundSometime db
  Reachable-IsSound _ fresh timely = (0, record { numbered = tt; timed = tt; logged = tt })
  Reachable-IsSound _ (after db db' run step) (before, now) =
      Step-IsSound db db' step now (Reachable-IsSound db run before)
