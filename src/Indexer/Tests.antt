-- ===== src/Indexer/Tests.antt =====
-- permanode/src/indexer.rs: the theorems at a node whose blocks replace the one on record.
use gb_parano1d_permanode.Prelude.{
  ℕ, suc, ◌≤◌, ◌<◌, ◌≡◌, refl, sym, ap, arith, true, false, none, some, ◌==◌, if◌then◌else◌,
}
use gb_parano1d_permanode.Prelude.Result.{ok}
use gb_parano1d_permanode.Store.Rows.{Database}
use gb_parano1d_permanode.Store.Blocks.{
  canonical_hash_at, is_header_only, block_by_id, latest_observed, insert_block_header_row,
}
use gb_parano1d_permanode.Store.Index.{keys, log}
use gb_parano1d_permanode.Store.Headers.{IsSound, IsRecorded, insert_block_header_row-canonical}
use gb_parano1d_permanode.Indexer.Node.{BlockDetailsInfo}
use gb_parano1d_permanode.Indexer.Record.{ingest_height, ingest_note, recheck_height}
use gb_parano1d_permanode.Indexer.Poll.{
  ingest_loop, poll_once, last_processed, first_start_height, probe_start,
}
use gb_parano1d_permanode.Indexer.Body.{resolve_body}
use gb_parano1d_permanode.Indexer.Stored.{IsHandled, ingest_height-IsHandled}
use gb_parano1d_permanode.Indexer.Reorg.{recheck_height-replaced}
use gb_parano1d_permanode.Indexer.Coverage.{Covers, ingest_loop-Covers}
use gb_parano1d_permanode.Indexer.Cycle.{poll_once-IsSound}
use gb_parano1d_permanode.Indexer.Final.{AnswersHeights, poll_once-settled}
use gb_parano1d_permanode.Store.Gaps.{get_state}
use gb_parano1d_permanode.Prelude.{List, [], ◌∷◌}
use gb_parano1d_permanode.Indexer.Headers.{collect_headers}
use gb_parano1d_permanode.Indexer.Linked.{IsLinked, IsWhole, collect_headers-IsLinked}
use gb_parano1d_permanode.Store.Blocks.{BlockHeaderInfo}
use gb_parano1d_permanode.Samples.{
  sample_header, sample_database, sample_env, sample_config, sample_details, sample_node,
}

sample-IsSound : (now : ℕ) → 1 < now → IsSound (keys sample_database) (log sample_database) now
unfolding latest_observed
sample-IsSound now after = record {
  numbered = (omega arith, tt);
  timed = (omega arith, tt);
  logged = (omega arith, omega arith, tt);
}

sample_current : canonical_hash_at sample_database 5 ≡ some (1, "a")
unfolding canonical_hash_at latest_observed block_by_id
sample_current = refl

sample_archived : is_header_only sample_database 1 ≡ false
unfolding is_header_only block_by_id
sample_archived = refl

insert_block_header_row-canonical_example :
    (id : ℕ) × (db' : Database) × (insert_block_header_row sample_database
        (sample_header "b" 6)
        true
        none
        2
      ≡ some (id, db'))
    × IsRecorded sample_database (sample_header "b" 6) 2 id db'
insert_block_header_row-canonical_example =
    insert_block_header_row-canonical sample_database (sample_header "b" 6) true none 2
      (omega arith) (sample-IsSound 2 (omega arith))

ingest_height-IsHandled_example :
    (db' : Database) × (ingest_height sample_env sample_node sample_config sample_database 6 2
      ≡ ok (some db'))
    × (id : ℕ) × IsRecorded sample_database (sample_header "b" 6) 2 id db'
    × IsHandled sample_database
        (resolve_body sample_env.chain sample_node sample_config
          (sample_details 6)
          (ingest_note sample_env))
        id
        db'
ingest_height-IsHandled_example =
    ingest_height-IsHandled sample_env sample_node sample_config sample_database 6 2
      (sample_details 6) (omega arith) (sample-IsSound 2 (omega arith)) refl

recheck_height-replaced_example :
    (db' : Database) × (recheck_height sample_env sample_node sample_config sample_database 5 2
      ≡ ok db')
    × (id : ℕ) × ((other : ℕ)
        → canonical_hash_at db' other
          ≡ (if other == 5 then some (id, "b") else canonical_hash_at sample_database other))
    × IsSound (keys db') (log db') (suc (suc 2))
recheck_height-replaced_example =
    recheck_height-replaced sample_env sample_node sample_config sample_database 5 2 1 "a"
      (sample_header "b" 5) (sample_details 5) (omega arith) (sample-IsSound 2 (omega arith)) refl
      sample_current refl sample_archived refl refl

ingest_loop-Covers_example :
    ((ingest_loop sample_env sample_config sample_node 2 6 2 sample_database).finished ≡ true)
    × Covers sample_env sample_config sample_node 2 6 2 sample_database
        (ingest_loop sample_env sample_config sample_node 2 6 2 sample_database).db
ingest_loop-Covers_example =
    ingest_loop-Covers sample_env sample_config sample_node 2 6 2 sample_database (omega arith)
      (sample-IsSound 2 (omega arith))
      ((sample_details 6, refl, refl), ((sample_details 7, refl, refl), tt))

poll_once-IsSound_example :
    (end : ℕ) × (2 ≤ end)
    × IsSound
        (keys
          (poll_once sample_env sample_config sample_node sample_node sample_node sample_node 2
            sample_database).db)
        (log
          (poll_once sample_env sample_config sample_node sample_node sample_node sample_node 2
            sample_database).db)
        end
poll_once-IsSound_example =
    poll_once-IsSound sample_env sample_config sample_node sample_node sample_node sample_node 2
      sample_database (omega arith) (sample-IsSound 2 (omega arith))

abbrev three_headers : List BlockHeaderInfo
three_headers = sample_header "b" 6 ∷ sample_header "b" 5 ∷ sample_header "b" 4 ∷ []

three_collected : collect_headers sample_node 3 6 "b" ≡ ok three_headers
unfolding collect_headers
three_collected = refl

collect_headers-IsLinked_example :
    IsLinked 6 "b" three_headers × IsWhole sample_node 3 6 three_headers
collect_headers-IsLinked_example =
    collect_headers-IsLinked sample_node 3 6 "b" three_headers (omega arith) three_collected

sample_node-AnswersHeights : AnswersHeights sample_node
sample_node-AnswersHeights height details e =
    let same : sample_details height ≡ details = cc in
    ap (λ (d : BlockDetailsInfo). d.header.height) (sym same)

-- A node that answers each height, and a cycle that re-checks the tip alone.
poll_once-settled_example :
    canonical_hash_at
      (poll_once sample_env
        (record sample_config { reorg_check_depth = 0 })
        sample_node
        sample_node
        sample_node
        sample_node
        2
        sample_database).db
      5
    ≡ canonical_hash_at sample_database 5
unfolding last_processed first_start_height probe_start get_state
poll_once-settled_example =
    poll_once-settled sample_env (record sample_config { reorg_check_depth = 0 }) sample_node
      sample_node sample_node sample_node 2 sample_database 6 5 sample_node-AnswersHeights
      sample_node-AnswersHeights (omega arith) (sample-IsSound 2 (omega arith)) refl (omega arith)
      (omega arith)
