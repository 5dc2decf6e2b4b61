-- ===== src/System/Tests.antt =====
-- The operations together on a small run.
use gb_parano1d_permanode.Prelude.{arith, [], none, false}
use gb_parano1d_permanode.Store.Rows.{Database, empty_database}
use gb_parano1d_permanode.Store.Bodies.{prune_older_than}
use gb_parano1d_permanode.Indexer.Poll.{poll_once}
use gb_parano1d_permanode.System.{World, fresh, after, polls, prunes}
use gb_parano1d_permanode.System.Sound.{SoundSometime, Reachable-IsSound}
use gb_parano1d_permanode.Samples.{sample_env, sample_config, sample_node, sample_chain}

abbrev sample_world : World
sample_world = record {
  env = sample_env;
  cfg = sample_config;
  tree = record { decode_hex = λ txid. none; root_from_hashes = λ ids. "r"; decimal = λ n. "n" };
  format = record {
    chain = sample_chain;
    decode_hex = λ hex. none;
    from_bytes = λ bytes. none;
    to_bytes = λ receipt. [];
    verify_merkle_inclusion = λ receipt. false;
    intent_from_bytes = λ bytes. none;
    page_hash = λ page. page.page_txid;
    validate_paged_spend = λ pages. none;
  };
}

-- A first poll, and a pruning pass after it.
abbrev polled : Database
polled =
    (poll_once sample_env sample_config sample_node sample_node sample_node sample_node 1
      empty_database).db

Reachable-IsSound_example : SoundSometime (prune_older_than polled 100).0
Reachable-IsSound_example =
    Reachable-IsSound sample_world (prune_older_than polled 100).0
      (after polled (prune_older_than polled 100).0
        (after empty_database polled fresh
          (polls sample_node sample_node sample_node sample_node 1))
        (prunes 100))
      ((tt, (omega arith, tt)), tt)
