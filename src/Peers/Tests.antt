-- ===== src/Peers/Tests.antt =====
-- Bodies, gaps and sightings from other permanodes on small inputs.
use gb_parano1d_permanode.Prelude.{
  ℕ, zero, suc, ◌+◌, ◌≤◌, ◌≡◌, refl, true, false, Option, none, some, String, List, [], ◌∷◌, length,
}
use gb_parano1d_permanode.Prelude.Result.{Result, ok, err}
use gb_parano1d_permanode.Store.Rows.{BlockRow, Database}
use gb_parano1d_permanode.Store.Blocks.{
  header_row, block_by_id, canonical_hash_at, uncaptured_block_id, mark_body_recovered,
}
use gb_parano1d_permanode.Store.Gaps.{open_gap_heights, resolve_gap}
use gb_parano1d_permanode.Store.Bodies.{
  BlockTransactionInfo, RetainedBlockInfo, insert_transactions,
}
use gb_parano1d_permanode.Store.Frame.{SameIndex}
use gb_parano1d_permanode.Samples.{sample_header, sample_database, sample_env}
use gb_parano1d_permanode.Peers.Check.{TxTree, check_body}
use gb_parano1d_permanode.Peers.Whole.{IsWhole, check_body-IsWhole}
use gb_parano1d_permanode.Peers.Fill.{Offer, body, FillSettings, fill_gap, fill_gaps}
use gb_parano1d_permanode.Peers.Kept.{fill_gaps-SameIndex, fill_gaps-counts}
use gb_parano1d_permanode.Peers.Filled.{Filled, fill_gap-Filled}
use gb_parano1d_permanode.Peers.Ask.{PeerAnswer, unreachable, ask_peers}
use gb_parano1d_permanode.Peers.Sightings.{
  rows, SightingPeers, fill_seen_from_peers, fill_proof_from_peers,
}
use gb_parano1d_permanode.Peers.Own.{
  fill_seen_from_peers-keeps_own, fill_proof_from_peers-keeps_own,
}

abbrev zeros : ℕ → List ℕ
zeros zero = []
zeros (suc n) = 0 ∷ zeros n

abbrev sample_tree : TxTree
sample_tree = record {
  decode_hex = λ txid. some (zeros 32);
  root_from_hashes = λ ids. "r";
  decimal = λ n. elim n [ zero ↦ "0" | suc m ↦ "50" ];
}

-- A coinbase that pays 50.
abbrev coinbase : BlockTransactionInfo
coinbase = record {
  position = 0;
  txid = "c";
  page_count = 1;
  live_inputs = 0;
  live_outputs = 1;
  fee_micronoid = 0;
  coinbase = true;
  development_payout = false;
  epoch_anchor = "e";
  input_owner = none;
  input_sum_micronoid = "0";
  output_sum_micronoid = "50";
  page_hashes = "c" ∷ [];
  inputs = [];
  outputs =
      (record {
        page = 0;
        lane = 0;
        slot_index = 7;
        amount_micronoid = 50;
        owner = "o";
        creation_id = 1;
      })
      ∷ [];
}

abbrev sample_body : RetainedBlockInfo
sample_body = record {
  proof_class = "B25 / m22";
  logical_transactions = 1;
  user_pages = 0;
  live_inputs = 0;
  live_outputs = 1;
  reward_micronoid = 50;
  total_fees_micronoid = "0";
  block_bytes = 0;
  transactions = coinbase ∷ [];
}

check_body-IsWhole_example : IsWhole sample_tree sample_body "r"
unfolding check_body
check_body-IsWhole_example = (check_body-IsWhole sample_tree sample_body "r").0 refl

two_coinbases :
    check_body sample_tree (record sample_body { transactions = coinbase ∷ coinbase ∷ [] }) "r"
    ≡ err
unfolding check_body
two_coinbases = refl

-- A block at height 5 without a body, and a peer that has it.
abbrev gap_database : Database
gap_database = record sample_database {
  blocks = (record (header_row (sample_header "a" 5) false none 1 1) { tx_root = "r" }) ∷ [];
  ingest_gaps =
      (record {
        height = 5;
        hash = some "a";
        detected_at = 1;
        note = "";
        resolved_at = none;
        resolution = none;
      })
      ∷ [];
}

abbrev sample_settings : FillSettings
sample_settings = record { body_source = "peer"; resolution = "recovered"; keep_raw = true }

abbrev sample_find : ℕ → ℕ → String → ℕ × Result (Option Offer)
sample_find n height hash = (suc n, ok (some (body sample_body)))

abbrev recovered : Database
recovered =
    resolve_gap (mark_body_recovered (insert_transactions gap_database 1 sample_body) 1 "peer") 5 9
      "recovered"

fill_gap-Filled_example :
    Filled sample_env sample_tree sample_settings sample_find gap_database 5 0 recovered
unfolding fill_gap canonical_hash_at uncaptured_block_id block_by_id
fill_gap-Filled_example =
    fill_gap-Filled sample_env sample_tree sample_settings sample_find gap_database 5 0 9 recovered
      refl

fill_gaps-SameIndex_example :
    SameIndex gap_database
      (fill_gaps sample_env sample_tree sample_settings sample_find gap_database 3 0 9).db
fill_gaps-SameIndex_example =
    fill_gaps-SameIndex sample_env sample_tree sample_settings sample_find gap_database 3 0 9

fill_gaps-counts_example :
    let report =
      (fill_gaps sample_env sample_tree sample_settings sample_find gap_database 3 0 9).report in
    (report.gaps ≡ length (open_gap_heights gap_database 0))
    × (report.imported + report.not_in_source + report.rejected ≤ report.gaps)
    × (report.imported + report.not_in_source + report.rejected ≤ 3)
fill_gaps-counts_example =
    fill_gaps-counts sample_env sample_tree sample_settings sample_find gap_database 3 0 9

-- A peer that is told of a block it did not see, and one that says another time.
abbrev seen_row : BlockRow
seen_row = record (header_row (sample_header "a" 5) true (some "details") 1 1) {
  tip_seen_at_ms = some 7;
}

abbrev seen_database : Database
seen_database = record sample_database {
  blocks = header_row (sample_header "z" 6) true (some "details") 1 2 ∷ seen_row ∷ [];
}

abbrev sample_sightings : SightingPeers
sample_sightings = record {
  seen_from = λ peer. some 1;
  seen = λ peer lo hi. rows ((5, "a", 8) ∷ (6, "z", 9) ∷ []);
  proof = λ peer heights. rows ((5, "a", "B25 / m22") ∷ []);
}

fill_seen_from_peers-keeps_own_example :
    block_by_id (fill_seen_from_peers sample_sightings seen_database ("p" ∷ [])).db 1
    ≡ some seen_row
unfolding block_by_id
fill_seen_from_peers-keeps_own_example =
    fill_seen_from_peers-keeps_own sample_sightings seen_database ("p" ∷ []) 1 seen_row 7 refl refl

taken_over : (fill_seen_from_peers sample_sightings seen_database ("p" ∷ [])).adopted ≡ 1
unfolding fill_seen_from_peers
taken_over = refl

fill_proof_from_peers-keeps_own_example :
    block_by_id (fill_proof_from_peers sample_sightings seen_database ("p" ∷ []) 1).db 1
    ≡ some seen_row
unfolding block_by_id
fill_proof_from_peers-keeps_own_example =
    fill_proof_from_peers-keeps_own sample_sightings seen_database ("p" ∷ []) 1 1 seen_row refl refl

-- A peer that does not answer is left out of the next round.
abbrev silent : String → PeerAnswer Offer
silent peer = unreachable

asked_once : ask_peers silent ("p" ∷ "p" ∷ []) [] ≡ ("p" ∷ [], ok none)
unfolding ask_peers
asked_once = refl
