-- ===== src/Peers/Ask.antt =====
-- permanode/src/import.rs, `fill_from_peers`, `fill_raw_from_peers` and `import_bodies`: who is asked
-- for a block. The answers of the peers over HTTP are a parameter.
use gb_parano1d_permanode.Prelude.{
  ℕ, ◌-◌, min, Bool, true, Option, none, some, String, List, [], ◌∷◌, ◌++◌, ltb, str_eq, any,
  if◌then◌else◌,
}
use gb_parano1d_permanode.Prelude.Result.{Result, ok, err}
use gb_parano1d_permanode.Store.Rows.{Database}
use gb_parano1d_permanode.Store.Bodies.{RetainedBlockInfo}
use gb_parano1d_permanode.Raw.Archive.{blocks_missing_raw}
use gb_parano1d_permanode.Indexer.Record.{Env}
use gb_parano1d_permanode.Peers.Check.{TxTree}
use gb_parano1d_permanode.Peers.Fill.{
  Offer, raw, body, Run, RawReport, ImportReport, FillSettings, fill_gaps,
}
use gb_parano1d_permanode.Peers.FillRaw.{fill_raw}

-- `Result<Option<T>, PeerError>`
pub data PeerAnswer {ℓ} (T : Type ℓ) : Type ℓ where
  offered : T → PeerAnswer T
  not_there unreachable bad : PeerAnswer T

-- What a peer says at its paths: the lowest height it has raw bytes for (`err` if it cannot be
-- asked), and the raw bytes and the body of a block.
pub record Peers : Type 0 where
  pub raw_from : String → Result (Option ℕ)
  pub fetch_raw : String → ℕ → String → PeerAnswer (List ℕ)
  pub fetch_body : String → ℕ → String → PeerAnswer RetainedBlockInfo

abbrev pub to_offer : PeerAnswer RetainedBlockInfo → PeerAnswer Offer
to_offer (offered b) = offered (body b)
to_offer not_there = not_there
to_offer unreachable = unreachable
to_offer bad = bad

unfoldable pub fetch_peer_offer : Peers → String → ℕ → String → PeerAnswer Offer
fetch_peer_offer peers peer height hash = elim (peers.fetch_raw peer height hash) [
  | offered bytes ↦ offered (raw bytes)
  | not_there ↦ to_offer (peers.fetch_body peer height hash)
  | unreachable ↦ unreachable
  | bad ↦ bad
]

-- The loop over the peers for one block; the state is the list of the peers that did not answer.
unfoldable pub ask_peers {ℓ} :
    {T : Type ℓ}
    → (String → PeerAnswer T)
    → List String
    → List String
    → List String × Result (Option T)
ask_peers fetch [] failed = (failed, ok none)
ask_peers fetch (peer ∷ peers) failed =
    let next = ask_peers fetch peers failed in
    let without = ask_peers fetch peers (failed ++ (peer ∷ [])) in
    if any (str_eq peer) failed then next else elim (fetch peer) [
      | offered value ↦ (failed, ok (some value))
      | not_there ↦ next
      | unreachable ↦ without
      | bad ↦ (failed, err)
    ]

abbrev pub report_unreachable : Run (List String) ImportReport → Run (List String) ImportReport
report_unreachable run = record run { report = record run.report { unreachable = run.asked } }

unfoldable pub fill_from_peers :
    Env → TxTree → Peers → Database → List String → ℕ → Bool → ℕ → Run (List String) ImportReport
unfolding fill_gaps ask_peers fetch_peer_offer
fill_from_peers env tree net db peers max keep_raw now =
    let settings : FillSettings = record {
      body_source = "peer";
      resolution = "recovered from a peer permanode";
      keep_raw = keep_raw;
    } in
    let find = λ (failed : List String) (height : ℕ) (hash : String).
      ask_peers (λ peer. fetch_peer_offer net peer height hash) peers failed in
    report_unreachable (fill_gaps env tree settings find db max [] now)

-- The lowest height that a peer has raw bytes for, and the peers that could not be asked.
unfoldable pub lowest_raw : Peers → List String → List String → Option ℕ → List String × Option ℕ
lowest_raw net [] failed from = (failed, from)
lowest_raw net (peer ∷ peers) failed from = elim (net.raw_from peer) [
  | err ↦ lowest_raw net peers (failed ++ (peer ∷ [])) from
  | ok none ↦ lowest_raw net peers failed from
  | ok (some h) ↦ elim from [
    | none ↦ lowest_raw net peers failed (some h)
    | some f ↦ lowest_raw net peers failed (some (min f h))
  ]
]

unfoldable pub fill_raw_from_peers :
    Env → Peers → Database → List String → ℕ → ℕ → ℕ → Run (List String) RawReport
unfolding lowest_raw fill_raw ask_peers blocks_missing_raw
fill_raw_from_peers env net db peers below max now =
    let (failed, from) = lowest_raw net peers [] none in
    let nothing : Run (List String) RawReport = record {
      db = db;
      report = record {
        missing = 0;
        kept = 0;
        not_in_source = 0;
        rejected = 0;
        unreachable = failed;
      };
      asked = failed;
      completed = true;
    } in
    elim from [
      | none ↦ nothing
      | some f ↦
          if ltb f below
          then (let find = λ (out : List String) (height : ℕ) (hash : String).
                ask_peers (λ peer. net.fetch_raw peer height hash) peers out in
              let run =
                fill_raw env "peer" find db (blocks_missing_raw db f (below - 1) max) failed now in
              record run { report = record run.report { unreachable = run.asked } })
          else nothing
    ]
