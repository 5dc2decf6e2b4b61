-- ===== src/Indexer/Headers.antt =====
-- permanode/src/indexer.rs, `backfill_headers`: one batch of headers below the archive. `get_block_header`
-- is the answer after the retries of `fetch_header`; the waiting for the rate limit and for finality
-- is left out.
use gb_parano1d_permanode.Prelude.{
  ℕ, zero, suc, ◌+◌, ◌-◌, ◌&&◌, none, some, String, List, [], ◌∷◌, ◌==◌, str_eq, if◌then◌else◌,
}
use gb_parano1d_permanode.Prelude.Result.{Result, ok, err, ◌>>=◌, ◌>>◌, ensure}
use gb_parano1d_permanode.Store.Rows.{Database, number, text}
use gb_parano1d_permanode.Store.Blocks.{
  BlockHeaderInfo, inserted, already, conflict, insert_header_only_block,
}
use gb_parano1d_permanode.Store.Gaps.{set_state}
use gb_parano1d_permanode.Indexer.Node.{RpcClient}

abbrev pub header_batch : ℕ
header_batch = 200

abbrev pub header_backfill_key : String
header_backfill_key = "header_backfill_next"

-- The headers from `height` down, `rounds` of them, each the parent of the one before. Only genesis
-- may be missing.
unfoldable pub collect_headers : RpcClient → ℕ → ℕ → String → Result (List BlockHeaderInfo)
collect_headers rpc zero height expected_hash = ok []
collect_headers rpc (suc rounds) height expected_hash = rpc.get_block_header height >>= elim [
  | none ↦ if height == 0 then ok [] else err
  | some header ↦ do
    ensure (header.height == height && str_eq header.hash expected_hash)
    batch ← collect_headers rpc rounds (height - 1) header.prev_hash
    ok (header ∷ batch)
]

unfoldable pub write_headers : Database → List BlockHeaderInfo → ℕ → Result Database
unfolding insert_header_only_block
write_headers db [] now = ok db
write_headers db (header ∷ batch) now = elim (insert_header_only_block db header now) [
  | inserted db' ↦ write_headers db' batch now
  | already ↦ write_headers db batch now
  | conflict ↦ err
]

-- The batch that ends at `next`, and the progress entry that is committed with it.
unfoldable pub backfill_batch : RpcClient → Database → ℕ → String → ℕ → Result Database
unfolding collect_headers write_headers
backfill_batch rpc db next expected_hash now = do
  let low = next - (header_batch - 1)
  batch ← collect_headers rpc (next - low + 1) next expected_hash
  written ← write_headers db batch now
  ok (set_state written header_backfill_key (if low == 0 then text "done" else number (low - 1)))
