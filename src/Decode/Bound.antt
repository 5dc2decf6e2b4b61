-- ===== src/Decode/Bound.antt =====
-- permanode/src/decode.rs, `decode_bound_block`: the bytes against the block on record.
use gb_parano1d_permanode.Prelude.{
  ℕ, Bool, true, false, ◌&&◌, String, List, [], ◌∷◌, ◌==◌, str_eq, if◌then◌else◌,
}
use gb_parano1d_permanode.Prelude.Result.{Result, ok, ◌>>=◌, ◌>>◌, ensure, require}
use gb_parano1d_permanode.Decode.Chain.{Chain, Block, Page}

abbrev pub bytes_eq : List ℕ → List ℕ → Bool
bytes_eq [] [] = true
bytes_eq [] (y ∷ ys) = false
bytes_eq (x ∷ xs) [] = false
bytes_eq (x ∷ xs) (y ∷ ys) = x == y && bytes_eq xs ys

abbrev pub is_empty : List Page → Bool
is_empty [] = true
is_empty (p ∷ ps) = false

-- The check of the pages against the header, made where there are pages.
unfoldable pub check_tx_root : Chain → Block → Result (Unit {0})
check_tx_root chain block = if is_empty block.transactions then ok tt else (do
  root ← require (chain.compute_tx_root block.transactions)
  ensure (str_eq root block.tx_root))

unfoldable pub decode_bound_block : Chain → List ℕ → ℕ → String → Result Block
unfolding check_tx_root
decode_bound_block chain bytes expected_height expected_hash = do
  block ← require (chain.from_bytes bytes)
  ensure (block.height == expected_height)
  ensure (str_eq block.block_id expected_hash)
  check_tx_root chain block
  ensure (bytes_eq (chain.to_bytes block) bytes)
  ok block
