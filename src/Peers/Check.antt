-- ===== src/Peers/Check.antt =====
-- permanode/src/import.rs, `check_body`: a body that another permanode recorded, against the header
-- on record here. The hex decoder and the tree of the transaction ids are parameters; sums are those
-- of a release build, which wrap.
use gb_parano1d_permanode.Prelude.{
  ℕ, suc, ◌+◌, ◌%◌, ◌^◌, Bool, not, ◌&&◌, ◌||◌, Option, none, some, String, List, [], ◌∷◌, ◌==◌,
  leb, str_eq, length, retain, if◌then◌else◌,
}
use gb_parano1d_permanode.Prelude.Result.{Result, ok, err, ◌>>=◌, ◌>>◌, ensure, require}
use gb_parano1d_permanode.Store.Bodies.{
  BlockTransactionInputInfo, BlockTransactionOutputInfo, BlockTransactionInfo, RetainedBlockInfo,
}

-- `hex::decode`, `hex::encode(root_from_hashes(…))`, and `to_string` of a number.
pub record TxTree : Type 0 where
  pub decode_hex : String → Option (List ℕ)
  pub root_from_hashes : List (List ℕ) → String
  pub decimal : ℕ → String

-- `map(…).sum::<u64>()` and `sum::<u32>()`.
abbrev pub sum_u64 {ℓ} : {A : Type ℓ} → (A → ℕ) → List A → ℕ
sum_u64 f [] = 0
sum_u64 f (x ∷ xs) = (f x + sum_u64 f xs) % 2 ^ 64

abbrev pub sum_u32 {ℓ} : {A : Type ℓ} → (A → ℕ) → List A → ℕ
sum_u32 f [] = 0
sum_u32 f (x ∷ xs) = (f x + sum_u32 f xs) % 2 ^ 32

abbrev pub is_user : BlockTransactionInfo → Bool
is_user t = not t.coinbase && not t.development_payout

abbrev pub input_total : BlockTransactionInfo → ℕ
input_total t = sum_u64 (λ (i : BlockTransactionInputInfo). i.amount_micronoid) t.inputs

abbrev pub output_total : BlockTransactionInfo → ℕ
output_total t = sum_u64 (λ (o : BlockTransactionOutputInfo). o.amount_micronoid) t.outputs

-- What a user's transaction has besides: its inputs pay for its outputs and its fee.
abbrev pub balances : BlockTransactionInfo → Bool
balances t = not (is_user t) || (input_total t == (output_total t + t.fee_micronoid) % 2 ^ 64)

-- `try_into` of a vector to `[u8; 32]`.
abbrev pub to_32 : List ℕ → Option (List ℕ)
to_32 bytes = if length bytes == 32 then some bytes else none

-- The fees of the transactions that are not marked as coinbase.
abbrev pub fee_total : List BlockTransactionInfo → ℕ
fee_total txs =
    sum_u64 (λ (t : BlockTransactionInfo). t.fee_micronoid) (retain (λ t. not t.coinbase) txs)

abbrev pub totals_match : RetainedBlockInfo → Bool
totals_match body =
    let txs = body.transactions in
    (body.logical_transactions == length txs)
    && (body.live_inputs == sum_u32 (λ (t : BlockTransactionInfo). t.live_inputs) txs)
    && (body.live_outputs == sum_u32 (λ (t : BlockTransactionInfo). t.live_outputs) txs)
    && (body.user_pages
        == sum_u32 (λ (t : BlockTransactionInfo). t.page_count) (retain is_user txs))

module _ (tree : TxTree) where
  abbrev pub txid_bytes : String → Option (List ℕ)
  txid_bytes txid = elim (tree.decode_hex txid) [ none ↦ none | some bytes ↦ to_32 bytes ]

  -- The body of the loop: the id of the transaction at position `i`.
  unfoldable pub check_transaction : ℕ → BlockTransactionInfo → Result (List ℕ)
  check_transaction i t = do
    ensure (t.position == i)
    id ← require (txid_bytes t.txid)
    ensure (length t.page_hashes == t.page_count)
    ensure ((t.live_inputs == length t.inputs) && (t.live_outputs == length t.outputs))
    ensure (str_eq (tree.decimal (output_total t)) t.output_sum_micronoid)
    ensure (str_eq (tree.decimal (input_total t)) t.input_sum_micronoid)
    ensure (balances t)
    ok id

  -- The loop, from position `i` on.
  unfoldable pub check_transactions : ℕ → List BlockTransactionInfo → Result (List (List ℕ))
  unfolding check_transaction
  check_transactions i [] = ok []
  check_transactions i (t ∷ txs) = do
    id ← check_transaction i t
    ids ← check_transactions (suc i) txs
    ok (id ∷ ids)

  -- The checks of a block whose first transaction is `coinbase`.
  unfoldable pub check_block : RetainedBlockInfo → String → BlockTransactionInfo → Result (Unit {0})
  unfolding check_transactions
  check_block body tx_root coinbase = do
    ensure (leb (length body.transactions) 256)
    ensure coinbase.coinbase
    ids ← check_transactions 0 body.transactions
    ensure (str_eq (tree.root_from_hashes ids) tx_root)
    ensure (str_eq (tree.decimal (fee_total body.transactions)) body.total_fees_micronoid)
    ensure (output_total coinbase == body.reward_micronoid)
    ensure (totals_match body)

  unfoldable pub check_body : RetainedBlockInfo → String → Result (Unit {0})
  unfolding check_block
  check_body body tx_root = elim body.transactions [
    | [] ↦ err
    | coinbase ∷ txs ↦ check_block body tx_root coinbase
  ]
