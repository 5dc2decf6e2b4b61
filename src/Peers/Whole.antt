-- ===== src/Peers/Whole.antt =====
-- permanode/src/import.rs, `check_body`: the bodies that pass, described by themselves.
use gb_parano1d_permanode.Prelude.{
  ℕ, suc, ◌+◌, ◌%◌, ◌^◌, ◌≤◌, ◌≡◌, ◌↔◌, refl, sym, ap, subst, ◌∙◌, Bool, true, false, not, ◌&&◌,
  none, some, String, List, [], ◌∷◌, ◌==◌, leb, str_eq, eq_iff, length, retain, arith, Bool-cases,
  Option-cases, List-cases, inl, inr, eq→==, leb→le, le→leb,
}
use gb_parano1d_permanode.Prelude.Result.{ok, err, ensure, bind-eq, require-eq, ensure-eq}
use gb_parano1d_permanode.Prelude.Equations.{and-eq, eq-of_==, eq-of_str_eq}
use gb_parano1d_permanode.Store.Bodies.{
  BlockTransactionInputInfo, BlockTransactionOutputInfo, BlockTransactionInfo, RetainedBlockInfo,
}
use gb_parano1d_permanode.Peers.Check.{
  TxTree, sum_u64, sum_u32, is_user, input_total, output_total, balances, to_32, fee_total,
  txid_bytes, check_transaction, check_transactions, totals_match, check_block, check_body,
}

-- The sum without a bound.
abbrev pub sum_of {ℓ} : {A : Type ℓ} → (A → ℕ) → List A → ℕ
sum_of f [] = 0
sum_of f (x ∷ xs) = f x + sum_of f xs

sum_u64-sum_of {ℓ} : {A : Type ℓ} (f : A → ℕ) (xs : List A) → sum_u64 f xs ≡ sum_of f xs % 2 ^ 64
sum_u64-sum_of f [] = omega arith
sum_u64-sum_of f (x ∷ xs) = omega (arith, sum_u64-sum_of f xs)

sum_u32-sum_of {ℓ} : {A : Type ℓ} (f : A → ℕ) (xs : List A) → sum_u32 f xs ≡ sum_of f xs % 2 ^ 32
sum_u32-sum_of f [] = omega arith
sum_u32-sum_of f (x ∷ xs) = omega (arith, sum_u32-sum_of f xs)

abbrev pub amounts_in : BlockTransactionInfo → ℕ
amounts_in t = sum_of (λ (i : BlockTransactionInputInfo). i.amount_micronoid) t.inputs

abbrev pub amounts_out : BlockTransactionInfo → ℕ
amounts_out t = sum_of (λ (o : BlockTransactionOutputInfo). o.amount_micronoid) t.outputs

in_total : (t : BlockTransactionInfo) → input_total t ≡ amounts_in t % 2 ^ 64
in_total t = sum_u64-sum_of _ t.inputs

out_total : (t : BlockTransactionInfo) → output_total t ≡ amounts_out t % 2 ^ 64
out_total t = sum_u64-sum_of _ t.outputs

-- What `balances` says of a user's transaction.
abbrev Balance : BlockTransactionInfo → Type 0
Balance t =
    t.coinbase ≡ false
    → t.development_payout ≡ false
    → amounts_in t % 2 ^ 64 ≡ (amounts_out t + t.fee_micronoid) % 2 ^ 64

balanced : (t : BlockTransactionInfo) → balances t ≡ true → Balance t
balanced t e user payout =
    let e' : (input_total t == (output_total t + t.fee_micronoid) % 2 ^ 64) ≡ true =
      rw (user, payout) at e in
    omega (arith, eq-of_== _ _ e', in_total t, out_total t)

ensured : (test : Bool) → ensure test ≡ ok tt → test ≡ true
ensured true e = refl
ensured false e = cc

str_eq-eq : (a b : String) → a ≡ b → str_eq a b ≡ true
str_eq-eq a b e = (eq_iff a b).1 e

Balance-balances : (t : BlockTransactionInfo) → Balance t → balances t ≡ true
Balance-balances t b = elim (Bool-cases t.coinbase) [
  | inl minted ↦ rw minted refl
  | inr other ↦ elim (Bool-cases t.development_payout) [
    | inl payout ↦ rw (other, payout) refl
    | inr user ↦
        let e : (input_total t == (output_total t + t.fee_micronoid) % 2 ^ 64) ≡ true =
          eq→== _ _ (omega (arith, b other user, in_total t, out_total t)) in
        rw (other, user) e
  ]
]

module _ (tree : TxTree) where
  -- A transaction that is consistent at position `i`, with the 32 bytes of its id.
  pub record IsConsistent (i : ℕ) (t : BlockTransactionInfo) (id : List ℕ) : Type 0 where
    pub position : t.position ≡ i
    pub hex : tree.decode_hex t.txid ≡ some id
    pub size : length id ≡ 32
    pub pages : length t.page_hashes ≡ t.page_count
    pub input_count : t.live_inputs ≡ length t.inputs
    pub output_count : t.live_outputs ≡ length t.outputs
    pub output_sum : tree.decimal (amounts_out t % 2 ^ 64) ≡ t.output_sum_micronoid
    pub input_sum : tree.decimal (amounts_in t % 2 ^ 64) ≡ t.input_sum_micronoid
    pub balance :
        t.coinbase ≡ false
        → t.development_payout ≡ false
        → amounts_in t % 2 ^ 64 ≡ (amounts_out t + t.fee_micronoid) % 2 ^ 64

  pub data AllConsistent : ℕ → List BlockTransactionInfo → List (List ℕ) → Type 0 where
    none_left : {i : ℕ} → AllConsistent i [] []
    and_next :
        {i : ℕ} {t : BlockTransactionInfo} {txs : List BlockTransactionInfo} {id : List ℕ}
        {ids : List (List ℕ)}
        → IsConsistent i t id
        → AllConsistent (suc i) txs ids
        → AllConsistent i (t ∷ txs) (id ∷ ids)

  -- A body that is whole: its ids rebuild the root, and all sums and counts are right.
  pub record IsWhole (body : RetainedBlockInfo) (tx_root : String) : Type 0 where
    pub first : BlockTransactionInfo
    pub others : List BlockTransactionInfo
    pub transactions : body.transactions ≡ first ∷ others
    pub few : length body.transactions ≤ 256
    pub coinbase : first.coinbase ≡ true
    pub ids : List (List ℕ)
    pub consistent : AllConsistent 0 body.transactions ids
    pub root : tree.root_from_hashes ids ≡ tx_root
    pub fees :
        tree.decimal (
          sum_of
            (λ (t : BlockTransactionInfo). t.fee_micronoid)
            (retain (λ t. not t.coinbase) body.transactions)
          % 2 ^ 64)
        ≡ body.total_fees_micronoid
    pub reward : amounts_out first % 2 ^ 64 ≡ body.reward_micronoid
    pub count : body.logical_transactions ≡ length body.transactions
    pub inputs :
        body.live_inputs
        ≡ sum_of (λ (t : BlockTransactionInfo). t.live_inputs) body.transactions % 2 ^ 32
    pub outputs :
        body.live_outputs
        ≡ sum_of (λ (t : BlockTransactionInfo). t.live_outputs) body.transactions % 2 ^ 32
    pub pages :
        body.user_pages
        ≡ sum_of (λ (t : BlockTransactionInfo). t.page_count) (retain is_user body.transactions)
          % 2 ^ 32

  to_32-eq : (bytes id : List ℕ) → to_32 bytes ≡ some id → (bytes ≡ id) × (length id ≡ 32)
  to_32-eq bytes id e = elim (Bool-cases (length bytes == 32)) [
    | inr other ↦ let e' : none ≡ some id = rw other at e in cc
    | inl fits ↦
        let e' : some bytes ≡ some id = rw fits at e in
        let same : bytes ≡ id = cc in
        (same, subst (λ (l : List ℕ). length l ≡ 32) same (ground arith))
  ]

  txid_bytes-eq :
      (txid : String) (id : List ℕ)
      → txid_bytes tree txid ≡ some id
      → (tree.decode_hex txid ≡ some id) × (length id ≡ 32)
  txid_bytes-eq txid id e = elim (Option-cases (tree.decode_hex txid)) [
    | inl bad ↦ let e' : none ≡ some id = rw (txid_bytes, bad) at e in cc
    | inr (bytes, good) ↦
        let (same, size) = to_32-eq bytes id (rw (txid_bytes, good) at e) in
        (good ∙ ap some same, size)
  ]

  check_transaction-IsConsistent :
      (i : ℕ) (t : BlockTransactionInfo) (id : List ℕ)
      → check_transaction tree i t ≡ ok id
      → IsConsistent i t id
  unfolding check_transaction
  check_transaction-IsConsistent i t id e =
      let (position, e1) = ensure-eq (t.position == i) _ id e in
      let (found, bytes, e2) = require-eq (txid_bytes tree t.txid) _ id e1 in
      let (pages, e3) = ensure-eq (length t.page_hashes == t.page_count) _ id e2 in
      let (counts, e4) =
        ensure-eq ((t.live_inputs == length t.inputs) && (t.live_outputs == length t.outputs)) _ id
          e3 in
      let (outs, e5) =
        ensure-eq (str_eq (tree.decimal (output_total t)) t.output_sum_micronoid) _ id e4 in
      let (ins, e6) =
        ensure-eq (str_eq (tree.decimal (input_total t)) t.input_sum_micronoid) _ id e5 in
      let (balance, e7) = ensure-eq (balances t) _ id e6 in
      let same : found ≡ id = cc in
      let (hex, size) = txid_bytes-eq t.txid id (bytes ∙ ap some same) in
      let (count_in, count_out) = and-eq _ (t.live_outputs == length t.outputs) counts in
      record {
        position = eq-of_== _ _ position;
        hex = hex;
        size = size;
        pages = eq-of_== _ _ pages;
        input_count = eq-of_== _ _ count_in;
        output_count = eq-of_== _ _ count_out;
        output_sum = ap tree.decimal (sym (out_total t)) ∙ eq-of_str_eq _ _ outs;
        input_sum = ap tree.decimal (sym (in_total t)) ∙ eq-of_str_eq _ _ ins;
        balance = balanced t balance;
      }

  check_transactions-AllConsistent :
      (i : ℕ) (txs : List BlockTransactionInfo) (ids : List (List ℕ))
      → check_transactions tree i txs ≡ ok ids
      → AllConsistent i txs ids
  unfolding check_transactions
  check_transactions-AllConsistent i [] [] e = none_left
  check_transactions-AllConsistent i [] (x ∷ xs) e = cc
  check_transactions-AllConsistent i (t ∷ txs) ids e =
      let (id, first, e1) = bind-eq (check_transaction tree i t) _ ids e in
      let (rest, others, e2) = bind-eq (check_transactions tree (suc i) txs) _ ids e1 in
      let same : id ∷ rest ≡ ids = cc in
      subst (AllConsistent i (t ∷ txs)) same (
        and_next (check_transaction-IsConsistent i t id first)
          (check_transactions-AllConsistent (suc i) txs rest others))

  IsConsistent-check_transaction :
      (i : ℕ) (t : BlockTransactionInfo) (id : List ℕ)
      → IsConsistent i t id
      → check_transaction tree i t ≡ ok id
  unfolding check_transaction
  IsConsistent-check_transaction i t id c =
      let bytes : txid_bytes tree t.txid ≡ some id =
        rw (txid_bytes, c.hex, eq→== _ 32 c.size) refl in
      rw
        (
          check_transaction,
          eq→== _ _ c.position,
          bytes,
          eq→== _ _ c.pages,
          eq→== _ _ c.input_count,
          eq→== _ _ c.output_count,
          str_eq-eq _ _ (ap tree.decimal (out_total t) ∙ c.output_sum),
          str_eq-eq _ _ (ap tree.decimal (in_total t) ∙ c.input_sum),
          Balance-balances t c.balance,
        )
        refl

  AllConsistent-check_transactions :
      (i : ℕ) (txs : List BlockTransactionInfo) (ids : List (List ℕ))
      → AllConsistent i txs ids
      → check_transactions tree i txs ≡ ok ids
  unfolding check_transactions
  AllConsistent-check_transactions i _ _ none_left = refl
  AllConsistent-check_transactions i _ _
        (and_next {t = t} {txs = txs} {id = id} {ids = ids} c all) =
      rw
        (
          check_transactions,
          IsConsistent-check_transaction i t id c,
          AllConsistent-check_transactions (suc i) txs ids all,
        )
        refl

  totals_match-eq :
      (body : RetainedBlockInfo)
      → totals_match body ≡ true
      → (body.logical_transactions ≡ length body.transactions)
        × (body.live_inputs
            ≡ sum_u32 (λ (t : BlockTransactionInfo). t.live_inputs) body.transactions)
        × (body.live_outputs
            ≡ sum_u32 (λ (t : BlockTransactionInfo). t.live_outputs) body.transactions)
        × (body.user_pages
            ≡ sum_u32
                (λ (t : BlockTransactionInfo). t.page_count)
                (retain is_user body.transactions))
  totals_match-eq body e =
      let (abc, d) = and-eq _ (body.user_pages == _) e in
      let (ab, c) = and-eq _ (body.live_outputs == _) abc in
      let (a, b) = and-eq _ (body.live_inputs == _) ab in
      (eq-of_== _ _ a, eq-of_== _ _ b, eq-of_== _ _ c, eq-of_== _ _ d)

  check_block-IsWhole :
      (body : RetainedBlockInfo) (tx_root : String) (first : BlockTransactionInfo)
      (others : List BlockTransactionInfo)
      → body.transactions ≡ first ∷ others
      → check_block tree body tx_root first ≡ ok tt
      → IsWhole body tx_root
  unfolding check_block
  check_block-IsWhole body tx_root first others shape e =
      let (few, e1) = ensure-eq (leb (length body.transactions) 256) _ tt e in
      let (coinbase, e2) = ensure-eq first.coinbase _ tt e1 in
      let (ids, checked, e3) = bind-eq (check_transactions tree 0 body.transactions) _ tt e2 in
      let (root, e4) = ensure-eq (str_eq (tree.root_from_hashes ids) tx_root) _ tt e3 in
      let (fees, e5) =
        ensure-eq (str_eq (tree.decimal (fee_total body.transactions)) body.total_fees_micronoid) _
          tt e4 in
      let (reward, e6) = ensure-eq (output_total first == body.reward_micronoid) _ tt e5 in
      let (count, inputs, outputs, pages) = totals_match-eq body (ensured _ e6) in
      record {
        first = first;
        others = others;
        transactions = shape;
        few = leb→le _ _ few;
        coinbase = coinbase;
        ids = ids;
        consistent = check_transactions-AllConsistent 0 body.transactions ids checked;
        root = eq-of_str_eq _ _ root;
        fees =
            ap tree.decimal
              (sym (sum_u64-sum_of _ (retain (λ t. not t.coinbase) body.transactions)))
            ∙ eq-of_str_eq _ _ fees;
        reward = sym (out_total first) ∙ eq-of_== _ _ reward;
        count = count;
        inputs = inputs ∙ sum_u32-sum_of _ body.transactions;
        outputs = outputs ∙ sum_u32-sum_of _ body.transactions;
        pages = pages ∙ sum_u32-sum_of _ (retain is_user body.transactions);
      }

  IsWhole-check_block :
      (body : RetainedBlockInfo) (tx_root : String) (w : IsWhole body tx_root)
      → check_block tree body tx_root w.first ≡ ok tt
  unfolding check_block
  IsWhole-check_block body tx_root w =
      let checked = AllConsistent-check_transactions 0 body.transactions w.ids w.consistent in
      let fees =
        ap tree.decimal (sum_u64-sum_of _ (retain (λ t. not t.coinbase) body.transactions))
        ∙ w.fees in
      let totals : totals_match body ≡ true =
        rw
          (
            eq→== _ _ w.count,
            eq→== _ _ (w.inputs ∙ sym (sum_u32-sum_of _ body.transactions)),
            eq→== _ _ (w.outputs ∙ sym (sum_u32-sum_of _ body.transactions)),
            eq→== _ _ (w.pages ∙ sym (sum_u32-sum_of _ (retain is_user body.transactions))),
          )
          refl in
      rw
        (
          check_block,
          le→leb _ _ w.few,
          w.coinbase,
          checked,
          str_eq-eq _ _ w.root,
          str_eq-eq _ _ fees,
          eq→== _ _ (out_total w.first ∙ w.reward),
          totals,
        )
        refl

-- A body is accepted exactly if it is whole: it has at most 256 transactions, the first a coinbase,
-- all consistent at their positions, their ids rebuild the root of the header, and its fees, its
-- reward and its counts are the sums over its transactions, as far as 64 and 32 bits hold them.
pub check_body-IsWhole :
    (tree : TxTree) (body : RetainedBlockInfo) (tx_root : String)
    → (check_body tree body tx_root ≡ ok tt) ↔ IsWhole tree body tx_root
unfolding check_body
check_body-IsWhole tree body tx_root =
    (accepted, λ w. rw (check_body, w.transactions) (IsWhole-check_block tree body tx_root w))
  where
    accepted : check_body tree body tx_root ≡ ok tt → IsWhole tree body tx_root
    accepted e = elim (List-cases body.transactions) [
      | inl empty ↦ let e' : err ≡ ok tt = rw (check_body, empty) at e in cc
      | inr (first, others, shape) ↦
          check_block-IsWhole tree body tx_root first others shape (rw (check_body, shape) at e)
    ]
