-- ===== src/Receipts/Verdict.antt =====
-- permanode/src/receipts.rs, `import_one`: the comparison of the node's verdict with the receipt.
use gb_parano1d_permanode.Prelude.{
  ◌≡◌, inl, inr, refl, ap, ◌∙◌, Bool, true, false, Option, none, some, List, [], ◌∷◌, ◌==◌, str_eq,
  Bool-cases, Option-cases,
}
use gb_parano1d_permanode.Prelude.Equations.{and-eq, eq-of_==, eq-of_str_eq}
use gb_parano1d_permanode.Receipts.Decode.{
  SummaryInput, SummaryOutput, AuthenticatedSummary, ReceiptVerdict,
}
use gb_parano1d_permanode.Receipts.Import.{
  same_inputs, same_outputs, same_summary, is_some_true, authenticates,
}

same_inputs-eq : (a b : List SummaryInput) → same_inputs a b ≡ true → a ≡ b
same_inputs-eq [] [] e = refl
same_inputs-eq [] (y ∷ ys) e = cc
same_inputs-eq (x ∷ xs) [] e = cc
same_inputs-eq (x ∷ xs) (y ∷ ys) e =
    let (ab, rest) = and-eq _ (same_inputs xs ys) e in
    let (a, b) = and-eq (x.slot_index == y.slot_index) (str_eq x.owner y.owner) ab in
    let slot = eq-of_== _ _ a in
    let owner = eq-of_str_eq _ _ b in
    let tail = same_inputs-eq xs ys rest in
    λ i. (record { slot_index = slot i; owner = owner i }) ∷ tail i

same_outputs-eq : (a b : List SummaryOutput) → same_outputs a b ≡ true → a ≡ b
same_outputs-eq [] [] e = refl
same_outputs-eq [] (y ∷ ys) e = cc
same_outputs-eq (x ∷ xs) [] e = cc
same_outputs-eq (x ∷ xs) (y ∷ ys) e =
    let (abc, rest) = and-eq _ (same_outputs xs ys) e in
    let (ab, c) = and-eq _ (str_eq x.owner y.owner) abc in
    let (a, b) = and-eq (x.slot_index == y.slot_index) _ ab in
    let slot = eq-of_== _ _ a in
    let amount = eq-of_== _ _ b in
    let owner = eq-of_str_eq _ _ c in
    let tail = same_outputs-eq xs ys rest in
    λ i. (record { slot_index = slot i; amount_micronoid = amount i; owner = owner i }) ∷ tail i

pub same_summary-eq : (a b : AuthenticatedSummary) → same_summary a b ≡ true → a ≡ b
same_summary-eq a b e =
    let (e7, outputs) = and-eq _ (same_outputs a.outputs b.outputs) e in
    let (e6, inputs) = and-eq _ (same_inputs a.inputs b.inputs) e7 in
    let (e5, fee) = and-eq _ (a.fee_micronoid == b.fee_micronoid) e6 in
    let (e4, count) = and-eq _ (a.tx_count == b.tx_count) e5 in
    let (e3, index) = and-eq _ (a.tx_index == b.tx_index) e4 in
    let (e2, unix) = and-eq _ (a.confirmed_unix == b.confirmed_unix) e3 in
    let (txid, height) = and-eq _ (a.claimed_height == b.claimed_height) e2 in
    λ i. record {
      txid = eq-of_str_eq _ _ txid i;
      claimed_height = eq-of_== _ _ height i;
      confirmed_unix = eq-of_== _ _ unix i;
      tx_index = eq-of_== _ _ index i;
      tx_count = eq-of_== _ _ count i;
      fee_micronoid = eq-of_== _ _ fee i;
      inputs = same_inputs-eq a.inputs b.inputs inputs i;
      outputs = same_outputs-eq a.outputs b.outputs outputs i;
    }

-- A verdict that authenticates a summary.
pub record Authentic (verdict : ReceiptVerdict) (summary : AuthenticatedSummary) : Type 0 where
  pub merkle : verdict.merkle_valid ≡ true
  pub on_chain : verdict.canonical ≡ some true
  pub same : verdict.authenticated_summary ≡ some summary

is_some_true-eq : (o : Option Bool) → is_some_true o ≡ true → o ≡ some true
is_some_true-eq none e = cc
is_some_true-eq (some b) e = ap some e

pub authenticates-Authentic :
    (verdict : ReceiptVerdict) (summary : AuthenticatedSummary)
    → authenticates verdict summary ≡ true
    → Authentic verdict summary
authenticates-Authentic verdict summary e = elim (Bool-cases verdict.merkle_valid) [
  | inr invalid ↦ let e' : false ≡ true = rw invalid at e in cc
  | inl valid ↦ elim (Bool-cases (is_some_true verdict.canonical)) [
    | inr off ↦ let e' : false ≡ true = rw (valid, off) at e in cc
    | inl on ↦ elim (Option-cases verdict.authenticated_summary) [
      | inl absent ↦ let e' : false ≡ true = rw (valid, on, absent) at e in cc
      | inr (theirs, given) ↦
          let e' : same_summary theirs summary ≡ true = rw (valid, on, given) at e in
          record {
            merkle = valid;
            on_chain = is_some_true-eq verdict.canonical on;
            same = given ∙ ap some (same_summary-eq theirs summary e');
          }
    ]
  ]
]
