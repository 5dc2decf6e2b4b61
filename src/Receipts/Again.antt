-- ===== src/Receipts/Again.antt =====
-- permanode/src/receipts.rs, `import_receipts`: a run over the entries, and one more of the same.
use gb_parano1d_permanode.Prelude.{
  ℕ, suc, ◌≡◌, ◌≢◌, inl, inr, refl, sym, ap, subst, true, Option, none, some, String, List, [], ◌∷◌,
  str_eq, any, Bool-cases,
}
use gb_parano1d_permanode.Prelude.Result.{Result, Result-cases}
use gb_parano1d_permanode.Store.Rows.{Database}
use gb_parano1d_permanode.Receipts.Decode.{ReceiptVerdict, ReceiptFormat, decode_receipt}
use gb_parano1d_permanode.Receipts.Import.{
  ReceiptEntry, imported, rejected, import_one, import_entry, same_key, same_entry, import_receipts,
}
use gb_parano1d_permanode.Prelude.Equations.{and-eq, eq-of_str_eq}
use gb_parano1d_permanode.Receipts.Safety.{import_one-unchanged}
use gb_parano1d_permanode.Receipts.Grows.{
  Grows, import_one_before, import_one-Grows, import_one-once, stays,
}

same_key-eq : (a b : Option String) → same_key a b ≡ true → a ≡ b
same_key-eq none none e = refl
same_key-eq none (some b) e = cc
same_key-eq (some a) none e = cc
same_key-eq (some a) (some b) e = ap some (eq-of_str_eq a b e)

module _ (verify : String → Result ReceiptVerdict) (format : ReceiptFormat) where
  pub import_entry-Grows :
      (db : Database) (entry : ReceiptEntry) (now : ℕ)
      → Grows db (import_entry verify format db entry now).0
  unfolding import_entry
  import_entry-Grows db entry now = elim (Result-cases (decode_receipt format entry.hex)) [
    | inl bad ↦ rw (import_entry, bad) stays
    | inr (d, decoded) ↦ rw (import_entry, decoded) (import_one-Grows verify db entry d now)
  ]

  -- The entry is not imported into this database, at any time.
  abbrev Final : Database → ReceiptEntry → Type 0
  Final db entry = (now : ℕ) → (import_entry verify format db entry now).1.outcome ≢ imported

  Final-Grows :
      (db db' : Database) (entry : ReceiptEntry) → Grows db db' → Final db entry → Final db' entry
  unfolding import_entry
  Final-Grows db db' entry grows final later e =
      elim (Result-cases (decode_receipt format entry.hex)) [
        | inl bad ↦ let e' : rejected ≡ imported = rw (import_entry, bad) at e in cc
        | inr (d, decoded) ↦
            let e' : (import_one verify db' entry d later).1 ≡ imported =
              rw (import_entry, decoded) at e in
            final later (
              rw (import_entry, decoded)
                (import_one_before verify db db' grows entry d later later e'))
      ]

  import_entry-Final :
      (db : Database) (entry : ReceiptEntry) (now : ℕ)
      → Final (import_entry verify format db entry now).0 entry
  unfolding import_entry
  import_entry-Final db entry now = elim (Result-cases (decode_receipt format entry.hex)) [
    | inl bad ↦ λ later e. let e' : rejected ≡ imported = rw (import_entry, bad) at e in cc
    | inr (d, decoded) ↦
        let after : (import_entry verify format db entry now).0
            ≡ (import_one verify db entry d now).0 =
          rw (import_entry, decoded) refl in
        subst (λ (x : Database). Final x entry) (sym after)
          (λ later e. import_one-once verify db entry d now later (rw (import_entry, decoded) at e))
  ]

  Final-unchanged :
      (db : Database) (entry : ReceiptEntry) (now : ℕ)
      → Final db entry
      → (import_entry verify format db entry now).0 ≡ db
  unfolding import_entry
  Final-unchanged db entry now final = elim (Result-cases (decode_receipt format entry.hex)) [
    | inl bad ↦ rw (import_entry, bad) refl
    | inr (d, decoded) ↦
        let other : (import_one verify db entry d now).1 ≢ imported =
          λ e. final now (rw (import_entry, decoded) e) in
        rw (import_entry, decoded) (import_one-unchanged verify db entry d now other)
  ]

  -- The file of an entry does not matter.
  Final-same_entry :
      (db : Database) (a b : ReceiptEntry) → same_entry a b ≡ true → Final db b → Final db a
  unfolding import_entry
  Final-same_entry db a b same final now e =
      let (keys, hexes) = and-eq (same_key a.key b.key) (str_eq a.hex b.hex) same in
      let key = same_key-eq a.key b.key keys in
      let hex = eq-of_str_eq a.hex b.hex hexes in
      let twin : a ≡ (record { origin = a.origin; key = b.key; hex = b.hex }) =
        λ i. record { origin = a.origin; key = key i; hex = hex i } in
      let e' =
        subst (λ (x : ReceiptEntry). (import_entry verify format db x now).1.outcome ≡ imported)
          twin e in
      elim (Result-cases (decode_receipt format b.hex)) [
        | inl bad ↦ final now (rw (import_entry, bad) (rw (import_entry, bad) at e'))
        | inr (d, decoded) ↦
            final now (rw (import_entry, decoded) (rw (import_entry, decoded) at e'))
      ]

  -- Where all entries of a run are final, the run changes nothing.
  abbrev AllFinal : Database → List ReceiptEntry → Type 0
  AllFinal db [] = Unit
  AllFinal db (entry ∷ entries) = Final db entry × AllFinal db entries

  AllFinal-Grows :
      (db db' : Database) (entries : List ReceiptEntry)
      → Grows db db'
      → AllFinal db entries
      → AllFinal db' entries
  AllFinal-Grows db db' [] grows all = tt
  AllFinal-Grows db db' (entry ∷ entries) grows (final, all) =
      (Final-Grows db db' entry grows final, AllFinal-Grows db db' entries grows all)

  Final-any :
      (db : Database) (entry : ReceiptEntry) (seen : List ReceiptEntry)
      → any (same_entry entry) seen ≡ true
      → AllFinal db seen
      → Final db entry
  Final-any db entry [] e all = cc
  Final-any db entry (s ∷ seen) e (final, all) = elim (Bool-cases (same_entry entry s)) [
    | inl same ↦ Final-same_entry db entry s same final
    | inr other ↦ Final-any db entry seen (rw other at e) all
  ]

  import_receipts-unchanged :
      (db : Database) (seen entries : List ReceiptEntry) (now : ℕ)
      → AllFinal db entries
      → (import_receipts verify format db seen entries now).0 ≡ db
  unfolding import_receipts
  import_receipts-unchanged db seen [] now all = refl
  import_receipts-unchanged db seen (entry ∷ entries) now (final, all) =
      elim (Bool-cases (any (same_entry entry) seen)) [
        | inl met ↦
            rw (import_receipts, met) (import_receipts-unchanged db seen entries (suc now) all)
        | inr new ↦
            let same = Final-unchanged db entry now final in
            let rest = import_receipts-unchanged db (entry ∷ seen) entries (suc now) all in
            rw (import_receipts, new)
              (subst
                (λ (x : Database).
                  (import_receipts verify format x (entry ∷ seen) entries (suc now)).0 ≡ db)
                (sym same) rest)
      ]

  -- After a run its entries are final.
  import_receipts-AllFinal :
      (db : Database) (seen entries : List ReceiptEntry) (now : ℕ)
      → AllFinal db seen
      → AllFinal (import_receipts verify format db seen entries now).0 seen
        × AllFinal (import_receipts verify format db seen entries now).0 entries
  unfolding import_receipts
  import_receipts-AllFinal db seen [] now all = (all, tt)
  import_receipts-AllFinal db seen (entry ∷ entries) now all =
      let run = (import_receipts verify format db seen (entry ∷ entries) now).0 in
      let Claim : Database → Type 0 = λ x. AllFinal x seen × (Final x entry × AllFinal x entries) in
      elim (Bool-cases (any (same_entry entry) seen)) [
        | inl met ↦
            let (ih, ih') = import_receipts-AllFinal db seen entries (suc now) all in
            let after : run ≡ (import_receipts verify format db seen entries (suc now)).0 =
              rw (import_receipts, met) refl in
            subst Claim (sym after) (ih, (Final-any _ entry seen met ih, ih'))
        | inr new ↦
            let next = (import_entry verify format db entry now).0 in
            let known : AllFinal next (entry ∷ seen) = (
              import_entry-Final db entry now,
              AllFinal-Grows db next seen (import_entry-Grows db entry now) all,
            ) in
            let (ih, ih') = import_receipts-AllFinal next (entry ∷ seen) entries (suc now) known in
            let after : run
                ≡ (import_receipts verify format next (entry ∷ seen) entries (suc now)).0 =
              rw (import_receipts, new) refl in
            subst Claim (sym after) (ih.1, (ih.0, ih'))
      ]

-- To import the entries of a run once more, at any later time and with the same answers of the node,
-- changes nothing, also where some of them were refused or listed twice.
pub import_receipts-again :
    (verify : String → Result ReceiptVerdict) (format : ReceiptFormat) (db : Database)
    (entries : List ReceiptEntry) (now later : ℕ)
    → (import_receipts verify format
        (import_receipts verify format db [] entries now).0
        []
        entries
        later).0
      ≡ (import_receipts verify format db [] entries now).0
import_receipts-again verify format db entries now later =
    let (_, all) = import_receipts-AllFinal verify format db [] entries now tt in
    import_receipts-unchanged verify format _ [] entries later all
