-- ===== src/Emission/ClosedForm.antt =====
-- core/src/emission.rs: what the closed forms say, block by block.
use gb_parano1d_permanode.Prelude.{
  ℕ, ◌+◌, ◌-◌, min, ◌≡◌, sym, ap, ap₂, ◌∙◌, arith, List, inl, inr, Bool-cases, sum_range,
}
use gb_parano1d_permanode.Emission.Schedule.{v2_active, log_slots_genesis}
use gb_parano1d_permanode.Emission.Allocation.{miner_subsidy, development_payout}
use gb_parano1d_permanode.Emission.Totals.{add_split, emitted_split_up_to}
use gb_parano1d_permanode.Emission.Legacy.{
  IsAscending, reached, minted_split, minted_split-add, emitted_legacy_up_to-minted,
}
use gb_parano1d_permanode.Emission.Tiers.{emitted_v2_between-minted}

-- The state size of the block at a height: one more than at genesis for each expansion reached.
abbrev pub log_slots_at : List ℕ → ℕ → ℕ
log_slots_at expansions height = log_slots_genesis + reached expansions height

-- Where the expansions are listed in ascending order from height 1 on, the totals up to any height
-- are the sums of `miner_subsidy` and `development_payout` over the blocks 1 to that height, each at
-- its own state size, in both eras and across the fork.
pub emitted_split_up_to-eq-blocks :
    (height : ℕ) (expansions : List ℕ)
    → IsAscending 1 expansions
    → emitted_split_up_to height expansions ≡ record {
      miner = sum_range (λ h. miner_subsidy h (log_slots_at expansions h)) 1 height;
      development = sum_range (λ h. development_payout h (log_slots_at expansions h)) 1 height;
    }
unfolding emitted_split_up_to
emitted_split_up_to-eq-blocks height expansions asc = elim (Bool-cases (v2_active height)) [
  | inl v2 ↦
      let fork : min height (210_537 - 1) ≡ 210_536 = ground arith in
      let after : 210_536 + (height + 1 - 210_537) ≡ height = ground arith in
      rw (v2, fork)
        (ap₂ add_split (emitted_legacy_up_to-minted 210_536 expansions (omega arith) asc) (
            emitted_v2_between-minted (log_slots_at expansions) 210_537 height (omega arith)
              (ground arith))
          ∙ sym (minted_split-add (log_slots_at expansions) 1 210_536 (height + 1 - 210_537))
          ∙ ap (minted_split (log_slots_at expansions) 1) after)
  | inr legacy ↦
      let below : min height (210_537 - 1) ≡ height = ground arith in
      rw (legacy, below) (emitted_legacy_up_to-minted height expansions (ground arith) asc)
]
