-- ===== src/Fees/Tests.antt =====
-- core/src/fees.rs: the theorems at one transaction.
use gb_parano1d_permanode.Prelude.{ℕ, ◌+◌, ◌-◌, ◌*◌, ◌/◌, ◌^◌, ◌≤◌, ◌≡◌, arith, ◌↔◌}
use gb_parano1d_permanode.Fees.Model.{
  occupancy_bps, pressure_multiplier, fee_breakdown, slot_capacity,
}
use gb_parano1d_permanode.Fees.Pressure.{
  multiplier_at, occupancy_bps-exact, pressure_multiplier-exact,
}
use gb_parano1d_permanode.Fees.Split.{fee_breakdown-exact, fee_breakdown-divides, burned-zero}

abbrev three_quarters : ℕ
three_quarters = 12_582_912

occupancy_bps-exact_example : occupancy_bps three_quarters 24 ≡ three_quarters * 10_000 / 2 ^ 24
occupancy_bps-exact_example = occupancy_bps-exact three_quarters 24 (omega arith) (omega arith)

pressure_multiplier-exact_example :
    pressure_multiplier three_quarters 24 ≡ multiplier_at three_quarters (2 ^ 24)
pressure_multiplier-exact_example =
    pressure_multiplier-exact three_quarters 24 (omega arith) (omega arith)

fee_breakdown-exact_example :
    ((fee_breakdown 50_000 1 3 three_quarters 24).burned
      ≡ 2_500 * pressure_multiplier three_quarters 24 * (3 - 1))
    × ((fee_breakdown 50_000 1 3 three_quarters 24).required_total
        ≡ 5_000 + 100 * 1 + 700 * 3 + 2_500 * pressure_multiplier three_quarters 24 * (3 - 1))
fee_breakdown-exact_example = fee_breakdown-exact 50_000 1 3 three_quarters 24 (omega arith)

covered : (fee_breakdown 50_000 1 3 three_quarters 24).required_total ≤ 50_000
unfolding fee_breakdown pressure_multiplier occupancy_bps slot_capacity
covered = omega arith

fee_breakdown-divides_example :
    ((fee_breakdown 50_000 1 3 three_quarters 24).to_miner
        + (fee_breakdown 50_000 1 3 three_quarters 24).burned
      ≡ 50_000)
    × ((fee_breakdown 50_000 1 3 three_quarters 24).required_total
          + (fee_breakdown 50_000 1 3 three_quarters 24).tip
        ≡ 50_000)
    × ((fee_breakdown 50_000 1 3 three_quarters 24).to_miner
        ≡ (fee_breakdown 50_000 1 3 three_quarters 24).base
          + (fee_breakdown 50_000 1 3 three_quarters 24).input
          + (fee_breakdown 50_000 1 3 three_quarters 24).output
          + (fee_breakdown 50_000 1 3 three_quarters 24).tip)
fee_breakdown-divides_example =
    fee_breakdown-divides 50_000 1 3 three_quarters 24 (omega arith) covered

burned-zero_example : ((fee_breakdown 50_000 1 3 three_quarters 24).burned ≡ 0) ↔ (3 ≤ 1)
burned-zero_example = burned-zero 50_000 1 3 three_quarters 24
