-- ===== src/Rules/Development.antt =====
-- A settlement across its owner's boundary, in crates/crownline_core/src/rules.rs.
use crownline.Prelude.{
  ℕ, ◌+◌, ◌≤◌, ◌<◌, ◌≡◌, false, not, ◌&&◌, ◌||◌, some, List, arith, nat_beq, option_beq_iff, u8_max,
}
use crownline.Scenario.Types.{Player, player_eq, ScenarioRules}
use crownline.State.Types.{SettlementState}
use crownline.Rules.Cycles.{advance_establishment, advance_production, complete_cycle}

-- Progress is within the scenario's cycles, and an established settlement has completed them.
pub record WithinCycles (rules : ScenarioRules) (s : SettlementState) : Type 0 where
  pub establishment : s.establishment_progress ≤ rules.establishment_cycles
  pub production : s.production_progress ≤ rules.production_cycles

-- A boundary keeps a settlement's progress within the scenario's cycles.
pub complete_cycle-WithinCycles :
    (rules : ScenarioRules) (owner : Player) (previously : List ℕ) (s : SettlementState)
    → WithinCycles rules s
    → WithinCycles rules (complete_cycle rules owner previously s)
unfolding complete_cycle advance_establishment advance_production
complete_cycle-WithinCycles rules owner previously s w =
    let e = w.establishment in
    let p = w.production in
    record { establishment = ground (arith, e, p); production = ground (arith, e, p) }

-- At its owner's boundary a settlement whose progress is not complete becomes established exactly if
-- the cycle was not interrupted and was the last one wanting; one that is established stays so; the
-- interruption is forgotten, and whether the cycle was continuous is recorded.
pub complete_cycle-established :
    (rules : ScenarioRules) (owner : Player) (previously : List ℕ) (s : SettlementState)
    → s.owner ≡ some owner
    → rules.establishment_cycles ≤ u8_max
    → s.establishment_progress < rules.establishment_cycles
    → let s' = complete_cycle rules owner previously s in
      (s'.established ≡ (
        s.established
        || not s.cycle_interrupted
          && nat_beq (s.establishment_progress + 1) rules.establishment_cycles))
      × (s'.completed_cycle_continuous ≡ not s.cycle_interrupted)
      × (s'.cycle_interrupted ≡ false)
      × (s'.owner ≡ s.owner)
      × (s'.founder ≡ s.founder)
unfolding complete_cycle advance_establishment advance_production
complete_cycle-established rules owner previously s own byte wanting =
    ground (arith, own, byte, wanting, option_beq_iff s.owner (some owner))
