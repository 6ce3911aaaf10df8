-- ===== src/State/Begun.antt =====
-- What `MatchState::from_scenario` of crates/crownline_core/src/state.rs starts a match with.
use crownline.Prelude.{
  ◌≡◌, none, List, leb, length, u32_max, sort_by, arith, map_err, ensure, Ensures,
}
use crownline.Prelude.Map.{Map}
use crownline.Scenario.Types.{ScenarioDefinition}
use crownline.Scenario.Validate.{validate}
use crownline.State.Types.{Piece, SettlementState, MatchState}
use crownline.State.Errors.{invalid_scenario, too_many_pieces}
use crownline.State.Invariants.{validate_invariants}
use crownline.State.Repetition.{Digest, repetition_key}
use crownline.State.Create.{initial_state, found_settlements, deploy, deployment_le, from_scenario}
use crownline.State.Vision.{update_exploration_unchecked}
use crownline.State.Steps.{from_step}

-- No time runs, nothing has been played, and nothing is decided.
pub record Begun (scenario : ScenarioDefinition) (state : MatchState) : Type 0 where
  pub clocks : state.clocks ≡ none
  pub revision : state.revision ≡ 0
  pub outcome : state.outcome ≡ none
  pub scenario_id : state.scenario_id ≡ scenario.id

updated-Begun :
    (scenario : ScenarioDefinition) (pieces : Map Piece) (settlements : List SettlementState)
    → Begun scenario
        (update_exploration_unchecked scenario (initial_state scenario pieces settlements))
unfolding update_exploration_unchecked initial_state
updated-Begun scenario pieces settlements = ground arith

pub from_scenario-Begun :
    (digest : Digest) (scenario : ScenarioDefinition)
    → Ensures (Begun scenario) (from_scenario digest scenario)
unfolding from_scenario
from_scenario-Begun digest scenario =
    let P = Begun scenario in
    from_step P (map_err (validate scenario) invalid_scenario) _ λ _ _.
      from_step P (deploy 0 (sort_by deployment_le scenario.deployments)) _ λ pieces _.
        from_step P (ensure (leb (length scenario.deployments) u32_max) too_many_pieces) _ λ _ _.
          from_step P (found_settlements 0 scenario.settlements) _ λ settlements _.
            let begun =
              update_exploration_unchecked scenario (initial_state scenario pieces settlements) in
            from_step P (validate_invariants begun) _ λ _ _.
              from_step P (repetition_key digest begun) _
                λ _ _. let b = updated-Begun scenario pieces settlements in ground arith
