-- ===== src/Rules/Opening.antt =====
-- The first action of a match: `MatchState::from_scenario` of crates/crownline_core/src/state.rs
-- before `apply_action` of crates/crownline_core/src/rules.rs.
use crownline.Prelude.{
  ◌≡◌, ◌∷◌, [], refl, Option, none, some, List, ap, sym, ◌∙◌, ℕ, String, leb, length, u32_max,
  sort_by, arith, contains, ok, map_err, ensure, string_eq, Ensures,
}
use crownline.Prelude.Map.{Map}
use crownline.Scenario.Types.{coord_eq, Player, north, south, FogRules, ScenarioDefinition}
use crownline.Scenario.Validate.{validate}
use crownline.State.Types.{explored, Piece, SettlementState, command, MatchState}
use crownline.State.Errors.{invalid_scenario, too_many_pieces}
use crownline.State.Steps.{from_step}
use crownline.State.Invariants.{validate_invariants}
use crownline.State.Repetition.{Digest, repetition_key}
use crownline.State.Create.{
  initial_exploration, initial_state, found_settlements, deploy, deployment_le, from_scenario,
}
use crownline.State.Vision.{
  exploration_or_default, friendly, visible_coordinates_unchecked, check_context, check_knowledge,
  update_exploration_unchecked, validate_exploration_unchecked, validate_exploration,
}
use crownline.State.Knowledge.{ExploredOnBoard, update_exploration_unchecked-checked}
use crownline.Rules.Promotions.{validate_promotion_eligibility}
use crownline.Rules.Action.{check_action}

-- What an update of the exploration leaves alone, of what the checks of an action read.
record SameChecks (a b : MatchState) : Type 0 where
  scenario_id : b.scenario_id ≡ a.scenario_id
  pieces : b.pieces ≡ a.pieces
  settlements : b.settlements ≡ a.settlements
  phase : b.phase ≡ a.phase
  outcome : b.outcome ≡ a.outcome

update-SameChecks :
    (scenario : ScenarioDefinition) (state : MatchState)
    → SameChecks state (update_exploration_unchecked scenario state)
unfolding update_exploration_unchecked
update-SameChecks scenario state = ground arith

same_invariants :
    (a b : MatchState) → SameChecks a b → validate_invariants b ≡ validate_invariants a
unfolding validate_invariants
same_invariants a b same = rw (same.pieces, same.settlements) refl

initially_explored :
    (fog : Option FogRules) (player : Player)
    → explored (exploration_or_default (initial_exploration fog)) player ≡ []
initially_explored none north = refl
initially_explored none south = refl
initially_explored (some fog) north = refl
initially_explored (some fog) south = refl

nothing_explored :
    (scenario : ScenarioDefinition) (pieces : Map Piece) (settlements : List SettlementState)
    → ExploredOnBoard scenario (initial_state scenario pieces settlements)
unfolding initial_state
nothing_explored scenario pieces settlements player at known =
    ground (arith, known, ap (λ cs. contains cs at) (initially_explored scenario.rules.fog player))

counted-checked :
    (scenario : ScenarioDefinition) (state : MatchState) (counts : List (String × ℕ))
    → map_err (validate scenario) invalid_scenario ≡ ok tt
    → state.scenario_id ≡ scenario.id
    → state.phase ≡ command
    → state.outcome ≡ none
    → validate_exploration scenario state ≡ ok tt
    → check_action scenario (record state { repetition_counts = counts }) ≡ ok tt
unfolding check_action validate_promotion_eligibility validate_exploration
    validate_exploration_unchecked validate_invariants check_knowledge visible_coordinates_unchecked
    friendly
counted-checked scenario state counts valid id phase outcome explored =
    ground (arith, (string_eq.beq_iff scenario.id scenario.id).1 refl)

init-checked :
    (scenario : ScenarioDefinition) (pieces : Map Piece) (settlements : List SettlementState)
    → map_err (validate scenario) invalid_scenario ≡ ok tt
    → validate_invariants (initial_state scenario pieces settlements) ≡ ok tt
    → check_context scenario (initial_state scenario pieces settlements) ≡ ok tt
unfolding initial_state check_context
init-checked scenario pieces settlements valid sound =
    ground (arith, (string_eq.beq_iff scenario.id scenario.id).1 refl)

begun-checked :
    (scenario : ScenarioDefinition) (pieces : Map Piece) (settlements : List SettlementState)
    (counts : List (String × ℕ))
    → map_err (validate scenario) invalid_scenario ≡ ok tt
    → validate_invariants
        (update_exploration_unchecked scenario (initial_state scenario pieces settlements))
      ≡ ok tt
    → check_action scenario
        (record (update_exploration_unchecked scenario
          (initial_state scenario pieces settlements)) { repetition_counts = counts })
      ≡ ok tt
unfolding initial_state
begun-checked scenario pieces settlements counts valid sound =
    let init = initial_state scenario pieces settlements in
    let next = update_exploration_unchecked scenario init in
    let same = update-SameChecks scenario init in
    let context =
      init-checked scenario pieces settlements valid
        (sym (same_invariants init next same) ∙ sound) in
    counted-checked scenario next counts valid same.scenario_id same.phase same.outcome (
      update_exploration_unchecked-checked scenario init
        (nothing_explored scenario pieces settlements) context)

-- A match that is created passes every check that `apply_action` makes before it dispatches an
-- action, whatever the first action is.
pub from_scenario-check_action :
    (digest : Digest) (scenario : ScenarioDefinition)
    → Ensures (λ state. check_action scenario state ≡ ok tt) (from_scenario digest scenario)
unfolding from_scenario
from_scenario-check_action digest scenario =
    let P : MatchState → Type 0 = λ state. check_action scenario state ≡ ok tt in
    from_step P (map_err (validate scenario) invalid_scenario) _ λ _ valid.
      from_step P (deploy 0 (sort_by deployment_le scenario.deployments)) _ λ pieces _.
        from_step P (ensure (leb (length scenario.deployments) u32_max) too_many_pieces) _ λ _ _.
          from_step P (found_settlements 0 scenario.settlements) _ λ settlements _.
            let begun =
              update_exploration_unchecked scenario (initial_state scenario pieces settlements) in
            from_step P (validate_invariants begun) _ λ _ sound.
              from_step P (repetition_key digest begun) _
                λ key _. begun-checked scenario pieces settlements ((key, 1) ∷ []) valid sound
