-- ===== src/Rules/Action.antt =====
-- `apply_action` of crates/crownline_core/src/rules.rs.
use crownline.Prelude.{
  Bool, not, ◌&&◌, none, if◌then◌else◌, is_none, is_some_and, ◌==◌, string_eq, Result, ok, ◌>>=◌,
  ◌>>◌, ensure, map_err,
}
use crownline.Scenario.Types.{player_beq, ScenarioDefinition}
use crownline.Scenario.Validate.{validate}
use crownline.State.Types.{
  MatchState, Action, move, hold, choose_promotion, place_pawn_at, resign, offer_draw,
  respond_to_draw,
}
use crownline.State.Errors.{TransitionError, invalid_scenario, scenario_mismatch, match_finished}
use crownline.State.NonBoard.{apply_non_board_action}
use crownline.State.Repetition.{Digest}
use crownline.State.Vision.{update_exploration, validate_exploration}
use crownline.Rules.Settlements.{
  apply_settlement_landing_effect, cancel_invalid_transfer_candidates, resolve_transfer_candidates,
}
use crownline.Rules.Cycles.{latch_settlement_interruptions, complete_owner_cycles}
use crownline.Rules.Choices.{sort_mandatory_choices}
use crownline.Rules.Promotions.{
  apply_promotion_landing_effect, cancel_invalid_promotion_candidates, advance_promotion_candidates,
  validate_promotion_eligibility,
}
use crownline.Rules.Command.{apply_move, apply_hold, record_repetition}
use crownline.Rules.Recruitment.{apply_promotion_choice, apply_pawn_placement}
use crownline.Rules.Events.{Transition, action_player, is_draw_response, transition_events}

-- The checks before an action is dispatched.
unfoldable pub check_action : ScenarioDefinition → MatchState → Result (Unit {0}) TransitionError
check_action scenario state = do
  map_err (validate scenario) invalid_scenario
  ensure (state.scenario_id == scenario.id) (scenario_mismatch state.scenario_id scenario.id)
  validate_promotion_eligibility scenario state
  validate_exploration scenario state
  ensure (is_none state.outcome) match_finished

unfoldable pub dispatch :
    ScenarioDefinition → MatchState → Action → Result MatchState TransitionError
dispatch scenario state (move player piece to) = apply_move scenario state player piece to
dispatch scenario state (hold player) = apply_hold scenario state player
dispatch scenario state (choose_promotion player piece kind) =
    apply_promotion_choice scenario state player piece kind
dispatch scenario state (place_pawn_at player index place) =
    apply_pawn_placement state player index place
dispatch scenario state (resign player) = apply_non_board_action state (resign player)
dispatch scenario state (offer_draw player) = apply_non_board_action state (offer_draw player)
dispatch scenario state (respond_to_draw player accept) =
    apply_non_board_action state (respond_to_draw player accept)

-- An action of the other player lets a pending draw offer lapse.
unfoldable pub lapse_draw_offer : MatchState → Action → MatchState → MatchState
lapse_draw_offer state action next =
    if not (is_draw_response action)
      && is_some_and state.outstanding_draw_offer
          (λ offering. not (player_beq offering (action_player action)))
    then record next { outstanding_draw_offer = none }
    else next

-- The turn has passed and the match goes on.
abbrev pub is_boundary : MatchState → MatchState → Bool
is_boundary state next =
    not (player_beq state.active_player next.active_player) && is_none next.outcome

-- What landing on a site does, and what becomes of the candidates.
unfoldable pub landing_effects :
    ScenarioDefinition → Action → MatchState → Result MatchState TransitionError
landing_effects scenario action next = do
  landed ← apply_settlement_landing_effect scenario next action
  cancelled ←
      cancel_invalid_transfer_candidates scenario
        (apply_promotion_landing_effect scenario landed action)
  ok (cancel_invalid_promotion_candidates scenario cancelled)

-- The transfers of the player whose turn begins.
unfoldable pub resolve_boundary :
    ScenarioDefinition → MatchState → MatchState → Result MatchState TransitionError
resolve_boundary scenario state next =
    if is_boundary state next
    then resolve_transfer_candidates scenario next next.active_player
    else ok next

-- The cycles, promotions and repetition count of the player whose turn begins.
unfoldable pub owner_boundary :
    Digest → ScenarioDefinition → MatchState → MatchState → Result MatchState TransitionError
owner_boundary digest scenario state next = if not (is_boundary state next) then ok next else do
  advanced ←
      advance_promotion_candidates scenario (complete_owner_cycles scenario next next.active_player)
        next.active_player
  latched ← latch_settlement_interruptions scenario (sort_mandatory_choices scenario advanced)
  record_repetition digest latched

-- Everything that follows the dispatched action.
unfoldable pub settle :
    Digest
    → ScenarioDefinition
    → MatchState
    → Action
    → MatchState
    → Result MatchState TransitionError
settle digest scenario state action next = do
  landed ← landing_effects scenario action (lapse_draw_offer state action next)
  resolved ← resolve_boundary scenario state landed
  latched ← latch_settlement_interruptions scenario resolved
  counted ← owner_boundary digest scenario state latched
  update_exploration scenario counted

unfoldable pub apply_action :
    Digest → ScenarioDefinition → MatchState → Action → Result Transition TransitionError
apply_action digest scenario state action = do
  check_action scenario state
  next ← dispatch scenario state action
  final ← settle digest scenario state action next
  ok (record { state = final; events = transition_events state final action })
