-- ===== src/Tests/Projection.antt =====
-- A view of a match under fog, and the theorems on projections at a concrete input.
use crownline.Prelude.{◌≡◌, refl, true, some, ok, is_ok, is_ok-cases, Ensures}
use crownline.Scenario.Types.{north, south}
use crownline.State.Types.{MatchState, Action, move}
use crownline.State.Create.{from_scenario}
use crownline.Rules.Events.{Transition}
use crownline.Rules.Action.{apply_action}
use crownline.Projection.View.{
  ViewHash, known_square, known_edges, project_pieces, settlement_dynamic, permitted_dynamic,
  project_settlements, project_phase, own_castling_destinations, checked_players, assemble,
  calculate_hash, project_player_view,
}
use crownline.Projection.Privacy.{Discloses, project_player_view-Discloses}
use crownline.Evaluation.{evaluation}
use crownline.Examples.{at, demo_digest, foggy, state_of}

abbrev view_hash : ViewHash
view_hash view = some "view"

abbrev foggy_start : MatchState
foggy_start = state_of (from_scenario demo_digest foggy)

-- South moves onto the settlement.
abbrev claim : Action
claim = move south 3 (at 3 3)

claim-is_ok : is_ok (apply_action demo_digest foggy foggy_start claim) ≡ true
unfolding evaluation
claim-is_ok = refl

abbrev foggy_claim : Transition
foggy_claim = (is_ok-cases (apply_action demo_digest foggy foggy_start claim) claim-is_ok).0

foggy_claim-eq : apply_action demo_digest foggy foggy_start claim ≡ ok foggy_claim
foggy_claim-eq = (is_ok-cases (apply_action demo_digest foggy foggy_start claim) claim-is_ok).1

-- North can be shown the start.
view-is_ok : is_ok (project_player_view view_hash foggy foggy_start north) ≡ true
unfolding evaluation known_square known_edges project_pieces settlement_dynamic permitted_dynamic
    project_settlements project_phase own_castling_destinations checked_players assemble
    calculate_hash project_player_view
view-is_ok = refl

project_player_view-Discloses_example :
    Ensures
      (Discloses foggy foggy_start north)
      (project_player_view view_hash foggy foggy_start north)
project_player_view-Discloses_example =
    project_player_view-Discloses view_hash foggy foggy_start north
