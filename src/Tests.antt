-- ===== src/Tests.antt =====
-- Runs of the model, and each theorem at a concrete input.
mod Board
mod Clock
mod Fog
mod Offers
mod Journal
mod Projection
mod Persistence
mod Server
use crownline.Prelude.{
  ◌+◌, ◌<◌, ◌≡◌, refl, true, false, not, ◌&&◌, is_some, is_empty, List, [], none, some, is_ok, ◌∷◌,
  is_ok-cases, ok, keep, contains, Sorted, Ensures, arith, leb, pos, negsuc, u64_max, inl,
}
use crownline.Prelude.Map
use crownline.Scenario.Types.{
  coord_eq, coord_beq_iff, is_within, north, south, opponent, player_beq, rook,
}
use crownline.Scenario.Validate.{validate}
use crownline.Scenario.Sound.{Playable, validate-Playable}
use crownline.State.Types.{
  MatchState, Piece, deployed, Action, move, choose_promotion, place_pawn_at, to_knight, to_queen,
  RealmControlScore, total, from_control, allows, SettlementState, ClockState, timeout,
}
use crownline.State.Invariants.{validate_invariants}
use crownline.State.Create.{from_scenario}
use crownline.State.Repetition.{repetition_key}
use crownline.State.WellFormed.{WellFormed, validate-WellFormed, WellFormed-validate}
use crownline.State.Vision.{
  visible_coordinates_unchecked, update_exploration, validate_exploration, VisibilityCache,
  cache_key, cache_visible,
}
use crownline.State.Knowledge.{ExploredOnBoard, update_exploration-validate_exploration}
use crownline.State.Sight.{
  in_sight, visible_coordinates_unchecked-contains, Explores, update_exploration-explored,
}
use crownline.Board.Geometry.{new, Offset}
use crownline.Board.Rays.{ray_fuel, ray_loop, ray}
use crownline.Board.Attacks.{attacks_from, attack_path_to, is_square_attacked}
use crownline.Board.Agreement.{attacks_from-attack_path_to}
use crownline.Board.Reach.{Enterable, ray-enough, ray-Enterable}
use crownline.Board.Locality.{is_square_attacked-pieces}
use crownline.Board.Moves.{LegalMove, quiet, legal_move_le}
use crownline.Rules.Moving.{clear_piece_references}
use crownline.Rules.Legality.{is_in_check, legal_moves, legal, inspect_move, attack_lines}
use crownline.Rules.Inspection.{
  attack_lines-is_square_attacked, legal_moves-Sorted, inspect_move-In,
}
use crownline.Rules.Settlements.{resolve_transfer_candidates}
use crownline.Rules.Cycles.{complete_cycle}
use crownline.Rules.Choices.{sort_mandatory_choices}
use crownline.Rules.Promotions.{promotion_required_score, pending}
use crownline.Rules.Command.{record_repetition}
use crownline.Rules.Recruitment.{apply_promotion_choice, apply_pawn_placement}
use crownline.Rules.Events.{Transition}
use crownline.Rules.Opening.{from_scenario-check_action}
use crownline.Rules.Action.{check_action, apply_action}
use crownline.Rules.Conduct.{Advances, apply_action-Advances}
use crownline.Rules.Authority.{MayAct, apply_action-MayAct}
use crownline.Rules.Safety.{apply_action-safe}
use crownline.Rules.Integrity.{apply_action-WellFormed}
use crownline.Rules.Identity.{apply_action-Issues}
use crownline.Rules.Identity.Maps.{Below, Issues}
use crownline.Rules.Claims.{
  Pairwise, Forgotten, clear_piece_references-Forgotten, AllResolved,
  resolve_transfer_candidates-Resolved,
}
use crownline.Rules.Development.{
  WithinCycles, complete_cycle-WithinCycles, complete_cycle-established,
}
use crownline.Rules.Queue.{Ordered, sort_mandatory_choices-Ordered}
use crownline.Rules.Rewards.{
  from_control-allows, Promotes, apply_promotion_choice-Promotes, PlacedOnEmpty,
  apply_pawn_placement-Placed,
}
use crownline.Rules.Threefold.{Counted, record_repetition-Counted}
use crownline.Clock.{start_clocks, remaining_for, advance_clock, apply_timed_action}
use crownline.Clock.Charge.{
  ChargeDone, advance_clock-ChargeDone, apply_timed_action-timeout, Started, start_clocks-bounds,
}
use crownline.Match.{created, acted, Sound, Reachable-Sound}
use crownline.Evaluation.{evaluation}
use crownline.Examples.{
  at, demo, demo_digest, foggy, start, claimed, promoting, producing, clocked_start,
}

-- The move on which most of the examples stand.
abbrev claim : Action
claim = move south 3 (at 3 3)

claim-is_ok : is_ok (apply_action demo_digest demo start claim) ≡ true
unfolding evaluation
claim-is_ok = refl

abbrev claim_transition : Transition
claim_transition = (is_ok-cases (apply_action demo_digest demo start claim) claim-is_ok).0

claim-eq : apply_action demo_digest demo start claim ≡ ok claim_transition
claim-eq = (is_ok-cases (apply_action demo_digest demo start claim) claim-is_ok).1

-- The choices that the longer games come to are accepted.
promotion-is_ok :
    is_ok (apply_action demo_digest demo promoting (choose_promotion north 0 to_knight)) ≡ true
unfolding evaluation
promotion-is_ok = refl

placement-is_ok :
    is_ok (apply_action demo_digest demo producing (place_pawn_at south 0 (at 4 3))) ≡ true
unfolding evaluation
placement-is_ok = refl

start-eq : from_scenario demo_digest demo ≡ ok start
unfolding evaluation
start-eq = refl

start-valid : validate_invariants start ≡ ok tt
unfolding evaluation
start-valid = refl

demo-valid : validate demo ≡ ok tt
unfolding evaluation
demo-valid = refl

start-Below : Below start.next_piece_id start.pieces
unfolding evaluation
start-Below = ground arith

Reachable-Sound_example : Sound claim_transition.state
Reachable-Sound_example =
    Reachable-Sound demo_digest demo claim_transition.state
      (acted start claim claim_transition (created start start-eq) claim-eq)

apply_action-safe_example : is_in_check demo claim_transition.state south ≡ ok false
apply_action-safe_example = apply_action-safe demo_digest demo start claim refl claim-eq

apply_action-MayAct_example : (start.outcome ≡ none) × MayAct start claim
apply_action-MayAct_example = apply_action-MayAct demo_digest demo start claim claim-eq

apply_action-Advances_example : Advances true start claim_transition.state
apply_action-Advances_example = apply_action-Advances demo_digest demo start claim claim-eq

apply_action-WellFormed_example : WellFormed claim_transition.state
apply_action-WellFormed_example = apply_action-WellFormed demo_digest demo start claim claim-eq

apply_action-Issues_example :
    Issues start claim_transition.state
    × Below claim_transition.state.next_piece_id claim_transition.state.pieces
apply_action-Issues_example = apply_action-Issues demo_digest demo start claim start-Below claim-eq

validate-WellFormed_example : WellFormed start
validate-WellFormed_example = validate-WellFormed start start-valid

WellFormed-validate_example : validate_invariants start ≡ ok tt
WellFormed-validate_example = WellFormed-validate start (validate-WellFormed start start-valid)

validate-Playable_example : Playable demo
validate-Playable_example = validate-Playable demo demo-valid

-- The legal moves at the start.
start_moves-is_ok : is_ok (legal_moves demo start) ≡ true
unfolding evaluation
start_moves-is_ok = refl

abbrev start_moves : List LegalMove
start_moves = (is_ok-cases (legal_moves demo start) start_moves-is_ok).0

abbrev advance : LegalMove
advance = record { piece = 3; from = at 3 4; to = at 3 3; kind = quiet }

advance-legal : inspect_move demo start 3 (at 3 3) ≡ ok (legal advance)
unfolding evaluation
advance-legal = refl

apply_promotion_choice-Promotes_example :
    Ensures
      (Promotes demo promoting north 0 to_knight)
      (apply_promotion_choice demo promoting north 0 to_knight)
apply_promotion_choice-Promotes_example =
    apply_promotion_choice-Promotes demo promoting north 0 to_knight

apply_pawn_placement-Placed_example :
    Ensures
      (PlacedOnEmpty producing south 0 (at 4 3))
      (apply_pawn_placement producing south 0 (at 4 3))
apply_pawn_placement-Placed_example = apply_pawn_placement-Placed producing south 0 (at 4 3)

resolve_transfer_candidates-Resolved_example :
    Ensures (AllResolved demo claimed south) (resolve_transfer_candidates demo claimed south)
resolve_transfer_candidates-Resolved_example =
    resolve_transfer_candidates-Resolved demo claimed south

-- A settlement of South's at the end of its first whole cycle.
abbrev holding : SettlementState
holding = record {
  site_index = 0;
  owner = some south;
  founder = some 3;
  establishment_progress = 0;
  established = false;
  production_progress = 0;
  produced_pawn = none;
  cycle_interrupted = false;
  completed_cycle_continuous = false;
  transfer_candidate = none;
}

complete_cycle-established_example :
    let s' = complete_cycle demo.rules south [] holding in
    (s'.established ≡ true)
    × (s'.completed_cycle_continuous ≡ true)
    × (s'.cycle_interrupted ≡ false)
    × (s'.owner ≡ some south)
    × (s'.founder ≡ some 3)
complete_cycle-established_example =
    complete_cycle-established demo.rules south [] holding refl (omega arith) (omega arith)

complete_cycle-WithinCycles_example :
    WithinCycles demo.rules (complete_cycle demo.rules south [] holding)
complete_cycle-WithinCycles_example =
    complete_cycle-WithinCycles demo.rules south [] holding
      (record { establishment = omega arith; production = omega arith })

start-key : repetition_key demo_digest start ≡ ok "south"
unfolding evaluation
start-key = refl

record_repetition-Counted_example :
    Ensures (λ next. Counted start next "south") (record_repetition demo_digest start)
record_repetition-Counted_example = record_repetition-Counted demo_digest start "south" start-key
