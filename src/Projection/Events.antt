-- ===== src/Projection/Events.antt =====
-- `project_events` of crates/crownline_core/src/projection.rs.
use crownline.Prelude.{
  ℕ, ◌||◌, Bool, true, false, Option, none, some, List, [], ◌∷◌, if◌then◌else◌, find, is_some_and,
  get_elem?, contains, nat_beq, option_beq, ok, err, Result,
}
use crownline.Prelude.Map
use crownline.Prelude.Map.{Map}
use crownline.Scenario.Types.{Coord, coord_eq, Player, player_beq, player_eq, ScenarioDefinition}
use crownline.State.Types.{PieceId, MatchState}
use crownline.State.Errors.{TransitionError}
use crownline.State.Vision.{visible_coordinates}
use crownline.Rules.Events.{
  TransitionEvent, piece_moved, piece_captured, clock_advanced, clock_increment_applied,
  piece_promoted, pawn_produced, settlement_continuity_interrupted, settlement_cycle_started,
  settlement_claimed, settlement_contested, settlement_transfer_cancelled, settlement_transferred,
  settlement_development_advanced, settlement_established, settlement_production_advanced,
  settlement_production_reset, pawn_placement_ready, draw_offered, draw_answered, turn_started,
  match_ended,
}
use crownline.Projection.Types.{
  PlayerEvent, own_piece_moved, own_piece_captured, own_piece_promoted, own_pawn_produced,
  observed_settlement_changed, clock_changed, draw_changed, turn_begun, match_over, action_resolved,
}

-- `unwrap_or_default` of the squares that the seat sees.
abbrev pub visible_or_none : Result (List Coord) TransitionError → List Coord
visible_or_none (ok cs) = cs
visible_or_none (err e) = []

-- The seat's piece of this identifier, before or after.
unfoldable pub owns : MatchState → Player → PieceId → Bool
owns state seat id = is_some_and (Map.get id state.pieces) (λ piece. player_beq piece.owner seat)

unfoldable pub settlement_permitted :
    ScenarioDefinition → MatchState → Player → List Coord → ℕ → Bool
settlement_permitted scenario after seat visible index =
    is_some_and (get_elem? scenario.settlements index) (λ site. contains visible site.at)
    || is_some_and (find (λ s. nat_beq s.site_index index) after.settlements)
        (λ s. option_beq s.owner (some seat))

-- The settlement that an event is about, of those that may be observed.
abbrev pub settlement_index : TransitionEvent → Option ℕ
settlement_index (settlement_continuity_interrupted index) = some index
settlement_index (settlement_cycle_started index player continuous) = some index
settlement_index (settlement_claimed index owner founder) = some index
settlement_index (settlement_contested index candidate) = some index
settlement_index (settlement_transfer_cancelled index candidate) = some index
settlement_index (settlement_transferred index previous owner founder) = some index
settlement_index (settlement_development_advanced index progress) = some index
settlement_index (settlement_established index) = some index
settlement_index (settlement_production_advanced index progress) = some index
settlement_index (settlement_production_reset index) = some index
settlement_index (pawn_placement_ready index squares) = some index
settlement_index _ = none

abbrev pub event_when : Bool → PlayerEvent → Option PlayerEvent
event_when test event = if test then some event else none

-- The `match` of the loop: what of an event may be told as it is.
unfoldable pub safe_event : MatchState → MatchState → Player → TransitionEvent → Option PlayerEvent
unfolding owns
safe_event before after seat (piece_moved piece from to) =
    event_when (owns after seat piece) (own_piece_moved piece from to)
safe_event before after seat (piece_captured piece place) =
    event_when (owns before seat piece) (own_piece_captured piece)
safe_event before after seat (piece_promoted pawn promoted kind place) =
    event_when (owns after seat promoted) (own_piece_promoted pawn promoted kind place)
safe_event before after seat (pawn_produced index pawn place) =
    event_when (owns after seat pawn) (own_pawn_produced index pawn place)
safe_event before after seat (clock_advanced player elapsed remaining) = some clock_changed
safe_event before after seat (clock_increment_applied player increment remaining) =
    some clock_changed
safe_event before after seat (draw_offered player) = some draw_changed
safe_event before after seat (draw_answered player accepted) = some draw_changed
safe_event before after seat (turn_started player turn) = some (turn_begun player turn)
safe_event before after seat (match_ended outcome) = some (match_over outcome)
safe_event before after seat _ = none

-- What an event becomes: an event for the seat, or one that is told of only as an action.
abbrev pub observed : (ℕ → Bool) → Option ℕ → Option PlayerEvent
observed permitted none = none
observed permitted (some index) = event_when (permitted index) (observed_settlement_changed index)

abbrev pub or_observed : Option PlayerEvent → Option PlayerEvent → Option PlayerEvent
or_observed none other = other
or_observed (some event) other = some event

unfoldable pub project_event :
    ScenarioDefinition
    → MatchState
    → MatchState
    → Player
    → List Coord
    → TransitionEvent
    → Option PlayerEvent
unfolding safe_event settlement_permitted
project_event scenario before after seat visible event =
    or_observed (safe_event before after seat event)
      (observed (settlement_permitted scenario after seat visible) (settlement_index event))

-- The loop, with `collapsed_opponent` so far.
unfoldable pub project_each :
    (TransitionEvent → Option PlayerEvent) → Player → Bool → List TransitionEvent → List PlayerEvent
project_each project active collapsed [] = if collapsed then action_resolved active ∷ [] else []
project_each project active collapsed (event ∷ rest) = elim (project event) [
  | some told ↦ told ∷ project_each project active collapsed rest
  | none ↦ project_each project active true rest
]

unfoldable pub project_events :
    ScenarioDefinition → MatchState → MatchState → Player → List TransitionEvent → List PlayerEvent
unfolding project_event project_each
project_events scenario before after seat events =
    let visible = visible_or_none (visible_coordinates scenario after seat) in
    project_each (project_event scenario before after seat visible) before.active_player false
      events
