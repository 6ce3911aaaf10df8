-- ===== src/Projection/Discretion.antt =====
-- What a seat is told of events and of its intents, in crates/crownline_core/src/projection.rs.
use crownline.Prelude.{ℕ, ◌≡◌, ◌↔◌, ◌⊎◌, Bool, Option, none, some, List, [], ◌∷◌, In, arith, ok}
use crownline.Scenario.Types.{
  Coord, coord_eq, Player, player_eq, player_beq_iff, ScenarioDefinition,
}
use crownline.State.Types.{MatchState, Action}
use crownline.State.Repetition.{Digest}
use crownline.Rules.Events.{
  Transition, TransitionEvent, piece_moved, piece_captured, clock_advanced, clock_increment_applied,
  piece_promoted, pawn_produced, draw_offered, draw_answered, turn_started, match_ended,
  action_player,
}
use crownline.Rules.Action.{apply_action}
use crownline.Projection.Types.{
  PlayerEvent, own_piece_moved, own_piece_captured, own_piece_promoted, own_pawn_produced,
  observed_settlement_changed, clock_changed, draw_changed, turn_begun, match_over, action_resolved,
}
use crownline.Projection.Intents.{apply_player_intent}
use crownline.Projection.Facts.{Has, Concerns, SettlementKnown}

-- What a seat is told has happened, and it may know of the piece or the settlement that is named.
abbrev pub Discreet :
    ScenarioDefinition
    → MatchState
    → MatchState
    → Player
    → List TransitionEvent
    → PlayerEvent
    → Type 0
Discreet scenario before after seat events (own_piece_moved piece from to) =
    In (piece_moved piece from to) events × Has after seat piece
Discreet scenario before after seat events (own_piece_captured piece) =
    ((place : Coord) × In (piece_captured piece place) events) × Has before seat piece
Discreet scenario before after seat events (own_piece_promoted pawn promoted promoted_kind place) =
    In (piece_promoted pawn promoted promoted_kind place) events × Has after seat promoted
Discreet scenario before after seat events (own_pawn_produced index pawn place) =
    In (pawn_produced index pawn place) events × Has after seat pawn
Discreet scenario before after seat events (observed_settlement_changed index) =
    ((e : TransitionEvent) × In e events × Concerns e index)
    × SettlementKnown scenario after seat index
Discreet scenario before after seat events clock_changed =
    (player : Player) × (millis left : ℕ) × (In (clock_advanced player millis left) events
      ⊎ In (clock_increment_applied player millis left) events)
Discreet scenario before after seat events draw_changed =
    (player : Player) × (In (draw_offered player) events
      ⊎ ((accept : Bool) × In (draw_answered player accept) events))
Discreet scenario before after seat events (turn_begun player turn) =
    In (turn_started player turn) events
Discreet scenario before after seat events (match_over outcome) = In (match_ended outcome) events
Discreet scenario before after seat events (action_resolved player) = player ≡ before.active_player

abbrev pub All {ℓ κ} : {A : Type ℓ} → (A → Type κ) → List A → Type κ
All P [] = Unit
All P (x ∷ xs) = P x × All P xs

abbrev pub Maybe {ℓ κ} : {A : Type ℓ} → (A → Type κ) → Option A → Type κ
Maybe P none = Unit
Maybe P (some x) = P x

module _ (scenario : ScenarioDefinition) (before after : MatchState) (seat : Player)
    (events : List TransitionEvent) where
  Fair : PlayerEvent → Type 0
  Fair = Discreet scenario before after seat events

-- A seat's intent is carried out exactly if the action is the seat's own and the rules accept it.
pub apply_player_intent-apply_action :
    (digest : Digest) (scenario : ScenarioDefinition) (state : MatchState) (seat : Player)
    (action : Action) (t : Transition)
    → (apply_player_intent digest scenario state seat action ≡ ok t)
      ↔ ((action_player action ≡ seat) × (apply_action digest scenario state action ≡ ok t))
unfolding apply_player_intent
apply_player_intent-apply_action digest scenario state seat action t =
    ground (arith, player_beq_iff (action_player action) seat)
