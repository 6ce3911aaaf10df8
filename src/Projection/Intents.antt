-- ===== src/Projection/Intents.antt =====
-- The methods of `PlayerView` and `apply_player_intent` in crates/crownline_core/src/projection.rs.
use crownline.Prelude.{
  ℕ, ◌+◌, not, ◌&&◌, ◌||◌, Bool, true, false, Option, none, some, List, [], ◌∷◌, map, if◌then◌else◌,
  keep, find, contains, nat_beq, leb, abs_diff, ℤ, pos, negsuc, int_beq, sub_ℕ, Result, ◌>>◌,
  ensure, map_err,
}
use crownline.Prelude.Map
use crownline.Prelude.Map.{Map}
use crownline.Scenario.CoordSet
use crownline.Scenario.Types.{
  Coord, coord_beq, coord_eq, Player, player_beq, PieceKind, king, queen, rook, bishop, knight,
  pawn, kind_beq, is_mountain, ScenarioDefinition,
}
use crownline.State.Types.{PieceId, MatchState, Action}
use crownline.State.Repetition.{Digest}
use crownline.Rules.Events.{Transition, action_player}
use crownline.Rules.Action.{apply_action}
use crownline.Projection.Types.{
  KnownSquare, ViewPiece, SettlementView, ViewMandatoryChoice, promote_view, place_pawn_view,
  ViewTurnPhase, command_view, own_choices, private_choice, PlayerView, HoverView,
  PlayerIntentError, illegal_intent,
}

unfoldable pub hover : PlayerView → Coord → Option HoverView
hover view at = elim (find (λ square. coord_beq square.at at) view.squares) [
  | none ↦ none
  | some square ↦ some (record {
    at = at;
    currently_visible = contains view.visible at;
    square = square;
    piece = find (λ piece. coord_beq piece.at at) (Map.values view.pieces);
  })
]

abbrev double_i32 : ℤ → ℤ
double_i32 (pos n) = pos (n + n)
double_i32 (negsuc n) = negsuc (n + n + 1)

-- What a piece of a kind could reach on an empty board, by the two distances and the signed step.
abbrev pub reaches : PieceKind → ℕ → ℕ → Bool → Bool
reaches king dx dy forward = leb dx 1 && leb dy 1
reaches queen dx dy forward = nat_beq dx 0 || nat_beq dy 0 || nat_beq dx dy
reaches rook dx dy forward = nat_beq dx 0 || nat_beq dy 0
reaches bishop dx dy forward = nat_beq dx dy
reaches knight dx dy forward = nat_beq dx 1 && nat_beq dy 2 || nat_beq dx 2 && nat_beq dy 1
reaches pawn dx dy forward = forward

unfoldable pub piece_geometry_can_reach : ViewPiece → Coord → ℤ → Bool → Bool
piece_geometry_can_reach piece to pawn_forward_y allow_pawn_double_step =
    let dx = abs_diff piece.at.x to.x in
    let dy = abs_diff piece.at.y to.y in
    let forward = sub_ℕ to.y piece.at.y in
    reaches piece.kind dx dy (
      int_beq forward pawn_forward_y && leb dx 1
      || allow_pawn_double_step
        && not piece.has_moved
        && int_beq forward (double_i32 pawn_forward_y)
        && nat_beq dx 0)

-- The squares of the seat's own pieces.
abbrev pub own_occupied : PlayerView → List Coord
own_occupied view =
    map (λ piece. piece.at)
      (keep (λ piece. player_beq piece.owner view.seat) (Map.values view.pieces))

abbrev pub is_command_view : ViewTurnPhase → Bool
is_command_view command_view = true
is_command_view (own_choices queue) = false
is_command_view (private_choice player remaining) = false

abbrev pub may_enter : PlayerView → ViewPiece → Coord → Bool
may_enter view piece at =
    not (coord_beq at piece.at)
    && not (contains (own_occupied view) at)
    && (piece_geometry_can_reach piece at view.pawn_forward_y view.allow_pawn_double_step
        || kind_beq piece.kind king && contains view.own_castling_destinations at)

abbrev pub own_piece : Player → Option ViewPiece → Option ViewPiece
own_piece seat none = none
own_piece seat (some piece) = if player_beq piece.owner seat then some piece else none

unfoldable pub intent_candidates : PlayerView → PieceId → List Coord
unfolding piece_geometry_can_reach
intent_candidates view id =
    if not (player_beq view.active_player view.seat) || not (is_command_view view.phase)
    then []
    else elim (own_piece view.seat (Map.get id view.pieces)) [
      | none ↦ []
      | some piece ↦ keep (may_enter view piece) view.visible
    ]

-- The first choice of the queue is to place a Pawn of this settlement.
abbrev pub places_for : ℕ → List ViewMandatoryChoice → Bool
places_for index [] = false
places_for index (promote_view id site eligibility ∷ rest) = false
places_for index (place_pawn_view queued ∷ rest) = nat_beq queued index

abbrev pub may_place : PlayerView → SettlementView → KnownSquare → Bool
may_place view s square =
    contains view.visible square.at
    && not (is_mountain square.terrain)
    && not (contains (own_occupied view) square.at)
    && leb (abs_diff s.at.x square.at.x) 1
    && leb (abs_diff s.at.y square.at.y) 1
    && not (coord_beq square.at s.at)

abbrev pub place_in : PlayerView → ℕ → List ViewMandatoryChoice → List Coord
place_in view index queue =
    if not (places_for index queue) then [] else elim (Map.get index view.settlements) [
      | none ↦ []
      | some s ↦ CoordSet.of_list (map (λ square. square.at) (keep (may_place view s) view.squares))
    ]

abbrev pub candidates_in : PlayerView → ℕ → ViewTurnPhase → List Coord
candidates_in view index command_view = []
candidates_in view index (own_choices queue) = place_in view index queue
candidates_in view index (private_choice player remaining) = []

unfoldable pub placement_intent_candidates : PlayerView → ℕ → List Coord
placement_intent_candidates view index = candidates_in view index view.phase

unfoldable pub apply_player_intent :
    Digest → ScenarioDefinition → MatchState → Player → Action → Result Transition PlayerIntentError
apply_player_intent digest scenario state seat action = do
  ensure (player_beq (action_player action) seat) illegal_intent
  map_err (apply_action digest scenario state action) (λ _. illegal_intent)
