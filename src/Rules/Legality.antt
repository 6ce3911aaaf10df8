-- ===== src/Rules/Legality.antt =====
-- Check and legal moves in crates/crownline_core/src/rules.rs.
use crownline.Prelude.{
  Bool, not, ◌&&◌, ◌||◌, Option, none, some, List, [], ◌∷◌, ◌++◌, if◌then◌else◌, find, keep,
  sort_by, is_some, is_none, ◌==◌, string_eq, Result, ok, ◌>>=◌, ◌>>◌, ensure, ok_or, map_err,
}
use crownline.Prelude.Map
use crownline.Scenario.Types.{
  Coord, coord_beq, is_within, Player, opponent, player_beq, king, kind_beq, ScenarioDefinition,
}
use crownline.Scenario.Validate.{validate}
use crownline.State.Types.{PieceId, Piece, MatchState, is_command}
use crownline.State.Errors.{
  TransitionError, invalid_scenario, scenario_mismatch, missing_king, match_finished,
  wrong_turn_phase, coordinate_out_of_bounds, missing_piece, wrong_player,
}
use crownline.State.Invariants.{validate_invariants}
use crownline.State.Vision.{check_context}
use crownline.Board.Geometry.{new}
use crownline.Board.Governance.{AttackLine}
use crownline.Board.Attacks.{attack_path_to, is_square_attacked}
use crownline.Board.Moves.{LegalMove, legal_move_le, pseudo_legal_moves}
use crownline.Rules.Moving.{apply_move_unchecked}

abbrev pub is_king_of : Player → Piece → Bool
is_king_of player piece = player_beq piece.owner player && kind_beq piece.kind king

unfoldable pub is_in_check : ScenarioDefinition → MatchState → Player → Result Bool TransitionError
is_in_check scenario state player = do
  royal ← ok_or (find (is_king_of player) (Map.values state.pieces)) (missing_king player)
  ok (is_square_attacked (new scenario state) royal.at (opponent player))

unfoldable pub move_preserves_king :
    ScenarioDefinition → MatchState → LegalMove → Result Bool TransitionError
move_preserves_king scenario state candidate = do
  simulated ← apply_move_unchecked scenario state candidate
  check ← is_in_check scenario simulated state.active_player
  ok (not check)

-- The inner loop of `legal_moves`.
unfoldable pub preserving_moves :
    ScenarioDefinition → MatchState → List LegalMove → Result (List LegalMove) TransitionError
preserving_moves scenario state [] = ok []
preserving_moves scenario state (candidate ∷ rest) = do
  preserved ← move_preserves_king scenario state candidate
  moves ← preserving_moves scenario state rest
  ok (if preserved then candidate ∷ moves else moves)

-- The outer loop, over the pieces of the active player.
unfoldable pub piece_moves :
    ScenarioDefinition → MatchState → List Piece → Result (List LegalMove) TransitionError
piece_moves scenario state [] = ok []
piece_moves scenario state (piece ∷ rest) = do
  moves ← preserving_moves scenario state (pseudo_legal_moves (new scenario state) piece)
  more ← piece_moves scenario state rest
  ok (moves ++ more)

-- The pieces of the active player, in the order of their identifiers.
unfoldable pub active_pieces : MatchState → List Piece
active_pieces state =
    keep (λ piece. player_beq piece.owner state.active_player) (Map.values state.pieces)

unfoldable pub legal_moves :
    ScenarioDefinition → MatchState → Result (List LegalMove) TransitionError
legal_moves scenario state = do
  validate_invariants state
  (if is_some state.outcome || not (is_command state.phase) then ok [] else do
    moves ← piece_moves scenario state (active_pieces state)
    ok (sort_by legal_move_le moves))

pub data MoveUnavailability : Type 0 where
  not_a_legal_movement exposes_king : MoveUnavailability

pub data MoveInspection : Type 0 where
  legal : LegalMove → MoveInspection
  unavailable : MoveUnavailability → MoveInspection

-- What the search among the pseudo-legal moves gives.
unfoldable pub inspect_candidate :
    ScenarioDefinition → MatchState → Option LegalMove → Result MoveInspection TransitionError
inspect_candidate scenario state none = ok (unavailable not_a_legal_movement)
inspect_candidate scenario state (some candidate) = do
  preserved ← move_preserves_king scenario state candidate
  ok (if preserved then legal candidate else unavailable exposes_king)

unfoldable pub inspect_move :
    ScenarioDefinition → MatchState → PieceId → Coord → Result MoveInspection TransitionError
inspect_move scenario state piece_id to = do
  check_context scenario state
  ensure (is_none state.outcome) match_finished
  ensure (is_command state.phase) wrong_turn_phase
  ensure (is_within to scenario.board) (coordinate_out_of_bounds to)
  piece ← ok_or (Map.get piece_id state.pieces) (missing_piece piece_id)
  ensure (player_beq piece.owner state.active_player) (wrong_player state.active_player piece.owner)
  inspect_candidate scenario state
      (find (λ m. coord_beq m.to to) (pseudo_legal_moves (new scenario state) piece))

-- The lines on which the pieces of a player strike a square.
unfoldable pub attack_lines : ScenarioDefinition → MatchState → Coord → List Piece → List AttackLine
attack_lines scenario state target [] = []
attack_lines scenario state target (piece ∷ rest) =
    let lines = attack_lines scenario state target rest in
    elim (attack_path_to (new scenario state) piece target) [
      | none ↦ lines
      | some path ↦ record { attacker = piece.id; path = path } ∷ lines
    ]

unfoldable pub attack_lines_on :
    ScenarioDefinition → MatchState → Coord → Player → Result (List AttackLine) TransitionError
attack_lines_on scenario state target by = do
  map_err (validate scenario) invalid_scenario
  validate_invariants state
  ensure (state.scenario_id == scenario.id) (scenario_mismatch state.scenario_id scenario.id)
  ensure (is_within target scenario.board) (coordinate_out_of_bounds target)
  ok (
      attack_lines scenario state target
        (keep (λ piece. player_beq piece.owner by) (Map.values state.pieces)))
