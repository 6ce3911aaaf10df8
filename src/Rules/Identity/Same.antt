-- ===== src/Rules/Identity/Same.antt =====
-- The pieces across the steps of crates/crownline_core/src/rules.rs that do not write them.
use crownline.Prelude.{◌≡◌, none, arith, Ensures}
use crownline.Scenario.Types.{Coord, Player, ScenarioDefinition}
use crownline.State.Types.{Piece, MatchState, Action}
use crownline.State.Errors.{cannot_hold_in_check}
use crownline.State.NonBoard.{non_board_step, bump_revision, apply_non_board_action}
use crownline.State.Steps.{from_step}
use crownline.Board.Moves.{MoveKind}
use crownline.Rules.Moving.{
  remove_castling_right_for_rook, remove_castling_rights_for_king, drop_castling_rights,
  set_en_passant,
}
use crownline.Rules.Command.{
  ensure_command_actor, ensure_safe, pass_turn, finish_command, apply_hold,
}

-- The same pieces, and the same next identifier.
abbrev pub SamePieces : MatchState → MatchState → Type 0
SamePieces a b = (b.pieces ≡ a.pieces) × (b.next_piece_id ≡ a.next_piece_id)

module _ (scenario : ScenarioDefinition) where
  pub drop-SamePieces :
      (b : MatchState) (moving : Piece) → SamePieces b (drop_castling_rights scenario b moving)
  unfolding drop_castling_rights remove_castling_right_for_rook remove_castling_rights_for_king
  drop-SamePieces b moving = ground arith

  pub en_passant-SamePieces :
      (b : MatchState) (moving : Piece) (to : Coord) (kind : MoveKind)
      → Ensures (SamePieces b) (set_en_passant scenario b moving to kind)
  unfolding set_en_passant
  en_passant-SamePieces b moving to kind = ground arith

  pub finish-SamePieces :
      (b : MatchState) (player : Player) → Ensures (SamePieces b) (finish_command scenario b player)
  unfolding finish_command pass_turn
  finish-SamePieces b player = ground arith

  pub apply_hold-SamePieces :
      (b : MatchState) (player : Player) → Ensures (SamePieces b) (apply_hold scenario b player)
  unfolding apply_hold
  apply_hold-SamePieces b player = from_step (SamePieces b) (ensure_command_actor b player) _ λ _ _.
      from_step (SamePieces b) (ensure_safe scenario b player cannot_hold_in_check) _
        λ _ _. finish-SamePieces (record b { en_passant = none }) player

pub non_board-SamePieces :
    (b : MatchState) (action : Action) → Ensures (SamePieces b) (apply_non_board_action b action)
unfolding apply_non_board_action non_board_step bump_revision
non_board-SamePieces b action = ground arith
