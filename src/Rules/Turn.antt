-- ===== src/Rules/Turn.antt =====
-- The turn across the steps of `apply_move_unchecked` in crates/crownline_core/src/rules.rs.
use crownline.Prelude.{◌≡◌, none, arith, Ensures}
use crownline.Scenario.Types.{Coord, ScenarioDefinition}
use crownline.State.Types.{PieceId, Piece, MatchState}
use crownline.State.Steps.{from_step, from_state, weaken}
use crownline.Board.Moves.{MoveKind, LegalMove}
use crownline.Rules.Moving.{
  piece_of, clear_piece_references, remove_castling_right_for_rook, remove_castling_rights_for_king,
  apply_castling_rook, apply_capture, apply_move_kind, drop_castling_rights, set_en_passant,
  relocate, apply_move_unchecked,
}

-- Two states that agree on the turn, the clocks and what else a piece's move must leave alone.
pub record SameTurn (a b : MatchState) : Type 0 where
  pub scenario_id : b.scenario_id ≡ a.scenario_id
  pub revision : b.revision ≡ a.revision
  pub turn_number : b.turn_number ≡ a.turn_number
  pub active_player : b.active_player ≡ a.active_player
  pub outstanding_draw_offer : b.outstanding_draw_offer ≡ a.outstanding_draw_offer
  pub clocks : b.clocks ≡ a.clocks
  pub outcome : b.outcome ≡ a.outcome
  pub exploration : b.exploration ≡ a.exploration

pub SameTurn-trans : {a b c : MatchState} → SameTurn a b → SameTurn b c → SameTurn a c
SameTurn-trans p q = ground arith

move_kind-SameTurn :
    (scenario : ScenarioDefinition) (state : MatchState) (moving : Piece) (to : Coord)
    (kind : MoveKind)
    → Ensures (SameTurn state) (apply_move_kind scenario state moving to kind)
unfolding apply_move_kind apply_capture apply_castling_rook clear_piece_references
    remove_castling_right_for_rook
move_kind-SameTurn scenario state moving to kind = ground arith

relocate-SameTurn :
    (state : MatchState) (id : PieceId) (to : Coord)
    → Ensures (SameTurn state) (relocate state id to)
unfolding relocate
relocate-SameTurn state id to = ground arith

drop-SameTurn :
    (scenario : ScenarioDefinition) (state : MatchState) (moving : Piece)
    → SameTurn state (drop_castling_rights scenario state moving)
unfolding drop_castling_rights remove_castling_right_for_rook remove_castling_rights_for_king
drop-SameTurn scenario state moving = ground arith

en_passant-SameTurn :
    (scenario : ScenarioDefinition) (state : MatchState) (moving : Piece) (to : Coord)
    (kind : MoveKind)
    → Ensures (SameTurn state) (set_en_passant scenario state moving to kind)
unfolding set_en_passant
en_passant-SameTurn scenario state moving to kind = ground arith

-- Carrying a move out leaves the turn, the clocks and the outcome alone.
pub apply_move_unchecked-SameTurn :
    (scenario : ScenarioDefinition) (state : MatchState) (candidate : LegalMove)
    → Ensures (SameTurn state) (apply_move_unchecked scenario state candidate)
unfolding apply_move_unchecked
apply_move_unchecked-SameTurn scenario state candidate =
    from_step (SameTurn state) (piece_of state candidate.piece) _ λ moving _.
      from_state (SameTurn state) (SameTurn state)
        (apply_move_kind scenario (record state { en_passant = none }) moving candidate.to
          candidate.kind)
        _
        (weaken (SameTurn (record state { en_passant = none })) (SameTurn state) _
          (λ b p. ground arith) (move_kind-SameTurn scenario _ moving candidate.to candidate.kind))
        λ taken p.
          from_state (SameTurn taken) (SameTurn state) (relocate taken candidate.piece candidate.to)
            _ (relocate-SameTurn taken candidate.piece candidate.to)
            λ moved q.
              weaken (SameTurn (drop_castling_rights scenario moved moving)) (SameTurn state) _
                (λ b r.
                  SameTurn-trans p
                    (SameTurn-trans q (SameTurn-trans (drop-SameTurn scenario moved moving) r)))
                (en_passant-SameTurn scenario _ moving candidate.to candidate.kind)
