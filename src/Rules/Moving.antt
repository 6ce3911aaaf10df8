-- ===== src/Rules/Moving.antt =====
-- `apply_move_unchecked` of crates/crownline_core/src/rules.rs and what it calls.
use crownline.Prelude.{
  Bool, true, not, ◌&&◌, ◌||◌, Option, none, some, List, [], ◌∷◌, if◌then◌else◌, find, keep,
  is_none_or, any, contains, ◌==◌, string_eq, String, option_beq, nat_eq, Result, ok, ◌>>=◌, ◌>>◌,
  ensure, ok_or,
}
use crownline.Prelude.Map
use crownline.Prelude.Map.{Map}
use crownline.Scenario.Types.{
  Coord, coord_beq, Player, opponent, player_beq, king, rook, kind_beq, CastlingRoute,
  ScenarioDefinition,
}
use crownline.State.Types.{PieceId, Piece, SettlementState, MatchState}
use crownline.State.Errors.{
  TransitionError, missing_piece, cannot_capture_king, invalid_castling_route, illegal_move,
}
use crownline.Board.Geometry.{offset_axis, pawn_direction}
use crownline.Board.Moves.{
  MoveKind, quiet, capture, en_passant_capture, castle, pawn_double_step, LegalMove,
}

-- `pieces.get(&id).cloned().ok_or(MissingPiece(id))?`.
unfoldable pub piece_of : MatchState → PieceId → Result Piece TransitionError
piece_of state id = ok_or (Map.get id state.pieces) (missing_piece id)

-- What losing a piece does to one settlement.
unfoldable pub forget_piece : PieceId → SettlementState → SettlementState
forget_piece captured s =
    let is_founder = option_beq s.founder (some captured) in
    record s {
      founder = if is_founder then none else s.founder;
      cycle_interrupted = if is_founder then true else s.cycle_interrupted;
      produced_pawn = if option_beq s.produced_pawn (some captured) then none else s.produced_pawn;
      transfer_candidate =
          if option_beq s.transfer_candidate (some captured) then none else s.transfer_candidate;
    }

unfoldable pub forget_in : PieceId → List SettlementState → List SettlementState
unfolding forget_piece
forget_in captured [] = []
forget_in captured (s ∷ rest) = forget_piece captured s ∷ forget_in captured rest

unfoldable pub clear_piece_references : MatchState → PieceId → MatchState
clear_piece_references state captured = record state {
  promotion_candidates = Map.remove captured state.promotion_candidates;
  settlements = forget_in captured state.settlements;
}

-- `scenario.castling_routes.iter().find(|route| route.id == *route_id)`.
abbrev pub route_named : ScenarioDefinition → String → Option CastlingRoute
route_named scenario id = find (λ route. route.id == id) scenario.castling_routes

unfoldable pub remove_castling_right_for_rook :
    ScenarioDefinition → MatchState → Player → Coord → MatchState
remove_castling_right_for_rook scenario state owner at = record state {
  available_castling_routes =
      keep
        (λ id.
          is_none_or (route_named scenario id)
            (λ route. not (player_beq route.player owner) || not (coord_beq route.rook_start at)))
        state.available_castling_routes;
}

unfoldable pub remove_castling_rights_for_king :
    ScenarioDefinition → MatchState → Player → MatchState
remove_castling_rights_for_king scenario state owner = record state {
  available_castling_routes =
      keep
        (λ id. is_none_or (route_named scenario id) (λ route. not (player_beq route.player owner)))
        state.available_castling_routes;
}

abbrev pub castling_route_for :
    ScenarioDefinition → MatchState → Piece → Coord → CastlingRoute → Bool
castling_route_for scenario state royal destination route =
    player_beq route.player royal.owner
    && coord_beq route.king_start royal.at
    && coord_beq route.king_destination destination
    && contains state.available_castling_routes route.id

abbrev pub is_castling_rook : Piece → CastlingRoute → Piece → Bool
is_castling_rook royal route piece =
    player_beq piece.owner royal.owner
    && kind_beq piece.kind rook
    && coord_beq piece.at route.rook_start
    && not piece.has_moved

-- The first such rook, moved where it stands in the map.
unfoldable pub move_castling_rook : Piece → CastlingRoute → Map Piece → Map Piece
move_castling_rook royal route [] = []
move_castling_rook royal route ((id, piece) ∷ rest) =
    if is_castling_rook royal route piece
    then (id, record piece { at = route.rook_destination; has_moved = true }) ∷ rest
    else (id, piece) ∷ move_castling_rook royal route rest

unfoldable pub apply_castling_rook :
    ScenarioDefinition → MatchState → Piece → Coord → Result MatchState TransitionError
apply_castling_rook scenario state royal destination = do
  route ←
      ok_or (find (castling_route_for scenario state royal destination) scenario.castling_routes)
        invalid_castling_route
  ensure (any (is_castling_rook royal route) (Map.values state.pieces)) invalid_castling_route
  ok (record state { pieces = move_castling_rook royal route state.pieces })

-- The arm of `Capture` and `EnPassant`.
unfoldable pub apply_capture :
    ScenarioDefinition → MatchState → PieceId → Result MatchState TransitionError
apply_capture scenario state captured = do
  victim ← piece_of state captured
  ensure (not (kind_beq victim.kind king)) cannot_capture_king
  let cleared =
      clear_piece_references (record state { pieces = Map.remove captured state.pieces }) captured
  ok (remove_castling_right_for_rook scenario cleared victim.owner victim.at)

unfoldable pub apply_move_kind :
    ScenarioDefinition → MatchState → Piece → Coord → MoveKind → Result MatchState TransitionError
apply_move_kind scenario state moving to (capture captured) = apply_capture scenario state captured
apply_move_kind scenario state moving to (en_passant_capture captured) =
    apply_capture scenario state captured
apply_move_kind scenario state moving to castle = apply_castling_rook scenario state moving to
apply_move_kind scenario state moving to quiet = ok state
apply_move_kind scenario state moving to pawn_double_step = ok state

-- The castling rights that the moving piece gives up.
unfoldable pub drop_castling_rights : ScenarioDefinition → MatchState → Piece → MatchState
drop_castling_rights scenario state moving =
    if kind_beq moving.kind king
    then remove_castling_rights_for_king scenario state moving.owner
    else if kind_beq moving.kind rook
    then remove_castling_right_for_rook scenario state moving.owner moving.at
    else state

-- A double step leaves the square that it passed open to one reply.
unfoldable pub set_en_passant :
    ScenarioDefinition → MatchState → Piece → Coord → MoveKind → Result MatchState TransitionError
set_en_passant scenario state moving to pawn_double_step = do
  capture_y ←
      ok_or (offset_axis moving.at.y (pawn_direction scenario moving.owner))
        (illegal_move moving.id to)
  ok (record state {
    en_passant = some (record {
      pawn = moving.id;
      capture_destination = record { x = moving.at.x; y = capture_y };
      expires_for = opponent moving.owner;
    });
  })
set_en_passant scenario state moving to quiet = ok state
set_en_passant scenario state moving to castle = ok state
set_en_passant scenario state moving to (capture captured) = ok state
set_en_passant scenario state moving to (en_passant_capture captured) = ok state

-- `piece.at = candidate.to; piece.has_moved = true`.
unfoldable pub relocate : MatchState → PieceId → Coord → Result MatchState TransitionError
relocate state id to = do
  piece ← piece_of state id
  ok (record state {
    pieces = Map.insert id (record piece { at = to; has_moved = true }) state.pieces;
  })

unfoldable pub apply_move_unchecked :
    ScenarioDefinition → MatchState → LegalMove → Result MatchState TransitionError
apply_move_unchecked scenario state candidate = do
  moving ← piece_of state candidate.piece
  taken ←
      apply_move_kind scenario (record state { en_passant = none }) moving candidate.to
        candidate.kind
  moved ← relocate taken candidate.piece candidate.to
  set_en_passant scenario (drop_castling_rights scenario moved moving) moving candidate.to
      candidate.kind
