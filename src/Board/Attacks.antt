-- ===== src/Board/Attacks.antt =====
-- Attacks in crates/crownline_core/src/rules.rs: where a piece strikes, and who strikes a square.
use crownline.Prelude.{
  Bool, Option, none, some, List, [], ◌∷◌, if◌then◌else◌, keep, any, filter_map, contains, pos,
  negsuc,
}
use crownline.Prelude.Map
use crownline.Scenario.Types.{
  Coord, coord_eq, Player, player_beq, PieceKind, king, queen, rook, bishop, knight, pawn,
}
use crownline.State.Types.{Piece}
use crownline.Board.Geometry.{
  Board, Offset, rook_directions, bishop_directions, queen_directions, king_offsets, knight_offsets,
  jump_destination, step, pawn_direction,
}
use crownline.Board.Rays.{slider_attacks, slider_path}

unfoldable pub jump_attacks : Board → Piece → List Offset → List Coord
jump_attacks board piece offsets = filter_map (jump_destination board piece.at) offsets

unfoldable pub step_attacks : Board → Piece → List Offset → List Coord
step_attacks board piece offsets = filter_map (step board piece) offsets

-- The two forward diagonals.
abbrev pub pawn_offsets : Board → Piece → List Offset
pawn_offsets board piece =
    let direction = pawn_direction board.scenario piece.owner in
    (negsuc 0, direction) ∷ (pos 1, direction) ∷ []

abbrev pub attacks_of : PieceKind → Board → Piece → List Coord
attacks_of queen board piece = slider_attacks board piece queen_directions
attacks_of rook board piece = slider_attacks board piece rook_directions
attacks_of bishop board piece = slider_attacks board piece bishop_directions
attacks_of knight board piece = jump_attacks board piece knight_offsets
attacks_of king board piece = step_attacks board piece king_offsets
attacks_of pawn board piece = step_attacks board piece (pawn_offsets board piece)

unfoldable pub attacks_from : Board → Piece → List Coord
attacks_from board piece = attacks_of piece.kind board piece

-- The straight path to a target that a jump or a step attacks.
abbrev pub short_path : Piece → Coord → List Coord → Option (List Coord)
short_path piece target attacks =
    if contains attacks target then some (piece.at ∷ target ∷ []) else none

abbrev pub attack_path_of : PieceKind → Board → Piece → Coord → Option (List Coord)
attack_path_of queen board piece target = slider_path board piece target queen_directions
attack_path_of rook board piece target = slider_path board piece target rook_directions
attack_path_of bishop board piece target = slider_path board piece target bishop_directions
attack_path_of knight board piece target =
    short_path piece target (jump_attacks board piece knight_offsets)
attack_path_of king board piece target =
    short_path piece target (step_attacks board piece king_offsets)
attack_path_of pawn board piece target =
    short_path piece target (step_attacks board piece (pawn_offsets board piece))

unfoldable pub attack_path_to : Board → Piece → Coord → Option (List Coord)
attack_path_to board piece target = attack_path_of piece.kind board piece target

unfoldable pub is_square_attacked : Board → Coord → Player → Bool
is_square_attacked board at by =
    any (λ piece. contains (attacks_from board piece) at)
      (keep (λ piece. player_beq piece.owner by) (Map.values board.state.pieces))
