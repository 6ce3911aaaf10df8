-- ===== src/Board/Moves.antt =====
-- Pseudo-legal moves in crates/crownline_core/src/rules.rs, one function for each kind of piece.
use crownline.Prelude.{
  ℕ, zero, suc, ◌+◌, Bool, true, false, not, ◌&&◌, ◌||◌, Option, none, some, List, [], ◌∷◌, ◌++◌,
  map, ltb, leb, nat_beq, if◌then◌else◌, is_some, is_none, is_some_and, all, keep, filter_map,
  flat_map, sort_by, abs_diff, ℤ, pos, negsuc, double_i8, string_eq, contains, compare, Ordering,
}
use crownline.Prelude.Map
use crownline.Scenario.Types.{
  Coord, is_within, coord_beq, coord_eq, opponent, player_beq, PieceKind, king, queen, rook, bishop,
  knight, pawn, kind_beq, is_mountain, is_forest, CastlingRoute,
}
use crownline.State.Types.{Piece, PieceId, PieceOrigin, deployed, settlement, promoted}
use crownline.Board.Geometry.{
  Board, Offset, rook_directions, bishop_directions, queen_directions, king_offsets, knight_offsets,
  offset_coord, terrain, can_cross, jump_destination, step, pawn_direction,
}
use crownline.Board.Rays.{ray}
use crownline.Board.Attacks.{is_square_attacked}

pub data MoveKind : Type 0 where
  quiet : MoveKind
  capture : (captured : PieceId) → MoveKind
  en_passant_capture : (captured : PieceId) → MoveKind
  castle : MoveKind
  pawn_double_step : MoveKind

pub record LegalMove : Type 0 where
  pub piece : PieceId
  pub from : Coord
  pub to : Coord
  pub kind : MoveKind

-- The derived order of a `MoveKind`: the place of its variant, then the piece it names.
abbrev pub move_kind_rank : MoveKind → ℕ × ℕ
move_kind_rank quiet = (0, 0)
move_kind_rank (capture captured) = (1, captured)
move_kind_rank (en_passant_capture captured) = (2, captured)
move_kind_rank castle = (3, 0)
move_kind_rank pawn_double_step = (4, 0)

-- `a < b || a == b && rest`, one step of a lexicographic order.
abbrev pub lex : ℕ → ℕ → Bool → Bool
lex a b rest = ltb a b || nat_beq a b && rest

unfoldable pub legal_move_le : LegalMove → LegalMove → Bool
legal_move_le a b =
    let ka = move_kind_rank a.kind in
    let kb = move_kind_rank b.kind in
    lex a.piece b.piece (
      lex a.from.x b.from.x (
        lex a.from.y b.from.y
          (lex a.to.x b.to.x (lex a.to.y b.to.y (lex ka.0 kb.0 (leb ka.1 kb.1))))))

abbrev pub move_to : Piece → Coord → MoveKind → LegalMove
move_to piece to kind = record { piece = piece.id; from = piece.at; to = to; kind = kind }

-- A capture is open against an enemy that is no King.
abbrev pub can_capture : Piece → Piece → Bool
can_capture piece target =
    not (player_beq target.owner piece.owner) && not (kind_beq target.kind king)

unfoldable pub moves_along : Board → Piece → List Coord → List LegalMove
moves_along board piece [] = []
moves_along board piece (target ∷ rest) =
    let further = moves_along board piece rest in
    elim (board.occupancy target) [
      | some occupant ↦
          if can_capture piece occupant then move_to piece target (capture occupant.id) ∷ [] else []
      | none ↦
          move_to piece target quiet ∷ (if is_forest (terrain board target) then [] else further)
    ]

unfoldable pub slider_moves : Board → Piece → List Offset → List LegalMove
slider_moves board piece directions =
    flat_map (λ direction. moves_along board piece (ray board piece direction)) directions

-- A jump or a step to a square: quiet if it is empty, a capture if an enemy may be taken.
unfoldable pub landing : Board → Piece → Coord → Option LegalMove
landing board piece to = elim (board.occupancy to) [
  | none ↦ some (move_to piece to quiet)
  | some target ↦
      if can_capture piece target then some (move_to piece to (capture target.id)) else none
]

unfoldable pub jump_moves : Board → Piece → List Offset → List LegalMove
jump_moves board piece offsets =
    filter_map (landing board piece) (filter_map (jump_destination board piece.at) offsets)

unfoldable pub king_route_clear : Board → Piece → CastlingRoute → Coord → List Coord → Bool
king_route_clear board piece route previous [] = true
king_route_clear board piece route previous (at ∷ rest) =
    let further = king_route_clear board piece route at rest in
    if is_mountain (terrain board at)
      || not (can_cross board piece previous at)
      || not (coord_beq at route.rook_start) && is_some (board.occupancy at)
    then false
    else further

unfoldable pub castling_king_route_clear : Board → Piece → CastlingRoute → Bool
unfolding king_route_clear
castling_king_route_clear board piece route =
    king_route_clear board piece route piece.at route.king_path

-- The direction from `rook_start` to `rook_destination` along one axis.
unfoldable pub axis_direction : Ordering → Ordering → Option Offset
axis_direction Ordering.lt Ordering.eq = some (pos 1, pos 0)
axis_direction Ordering.gt Ordering.eq = some (negsuc 0, pos 0)
axis_direction Ordering.eq Ordering.lt = some (pos 0, pos 1)
axis_direction Ordering.eq Ordering.gt = some (pos 0, negsuc 0)
axis_direction _ _ = none

-- The loop reaches the destination after as many rounds as it is squares away.
unfoldable pub rook_route_loop : ℕ → Board → Piece → CastlingRoute → Offset → Coord → Bool
rook_route_loop zero board tower route direction current = false
rook_route_loop (suc fuel) board tower route direction current =
    elim (offset_coord current direction) [
      | none ↦ false
      | some next ↦
          let further = rook_route_loop fuel board tower route direction next in
          if is_mountain (terrain board next)
            || not (can_cross board tower current next)
            || not (coord_beq next route.king_start) && is_some (board.occupancy next)
          then false
          else if coord_beq next route.rook_destination
          then true
          else if is_forest (terrain board next)
          then false
          else further
    ]

abbrev pub rook_route_fuel : CastlingRoute → ℕ
rook_route_fuel route =
    abs_diff route.rook_start.x route.rook_destination.x
    + abs_diff route.rook_start.y route.rook_destination.y

unfoldable pub castling_rook_route_clear : Board → Piece → CastlingRoute → Bool
unfolding rook_route_loop axis_direction
castling_rook_route_clear board tower route =
    elim (axis_direction (compare route.rook_start.x route.rook_destination.x)
      (compare route.rook_start.y route.rook_destination.y)) [
        | none ↦ false
        | some direction ↦
            rook_route_loop (rook_route_fuel route) board tower route direction route.rook_start
      ]

-- The three filters of `castling_moves`, in their order.
unfoldable pub castling_open : Board → Piece → CastlingRoute → Bool
castling_open board piece route =
    (player_beq route.player piece.owner
      && coord_beq route.king_start piece.at
      && contains board.state.available_castling_routes route.id)
    && is_some_and (board.occupancy route.rook_start) (λ tower.
      player_beq tower.owner piece.owner
      && kind_beq tower.kind rook
      && not tower.has_moved
      && castling_king_route_clear board piece route
      && castling_rook_route_clear board tower route)
    && all (λ at. not (is_square_attacked board at (opponent piece.owner)))
        (route.king_path ++ route.king_destination ∷ [])

unfoldable pub castling_moves : Board → Piece → List LegalMove
castling_moves board piece =
    if piece.has_moved || is_square_attacked board piece.at (opponent piece.owner)
    then []
    else map (λ route. move_to piece route.king_destination castle)
        (keep (castling_open board piece) board.scenario.castling_routes)

unfoldable pub king_moves : Board → Piece → List LegalMove
king_moves board piece =
    filter_map (landing board piece) (filter_map (step board piece) king_offsets)
    ++ castling_moves board piece

abbrev pub is_deployed : PieceOrigin → Bool
is_deployed deployed = true
is_deployed (settlement i) = false
is_deployed (promoted p) = false

-- The double step, once the square ahead is found open.
unfoldable pub double_step : Board → Piece → Coord → List LegalMove
double_step board piece one =
    let direction = pawn_direction board.scenario piece.owner in
    if board.scenario.rules.allow_pawn_double_step
      && not piece.has_moved
      && is_deployed piece.origin
    then elim (offset_coord piece.at (pos 0, double_i8 direction)) [
      | none ↦ []
      | some two ↦
          if is_within two board.scenario.board
            && not (is_mountain (terrain board two))
            && is_none (board.occupancy two)
            && can_cross board piece one two
          then move_to piece two pawn_double_step ∷ []
          else []
    ]
    else []

unfoldable pub pawn_advances : Board → Piece → List LegalMove
unfolding double_step
pawn_advances board piece =
    elim (step board piece (pos 0, pawn_direction board.scenario piece.owner)) [
      | none ↦ []
      | some one ↦
          if is_none (board.occupancy one)
          then move_to piece one quiet ∷ double_step board piece one
          else []
    ]

unfoldable pub en_passant_moves : Board → Piece → Coord → List LegalMove
en_passant_moves board piece to = elim board.state.en_passant [
  | none ↦ []
  | some ep ↦
      if board.scenario.rules.allow_en_passant
        && player_beq ep.expires_for piece.owner
        && coord_beq ep.capture_destination to
        && is_some_and (Map.get ep.pawn board.state.pieces)
            (λ target. not (player_beq target.owner piece.owner) && kind_beq target.kind pawn)
      then move_to piece to (en_passant_capture ep.pawn) ∷ []
      else []
]

unfoldable pub pawn_captures : Board → Piece → ℤ → List LegalMove
unfolding en_passant_moves
pawn_captures board piece dx =
    elim (step board piece (dx, pawn_direction board.scenario piece.owner)) [
      | none ↦ []
      | some to ↦ elim (board.occupancy to) [
        | some target ↦
            if can_capture piece target then move_to piece to (capture target.id) ∷ [] else []
        | none ↦ en_passant_moves board piece to
      ]
    ]

unfoldable pub pawn_moves : Board → Piece → List LegalMove
pawn_moves board piece =
    pawn_advances board piece
    ++ (pawn_captures board piece (negsuc 0) ++ pawn_captures board piece (pos 1))

abbrev pub moves_of : PieceKind → Board → Piece → List LegalMove
moves_of queen board piece = slider_moves board piece queen_directions
moves_of rook board piece = slider_moves board piece rook_directions
moves_of bishop board piece = slider_moves board piece bishop_directions
moves_of knight board piece = jump_moves board piece knight_offsets
moves_of king board piece = king_moves board piece
moves_of pawn board piece = pawn_moves board piece

unfoldable pub pseudo_legal_moves : Board → Piece → List LegalMove
pseudo_legal_moves board piece = sort_by legal_move_le (moves_of piece.kind board piece)
