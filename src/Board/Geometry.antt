-- ===== src/Board/Geometry.antt =====
-- `Board` and its geometry in crates/crownline_core/src/rules.rs: offsets, terrain and edges.
use crownline.Prelude.{
  ℕ, ◌+◌, ◌-◌, Bool, false, not, ◌&&◌, ◌||◌, Option, none, some, List, [], ◌∷◌, ltb, leb, nat_beq,
  if◌then◌else◌, is_none, any, find_map, abs_diff, ℤ, pos, negsuc, is_negative, nat_abs, sub_ℕ,
  signum,
}
use crownline.Prelude.Map
use crownline.Prelude.Map.{Map}
use crownline.Scenario.Types.{
  Coord, is_within, coord_beq, coord_eq, Player, player_beq, player_eq, PieceKind, king, queen,
  rook, bishop, knight, pawn, kind_beq, TileTerrain, open_ground, is_mountain, EdgeKind, river,
  bridge, ford, wall, gate, Edge, edge, edge_beq, edge_eq, ScenarioDefinition, map_get,
}
use crownline.State.Types.{Piece, MatchState}

pub record Board : Type 0 where
  pub scenario : ScenarioDefinition
  pub state : MatchState
  pub occupancy : Coord → Option Piece

-- The map that collecting `(piece.at, piece)` in order gives: a later piece replaces an earlier one.
unfoldable pub occupant : List Piece → Coord → Option Piece
occupant [] at = none
occupant (piece ∷ rest) at = elim (occupant rest at) [
  | some later ↦ some later
  | none ↦ if coord_beq piece.at at then some piece else none
]

-- `Board::new`.
unfoldable pub new : ScenarioDefinition → MatchState → Board
new scenario state = record {
  scenario = scenario;
  state = state;
  occupancy = occupant (Map.values state.pieces);
}

abbrev pub Offset : Type 0
Offset = ℤ × ℤ

abbrev pub rook_directions : List Offset
rook_directions = (pos 1, pos 0) ∷ (negsuc 0, pos 0) ∷ (pos 0, pos 1) ∷ (pos 0, negsuc 0) ∷ []

abbrev pub bishop_directions : List Offset
bishop_directions =
    (pos 1, pos 1) ∷ (pos 1, negsuc 0) ∷ (negsuc 0, pos 1) ∷ (negsuc 0, negsuc 0) ∷ []

abbrev pub queen_directions : List Offset
queen_directions =
    (pos 1, pos 0)
    ∷ (negsuc 0, pos 0)
    ∷ (pos 0, pos 1)
    ∷ (pos 0, negsuc 0)
    ∷ (pos 1, pos 1)
    ∷ (pos 1, negsuc 0)
    ∷ (negsuc 0, pos 1)
    ∷ (negsuc 0, negsuc 0)
    ∷ []

abbrev pub king_offsets : List Offset
king_offsets = queen_directions

abbrev pub knight_offsets : List Offset
knight_offsets =
    (pos 1, pos 2)
    ∷ (pos 2, pos 1)
    ∷ (negsuc 0, pos 2)
    ∷ (negsuc 1, pos 1)
    ∷ (pos 1, negsuc 1)
    ∷ (pos 2, negsuc 0)
    ∷ (negsuc 0, negsuc 1)
    ∷ (negsuc 1, negsuc 0)
    ∷ []

-- `checked_sub` and `checked_add` of a `u16`.
unfoldable pub offset_axis : ℕ → ℤ → Option ℕ
offset_axis value offset =
    if is_negative offset
    then (if leb (nat_abs offset) value then some (value - nat_abs offset) else none)
    else (if leb (value + nat_abs offset) 65535 then some (value + nat_abs offset) else none)

unfoldable pub offset_coord : Coord → Offset → Option Coord
unfolding offset_axis
offset_coord coord offset = elim (offset_axis coord.x offset.0) [
  | none ↦ none
  | some x ↦ elim (offset_axis coord.y offset.1) [
    | none ↦ none
    | some y ↦ some (record { x = x; y = y })
  ]
]

unfoldable pub terrain : Board → Coord → TileTerrain
terrain board at = elim (map_get at board.scenario.terrain) [
  | none ↦ open_ground
  | some tile ↦ tile
]

-- A wall is open to a rook of its owner that stands in the tower it projects from.
unfoldable pub projects : Board → Piece → Edge → Bool
projects board piece e =
    kind_beq piece.kind rook
    && any
        (λ f.
          player_beq f.owner piece.owner
          && coord_beq f.tower piece.at
          && edge_beq f.projected_wall e)
        board.scenario.fortifications

abbrev pub edge_block : Edge → Bool → Option EdgeKind → Option (Edge × EdgeKind)
edge_block e projected none = none
edge_block e projected (some bridge) = none
edge_block e projected (some ford) = none
edge_block e projected (some gate) = none
edge_block e projected (some river) = some (e, river)
edge_block e projected (some wall) = if projected then none else some (e, wall)

unfoldable pub blocking_edge : Board → Piece → Edge → Option (Edge × EdgeKind)
unfolding projects
blocking_edge board piece e = edge_block e (projects board piece e) (map_get e board.scenario.edges)

unfoldable pub first_blocking_edge : Board → Piece → Coord → Coord → Option (Edge × EdgeKind)
first_blocking_edge board piece from to =
    let dx = abs_diff from.x to.x in
    let dy = abs_diff from.y to.y in
    let horizontal : Coord = record { x = to.x; y = from.y } in
    let vertical : Coord = record { x = from.x; y = to.y } in
    if leb dx 1 && leb dy 1 && ltb 0 (dx + dy)
    then (if nat_beq dx 1 && nat_beq dy 1
        then find_map (blocking_edge board piece)
            (edge from horizontal ∷ edge from vertical ∷ edge horizontal to ∷ edge vertical to ∷ [])
        else blocking_edge board piece (edge from to))
    else none

unfoldable pub can_cross : Board → Piece → Coord → Coord → Bool
can_cross board piece from to = is_none (first_blocking_edge board piece from to)

unfoldable pub jump_destination : Board → Coord → Offset → Option Coord
jump_destination board from offset = elim (offset_coord from offset) [
  | none ↦ none
  | some to ↦
      if is_within to board.scenario.board && not (is_mountain (terrain board to))
      then some to
      else none
]

unfoldable pub step : Board → Piece → Offset → Option Coord
step board piece offset = elim (offset_coord piece.at offset) [
  | none ↦ none
  | some to ↦
      if not (is_within to board.scenario.board) || is_mountain (terrain board to)
      then none
      else if can_cross board piece piece.at to
      then some to
      else none
]

-- `pawn_forward_y[&owner]`. The source panics on a missing key, which `validate` rules out.
unfoldable pub pawn_direction : ScenarioDefinition → Player → ℤ
pawn_direction scenario owner = elim (scenario.rules.pawn_forward_y owner) [
  | none ↦ pos 0
  | some direction ↦ direction
]

-- The test of each arm over `|dx|` and `|dy|`.
abbrev pub is_aligned : PieceKind → ℕ → ℕ → Bool
is_aligned king dx dy = leb dx 1 && leb dy 1 && (not (nat_beq dx 0) || not (nat_beq dy 0))
is_aligned queen dx dy = nat_beq dx 0 || nat_beq dy 0 || nat_beq dx dy
is_aligned rook dx dy = nat_beq dx 0 && not (nat_beq dy 0) || not (nat_beq dx 0) && nat_beq dy 0
is_aligned bishop dx dy = nat_beq dx dy && not (nat_beq dx 0)
is_aligned knight dx dy = false
is_aligned pawn dx dy = false

unfoldable pub aligned_direction : Piece → Coord → Option Offset
aligned_direction piece target =
    if is_aligned piece.kind (abs_diff target.x piece.at.x) (abs_diff target.y piece.at.y)
    then some (signum (sub_ℕ target.x piece.at.x), signum (sub_ℕ target.y piece.at.y))
    else none
