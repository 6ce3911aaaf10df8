-- ===== src/Board/Rays.antt =====
-- The sliding loops of crates/crownline_core/src/rules.rs. A loop that stays on the board makes at
-- most `width + height` rounds, and its fuel is one more.
use crownline.Prelude.{
  ℕ, zero, suc, ◌+◌, Bool, not, ◌||◌, Option, none, some, List, [], ◌∷◌, ◌++◌, if◌then◌else◌,
  is_some, flat_map, find_map,
}
use crownline.Scenario.Types.{Coord, is_within, coord_beq, coord_eq, is_mountain, is_forest}
use crownline.State.Types.{Piece}
use crownline.Board.Geometry.{Board, Offset, offset_coord, terrain, can_cross}

abbrev pub ray_fuel : Board → ℕ
ray_fuel board = suc (board.scenario.board.width + board.scenario.board.height)

-- The square is off the board, a mountain, or behind a closed edge: the loop breaks before it.
unfoldable pub stops_before : Board → Piece → Coord → Coord → Bool
stops_before board piece current next =
    not (is_within next board.scenario.board)
    || is_mountain (terrain board next)
    || not (can_cross board piece current next)

-- The square is occupied or a forest: the loop breaks after it.
unfoldable pub stops_at : Board → Coord → Bool
stops_at board next = is_some (board.occupancy next) || is_forest (terrain board next)

unfoldable pub ray_loop : ℕ → Board → Piece → Offset → Coord → List Coord
ray_loop zero board piece direction current = []
ray_loop (suc fuel) board piece direction current = elim (offset_coord current direction) [
  | none ↦ []
  | some next ↦
      let rest = ray_loop fuel board piece direction next in
      if stops_before board piece current next
      then []
      else if stops_at board next
      then next ∷ []
      else next ∷ rest
]

unfoldable pub ray : Board → Piece → Offset → List Coord
ray board piece direction = ray_loop (ray_fuel board) board piece direction piece.at

unfoldable pub attacks_along : Board → List Coord → List Coord
attacks_along board [] = []
attacks_along board (target ∷ rest) =
    if stops_at board target then target ∷ [] else target ∷ attacks_along board rest

unfoldable pub slider_attacks : Board → Piece → List Offset → List Coord
slider_attacks board piece directions =
    flat_map (λ direction. attacks_along board (ray board piece direction)) directions

-- The inner loop of `attack_path_to`: the path up to the target, or `none` when the loop breaks.
unfoldable pub path_loop :
    ℕ → Board → Piece → Coord → Offset → Coord → List Coord → Option (List Coord)
path_loop zero board piece target direction current path = none
path_loop (suc fuel) board piece target direction current path =
    elim (offset_coord current direction) [
      | none ↦ none
      | some next ↦
          let rest = path_loop fuel board piece target direction next (path ++ next ∷ []) in
          if stops_before board piece current next
          then none
          else if coord_beq next target
          then some (path ++ next ∷ [])
          else if stops_at board next
          then none
          else rest
    ]

unfoldable pub slider_path : Board → Piece → Coord → List Offset → Option (List Coord)
slider_path board piece target directions =
    find_map
      (λ direction.
        path_loop (ray_fuel board) board piece target direction piece.at (piece.at ∷ []))
      directions
