-- ===== src/Scenario/Castling.antt =====
-- The checks on castling routes in crates/crownline_core/src/scenario.rs.
use crownline.Prelude.{
  ℕ, zero, suc, ◌+◌, ◌-◌, Bool, true, false, not, ◌&&◌, ◌||◌, Option, none, some, List, [], ◌∷◌,
  ◌++◌, ltb, leb, nat_beq, if◌then◌else◌, any, all, flat_map, last?, abs_diff, ℤ, pos, negsuc,
  is_negative, nat_abs, contains, compare, Ordering, option_beq,
}
use crownline.Scenario.Types.{
  Coord, coord_beq, coord_eq, is_within, Player, player_beq, PieceKind, king, rook, kind_beq,
  is_forest, EdgeKind, river, bridge, ford, wall, gate, Edge, edge, edge_beq, edge_eq, Deployment,
  CastlingRoute, ScenarioDefinition, map_get,
}
use crownline.Scenario.Errors.{
  ScenarioError, invalid_castling_participants, out_of_bounds, invalid_castling_path,
}
use crownline.Scenario.Header.{push_if}
use crownline.Scenario.Sites.{Ids, Checked, register_id, on_mountain}

-- `starts.contains(&(player, kind, at))`.
abbrev pub starts_contains : ScenarioDefinition → Player → PieceKind → Coord → Bool
starts_contains scenario player kind at =
    any
      (λ (d : Deployment). player_beq d.player player && kind_beq d.kind kind && coord_beq d.at at)
      scenario.deployments

abbrev pub edge_open : Option EdgeKind → Bool
edge_open (some river) = false
edge_open (some wall) = false
edge_open _ = true

unfoldable pub castling_step_is_open : ScenarioDefinition → Coord → Coord → Bool
castling_step_is_open scenario from to =
    let horizontal : Coord = record { x = to.x; y = from.y } in
    let vertical : Coord = record { x = from.x; y = to.y } in
    let open_at = λ (e : Edge). edge_open (map_get e scenario.edges) in
    if nat_beq (abs_diff from.x to.x) 1 && nat_beq (abs_diff from.y to.y) 1
    then all open_at
        (edge from horizontal ∷ edge from vertical ∷ edge horizontal to ∷ edge vertical to ∷ [])
    else open_at (edge from to)

-- The loop over the king's path, which breaks at its first error.
unfoldable pub king_path_errors :
    ScenarioDefinition → CastlingRoute → Coord → List Coord → List Coord → List ScenarioError
unfolding castling_step_is_open
king_path_errors scenario route previous visited [] = []
king_path_errors scenario route previous visited (at ∷ rest) =
    let more = king_path_errors scenario route at (at ∷ visited) rest in
    let dx = abs_diff previous.x at.x in
    let dy = abs_diff previous.y at.y in
    if ltb 1 dx
      || ltb 1 dy
      || nat_beq (dx + dy) 0
      || contains visited at
      || on_mountain scenario at
      || not (castling_step_is_open scenario previous at)
    then invalid_castling_path route.id ∷ []
    else more

unfoldable pub checked_axis : ℕ → ℤ → Option ℕ
checked_axis value offset =
    if is_negative offset
    then (if leb (nat_abs offset) value then some (value - nat_abs offset) else none)
    else (if leb (value + nat_abs offset) 65535 then some (value + nat_abs offset) else none)

unfoldable pub checked_offset : Coord → ℤ → ℤ → Option Coord
unfolding checked_axis
checked_offset coord dx dy = elim (checked_axis coord.x dx) [
  | none ↦ none
  | some x ↦ elim (checked_axis coord.y dy) [
    | none ↦ none
    | some y ↦ some (record { x = x; y = y })
  ]
]

abbrev pub rook_edge_open : Bool → Option EdgeKind → Bool
rook_edge_open projected none = true
rook_edge_open projected (some bridge) = true
rook_edge_open projected (some ford) = true
rook_edge_open projected (some gate) = true
rook_edge_open projected (some river) = false
rook_edge_open projected (some wall) = projected

unfoldable pub rook_castling_step_is_open :
    ScenarioDefinition → CastlingRoute → Coord → Coord → Bool
rook_castling_step_is_open scenario route from to =
    rook_edge_open
      (any
        (λ f.
          player_beq f.owner route.player
          && coord_beq f.tower route.rook_start
          && edge_beq f.projected_wall (edge from to))
        scenario.fortifications)
      (map_get (edge from to) scenario.edges)

unfoldable pub on_forest : ScenarioDefinition → Coord → Bool
on_forest scenario at = elim (map_get at scenario.terrain) [
  | none ↦ false
  | some tile ↦ is_forest tile
]

unfoldable pub route_direction : Ordering → Ordering → Option (ℤ × ℤ)
route_direction Ordering.lt Ordering.eq = some (pos 1, pos 0)
route_direction Ordering.gt Ordering.eq = some (negsuc 0, pos 0)
route_direction Ordering.eq Ordering.lt = some (pos 0, pos 1)
route_direction Ordering.eq Ordering.gt = some (pos 0, negsuc 0)
route_direction _ _ = none

-- The loop ends at the destination, after as many rounds as it is squares away.
unfoldable pub rook_path_loop : ℕ → ScenarioDefinition → CastlingRoute → ℤ → ℤ → Coord → Bool
rook_path_loop zero scenario route dx dy current = false
rook_path_loop (suc fuel) scenario route dx dy current = elim (checked_offset current dx dy) [
  | none ↦ false
  | some next ↦
      let further = rook_path_loop fuel scenario route dx dy next in
      if not (is_within next scenario.board)
        || on_mountain scenario next
        || not (rook_castling_step_is_open scenario route current next)
      then false
      else if coord_beq next route.rook_destination
      then true
      else if on_forest scenario next
      then false
      else further
]

unfoldable pub rook_castling_path_is_open : ScenarioDefinition → CastlingRoute → Bool
unfolding rook_path_loop checked_offset rook_castling_step_is_open on_forest route_direction
rook_castling_path_is_open scenario route =
    elim (route_direction (compare route.rook_start.x route.rook_destination.x)
      (compare route.rook_start.y route.rook_destination.y)) [
        | none ↦ false
        | some direction ↦
            rook_path_loop
              (abs_diff route.rook_start.x route.rook_destination.x
                + abs_diff route.rook_start.y route.rook_destination.y)
              scenario route (direction.0) (direction.1) route.rook_start
      ]

unfoldable pub route_errors : ScenarioDefinition → CastlingRoute → List ScenarioError
unfolding king_path_errors rook_castling_path_is_open
route_errors scenario route =
    push_if
      (not (starts_contains scenario route.player king route.king_start)
        || not (starts_contains scenario route.player rook route.rook_start))
      (invalid_castling_participants route.id)
    ++ (flat_map
          (λ at. push_if (not (is_within at scenario.board)) (out_of_bounds "castling route" at))
          (route.king_path ++ route.king_destination ∷ route.rook_destination ∷ [])
        ++ (king_path_errors scenario route route.king_start (route.king_start ∷ []) route.king_path
            ++ push_if
                (not (option_beq (last? route.king_path) (some route.king_destination))
                  || coord_beq route.king_destination route.rook_destination
                  || not (rook_castling_path_is_open scenario route))
                (invalid_castling_path route.id)))

unfoldable pub validate_castling : ScenarioDefinition → List CastlingRoute → Ids → Checked
unfolding route_errors
validate_castling scenario [] ids = (ids, [])
validate_castling scenario (route ∷ rest) ids =
    let (ids', errors) = register_id ids "castling route" route.id in
    let (ids'', more) = validate_castling scenario rest ids' in
    (ids'', errors ++ (route_errors scenario route ++ more))
