-- ===== src/Scenario/Keeps.antt =====
-- The checks on keeps and fortifications in crates/crownline_core/src/scenario.rs.
use crownline.Prelude.{
  Bool, true, false, not, ◌&&◌, ◌||◌, Option, none, some, List, [], ◌∷◌, ◌++◌, ltb, if◌then◌else◌,
  is_empty, length, any, keep, flat_map, contains, String, string_eq, ◌==◌,
}
use crownline.Scenario.Types.{
  Coord, coord_beq, coord_eq, is_within, Player, player_beq, all_players, EdgeKind, wall, gate,
  Edge, edge_eq, is_orthogonally_adjacent, Deployment, Fortification, KeepDefinition, is_standard,
  ScenarioDefinition, map_get,
}
use crownline.Scenario.Errors.{
  ScenarioError, out_of_bounds, site_on_mountain, invalid_fortification_wall, empty_keep,
  overlapping_keeps, insufficient_keep_exits, invalid_keep_gate, invalid_keep_fortification_link,
  unknown_fortification, unlinked_fortification, keep_count, deployment_outside_keep,
}
use crownline.Scenario.Header.{push_if}
use crownline.Scenario.Sites.{Ids, Checked, register_id, on_mountain, previous_error}

abbrev pub is_wall : Option EdgeKind → Bool
is_wall (some wall) = true
is_wall _ = false

abbrev pub is_gate : Option EdgeKind → Bool
is_gate (some gate) = true
is_gate _ = false

-- `if out of bounds { .. } else if mountain { .. }`.
abbrev pub tile_errors : ScenarioDefinition → String → Coord → List ScenarioError
tile_errors scenario kind at =
    if not (is_within at scenario.board)
    then out_of_bounds kind at ∷ []
    else push_if (on_mountain scenario at) (site_on_mountain kind at)

unfoldable pub fortification_errors : ScenarioDefinition → Fortification → List ScenarioError
fortification_errors scenario f =
    tile_errors scenario "fortification tower" f.tower
    ++ push_if
        (not (is_orthogonally_adjacent f.projected_wall)
          || not (
              coord_beq f.projected_wall.first f.tower || coord_beq f.projected_wall.second f.tower)
          || not (is_wall (map_get f.projected_wall scenario.edges)))
        (invalid_fortification_wall f.id f.tower f.projected_wall)

unfoldable pub validate_fortifications : ScenarioDefinition → List Fortification → Ids → Checked
unfolding fortification_errors
validate_fortifications scenario [] ids = (ids, [])
validate_fortifications scenario (f ∷ rest) ids =
    let (ids', errors) = register_id ids "fortification" f.id in
    let (ids'', more) = validate_fortifications scenario rest ids' in
    (ids'', errors ++ (fortification_errors scenario f ++ more))

-- The map from identifier to fortification: a later one replaces an earlier one.
unfoldable pub fortification_named : List Fortification → String → Option Fortification
fortification_named [] id = none
fortification_named (f ∷ rest) id = elim (fortification_named rest id) [
  | some later ↦ some later
  | none ↦ if f.id == id then some f else none
]

-- The tiles claimed so far with the keep that claims them, the latest first.
abbrev pub Claims : Type 0
Claims = List (Coord × String)

unfoldable pub check_tiles :
    ScenarioDefinition → String → List Coord → Claims → Claims × List ScenarioError
check_tiles scenario keep [] claims = (claims, [])
check_tiles scenario keep (tile ∷ rest) claims =
    let (claims', more) = check_tiles scenario keep rest ((tile, keep) ∷ claims) in
    (
      claims',
      tile_errors scenario "keep tile" tile
          ++ (previous_error (map_get tile claims) (λ first. overlapping_keeps tile first keep)
              ++ more),
    )

unfoldable pub gate_errors : ScenarioDefinition → KeepDefinition → Edge → List ScenarioError
gate_errors scenario k e =
    let first_inside = contains k.tiles e.first in
    let second_inside = contains k.tiles e.second in
    push_if
      (not (is_orthogonally_adjacent e)
        || first_inside && second_inside
        || not first_inside && not second_inside
        || not (is_gate (map_get e scenario.edges)))
      (invalid_keep_gate k.id e)

unfoldable pub link_errors : ScenarioDefinition → KeepDefinition → String → List ScenarioError
unfolding fortification_named
link_errors scenario k id = elim (fortification_named scenario.fortifications id) [
  | none ↦ unknown_fortification k.id id ∷ []
  | some f ↦
      push_if (not (player_beq f.owner k.owner && contains k.tiles f.tower))
        (invalid_keep_fortification_link k.id id)
]

unfoldable pub validate_keeps : ScenarioDefinition → List KeepDefinition → Claims → Ids → Checked
unfolding check_tiles gate_errors link_errors
validate_keeps scenario [] claims ids = (ids, [])
validate_keeps scenario (k ∷ rest) claims ids =
    let (ids', errors) = register_id ids "keep" k.id in
    let (claims', tiles) = check_tiles scenario k.id k.tiles claims in
    let (ids'', more) = validate_keeps scenario rest claims' ids' in
    (
      ids'',
      errors
          ++ (push_if (is_empty k.tiles) (empty_keep k.id)
              ++ (tiles
                  ++ (push_if (is_standard scenario.rules.army_setup && ltb (length k.gates) 2)
                        (insufficient_keep_exits k.id (length k.gates))
                      ++ (flat_map (gate_errors scenario k) k.gates
                          ++ (flat_map (link_errors scenario k) k.fortification_ids ++ more))))),
    )

unfoldable pub validate_fortification_links : ScenarioDefinition → List ScenarioError
validate_fortification_links scenario =
    flat_map
      (λ f.
        push_if
          (not (
            any
              (λ k.
                player_beq k.owner f.owner
                && contains k.fortification_ids f.id
                && contains k.tiles f.tower)
              scenario.keeps))
          (unlinked_fortification f.id))
      scenario.fortifications

unfoldable pub player_keep_errors :
    ScenarioDefinition → Player → List KeepDefinition → List ScenarioError
player_keep_errors scenario player (k ∷ []) =
    flat_map
      (λ (d : Deployment).
        push_if (not (contains k.tiles d.at)) (deployment_outside_keep player d.at k.id))
      (keep (λ d. player_beq d.player player) scenario.deployments)
player_keep_errors scenario player keeps = keep_count player (length keeps) ∷ []

unfoldable pub validate_standard_keeps : ScenarioDefinition → List ScenarioError
unfolding player_keep_errors
validate_standard_keeps scenario =
    if not (is_standard scenario.rules.army_setup)
    then []
    else flat_map
        (λ player.
          player_keep_errors scenario player (keep (λ k. player_beq k.owner player) scenario.keeps))
        all_players

unfoldable pub validate_keeps_and_fortifications : ScenarioDefinition → Ids → Checked
unfolding validate_fortifications validate_keeps validate_fortification_links
    validate_standard_keeps
validate_keeps_and_fortifications scenario ids =
    let (ids', towers) = validate_fortifications scenario scenario.fortifications ids in
    let (ids'', keeps) = validate_keeps scenario scenario.keeps [] ids' in
    (
      ids'',
      towers
          ++ (keeps ++ (validate_fortification_links scenario ++ validate_standard_keeps scenario)),
    )
