-- ===== src/Scenario/Validate.antt =====
-- `ScenarioDefinition::validate` of crates/crownline_core/src/scenario.rs.
use crownline.Prelude.{
  ℕ, ◌%◌, Bool, false, not, ◌&&◌, Option, none, some, List, [], ◌∷◌, ◌++◌, nat_beq, if◌then◌else◌,
  is_empty, contains, count, flat_map, ℤ, pos, negsuc, Result, ok, err,
}
use crownline.Scenario.Types.{
  Coord, coord_eq, is_within, Player, player_beq, all_players, PieceKind, king, queen, rook, bishop,
  knight, pawn, kind_beq, TileTerrain, EdgeKind, Edge, edge, edge_beq, is_orthogonally_adjacent,
  Deployment, is_standard, ScenarioDefinition,
}
use crownline.Scenario.Errors.{
  ScenarioError, out_of_bounds, duplicate_deployment, deployment_on_mountain, king_count,
  invalid_pawn_direction, piece_count, invalid_edge, non_canonical_edge,
}
use crownline.Scenario.Header.{push_if, validate_header, validate_rule_configuration}
use crownline.Scenario.Sites.{on_mountain, validate_sites}
use crownline.Scenario.Keeps.{validate_keeps_and_fortifications}
use crownline.Scenario.Castling.{validate_castling}

unfoldable pub deployment_errors :
    ScenarioDefinition → List Coord → List Deployment → List ScenarioError
deployment_errors scenario occupied [] = []
deployment_errors scenario occupied (d ∷ rest) =
    push_if (not (is_within d.at scenario.board)) (out_of_bounds "deployment" d.at)
    ++ (push_if (contains occupied d.at) (duplicate_deployment d.at)
        ++ (push_if (on_mountain scenario d.at) (deployment_on_mountain d.at)
            ++ deployment_errors scenario (d.at ∷ occupied) rest))

-- The kings that a player deploys, in a `u8` that wraps in a release build.
abbrev pub deployed_kings : ScenarioDefinition → Player → ℕ
deployed_kings scenario player =
    count (λ (d : Deployment). kind_beq d.kind king && player_beq d.player player)
      scenario.deployments
    % 256

abbrev pub is_unit_direction : Option ℤ → Bool
is_unit_direction none = false
is_unit_direction (some (pos n)) = nat_beq n 1
is_unit_direction (some (negsuc n)) = nat_beq n 0

-- The army of a standard setup.
abbrev pub standard_army : List (PieceKind × ℕ)
standard_army = (king, 1) ∷ (queen, 1) ∷ (rook, 2) ∷ (bishop, 2) ∷ (knight, 2) ∷ (pawn, 8) ∷ []

unfoldable pub piece_count_errors :
    ScenarioDefinition → Player → List (PieceKind × ℕ) → List ScenarioError
piece_count_errors scenario player [] = []
piece_count_errors scenario player ((kind, expected) ∷ rest) =
    let found =
      count (λ (d : Deployment). player_beq d.player player && kind_beq d.kind kind)
        scenario.deployments in
    push_if (not (nat_beq found expected)) (piece_count player kind expected found)
    ++ piece_count_errors scenario player rest

unfoldable pub validate_standard_army : ScenarioDefinition → Player → List ScenarioError
unfolding piece_count_errors
validate_standard_army scenario player = piece_count_errors scenario player standard_army

-- The loop over the two players.
unfoldable pub player_errors : ScenarioDefinition → Player → List ScenarioError
player_errors scenario player =
    push_if (not (nat_beq (deployed_kings scenario player) 1))
      (king_count player (deployed_kings scenario player))
    ++ (push_if (not (is_unit_direction (scenario.rules.pawn_forward_y player)))
          (invalid_pawn_direction player)
        ++ (if is_standard scenario.rules.army_setup
            then validate_standard_army scenario player
            else []))

unfoldable pub terrain_errors : ScenarioDefinition → List (Coord × TileTerrain) → List ScenarioError
terrain_errors scenario [] = []
terrain_errors scenario ((at, tile) ∷ rest) =
    push_if (not (is_within at scenario.board)) (out_of_bounds "terrain" at)
    ++ terrain_errors scenario rest

unfoldable pub edge_errors : ScenarioDefinition → List (Edge × EdgeKind) → List ScenarioError
edge_errors scenario [] = []
edge_errors scenario ((e, kind) ∷ rest) =
    (if not (is_within e.first scenario.board && is_within e.second scenario.board)
      then out_of_bounds "edge" e.first ∷ []
      else if not (is_orthogonally_adjacent e)
      then invalid_edge e ∷ []
      else push_if (not (edge_beq e (edge e.first e.second))) (non_canonical_edge e))
    ++ edge_errors scenario rest

-- Everything that `validate` pushes, in order.
unfoldable pub validation_errors : ScenarioDefinition → List ScenarioError
validation_errors scenario =
    let (ids, sites) = validate_sites scenario [] in
    let (ids', keeps) = validate_keeps_and_fortifications scenario ids in
    let (ids'', castling) = validate_castling scenario scenario.castling_routes ids' in
    validate_header scenario
    ++ (deployment_errors scenario [] scenario.deployments
        ++ (flat_map (player_errors scenario) all_players
            ++ (terrain_errors scenario scenario.terrain
                ++ (edge_errors scenario scenario.edges
                    ++ (sites ++ (keeps ++ (castling ++ validate_rule_configuration scenario)))))))

unfoldable pub validate : ScenarioDefinition → Result (Unit {0}) (List ScenarioError)
validate scenario =
    let errors = validation_errors scenario in if is_empty errors then ok tt else err errors
