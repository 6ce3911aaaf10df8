-- ===== src/Scenario/Errors.antt =====
-- `ScenarioError` of crates/crownline_core/src/scenario.rs, and the labels that its messages use.
use crownline.Prelude.{ℕ, String}
use crownline.Scenario.Types.{Coord, BoardSize, Player, PieceKind, Edge}

pub data ScenarioError : Type 0 where
  unsupported_schema : (found minimum maximum : ℕ) → ScenarioError
  empty_id : (kind : String) → ScenarioError
  empty_field : String → ScenarioError
  board_size_out_of_range : BoardSize → ScenarioError
  invalid_expected_duration : ScenarioError
  out_of_bounds : (kind : String) (place : Coord) → ScenarioError
  duplicate_deployment : Coord → ScenarioError
  deployment_on_mountain : Coord → ScenarioError
  king_count : (player : Player) (found : ℕ) → ScenarioError
  invalid_pawn_direction : Player → ScenarioError
  invalid_edge : Edge → ScenarioError
  non_canonical_edge : Edge → ScenarioError
  site_on_mountain : (kind : String) (place : Coord) → ScenarioError
  duplicate_id : (id first second : String) → ScenarioError
  overlapping_sites : (place : Coord) (first second : String) → ScenarioError
  invalid_castling_participants : String → ScenarioError
  invalid_castling_path : String → ScenarioError
  empty_keep : String → ScenarioError
  overlapping_keeps : (place : Coord) (first second : String) → ScenarioError
  insufficient_keep_exits : (keep : String) (found : ℕ) → ScenarioError
  invalid_keep_gate : (keep : String) (gate : Edge) → ScenarioError
  unknown_fortification : (keep fortification : String) → ScenarioError
  invalid_keep_fortification_link : (keep fortification : String) → ScenarioError
  unlinked_fortification : String → ScenarioError
  invalid_fortification_wall : (id : String) (tower : Coord) (wall : Edge) → ScenarioError
  keep_count : (player : Player) (found : ℕ) → ScenarioError
  deployment_outside_keep : (player : Player) (place : Coord) (keep : String) → ScenarioError
  piece_count : (player : Player) (kind : PieceKind) (expected found : ℕ) → ScenarioError
  cycle_threshold_out_of_range : (minimum maximum : ℕ) → ScenarioError
  invalid_promotion_unlocks : (bishop rook queen : ℕ) → ScenarioError
  unsupported_fog_rules_schema : (found minimum maximum : ℕ) → ScenarioError
  fog_vision_radius_out_of_range : (found maximum : ℕ) → ScenarioError
  pawn_directions_not_opposed : ScenarioError
