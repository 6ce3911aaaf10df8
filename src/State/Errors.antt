-- ===== src/State/Errors.antt =====
-- `TransitionError` of crates/crownline_core/src/state.rs.
use crownline.Prelude.{ℕ, String, List}
use crownline.Scenario.Types.{Coord, Player}
use crownline.Scenario.Errors.{ScenarioError}
use crownline.State.Types.{PieceId, PromotionKind}

pub data TransitionError : Type 0 where
  invalid_scenario : List ScenarioError → TransitionError
  too_many_pieces too_many_sites serialize match_finished : TransitionError
  scenario_mismatch : (expected actual : String) → TransitionError
  wrong_player : (expected actual : Player) → TransitionError
  draw_offer_already_pending no_draw_offer wrong_draw_responder : TransitionError
  board_rules_not_implemented wrong_turn_phase choice_does_not_match : TransitionError
  invalid_promotion_pawn : PieceId → TransitionError
  promotion_kind_locked :
      (requested : PromotionKind) (control_score required_score : ℕ) → TransitionError
  invalid_promotion_eligibility promotion_leaves_king_in_check : TransitionError
  promotion_progress_overflow : TransitionError
  illegal_pawn_placement : (settlement_index : ℕ) (place : Coord) → TransitionError
  missing_settlement : ℕ → TransitionError
  settlement_cannot_produce : ℕ → TransitionError
  illegal_move : (piece : PieceId) (to : Coord) → TransitionError
  coordinate_out_of_bounds : Coord → TransitionError
  missing_piece : PieceId → TransitionError
  missing_king : Player → TransitionError
  cannot_capture_king invalid_castling_route cannot_hold_in_check : TransitionError
  invalid_clock_base : ℕ → TransitionError
  invalid_clock_increment : ℕ → TransitionError
  clocks_already_started clocks_must_start_with_match clock_overflow : TransitionError
  revision_overflow turn_overflow piece_id_overflow : TransitionError
  mismatched_piece_id : PieceId → TransitionError
  duplicate_occupancy : Coord → TransitionError
  invalid_king_count : (player : Player) (found : ℕ) → TransitionError
  dangling_piece_reference : PieceId → TransitionError
  exploration_mode_mismatch : TransitionError
  explored_coordinate_out_of_bounds : (player : Player) (place : Coord) → TransitionError
  visible_coordinate_not_explored : (player : Player) (place : Coord) → TransitionError
