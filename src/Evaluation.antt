-- ===== src/Evaluation.antt =====
-- The names that the tests unfold to run the model.
use crownline.Board.Attacks.{
  jump_attacks, step_attacks, attacks_from, attack_path_to, is_square_attacked,
}
use crownline.Board.Geometry.{
  occupant, new, offset_axis, offset_coord, terrain, projects, blocking_edge, first_blocking_edge,
  can_cross, jump_destination, step, pawn_direction, aligned_direction,
}
use crownline.Board.Governance.{trace_square, trace_loop, governance_trace}
use crownline.Board.Moves.{
  legal_move_le, moves_along, slider_moves, landing, jump_moves, king_route_clear,
  castling_king_route_clear, axis_direction, rook_route_loop, castling_rook_route_clear,
  castling_open, castling_moves, king_moves, double_step, pawn_advances, en_passant_moves,
  pawn_captures, pawn_moves, pseudo_legal_moves,
}
use crownline.Board.Rays.{
  stops_before, stops_at, ray_loop, ray, attacks_along, slider_attacks, path_loop, slider_path,
}
use crownline.Clock.{start_clocks, expire, charge, advance_clock, apply_timed_action}
use crownline.Prelude.{sort_by}
use crownline.Prelude.Map
use crownline.Rules.Action.{
  check_action, dispatch, lapse_draw_offer, landing_effects, resolve_boundary, owner_boundary,
  settle, apply_action,
}
use crownline.Rules.Choices.{
  append_to_phase, append_mandatory_choices, choice_key, sort_mandatory_choices,
  ensure_choice_actor, complete_first_choice, allocate_piece_id, legal_mandatory_choice_actions,
}
use crownline.Rules.Command.{
  ensure_command_actor, pass_turn, is_checkmated, finish_command, chosen_move, apply_move,
  ensure_safe, apply_hold, bump_count, count_of, record_repetition,
}
use crownline.Rules.Cycles.{
  founder_present, enemy_occupies, settlement_cycle_requirements_met, interrupt, latch_each,
  uninterrupted, latch_settlement_interruptions, advance_establishment, advance_production,
  complete_cycle, established_sites, production_choice, complete_owner_cycles,
}
use crownline.Rules.Events.{
  move_transition_events, promotion_transition_events, placement_transition_events,
  one_settlement_events, settlement_change_events, new_mandatory_choice_events,
  candidate_progress_events, promotion_candidate_events, turn_events, transition_events,
}
use crownline.Rules.Legality.{
  is_in_check, move_preserves_king, preserving_moves, piece_moves, active_pieces, legal_moves,
  inspect_candidate, inspect_move, attack_lines, attack_lines_on,
}
use crownline.Rules.Moving.{
  piece_of, forget_piece, forget_in, clear_piece_references, remove_castling_right_for_rook,
  remove_castling_rights_for_king, move_castling_rook, apply_castling_rook, apply_capture,
  apply_move_kind, drop_castling_rights, set_en_passant, relocate, apply_move_unchecked,
}
use crownline.Rules.Promotions.{
  apply_promotion_landing_effect, cancel_invalid_promotion_candidates, advance_progress, ready_site,
  ready_candidates, advance_promotion_candidates, check_batch, validate_promotion_eligibility,
  migrate_promotion_eligibility,
}
use crownline.Rules.Realm.{
  check_realm, settlement_at, add_trace, trace_pieces, major_pieces, governance_report, is_governed,
  score_settlement, score_settlements, realm_control_score, open_neighbours, site_coord,
  pawn_placement_squares_unchecked, pawn_placement_squares,
}
use crownline.Rules.Recruitment.{
  replace_pawn, promotable_pawn, conclude_choice, apply_promotion_choice, produce_pawn,
  check_placement, apply_pawn_placement,
}
use crownline.Rules.Settlements.{
  moved_pawn, land_on, land_at, apply_settlement_landing_effect, candidate_valid, cancel_candidate,
  each_settlement, cancel_invalid_transfer_candidates, candidate_survives, resolve_candidate,
  resolve_transfer_candidates,
}
use crownline.Scenario.Castling.{
  castling_step_is_open, king_path_errors, checked_axis, checked_offset, rook_castling_step_is_open,
  on_forest, route_direction, rook_path_loop, rook_castling_path_is_open, route_errors,
  validate_castling,
}
use crownline.Scenario.CoordSet
use crownline.Scenario.Header.{
  is_whitespace, is_blank, validate_header, validate_fog, validate_rule_configuration,
}
use crownline.Scenario.Keeps.{
  fortification_errors, validate_fortifications, fortification_named, check_tiles, gate_errors,
  link_errors, validate_keeps, validate_fortification_links, player_keep_errors,
  validate_standard_keeps, validate_keeps_and_fortifications,
}
use crownline.Scenario.Sites.{register_id, on_mountain, check_sites, validate_sites}
use crownline.Scenario.Validate.{
  deployment_errors, piece_count_errors, validate_standard_army, player_errors, terrain_errors,
  edge_errors, validation_errors, validate,
}
use crownline.State.Create.{
  deployment_le, deploy, unclaimed, found_settlements, route_ids, initial_state, from_scenario,
}
use crownline.State.Invariants.{
  check_pieces, check_reference, check_settlements, check_kings, validate_invariants,
}
use crownline.State.NonBoard.{non_board_step, bump_revision, apply_non_board_action}
use crownline.State.Repetition.{repetition_view, repetition_key}
use crownline.State.Types.{from_control}
use crownline.State.Vision.{
  all_coordinates, friendly, visible_coordinates_unchecked, check_context, visible_coordinates,
  learn, update_exploration_unchecked, update_exploration, check_knowledge,
  validate_exploration_unchecked, validate_exploration, visibility_at, cache_visible,
}

-- Unfolding this name unfolds the model, for the tests to run it.
unfoldable pub evaluation : Unit {0}
unfolding jump_attacks step_attacks attacks_from attack_path_to is_square_attacked occupant new
    offset_axis offset_coord terrain projects blocking_edge first_blocking_edge can_cross
    jump_destination step pawn_direction aligned_direction trace_square trace_loop governance_trace
    legal_move_le moves_along slider_moves landing jump_moves king_route_clear
    castling_king_route_clear axis_direction rook_route_loop castling_rook_route_clear castling_open
    castling_moves king_moves double_step pawn_advances en_passant_moves pawn_captures pawn_moves
    pseudo_legal_moves stops_before stops_at ray_loop ray attacks_along slider_attacks path_loop
    slider_path start_clocks expire charge advance_clock apply_timed_action sort_by Map.get
    Map.insert Map.remove Map.retain check_action dispatch lapse_draw_offer landing_effects
    resolve_boundary owner_boundary settle apply_action append_to_phase append_mandatory_choices
    choice_key sort_mandatory_choices ensure_choice_actor complete_first_choice allocate_piece_id
    legal_mandatory_choice_actions ensure_command_actor pass_turn is_checkmated finish_command
    chosen_move apply_move ensure_safe apply_hold bump_count count_of record_repetition
    founder_present enemy_occupies settlement_cycle_requirements_met interrupt latch_each
    uninterrupted latch_settlement_interruptions advance_establishment advance_production
    complete_cycle established_sites production_choice complete_owner_cycles move_transition_events
    promotion_transition_events placement_transition_events one_settlement_events
    settlement_change_events new_mandatory_choice_events candidate_progress_events
    promotion_candidate_events turn_events transition_events is_in_check move_preserves_king
    preserving_moves piece_moves active_pieces legal_moves inspect_candidate inspect_move
    attack_lines attack_lines_on piece_of forget_piece forget_in clear_piece_references
    remove_castling_right_for_rook remove_castling_rights_for_king move_castling_rook
    apply_castling_rook apply_capture apply_move_kind drop_castling_rights set_en_passant relocate
    apply_move_unchecked apply_promotion_landing_effect cancel_invalid_promotion_candidates
    advance_progress ready_site ready_candidates advance_promotion_candidates check_batch
    validate_promotion_eligibility migrate_promotion_eligibility check_realm settlement_at add_trace
    trace_pieces major_pieces governance_report is_governed score_settlement score_settlements
    realm_control_score open_neighbours site_coord pawn_placement_squares_unchecked
    pawn_placement_squares replace_pawn promotable_pawn conclude_choice apply_promotion_choice
    produce_pawn check_placement apply_pawn_placement moved_pawn land_on land_at
    apply_settlement_landing_effect candidate_valid cancel_candidate each_settlement
    cancel_invalid_transfer_candidates candidate_survives resolve_candidate
    resolve_transfer_candidates castling_step_is_open king_path_errors checked_axis checked_offset
    rook_castling_step_is_open on_forest route_direction rook_path_loop rook_castling_path_is_open
    route_errors validate_castling CoordSet.insert CoordSet.extend CoordSet.of_list is_whitespace
    is_blank validate_header validate_fog validate_rule_configuration fortification_errors
    validate_fortifications fortification_named check_tiles gate_errors link_errors validate_keeps
    validate_fortification_links player_keep_errors validate_standard_keeps
    validate_keeps_and_fortifications register_id on_mountain check_sites validate_sites
    deployment_errors piece_count_errors validate_standard_army player_errors terrain_errors
    edge_errors validation_errors validate deployment_le deploy unclaimed found_settlements
    route_ids initial_state from_scenario check_pieces check_reference check_settlements check_kings
    validate_invariants non_board_step bump_revision apply_non_board_action repetition_view
    repetition_key from_control all_coordinates friendly visible_coordinates_unchecked check_context
    visible_coordinates learn update_exploration_unchecked update_exploration check_knowledge
    validate_exploration_unchecked validate_exploration visibility_at cache_visible
evaluation = tt
