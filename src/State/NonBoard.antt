-- ===== src/State/NonBoard.antt =====
-- `apply_non_board_action` of crates/crownline_core/src/state.rs: resignation and draw offers.
use crownline.Prelude.{
  not, none, some, if◌then◌else◌, is_none, Result, ok, err, ◌>>=◌, ◌>>◌, ensure, ok_or, checked_inc,
  u64_max,
}
use crownline.Scenario.Types.{opponent, player_beq}
use crownline.State.Types.{
  MatchState, resignation, agreed_draw, Action, move, hold, choose_promotion, place_pawn_at, resign,
  offer_draw, respond_to_draw,
}
use crownline.State.Errors.{
  TransitionError, match_finished, wrong_player, draw_offer_already_pending, no_draw_offer,
  wrong_draw_responder, board_rules_not_implemented, revision_overflow,
}
use crownline.State.Invariants.{validate_invariants}

-- The `match` of the method, over a copy of the state.
unfoldable pub non_board_step : MatchState → Action → Result MatchState TransitionError
non_board_step state (resign player) = do
  ensure (player_beq player state.active_player) (wrong_player state.active_player player)
  ok (record state {
    outcome = some (record { winner = some (opponent player); reason = resignation });
  })
non_board_step state (offer_draw player) = do
  ensure (player_beq player state.active_player) (wrong_player state.active_player player)
  ensure (is_none state.outstanding_draw_offer) draw_offer_already_pending
  ok (record state { outstanding_draw_offer = some player })
non_board_step state (respond_to_draw player accept) = do
  offering ← ok_or state.outstanding_draw_offer no_draw_offer
  ensure (not (player_beq player offering)) wrong_draw_responder
  ok (record state {
    outstanding_draw_offer = none;
    outcome =
        if accept then some (record { winner = none; reason = agreed_draw }) else state.outcome;
  })
non_board_step state (move player piece to) = err board_rules_not_implemented
non_board_step state (hold player) = err board_rules_not_implemented
non_board_step state (choose_promotion player pawn kind) = err board_rules_not_implemented
non_board_step state (place_pawn_at player index place) = err board_rules_not_implemented

-- `revision.checked_add(1)`.
unfoldable pub bump_revision : MatchState → Result MatchState TransitionError
bump_revision state = do
  revision ← checked_inc u64_max state.revision revision_overflow
  ok (record state { revision = revision })

unfoldable pub apply_non_board_action : MatchState → Action → Result MatchState TransitionError
apply_non_board_action state action = do
  ensure (is_none state.outcome) match_finished
  next ← non_board_step state action
  bumped ← bump_revision next
  validate_invariants bumped
  ok bumped
