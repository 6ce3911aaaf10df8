-- ===== src/Rules/Offers.antt =====
-- The pending draw offer across `apply_action` of crates/crownline_core/src/rules.rs.
use crownline.Prelude.{
  ℕ, ◌≡◌, ◌∙◌, Option, none, some, arith, if◌then◌else◌, ok, Ensures, Ensures-ok,
}
use crownline.Scenario.Types.{Coord, Player, player_beq, player_beq_iff, ScenarioDefinition}
use crownline.State.Types.{
  PieceId, PromotionKind, MatchState, Action, move, hold, choose_promotion, place_pawn_at, resign,
  offer_draw, respond_to_draw,
}
use crownline.State.Errors.{cannot_hold_in_check, promotion_leaves_king_in_check}
use crownline.State.Invariants.{validate_invariants}
use crownline.State.Repetition.{Digest}
use crownline.State.Steps.{from_step, from_state, weaken}
use crownline.State.NonBoard.{non_board_step, bump_revision, apply_non_board_action}
use crownline.Rules.Moving.{apply_move_unchecked}
use crownline.Rules.Choices.{complete_first_choice}
use crownline.Rules.Command.{
  ensure_command_actor, chosen_move, ensure_safe, pass_turn, finish_command, apply_move, apply_hold,
}
use crownline.Rules.Recruitment.{
  promotable_pawn, conclude_choice, check_placement, replace_pawn, apply_promotion_choice,
  produce_pawn, apply_pawn_placement,
}
use crownline.Rules.Events.{Transition, action_player}
use crownline.Rules.Action.{lapse_draw_offer, dispatch, apply_action}
use crownline.Rules.Turn.{SameTurn, apply_move_unchecked-SameTurn}
use crownline.Rules.Conduct.{
  complete-SameTurn, replace_pawn-SameTurn, produce_pawn-SameTurn, apply_action-Accepted,
}
use crownline.Rules.Settled.{settle-Settled, update-offer}

-- An offer of the other player is gone once the player acts.
abbrev pub standing : Player → Option Player → Option Player
standing player none = none
standing player (some offering) = if player_beq offering player then some offering else none

-- The offer that is pending after an action.
abbrev pub offer_after : Action → Option Player → Option Player
offer_after (move player id to) offer = standing player offer
offer_after (hold player) offer = standing player offer
offer_after (choose_promotion player id kind) offer = standing player offer
offer_after (place_pawn_at player index at) offer = standing player offer
offer_after (resign player) offer = standing player offer
offer_after (offer_draw player) offer = some player
offer_after (respond_to_draw player accept) offer = none

abbrev Offers : Option Player → MatchState → Type 0
Offers offer b = b.outstanding_draw_offer ≡ offer

finish_command-Offers :
    (scenario : ScenarioDefinition) (a state : MatchState) (player : Player)
    → SameTurn a state
    → Ensures
        (Offers (standing player a.outstanding_draw_offer))
        (finish_command scenario state player)
unfolding finish_command pass_turn
finish_command-Offers scenario a state player same = ground arith

apply_move-Offers :
    (scenario : ScenarioDefinition) (state : MatchState) (player : Player) (id : PieceId)
    (to : Coord)
    → Ensures
        (Offers (standing player state.outstanding_draw_offer))
        (apply_move scenario state player id to)
unfolding apply_move
apply_move-Offers scenario state player id to =
    let P = Offers (standing player state.outstanding_draw_offer) in
    from_step P (ensure_command_actor state player) _ λ _ _.
      from_step P (chosen_move scenario state id to) _ λ candidate _.
        from_state (SameTurn state) P (apply_move_unchecked scenario state candidate) _
          (apply_move_unchecked-SameTurn scenario state candidate)
          λ next. finish_command-Offers scenario state next player

apply_hold-Offers :
    (scenario : ScenarioDefinition) (state : MatchState) (player : Player)
    → Ensures
        (Offers (standing player state.outstanding_draw_offer))
        (apply_hold scenario state player)
unfolding apply_hold
apply_hold-Offers scenario state player =
    let P = Offers (standing player state.outstanding_draw_offer) in
    from_step P (ensure_command_actor state player) _ λ _ _.
      from_step P (ensure_safe scenario state player cannot_hold_in_check) _ λ _ _.
        finish_command-Offers scenario state (record state { en_passant = none }) player
          (ground arith)

bump-Offers : (b : MatchState) → Ensures (Offers b.outstanding_draw_offer) (bump_revision b)
unfolding bump_revision
bump-Offers b = ground arith

conclude-Offers :
    (a b : MatchState)
    → SameTurn a b
    → Ensures (Offers a.outstanding_draw_offer) (conclude_choice b)
unfolding conclude_choice
conclude-Offers a b same =
    let P = Offers a.outstanding_draw_offer in
    from_state (SameTurn b) P (complete_first_choice b) _ (complete-SameTurn b) λ completed same'.
      from_state (Offers completed.outstanding_draw_offer) P (bump_revision completed) _
        (bump-Offers completed)
        λ next done. from_step P (validate_invariants next) _ λ _ _. ground arith

promotion-Offers :
    (scenario : ScenarioDefinition) (state : MatchState) (player : Player) (id : PieceId)
    (kind : PromotionKind)
    → Ensures
        (Offers state.outstanding_draw_offer)
        (apply_promotion_choice scenario state player id kind)
unfolding apply_promotion_choice
promotion-Offers scenario state player id kind =
    let P = Offers state.outstanding_draw_offer in
    from_step P (promotable_pawn scenario state player id kind) _ λ piece _.
      from_state (SameTurn state) P (replace_pawn state player piece id kind) _
        (replace_pawn-SameTurn state player piece id kind)
        λ replaced same.
          from_state P P (conclude_choice replaced) _ (conclude-Offers state replaced same)
            λ next done.
              from_step P (ensure_safe scenario next player promotion_leaves_king_in_check) _
                λ _ _. done

placement-Offers :
    (state : MatchState) (player : Player) (index : ℕ) (at : Coord)
    → Ensures (Offers state.outstanding_draw_offer) (apply_pawn_placement state player index at)
unfolding apply_pawn_placement
placement-Offers state player index at =
    let P = Offers state.outstanding_draw_offer in
    from_step P (check_placement state player index at) _ λ _ _.
      from_state (SameTurn state) P (produce_pawn state player index at) _
        (produce_pawn-SameTurn state player index at) λ produced. conclude-Offers state produced

-- What a draw offer is after the dispatched action and what lapses then.
abbrev Leaves : MatchState → Action → MatchState → Type 0
Leaves state action next =
    (lapse_draw_offer state action next).outstanding_draw_offer
    ≡ offer_after action state.outstanding_draw_offer

non_board-Leaves :
    (state : MatchState) (action : Action)
    → Ensures (Leaves state action) (apply_non_board_action state action)
unfolding apply_non_board_action non_board_step bump_revision lapse_draw_offer
non_board-Leaves state action = ground (arith, player_beq_iff (action_player action))

dispatch-Leaves :
    (scenario : ScenarioDefinition) (state : MatchState) (action : Action)
    → Ensures (Leaves state action) (dispatch scenario state action)
unfolding dispatch lapse_draw_offer
dispatch-Leaves scenario state (move player id to) =
    weaken (Offers (standing player state.outstanding_draw_offer))
      (Leaves state (move player id to)) _ (λ b e. ground (arith, e))
      (apply_move-Offers scenario state player id to)
dispatch-Leaves scenario state (hold player) =
    weaken (Offers (standing player state.outstanding_draw_offer)) (Leaves state (hold player)) _
      (λ b e. ground (arith, e)) (apply_hold-Offers scenario state player)
dispatch-Leaves scenario state (choose_promotion player id kind) =
    weaken (Offers state.outstanding_draw_offer) (Leaves state (choose_promotion player id kind)) _
      (λ b e. ground (arith, e)) (promotion-Offers scenario state player id kind)
dispatch-Leaves scenario state (place_pawn_at player index at) =
    weaken (Offers state.outstanding_draw_offer) (Leaves state (place_pawn_at player index at)) _
      (λ b e. ground (arith, e)) (placement-Offers state player index at)
dispatch-Leaves scenario state (resign player) = non_board-Leaves state (resign player)
dispatch-Leaves scenario state (offer_draw player) = non_board-Leaves state (offer_draw player)
dispatch-Leaves scenario state (respond_to_draw player accept) =
    non_board-Leaves state (respond_to_draw player accept)

-- After an accepted action, an offer of a draw is pending that the action made; an answer leaves
-- none; after any other action an earlier offer is pending only if the acting player had made it.
pub apply_action-offer_after :
    (digest : Digest) (scenario : ScenarioDefinition) (state : MatchState) (action : Action)
    {t : Transition}
    → apply_action digest scenario state action ≡ ok t
    → t.state.outstanding_draw_offer ≡ offer_after action state.outstanding_draw_offer
apply_action-offer_after digest scenario state action h =
    let a = apply_action-Accepted digest scenario state action h in
    let s = settle-Settled digest scenario state action a.next a.settled in
    Ensures-ok (Offers s.counted.outstanding_draw_offer) _ s.updated
      (update-offer scenario s.counted)
    ∙ s.untouched.outstanding_draw_offer
    ∙ Ensures-ok (Leaves state action) _ a.dispatched (dispatch-Leaves scenario state action)
