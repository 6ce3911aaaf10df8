-- ===== src/Rules/Authority.antt =====
-- Who may act, and when: the guards of `apply_action` in crates/crownline_core/src/rules.rs.
use crownline.Prelude.{
  ℕ, ◌≡◌, ◌≢◌, inl, inr, refl, true, false, not, Option, none, some, is_none, arith, Result, ok,
  err, ◌>>◌, ensure, Option-cases, Ensures, Ensures-ok, >>=-Ensures, >>=-Ensures_any,
}
use crownline.Scenario.Types.{
  Player, north, south, player_beq, player_beq_iff, Coord, ScenarioDefinition,
}
use crownline.State.Types.{
  PieceId, PromotionKind, TurnPhase, MandatoryChoice, is_command, MatchState, Action, move, hold,
  choose_promotion, place_pawn_at, resign, offer_draw, respond_to_draw,
}
use crownline.State.Errors.{TransitionError, wrong_draw_responder, match_finished}
use crownline.State.Repetition.{Digest}
use crownline.State.NonBoard.{non_board_step, apply_non_board_action}
use crownline.Rules.Choices.{ensure_choice_actor, first_choice}
use crownline.Rules.Command.{ensure_command_actor, apply_move, apply_hold}
use crownline.Rules.Recruitment.{
  promotable_pawn, apply_promotion_choice, check_placement, apply_pawn_placement,
}
use crownline.Rules.Events.{Transition}
use crownline.Rules.Action.{check_action, dispatch, apply_action}
use crownline.Rules.Conduct.{apply_action-Accepted}

-- What lets a player take an action: the turn for most, the phase that the action belongs to, and
-- for the answer to a draw offer that the other player made the offer.
abbrev pub MayAct : MatchState → Action → Type 0
MayAct state (move player piece to) =
    (player ≡ state.active_player) × (is_command state.phase ≡ true)
MayAct state (hold player) = (player ≡ state.active_player) × (is_command state.phase ≡ true)
MayAct state (choose_promotion player piece kind) =
    (player ≡ state.active_player) × (is_command state.phase ≡ false)
MayAct state (place_pawn_at player index at) =
    (player ≡ state.active_player) × (is_command state.phase ≡ false)
MayAct state (resign player) = player ≡ state.active_player
MayAct state (offer_draw player) =
    (player ≡ state.active_player) × (state.outstanding_draw_offer ≡ none)
MayAct state (respond_to_draw player accept) =
    (offering : Player) × (state.outstanding_draw_offer ≡ some offering) × (player ≢ offering)

command_actor :
    (state : MatchState) (player : Player)
    → ensure_command_actor state player ≡ ok tt
    → (player ≡ state.active_player) × (is_command state.phase ≡ true)
unfolding ensure_command_actor
command_actor state player h = ground (arith, player_beq_iff player state.active_player)

-- What is known before a step holds after it.
known {ℓ} : {A : Type 0} (P : Type ℓ) (r : Result A TransitionError) → P → Ensures (λ _. P) r
known P (ok a) h = h
known P (err e) h = tt

check_action-live :
    (scenario : ScenarioDefinition) (state : MatchState)
    → check_action scenario state ≡ ok tt
    → state.outcome ≡ none
unfolding check_action
check_action-live scenario state h = ground arith

-- A choice that is first in a queue.
choice_phase :
    (phase : TurnPhase) {choice : Option MandatoryChoice}
    → first_choice phase ≡ ok choice
    → is_command phase ≡ false
choice_phase phase h = ground arith

choice_actor :
    (state : MatchState) (player : Player)
    → ensure_choice_actor state player ≡ ok tt
    → player ≡ state.active_player
unfolding ensure_choice_actor
choice_actor state player h = ground (arith, player_beq_iff player state.active_player)

else_responder :
    (player offering : Player) (offer : Option Player) (next : MatchState)
    → offer ≡ some offering
    → Ensures
        (λ _. (o : Player) × (offer ≡ some o) × (player ≢ o))
        (ensure (not (player_beq player offering)) wrong_draw_responder >> ok next)
else_responder north north offer next e = tt
else_responder north south offer next e = (south, e, cc)
else_responder south north offer next e = (north, e, cc)
else_responder south south offer next e = tt

non_board_actor :
    (state : MatchState) (action : Action)
    → Ensures (λ _. MayAct state action) (non_board_step state action)
unfolding non_board_step
non_board_actor state (resign player) = ground (arith, player_beq_iff player state.active_player)
non_board_actor state (offer_draw player) =
    ground (arith, player_beq_iff player state.active_player)
non_board_actor state (respond_to_draw player accept) =
    elim (Option-cases state.outstanding_draw_offer) [
      | inl nothing ↦ rw nothing tt
      | inr (offering, pending) ↦ rw pending (else_responder player offering (some offering) _ refl)
    ]
non_board_actor state (move player piece to) = tt
non_board_actor state (hold player) = tt
non_board_actor state (choose_promotion player piece kind) = tt
non_board_actor state (place_pawn_at player index at) = tt

-- The tests on the actor of a promotion, a placement and an action off the board.
promotion_actor :
    (scenario : ScenarioDefinition) (state : MatchState) (player : Player) (id : PieceId)
    (kind : PromotionKind)
    → Ensures
        (λ _. MayAct state (choose_promotion player id kind))
        (promotable_pawn scenario state player id kind)
unfolding promotable_pawn
promotion_actor scenario state player id kind =
    >>=-Ensures_any _ (ensure_choice_actor state player) _ λ _ actor.
      >>=-Ensures_any _ (first_choice state.phase) _ λ choice queue.
        known (MayAct state (choose_promotion player id kind)) _
          (choice_actor state player actor, choice_phase state.phase queue)

placement_actor :
    (state : MatchState) (player : Player) (index : ℕ) (at : Coord)
    → Ensures
        (λ _. MayAct state (place_pawn_at player index at))
        (check_placement state player index at)
unfolding check_placement
placement_actor state player index at =
    >>=-Ensures_any _ (ensure_choice_actor state player) _ λ _ actor.
      >>=-Ensures_any _ (first_choice state.phase) _ λ choice queue.
        known (MayAct state (place_pawn_at player index at)) _
          (choice_actor state player actor, choice_phase state.phase queue)

dispatch_actor :
    (scenario : ScenarioDefinition) (state : MatchState) (action : Action)
    → Ensures (λ _. MayAct state action) (dispatch scenario state action)
unfolding dispatch apply_move apply_hold apply_promotion_choice apply_pawn_placement
    apply_non_board_action
dispatch_actor scenario state (move player id to) =
    >>=-Ensures_any _ (ensure_command_actor state player) _
      λ _ actor. known (MayAct state (move player id to)) _ (command_actor state player actor)
dispatch_actor scenario state (hold player) =
    >>=-Ensures_any _ (ensure_command_actor state player) _
      λ _ actor. known (MayAct state (hold player)) _ (command_actor state player actor)
dispatch_actor scenario state (choose_promotion player id kind) =
    >>=-Ensures _ _ (promotable_pawn scenario state player id kind) _
      (promotion_actor scenario state player id kind)
      (λ _ may. known (MayAct state (choose_promotion player id kind)) _ may)
dispatch_actor scenario state (place_pawn_at player index at) =
    >>=-Ensures _ _ (check_placement state player index at) _
      (placement_actor state player index at)
      (λ _ may. known (MayAct state (place_pawn_at player index at)) _ may)
dispatch_actor scenario state (resign player) =
    >>=-Ensures_any _ (ensure (is_none state.outcome) match_finished) _ λ _ _.
      >>=-Ensures _ _ (non_board_step state (resign player)) _
        (non_board_actor state (resign player))
        (λ _ may. known (MayAct state (resign player)) _ may)
dispatch_actor scenario state (offer_draw player) =
    >>=-Ensures_any _ (ensure (is_none state.outcome) match_finished) _ λ _ _.
      >>=-Ensures _ _ (non_board_step state (offer_draw player)) _
        (non_board_actor state (offer_draw player))
        (λ _ may. known (MayAct state (offer_draw player)) _ may)
dispatch_actor scenario state (respond_to_draw player accept) =
    >>=-Ensures_any _ (ensure (is_none state.outcome) match_finished) _ λ _ _.
      >>=-Ensures _ _ (non_board_step state (respond_to_draw player accept)) _
        (non_board_actor state (respond_to_draw player accept))
        (λ _ may. known (MayAct state (respond_to_draw player accept)) _ may)

-- An action is accepted only while the match has no outcome, and only from a player who may take
-- it: the active player in the phase the action belongs to, or the player to whom a draw is offered.
pub apply_action-MayAct :
    (digest : Digest) (scenario : ScenarioDefinition) (state : MatchState) (action : Action)
    {t : Transition}
    → apply_action digest scenario state action ≡ ok t
    → (state.outcome ≡ none) × MayAct state action
apply_action-MayAct digest scenario state action h =
    let a = apply_action-Accepted digest scenario state action h in
    (
      check_action-live scenario state a.checked,
      Ensures-ok (λ _. MayAct state action) _ a.dispatched (dispatch_actor scenario state action),
    )
