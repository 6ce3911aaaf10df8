-- ===== src/Rules/Conduct.antt =====
-- The turn, the revision and the turn number across `apply_action` of
-- crates/crownline_core/src/rules.rs.
use crownline.Prelude.{
  ℕ, ◌+◌, ◌≡◌, Bool, true, false, none, arith, if◌then◌else◌, ok, Ensures, Ensures-ok, >>=-eq-ok,
}
use crownline.Scenario.Types.{Coord, Player, opponent, player_beq_iff, ScenarioDefinition}
use crownline.State.Types.{
  PieceId, Piece, PromotionKind, MatchState, Action, move, hold, choose_promotion, place_pawn_at,
  resign, offer_draw, respond_to_draw,
}
use crownline.State.Errors.{cannot_hold_in_check, promotion_leaves_king_in_check}
use crownline.State.Repetition.{Digest}
use crownline.State.Steps.{from_step, from_state}
use crownline.State.Invariants.{validate_invariants}
use crownline.State.NonBoard.{non_board_step, bump_revision, apply_non_board_action}
use crownline.Rules.Moving.{clear_piece_references, apply_move_unchecked}
use crownline.Rules.Choices.{complete_first_choice, allocate_piece_id}
use crownline.Rules.Command.{
  ensure_command_actor, chosen_move, ensure_safe, pass_turn, finish_command, apply_move, apply_hold,
}
use crownline.Rules.Recruitment.{
  promotable_pawn, conclude_choice, check_placement, replace_pawn, apply_promotion_choice,
  produce_pawn, apply_pawn_placement,
}
use crownline.Rules.Events.{Transition}
use crownline.Rules.Action.{check_action, dispatch, settle, apply_action}
use crownline.Rules.Settled.{settle-SameBoard}
use crownline.Rules.Turn.{SameTurn, SameTurn-trans, apply_move_unchecked-SameTurn}

abbrev pub ends_turn : Action → Bool
ends_turn (move player piece to) = true
ends_turn (hold player) = true
ends_turn (choose_promotion player piece kind) = false
ends_turn (place_pawn_at player index place) = false
ends_turn (resign player) = false
ends_turn (offer_draw player) = false
ends_turn (respond_to_draw player accept) = false

-- What the dispatched action does to the turn: one revision later; the turn number and the active
-- player change where the turn has passed.
pub record Dispatches (passed : Bool) (a b : MatchState) : Type 0 where
  pub revision : b.revision ≡ a.revision + 1
  pub turn_number : b.turn_number ≡ (if passed then a.turn_number + 1 else a.turn_number)
  pub active_player :
      b.active_player ≡ (if passed then opponent a.active_player else a.active_player)
  pub clocks : b.clocks ≡ a.clocks
  pub scenario_id : b.scenario_id ≡ a.scenario_id
  pub exploration : b.exploration ≡ a.exploration

finish_command-Dispatches :
    (scenario : ScenarioDefinition) (a state : MatchState) (player : Player)
    → player ≡ a.active_player
    → SameTurn a state
    → Ensures (Dispatches true a) (finish_command scenario state player)
unfolding finish_command pass_turn
finish_command-Dispatches scenario a state player e same = ground arith

pub actor-active :
    (state : MatchState) (player : Player)
    → ensure_command_actor state player ≡ ok tt
    → player ≡ state.active_player
unfolding ensure_command_actor
actor-active state player h = ground (arith, player_beq_iff player state.active_player)

apply_move-Dispatches :
    (scenario : ScenarioDefinition) (state : MatchState) (player : Player) (id : PieceId)
    (to : Coord)
    → Ensures (Dispatches true state) (apply_move scenario state player id to)
unfolding apply_move
apply_move-Dispatches scenario state player id to =
    from_step (Dispatches true state) (ensure_command_actor state player) _ λ _ actor.
      from_step (Dispatches true state) (chosen_move scenario state id to) _ λ candidate _.
        from_state (SameTurn state) (Dispatches true state)
          (apply_move_unchecked scenario state candidate) _
          (apply_move_unchecked-SameTurn scenario state candidate)
          λ next.
            finish_command-Dispatches scenario state next player (actor-active state player actor)

apply_hold-Dispatches :
    (scenario : ScenarioDefinition) (state : MatchState) (player : Player)
    → Ensures (Dispatches true state) (apply_hold scenario state player)
unfolding apply_hold
apply_hold-Dispatches scenario state player =
    from_step (Dispatches true state) (ensure_command_actor state player) _ λ _ actor.
      from_step (Dispatches true state) (ensure_safe scenario state player cannot_hold_in_check) _
        λ _ _.
          finish_command-Dispatches scenario state (record state { en_passant = none }) player
            (actor-active state player actor) (ground arith)

apply_non_board-Dispatches :
    (state : MatchState) (action : Action)
    → Ensures (Dispatches false state) (apply_non_board_action state action)
unfolding apply_non_board_action non_board_step bump_revision
apply_non_board-Dispatches state action = ground arith

bump-Dispatches : (a b : MatchState) → SameTurn a b → Ensures (Dispatches false a) (bump_revision b)
unfolding bump_revision
bump-Dispatches a b same = ground arith

pub complete-SameTurn :
    (state : MatchState) → Ensures (SameTurn state) (complete_first_choice state)
unfolding complete_first_choice
complete-SameTurn state = ground arith

pub replace_pawn-SameTurn :
    (state : MatchState) (player : Player) (piece : Piece) (id : PieceId) (kind : PromotionKind)
    → Ensures (SameTurn state) (replace_pawn state player piece id kind)
unfolding replace_pawn clear_piece_references allocate_piece_id
replace_pawn-SameTurn state player piece id kind = ground arith

pub produce_pawn-SameTurn :
    (state : MatchState) (player : Player) (index : ℕ) (at : Coord)
    → Ensures (SameTurn state) (produce_pawn state player index at)
unfolding produce_pawn allocate_piece_id
produce_pawn-SameTurn state player index at = ground arith

conclude-Dispatches :
    (a b : MatchState) → SameTurn a b → Ensures (Dispatches false a) (conclude_choice b)
unfolding conclude_choice
conclude-Dispatches a b same =
    from_state (SameTurn b) (Dispatches false a) (complete_first_choice b) _ (complete-SameTurn b)
      λ completed same'.
        from_state (Dispatches false a) (Dispatches false a) (bump_revision completed) _
          (bump-Dispatches a completed (SameTurn-trans same same'))
          λ next done. from_step (Dispatches false a) (validate_invariants next) _ λ _ _. done

promotion-Dispatches :
    (scenario : ScenarioDefinition) (state : MatchState) (player : Player) (id : PieceId)
    (kind : PromotionKind)
    → Ensures (Dispatches false state) (apply_promotion_choice scenario state player id kind)
unfolding apply_promotion_choice
promotion-Dispatches scenario state player id kind =
    from_step (Dispatches false state) (promotable_pawn scenario state player id kind) _ λ piece _.
      from_state (SameTurn state) (Dispatches false state) (replace_pawn state player piece id kind)
        _ (replace_pawn-SameTurn state player piece id kind)
        λ replaced same.
          from_state (Dispatches false state) (Dispatches false state) (conclude_choice replaced) _
            (conclude-Dispatches state replaced same)
            λ next done.
              from_step (Dispatches false state)
                (ensure_safe scenario next player promotion_leaves_king_in_check) _ λ _ _. done

placement-Dispatches :
    (state : MatchState) (player : Player) (index : ℕ) (at : Coord)
    → Ensures (Dispatches false state) (apply_pawn_placement state player index at)
unfolding apply_pawn_placement
placement-Dispatches state player index at =
    from_step (Dispatches false state) (check_placement state player index at) _ λ _ _.
      from_state (SameTurn state) (Dispatches false state) (produce_pawn state player index at) _
        (produce_pawn-SameTurn state player index at) λ produced. conclude-Dispatches state produced

pub dispatch-Dispatches :
    (scenario : ScenarioDefinition) (state : MatchState) (action : Action)
    → Ensures (Dispatches (ends_turn action) state) (dispatch scenario state action)
unfolding dispatch
dispatch-Dispatches scenario state (move player id to) =
    apply_move-Dispatches scenario state player id to
dispatch-Dispatches scenario state (hold player) = apply_hold-Dispatches scenario state player
dispatch-Dispatches scenario state (choose_promotion player id kind) =
    promotion-Dispatches scenario state player id kind
dispatch-Dispatches scenario state (place_pawn_at player index at) =
    placement-Dispatches state player index at
dispatch-Dispatches scenario state (resign player) =
    apply_non_board-Dispatches state (resign player)
dispatch-Dispatches scenario state (offer_draw player) =
    apply_non_board-Dispatches state (offer_draw player)
dispatch-Dispatches scenario state (respond_to_draw player accept) =
    apply_non_board-Dispatches state (respond_to_draw player accept)

-- What an accepted action went through.
pub record Accepted (digest : Digest) (scenario : ScenarioDefinition) (state : MatchState)
    (action : Action) (final : MatchState) : Type 0 where
  pub checked : check_action scenario state ≡ ok tt
  pub next : MatchState
  pub dispatched : dispatch scenario state action ≡ ok next
  pub settled : settle digest scenario state action next ≡ ok final

pub apply_action-Accepted :
    (digest : Digest) (scenario : ScenarioDefinition) (state : MatchState) (action : Action)
    {t : Transition}
    → apply_action digest scenario state action ≡ ok t
    → Accepted digest scenario state action t.state
unfolding apply_action
apply_action-Accepted digest scenario state action h =
    let (u, checked, h') = >>=-eq-ok (check_action scenario state) _ h in
    let (next, dispatched, h'') = >>=-eq-ok (dispatch scenario state action) _ h' in
    let (final, settled, e) = >>=-eq-ok (settle digest scenario state action next) _ h'' in
    record {
      checked = checked;
      next = next;
      dispatched = dispatched;
      settled = ground (arith, settled, e);
    }

-- One revision later; the turn number and the active player change where the turn has passed.
pub record Advances (passed : Bool) (a b : MatchState) : Type 0 where
  pub revision : b.revision ≡ a.revision + 1
  pub turn_number : b.turn_number ≡ (if passed then a.turn_number + 1 else a.turn_number)
  pub active_player :
      b.active_player ≡ (if passed then opponent a.active_player else a.active_player)
  pub clocks : b.clocks ≡ a.clocks
  pub scenario_id : b.scenario_id ≡ a.scenario_id

-- An accepted action raises the revision by one; a move or a hold passes the turn to the opponent
-- and raises the turn number, and any other action leaves both; the clocks are not touched.
pub apply_action-Advances :
    (digest : Digest) (scenario : ScenarioDefinition) (state : MatchState) (action : Action)
    {t : Transition}
    → apply_action digest scenario state action ≡ ok t
    → Advances (ends_turn action) state t.state
apply_action-Advances digest scenario state action {t} h =
    let a = apply_action-Accepted digest scenario state action h in
    let d =
      Ensures-ok (Dispatches (ends_turn action) state) _ a.dispatched
        (dispatch-Dispatches scenario state action) in
    let same = settle-SameBoard digest scenario state action a.next a.settled in ground arith
