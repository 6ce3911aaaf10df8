-- ===== src/Rules/Safety.antt =====
-- The check on the King of the player who acts, in crates/crownline_core/src/rules.rs.
use crownline.Prelude.{
  ◌≡◌, refl, sym, ◌∙◌, subst, Bool, true, false, Option, none, some, find, find-In, arith, ok,
  ◌>>=◌, ok_or, >>=-eq-ok, Ensures, Ensures-ok,
}
use crownline.Prelude.Map
use crownline.Prelude.Map.{Map}
use crownline.Scenario.Types.{Coord, Player, opponent, ScenarioDefinition}
use crownline.State.Types.{
  PieceId, Piece, PromotionKind, MatchState, is_command, Action, move, hold, choose_promotion,
  place_pawn_at, resign, offer_draw, respond_to_draw,
}
use crownline.State.Errors.{
  TransitionError, missing_king, cannot_hold_in_check, promotion_leaves_king_in_check,
}
use crownline.State.Repetition.{Digest}
use crownline.State.Steps.{from_step, weaken}
use crownline.Board.Geometry.{new}
use crownline.Board.Attacks.{is_square_attacked}
use crownline.Board.Moves.{LegalMove}
use crownline.Board.Locality.{is_square_attacked-pieces}
use crownline.Rules.Moving.{apply_move_unchecked}
use crownline.Rules.Legality.{is_king_of, is_in_check, move_preserves_king, legal_moves}
use crownline.Rules.Command.{
  ensure_command_actor, is_move_of, chosen_move, finish_command, apply_move, ensure_safe,
  apply_hold,
}
use crownline.Rules.Recruitment.{
  promotable_pawn, replace_pawn, conclude_choice, apply_promotion_choice,
}
use crownline.Rules.Events.{Transition, action_player}
use crownline.Rules.Action.{dispatch, apply_action}
use crownline.Rules.Settled.{settle-SameBoard}
use crownline.Rules.Conduct.{apply_action-Accepted}
use crownline.Rules.Authority.{MayAct, apply_action-MayAct}
use crownline.Rules.Moves.{legal_moves-In}
use crownline.Rules.Identity.Same.{SamePieces, finish-SamePieces}

royal_check :
    (scenario : ScenarioDefinition) (a b : MatchState) (player : Player) (royal : Option Piece)
    → b.pieces ≡ a.pieces
    → (ok_or royal (missing_king player) >>= λ r.
        ok (is_square_attacked (new scenario b) r.at (opponent player)))
      ≡ (ok_or royal (missing_king player) >>= λ r.
          ok (is_square_attacked (new scenario a) r.at (opponent player)))
royal_check scenario a b player none same = refl
royal_check scenario a b player (some r) same =
    rw (is_square_attacked-pieces scenario a b r.at (opponent player) same) refl

-- Check depends on the pieces alone.
pub is_in_check-pieces :
    (scenario : ScenarioDefinition) (a b : MatchState) (player : Player)
    → b.pieces ≡ a.pieces
    → is_in_check scenario b player ≡ is_in_check scenario a player
unfolding is_in_check
is_in_check-pieces scenario a b player same =
    subst
      (λ m.
        (ok_or (find (is_king_of player) (Map.values m)) (missing_king player) >>= λ r.
        ok (is_square_attacked (new scenario b) r.at (opponent player)))
        ≡ is_in_check scenario a player)
      (sym same)
      (royal_check scenario a b player (find (is_king_of player) (Map.values a.pieces)) same)

Safe : ScenarioDefinition → Player → MatchState → Type 0
Safe scenario player state = is_in_check scenario state player ≡ ok false

Safe-pieces :
    (scenario : ScenarioDefinition) (player : Player) (a b : MatchState)
    → Safe scenario player a
    → b.pieces ≡ a.pieces
    → Safe scenario player b
unfolding Safe
Safe-pieces scenario player a b safe same = is_in_check-pieces scenario a b player same ∙ safe

-- What `ensure_safe` lets through.
ensure_safe-Safe :
    (scenario : ScenarioDefinition) (state : MatchState) (player : Player) (error : TransitionError)
    → ensure_safe scenario state player error ≡ ok tt
    → Safe scenario player state
unfolding ensure_safe Safe
ensure_safe-Safe scenario state player error h = ground arith

preserves-Safe :
    (scenario : ScenarioDefinition) (state next : MatchState) (candidate : LegalMove)
    → move_preserves_king scenario state candidate ≡ ok true
    → apply_move_unchecked scenario state candidate ≡ ok next
    → Safe scenario state.active_player next
unfolding move_preserves_king Safe
preserves-Safe scenario state next candidate h e =
    let (simulated, p, h') = >>=-eq-ok (apply_move_unchecked scenario state candidate) _ h in
    ground (arith, p, h', e)

-- The move that is carried out is one of the legal moves.
chosen-preserves :
    (scenario : ScenarioDefinition) (state : MatchState) (id : PieceId) (to : Coord)
    {candidate : LegalMove}
    → state.outcome ≡ none
    → is_command state.phase ≡ true
    → chosen_move scenario state id to ≡ ok candidate
    → move_preserves_king scenario state candidate ≡ ok true
unfolding chosen_move
chosen-preserves scenario state id to {candidate} live waiting h =
    let (moves, p, h') = >>=-eq-ok (legal_moves scenario state) _ h in
    ((legal_moves-In scenario state candidate live waiting p).0
      (find-In (is_move_of id to) moves (ground arith))).1

finish-Safe :
    (scenario : ScenarioDefinition) (state : MatchState) (player : Player)
    → Safe scenario player state
    → Ensures (Safe scenario player) (finish_command scenario state player)
finish-Safe scenario state player safe =
    weaken (SamePieces state) (Safe scenario player) (finish_command scenario state player)
      (λ c same. Safe-pieces scenario player state c safe same.0)
      (finish-SamePieces scenario state player)

move-Safe :
    (scenario : ScenarioDefinition) (state : MatchState) (player : Player) (id : PieceId)
    (to : Coord)
    → state.outcome ≡ none
    → MayAct state (move player id to)
    → Ensures (Safe scenario player) (apply_move scenario state player id to)
unfolding apply_move
move-Safe scenario state player id to live may =
    from_step (Safe scenario player) (ensure_command_actor state player) _ λ _ _.
      from_step (Safe scenario player) (chosen_move scenario state id to) _ λ candidate chosen.
        from_step (Safe scenario player) (apply_move_unchecked scenario state candidate) _ λ next e.
          finish-Safe scenario next player (
            subst (λ p. Safe scenario p next) (sym may.0)
              (preserves-Safe scenario state next candidate
                (chosen-preserves scenario state id to live may.1 chosen) e))

hold-Safe :
    (scenario : ScenarioDefinition) (state : MatchState) (player : Player)
    → Ensures (Safe scenario player) (apply_hold scenario state player)
unfolding apply_hold
hold-Safe scenario state player =
    from_step (Safe scenario player) (ensure_command_actor state player) _ λ _ _.
      from_step (Safe scenario player) (ensure_safe scenario state player cannot_hold_in_check) _
        λ _ safe.
          finish-Safe scenario (record state { en_passant = none }) player
            (Safe-pieces scenario player state (record state { en_passant = none })
              (ensure_safe-Safe scenario state player cannot_hold_in_check safe) refl)

promotion-Safe :
    (scenario : ScenarioDefinition) (state : MatchState) (player : Player) (id : PieceId)
    (kind : PromotionKind)
    → Ensures (Safe scenario player) (apply_promotion_choice scenario state player id kind)
unfolding apply_promotion_choice
promotion-Safe scenario state player id kind =
    from_step (Safe scenario player) (promotable_pawn scenario state player id kind) _ λ piece _.
      from_step (Safe scenario player) (replace_pawn state player piece id kind) _ λ replaced _.
        from_step (Safe scenario player) (conclude_choice replaced) _ λ next _.
          from_step (Safe scenario player)
            (ensure_safe scenario next player promotion_leaves_king_in_check) _
            λ _ safe. ensure_safe-Safe scenario next player promotion_leaves_king_in_check safe

abbrev pub guards_king : Action → Bool
guards_king (move player piece to) = true
guards_king (hold player) = true
guards_king (choose_promotion player piece kind) = true
guards_king (place_pawn_at player index at) = false
guards_king (resign player) = false
guards_king (offer_draw player) = false
guards_king (respond_to_draw player accept) = false

dispatch-Safe :
    (scenario : ScenarioDefinition) (state : MatchState) (action : Action)
    → guards_king action ≡ true
    → state.outcome ≡ none
    → MayAct state action
    → Ensures (Safe scenario (action_player action)) (dispatch scenario state action)
unfolding dispatch
dispatch-Safe scenario state (move player id to) g live may =
    move-Safe scenario state player id to live may
dispatch-Safe scenario state (hold player) g live may = hold-Safe scenario state player
dispatch-Safe scenario state (choose_promotion player id kind) g live may =
    promotion-Safe scenario state player id kind
dispatch-Safe scenario state (place_pawn_at player index at) g live may = cc
dispatch-Safe scenario state (resign player) g live may = cc
dispatch-Safe scenario state (offer_draw player) g live may = cc
dispatch-Safe scenario state (respond_to_draw player accept) g live may = cc

-- After an accepted move, hold or promotion the player who made it is not in check.
pub apply_action-safe :
    (digest : Digest) (scenario : ScenarioDefinition) (state : MatchState) (action : Action)
    {t : Transition}
    → guards_king action ≡ true
    → apply_action digest scenario state action ≡ ok t
    → is_in_check scenario t.state (action_player action) ≡ ok false
unfolding Safe
apply_action-safe digest scenario state action {t} g h =
    let a = apply_action-Accepted digest scenario state action h in
    let (live, may) = apply_action-MayAct digest scenario state action h in
    let safe =
      Ensures-ok (Safe scenario (action_player action)) _ a.dispatched
        (dispatch-Safe scenario state action g live may) in
    let same = settle-SameBoard digest scenario state action a.next a.settled in
    Safe-pieces scenario (action_player action) a.next t.state safe same.pieces
