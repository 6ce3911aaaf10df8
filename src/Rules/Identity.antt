-- ===== src/Rules/Identity.antt =====
-- The identifiers of the pieces across `apply_action` of crates/crownline_core/src/rules.rs.
pub mod Same
pub mod Maps
mod Steps
use crownline.Prelude.{
  ℕ, ◌+◌, ◌≤◌, ◌<◌, ◌≡◌, ◌⊎◌, inl, inr, refl, Bool, true, false, Option, none, some, List, [], ◌∷◌,
  arith, ensure, ok_or, find, any, not, Option-cases, u32_max, ltb, nat_beq, nat_beq_iff, subst,
  if◌then◌else◌, Result, ok, err, ◌>>=◌, ◌>>◌, Ensures, Ensures-ok, Bool-cases,
}
use crownline.Prelude.Map
use crownline.Prelude.Map.{Map}
use crownline.Scenario.Types.{king, kind_beq, Coord, Player, CastlingRoute, ScenarioDefinition}
use crownline.State.Types.{
  PieceId, Piece, PromotionKind, MatchState, Action, move, hold, choose_promotion, place_pawn_at,
  resign, offer_draw, respond_to_draw,
}
use crownline.State.Errors.{
  TransitionError, cannot_capture_king, invalid_castling_route, cannot_hold_in_check,
  promotion_leaves_king_in_check,
}
use crownline.State.Repetition.{Digest}
use crownline.State.Invariants.{validate_invariants}
use crownline.State.NonBoard.{non_board_step, bump_revision, apply_non_board_action}
use crownline.State.Steps.{from_step, from_state, weaken}
use crownline.Board.Moves.{
  MoveKind, quiet, capture, en_passant_capture, castle, pawn_double_step, LegalMove,
}
use crownline.Rules.Moving.{
  piece_of, castling_route_for, is_castling_rook, clear_piece_references,
  remove_castling_right_for_rook, remove_castling_rights_for_king, move_castling_rook,
  apply_castling_rook, apply_capture, apply_move_kind, drop_castling_rights, set_en_passant,
  relocate, apply_move_unchecked,
}
use crownline.Rules.Choices.{complete_first_choice, allocate_piece_id}
use crownline.Rules.Command.{
  ensure_command_actor, chosen_move, ensure_safe, pass_turn, is_checkmated, finish_command,
  apply_move, apply_hold,
}
use crownline.Rules.Recruitment.{
  promotable_pawn, conclude_choice, check_placement, replace_pawn, apply_promotion_choice,
  produce_pawn, apply_pawn_placement,
}
use crownline.Rules.Events.{Transition}
use crownline.Rules.Action.{dispatch, apply_action}
use crownline.Rules.Settled.{SameBoard, settle-SameBoard}
use crownline.Rules.Conduct.{Accepted, apply_action-Accepted}
use crownline.Rules.Identity.Same.{SamePieces, apply_hold-SamePieces, non_board-SamePieces}
use crownline.Rules.Identity.Maps.{
  Issued, Below, Issued-remove, Issued-insert, Issued-mono, Issues, Issues-same,
}
use crownline.Rules.Identity.Steps.{apply_move-Issues}

-- A new piece takes the next identifier.
insert_next-Issues :
    (a b : MatchState) (m : Map Piece) (p : Piece)
    → Issues a b
    → Issued a b.next_piece_id m
    → Issued a (b.next_piece_id + 1) (Map.insert b.next_piece_id p m)
insert_next-Issues a b m p i h =
    Issued-insert a (b.next_piece_id + 1) b.next_piece_id p m (omega arith) (inr i.grows)
      (Issued-mono a b.next_piece_id (b.next_piece_id + 1) m (omega arith) h)

replace_pawn-Issues :
    (a b : MatchState) (player : Player) (piece : Piece) (id : PieceId) (kind : PromotionKind)
    → Issues a b
    → Ensures (Issues a) (replace_pawn b player piece id kind)
unfolding replace_pawn clear_piece_references allocate_piece_id
replace_pawn-Issues a b player piece id kind i = elim (Bool-cases (ltb b.next_piece_id u32_max)) [
  | inl room ↦ rw room (record {
    issued =
        insert_next-Issues a b (Map.remove id b.pieces) _ i
          (Issued-remove a b.next_piece_id id b.pieces i.issued);
    grows = omega (arith, i.grows);
  })
  | inr full ↦ rw full tt
]

produce_pawn-Issues :
    (a b : MatchState) (player : Player) (index : ℕ) (at : Coord)
    → Issues a b
    → Ensures (Issues a) (produce_pawn b player index at)
unfolding produce_pawn allocate_piece_id
produce_pawn-Issues a b player index at i = elim (Bool-cases (ltb b.next_piece_id u32_max)) [
  | inl room ↦ rw room (record {
    issued = insert_next-Issues a b b.pieces _ i i.issued;
    grows = omega (arith, i.grows);
  })
  | inr full ↦ rw full tt
]

conclude-SamePieces : (b : MatchState) → Ensures (SamePieces b) (conclude_choice b)
unfolding conclude_choice complete_first_choice bump_revision
conclude-SamePieces b = ground arith

conclude-Issues : (a b : MatchState) → Issues a b → Ensures (Issues a) (conclude_choice b)
conclude-Issues a b i =
    weaken (SamePieces b) (Issues a) (conclude_choice b) (λ c. Issues-same a b c i)
      (conclude-SamePieces b)

promotion-Issues :
    (scenario : ScenarioDefinition) (a b : MatchState) (player : Player) (id : PieceId)
    (kind : PromotionKind)
    → Issues a b
    → Ensures (Issues a) (apply_promotion_choice scenario b player id kind)
unfolding apply_promotion_choice
promotion-Issues scenario a b player id kind i =
    from_step (Issues a) (promotable_pawn scenario b player id kind) _ λ piece _.
      from_state (Issues a) (Issues a) (replace_pawn b player piece id kind) _
        (replace_pawn-Issues a b player piece id kind i)
        λ replaced j.
          from_state (Issues a) (Issues a) (conclude_choice replaced) _
            (conclude-Issues a replaced j)
            λ next k.
              from_step (Issues a) (ensure_safe scenario next player promotion_leaves_king_in_check)
                _ λ _ _. k

placement-Issues :
    (a b : MatchState) (player : Player) (index : ℕ) (at : Coord)
    → Issues a b
    → Ensures (Issues a) (apply_pawn_placement b player index at)
unfolding apply_pawn_placement
placement-Issues a b player index at i =
    from_step (Issues a) (check_placement b player index at) _ λ _ _.
      from_state (Issues a) (Issues a) (produce_pawn b player index at) _
        (produce_pawn-Issues a b player index at i) (conclude-Issues a)

dispatch-Issues :
    (scenario : ScenarioDefinition) (a b : MatchState) (action : Action)
    → Issues a b
    → Ensures (Issues a) (dispatch scenario b action)
unfolding dispatch
dispatch-Issues scenario a b (move player id to) i = apply_move-Issues scenario a b player id to i
dispatch-Issues scenario a b (hold player) i =
    weaken (SamePieces b) (Issues a) _ (λ c. Issues-same a b c i)
      (apply_hold-SamePieces scenario b player)
dispatch-Issues scenario a b (choose_promotion player id kind) i =
    promotion-Issues scenario a b player id kind i
dispatch-Issues scenario a b (place_pawn_at player index at) i =
    placement-Issues a b player index at i
dispatch-Issues scenario a b (resign player) i =
    weaken (SamePieces b) (Issues a) _ (λ c. Issues-same a b c i)
      (non_board-SamePieces b (resign player))
dispatch-Issues scenario a b (offer_draw player) i =
    weaken (SamePieces b) (Issues a) _ (λ c. Issues-same a b c i)
      (non_board-SamePieces b (offer_draw player))
dispatch-Issues scenario a b (respond_to_draw player accept) i =
    weaken (SamePieces b) (Issues a) _ (λ c. Issues-same a b c i)
      (non_board-SamePieces b (respond_to_draw player accept))

-- A part of the pieces of `a`, all of whose identifiers `a` has.
Below-Issued :
    (a : MatchState) (m : Map Piece)
    → ((id : PieceId) → Map.contains_key id m ≡ true → Map.contains_key id a.pieces ≡ true)
    → Below a.next_piece_id m
    → Issued a a.next_piece_id m
unfolding Map.get
Below-Issued a [] sub h = tt
Below-Issued a ((id, p) ∷ rest) sub h =
    (h.0, inl (sub id (ground arith)), Below-Issued a rest (λ k e. sub k (ground arith)) h.1)

Issued-Below : (a : MatchState) (n : ℕ) (m : Map Piece) → Issued a n m → Below n m
Issued-Below a n [] h = tt
Issued-Below a n ((id, p) ∷ rest) h = (h.0, Issued-Below a n rest h.2)

-- From a state whose identifiers have all been given out, an accepted action leads to such a state:
-- a piece there keeps an identifier of before, or has one that had not been given out, and the next
-- identifier never falls.
pub apply_action-Issues :
    (digest : Digest) (scenario : ScenarioDefinition) (state : MatchState) (action : Action)
    {t : Transition}
    → Below state.next_piece_id state.pieces
    → apply_action digest scenario state action ≡ ok t
    → Issues state t.state × Below t.state.next_piece_id t.state.pieces
apply_action-Issues digest scenario state action {t} below h =
    let acc = apply_action-Accepted digest scenario state action h in
    let start : Issues state state = record {
      issued = Below-Issued state state.pieces (λ k e. e) below;
      grows = omega arith;
    } in
    let done =
      Ensures-ok (Issues state) _ acc.dispatched
        (dispatch-Issues scenario state state action start) in
    let same = settle-SameBoard digest scenario state action acc.next acc.settled in
    let final = Issues-same state acc.next t.state done (same.pieces, same.next_piece_id) in
    (final, Issued-Below state t.state.next_piece_id t.state.pieces final.issued)
