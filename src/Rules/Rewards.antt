-- ===== src/Rules/Rewards.antt =====
-- The board across promotions and placements, in crates/crownline_core/src/rules.rs.
use crownline.Prelude.{
  ℕ, ◌≡◌, inl, inr, refl, true, false, not, Option, none, some, arith, leb, ltb, nat_beq, nat_eq,
  contains, any, if◌then◌else◌, Bool-cases, Option-cases, u32_max, ok, ensure, ok_or, >>=-Ensures,
  >>=-Ensures_any, >>=-eq-ok, Ensures,
}
use crownline.Prelude.Map
use crownline.Prelude.Map.{Map, get-insert, get-remove}
use crownline.Scenario.Types.{
  Coord, coord_beq, coord_eq, Player, player_beq_iff, player_eq, pawn, kind_beq, ScenarioDefinition,
}
use crownline.State.Types.{
  PieceId, Piece, settlement, promoted, PromotionKind, to_queen, to_rook, to_bishop, to_knight,
  RealmControlScore, total, from_control, allows, MatchState,
}
use crownline.State.Errors.{
  TransitionError, promotion_leaves_king_in_check, invalid_promotion_eligibility,
  promotion_kind_locked, invalid_promotion_pawn, illegal_pawn_placement, duplicate_occupancy,
}
use crownline.State.NonBoard.{bump_revision}
use crownline.State.Steps.{from_step, from_state, weaken}
use crownline.Rules.Moving.{clear_piece_references}
use crownline.Rules.Choices.{
  allocate_piece_id, complete_first_choice, ensure_choice_actor, first_choice,
}
use crownline.Rules.Promotions.{promotion_required_score, is_expected}
use crownline.Rules.Legality.{is_in_check}
use crownline.Rules.Command.{ensure_safe}
use crownline.Rules.Recruitment.{
  promotion_piece_kind, promotion_of, own_pawn, replace_pawn, promotable_pawn, conclude_choice,
  apply_promotion_choice, produce_pawn, check_placement, placement_of, apply_pawn_placement,
}

-- A kind is open to a promotion exactly if the realm control score reaches what the scenario asks for
-- that kind: nothing for a Knight.
pub from_control-allows :
    (scenario : ScenarioDefinition) (control : RealmControlScore) (kind : PromotionKind)
    → allows (from_control control scenario.rules.promotion_unlocks) kind
      ≡ leb (promotion_required_score scenario kind) (total control)
unfolding from_control
from_control-allows scenario control to_queen = ground arith
from_control-allows scenario control to_rook = ground arith
from_control-allows scenario control to_bishop = ground arith
from_control-allows scenario control to_knight = ground arith

abbrev pub replacement : MatchState → Player → Piece → PieceId → PromotionKind → Piece
replacement state player piece id kind = record {
  id = state.next_piece_id;
  owner = player;
  kind = promotion_piece_kind kind;
  at = piece.at;
  origin = promoted id;
  has_moved = true;
}

-- What a promotion does to the board.
abbrev pub Replaced : MatchState → Player → Piece → PieceId → PromotionKind → MatchState → Type 0
Replaced state player piece id kind next =
    (k : PieceId)
    → Map.get k next.pieces ≡ (
        if nat_beq state.next_piece_id k
        then some (replacement state player piece id kind)
        else if nat_beq id k
        then none
        else Map.get k state.pieces)

replace_pawn-Replaced :
    (state : MatchState) (player : Player) (piece : Piece) (id : PieceId) (kind : PromotionKind)
    → Ensures (Replaced state player piece id kind) (replace_pawn state player piece id kind)
unfolding replace_pawn clear_piece_references allocate_piece_id
replace_pawn-Replaced state player piece id kind =
    elim (Bool-cases (ltb state.next_piece_id u32_max)) [
      | inl room ↦ rw room (λ k.
          rw
            (
              get-insert state.next_piece_id k (replacement state player piece id kind)
                  (Map.remove id state.pieces),
              get-remove id k state.pieces,
            )
            refl)
      | inr full ↦ rw full tt
    ]

-- What a placement does to the board.
abbrev pub placed : MatchState → Player → ℕ → Coord → Piece
placed state player index at = record {
  id = state.next_piece_id;
  owner = player;
  kind = pawn;
  at = at;
  origin = settlement index;
  has_moved = false;
}

abbrev pub Placed : MatchState → Player → ℕ → Coord → MatchState → Type 0
Placed state player index at next =
    (k : PieceId)
    → Map.get k next.pieces ≡ (
        if nat_beq state.next_piece_id k
        then some (placed state player index at)
        else Map.get k state.pieces)

produce_pawn-Placed :
    (state : MatchState) (player : Player) (index : ℕ) (at : Coord)
    → Ensures (Placed state player index at) (produce_pawn state player index at)
unfolding produce_pawn allocate_piece_id
produce_pawn-Placed state player index at = elim (Bool-cases (ltb state.next_piece_id u32_max)) [
  | inl room ↦
      rw room (λ k. get-insert state.next_piece_id k (placed state player index at) state.pieces)
  | inr full ↦ rw full tt
]

conclude-pieces : (b : MatchState) → Ensures (λ next. next.pieces ≡ b.pieces) (conclude_choice b)
unfolding conclude_choice complete_first_choice bump_revision
conclude-pieces b = ground arith

-- The pawn of a promotion: the player's own, on the board.
own_pawn-eq :
    (player : Player) (o : Option Piece) {piece : Piece}
    → own_pawn player o ≡ some piece
    → (o ≡ some piece) × (piece.owner ≡ player) × (kind_beq piece.kind pawn ≡ true)
own_pawn-eq player none h = cc
own_pawn-eq player (some p) {piece} h = ground (arith, h, player_beq_iff p.owner player)

ensure_safe-ok :
    (scenario : ScenarioDefinition) (state : MatchState) (player : Player) (error : TransitionError)
    → ensure_safe scenario state player error ≡ ok tt
    → is_in_check scenario state player ≡ ok false
unfolding ensure_safe
ensure_safe-ok scenario state player error h = ground arith

-- What the guards of a placement let through.
check_placement-empty :
    (state : MatchState) (player : Player) (index : ℕ) (at : Coord)
    → check_placement state player index at ≡ ok tt
    → any (λ piece. coord_beq piece.at at) (Map.values state.pieces) ≡ false
unfolding check_placement
check_placement-empty state player index at h =
    let (u, e0, h0) = >>=-eq-ok (ensure_choice_actor state player) _ h in
    let (choice, e1, h1) = >>=-eq-ok (first_choice state.phase) _ h0 in
    let (squares, e2, h2) = >>=-eq-ok (placement_of index choice) _ h1 in
    let (v, e3, h3) =
      >>=-eq-ok (ensure (contains squares at) (illegal_pawn_placement index at)) _ h2 in
    let (w, e4, h4) =
      >>=-eq-ok
        (ensure (not (any (λ piece. coord_beq piece.at at) (Map.values state.pieces)))
          (duplicate_occupancy at))
        _ h3 in
    ground (arith, e4)

-- A promotion that is carried out.
pub record Promotes (scenario : ScenarioDefinition) (state : MatchState) (player : Player)
    (id : PieceId) (kind : PromotionKind) (next : MatchState) : Type 0 where
  pub piece : Piece
  pub present : Map.get id state.pieces ≡ some piece
  pub owner : piece.owner ≡ player
  pub is_pawn : kind_beq piece.kind pawn ≡ true
  pub replaced : Replaced state player piece id kind next
  pub safe : is_in_check scenario next player ≡ ok false

promotable-own :
    (scenario : ScenarioDefinition) (state : MatchState) (player : Player) (id : PieceId)
    (kind : PromotionKind)
    → Ensures
        (λ piece.
          (Map.get id state.pieces ≡ some piece)
          × (piece.owner ≡ player)
          × (kind_beq piece.kind pawn ≡ true))
        (promotable_pawn scenario state player id kind)
unfolding promotable_pawn
promotable-own scenario state player id kind =
    >>=-Ensures_any _ (ensure_choice_actor state player) _ λ _ _.
      >>=-Ensures_any _ (first_choice state.phase) _ λ choice _.
        >>=-Ensures_any _ (promotion_of id choice) _ λ eligibility _.
          >>=-Ensures_any _
            (ensure (is_expected scenario eligibility) invalid_promotion_eligibility) _
            λ _ _.
              >>=-Ensures_any _
                (ensure (allows eligibility kind) (
                  promotion_kind_locked kind (total eligibility.control)
                    (promotion_required_score scenario kind)))
                _ λ _ _. found-own (Map.get id state.pieces)
  where
    found-own :
        (o : Option Piece)
        → Ensures
            (λ piece. (o ≡ some piece) × (piece.owner ≡ player) × (kind_beq piece.kind pawn ≡ true))
            (ok_or (own_pawn player o) (invalid_promotion_pawn id))
    found-own o = elim (Option-cases (own_pawn player o)) [
      | inl nobody ↦ rw nobody tt
      | inr (p, e) ↦ rw e (own_pawn-eq player o e)
    ]

-- A promotion that is carried out takes the player's own pawn off the board and puts a piece of the
-- chosen kind on its square, under the next identifier; no other piece changes, and the player is not
-- in check.
pub apply_promotion_choice-Promotes :
    (scenario : ScenarioDefinition) (state : MatchState) (player : Player) (id : PieceId)
    (kind : PromotionKind)
    → Ensures
        (Promotes scenario state player id kind)
        (apply_promotion_choice scenario state player id kind)
unfolding apply_promotion_choice
apply_promotion_choice-Promotes scenario state player id kind =
    >>=-Ensures _ (Promotes scenario state player id kind)
      (promotable_pawn scenario state player id kind) _
      (promotable-own scenario state player id kind)
      λ piece own.
        from_state (Replaced state player piece id kind) (Promotes scenario state player id kind)
          (replace_pawn state player piece id kind) _
          (replace_pawn-Replaced state player piece id kind)
          λ replaced r.
            from_state (λ next. next.pieces ≡ replaced.pieces)
              (Promotes scenario state player id kind) (conclude_choice replaced) _
              (conclude-pieces replaced)
              λ next same.
                from_step (Promotes scenario state player id kind)
                  (ensure_safe scenario next player promotion_leaves_king_in_check) _
                  λ _ safe. record {
                    piece = piece;
                    present = own.0;
                    owner = own.1;
                    is_pawn = own.2;
                    replaced = λ k. rw same (r k);
                    safe = ensure_safe-ok scenario next player promotion_leaves_king_in_check safe;
                  }

abbrev pub PlacedOnEmpty : MatchState → Player → ℕ → Coord → MatchState → Type 0
PlacedOnEmpty state player index at next =
    Placed state player index at next
    × (any (λ piece. coord_beq piece.at at) (Map.values state.pieces) ≡ false)

-- A placement that is carried out puts a new pawn of the player's on an empty square, under the next
-- identifier; no other piece changes.
pub apply_pawn_placement-Placed :
    (state : MatchState) (player : Player) (index : ℕ) (at : Coord)
    → Ensures (PlacedOnEmpty state player index at) (apply_pawn_placement state player index at)
unfolding apply_pawn_placement
apply_pawn_placement-Placed state player index at =
    from_step (PlacedOnEmpty state player index at) (check_placement state player index at) _
      λ _ checked.
        from_state (Placed state player index at) (PlacedOnEmpty state player index at)
          (produce_pawn state player index at) _ (produce_pawn-Placed state player index at)
          λ produced p.
            weaken (λ next. next.pieces ≡ produced.pieces) (PlacedOnEmpty state player index at)
              (conclude_choice produced)
              (λ next same.
                (λ k. rw same (p k), check_placement-empty state player index at checked))
              (conclude-pieces produced)
