-- ===== src/Rules/Recruitment.antt =====
-- Promotion and placement choices in crates/crownline_core/src/rules.rs.
use crownline.Prelude.{
  ℕ, true, false, not, ◌&&◌, Option, none, some, List, nat_beq, if◌then◌else◌, any, is_some,
  update_first, contains, option_beq, Result, ok, err, ◌>>=◌, ◌>>◌, ensure, ok_or, string_eq,
}
use crownline.Prelude.Map
use crownline.Scenario.Types.{
  Coord, coord_beq, coord_eq, Player, player_beq, player_eq, PieceKind, queen, rook, bishop, knight,
  pawn, kind_beq, ScenarioDefinition,
}
use crownline.State.Types.{
  PieceId, Piece, settlement, promoted, PromotionKind, to_queen, to_rook, to_bishop, to_knight,
  total, PromotionEligibility, allows, MandatoryChoice, promote, place_pawn, MatchState,
}
use crownline.State.Errors.{
  TransitionError, choice_does_not_match, invalid_promotion_eligibility, promotion_kind_locked,
  invalid_promotion_pawn, promotion_leaves_king_in_check, illegal_pawn_placement,
  duplicate_occupancy, missing_settlement, settlement_cannot_produce,
}
use crownline.State.Invariants.{validate_invariants}
use crownline.State.NonBoard.{bump_revision}
use crownline.Rules.Moving.{clear_piece_references}
use crownline.Rules.Realm.{settlement_at}
use crownline.Rules.Choices.{
  ensure_choice_actor, complete_first_choice, allocate_piece_id, first_choice,
}
use crownline.Rules.Promotions.{is_expected, promotion_required_score}
use crownline.Rules.Command.{ensure_safe}

abbrev pub promotion_piece_kind : PromotionKind → PieceKind
promotion_piece_kind to_queen = queen
promotion_piece_kind to_rook = rook
promotion_piece_kind to_bishop = bishop
promotion_piece_kind to_knight = knight

-- The eligibility of the promotion that is first in the queue, if it is for this pawn.
abbrev pub promotion_of :
    PieceId → Option MandatoryChoice → Result PromotionEligibility TransitionError
promotion_of id none = err choice_does_not_match
promotion_of id (some (place_pawn index squares)) = err choice_does_not_match
promotion_of id (some (promote piece index eligibility)) =
    if nat_beq piece id then ok eligibility else err choice_does_not_match

-- `pieces.get(&pawn).filter(..)`.
abbrev pub own_pawn : Player → Option Piece → Option Piece
own_pawn player none = none
own_pawn player (some piece) =
    if player_beq piece.owner player && kind_beq piece.kind pawn then some piece else none

-- The pawn leaves the board, and the promoted piece takes its square under a new identifier.
unfoldable pub replace_pawn :
    MatchState → Player → Piece → PieceId → PromotionKind → Result MatchState TransitionError
replace_pawn state player piece id kind = do
  allocated ←
      allocate_piece_id
        (clear_piece_references (record state { pieces = Map.remove id state.pieces }) id)
  let promoted_id = allocated.0
  let next = allocated.1
  let replacement : Piece = record {
    id = promoted_id;
    owner = player;
    kind = promotion_piece_kind kind;
    at = piece.at;
    origin = promoted id;
    has_moved = true;
  }
  ok (record next { pieces = Map.insert promoted_id replacement next.pieces })

-- The guards of a promotion, and the pawn that it takes.
unfoldable pub promotable_pawn :
    ScenarioDefinition
    → MatchState
    → Player
    → PieceId
    → PromotionKind
    → Result Piece TransitionError
promotable_pawn scenario state player pawn_id kind = do
  ensure_choice_actor state player
  choice ← first_choice state.phase
  eligibility ← promotion_of pawn_id choice
  ensure (is_expected scenario eligibility) invalid_promotion_eligibility
  ensure (allows eligibility kind) (
      promotion_kind_locked kind (total eligibility.control)
        (promotion_required_score scenario kind))
  ok_or (own_pawn player (Map.get pawn_id state.pieces)) (invalid_promotion_pawn pawn_id)

-- The end of a choice: the queue moves on, the revision grows, and the invariants are checked.
unfoldable pub conclude_choice : MatchState → Result MatchState TransitionError
conclude_choice state = do
  completed ← complete_first_choice state
  next ← bump_revision completed
  validate_invariants next
  ok next

unfoldable pub apply_promotion_choice :
    ScenarioDefinition
    → MatchState
    → Player
    → PieceId
    → PromotionKind
    → Result MatchState TransitionError
apply_promotion_choice scenario state player pawn_id kind = do
  piece ← promotable_pawn scenario state player pawn_id kind
  replaced ← replace_pawn state player piece pawn_id kind
  next ← conclude_choice replaced
  ensure_safe scenario next player promotion_leaves_king_in_check
  ok next

-- The squares of the placement that is first in the queue, if it is for this settlement.
abbrev pub placement_of : ℕ → Option MandatoryChoice → Result (List Coord) TransitionError
placement_of index none = err choice_does_not_match
placement_of index (some (promote piece site eligibility)) = err choice_does_not_match
placement_of index (some (place_pawn waiting squares)) =
    if nat_beq waiting index then ok squares else err choice_does_not_match

-- The produced pawn joins the board, and its settlement starts to produce anew.
unfoldable pub produce_pawn : MatchState → Player → ℕ → Coord → Result MatchState TransitionError
produce_pawn state player index at = do
  allocated ← allocate_piece_id state
  let pawn_id = allocated.0
  let next = allocated.1
  let produced : Piece = record {
    id = pawn_id;
    owner = player;
    kind = pawn;
    at = at;
    origin = settlement index;
    has_moved = false;
  }
  ok (record next {
    pieces = Map.insert pawn_id produced next.pieces;
    settlements =
        update_first (λ s. nat_beq s.site_index index)
          (λ s. record s { produced_pawn = some pawn_id; production_progress = 0 })
          next.settlements;
  })

-- The guards of a placement.
unfoldable pub check_placement : MatchState → Player → ℕ → Coord → Result (Unit {0}) TransitionError
check_placement state player index at = do
  ensure_choice_actor state player
  choice ← first_choice state.phase
  squares ← placement_of index choice
  ensure (contains squares at) (illegal_pawn_placement index at)
  ensure (not (any (λ piece. coord_beq piece.at at) (Map.values state.pieces)))
      (duplicate_occupancy at)
  s ← ok_or (settlement_at state index) (missing_settlement index)
  ensure (option_beq s.owner (some player) && not (is_some s.produced_pawn))
      (settlement_cannot_produce index)

unfoldable pub apply_pawn_placement :
    MatchState → Player → ℕ → Coord → Result MatchState TransitionError
apply_pawn_placement state player index at = do
  check_placement state player index at
  produced ← produce_pawn state player index at
  conclude_choice produced
