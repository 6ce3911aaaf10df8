-- ===== src/Rules/Promotions.antt =====
-- Promotion candidates and eligibility in crates/crownline_core/src/rules.rs.
use crownline.Prelude.{
  ℕ, Bool, true, false, not, ◌&&◌, Option, none, some, List, [], ◌∷◌, ltb, leb, nat_beq,
  if◌then◌else◌, any, is_empty, is_some_and, position_from, Result, ok, ◌>>=◌, ◌>>◌, ensure,
  checked_inc, u8_max, u16_max,
}
use crownline.Prelude.Map
use crownline.Prelude.Map.{Map}
use crownline.Scenario.Types.{
  Coord, coord_beq, Player, player_beq, pawn, kind_beq, Site, ScenarioDefinition,
}
use crownline.State.Types.{
  PieceId, Piece, PromotionKind, to_queen, to_rook, to_bishop, to_knight, promotion_index,
  RealmControlScore, PromotionEligibility, from_control, MandatoryChoice, promote, place_pawn,
  TurnPhase, resolving_choices, command, MatchState, Action,
}
use crownline.State.Errors.{
  TransitionError, promotion_progress_overflow, invalid_promotion_eligibility,
}
use crownline.Rules.Realm.{realm_control_score}
use crownline.Rules.Settlements.{moved_pawn}
use crownline.Rules.Choices.{append_mandatory_choices}

abbrev pub is_promotion_site : ScenarioDefinition → Coord → Bool
is_promotion_site scenario at = any (λ (site : Site). coord_beq site.at at) scenario.promotion_sites

-- A moved pawn on a promotion site becomes a candidate, at progress 0.
unfoldable pub apply_promotion_landing_effect :
    ScenarioDefinition → MatchState → Action → MatchState
apply_promotion_landing_effect scenario state action = elim (moved_pawn state action) [
  | none ↦ state
  | some p ↦
      if is_promotion_site scenario p.at
      then record state { promotion_candidates = Map.insert p.id 0 state.promotion_candidates }
      else state
]

abbrev pub candidate_stands : ScenarioDefinition → Map Piece → PieceId → Bool
candidate_stands scenario pieces id =
    is_some_and (Map.get id pieces)
      (λ piece. kind_beq piece.kind pawn && is_promotion_site scenario piece.at)

unfoldable pub cancel_invalid_promotion_candidates : ScenarioDefinition → MatchState → MatchState
cancel_invalid_promotion_candidates scenario state = record state {
  promotion_candidates =
      Map.retain (λ id progress. candidate_stands scenario state.pieces id)
        state.promotion_candidates;
}

abbrev pub owned_by : Map Piece → Player → PieceId → Bool
owned_by pieces player id = is_some_and (Map.get id pieces) (λ piece. player_beq piece.owner player)

unfoldable pub advance_progress : ℕ → Map Piece → Player → Map ℕ → Result (Map ℕ) TransitionError
advance_progress cycles pieces player [] = ok []
advance_progress cycles pieces player ((id, progress) ∷ rest) = do
  progress' ←
      (if owned_by pieces player id && ltb progress cycles
        then checked_inc u8_max progress promotion_progress_overflow
        else ok progress)
  rest' ← advance_progress cycles pieces player rest
  ok ((id, progress') ∷ rest')

-- The index of the promotion site that the candidate stands on, if the player owns it.
unfoldable pub ready_site : ScenarioDefinition → Map Piece → Player → PieceId → Option ℕ
ready_site scenario pieces player id = elim (Map.get id pieces) [
  | none ↦ none
  | some piece ↦
      if not (player_beq piece.owner player)
      then none
      else elim (position_from 0 (λ (site : Site). coord_beq site.at piece.at)
          scenario.promotion_sites) [
            | none ↦ none
            | some index ↦ if leb index u16_max then some index else none
          ]
]

-- The candidates whose progress is complete, each with its site.
unfoldable pub ready_candidates :
    ScenarioDefinition → Map Piece → Player → Map ℕ → List (PieceId × ℕ)
unfolding ready_site
ready_candidates scenario pieces player [] = []
ready_candidates scenario pieces player ((id, progress) ∷ rest) =
    let more = ready_candidates scenario pieces player rest in
    if leb scenario.rules.promotion_cycles progress
    then elim (ready_site scenario pieces player id) [
      | none ↦ more
      | some index ↦ (id, index) ∷ more
    ]
    else more

abbrev pub promote_all : PromotionEligibility → List (PieceId × ℕ) → List MandatoryChoice
promote_all eligibility [] = []
promote_all eligibility ((id, index) ∷ rest) =
    promote id index eligibility ∷ promote_all eligibility rest

unfoldable pub advance_promotion_candidates :
    ScenarioDefinition → MatchState → Player → Result MatchState TransitionError
unfolding advance_progress ready_candidates
advance_promotion_candidates scenario state player = do
  candidates ←
      advance_progress scenario.rules.promotion_cycles state.pieces player
        state.promotion_candidates
  let next : MatchState = record state { promotion_candidates = candidates }
  let ready = ready_candidates scenario state.pieces player candidates
  (if is_empty ready then ok next else do
    control ← realm_control_score scenario next player
    ok (
        append_mandatory_choices next
          (promote_all (from_control control scenario.rules.promotion_unlocks) ready)))

abbrev pub promotion_required_score : ScenarioDefinition → PromotionKind → ℕ
promotion_required_score scenario to_knight = 0
promotion_required_score scenario to_bishop = scenario.rules.promotion_unlocks.bishop
promotion_required_score scenario to_rook = scenario.rules.promotion_unlocks.rook
promotion_required_score scenario to_queen = scenario.rules.promotion_unlocks.queen

abbrev pub kinds_beq : List PromotionKind → List PromotionKind → Bool
kinds_beq [] [] = true
kinds_beq [] (b ∷ bs) = false
kinds_beq (a ∷ as') [] = false
kinds_beq (a ∷ as') (b ∷ bs) = nat_beq (promotion_index a) (promotion_index b) && kinds_beq as' bs

abbrev pub control_beq : RealmControlScore → RealmControlScore → Bool
control_beq a b =
    nat_beq a.owned_settlements b.owned_settlements
    && nat_beq a.governed_settlements b.governed_settlements
    && nat_beq a.established_settlements b.established_settlements

abbrev pub eligibility_beq : PromotionEligibility → PromotionEligibility → Bool
eligibility_beq a b = control_beq a.control b.control && kinds_beq a.allowed_kinds b.allowed_kinds

abbrev pub is_expected : ScenarioDefinition → PromotionEligibility → Bool
is_expected scenario eligibility =
    eligibility_beq eligibility (from_control eligibility.control scenario.rules.promotion_unlocks)

-- The loop over the queue; the batch is the last eligibility seen.
unfoldable pub check_batch :
    ScenarioDefinition
    → List MandatoryChoice
    → Option PromotionEligibility
    → Result (Unit {0}) TransitionError
check_batch scenario [] batch = ok tt
check_batch scenario (place_pawn index squares ∷ rest) batch = check_batch scenario rest batch
check_batch scenario (promote piece index eligibility ∷ rest) batch = do
  ensure
      (is_expected scenario eligibility
        && not (is_some_and batch (λ first. not (eligibility_beq first eligibility))))
      invalid_promotion_eligibility
  check_batch scenario rest (some eligibility)

abbrev pub check_phase : ScenarioDefinition → TurnPhase → Result (Unit {0}) TransitionError
check_phase scenario command = ok tt
check_phase scenario (resolving_choices queue) = check_batch scenario queue none

unfoldable pub validate_promotion_eligibility :
    ScenarioDefinition → MatchState → Result (Unit {0}) TransitionError
validate_promotion_eligibility scenario state = check_phase scenario state.phase

abbrev pub is_promotion : MandatoryChoice → Bool
is_promotion (promote piece index eligibility) = true
is_promotion (place_pawn index squares) = false

abbrev pub with_eligibility : PromotionEligibility → List MandatoryChoice → List MandatoryChoice
with_eligibility eligibility [] = []
with_eligibility eligibility (promote piece index old ∷ rest) =
    promote piece index eligibility ∷ with_eligibility eligibility rest
with_eligibility eligibility (place_pawn index squares ∷ rest) =
    place_pawn index squares ∷ with_eligibility eligibility rest

-- The queue that is pending; none outside the phase.
abbrev pub pending : TurnPhase → List MandatoryChoice
pending command = []
pending (resolving_choices queue) = queue

-- A state without eligibility is given that of its present control.
unfoldable pub migrate_promotion_eligibility :
    ScenarioDefinition → MatchState → Result MatchState TransitionError
migrate_promotion_eligibility scenario state =
    if not (any is_promotion (pending state.phase)) then ok state else do
      control ← realm_control_score scenario state state.active_player
      let migrated : MatchState = record state {
        phase = resolving_choices (
            with_eligibility (from_control control scenario.rules.promotion_unlocks)
              (pending state.phase));
      }
      validate_promotion_eligibility scenario migrated
      ok migrated
