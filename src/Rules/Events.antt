-- ===== src/Rules/Events.antt =====
-- The events of a transition in crates/crownline_core/src/rules.rs, derived from the two states.
use crownline.Prelude.{
  ℕ, Bool, true, false, not, ◌&&◌, Option, none, some, List, [], ◌∷◌, ◌++◌, map, nat_beq,
  if◌then◌else◌, find, any, keep, flat_map, is_some, is_none, option_beq, nat_eq,
}
use crownline.Prelude.Map
use crownline.Prelude.Map.{Map}
use crownline.Scenario.Types.{
  Coord, coord_beq, Player, player_beq, player_eq, PieceKind, pawn, kind_beq,
}
use crownline.State.Types.{
  PieceId, Piece, settlement, promoted, origin_beq, PromotionKind, SettlementState, MandatoryChoice,
  promote, place_pawn, TurnPhase, MatchOutcome, MatchState, Action, move, hold, choose_promotion,
  place_pawn_at, resign, offer_draw, respond_to_draw,
}
use crownline.Rules.Promotions.{eligibility_beq, pending}
use crownline.Rules.Recruitment.{promotion_piece_kind}

pub data TransitionEvent : Type 0 where
  piece_moved : (piece : PieceId) (from to : Coord) → TransitionEvent
  piece_captured : (piece : PieceId) (place : Coord) → TransitionEvent
  turn_held : (player : Player) → TransitionEvent
  clock_advanced : (player : Player) (elapsed_millis remaining_millis : ℕ) → TransitionEvent
  clock_increment_applied :
      (player : Player) (increment_millis remaining_millis : ℕ) → TransitionEvent
  piece_promoted : (pawn promoted : PieceId) (kind : PieceKind) (place : Coord) → TransitionEvent
  pawn_produced : (settlement_index : ℕ) (pawn : PieceId) (place : Coord) → TransitionEvent
  settlement_continuity_interrupted : (settlement_index : ℕ) → TransitionEvent
  settlement_cycle_started :
      (settlement_index : ℕ) (player : Player) (previous_continuous : Bool) → TransitionEvent
  settlement_claimed : (settlement_index : ℕ) (owner : Player) (founder : PieceId) → TransitionEvent
  settlement_contested : (settlement_index : ℕ) (candidate : PieceId) → TransitionEvent
  settlement_transfer_cancelled : (settlement_index : ℕ) (candidate : PieceId) → TransitionEvent
  settlement_transferred :
      (settlement_index : ℕ) (previous_owner owner : Player) (founder : PieceId) → TransitionEvent
  settlement_development_advanced : (settlement_index progress : ℕ) → TransitionEvent
  settlement_development_reset : (settlement_index : ℕ) → TransitionEvent
  settlement_established : (settlement_index : ℕ) → TransitionEvent
  settlement_production_advanced : (settlement_index progress : ℕ) → TransitionEvent
  settlement_production_reset : (settlement_index : ℕ) → TransitionEvent
  pawn_placement_ready : (settlement_index : ℕ) (legal_squares : List Coord) → TransitionEvent
  promotion_candidate_started : (pawn : PieceId) → TransitionEvent
  promotion_candidate_advanced : (pawn : PieceId) (progress : ℕ) → TransitionEvent
  promotion_candidate_cancelled : (pawn : PieceId) → TransitionEvent
  promotion_ready : (pawn : PieceId) (site_index : ℕ) → TransitionEvent
  draw_offered : (player : Player) → TransitionEvent
  draw_answered : (player : Player) (accepted : Bool) → TransitionEvent
  turn_started : (player : Player) (turn_number : ℕ) → TransitionEvent
  match_ended : (outcome : MatchOutcome) → TransitionEvent

pub record Transition : Type 0 where
  pub state : MatchState
  pub events : List TransitionEvent

abbrev pub action_player : Action → Player
action_player (move player piece to) = player
action_player (hold player) = player
action_player (choose_promotion player piece kind) = player
action_player (place_pawn_at player index place) = player
action_player (resign player) = player
action_player (offer_draw player) = player
action_player (respond_to_draw player accept) = player

-- `if test { events.push(event) }`.
abbrev pub event_if : Bool → TransitionEvent → List TransitionEvent
event_if test event = if test then event ∷ [] else []

-- What became of one piece of the earlier state.
abbrev pub piece_events : PieceId → PieceId → Piece → Option Piece → List TransitionEvent
piece_events moving id before none =
    event_if (not (nat_beq id moving)) (piece_captured id before.at)
piece_events moving id before (some after) =
    event_if (not (coord_beq after.at before.at)) (piece_moved id before.at after.at)

unfoldable pub move_transition_events : Map Piece → MatchState → PieceId → List TransitionEvent
move_transition_events [] after moving = []
move_transition_events ((id, piece) ∷ rest) after moving =
    piece_events moving id piece (Map.get id after.pieces)
    ++ move_transition_events rest after moving

unfoldable pub promotion_transition_events :
    MatchState → MatchState → PieceId → PromotionKind → List TransitionEvent
promotion_transition_events before after id kind = elim (Map.get id before.pieces) [
  | none ↦ []
  | some pawn_before ↦
      elim (find (λ piece. origin_beq piece.origin (promoted id)) (Map.values after.pieces)) [
        | none ↦ []
        | some piece ↦ piece_promoted id piece.id (promotion_piece_kind kind) pawn_before.at ∷ []
      ]
]

unfoldable pub placement_transition_events : MatchState → ℕ → Coord → List TransitionEvent
placement_transition_events after index at =
    elim (find
      (λ piece.
        coord_beq piece.at at
        && origin_beq piece.origin (settlement index)
        && kind_beq piece.kind pawn)
      (Map.values after.pieces)) [ none ↦ [] | some piece ↦ pawn_produced index piece.id at ∷ [] ]

abbrev pub founder_event : Option PieceId → (PieceId → TransitionEvent) → List TransitionEvent
founder_event none event = []
founder_event (some founder) event = event founder ∷ []

abbrev pub owner_events : ℕ → Option PieceId → Option Player → Option Player → List TransitionEvent
owner_events index founder none none = []
owner_events index founder none (some owner) =
    founder_event founder (λ f. settlement_claimed index owner f)
owner_events index founder (some previous) none = []
owner_events index founder (some previous) (some owner) =
    if player_beq previous owner
    then []
    else founder_event founder (λ f. settlement_transferred index previous owner f)

abbrev pub candidate_events : ℕ → Bool → Option PieceId → Option PieceId → List TransitionEvent
candidate_events index same_owner none none = []
candidate_events index same_owner none (some candidate) = settlement_contested index candidate ∷ []
candidate_events index same_owner (some candidate) none =
    event_if same_owner (settlement_transfer_cancelled index candidate)
candidate_events index same_owner (some candidate) (some other) = []

abbrev pub progress_events : ℕ → ℕ → TransitionEvent → (ℕ → TransitionEvent) → List TransitionEvent
progress_events before after reset advanced =
    if nat_beq before after then [] else if nat_beq after 0 then reset ∷ [] else advanced after ∷ []

unfoldable pub one_settlement_events : SettlementState → SettlementState → List TransitionEvent
one_settlement_events b a =
    let index = a.site_index in
    event_if (not b.cycle_interrupted && a.cycle_interrupted)
      (settlement_continuity_interrupted index)
    ++ (owner_events index a.founder b.owner a.owner
        ++ (candidate_events index (option_beq b.owner a.owner) b.transfer_candidate
              a.transfer_candidate
            ++ (progress_events b.establishment_progress a.establishment_progress
                  (settlement_development_reset index) (settlement_development_advanced index)
                ++ (event_if (not b.established && a.established) (settlement_established index)
                    ++ progress_events b.production_progress a.production_progress
                        (settlement_production_reset index)
                        (settlement_production_advanced index)))))

unfoldable pub settlement_change_events :
    List SettlementState → List SettlementState → List TransitionEvent
unfolding one_settlement_events
settlement_change_events before [] = []
settlement_change_events before (a ∷ rest) =
    let more = settlement_change_events before rest in
    elim (find (λ (s : SettlementState). nat_beq s.site_index a.site_index) before) [
      | none ↦ more
      | some b ↦ one_settlement_events b a ++ more
    ]

abbrev pub squares_beq : List Coord → List Coord → Bool
squares_beq [] [] = true
squares_beq [] (b ∷ bs) = false
squares_beq (a ∷ as') [] = false
squares_beq (a ∷ as') (b ∷ bs) = coord_beq a b && squares_beq as' bs

abbrev pub choice_beq : MandatoryChoice → MandatoryChoice → Bool
choice_beq (promote p i e) (promote q j f) = nat_beq p q && nat_beq i j && eligibility_beq e f
choice_beq (place_pawn i xs) (place_pawn j ys) = nat_beq i j && squares_beq xs ys
choice_beq (promote p i e) (place_pawn j ys) = false
choice_beq (place_pawn i xs) (promote q j f) = false

abbrev pub choice_event : MandatoryChoice → TransitionEvent
choice_event (place_pawn index squares) = pawn_placement_ready index squares
choice_event (promote piece index eligibility) = promotion_ready piece index

unfoldable pub new_mandatory_choice_events : TurnPhase → TurnPhase → List TransitionEvent
new_mandatory_choice_events before after =
    map choice_event
      (keep (λ choice. not (any (λ old. choice_beq old choice) (pending before))) (pending after))

abbrev pub promoted_pawn : Action → Option PieceId
promoted_pawn (choose_promotion player piece kind) = some piece
promoted_pawn _ = none

abbrev pub progress_event : PieceId → ℕ → Option ℕ → List TransitionEvent
progress_event id progress none = promotion_candidate_started id ∷ []
progress_event id progress (some previous) =
    event_if (not (nat_beq previous progress)) (promotion_candidate_advanced id progress)

unfoldable pub candidate_progress_events : Map ℕ → Map ℕ → List TransitionEvent
candidate_progress_events before [] = []
candidate_progress_events before ((id, progress) ∷ rest) =
    progress_event id progress (Map.get id before) ++ candidate_progress_events before rest

unfoldable pub promotion_candidate_events : MatchState → MatchState → Action → List TransitionEvent
unfolding candidate_progress_events
promotion_candidate_events before after action =
    candidate_progress_events before.promotion_candidates after.promotion_candidates
    ++ flat_map
        (λ id.
          event_if
            (not (Map.contains_key id after.promotion_candidates)
              && not (option_beq (promoted_pawn action) (some id)))
            (promotion_candidate_cancelled id))
        (Map.keys before.promotion_candidates)

abbrev pub action_events : MatchState → MatchState → Action → List TransitionEvent
action_events before after (move player piece to) = move_transition_events before.pieces after piece
action_events before after (hold player) = turn_held player ∷ []
action_events before after (choose_promotion player piece kind) =
    promotion_transition_events before after piece kind
action_events before after (place_pawn_at player index place) =
    placement_transition_events after index place
action_events before after (offer_draw player) = draw_offered player ∷ []
action_events before after (respond_to_draw player accept) = draw_answered player accept ∷ []
action_events before after (resign player) = []

abbrev pub is_draw_response : Action → Bool
is_draw_response (respond_to_draw player accept) = true
is_draw_response _ = false

-- The cycles and the turn that begin when the active player changes.
unfoldable pub turn_events : MatchState → MatchState → List TransitionEvent
turn_events before after =
    if not (player_beq before.active_player after.active_player) && is_none after.outcome
    then map
        (λ (s : SettlementState).
          settlement_cycle_started s.site_index after.active_player s.completed_cycle_continuous)
        (keep (λ s. option_beq s.owner (some after.active_player)) after.settlements)
      ++ turn_started after.active_player after.turn_number ∷ []
    else []

abbrev pub outcome_events : Option MatchOutcome → Option MatchOutcome → List TransitionEvent
outcome_events none (some outcome) = match_ended outcome ∷ []
outcome_events none none = []
outcome_events (some o) after = []

unfoldable pub transition_events : MatchState → MatchState → Action → List TransitionEvent
unfolding move_transition_events promotion_transition_events placement_transition_events
    settlement_change_events promotion_candidate_events new_mandatory_choice_events turn_events
transition_events before after action =
    action_events before after action
    ++ (event_if
          (not (is_draw_response action)
            && is_some before.outstanding_draw_offer
            && is_none after.outstanding_draw_offer)
          (draw_answered (action_player action) false)
        ++ (settlement_change_events before.settlements after.settlements
            ++ (promotion_candidate_events before after action
                ++ (new_mandatory_choice_events before.phase after.phase
                    ++ (turn_events before after ++ outcome_events before.outcome after.outcome)))))
