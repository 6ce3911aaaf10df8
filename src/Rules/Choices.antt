-- ===== src/Rules/Choices.antt =====
-- The queue of mandatory choices in crates/crownline_core/src/rules.rs.
use crownline.Prelude.{
  ℕ, Bool, not, Option, none, some, List, [], ◌∷◌, ◌++◌, ltb, leb, nat_beq, if◌then◌else◌, is_none,
  get_elem?, sort_by, keep, map, Result, ok, err, ◌>>=◌, ◌>>◌, ensure, checked_inc, u16_max,
  u32_max,
}
use crownline.Scenario.Types.{
  Coord, coord_beq, coord_le, Player, player_beq, Site, ScenarioDefinition,
}
use crownline.State.Types.{
  PieceId, MandatoryChoice, promote, place_pawn, TurnPhase, resolving_choices, command, MatchState,
  recruitment_order, allows, Action, choose_promotion, place_pawn_at,
}
use crownline.State.Errors.{
  TransitionError, wrong_player, match_finished, wrong_turn_phase, choice_does_not_match,
  piece_id_overflow,
}

-- `queue.extend(choices)`; in the command phase the choices open a queue.
unfoldable pub append_to_phase : TurnPhase → List MandatoryChoice → TurnPhase
append_to_phase phase [] = phase
append_to_phase command (c ∷ cs) = resolving_choices (c ∷ cs)
append_to_phase (resolving_choices queue) (c ∷ cs) = resolving_choices (queue ++ c ∷ cs)

unfoldable pub append_mandatory_choices : MatchState → List MandatoryChoice → MatchState
unfolding append_to_phase
append_mandatory_choices state choices = record state {
  phase = append_to_phase state.phase choices;
}

-- A missing site sorts last, at `(u16::MAX, u16::MAX)`.
abbrev pub site_or_last : List Site → ℕ → Coord
site_or_last sites index = elim (get_elem? sites index) [
  | none ↦ record { x = u16_max; y = u16_max }
  | some site ↦ site.at
]

pub record ChoiceKey : Type 0 where
  pub place : Coord
  pub rank : ℕ
  pub number : ℕ

unfoldable pub choice_key : ScenarioDefinition → MandatoryChoice → ChoiceKey
choice_key scenario (promote piece index eligibility) = record {
  place = site_or_last scenario.promotion_sites index;
  rank = 0;
  number = piece;
}
choice_key scenario (place_pawn index squares) = record {
  place = site_or_last scenario.settlements index;
  rank = 1;
  number = index;
}

-- The order of the keys: by square, then by rank, then by number.
abbrev pub key_le : ChoiceKey → ChoiceKey → Bool
key_le a b =
    if not (coord_beq a.place b.place)
    then coord_le a.place b.place
    else if not (nat_beq a.rank b.rank)
    then ltb a.rank b.rank
    else leb a.number b.number

abbrev pub choice_le : ScenarioDefinition → MandatoryChoice → MandatoryChoice → Bool
choice_le scenario a b = key_le (choice_key scenario a) (choice_key scenario b)

abbrev pub sort_phase : ScenarioDefinition → TurnPhase → TurnPhase
sort_phase scenario command = command
sort_phase scenario (resolving_choices queue) =
    resolving_choices (sort_by (choice_le scenario) queue)

unfoldable pub sort_mandatory_choices : ScenarioDefinition → MatchState → MatchState
sort_mandatory_choices scenario state = record state { phase = sort_phase scenario state.phase }

unfoldable pub ensure_choice_actor : MatchState → Player → Result (Unit {0}) TransitionError
ensure_choice_actor state player = do
  ensure (player_beq player state.active_player) (wrong_player state.active_player player)
  ensure (is_none state.outcome) match_finished

-- The queue with its first choice taken off; an empty queue ends the phase.
abbrev pub after_choice : List MandatoryChoice → TurnPhase
after_choice [] = command
after_choice (c ∷ cs) = resolving_choices (c ∷ cs)

abbrev pub complete_in : TurnPhase → Result TurnPhase TransitionError
complete_in command = err wrong_turn_phase
complete_in (resolving_choices []) = err choice_does_not_match
complete_in (resolving_choices (c ∷ rest)) = ok (after_choice rest)

unfoldable pub complete_first_choice : MatchState → Result MatchState TransitionError
complete_first_choice state = do
  phase ← complete_in state.phase
  ok (record state { phase = phase })

-- The next identifier, and the state that has moved past it.
unfoldable pub allocate_piece_id : MatchState → Result (PieceId × MatchState) TransitionError
allocate_piece_id state = do
  next ← checked_inc u32_max state.next_piece_id piece_id_overflow
  ok (state.next_piece_id, record state { next_piece_id = next })

-- The first choice of the queue: `queue.first()`, or the error outside the phase.
abbrev pub first_choice : TurnPhase → Result (Option MandatoryChoice) TransitionError
first_choice command = err wrong_turn_phase
first_choice (resolving_choices []) = ok none
first_choice (resolving_choices (c ∷ rest)) = ok (some c)

abbrev pub actions_for : Player → MandatoryChoice → List Action
actions_for player (promote piece index eligibility) =
    map (λ kind. choose_promotion player piece kind) (keep (allows eligibility) recruitment_order)
actions_for player (place_pawn index squares) = map (λ at. place_pawn_at player index at) squares

abbrev pub phase_actions : Player → TurnPhase → List Action
phase_actions player command = []
phase_actions player (resolving_choices []) = []
phase_actions player (resolving_choices (c ∷ rest)) = actions_for player c

unfoldable pub legal_mandatory_choice_actions : MatchState → List Action
legal_mandatory_choice_actions state =
    if is_none state.outcome then phase_actions state.active_player state.phase else []
