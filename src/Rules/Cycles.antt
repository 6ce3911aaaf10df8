-- ===== src/Rules/Cycles.antt =====
-- Interruptions and owner cycles of settlements in crates/crownline_core/src/rules.rs.
use crownline.Prelude.{
  ℕ, ◌+◌, Bool, true, false, not, ◌&&◌, Option, none, some, List, [], ◌∷◌, ltb, leb, nat_beq, min,
  if◌then◌else◌, any, keep, map, filter_map, get_elem?, update_first, is_empty, is_some, is_none,
  is_some_and, option_beq, Result, ok, ◌>>=◌, ok_or, u8_max,
}
use crownline.Prelude.Map
use crownline.Prelude.Map.{Map}
use crownline.Scenario.Types.{
  Coord, coord_beq, Player, player_beq, player_eq, pawn, kind_beq, ScenarioRules,
  ScenarioDefinition,
}
use crownline.State.Types.{PieceId, Piece, SettlementState, MandatoryChoice, place_pawn, MatchState}
use crownline.State.Errors.{TransitionError, missing_settlement}
use crownline.Rules.Realm.{settlement_at, is_governed, pawn_placement_squares_unchecked}
use crownline.Rules.Choices.{append_mandatory_choices}

-- The founder is on the board, a pawn of the owner.
unfoldable pub founder_present : Map Piece → Player → Option PieceId → Bool
founder_present pieces owner founder = is_some_and founder (λ id.
    is_some_and (Map.get id pieces)
      (λ piece. player_beq piece.owner owner && kind_beq piece.kind pawn))

unfoldable pub enemy_occupies : MatchState → Player → Coord → Bool
enemy_occupies state owner at =
    any (λ piece. coord_beq piece.at at && not (player_beq piece.owner owner))
      (Map.values state.pieces)

unfoldable pub settlement_cycle_requirements_met :
    ScenarioDefinition → MatchState → ℕ → Result Bool TransitionError
unfolding founder_present enemy_occupies
settlement_cycle_requirements_met scenario state index = do
  s ← ok_or (settlement_at state index) (missing_settlement index)
  elim s.owner [
    | none ↦ ok false
    | some owner ↦ do
      site ← ok_or (get_elem? scenario.settlements index) (missing_settlement index)
      governed ← is_governed scenario state index
      ok (
          founder_present state.pieces owner s.founder
          && not (enemy_occupies state owner site.at)
          && governed)
  ]

unfoldable pub interrupt : MatchState → ℕ → MatchState
interrupt state index = record state {
  settlements =
      update_first (λ s. nat_beq s.site_index index) (λ s. record s { cycle_interrupted = true })
        state.settlements;
}

-- The loop over the indices that were collected first; each round sees the earlier writes.
unfoldable pub latch_each :
    ScenarioDefinition → List ℕ → MatchState → Result MatchState TransitionError
latch_each scenario [] state = ok state
latch_each scenario (index ∷ rest) state = do
  met ← settlement_cycle_requirements_met scenario state index
  latch_each scenario rest (if met then state else interrupt state index)

unfoldable pub uninterrupted : List SettlementState → List ℕ
uninterrupted settlements =
    map (λ s. s.site_index) (keep (λ s. is_some s.owner && not s.cycle_interrupted) settlements)

unfoldable pub latch_settlement_interruptions :
    ScenarioDefinition → MatchState → Result MatchState TransitionError
unfolding latch_each uninterrupted interrupt
latch_settlement_interruptions scenario state =
    latch_each scenario (uninterrupted state.settlements) state

-- `saturating_add(1).min(limit)` of a `u8`.
abbrev pub advance_to : ℕ → ℕ → ℕ
advance_to limit n = min (min (n + 1) u8_max) limit

-- Establishment: one step for a continuous cycle, and a reset where the scenario asks for it.
unfoldable pub advance_establishment : ScenarioRules → SettlementState → SettlementState
advance_establishment rules s =
    let progress = advance_to rules.establishment_cycles s.establishment_progress in
    if s.established
    then s
    else if not s.cycle_interrupted
    then record s {
      establishment_progress = progress;
      established = nat_beq progress rules.establishment_cycles;
    }
    else if rules.development_resets_when_interrupted
    then record s { establishment_progress = 0 }
    else s

-- Production: only where the settlement was established before this boundary.
unfoldable pub advance_production : ScenarioRules → Bool → SettlementState → SettlementState
advance_production rules was_established s =
    if was_established
      && is_none s.produced_pawn
      && ltb s.production_progress rules.production_cycles
    then (if not s.cycle_interrupted
        then record s {
          production_progress = advance_to rules.production_cycles s.production_progress;
        }
        else if rules.development_resets_when_interrupted
        then record s { production_progress = 0 }
        else s)
    else s

unfoldable pub complete_cycle : ScenarioRules → Player → List ℕ → SettlementState → SettlementState
complete_cycle rules owner previously s =
    if option_beq s.owner (some owner)
    then record (advance_production rules (any (λ i. nat_beq i s.site_index) previously) (
        advance_establishment rules
          (record s { completed_cycle_continuous = not s.cycle_interrupted }))) {
            cycle_interrupted = false;
          }
    else s

unfoldable pub established_sites : List SettlementState → List ℕ
established_sites settlements = map (λ s. s.site_index) (keep (λ s. s.established) settlements)

-- A settlement ready to produce, with the squares open to its pawn.
unfoldable pub production_choice :
    ScenarioDefinition → MatchState → Player → SettlementState → Option MandatoryChoice
production_choice scenario state owner s =
    let squares = pawn_placement_squares_unchecked scenario state s.site_index in
    if option_beq s.owner (some owner)
      && s.established
      && is_none s.produced_pawn
      && leb scenario.rules.production_cycles s.production_progress
      && not (is_empty squares)
    then some (place_pawn s.site_index squares)
    else none

unfoldable pub complete_owner_cycles : ScenarioDefinition → MatchState → Player → MatchState
complete_owner_cycles scenario state owner =
    let next = record state {
      settlements =
          map (complete_cycle scenario.rules owner (established_sites state.settlements))
            state.settlements;
    } in
    append_mandatory_choices next
      (filter_map (production_choice scenario next owner) next.settlements)
