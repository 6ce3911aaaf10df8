-- ===== src/Rules/Frame.antt =====
-- What the steps after the dispatched action touch, in `apply_action` of crates/crownline_core/src/rules.rs.
use crownline.Prelude.{
  ℕ, ◌≡◌, Bool, true, false, List, [], ◌∷◌, arith, Result, ok, err, ◌>>=◌, Ensures, >>=-Ensures_any,
  if◌then◌else◌, not,
}
use crownline.Scenario.Types.{Player, ScenarioDefinition}
use crownline.State.Types.{MatchState, Action}
use crownline.State.Errors.{TransitionError}
use crownline.State.Repetition.{Digest}
use crownline.Rules.Settlements.{
  apply_settlement_landing_effect, land_at, cancel_invalid_transfer_candidates,
  resolve_transfer_candidates,
}
use crownline.Rules.Cycles.{
  latch_settlement_interruptions, latch_each, uninterrupted, interrupt,
  settlement_cycle_requirements_met, complete_owner_cycles,
}
use crownline.Rules.Choices.{sort_mandatory_choices, append_mandatory_choices}
use crownline.Rules.Promotions.{
  apply_promotion_landing_effect, cancel_invalid_promotion_candidates, advance_promotion_candidates,
}
use crownline.Rules.Command.{record_repetition}
use crownline.Rules.Action.{is_boundary, landing_effects, resolve_boundary, owner_boundary}

-- Two states that agree on the board, the turn, the draw offer, the clocks, the counters and the
-- exploration.
pub record Untouched (a b : MatchState) : Type 0 where
  pub scenario_id : b.scenario_id ≡ a.scenario_id
  pub revision : b.revision ≡ a.revision
  pub turn_number : b.turn_number ≡ a.turn_number
  pub active_player : b.active_player ≡ a.active_player
  pub pieces : b.pieces ≡ a.pieces
  pub en_passant : b.en_passant ≡ a.en_passant
  pub available_castling_routes : b.available_castling_routes ≡ a.available_castling_routes
  pub clocks : b.clocks ≡ a.clocks
  pub next_piece_id : b.next_piece_id ≡ a.next_piece_id
  pub exploration : b.exploration ≡ a.exploration
  pub outstanding_draw_offer : b.outstanding_draw_offer ≡ a.outstanding_draw_offer

pub Untouched-refl : (a : MatchState) → Untouched a a
Untouched-refl a = ground arith

pub Untouched-trans : {a b c : MatchState} → Untouched a b → Untouched b c → Untouched a c
Untouched-trans p q = ground arith

-- The state that a step returns agrees with a given one.
abbrev pub Keeps : MatchState → Result MatchState TransitionError → Type 0
Keeps a = Ensures (Untouched a)

-- A step that cannot fail, before one that can.
pub Keeps-after :
    (a b : MatchState) (r : Result MatchState TransitionError)
    → Untouched a b
    → Keeps b r
    → Keeps a r
Keeps-after a b (ok c) p q = Untouched-trans p q
Keeps-after a b (err e) p q = tt

-- Steps in sequence.
>>=-Keeps :
    (a : MatchState) (m : Result MatchState TransitionError)
    (f : MatchState → Result MatchState TransitionError)
    → Keeps a m
    → ((b : MatchState) → Keeps b (f b))
    → Keeps a (m >>= f)
>>=-Keeps a (ok b) f h k = Keeps-after a b (f b) h (k b)
>>=-Keeps a (err e) f h k = tt

if-Keeps :
    (a : MatchState) (test : Bool) (r r' : Result MatchState TransitionError)
    → Keeps a r
    → Keeps a r'
    → Keeps a (if test then r else r')
if-Keeps a true r r' p q = p
if-Keeps a false r r' p q = q

landing-Keeps :
    (scenario : ScenarioDefinition) (state : MatchState) (action : Action)
    → Keeps state (apply_settlement_landing_effect scenario state action)
unfolding apply_settlement_landing_effect land_at
landing-Keeps scenario state action = ground arith

promotion_landing-Untouched :
    (scenario : ScenarioDefinition) (state : MatchState) (action : Action)
    → Untouched state (apply_promotion_landing_effect scenario state action)
unfolding apply_promotion_landing_effect
promotion_landing-Untouched scenario state action = ground arith

cancel_promotions-Untouched :
    (scenario : ScenarioDefinition) (state : MatchState)
    → Untouched state (cancel_invalid_promotion_candidates scenario state)
unfolding cancel_invalid_promotion_candidates
cancel_promotions-Untouched scenario state = ground arith

cancel_transfers-Keeps :
    (scenario : ScenarioDefinition) (state : MatchState)
    → Keeps state (cancel_invalid_transfer_candidates scenario state)
unfolding cancel_invalid_transfer_candidates
cancel_transfers-Keeps scenario state = ground arith

resolve-Keeps :
    (scenario : ScenarioDefinition) (state : MatchState) (player : Player)
    → Keeps state (resolve_transfer_candidates scenario state player)
unfolding resolve_transfer_candidates
resolve-Keeps scenario state player = ground arith

interrupt-Untouched : (state : MatchState) (index : ℕ) → Untouched state (interrupt state index)
unfolding interrupt
interrupt-Untouched state index = ground arith

latch_each-Keeps :
    (scenario : ScenarioDefinition) (indices : List ℕ) (state : MatchState)
    → Keeps state (latch_each scenario indices state)
unfolding latch_each
latch_each-Keeps scenario [] state = Untouched-refl state
latch_each-Keeps scenario (i ∷ rest) state =
    >>=-Ensures_any (Untouched state) (settlement_cycle_requirements_met scenario state i) _
      λ met _.
        Keeps-after state (if met then state else interrupt state i) _
          (ground (arith, Untouched-refl state, interrupt-Untouched state i))
          (latch_each-Keeps scenario rest (if met then state else interrupt state i))

pub latch-Keeps :
    (scenario : ScenarioDefinition) (state : MatchState)
    → Keeps state (latch_settlement_interruptions scenario state)
unfolding latch_settlement_interruptions
latch-Keeps scenario state = latch_each-Keeps scenario (uninterrupted state.settlements) state

cycles-Untouched :
    (scenario : ScenarioDefinition) (state : MatchState) (owner : Player)
    → Untouched state (complete_owner_cycles scenario state owner)
unfolding complete_owner_cycles append_mandatory_choices
cycles-Untouched scenario state owner = ground arith

advance-Keeps :
    (scenario : ScenarioDefinition) (state : MatchState) (player : Player)
    → Keeps state (advance_promotion_candidates scenario state player)
unfolding advance_promotion_candidates append_mandatory_choices
advance-Keeps scenario state player = ground arith

sort-Untouched :
    (scenario : ScenarioDefinition) (state : MatchState)
    → Untouched state (sort_mandatory_choices scenario state)
unfolding sort_mandatory_choices
sort-Untouched scenario state = ground arith

repetition-Keeps :
    (digest : Digest) (state : MatchState) → Keeps state (record_repetition digest state)
unfolding record_repetition
repetition-Keeps digest state = ground arith

pub effects-Keeps :
    (scenario : ScenarioDefinition) (action : Action) (state : MatchState)
    → Keeps state (landing_effects scenario action state)
unfolding landing_effects
effects-Keeps scenario action state =
    >>=-Keeps state (apply_settlement_landing_effect scenario state action) _
      (landing-Keeps scenario state action)
      λ landed.
        >>=-Keeps landed
          (cancel_invalid_transfer_candidates scenario
            (apply_promotion_landing_effect scenario landed action))
          _
          (Keeps-after landed _ _ (promotion_landing-Untouched scenario landed action)
            (cancel_transfers-Keeps scenario _))
          (cancel_promotions-Untouched scenario)

pub boundary_transfers-Keeps :
    (scenario : ScenarioDefinition) (state after : MatchState)
    → Keeps after (resolve_boundary scenario state after)
unfolding resolve_boundary
boundary_transfers-Keeps scenario state after =
    if-Keeps after (is_boundary state after) _ _ (resolve-Keeps scenario after after.active_player)
      (Untouched-refl after)

pub boundary-Keeps :
    (digest : Digest) (scenario : ScenarioDefinition) (state after : MatchState)
    → Keeps after (owner_boundary digest scenario state after)
unfolding owner_boundary
boundary-Keeps digest scenario state after =
    if-Keeps after (not (is_boundary state after)) _ _ (Untouched-refl after) (
      >>=-Keeps after _ _
        (Keeps-after after _ _ (cycles-Untouched scenario after after.active_player)
          (advance-Keeps scenario _ after.active_player))
        λ advanced.
          >>=-Keeps advanced _ _
            (Keeps-after advanced _ _ (sort-Untouched scenario advanced)
              (latch-Keeps scenario (sort_mandatory_choices scenario advanced)))
            (repetition-Keeps digest))
