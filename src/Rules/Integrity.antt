-- ===== src/Rules/Integrity.antt =====
-- The invariants of the match state across `apply_action` of crates/crownline_core/src/rules.rs.
use crownline.Prelude.{◌≡◌, arith, ok, Ensures, Ensures-ok}
use crownline.Scenario.Types.{ScenarioDefinition}
use crownline.State.Types.{MatchState, Action}
use crownline.State.Repetition.{Digest}
use crownline.State.Steps.{from_step}
use crownline.State.Vision.{check_context, update_exploration, update_exploration_unchecked}
use crownline.State.WellFormed.{WellFormed, validate-WellFormed}
use crownline.Rules.Cycles.{latch_settlement_interruptions}
use crownline.Rules.Events.{Transition}
use crownline.Rules.Action.{
  lapse_draw_offer, landing_effects, resolve_boundary, owner_boundary, settle, apply_action,
}
use crownline.Rules.Conduct.{apply_action-Accepted}

-- The checks that open a public function include the invariants.
pub check_context-WellFormed :
    (scenario : ScenarioDefinition) (state : MatchState)
    → check_context scenario state ≡ ok tt
    → WellFormed state
unfolding check_context
check_context-WellFormed scenario state h = ground (arith, validate-WellFormed state)

explored-WellFormed :
    (scenario : ScenarioDefinition) (state : MatchState)
    → WellFormed state
    → WellFormed (update_exploration_unchecked scenario state)
unfolding update_exploration_unchecked
explored-WellFormed scenario state w = ground arith

update-WellFormed :
    (scenario : ScenarioDefinition) (state : MatchState)
    → Ensures WellFormed (update_exploration scenario state)
unfolding update_exploration
update-WellFormed scenario state =
    from_step WellFormed (check_context scenario state) _
      λ _ h. explored-WellFormed scenario state (check_context-WellFormed scenario state h)

settle-WellFormed :
    (digest : Digest) (scenario : ScenarioDefinition) (state : MatchState) (action : Action)
    (next : MatchState)
    → Ensures WellFormed (settle digest scenario state action next)
unfolding settle
settle-WellFormed digest scenario state action next =
    from_step WellFormed (landing_effects scenario action (lapse_draw_offer state action next)) _
      λ landed _. from_step WellFormed (resolve_boundary scenario state landed) _ λ resolved _.
        from_step WellFormed (latch_settlement_interruptions scenario resolved) _ λ latched _.
          from_step WellFormed (owner_boundary digest scenario state latched) _
            λ counted _. update-WellFormed scenario counted

-- Whatever state an action is applied to, an accepted action leads to a well-formed one: pieces
-- under their own identifiers on squares of their own, one king to a side (counted modulo 256), and
-- no settlement that names a piece which is gone.
pub apply_action-WellFormed :
    (digest : Digest) (scenario : ScenarioDefinition) (state : MatchState) (action : Action)
    {t : Transition}
    → apply_action digest scenario state action ≡ ok t
    → WellFormed t.state
apply_action-WellFormed digest scenario state action h =
    let a = apply_action-Accepted digest scenario state action h in
    Ensures-ok WellFormed _ a.settled (settle-WellFormed digest scenario state action a.next)
