-- ===== src/Match.antt =====
-- The states that a match of crates/crownline_core passes through, from `from_scenario` on.
pub mod History
use crownline.Prelude.{
  ℕ, suc, ◌+◌, ◌≤◌, ◌≡◌, List, [], ◌∷◌, arith, length, leb, sort_by, length-sort_by, u32_max,
  map_err, ok, ensure, >>=-eq-ok, Ensures, Ensures-ok, Ensures-map, >>=-Ensures_any, if-Ensures,
  Option, is_some,
}
use crownline.Scenario.Types.{Deployment, Player, ScenarioDefinition}
use crownline.Scenario.Validate.{validate}
use crownline.State.Types.{ClockState, MatchState, Action}
use crownline.State.Errors.{invalid_scenario, too_many_pieces}
use crownline.State.Invariants.{validate_invariants}
use crownline.State.Repetition.{Digest, repetition_key}
use crownline.State.Create.{deployment_le, deploy, found_settlements, initial_state, from_scenario}
use crownline.State.Vision.{update_exploration_unchecked}
use crownline.State.WellFormed.{WellFormed, validate-WellFormed}
use crownline.Rules.Events.{Transition}
use crownline.Rules.Action.{apply_action}
use crownline.Rules.Integrity.{apply_action-WellFormed}
use crownline.Rules.Identity.{apply_action-Issues}
use crownline.Rules.Identity.Maps.{Below}
use crownline.Clock.{
  ClockSettings, start_clocks, advance_clock, charge, expire, increment_for, increment_player,
  apply_timed_action,
}

deploy-Below :
    (index n : ℕ) (ds : List Deployment)
    → index + length ds ≤ n
    → Ensures (Below n) (deploy index ds)
unfolding deploy
deploy-Below index n [] h = tt
deploy-Below index n (d ∷ rest) h = ground (arith, deploy-Below (suc index) n rest (omega arith))

-- What the clock and the fog leave of a state.
unfoldable pub SameIds : MatchState → MatchState → Type 0
SameIds a b =
    (b.pieces ≡ a.pieces) × (b.next_piece_id ≡ a.next_piece_id) × (b.settlements ≡ a.settlements)

SameIds-WellFormed : (a b : MatchState) → SameIds a b → WellFormed a → WellFormed b
unfolding SameIds
SameIds-WellFormed a b (p, n, s) w = record {
  keyed = rw p w.keyed;
  spread = rw p w.spread;
  north_king = rw p w.north_king;
  south_king = rw p w.south_king;
  references = rw (p, s) w.references;
}

explored-SameIds :
    (scenario : ScenarioDefinition) (a : MatchState)
    → SameIds a (update_exploration_unchecked scenario a)
unfolding SameIds update_exploration_unchecked
explored-SameIds scenario a = ground arith

advance_clock-SameIds :
    (a : MatchState) (elapsed : ℕ) {t : Transition}
    → advance_clock a elapsed ≡ ok t
    → SameIds a t.state
unfolding SameIds advance_clock charge expire
advance_clock-SameIds a elapsed h = ground arith

start_clocks-SameIds :
    (a b : MatchState) (settings : ClockSettings) → start_clocks a settings ≡ ok b → SameIds a b
unfolding SameIds start_clocks
start_clocks-SameIds a b settings h = ground arith

-- Every way to a next state: an action, on clocks or not, time that passes, and clocks that start.
pub data Reachable (digest : Digest) (scenario : ScenarioDefinition) : MatchState → Type 0 where
  created : (s : MatchState) → from_scenario digest scenario ≡ ok s → Reachable digest scenario s
  clocked :
      (s s' : MatchState) (settings : ClockSettings)
      → Reachable digest scenario s
      → start_clocks s settings ≡ ok s'
      → Reachable digest scenario s'
  acted :
      (s : MatchState) (action : Action) (t : Transition)
      → Reachable digest scenario s
      → apply_action digest scenario s action ≡ ok t
      → Reachable digest scenario t.state
  waited :
      (s : MatchState) (elapsed : ℕ) (t : Transition)
      → Reachable digest scenario s
      → advance_clock s elapsed ≡ ok t
      → Reachable digest scenario t.state
  timed :
      (s : MatchState) (action : Action) (elapsed : ℕ) (t : Transition)
      → Reachable digest scenario s
      → apply_timed_action digest scenario s action elapsed ≡ ok t
      → Reachable digest scenario t.state

-- The invariant of a match.
pub record Sound (s : MatchState) : Type 0 where
  pub well_formed : WellFormed s
  pub issued : Below s.next_piece_id s.pieces

pub SameIds-Sound : (a b : MatchState) → SameIds a b → Sound a → Sound b
unfolding SameIds
SameIds-Sound a b same h = record {
  well_formed = SameIds-WellFormed a b same h.well_formed;
  issued = rw (same.0, same.1) h.issued;
}

pub from_scenario-Sound :
    (digest : Digest) (scenario : ScenarioDefinition) (s : MatchState)
    → from_scenario digest scenario ≡ ok s
    → Sound s
unfolding from_scenario initial_state SameIds
from_scenario-Sound digest scenario s h =
    let (u, valid, h1) = >>=-eq-ok (map_err (validate scenario) invalid_scenario) _ h in
    let (pieces, deployed, h2) =
      >>=-eq-ok (deploy 0 (sort_by deployment_le scenario.deployments)) _ h1 in
    let (v, few, h3) =
      >>=-eq-ok (ensure (leb (length scenario.deployments) u32_max) too_many_pieces) _ h2 in
    let (settlements, founded, h4) = >>=-eq-ok (found_settlements 0 scenario.settlements) _ h3 in
    let fresh = initial_state scenario pieces settlements in
    let explored = update_exploration_unchecked scenario fresh in
    let (w, checked, h5) = >>=-eq-ok (validate_invariants explored) _ h4 in
    let (key, digested, e) = >>=-eq-ok (repetition_key digest explored) _ h5 in
    let below = Ensures-ok (Below (length scenario.deployments)) _ deployed (
      deploy-Below 0 (length scenario.deployments) (sort_by deployment_le scenario.deployments)
        (omega (arith, length-sort_by deployment_le scenario.deployments))) in
    let same = explored-SameIds scenario fresh in
    let sound : Sound explored = record {
      well_formed = validate-WellFormed explored checked;
      issued = rw (same.0, same.1) below;
    } in
    SameIds-Sound explored s (ground (arith, e)) sound

apply_action-Sound :
    (digest : Digest) (scenario : ScenarioDefinition) (a : MatchState) (action : Action)
    {t : Transition}
    → Sound a
    → apply_action digest scenario a action ≡ ok t
    → Sound t.state
apply_action-Sound digest scenario a action sound h = record {
  well_formed = apply_action-WellFormed digest scenario a action h;
  issued = (apply_action-Issues digest scenario a action sound.issued h).1;
}

increment_for-SameIds :
    (player : Option Player) (clocks : Option ClockState) (done : Transition)
    → Ensures (λ t. SameIds done.state t.state) (increment_for player clocks done)
unfolding SameIds
increment_for-SameIds player clocks done = ground arith

-- An action on clocks keeps the invariant.
pub apply_timed_action-Sound :
    (digest : Digest) (scenario : ScenarioDefinition) (a : MatchState) (action : Action)
    (elapsed : ℕ)
    → Sound a
    → Ensures (λ t. Sound t.state) (apply_timed_action digest scenario a action elapsed)
unfolding apply_timed_action
apply_timed_action-Sound digest scenario a action elapsed sound =
    let P : Transition → Type 0 = λ t. Sound t.state in
    >>=-Ensures_any P (advance_clock a elapsed) _ λ charged waited.
      let charged_sound =
        SameIds-Sound a charged.state (advance_clock-SameIds a elapsed waited) sound in
      if-Ensures P (is_some charged.state.outcome) _ _ charged_sound (
        >>=-Ensures_any P (apply_action digest scenario charged.state action) _ λ done acted.
          Ensures-map (λ t. SameIds done.state t.state) P
            (increment_for (increment_player action) done.state.clocks _)
            (λ t same.
              SameIds-Sound done.state t.state same
                (apply_action-Sound digest scenario charged.state action charged_sound acted))
            (increment_for-SameIds (increment_player action) done.state.clocks _))

-- In every reachable state the pieces stand under their own identifiers on squares of their own,
-- each side has its King (counted modulo 256), the settlements name living pieces only, and every
-- identifier on the board is below the next one to be given out.
pub Reachable-Sound :
    (digest : Digest) (scenario : ScenarioDefinition) (s : MatchState)
    → Reachable digest scenario s
    → Sound s
Reachable-Sound digest scenario s (created _ h) = from_scenario-Sound digest scenario s h
Reachable-Sound digest scenario s (clocked a _ settings r h) =
    SameIds-Sound a s (start_clocks-SameIds a s settings h) (Reachable-Sound digest scenario a r)
Reachable-Sound digest scenario s (acted a action t r h) =
    apply_action-Sound digest scenario a action (Reachable-Sound digest scenario a r) h
Reachable-Sound digest scenario s (waited a elapsed t r h) =
    SameIds-Sound a t.state (advance_clock-SameIds a elapsed h)
      (Reachable-Sound digest scenario a r)
Reachable-Sound digest scenario s (timed a action elapsed t r h) =
    Ensures-ok (λ t. Sound t.state) _ h
      (apply_timed_action-Sound digest scenario a action elapsed
        (Reachable-Sound digest scenario a r))
