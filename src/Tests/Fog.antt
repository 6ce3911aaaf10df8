-- ===== src/Tests/Fog.antt =====
-- Runs of the model under fog, and the theorems on vision at a concrete input.
use crownline.Prelude.{
  ◌≡◌, ◌↔◌, refl, inl, inr, true, ◌||◌, List, [], ◌∷◌, In, ok, is_ok, is_ok-cases, contains,
  Ensures,
}
use crownline.Scenario.Types.{Coord, coord_eq, south, FogRules, ScenarioDefinition}
use crownline.State.Types.{MatchState, Action, move}
use crownline.State.Create.{from_scenario}
use crownline.State.Vision.{
  visible_coordinates_unchecked, validate_exploration, VisibilityCache, cleared, cache_visible,
}
use crownline.State.Sight.{explored_in}
use crownline.State.Range.{Visible, visible_coordinates_unchecked-Visible}
use crownline.State.Cache.{Filled, empty, looked, cache_visible-visible_coordinates_unchecked}
use crownline.Match.History.{Game, created, acted, Game-Determined}
use crownline.Rules.Events.{Transition}
use crownline.Rules.Action.{apply_action}
use crownline.Rules.Discovery.{apply_action-validate_exploration, apply_action-explored_in}
use crownline.Evaluation.{evaluation}
use crownline.Examples.{at, demo_digest, foggy, start, state_of}

abbrev fog_rules : FogRules
fog_rules = record { schema_version = 1; vision_radius = 2 }

-- South moves onto the settlement in a match under fog.
abbrev foggy_start : MatchState
foggy_start = state_of (from_scenario demo_digest foggy)

abbrev claim : Action
claim = move south 3 (at 3 3)

claim-is_ok : is_ok (apply_action demo_digest foggy foggy_start claim) ≡ true
unfolding evaluation
claim-is_ok = refl

abbrev foggy_claim : Transition
foggy_claim = (is_ok-cases (apply_action demo_digest foggy foggy_start claim) claim-is_ok).0

foggy_claim-eq : apply_action demo_digest foggy foggy_start claim ≡ ok foggy_claim
foggy_claim-eq = (is_ok-cases (apply_action demo_digest foggy foggy_start claim) claim-is_ok).1

apply_action-validate_exploration_example : validate_exploration foggy foggy_claim.state ≡ ok tt
apply_action-validate_exploration_example =
    apply_action-validate_exploration demo_digest foggy foggy_start claim foggy_claim-eq

apply_action-explored_in_example : contains (explored_in foggy_claim.state south) (at 3 1) ≡ (
    contains (explored_in foggy_start south) (at 3 1)
    || contains (visible_coordinates_unchecked foggy foggy_claim.state south) (at 3 1))
apply_action-explored_in_example =
    apply_action-explored_in demo_digest foggy foggy_start claim fog_rules refl foggy_claim-eq south
      (at 3 1)

start-seen : contains (visible_coordinates_unchecked foggy start south) (at 3 5) ≡ true
unfolding evaluation
start-seen = refl

visible_coordinates_unchecked-Visible_example :
    (contains (visible_coordinates_unchecked foggy start south) (at 3 5) ≡ true)
    ↔ Visible foggy start south (at 3 5)
visible_coordinates_unchecked-Visible_example =
    visible_coordinates_unchecked-Visible foggy start south (at 3 5)

-- A cache that was asked before South's move and is asked again after it.
foggy_start-eq : from_scenario demo_digest foggy ≡ ok foggy_start
unfolding evaluation
foggy_start-eq = refl

foggy_game : Game demo_digest foggy foggy_claim.state (foggy_start ∷ [])
foggy_game =
    acted foggy_start [] claim foggy_claim (created foggy_start foggy_start-eq) foggy_claim-eq

abbrev Played : ScenarioDefinition → MatchState → Type 0
Played played s = (played ≡ foggy) × In s (foggy_claim.state ∷ foggy_start ∷ [])

first_lookup-is_ok : is_ok (cache_visible cleared foggy foggy_start south) ≡ true
unfolding evaluation cleared
first_lookup-is_ok = refl

abbrev first_lookup : VisibilityCache × List Coord
first_lookup = (is_ok-cases (cache_visible cleared foggy foggy_start south) first_lookup-is_ok).0

first_lookup-eq :
    cache_visible cleared foggy foggy_start south ≡ ok (first_lookup.0, first_lookup.1)
first_lookup-eq = (is_ok-cases (cache_visible cleared foggy foggy_start south) first_lookup-is_ok).1

first_lookup-Filled : Filled Played first_lookup.0
first_lookup-Filled =
    looked cleared first_lookup.0 foggy foggy_start south first_lookup.1 empty
      (refl, inr (inl refl)) first_lookup-eq

cache_visible-visible_coordinates_unchecked_example :
    Ensures
      (λ reply. reply.1 ≡ visible_coordinates_unchecked foggy foggy_claim.state south)
      (cache_visible first_lookup.0 foggy foggy_claim.state south)
cache_visible-visible_coordinates_unchecked_example =
    cache_visible-visible_coordinates_unchecked Played first_lookup.0 foggy foggy_claim.state south
      (Game-Determined demo_digest foggy foggy_claim.state (foggy_start ∷ []) foggy_game)
      first_lookup-Filled (refl, inl refl)
