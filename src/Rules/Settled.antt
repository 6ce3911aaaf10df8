-- ===== src/Rules/Settled.antt =====
-- What follows the dispatched action as a whole, `settle` in the model of `apply_action` of
-- crates/crownline_core/src/rules.rs.
use crownline.Prelude.{◌≡◌, refl, arith, Result, ok, err, ◌>>=◌, Ensures, Ensures-ok, Ensures-map}
use crownline.Scenario.Types.{ScenarioDefinition}
use crownline.State.Types.{MatchState, Action}
use crownline.State.Errors.{TransitionError}
use crownline.State.Repetition.{Digest}
use crownline.State.Vision.{update_exploration, update_exploration_unchecked}
use crownline.Rules.Action.{lapse_draw_offer, settle}
use crownline.Rules.Frame.{
  Untouched, Untouched-refl, Untouched-trans, Keeps, effects-Keeps, boundary_transfers-Keeps,
  latch-Keeps, boundary-Keeps,
}

-- Two states that agree on the board, the turn, the clocks and the counters.
pub record SameBoard (a b : MatchState) : Type 0 where
  pub scenario_id : b.scenario_id ≡ a.scenario_id
  pub revision : b.revision ≡ a.revision
  pub turn_number : b.turn_number ≡ a.turn_number
  pub active_player : b.active_player ≡ a.active_player
  pub pieces : b.pieces ≡ a.pieces
  pub en_passant : b.en_passant ≡ a.en_passant
  pub available_castling_routes : b.available_castling_routes ≡ a.available_castling_routes
  pub clocks : b.clocks ≡ a.clocks
  pub next_piece_id : b.next_piece_id ≡ a.next_piece_id

-- From a state whose draw offer may have lapsed, the steps but the last leave the board and the
-- exploration, and the last updates the exploration.
pub record Settled (scenario : ScenarioDefinition) (a final : MatchState) : Type 0 where
  pub counted : MatchState
  pub untouched : Untouched a counted
  pub updated : update_exploration scenario counted ≡ ok final

abbrev Settles : ScenarioDefinition → MatchState → Result MatchState TransitionError → Type 0
Settles scenario a = Ensures (Settled scenario a)

after-Settles :
    (scenario : ScenarioDefinition) (a b : MatchState) (r : Result MatchState TransitionError)
    → Untouched a b
    → Settles scenario b r
    → Settles scenario a r
after-Settles scenario a b r p = Ensures-map (Settled scenario b) (Settled scenario a) r λ c s.
    record { counted = s.counted; untouched = Untouched-trans p s.untouched; updated = s.updated }

>>=-Settles :
    (scenario : ScenarioDefinition) (a : MatchState) (m : Result MatchState TransitionError)
    (f : MatchState → Result MatchState TransitionError)
    → Keeps a m
    → ((b : MatchState) → Settles scenario b (f b))
    → Settles scenario a (m >>= f)
>>=-Settles scenario a (ok b) f p k = after-Settles scenario a b (f b) p (k b)
>>=-Settles scenario a (err e) f p k = tt

update-Settles :
    (scenario : ScenarioDefinition) (state : MatchState) (r : Result MatchState TransitionError)
    → Untouched state state
    → update_exploration scenario state ≡ r
    → Settles scenario state r
update-Settles scenario state (ok b) same e = record {
  counted = state;
  untouched = same;
  updated = e;
}
update-Settles scenario state (err x) same e = tt

settle-Settles :
    (digest : Digest) (scenario : ScenarioDefinition) (state : MatchState) (action : Action)
    (next : MatchState)
    → Settles scenario
        (lapse_draw_offer state action next)
        (settle digest scenario state action next)
unfolding settle
settle-Settles digest scenario state action next =
    >>=-Settles scenario (lapse_draw_offer state action next) _ _
      (effects-Keeps scenario action (lapse_draw_offer state action next))
      λ landed.
        >>=-Settles scenario landed _ _ (boundary_transfers-Keeps scenario state landed) λ resolved.
          >>=-Settles scenario resolved _ _ (latch-Keeps scenario resolved) λ latched.
            >>=-Settles scenario latched _ _ (boundary-Keeps digest scenario state latched)
              λ counted. update-Settles scenario counted _ (Untouched-refl counted) refl

pub settle-Settled :
    (digest : Digest) (scenario : ScenarioDefinition) (state : MatchState) (action : Action)
    (next : MatchState) {final : MatchState}
    → settle digest scenario state action next ≡ ok final
    → Settled scenario (lapse_draw_offer state action next) final
settle-Settled digest scenario state action next h =
    Ensures-ok (Settled scenario (lapse_draw_offer state action next)) _ h
      (settle-Settles digest scenario state action next)

lapse-SameBoard :
    (state : MatchState) (action : Action) (next : MatchState)
    → SameBoard next (lapse_draw_offer state action next)
unfolding lapse_draw_offer
lapse-SameBoard state action next = ground arith

pub lapse-exploration :
    (state : MatchState) (action : Action) (next : MatchState)
    → (lapse_draw_offer state action next).exploration ≡ next.exploration
unfolding lapse_draw_offer
lapse-exploration state action next = ground arith

update-SameBoard :
    (scenario : ScenarioDefinition) (state : MatchState)
    → Ensures (SameBoard state) (update_exploration scenario state)
unfolding update_exploration update_exploration_unchecked
update-SameBoard scenario state = ground arith

pub update-offer :
    (scenario : ScenarioDefinition) (state : MatchState)
    → Ensures
        (λ next. next.outstanding_draw_offer ≡ state.outstanding_draw_offer)
        (update_exploration scenario state)
unfolding update_exploration update_exploration_unchecked
update-offer scenario state = ground arith

-- Settling an action touches neither the board, nor the turn, nor a counter of the match.
pub settle-SameBoard :
    (digest : Digest) (scenario : ScenarioDefinition) (state : MatchState) (action : Action)
    (next : MatchState) {final : MatchState}
    → settle digest scenario state action next ≡ ok final
    → SameBoard next final
settle-SameBoard digest scenario state action next h =
    let s = settle-Settled digest scenario state action next h in
    let same = Ensures-ok (SameBoard s.counted) _ s.updated (update-SameBoard scenario s.counted) in
    let lapsed = lapse-SameBoard state action next in let before = s.untouched in ground arith
