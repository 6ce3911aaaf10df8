-- ===== src/Rules/Discovery.antt =====
-- Durable exploration across `apply_action` of crates/crownline_core/src/rules.rs.
use crownline.Prelude.{
  ◌≡◌, ◌∙◌, ◌||◌, ap, inl, inr, Bool, true, false, not, Option, none, some, List, [], ◌∷◌, arith,
  Option-cases, Bool-cases, find, contains, ok, ◌==◌, string_eq, map_err, ensure, >>=-eq-ok,
  Ensures-ok,
}
use crownline.Scenario.Types.{
  Coord, is_within, coord_eq, coord_beq, coord_beq_iff, Player, north, south, FogRules,
  ScenarioDefinition,
}
use crownline.State.Types.{ExplorationState, explored, MatchState, Action}
use crownline.State.Errors.{invalid_scenario}
use crownline.State.Invariants.{validate_invariants}
use crownline.Scenario.Validate.{validate}
use crownline.State.Repetition.{Digest}
use crownline.State.Vision.{
  visible_coordinates_unchecked, check_context, check_knowledge, check_exploration_mode,
  exploration_or_default, update_exploration_unchecked, update_exploration,
  validate_exploration_unchecked, validate_exploration,
}
use crownline.State.Sight.{explored_in, Explores, update_exploration-explored}
use crownline.State.Knowledge.{
  ExploredOnBoard, learned, update-foggy, visible-exploration,
  update_exploration-validate_exploration,
}
use crownline.Rules.Events.{Transition}
use crownline.Rules.Action.{check_action, apply_action}
use crownline.Rules.Conduct.{ends_turn, Dispatches, dispatch-Dispatches, apply_action-Accepted}
use crownline.Rules.Settled.{settle-Settled, lapse-exploration}

nothing_found :
    (p : Coord → Bool) (cs : List Coord)
    → find p cs ≡ none
    → (at : Coord) → contains cs at ≡ true
    → p at ≡ false
nothing_found p [] h at m = ground (arith, m)
nothing_found p (c ∷ cs) h at m = elim (Bool-cases (coord_beq c at)) [
  | inl same ↦ ground (arith, ap p ((coord_beq_iff c at).0 same), h)
  | inr other ↦ nothing_found p cs (ground (arith, h)) at (ground (arith, m, other))
]

known-on_board :
    (scenario : ScenarioDefinition) (state : MatchState) (knowledge : ExplorationState)
    (player : Player)
    → check_knowledge scenario state knowledge player ≡ ok tt
    → (at : Coord) → contains (explored knowledge player) at ≡ true
    → is_within at scenario.board ≡ true
unfolding check_knowledge
known-on_board scenario state knowledge player h at m =
    elim (Option-cases
      (find (λ at. not (is_within at scenario.board)) (explored knowledge player))) [
        | inl clear ↦ ground (
          arith,
          nothing_found (λ at. not (is_within at scenario.board)) (explored knowledge player) clear
              at m,
        )
        | inr (off, found) ↦ ground (arith, h, found)
      ]

mode-on_board :
    (scenario : ScenarioDefinition) (state : MatchState) (fog : Option FogRules)
    (exploration : Option ExplorationState)
    → check_exploration_mode scenario state fog exploration ≡ ok tt
    → (player : Player) (at : Coord)
    → contains (explored (exploration_or_default exploration) player) at ≡ true
    → is_within at scenario.board ≡ true
mode-on_board scenario state fog none h north at m = ground (arith, m)
mode-on_board scenario state fog none h south at m = ground (arith, m)
mode-on_board scenario state none (some e) h player at m = ground (arith, h)
mode-on_board scenario state (some fog) (some e) h player at m =
    let (u, first, second) = >>=-eq-ok (check_knowledge scenario state e north) _ h in
    by_player player first second at m
  where
    by_player :
        (player : Player)
        → check_knowledge scenario state e north ≡ ok tt
        → check_knowledge scenario state e south ≡ ok tt
        → (at : Coord) → contains (explored e player) at ≡ true
        → is_within at scenario.board ≡ true
    by_player north first second = known-on_board scenario state e north first
    by_player south first second = known-on_board scenario state e south second

-- A state that passes the check of its exploration has explored squares of the board only.
validate_exploration-ExploredOnBoard :
    (scenario : ScenarioDefinition) (state : MatchState)
    → validate_exploration scenario state ≡ ok tt
    → ExploredOnBoard scenario state
unfolding validate_exploration validate_exploration_unchecked
validate_exploration-ExploredOnBoard scenario state h =
    let (a, _, h1) = >>=-eq-ok (map_err (validate scenario) invalid_scenario) _ h in
    let (b, _, h2) = >>=-eq-ok (ensure (state.scenario_id == scenario.id) _) _ h1 in
    let (c, _, mode) = >>=-eq-ok (validate_invariants state) _ h2 in
    mode-on_board scenario state scenario.rules.fog state.exploration mode

-- What the state before the last step of an action had explored.
record Explored (scenario : ScenarioDefinition) (state final : MatchState) : Type 0 where
  before : MatchState
  same : before.exploration ≡ state.exploration
  updated : update_exploration scenario before ≡ ok final
  bounded : ExploredOnBoard scenario state

apply_action-Explored :
    (digest : Digest) (scenario : ScenarioDefinition) (state : MatchState) (action : Action)
    {t : Transition}
    → apply_action digest scenario state action ≡ ok t
    → Explored scenario state t.state
unfolding check_action
apply_action-Explored digest scenario state action h =
    let a = apply_action-Accepted digest scenario state action h in
    let d =
      Ensures-ok (Dispatches (ends_turn action) state) _ a.dispatched
        (dispatch-Dispatches scenario state action) in
    let s = settle-Settled digest scenario state action a.next a.settled in
    record {
      before = s.counted;
      same = s.untouched.exploration ∙ lapse-exploration state action a.next ∙ d.exploration;
      updated = s.updated;
      bounded = validate_exploration-ExploredOnBoard scenario state (ground (arith, a.checked));
    }

-- The state that an accepted action leads to passes the check of its exploration, which is among
-- those that the next action must pass.
pub apply_action-validate_exploration :
    (digest : Digest) (scenario : ScenarioDefinition) (state : MatchState) (action : Action)
    {t : Transition}
    → apply_action digest scenario state action ≡ ok t
    → validate_exploration scenario t.state ≡ ok tt
apply_action-validate_exploration digest scenario state action {t} h =
    let x = apply_action-Explored digest scenario state action h in
    Ensures-ok (λ next. validate_exploration scenario next ≡ ok tt) _ x.updated
      (update_exploration-validate_exploration scenario x.before (rw x.same x.bounded))

visible-updated :
    (scenario : ScenarioDefinition) (state : MatchState) (fog : FogRules) (player : Player)
    {final : MatchState}
    → scenario.rules.fog ≡ some fog
    → update_exploration scenario state ≡ ok final
    → visible_coordinates_unchecked scenario final player
      ≡ visible_coordinates_unchecked scenario state player
unfolding update_exploration
visible-updated scenario state fog player {final} e h =
    let (u, _, done) = >>=-eq-ok (check_context scenario state) _ h in
    let same : final ≡ update_exploration_unchecked scenario state = ground (arith, done) in
    ap (λ s. visible_coordinates_unchecked scenario s player)
      (same ∙ update-foggy scenario state fog e)
    ∙ visible-exploration scenario state (some (learned scenario state)) player

-- Under fog, after an accepted action each player has explored exactly what the player had explored
-- before the action and what the player sees after it.
pub apply_action-explored_in :
    (digest : Digest) (scenario : ScenarioDefinition) (state : MatchState) (action : Action)
    (fog : FogRules) {t : Transition}
    → scenario.rules.fog ≡ some fog
    → apply_action digest scenario state action ≡ ok t
    → (player : Player) (at : Coord)
    → contains (explored_in t.state player) at ≡ (
        contains (explored_in state player) at
        || contains (visible_coordinates_unchecked scenario t.state player) at)
apply_action-explored_in digest scenario state action fog {t} e h player at =
    let x = apply_action-Explored digest scenario state action h in
    let seen =
      Ensures-ok (Explores scenario x.before) _ x.updated
        (update_exploration-explored scenario x.before fog e) player at in
    let known = ap (λ k. contains (explored (exploration_or_default k) player) at) x.same in
    let visible =
      ap (λ cs. contains cs at) (visible-updated scenario x.before fog player e x.updated) in
    ground (arith, seen, known, visible)
