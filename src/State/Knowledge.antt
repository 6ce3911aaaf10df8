-- ===== src/State/Knowledge.antt =====
-- Durable exploration between `update_exploration` and `validate_exploration` of
-- crates/crownline_core/src/state.rs.
use crownline.Prelude.{
  ◌≡◌, ◌∙◌, ◌||◌, inl, inr, refl, ap, Bool, true, false, not, Option, none, some, List, [], ◌∷◌,
  arith, Option-cases, find, contains, ok, Ensures, string_eq,
}
use crownline.Scenario.Types.{
  Coord, is_within, coord_eq, coord_beq_iff, Player, north, south, FogRules, ScenarioDefinition,
}
use crownline.State.Types.{ExplorationState, explored, MatchState}
use crownline.State.Invariants.{validate_invariants}
use crownline.State.Steps.{from_step}
use crownline.State.Vision.{
  friendly, visible_coordinates_unchecked, check_context, learn, update_exploration_unchecked,
  update_exploration, check_knowledge, check_exploration_mode, validate_exploration_unchecked,
  validate_exploration,
}
use crownline.State.Sight.{
  visible_coordinates_unchecked-contains, explored_in, known_before, explored-learn, both_players,
}

find-none :
    (p : Coord → Bool) (cs : List Coord)
    → ((at : Coord) → contains cs at ≡ true → p at ≡ false)
    → find p cs ≡ none
find-none p [] h = refl
find-none p (c ∷ cs) h =
    let rest : find p cs ≡ none = find-none p cs (λ at m. h at (ground (arith, m))) in
    let here : p c ≡ false = h c (ground (arith, (coord_beq_iff c c).1 refl)) in rw here rest

-- Every square that a player has explored is on the board.
abbrev pub ExploredOnBoard : ScenarioDefinition → MatchState → Type 0
ExploredOnBoard scenario state =
    (player : Player) (at : Coord)
    → contains (explored_in state player) at ≡ true
    → is_within at scenario.board ≡ true

check_knowledge-ok :
    (scenario : ScenarioDefinition) (state : MatchState) (knowledge : ExplorationState)
    (player : Player)
    → ((at : Coord)
        → contains (explored knowledge player) at ≡ true
        → is_within at scenario.board ≡ true)
    → ((at : Coord)
        → contains (visible_coordinates_unchecked scenario state player) at ≡ true
        → contains (explored knowledge player) at ≡ true)
    → check_knowledge scenario state knowledge player ≡ ok tt
unfolding check_knowledge
check_knowledge-ok scenario state knowledge player bounded seen =
    let inside =
      find-none (λ at. not (is_within at scenario.board)) (explored knowledge player)
        λ at h. ground (arith, bounded at h) in
    let all =
      find-none (λ at. not (contains (explored knowledge player) at))
        (visible_coordinates_unchecked scenario state player) λ at h. ground (arith, seen at h) in
    rw (check_knowledge, inside, all) refl

-- With another exploration the state is checked as before, but for the exploration itself.
validate_exploration-ok :
    (scenario : ScenarioDefinition) (state : MatchState) (e : Option ExplorationState)
    → check_context scenario state ≡ ok tt
    → check_exploration_mode scenario (record state { exploration = e }) scenario.rules.fog e
      ≡ ok tt
    → validate_exploration scenario (record state { exploration = e }) ≡ ok tt
unfolding check_context validate_exploration validate_exploration_unchecked validate_invariants
validate_exploration-ok scenario state e context mode = ground arith

pub visible-exploration :
    (scenario : ScenarioDefinition) (state : MatchState) (e : Option ExplorationState)
    (player : Player)
    → visible_coordinates_unchecked scenario (record state { exploration = e }) player
      ≡ visible_coordinates_unchecked scenario state player
unfolding visible_coordinates_unchecked friendly
visible-exploration scenario state e player = refl

abbrev pub learned : ScenarioDefinition → MatchState → ExplorationState
learned scenario state =
    learn scenario state south (learn scenario state north (known_before state))

explored-learned :
    (scenario : ScenarioDefinition) (state : MatchState) (player : Player) (at : Coord)
    → contains (explored (learned scenario state) player) at ≡ (
        contains (explored_in state player) at
        || contains (visible_coordinates_unchecked scenario state player) at)
explored-learned scenario state player at =
    let first = explored-learn scenario state north player (known_before state) at in
    explored-learn scenario state south player (learn scenario state north (known_before state)) at
    ∙ rw first (
        both_players player (contains (explored_in state player) at)
          (λ p. contains (visible_coordinates_unchecked scenario state p) at))

-- What the players have learned passes the check of each player's knowledge.
learned-checked :
    (scenario : ScenarioDefinition) (state : MatchState) (player : Player)
    → ExploredOnBoard scenario state
    → check_knowledge scenario
        (record state { exploration = some (learned scenario state) })
        (learned scenario state)
        player
      ≡ ok tt
learned-checked scenario state player bounded =
    let next : MatchState = record state { exploration = some (learned scenario state) } in
    let same = visible-exploration scenario state (some (learned scenario state)) player in
    check_knowledge-ok scenario next (learned scenario state) player
      (λ at h. ground (
        arith,
        explored-learned scenario state player at,
        bounded player at,
        visible_coordinates_unchecked-contains scenario state player at,
        h,
      ))
      (λ at h. ground (arith, explored-learned scenario state player at, same, h))

update-clear :
    (scenario : ScenarioDefinition) (state : MatchState)
    → scenario.rules.fog ≡ none
    → update_exploration_unchecked scenario state ≡ record state { exploration = none }
unfolding update_exploration_unchecked
update-clear scenario state e = ground (arith, e)

pub update-foggy :
    (scenario : ScenarioDefinition) (state : MatchState) (fog : FogRules)
    → scenario.rules.fog ≡ some fog
    → update_exploration_unchecked scenario state
      ≡ record state { exploration = some (learned scenario state) }
unfolding update_exploration_unchecked
update-foggy scenario state fog e = ground (arith, e)

pub update_exploration_unchecked-checked :
    (scenario : ScenarioDefinition) (state : MatchState)
    → ExploredOnBoard scenario state
    → check_context scenario state ≡ ok tt
    → validate_exploration scenario (update_exploration_unchecked scenario state) ≡ ok tt
update_exploration_unchecked-checked scenario state bounded context =
    elim (Option-cases scenario.rules.fog) [
      | inl clear ↦
          ap (validate_exploration scenario) (update-clear scenario state clear)
          ∙ validate_exploration-ok scenario state none context (ground (arith, clear))
      | inr (fog, foggy) ↦
          ap (validate_exploration scenario) (update-foggy scenario state fog foggy)
          ∙ validate_exploration-ok scenario state (some (learned scenario state)) context (
              ground (
                arith,
                foggy,
                learned-checked scenario state north bounded,
                learned-checked scenario state south bounded,
              ))
    ]

-- If no player has explored a square off the board, the state that an update of the exploration
-- returns passes the check of the exploration, in every scenario and with or without fog.
pub update_exploration-validate_exploration :
    (scenario : ScenarioDefinition) (state : MatchState)
    → ExploredOnBoard scenario state
    → Ensures
        (λ next. validate_exploration scenario next ≡ ok tt)
        (update_exploration scenario state)
unfolding update_exploration
update_exploration-validate_exploration scenario state bounded =
    from_step (λ next. validate_exploration scenario next ≡ ok tt) (check_context scenario state) _
      λ _ context. update_exploration_unchecked-checked scenario state bounded context
