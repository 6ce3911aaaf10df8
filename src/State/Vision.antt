-- ===== src/State/Vision.antt =====
-- Current vision and durable exploration in crates/crownline_core/src/state.rs.
use crownline.Prelude.{
  ℕ, Bool, true, false, not, ◌&&◌, Option, none, some, List, [], map, leb, if◌then◌else◌, keep, any,
  find, flat_map, range_from, abs_diff, max, contains, ok, err, Result, ◌>>◌, ensure, map_err,
  is_some_and, is_none, String, ◌==◌, string_eq, nat_beq, nat_eq, option_eq,
}
use crownline.Prelude.Map
use crownline.Scenario.CoordSet
use crownline.Scenario.Types.{
  Coord, coord_eq, is_within, BoardSize, FogRules, Player, north, south, player_beq,
  ScenarioDefinition,
}
use crownline.Scenario.Validate.{validate}
use crownline.State.Types.{
  ExplorationState, explored, set_explored, VisibilityState, undiscovered, known, visible,
  MatchState,
}
use crownline.State.Errors.{
  TransitionError, invalid_scenario, scenario_mismatch, coordinate_out_of_bounds,
  exploration_mode_mismatch, explored_coordinate_out_of_bounds, visible_coordinate_not_explored,
}
use crownline.State.Invariants.{validate_invariants}

-- Every square, in the order of the set.
unfoldable pub all_coordinates : BoardSize → List Coord
all_coordinates board =
    flat_map (λ x. map (λ y. record { x = x; y = y }) (range_from 0 board.height))
      (range_from 0 board.width)

-- The squares of the living pieces of a player.
unfoldable pub friendly : MatchState → Player → List Coord
friendly state player =
    map (λ piece. piece.at)
      (keep (λ piece. player_beq piece.owner player) (Map.values state.pieces))

-- The square lies within the vision radius of a piece: Chebyshev distance, and no blockers.
abbrev pub sees : ℕ → Coord → Coord → Bool
sees radius piece at = leb (max (abs_diff piece.x at.x) (abs_diff piece.y at.y)) radius

unfoldable pub visible_coordinates_unchecked : ScenarioDefinition → MatchState → Player → List Coord
visible_coordinates_unchecked scenario state player = elim scenario.rules.fog [
  | none ↦ all_coordinates scenario.board
  | some fog ↦
      keep (λ at. any (λ piece. sees fog.vision_radius piece at) (friendly state player))
        (all_coordinates scenario.board)
]

-- The three checks that open most public functions.
unfoldable pub check_context : ScenarioDefinition → MatchState → Result (Unit {0}) TransitionError
check_context scenario state = do
  map_err (validate scenario) invalid_scenario
  ensure (state.scenario_id == scenario.id) (scenario_mismatch state.scenario_id scenario.id)
  validate_invariants state

unfoldable pub visible_coordinates :
    ScenarioDefinition → MatchState → Player → Result (List Coord) TransitionError
unfolding check_context
visible_coordinates scenario state player = do
  check_context scenario state
  ok (visible_coordinates_unchecked scenario state player)

-- `get_or_insert_with(ExplorationState::default)`.
abbrev pub exploration_or_default : Option ExplorationState → ExplorationState
exploration_or_default none = record { north = []; south = [] }
exploration_or_default (some e) = e

unfoldable pub learn :
    ScenarioDefinition → MatchState → Player → ExplorationState → ExplorationState
learn scenario state player knowledge = set_explored knowledge player (
    CoordSet.extend (explored knowledge player)
      (visible_coordinates_unchecked scenario state player))

unfoldable pub update_exploration_unchecked : ScenarioDefinition → MatchState → MatchState
unfolding learn
update_exploration_unchecked scenario state = elim scenario.rules.fog [
  | none ↦ record state { exploration = none }
  | some fog ↦ record state {
    exploration = some (
        learn scenario state south
          (learn scenario state north (exploration_or_default state.exploration)));
  }
]

unfoldable pub update_exploration :
    ScenarioDefinition → MatchState → Result MatchState TransitionError
unfolding check_context
update_exploration scenario state = do
  check_context scenario state
  ok (update_exploration_unchecked scenario state)

-- One seat's knowledge: on the board, and at least what the seat sees now.
unfoldable pub check_knowledge :
    ScenarioDefinition → MatchState → ExplorationState → Player → Result (Unit {0}) TransitionError
check_knowledge scenario state knowledge player =
    elim (find (λ at. not (is_within at scenario.board)) (explored knowledge player)) [
      | some at ↦ err (explored_coordinate_out_of_bounds player at)
      | none ↦
          elim (find (λ at. not (contains (explored knowledge player) at))
            (visible_coordinates_unchecked scenario state player)) [
              | some at ↦ err (visible_coordinate_not_explored player at)
              | none ↦ ok tt
            ]
    ]

abbrev pub check_exploration_mode :
    ScenarioDefinition
    → MatchState
    → Option FogRules
    → Option ExplorationState
    → Result (Unit {0}) TransitionError
check_exploration_mode scenario state none none = ok tt
check_exploration_mode scenario state none (some e) = err exploration_mode_mismatch
check_exploration_mode scenario state (some fog) none = err exploration_mode_mismatch
check_exploration_mode scenario state (some fog) (some e) = do
  check_knowledge scenario state e north
  check_knowledge scenario state e south

unfoldable pub validate_exploration_unchecked :
    ScenarioDefinition → MatchState → Result (Unit {0}) TransitionError
unfolding check_knowledge
validate_exploration_unchecked scenario state = do
  ensure (state.scenario_id == scenario.id) (scenario_mismatch state.scenario_id scenario.id)
  validate_invariants state
  check_exploration_mode scenario state scenario.rules.fog state.exploration

unfoldable pub validate_exploration :
    ScenarioDefinition → MatchState → Result (Unit {0}) TransitionError
validate_exploration scenario state = do
  map_err (validate scenario) invalid_scenario
  validate_exploration_unchecked scenario state

unfoldable pub visibility_at :
    ScenarioDefinition → MatchState → Player → Coord → Result VisibilityState TransitionError
visibility_at scenario state player at = do
  ensure (is_within at scenario.board) (coordinate_out_of_bounds at)
  validate_exploration scenario state
  ok (
      if is_none scenario.rules.fog
      then visible
      else if contains (visible_coordinates_unchecked scenario state player) at
      then visible
      else if is_some_and state.exploration (λ e. contains (explored e player) at)
      then known
      else undiscovered)

-- The cache of derived vision, and what it is keyed by.
pub record VisibilityCacheKey : Type 0 where
  pub scenario_id : String
  pub board : BoardSize
  pub fog : Option FogRules
  pub revision : ℕ

abbrev pub fog_beq : Option FogRules → Option FogRules → Bool
fog_beq none none = true
fog_beq none (some b) = false
fog_beq (some a) none = false
fog_beq (some a) (some b) =
    nat_beq a.schema_version b.schema_version && nat_beq a.vision_radius b.vision_radius

abbrev pub key_beq : VisibilityCacheKey → VisibilityCacheKey → Bool
key_beq a b =
    a.scenario_id == b.scenario_id
    && (nat_beq a.board.width b.board.width && nat_beq a.board.height b.board.height)
    && fog_beq a.fog b.fog
    && nat_beq a.revision b.revision

pub record VisibilityCache : Type 0 where
  pub key : Option VisibilityCacheKey
  pub north : List Coord
  pub south : List Coord

abbrev pub cache_key : ScenarioDefinition → MatchState → VisibilityCacheKey
cache_key scenario state = record {
  scenario_id = scenario.id;
  board = scenario.board;
  fog = scenario.rules.fog;
  revision = state.revision;
}

abbrev pub cached : VisibilityCache → Player → List Coord
cached cache north = cache.north
cached cache south = cache.south

-- The default cache, which `VisibilityCache::clear` sets.
unfoldable pub cleared : VisibilityCache
cleared = record { key = none; north = []; south = [] }

-- `VisibilityCache::visible` returns the cache that it leaves behind, and the answer.
unfoldable pub cache_visible :
    VisibilityCache
    → ScenarioDefinition
    → MatchState
    → Player
    → Result (VisibilityCache × List Coord) TransitionError
unfolding check_context
cache_visible cache scenario state player =
    if is_some_and cache.key (λ key. key_beq key (cache_key scenario state))
    then ok (cache, cached cache player)
    else do
      check_context scenario state
      let fresh : VisibilityCache = record {
        key = some (cache_key scenario state);
        north = visible_coordinates_unchecked scenario state north;
        south = visible_coordinates_unchecked scenario state south;
      }
      ok (fresh, cached fresh player)
