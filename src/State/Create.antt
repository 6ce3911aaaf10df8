-- ===== src/State/Create.antt =====
-- `MatchState::from_scenario` of crates/crownline_core/src/state.rs, for scenarios with no guided
-- content.
use crownline.Prelude.{
  ℕ, suc, Bool, false, ◌&&◌, ◌||◌, Option, none, some, List, [], ◌∷◌, ltb, leb, if◌then◌else◌,
  length, sort_by, contains, String, string_eq, Result, ok, ◌>>=◌, ◌>>◌, ensure, map_err, u16_max,
  u32_max,
}
use crownline.Prelude.Map.{Map}
use crownline.Scenario.Types.{
  coord_beq, coord_le, Player, north, south, player_beq, kind_index, Deployment, Site,
  CastlingRoute, FogRules, ScenarioDefinition,
}
use crownline.Scenario.Validate.{validate}
use crownline.State.Types.{Piece, deployed, ExplorationState, SettlementState, MatchState, command}
use crownline.State.Errors.{TransitionError, invalid_scenario, too_many_pieces, too_many_sites}
use crownline.State.Invariants.{validate_invariants}
use crownline.State.Vision.{update_exploration_unchecked}
use crownline.State.Repetition.{Digest, repetition_key}

-- The key `(player, at, kind)` of the sort.
abbrev player_index : Player → ℕ
player_index north = 0
player_index south = 1

unfoldable pub deployment_le : Deployment → Deployment → Bool
deployment_le a b =
    ltb (player_index a.player) (player_index b.player)
    || player_beq a.player b.player
      && (if coord_beq a.at b.at
          then leb (kind_index a.kind) (kind_index b.kind)
          else coord_le a.at b.at)

-- Pieces take their places in the sorted deployments for identifiers.
unfoldable pub deploy : ℕ → List Deployment → Result (Map Piece) TransitionError
deploy index [] = ok []
deploy index (d ∷ rest) = do
  ensure (leb index u32_max) too_many_pieces
  pieces ← deploy (suc index) rest
  ok (
      (
        index,
        record {
          id = index;
          owner = d.player;
          kind = d.kind;
          at = d.at;
          origin = deployed;
          has_moved = false;
        },
      )
      ∷ pieces)

unfoldable pub unclaimed : ℕ → SettlementState
unclaimed index = record {
  site_index = index;
  owner = none;
  founder = none;
  establishment_progress = 0;
  established = false;
  production_progress = 0;
  produced_pawn = none;
  cycle_interrupted = false;
  completed_cycle_continuous = false;
  transfer_candidate = none;
}

unfoldable pub found_settlements : ℕ → List Site → Result (List SettlementState) TransitionError
unfolding unclaimed
found_settlements index [] = ok []
found_settlements index (site ∷ rest) = do
  ensure (leb index u16_max) too_many_sites
  settlements ← found_settlements (suc index) rest
  ok (unclaimed index ∷ settlements)

-- The set of the routes' identifiers.
unfoldable pub route_ids : List CastlingRoute → List String
route_ids [] = []
route_ids (route ∷ rest) =
    let ids = route_ids rest in if contains ids route.id then ids else route.id ∷ ids

-- `fog.map(|_| ExplorationState::default())`.
abbrev pub initial_exploration : Option FogRules → Option ExplorationState
initial_exploration none = none
initial_exploration (some fog) = some (record { north = []; south = [] })

unfoldable pub initial_state : ScenarioDefinition → Map Piece → List SettlementState → MatchState
unfolding route_ids
initial_state scenario pieces settlements = record {
  scenario_id = scenario.id;
  revision = 0;
  turn_number = 1;
  active_player = south;
  phase = command;
  pieces = pieces;
  exploration = initial_exploration scenario.rules.fog;
  settlements = settlements;
  en_passant = none;
  available_castling_routes = route_ids scenario.castling_routes;
  promotion_candidates = [];
  outstanding_draw_offer = none;
  clocks = none;
  repetition_counts = [];
  outcome = none;
  next_piece_id = length scenario.deployments;
}

unfoldable pub from_scenario : Digest → ScenarioDefinition → Result MatchState TransitionError
unfolding deploy found_settlements initial_state deployment_le
from_scenario digest scenario = do
  map_err (validate scenario) invalid_scenario
  pieces ← deploy 0 (sort_by deployment_le scenario.deployments)
  ensure (leb (length scenario.deployments) u32_max) too_many_pieces
  settlements ← found_settlements 0 scenario.settlements
  let state = update_exploration_unchecked scenario (initial_state scenario pieces settlements)
  validate_invariants state
  key ← repetition_key digest state
  ok (record state { repetition_counts = (key, 1) ∷ [] })
