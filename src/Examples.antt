-- ===== src/Examples.antt =====
-- A small scenario on which the tests run the code, and some states of a match on it.
use crownline.Prelude.{
  ℕ, Bool, true, false, Option, none, some, List, [], ◌∷◌, ℤ, pos, negsuc, Result, ok, err, ◌>>=◌,
  if◌then◌else◌,
}
use crownline.Scenario.Types.{
  Coord, Player, north, south, king, queen, rook, pawn, custom, ScenarioDefinition,
}
use crownline.State.Types.{SettlementState, MatchState, Action, move, hold}
use crownline.State.Errors.{TransitionError}
use crownline.State.Repetition.{Digest}
use crownline.State.Create.{initial_state, from_scenario}
use crownline.Clock.{start_clocks}
use crownline.Rules.Action.{apply_action}

abbrev pub directions : Player → Option ℤ
directions north = some (pos 1)
directions south = some (negsuc 0)

abbrev pub at : ℕ → ℕ → Coord
at x y = record { x = x; y = y }

abbrev pub demo : ScenarioDefinition
demo = record {
  schema_version = 2;
  id = "demo";
  metadata = record {
    name = "Demo";
    description = "";
    expected_minutes = (1, 10);
    is_default = false;
  };
  board = record { width = 8; height = 8 };
  terrain = [];
  edges = [];
  deployments =
      record { player = north; kind = king; at = at 4 0 }
      ∷ record { player = north; kind = queen; at = at 7 0 }
      ∷ record { player = north; kind = pawn; at = at 2 2 }
      ∷ record { player = south; kind = king; at = at 4 7 }
      ∷ record { player = south; kind = rook; at = at 3 7 }
      ∷ record { player = south; kind = pawn; at = at 3 4 }
      ∷ [];
  settlements = record { id = "holding"; at = at 3 3 } ∷ [];
  promotion_sites = record { id = "temple"; at = at 2 3 } ∷ [];
  keeps = [];
  fortifications = [];
  castling_routes = [];
  rules = record {
    pawn_forward_y = directions;
    army_setup = custom;
    allow_pawn_double_step = true;
    allow_en_passant = true;
    establishment_cycles = 1;
    production_cycles = 1;
    promotion_cycles = 1;
    promotion_unlocks = record { bishop = 2; rook = 4; queen = 8 };
    fog = none;
    development_resets_when_interrupted = false;
  };
}

abbrev is_established : List SettlementState → Bool
is_established [] = false
is_established (s ∷ rest) = s.established

-- A digest that tells the two players' turns apart, and for South the settlement's growth.
abbrev pub demo_digest : Digest
demo_digest view = elim view.active_player [
  | north ↦ some "north"
  | south ↦ if is_established view.settlements then some "south, established" else some "south"
]

-- A state that stands for a failure; no test reaches it.
abbrev pub fallback : MatchState
fallback = initial_state demo [] []

abbrev pub state_of : Result MatchState TransitionError → MatchState
state_of (ok state) = state
state_of (err e) = fallback

abbrev pub start : MatchState
start = state_of (from_scenario demo_digest demo)

-- The state after an action.
abbrev pub act : Action → MatchState → MatchState
act action state = state_of (apply_action demo_digest demo state action >>= λ t. ok t.state)

-- South has moved onto the settlement.
abbrev pub claimed : MatchState
claimed = act (move south 3 (at 3 3)) start

-- North's pawn has come to the temple and waited: it is North's turn to promote it.
abbrev pub promoting : MatchState
promoting = act (hold south) (act (move north 0 (at 2 3)) claimed)

-- South's settlement has grown and is ready to produce a pawn.
abbrev pub producing : MatchState
producing = act (hold north) (act (hold south) (act (hold north) claimed))

-- The same game on clocks.
abbrev pub clocked_start : MatchState
clocked_start = state_of (start_clocks start (record { base_minutes = 3; increment_seconds = 2 }))

abbrev pub foggy : ScenarioDefinition
foggy = record demo {
  rules = record demo.rules { fog = some (record { schema_version = 1; vision_radius = 2 }) };
}
