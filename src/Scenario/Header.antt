-- ===== src/Scenario/Header.antt =====
-- The checks of crates/crownline_core/src/scenario.rs on the header and on the rules. A check
-- returns the errors that it pushes, in their order.
use Prim.Native.Char.{code}
use crownline.Prelude.{
  ℕ, ◌-◌, max, Bool, true, false, not, ◌&&◌, ◌||◌, Option, none, some, List, [], ◌∷◌, ◌++◌, ltb,
  nat_beq, between, if◌then◌else◌, ℤ, int_beq, String,
}
use crownline.Scenario.Types.{north, south, BoardSize, FogRules, ScenarioDefinition}
use crownline.Scenario.Errors.{
  ScenarioError, unsupported_schema, empty_id, empty_field, board_size_out_of_range,
  invalid_expected_duration, cycle_threshold_out_of_range, invalid_promotion_unlocks,
  unsupported_fog_rules_schema, fog_vision_radius_out_of_range, pawn_directions_not_opposed,
}

abbrev pub scenario_schema_version : ℕ
scenario_schema_version = 2

abbrev pub min_supported_scenario_schema_version : ℕ
min_supported_scenario_schema_version = 1

abbrev pub fog_rules_schema_version : ℕ
fog_rules_schema_version = 1

abbrev pub min_supported_fog_rules_schema_version : ℕ
min_supported_fog_rules_schema_version = 1

abbrev pub min_board_dimension : ℕ
min_board_dimension = 8

abbrev pub max_board_dimension : ℕ
max_board_dimension = 64

abbrev pub max_expected_match_minutes : ℕ
max_expected_match_minutes = 1440

abbrev pub max_realm_cycles : ℕ
max_realm_cycles = 20

-- Unicode's White_Space, which `str::trim` strips.
unfoldable pub is_whitespace : ℕ → Bool
is_whitespace c =
    between 0x9 0xd c
    || nat_beq c 0x20
    || nat_beq c 0x85
    || nat_beq c 0xa0
    || nat_beq c 0x1680
    || between 0x2000 0x200a c
    || nat_beq c 0x2028
    || nat_beq c 0x2029
    || nat_beq c 0x202f
    || nat_beq c 0x205f
    || nat_beq c 0x3000

-- `trim().is_empty()`.
unfoldable pub is_blank : String → Bool
unfolding is_whitespace
is_blank String.[] = true
is_blank (String.◌∷◌ c s) = is_whitespace (code c) && is_blank s

-- `if test { errors.push(error) }`.
abbrev pub push_if : Bool → ScenarioError → List ScenarioError
push_if test error = if test then error ∷ [] else []

unfoldable pub validate_header : ScenarioDefinition → List ScenarioError
unfolding is_blank
validate_header scenario =
    let v = scenario.schema_version in
    let board = scenario.board in
    let minutes = scenario.metadata.expected_minutes in
    push_if (not (between min_supported_scenario_schema_version scenario_schema_version v))
      (unsupported_schema v min_supported_scenario_schema_version scenario_schema_version)
    ++ (push_if (is_blank scenario.id) (empty_id "scenario")
        ++ (push_if (is_blank scenario.metadata.name) (empty_field "metadata.name")
            ++ (push_if
                  (not (between min_board_dimension max_board_dimension board.width)
                    || not (between min_board_dimension max_board_dimension board.height))
                  (board_size_out_of_range board)
                ++ push_if
                    (nat_beq minutes.0 0
                      || ltb minutes.1 minutes.0
                      || ltb max_expected_match_minutes minutes.1)
                    invalid_expected_duration)))

-- Equality of two looked-up directions.
abbrev pub direction_beq : Option ℤ → Option ℤ → Bool
direction_beq none none = true
direction_beq none (some b) = false
direction_beq (some a) none = false
direction_beq (some a) (some b) = int_beq a b

-- The checks of a fog configuration against the board.
unfoldable pub validate_fog : BoardSize → Option FogRules → List ScenarioError
validate_fog board none = []
validate_fog board (some fog) =
    let maximum = max board.width board.height - 1 in
    push_if
      (not (
        between min_supported_fog_rules_schema_version fog_rules_schema_version fog.schema_version))
      (unsupported_fog_rules_schema fog.schema_version min_supported_fog_rules_schema_version
        fog_rules_schema_version)
    ++ push_if (nat_beq fog.vision_radius 0 || ltb maximum fog.vision_radius)
        (fog_vision_radius_out_of_range fog.vision_radius maximum)

unfoldable pub validate_rule_configuration : ScenarioDefinition → List ScenarioError
unfolding validate_fog
validate_rule_configuration scenario =
    let rules = scenario.rules in
    let unlocks = rules.promotion_unlocks in
    push_if
      (not (between 1 max_realm_cycles rules.establishment_cycles)
        || not (between 1 max_realm_cycles rules.production_cycles)
        || not (between 1 max_realm_cycles rules.promotion_cycles))
      (cycle_threshold_out_of_range 1 max_realm_cycles)
    ++ (push_if (direction_beq (rules.pawn_forward_y north) (rules.pawn_forward_y south))
          pawn_directions_not_opposed
        ++ (push_if
              (nat_beq unlocks.bishop 0
                || ltb unlocks.rook unlocks.bishop
                || ltb unlocks.queen unlocks.rook)
              (invalid_promotion_unlocks unlocks.bishop unlocks.rook unlocks.queen)
            ++ validate_fog scenario.board rules.fog))
