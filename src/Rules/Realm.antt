-- ===== src/Rules/Realm.antt =====
-- Governance, the realm control score and pawn placement in crates/crownline_core/src/rules.rs.
use crownline.Prelude.{
  ℕ, Bool, true, false, not, ◌&&◌, ◌||◌, Option, none, some, List, [], ◌∷◌, ltb, nat_beq,
  if◌then◌else◌, find, keep, filter_map, get_elem?, is_empty, is_some, is_none, option_beq, ◌==◌,
  string_eq, Result, ok, ◌>>=◌, ◌>>◌, ensure, ok_or, map_err, checked_inc, u32_max,
}
use crownline.Prelude.Map
use crownline.Scenario.CoordSet
use crownline.Scenario.Types.{
  Coord, Player, player_beq, player_eq, PieceKind, king, queen, rook, bishop, knight, pawn,
  ScenarioDefinition,
}
use crownline.Scenario.Validate.{validate}
use crownline.State.Types.{Piece, deployed, SettlementState, RealmControlScore, MatchState}
use crownline.State.Errors.{
  TransitionError, invalid_scenario, scenario_mismatch, missing_settlement,
  settlement_cannot_produce, too_many_sites,
}
use crownline.State.Invariants.{validate_invariants}
use crownline.Board.Geometry.{Board, new, step, king_offsets}
use crownline.Board.Governance.{GovernanceReport, GovernanceTrace, clear, blocked, governance_trace}

-- The checks that open the functions of this file, in their order.
unfoldable pub check_realm : ScenarioDefinition → MatchState → Result (Unit {0}) TransitionError
check_realm scenario state = do
  map_err (validate scenario) invalid_scenario
  validate_invariants state
  ensure (state.scenario_id == scenario.id) (scenario_mismatch state.scenario_id scenario.id)

unfoldable pub settlement_at : MatchState → ℕ → Option SettlementState
settlement_at state index = find (λ s. nat_beq s.site_index index) state.settlements

abbrev pub is_major : PieceKind → Bool
is_major king = true
is_major queen = true
is_major rook = true
is_major bishop = true
is_major knight = false
is_major pawn = false

-- What one piece adds to a report.
unfoldable pub add_trace : Piece → Option GovernanceTrace → GovernanceReport → GovernanceReport
add_trace piece none report = report
add_trace piece (some (clear path)) report = record report {
  governors = record { attacker = piece.id; path = path } ∷ report.governors;
}
add_trace piece (some (blocked path blocker)) report = record report {
  blocked = record { candidate = piece.id; path = path; blocker = blocker } ∷ report.blocked;
}

-- The loop of the report; what a piece adds stands before what the later pieces add.
unfoldable pub trace_pieces : Board → Coord → List Piece → GovernanceReport → GovernanceReport
unfolding add_trace
trace_pieces board target [] report = report
trace_pieces board target (piece ∷ rest) report =
    add_trace piece (governance_trace board piece target) (trace_pieces board target rest report)

unfoldable pub major_pieces : MatchState → Player → List Piece
major_pieces state owner =
    keep (λ piece. player_beq piece.owner owner && is_major piece.kind) (Map.values state.pieces)

unfoldable pub governance_report :
    ScenarioDefinition → MatchState → ℕ → Result GovernanceReport TransitionError
unfolding check_realm
governance_report scenario state index = do
  check_realm scenario state
  s ← ok_or (settlement_at state index) (missing_settlement index)
  site ← ok_or (get_elem? scenario.settlements index) (missing_settlement index)
  let report : GovernanceReport = record {
    settlement_index = index;
    owner = s.owner;
    governors = [];
    blocked = [];
  }
  elim s.owner [
    | none ↦ ok report
    | some owner ↦ ok (trace_pieces (new scenario state) site.at (major_pieces state owner) report)
  ]

-- `!governance_report(..)?.governors.is_empty()`.
unfoldable pub is_governed : ScenarioDefinition → MatchState → ℕ → Result Bool TransitionError
is_governed scenario state index = do
  report ← governance_report scenario state index
  ok (not (is_empty report.governors))

abbrev pub inc_if : Bool → ℕ → Result ℕ TransitionError
inc_if test n = if test then checked_inc u32_max n too_many_sites else ok n

-- One round of the score's loop.
unfoldable pub score_settlement :
    ScenarioDefinition
    → MatchState
    → Player
    → SettlementState
    → RealmControlScore
    → Result RealmControlScore TransitionError
score_settlement scenario state player s score =
    if not (option_beq s.owner (some player)) then ok score else do
      owned ← inc_if true score.owned_settlements
      established ← inc_if s.established score.established_settlements
      is_held ← is_governed scenario state s.site_index
      governed ← inc_if is_held score.governed_settlements
      ok (record {
        owned_settlements = owned;
        governed_settlements = governed;
        established_settlements = established;
      })

unfoldable pub score_settlements :
    ScenarioDefinition
    → MatchState
    → Player
    → List SettlementState
    → RealmControlScore
    → Result RealmControlScore TransitionError
score_settlements scenario state player [] score = ok score
score_settlements scenario state player (s ∷ rest) score = do
  next ← score_settlement scenario state player s score
  score_settlements scenario state player rest next

unfoldable pub realm_control_score :
    ScenarioDefinition → MatchState → Player → Result RealmControlScore TransitionError
unfolding check_realm
realm_control_score scenario state player = do
  check_realm scenario state
  score_settlements scenario state player state.settlements
      (record { owned_settlements = 0; governed_settlements = 0; established_settlements = 0 })

-- The unmoved pawn at the site from which the steps are taken.
abbrev pub placement_source : Player → Coord → Piece
placement_source owner at = record {
  id = u32_max;
  owner = owner;
  kind = pawn;
  at = at;
  origin = deployed;
  has_moved = true;
}

-- The steps around a site that end on an empty square.
unfoldable pub open_neighbours : Board → Player → Coord → List Coord
open_neighbours board owner at = CoordSet.of_list (
    keep (λ c. is_none (board.occupancy c))
      (filter_map (step board (placement_source owner at)) king_offsets))

abbrev pub placement_for : Board → Option Player → Option Coord → List Coord
placement_for board none site = []
placement_for board (some owner) none = []
placement_for board (some owner) (some at) = open_neighbours board owner at

unfoldable pub site_coord : ScenarioDefinition → ℕ → Option Coord
site_coord scenario index = elim (get_elem? scenario.settlements index) [
  | none ↦ none
  | some site ↦ some site.at
]

unfoldable pub pawn_placement_squares_unchecked : ScenarioDefinition → MatchState → ℕ → List Coord
unfolding open_neighbours site_coord
pawn_placement_squares_unchecked scenario state index = elim (settlement_at state index) [
  | none ↦ []
  | some s ↦ placement_for (new scenario state) s.owner (site_coord scenario index)
]

unfoldable pub pawn_placement_squares :
    ScenarioDefinition → MatchState → ℕ → Result (List Coord) TransitionError
unfolding check_realm
pawn_placement_squares scenario state index = do
  check_realm scenario state
  s ← ok_or (settlement_at state index) (missing_settlement index)
  ensure
      (not (
        not s.established
        || is_none s.owner
        || is_some s.produced_pawn
        || ltb s.production_progress scenario.rules.production_cycles))
      (settlement_cannot_produce index)
  ok (pawn_placement_squares_unchecked scenario state index)
