-- ===== src/Projection/View.antt =====
-- `project_player_view` of crates/crownline_core/src/projection.rs.
use crownline.Prelude.{
  ℤ, not, ◌&&◌, ◌||◌, Bool, Option, none, some, List, [], ◌∷◌, map, if◌then◌else◌, keep, find,
  get_elem?, length, contains, nat_eq, option_beq, option_eq, String, string_eq, Result, ok, ◌>>=◌,
  ◌>>◌, ok_or, map_err,
}
use crownline.Prelude.Map
use crownline.Prelude.Map.{Map}
use crownline.Scenario.CoordSet
use crownline.Scenario.Types.{
  Coord, coord_beq, coord_eq, Player, north, south, player_beq, player_eq, open_ground, Edge,
  EdgeKind, Site, CastlingRoute, ScenarioDefinition, map_get,
}
use crownline.State.Types.{
  PieceId, Piece, ExplorationState, explored, EnPassantState, SettlementState, MandatoryChoice,
  promote, place_pawn, TurnPhase, command, resolving_choices, MatchState,
}
use crownline.State.Errors.{TransitionError, serialize}
use crownline.State.Vision.{visible_coordinates, validate_exploration}
use crownline.Rules.Legality.{is_in_check}
use crownline.Rules.Realm.{is_governed}
use crownline.Projection.Types.{
  player_view_schema_version, KnownSquare, KnownEdge, ViewPiece, view_piece, ungoverned, governed,
  SettlementDynamicView, SettlementView, ViewMandatoryChoice, promote_view, place_pawn_view,
  ViewTurnPhase, command_view, own_choices, private_choice, PlayerView, ProjectionError, failed,
  panicked,
}

-- `serde_json::to_vec` of a view followed by SHA-256 in hexadecimal.
abbrev pub ViewHash : Type 0
ViewHash = PlayerView → Option String

abbrev pub site_id_at : List Site → Coord → Option String
site_id_at sites at = elim (find (λ site. coord_beq site.at at) sites) [
  | none ↦ none
  | some site ↦ some site.id
]

unfoldable pub known_square : ScenarioDefinition → Coord → KnownSquare
known_square scenario at = record {
  at = at;
  terrain = elim (map_get at scenario.terrain) [ none ↦ open_ground | some t ↦ t ];
  settlement = site_id_at scenario.settlements at;
  promotion_site = site_id_at scenario.promotion_sites at;
  keeps =
      map (λ k. record { id = k.id; owner = k.owner })
        (keep (λ k. contains k.tiles at) scenario.keeps);
  fortifications =
      map (λ f. record { id = f.id; owner = f.owner })
        (keep (λ f. coord_beq f.tower at) scenario.fortifications);
}

-- The edges with an end that has been explored.
unfoldable pub known_edges : List Coord → List (Edge × EdgeKind) → List KnownEdge
known_edges explored [] = []
known_edges explored ((e, kind) ∷ rest) =
    let others = known_edges explored rest in
    if contains explored e.first || contains explored e.second
    then record { edge = e; kind = kind } ∷ others
    else others

abbrev pub shown : Player → List Coord → Piece → Bool
shown seat visible piece = player_beq piece.owner seat || contains visible piece.at

-- The pieces that the seat owns or sees.
unfoldable pub project_pieces : Player → List Coord → Map Piece → Map ViewPiece
project_pieces seat visible [] = []
project_pieces seat visible ((id, piece) ∷ rest) =
    let others = project_pieces seat visible rest in
    if shown seat visible piece then (id, view_piece piece) ∷ others else others

abbrev pub disclosed : List PieceId → Option PieceId → Option PieceId
disclosed ids none = none
disclosed ids (some id) = if contains ids id then some id else none

-- The record that `settlement_dynamic` builds.
abbrev pub dynamic_view : SettlementState → List PieceId → Bool → SettlementDynamicView
dynamic_view s ids held = record {
  owner = s.owner;
  founder = disclosed ids s.founder;
  establishment_progress = s.establishment_progress;
  established = s.established;
  production_progress = s.production_progress;
  produced_pawn = disclosed ids s.produced_pawn;
  cycle_interrupted = s.cycle_interrupted;
  completed_cycle_continuous = s.completed_cycle_continuous;
  transfer_candidate = disclosed ids s.transfer_candidate;
  governance = if held then governed else ungoverned;
}

unfoldable pub settlement_dynamic :
    ScenarioDefinition
    → MatchState
    → SettlementState
    → List PieceId
    → Result SettlementDynamicView TransitionError
settlement_dynamic scenario state s ids = do
  held ← is_governed scenario state s.site_index
  ok (dynamic_view s ids held)

-- `dynamic_permitted.then(..).transpose()?`.
unfoldable pub permitted_dynamic :
    Bool
    → ScenarioDefinition
    → MatchState
    → SettlementState
    → List PieceId
    → Result (Option SettlementDynamicView) TransitionError
permitted_dynamic permitted scenario state s ids =
    if permitted
    then (do dynamic ← settlement_dynamic scenario state s ids; ok (some dynamic))
    else ok none

-- The loop over the settlements, with the map so far; an index with no site panics.
unfoldable pub project_settlements :
    ScenarioDefinition
    → MatchState
    → Player
    → List Coord
    → List Coord
    → List PieceId
    → List SettlementState
    → Map SettlementView
    → Result (Map SettlementView) ProjectionError
project_settlements scenario state seat visible explored ids [] projected = ok projected
project_settlements scenario state seat visible explored ids (s ∷ rest) projected = do
  site ← ok_or (get_elem? scenario.settlements s.site_index) panicked
  next ← if not (contains explored site.at) then ok projected else do
    dynamic ←
        map_err
          (permitted_dynamic (contains visible site.at || option_beq s.owner (some seat)) scenario
            state s ids)
          failed
    ok (
        Map.insert s.site_index
          (record { site_index = s.site_index; id = site.id; at = site.at; dynamic = dynamic })
          projected)
  project_settlements scenario state seat visible explored ids rest next

abbrev pub project_choice : MandatoryChoice → ViewMandatoryChoice
project_choice (promote pawn index eligibility) = promote_view pawn index eligibility
project_choice (place_pawn index squares) = place_pawn_view index

abbrev pub project_phase_of : Player → Player → TurnPhase → ViewTurnPhase
project_phase_of active seat command = command_view
project_phase_of active seat (resolving_choices queue) =
    if player_beq active seat
    then own_choices (map project_choice queue)
    else private_choice active (length queue)

unfoldable pub project_phase : MatchState → Player → ViewTurnPhase
project_phase state seat = project_phase_of state.active_player seat state.phase

abbrev pub own_route : MatchState → Player → CastlingRoute → Bool
own_route state seat route =
    player_beq route.player seat && contains state.available_castling_routes route.id

unfoldable pub own_castling_destinations :
    ScenarioDefinition → MatchState → Player → List Coord → List Coord
own_castling_destinations scenario state seat visible = CoordSet.of_list (
    map (λ route. route.king_destination)
      (keep (λ route. own_route state seat route && contains visible route.king_destination)
        scenario.castling_routes))

abbrev pub project_en_passant :
    Player → List PieceId → Option EnPassantState → Option EnPassantState
project_en_passant seat ids none = none
project_en_passant seat ids (some e) =
    if player_beq e.expires_for seat && contains ids e.pawn then some e else none

-- The players whose Kings are in check, out of those listed.
unfoldable pub checked_players :
    ScenarioDefinition → MatchState → List Player → Result (List Player) TransitionError
checked_players scenario state [] = ok []
checked_players scenario state (player ∷ rest) = do
  checked ← is_in_check scenario state player
  others ← checked_players scenario state rest
  ok (if checked then player ∷ others else others)

abbrev pub explored_or : List Coord → Player → Option ExplorationState → List Coord
explored_or visible seat none = visible
explored_or visible seat (some knowledge) = explored knowledge seat

-- The view before its hash is set.
unfoldable pub assemble :
    ScenarioDefinition
    → MatchState
    → Player
    → List Coord
    → Map SettlementView
    → List Player
    → ℤ
    → PlayerView
unfolding project_pieces known_edges known_square own_castling_destinations project_phase
assemble scenario state seat visible settlements checked forward =
    let known = explored_or visible seat state.exploration in
    let pieces = project_pieces seat visible state.pieces in
    record {
      schema_version = player_view_schema_version;
      seat = seat;
      scenario_id = scenario.id;
      revision = state.revision;
      projection_hash = "";
      board = scenario.board;
      pawn_forward_y = forward;
      allow_pawn_double_step = scenario.rules.allow_pawn_double_step;
      visible = visible;
      squares = map (known_square scenario) known;
      edges = known_edges known scenario.edges;
      pieces = pieces;
      settlements = settlements;
      promotion_candidates =
          Map.retain (λ id progress. contains (Map.keys pieces) id) state.promotion_candidates;
      own_castling_routes =
          map (λ route. route.id) (keep (own_route state seat) scenario.castling_routes);
      own_castling_destinations = own_castling_destinations scenario state seat visible;
      en_passant = project_en_passant seat (Map.keys pieces) state.en_passant;
      active_player = state.active_player;
      turn_number = state.turn_number;
      phase = project_phase state seat;
      checked_players = checked;
      clocks = state.clocks;
      outstanding_draw_offer = state.outstanding_draw_offer;
      outcome = state.outcome;
    }

-- `PlayerView::calculate_hash`.
unfoldable pub calculate_hash : ViewHash → PlayerView → Result String TransitionError
calculate_hash view_hash view = ok_or (view_hash (record view { projection_hash = "" })) serialize

unfoldable pub project_player_view :
    ViewHash → ScenarioDefinition → MatchState → Player → Result PlayerView ProjectionError
project_player_view view_hash scenario state seat = do
  map_err (validate_exploration scenario state) failed
  visible ← map_err (visible_coordinates scenario state seat) failed
  settlements ←
      project_settlements scenario state seat visible (explored_or visible seat state.exploration)
        (Map.keys (project_pieces seat visible state.pieces)) state.settlements []
  checked ← map_err (checked_players scenario state (north ∷ south ∷ [])) failed
  forward ← ok_or (scenario.rules.pawn_forward_y seat) panicked
  let view = assemble scenario state seat visible settlements checked forward
  written ← map_err (calculate_hash view_hash view) failed
  ok (record view { projection_hash = written })
