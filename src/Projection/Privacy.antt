-- ===== src/Projection/Privacy.antt =====
-- What a seat's view names, in crates/crownline_core/src/projection.rs.
use crownline.Prelude.{
  ℕ, ℤ, ◌≡◌, ◌∙◌, refl, ap, inl, inr, Bool, true, false, Bool-cases, ◌&&◌, ◌||◌, Option, none, some,
  List, [], ◌∷◌, arith, if◌then◌else◌, nat_eq, option_eq, contains, ok, ok_or, map_err,
  map_err-eq-ok, Ensures, map, keep, String, >>=-Ensures, >>=-Ensures_any, >>=-eq-ok,
}
use crownline.Prelude.Map
use crownline.Prelude.Map.{Map}
use crownline.Scenario.Types.{
  Coord, coord_eq, Player, north, south, player_beq, player_beq_iff, player_eq, is_within,
  ScenarioDefinition,
}
use crownline.State.Types.{PieceId, Piece, EnPassantState, MatchState}
use crownline.State.Vision.{
  visible_coordinates_unchecked, visible_coordinates, check_context, validate_exploration,
}
use crownline.State.Sight.{in_sight, visible_coordinates_unchecked-contains}
use crownline.Projection.Types.{ViewPiece, view_piece, SettlementView, PlayerView, failed, panicked}
use crownline.Projection.View.{
  ViewHash, project_pieces, project_en_passant, explored_or, checked_players, assemble,
  calculate_hash, project_player_view,
}
use crownline.Projection.Named.{AllNamed, project_settlements-AllNamed}

-- The seat may know of the piece: it is the seat's own, or on the board and in the seat's sight.
abbrev pub may_know : ScenarioDefinition → MatchState → Player → ℕ × Piece → Bool
may_know scenario state seat (id, piece) =
    player_beq piece.owner seat
    || is_within piece.at scenario.board && in_sight scenario state seat piece.at

abbrev pub shown_as : ℕ × Piece → ℕ × ViewPiece
shown_as (id, piece) = (id, view_piece piece)

project_pieces-keep :
    (scenario : ScenarioDefinition) (state : MatchState) (seat : Player) (pieces : Map Piece)
    → project_pieces seat (visible_coordinates_unchecked scenario state seat) pieces
      ≡ map shown_as (keep (may_know scenario state seat) pieces)
unfolding project_pieces
project_pieces-keep scenario state seat [] = refl
project_pieces-keep scenario state seat ((id, piece) ∷ rest) =
    rw
      (
        visible_coordinates_unchecked-contains scenario state seat piece.at,
        project_pieces-keep scenario state seat rest,
      )
      (one (may_know scenario state seat (id, piece)))
  where
    others : Map Piece
    others = keep (may_know scenario state seat) rest

    one :
        (known : Bool)
        → (if known then (id, view_piece piece) ∷ map shown_as others else map shown_as others)
          ≡ map shown_as (if known then (id, piece) ∷ others else others)
    one true = refl
    one false = refl

-- Every key is the identifier of a piece that is shown.
abbrev pub KnownKeys : List PieceId → Map ℕ → Type 0
KnownKeys ids [] = Unit
KnownKeys ids ((id, n) ∷ rest) = (contains ids id ≡ true) × KnownKeys ids rest

retain-KnownKeys :
    (ids : List PieceId) (m : Map ℕ) → KnownKeys ids (Map.retain (λ id n. contains ids id) m)
unfolding Map.retain
retain-KnownKeys ids [] = tt
retain-KnownKeys ids ((id, n) ∷ rest) = elim (Bool-cases (contains ids id)) [
  | inl known ↦ rw known (known, retain-KnownKeys ids rest)
  | inr unknown ↦ rw unknown (retain-KnownKeys ids rest)
]

-- The Pawn that may be captured in passing is shown, and the capture is the seat's.
abbrev pub EnPassantKnown : Player → List PieceId → Option EnPassantState → Type 0
EnPassantKnown seat ids none = Unit
EnPassantKnown seat ids (some e) = (e.expires_for ≡ seat) × (contains ids e.pawn ≡ true)

en_passant-known :
    (seat : Player) (ids : List PieceId) (o : Option EnPassantState)
    → EnPassantKnown seat ids (project_en_passant seat ids o)
en_passant-known seat ids none = tt
en_passant-known seat ids (some e) =
    elim (Bool-cases (player_beq e.expires_for seat && contains ids e.pawn)) [
      | inl known ↦ rw known (ground (arith, known, player_beq_iff e.expires_for seat))
      | inr unknown ↦ rw unknown tt
    ]

-- A view shows the pieces of the seat and those that it sees, in their order, and all else that it
-- says of pieces names these.
pub record Discloses (scenario : ScenarioDefinition) (state : MatchState) (seat : Player)
    (view : PlayerView) : Type 0 where
  pub pieces : view.pieces ≡ map shown_as (keep (may_know scenario state seat) state.pieces)
  pub settlements : AllNamed (Map.keys view.pieces) view.settlements
  pub candidates : KnownKeys (Map.keys view.pieces) view.promotion_candidates
  pub en_passant : EnPassantKnown seat (Map.keys view.pieces) view.en_passant

assemble-Discloses :
    (scenario : ScenarioDefinition) (state : MatchState) (seat : Player) (visible : List Coord)
    (settlements : Map SettlementView) (checked : List Player) (forward : ℤ) (written : String)
    → visible ≡ visible_coordinates_unchecked scenario state seat
    → AllNamed (Map.keys (project_pieces seat visible state.pieces)) settlements
    → Discloses scenario state seat
        (record (assemble scenario state seat visible settlements checked forward) {
          projection_hash = written;
        })
unfolding assemble
assemble-Discloses scenario state seat visible settlements checked forward written e named =
    let ids = Map.keys (project_pieces seat visible state.pieces) in
    record {
      pieces =
          ap (λ cs. project_pieces seat cs state.pieces) e
          ∙ project_pieces-keep scenario state seat state.pieces;
      settlements = named;
      candidates = retain-KnownKeys ids state.promotion_candidates;
      en_passant = en_passant-known seat ids state.en_passant;
    }

visible_coordinates-unchecked :
    (scenario : ScenarioDefinition) (state : MatchState) (seat : Player) {visible : List Coord}
    → visible_coordinates scenario state seat ≡ ok visible
    → visible ≡ visible_coordinates_unchecked scenario state seat
unfolding visible_coordinates
visible_coordinates-unchecked scenario state seat h =
    let (u, context, e) = >>=-eq-ok (check_context scenario state) _ h in ground (arith, e)

-- The view of a seat shows exactly the seat's own pieces and the pieces on squares within its
-- vision, and its settlements, promotion candidates and capture in passing name no other piece.
pub project_player_view-Discloses :
    (view_hash : ViewHash) (scenario : ScenarioDefinition) (state : MatchState) (seat : Player)
    → Ensures (Discloses scenario state seat) (project_player_view view_hash scenario state seat)
unfolding project_player_view
project_player_view-Discloses view_hash scenario state seat =
    let P = Discloses scenario state seat in
    >>=-Ensures_any P (map_err (validate_exploration scenario state) failed) _ λ _ _.
      >>=-Ensures_any P (map_err (visible_coordinates scenario state seat) failed) _ λ visible seen.
        let known = explored_or visible seat state.exploration in
        let ids = Map.keys (project_pieces seat visible state.pieces) in
        >>=-Ensures (AllNamed ids) P _ _
          (project_settlements-AllNamed scenario state seat visible known ids state.settlements []
            tt)
          λ settlements named.
            >>=-Ensures_any P (map_err (checked_players scenario state (north ∷ south ∷ [])) failed)
              _
              λ checked _.
                >>=-Ensures_any P (ok_or (scenario.rules.pawn_forward_y seat) panicked) _
                  λ forward _.
                    let view = assemble scenario state seat visible settlements checked forward in
                    >>=-Ensures_any P (map_err (calculate_hash view_hash view) failed) _
                      λ written _.
                        assemble-Discloses scenario state seat visible settlements checked forward
                          written
                          (visible_coordinates-unchecked scenario state seat
                            (map_err-eq-ok _ failed seen))
                          named
