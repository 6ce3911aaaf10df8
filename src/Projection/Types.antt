-- ===== src/Projection/Types.antt =====
-- The data of crates/crownline_core/src/projection.rs. The views of owned sites and the identifiers of
-- castling routes are lists where the source has sets, whose order only their encoding reads.
use crownline.Prelude.{ℕ, Bool, Option, List, String, ℤ}
use crownline.Prelude.Map.{Map}
use crownline.Scenario.Types.{Coord, BoardSize, Player, PieceKind, TileTerrain, Edge, EdgeKind}
use crownline.State.Types.{
  PieceId, Piece, PieceOrigin, EnPassantState, PromotionEligibility, ClockState, MatchOutcome,
}
use crownline.State.Errors.{TransitionError}

abbrev pub player_view_schema_version : ℕ
player_view_schema_version = 1

pub record StaticOwnedSiteView : Type 0 where
  pub id : String
  pub owner : Player

-- A site is shown by its identifier, `StaticSiteView`.
pub record KnownSquare : Type 0 where
  pub at : Coord
  pub terrain : TileTerrain
  pub settlement : Option String
  pub promotion_site : Option String
  pub keeps : List StaticOwnedSiteView
  pub fortifications : List StaticOwnedSiteView

pub record KnownEdge : Type 0 where
  pub edge : Edge
  pub kind : EdgeKind

pub record ViewPiece : Type 0 where
  pub id : PieceId
  pub owner : Player
  pub kind : PieceKind
  pub at : Coord
  pub origin : PieceOrigin
  pub has_moved : Bool

-- `ViewPiece::from`.
abbrev pub view_piece : Piece → ViewPiece
view_piece piece = record {
  id = piece.id;
  owner = piece.owner;
  kind = piece.kind;
  at = piece.at;
  origin = piece.origin;
  has_moved = piece.has_moved;
}

pub data GovernanceState : Type 0 where
  ungoverned governed : GovernanceState

pub record SettlementDynamicView : Type 0 where
  pub owner : Option Player
  pub founder : Option PieceId
  pub establishment_progress : ℕ
  pub established : Bool
  pub production_progress : ℕ
  pub produced_pawn : Option PieceId
  pub cycle_interrupted : Bool
  pub completed_cycle_continuous : Bool
  pub transfer_candidate : Option PieceId
  pub governance : GovernanceState

pub record SettlementView : Type 0 where
  pub site_index : ℕ
  pub id : String
  pub at : Coord
  pub dynamic : Option SettlementDynamicView

pub data ViewMandatoryChoice : Type 0 where
  promote_view :
      (pawn : PieceId) (site_index : ℕ) (eligibility : PromotionEligibility) → ViewMandatoryChoice
  place_pawn_view : (settlement_index : ℕ) → ViewMandatoryChoice

pub data ViewTurnPhase : Type 0 where
  command_view : ViewTurnPhase
  own_choices : (queue : List ViewMandatoryChoice) → ViewTurnPhase
  private_choice : (player : Player) (remaining : ℕ) → ViewTurnPhase

pub record PlayerView : Type 0 where
  pub schema_version : ℕ
  pub seat : Player
  pub scenario_id : String
  pub revision : ℕ
  pub projection_hash : String
  pub board : BoardSize
  pub pawn_forward_y : ℤ
  pub allow_pawn_double_step : Bool
  pub visible : List Coord
  pub squares : List KnownSquare
  pub edges : List KnownEdge
  pub pieces : Map ViewPiece
  pub settlements : Map SettlementView
  pub promotion_candidates : Map ℕ
  pub own_castling_routes : List String
  pub own_castling_destinations : List Coord
  pub en_passant : Option EnPassantState
  pub active_player : Player
  pub turn_number : ℕ
  pub phase : ViewTurnPhase
  pub checked_players : List Player
  pub clocks : Option ClockState
  pub outstanding_draw_offer : Option Player
  pub outcome : Option MatchOutcome

pub record HoverView : Type 0 where
  pub at : Coord
  pub currently_visible : Bool
  pub square : KnownSquare
  pub piece : Option ViewPiece

pub data PlayerEvent : Type 0 where
  own_piece_moved : (piece : PieceId) (from to : Coord) → PlayerEvent
  own_piece_captured : (piece : PieceId) → PlayerEvent
  own_piece_promoted : (pawn promoted : PieceId) (kind : PieceKind) (place : Coord) → PlayerEvent
  own_pawn_produced : (settlement_index : ℕ) (pawn : PieceId) (place : Coord) → PlayerEvent
  observed_settlement_changed : (settlement_index : ℕ) → PlayerEvent
  clock_changed draw_changed : PlayerEvent
  turn_begun : (player : Player) (turn_number : ℕ) → PlayerEvent
  match_over : (outcome : MatchOutcome) → PlayerEvent
  action_resolved : (player : Player) → PlayerEvent

pub data PlayerIntentError : Type 0 where
  illegal_intent : PlayerIntentError

-- What ends a projection: an error that it returns, or an index out of range, which panics.
pub data ProjectionError : Type 0 where
  failed : TransitionError → ProjectionError
  panicked : ProjectionError
