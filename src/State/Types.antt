-- ===== src/State/Types.antt =====
-- The data of crates/crownline_core/src/state.rs. A `PieceId` is its number.
use crownline.Prelude.{
  ℕ, ◌+◌, ◌*◌, ◌%◌, ◌≡◌, ◌↔◌, Bool, true, false, Option, List, [], ◌∷◌, arith, leb, nat_beq,
  if◌then◌else◌, String, Eq, contains,
}
use crownline.Prelude.Map.{Map}
use crownline.Scenario.Types.{Coord, Player, north, south, PieceKind, PromotionUnlockRules}

pub record ExplorationState : Type 0 where
  pub north : List Coord
  pub south : List Coord

abbrev pub explored : ExplorationState → Player → List Coord
explored e north = e.north
explored e south = e.south

-- `explored_mut` and a write.
abbrev pub set_explored : ExplorationState → Player → List Coord → ExplorationState
set_explored e north cs = record e { north = cs }
set_explored e south cs = record e { south = cs }

pub data VisibilityState : Type 0 where
  undiscovered known visible : VisibilityState

abbrev pub PieceId : Type 0
PieceId = ℕ

pub data PieceOrigin : Type 0 where
  deployed : PieceOrigin
  settlement : (settlement_index : ℕ) → PieceOrigin
  promoted : (from : PieceId) → PieceOrigin

abbrev pub origin_beq : PieceOrigin → PieceOrigin → Bool
origin_beq deployed deployed = true
origin_beq (settlement i) (settlement j) = nat_beq i j
origin_beq (promoted p) (promoted q) = nat_beq p q
origin_beq deployed (settlement j) = false
origin_beq deployed (promoted q) = false
origin_beq (settlement i) deployed = false
origin_beq (settlement i) (promoted q) = false
origin_beq (promoted p) deployed = false
origin_beq (promoted p) (settlement j) = false

pub record Piece : Type 0 where
  pub id : PieceId
  pub owner : Player
  pub kind : PieceKind
  pub at : Coord
  pub origin : PieceOrigin
  pub has_moved : Bool

pub record EnPassantState : Type 0 where
  pub pawn : PieceId
  pub capture_destination : Coord
  pub expires_for : Player

pub record SettlementState : Type 0 where
  pub site_index : ℕ
  pub owner : Option Player
  pub founder : Option PieceId
  pub establishment_progress : ℕ
  pub established : Bool
  pub production_progress : ℕ
  pub produced_pawn : Option PieceId
  pub cycle_interrupted : Bool
  pub completed_cycle_continuous : Bool
  pub transfer_candidate : Option PieceId

pub data PromotionKind : Type 0 where
  to_queen to_rook to_bishop to_knight : PromotionKind

-- The place in the derived order, by which a set of kinds is kept.
abbrev pub promotion_index : PromotionKind → ℕ
promotion_index to_queen = 0
promotion_index to_rook = 1
promotion_index to_bishop = 2
promotion_index to_knight = 3

abbrev pub promotion_beq : PromotionKind → PromotionKind → Bool
promotion_beq a b = nat_beq (promotion_index a) (promotion_index b)

pub promotion_beq_iff : (a b : PromotionKind) → (promotion_beq a b ≡ true) ↔ (a ≡ b)
promotion_beq_iff a b = ground arith

instance abbrev pub promotion_eq : Eq PromotionKind
promotion_eq = record { beq = promotion_beq; beq_iff = promotion_beq_iff }

-- `PromotionKind::RECRUITMENT_ORDER`.
abbrev pub recruitment_order : List PromotionKind
recruitment_order = to_knight ∷ to_bishop ∷ to_rook ∷ to_queen ∷ []

pub record RealmControlScore : Type 0 where
  pub owned_settlements : ℕ
  pub governed_settlements : ℕ
  pub established_settlements : ℕ

abbrev pub u32_mod : ℕ
u32_mod = 4294967296

-- `RealmControlScore::total`, with the wrap of a release build.
abbrev pub total : RealmControlScore → ℕ
total c = (c.owned_settlements + c.governed_settlements + c.established_settlements * 2) % u32_mod

-- `allowed_kinds` is a set of the four kinds, by membership.
pub record PromotionEligibility : Type 0 where
  pub control : RealmControlScore
  pub allowed_kinds : List PromotionKind

-- `PromotionEligibility::from_control`: the set holds its members in the derived order.
unfoldable pub from_control : RealmControlScore → PromotionUnlockRules → PromotionEligibility
from_control control unlocks =
    let score = total control in
    let with_bishop =
      if leb unlocks.bishop score then to_bishop ∷ to_knight ∷ [] else to_knight ∷ [] in
    let with_rook = if leb unlocks.rook score then to_rook ∷ with_bishop else with_bishop in
    record {
      control = control;
      allowed_kinds = if leb unlocks.queen score then to_queen ∷ with_rook else with_rook;
    }

abbrev pub allows : PromotionEligibility → PromotionKind → Bool
allows e kind = contains e.allowed_kinds kind

pub data MandatoryChoice : Type 0 where
  promote : (pawn : PieceId) (site_index : ℕ) (eligibility : PromotionEligibility) → MandatoryChoice
  place_pawn : (settlement_index : ℕ) (legal_squares : List Coord) → MandatoryChoice

pub data TurnPhase : Type 0 where
  resolving_choices : (queue : List MandatoryChoice) → TurnPhase
  command : TurnPhase

abbrev pub is_command : TurnPhase → Bool
is_command command = true
is_command (resolving_choices queue) = false

pub record ClockState : Type 0 where
  pub north_millis : ℕ
  pub south_millis : ℕ
  pub increment_millis : ℕ

pub data OutcomeReason : Type 0 where
  checkmate timeout resignation agreed_draw threefold_repetition : OutcomeReason

pub record MatchOutcome : Type 0 where
  pub winner : Option Player
  pub reason : OutcomeReason

-- `pieces` and `promotion_candidates` are maps by piece; `repetition_counts` is a map by key, and
-- `available_castling_routes` a set, of texts whose order nothing reads.
pub record MatchState : Type 0 where
  pub scenario_id : String
  pub revision : ℕ
  pub turn_number : ℕ
  pub active_player : Player
  pub phase : TurnPhase
  pub pieces : Map Piece
  pub exploration : Option ExplorationState
  pub settlements : List SettlementState
  pub en_passant : Option EnPassantState
  pub available_castling_routes : List String
  pub promotion_candidates : Map ℕ
  pub outstanding_draw_offer : Option Player
  pub clocks : Option ClockState
  pub repetition_counts : List (String × ℕ)
  pub outcome : Option MatchOutcome
  pub next_piece_id : ℕ

pub data Action : Type 0 where
  move : (player : Player) (piece : PieceId) (to : Coord) → Action
  hold : (player : Player) → Action
  choose_promotion : (player : Player) (pawn : PieceId) (promote_to : PromotionKind) → Action
  place_pawn_at : (player : Player) (settlement_index : ℕ) (place : Coord) → Action
  resign : (player : Player) → Action
  offer_draw : (player : Player) → Action
  respond_to_draw : (player : Player) (accept : Bool) → Action
