-- ===== src/Scenario/Types.antt =====
-- The data of crates/crownline_core/src/scenario.rs: coordinates, edges and the scenario itself.
-- `u8` to `u32` are numbers and `i8` is an integer; the places that compute say where they wrap.
use crownline.Prelude.{
  ℕ, ◌+◌, ◌%◌, ◌≡◌, ◌↔◌, Bool, true, false, ◌&&◌, ◌||◌, Option, none, some, List, [], ◌∷◌, arith,
  ltb, leb, nat_beq, if◌then◌else◌, abs_diff, ℤ, String, Eq, nat_eq,
}

pub record Coord : Type 0 where
  pub x : ℕ
  pub y : ℕ

pub record BoardSize : Type 0 where
  pub width : ℕ
  pub height : ℕ

abbrev pub is_within : Coord → BoardSize → Bool
is_within at board = ltb at.x board.width && ltb at.y board.height

abbrev pub coord_beq : Coord → Coord → Bool
coord_beq a b = nat_beq a.x b.x && nat_beq a.y b.y

pub coord_beq_iff : (a b : Coord) → (coord_beq a b ≡ true) ↔ (a ≡ b)
coord_beq_iff a b = ground arith

instance abbrev pub coord_eq : Eq Coord
coord_eq = record { beq = coord_beq; beq_iff = coord_beq_iff }

-- The derived order: by `x`, then by `y`.
abbrev pub coord_le : Coord → Coord → Bool
coord_le a b = ltb a.x b.x || nat_beq a.x b.x && leb a.y b.y

pub data Player : Type 0 where
  north south : Player

abbrev pub opponent : Player → Player
opponent north = south
opponent south = north

abbrev pub player_beq : Player → Player → Bool
player_beq north north = true
player_beq north south = false
player_beq south north = false
player_beq south south = true

pub player_beq_iff : (a b : Player) → (player_beq a b ≡ true) ↔ (a ≡ b)
player_beq_iff a b = ground arith

instance abbrev pub player_eq : Eq Player
player_eq = record { beq = player_beq; beq_iff = player_beq_iff }

-- `Player::ALL`.
abbrev pub all_players : List Player
all_players = north ∷ south ∷ []

pub data PieceKind : Type 0 where
  king queen rook bishop knight pawn : PieceKind

-- The place of a kind in the derived order.
abbrev pub kind_index : PieceKind → ℕ
kind_index king = 0
kind_index queen = 1
kind_index rook = 2
kind_index bishop = 3
kind_index knight = 4
kind_index pawn = 5

abbrev pub kind_beq : PieceKind → PieceKind → Bool
kind_beq a b = nat_beq (kind_index a) (kind_index b)

pub kind_beq_iff : (a b : PieceKind) → (kind_beq a b ≡ true) ↔ (a ≡ b)
kind_beq_iff a b = ground arith

instance abbrev pub kind_eq : Eq PieceKind
kind_eq = record { beq = kind_beq; beq_iff = kind_beq_iff }

pub data TileTerrain : Type 0 where
  open_ground forest mountain road : TileTerrain

abbrev pub is_mountain : TileTerrain → Bool
is_mountain mountain = true
is_mountain _ = false

abbrev pub is_forest : TileTerrain → Bool
is_forest forest = true
is_forest _ = false

pub data EdgeKind : Type 0 where
  river bridge ford wall gate : EdgeKind

pub record Edge : Type 0 where
  pub first : Coord
  pub second : Coord

abbrev pub edge_beq : Edge → Edge → Bool
edge_beq a b = coord_beq a.first b.first && coord_beq a.second b.second

pub edge_beq_iff : (a b : Edge) → (edge_beq a b ≡ true) ↔ (a ≡ b)
edge_beq_iff a b = ground arith

instance abbrev pub edge_eq : Eq Edge
edge_eq = record { beq = edge_beq; beq_iff = edge_beq_iff }

-- `Edge::new`.
abbrev pub edge : Coord → Coord → Edge
edge a b =
    if coord_le a b then record { first = a; second = b } else record { first = b; second = a }

-- `dx + dy` of two `u16` wraps in a release build.
abbrev pub is_orthogonally_adjacent : Edge → Bool
is_orthogonally_adjacent e =
    nat_beq ((abs_diff e.first.x e.second.x + abs_diff e.first.y e.second.y) % 65536) 1

pub record Deployment : Type 0 where
  pub player : Player
  pub kind : PieceKind
  pub at : Coord

-- `SettlementSite` and `PromotionSite`.
pub record Site : Type 0 where
  pub id : String
  pub at : Coord

pub record Fortification : Type 0 where
  pub id : String
  pub owner : Player
  pub tower : Coord
  pub projected_wall : Edge

pub record KeepDefinition : Type 0 where
  pub id : String
  pub owner : Player
  pub tiles : List Coord
  pub gates : List Edge
  pub fortification_ids : List String

pub record CastlingRoute : Type 0 where
  pub id : String
  pub player : Player
  pub king_start : Coord
  pub rook_start : Coord
  pub king_path : List Coord
  pub king_destination : Coord
  pub rook_destination : Coord

pub record FogRules : Type 0 where
  pub schema_version : ℕ
  pub vision_radius : ℕ

pub record PromotionUnlockRules : Type 0 where
  pub bishop : ℕ
  pub rook : ℕ
  pub queen : ℕ

pub data ArmySetup : Type 0 where
  standard custom : ArmySetup

abbrev pub is_standard : ArmySetup → Bool
is_standard standard = true
is_standard custom = false

-- `pawn_forward_y` is a map with the two players for keys.
pub record ScenarioRules : Type 0 where
  pub pawn_forward_y : Player → Option ℤ
  pub army_setup : ArmySetup
  pub allow_pawn_double_step : Bool
  pub allow_en_passant : Bool
  pub establishment_cycles : ℕ
  pub production_cycles : ℕ
  pub promotion_cycles : ℕ
  pub promotion_unlocks : PromotionUnlockRules
  pub fog : Option FogRules
  pub development_resets_when_interrupted : Bool

pub record ScenarioMetadata : Type 0 where
  pub name : String
  pub description : String
  pub expected_minutes : ℕ × ℕ
  pub is_default : Bool

-- The field `guided` is left out: the model is of the scenarios that carry no guided content.
-- `terrain` and `edges` are maps in the order of their keys.
pub record ScenarioDefinition : Type 0 where
  pub schema_version : ℕ
  pub id : String
  pub metadata : ScenarioMetadata
  pub board : BoardSize
  pub terrain : List (Coord × TileTerrain)
  pub edges : List (Edge × EdgeKind)
  pub deployments : List Deployment
  pub settlements : List Site
  pub promotion_sites : List Site
  pub keeps : List KeepDefinition
  pub fortifications : List Fortification
  pub castling_routes : List CastlingRoute
  pub rules : ScenarioRules

-- `BTreeMap::get` at a key with equality.
abbrev pub map_get {ℓ κ} : {K : Type ℓ} ⦃e : Eq K⦄ {V : Type κ} → K → List (K × V) → Option V
map_get k [] = none
map_get ⦃e⦄ k ((j, v) ∷ m) = if e.beq j k then some v else map_get ⦃e = e⦄ k m
