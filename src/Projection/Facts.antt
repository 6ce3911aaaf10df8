-- ===== src/Projection/Facts.antt =====
-- What a seat may know of pieces and settlements, in crates/crownline_core/src/projection.rs.
use crownline.Prelude.{
  ℕ, ◌≡◌, ◌⊎◌, ◌||◌, inl, inr, refl, Bool, Bool-cases, true, Option, none, some, List, [], ◌∷◌, In,
  find, is_some_and, get_elem?, contains, nat_beq, option_beq, option_beq_iff, arith, Result, ok,
  err, ◌>>◌,
}
use crownline.Prelude.Map
use crownline.Scenario.Types.{
  Coord, coord_eq, Player, player_beq, player_eq, player_beq_iff, Site, ScenarioDefinition,
}
use crownline.State.Types.{PieceId, Piece, SettlementState, MatchState}
use crownline.State.Errors.{TransitionError}
use crownline.State.Vision.{check_context, visible_coordinates, visible_coordinates_unchecked}
use crownline.State.Range.{Visible, visible_coordinates_unchecked-Visible}
use crownline.Rules.Events.{
  TransitionEvent, pawn_produced, settlement_continuity_interrupted, settlement_cycle_started,
  settlement_claimed, settlement_contested, settlement_transfer_cancelled, settlement_transferred,
  settlement_development_advanced, settlement_development_reset, settlement_established,
  settlement_production_advanced, settlement_production_reset, pawn_placement_ready,
}
use crownline.Projection.Events.{visible_or_none, owns, settlement_permitted, settlement_index}

-- The seat has a piece under this identifier.
abbrev pub Has : MatchState → Player → PieceId → Type 0
Has state seat id = (piece : Piece) × (Map.get id state.pieces ≡ some piece) × (piece.owner ≡ seat)

-- The event is about this settlement.
abbrev pub Concerns : TransitionEvent → ℕ → Type 0
Concerns (settlement_continuity_interrupted i) index = i ≡ index
Concerns (settlement_cycle_started i player continuous) index = i ≡ index
Concerns (settlement_claimed i owner founder) index = i ≡ index
Concerns (settlement_contested i candidate) index = i ≡ index
Concerns (settlement_transfer_cancelled i candidate) index = i ≡ index
Concerns (settlement_transferred i previous owner founder) index = i ≡ index
Concerns (settlement_development_advanced i progress) index = i ≡ index
Concerns (settlement_development_reset i) index = i ≡ index
Concerns (settlement_established i) index = i ≡ index
Concerns (settlement_production_advanced i progress) index = i ≡ index
Concerns (settlement_production_reset i) index = i ≡ index
Concerns (pawn_produced i pawn place) index = i ≡ index
Concerns (pawn_placement_ready i squares) index = i ≡ index
Concerns _ index = ⊥

-- The seat sees the site of the settlement, or the settlement is its own.
abbrev pub SettlementKnown : ScenarioDefinition → MatchState → Player → ℕ → Type 0
SettlementKnown scenario state seat index =
    ((site : Site) × (get_elem? scenario.settlements index ≡ some site)
      × Visible scenario state seat site.at)
    ⊎ ((s : SettlementState) × In s state.settlements
        × (s.site_index ≡ index)
        × (s.owner ≡ some seat))

pub owns-Has :
    (state : MatchState) (seat : Player) (id : PieceId)
    → owns state seat id ≡ true
    → Has state seat id
unfolding owns
owns-Has state seat id h = held (Map.get id state.pieces) refl h
  where
    held :
        (o : Option Piece)
        → Map.get id state.pieces ≡ o
        → is_some_and o (λ piece. player_beq piece.owner seat) ≡ true
        → Has state seat id
    held none e k = cc
    held (some piece) e k = (piece, e, (player_beq_iff piece.owner seat).0 k)

find-held :
    (seat : Player) (index : ℕ) (settlements : List SettlementState)
    → is_some_and
        (find (λ s. nat_beq s.site_index index) settlements)
        (λ s. option_beq s.owner (some seat))
      ≡ true
    → (s : SettlementState) × In s settlements × (s.site_index ≡ index) × (s.owner ≡ some seat)
find-held seat index [] h = cc
find-held seat index (s ∷ rest) h = elim (Bool-cases (nat_beq s.site_index index)) [
  | inl here ↦
      let own = rw here at h in
      (s, inl refl, ground (arith, here), (option_beq_iff s.owner (some seat)).0 own)
  | inr other ↦
      let (t, k, found, own) = find-held seat index rest (rw other at h) in (t, inr k, found, own)
]

visible_or_none-Visible :
    (scenario : ScenarioDefinition) (state : MatchState) (seat : Player) (at : Coord)
    → contains (visible_or_none (visible_coordinates scenario state seat)) at ≡ true
    → Visible scenario state seat at
unfolding visible_coordinates
visible_or_none-Visible scenario state seat at h = seen (check_context scenario state) h
  where
    seen :
        (m : Result (Unit {0}) TransitionError)
        → contains
            (visible_or_none (m >> ok (visible_coordinates_unchecked scenario state seat)))
            at
          ≡ true
        → Visible scenario state seat at
    seen (ok u) k = (visible_coordinates_unchecked-Visible scenario state seat at).0 k
    seen (err e) k = cc

pub settlement_permitted-Known :
    (scenario : ScenarioDefinition) (after : MatchState) (seat : Player) (index : ℕ)
    → settlement_permitted scenario after seat
        (visible_or_none (visible_coordinates scenario after seat))
        index
      ≡ true
    → SettlementKnown scenario after seat index
unfolding settlement_permitted
settlement_permitted-Known scenario after seat index h =
    either (get_elem? scenario.settlements index) refl h
  where
    squares : List Coord
    squares = visible_or_none (visible_coordinates scenario after seat)

    owned : Bool
    owned =
        is_some_and (find (λ s. nat_beq s.site_index index) after.settlements)
          (λ s. option_beq s.owner (some seat))

    either :
        (o : Option Site)
        → get_elem? scenario.settlements index ≡ o
        → (is_some_and o (λ site. contains squares site.at) || owned) ≡ true
        → SettlementKnown scenario after seat index
    either none e k = inr (find-held seat index after.settlements k)
    either (some site) e k = elim (Bool-cases (contains squares site.at)) [
      | inl seen ↦ inl (site, e, visible_or_none-Visible scenario after seat site.at seen)
      | inr unseen ↦ inr (find-held seat index after.settlements (rw unseen at k))
    ]

pub settlement_index-Concerns :
    (event : TransitionEvent) (index : ℕ)
    → settlement_index event ≡ some index
    → Concerns event index
settlement_index-Concerns event index h = ground arith
