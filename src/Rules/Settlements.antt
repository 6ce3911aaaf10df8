-- ===== src/Rules/Settlements.antt =====
-- Claims and transfers of settlements in crates/crownline_core/src/rules.rs.
use crownline.Prelude.{
  ℕ, Bool, true, false, not, ◌&&◌, Option, none, some, List, [], ◌∷◌, leb, nat_beq, if◌then◌else◌,
  get_elem?, position_from, update_first, is_some, is_some_and, Result, ok, ◌>>=◌, ◌>>◌, ensure,
  ok_or, u16_max,
}
use crownline.Prelude.Map
use crownline.Prelude.Map.{Map}
use crownline.Scenario.Types.{
  Coord, coord_beq, Player, player_beq, player_eq, pawn, kind_beq, Site, ScenarioDefinition,
}
use crownline.State.Types.{
  PieceId, Piece, SettlementState, MatchState, Action, move, hold, choose_promotion, place_pawn_at,
  resign, offer_draw, respond_to_draw,
}
use crownline.State.Errors.{TransitionError, missing_settlement, too_many_sites}
use crownline.Rules.Realm.{settlement_at}

-- The moved piece, where it is a pawn that is still on the board.
unfoldable pub moved_pawn : MatchState → Action → Option Piece
moved_pawn state (move player piece to) = elim (Map.get piece state.pieces) [
  | none ↦ none
  | some p ↦ if kind_beq p.kind pawn then some p else none
]
moved_pawn state (hold player) = none
moved_pawn state (choose_promotion player piece kind) = none
moved_pawn state (place_pawn_at player index place) = none
moved_pawn state (resign player) = none
moved_pawn state (offer_draw player) = none
moved_pawn state (respond_to_draw player accept) = none

-- A neutral settlement is claimed; an enemy's is contested.
unfoldable pub land_on : Piece → SettlementState → SettlementState
land_on p s = elim s.owner [
  | none ↦ record s {
    owner = some p.owner;
    founder = some p.id;
    establishment_progress = 0;
    established = false;
    production_progress = 0;
    produced_pawn = none;
    cycle_interrupted = false;
    completed_cycle_continuous = false;
    transfer_candidate = none;
  }
  | some owner ↦
      if player_beq owner p.owner
      then s
      else record s { transfer_candidate = some p.id; cycle_interrupted = true }
]

-- The write to the settlement of the site with that index.
unfoldable pub land_at : MatchState → Piece → ℕ → Result MatchState TransitionError
unfolding land_on
land_at state p index = do
  ensure (leb index u16_max) too_many_sites
  ensure (is_some (settlement_at state index)) (missing_settlement index)
  ok (record state {
    settlements = update_first (λ s. nat_beq s.site_index index) (land_on p) state.settlements;
  })

unfoldable pub apply_settlement_landing_effect :
    ScenarioDefinition → MatchState → Action → Result MatchState TransitionError
apply_settlement_landing_effect scenario state action = elim (moved_pawn state action) [
  | none ↦ ok state
  | some p ↦ elim (position_from 0 (λ (site : Site). coord_beq site.at p.at) scenario.settlements) [
    | none ↦ ok state
    | some index ↦ land_at state p index
  ]
]

-- A candidate is still an enemy pawn on the site.
unfoldable pub candidate_valid : Map Piece → SettlementState → Coord → PieceId → Bool
candidate_valid pieces s at candidate = is_some_and (Map.get candidate pieces) (λ piece.
    kind_beq piece.kind pawn
    && coord_beq piece.at at
    && is_some_and s.owner (λ owner. not (player_beq owner piece.owner)))

unfoldable pub cancel_candidate :
    ScenarioDefinition → Map Piece → SettlementState → Result SettlementState TransitionError
unfolding candidate_valid
cancel_candidate scenario pieces s = elim s.transfer_candidate [
  | none ↦ ok s
  | some candidate ↦ do
    site ← ok_or (get_elem? scenario.settlements s.site_index) (missing_settlement s.site_index)
    ok (
        if candidate_valid pieces s site.at candidate
        then s
        else record s { transfer_candidate = none })
]

-- A loop over the settlements that stops at the first error.
unfoldable pub each_settlement :
    (SettlementState → Result SettlementState TransitionError)
    → List SettlementState
    → Result (List SettlementState) TransitionError
each_settlement f [] = ok []
each_settlement f (s ∷ rest) = do s' ← f s; rest' ← each_settlement f rest; ok (s' ∷ rest')

unfoldable pub cancel_invalid_transfer_candidates :
    ScenarioDefinition → MatchState → Result MatchState TransitionError
unfolding each_settlement
cancel_invalid_transfer_candidates scenario state = do
  settlements ← each_settlement (cancel_candidate scenario state.pieces) state.settlements
  ok (record state { settlements = settlements })

-- The candidate of the player whose turn begins still stands on the site.
unfoldable pub candidate_survives : Map Piece → Player → Coord → PieceId → Bool
candidate_survives pieces player at candidate =
    is_some_and (Map.get candidate pieces)
      (λ piece. player_beq piece.owner player && kind_beq piece.kind pawn && coord_beq piece.at at)

unfoldable pub resolve_candidate :
    ScenarioDefinition
    → Map Piece
    → Player
    → SettlementState
    → Result SettlementState TransitionError
unfolding candidate_survives
resolve_candidate scenario pieces player s = elim s.transfer_candidate [
  | none ↦ ok s
  | some candidate ↦ do
    site ← ok_or (get_elem? scenario.settlements s.site_index) (missing_settlement s.site_index)
    ok (
        if candidate_survives pieces player site.at candidate
        then record s {
          owner = some player;
          founder = some candidate;
          transfer_candidate = none;
          cycle_interrupted = true;
          completed_cycle_continuous = false;
        }
        else s)
]

unfoldable pub resolve_transfer_candidates :
    ScenarioDefinition → MatchState → Player → Result MatchState TransitionError
unfolding each_settlement
resolve_transfer_candidates scenario state player = do
  settlements ← each_settlement (resolve_candidate scenario state.pieces player) state.settlements
  ok (record state { settlements = settlements })
