-- ===== src/Rules/Claims.antt =====
-- Settlements across transfers and the loss of a piece, in crates/crownline_core/src/rules.rs.
use crownline.Prelude.{
  ℕ, ◌≡◌, ◌≢◌, ◌⊎◌, inl, inr, refl, true, false, none, some, List, [], ◌∷◌, arith, nat_eq,
  option_beq_iff, get_elem?, if◌then◌else◌, Bool-cases, Option-cases, Result, ok, err, >>=-Ensures,
  Ensures,
}
use crownline.Prelude.Map
use crownline.Prelude.Map.{Map, get-remove}
use crownline.Scenario.Types.{
  coord_beq_iff, Player, player_beq_iff, player_eq, pawn, kind_beq, Site, ScenarioDefinition,
}
use crownline.State.Types.{PieceId, Piece, SettlementState, MatchState}
use crownline.State.Errors.{TransitionError, missing_settlement}
use crownline.Rules.Moving.{forget_piece, forget_in, clear_piece_references}
use crownline.Rules.Settlements.{
  each_settlement, candidate_survives, resolve_candidate, resolve_transfer_candidates,
}

-- The lists have the same length, and their elements are related place by place.
abbrev pub Pairwise :
    (SettlementState → SettlementState → Type 0)
    → List SettlementState
    → List SettlementState
    → Type 0
Pairwise R [] [] = Unit {0}
Pairwise R [] (y ∷ ys) = ⊥
Pairwise R (x ∷ xs) [] = ⊥
Pairwise R (x ∷ xs) (y ∷ ys) = R x y × Pairwise R xs ys

-- A settlement that has lost a piece: nothing in it names the piece, losing the founder breaks the
-- cycle, and all else stays.
pub record Forgotten (id : PieceId) (s s' : SettlementState) : Type 0 where
  pub founder : s'.founder ≢ some id
  pub produced_pawn : s'.produced_pawn ≢ some id
  pub transfer_candidate : s'.transfer_candidate ≢ some id
  pub broken : s.founder ≡ some id → s'.cycle_interrupted ≡ true
  pub kept :
      s.founder ≢ some id → (s'.founder ≡ s.founder) × (s'.cycle_interrupted ≡ s.cycle_interrupted)
  pub owner : s'.owner ≡ s.owner
  pub established : s'.established ≡ s.established
  pub progress :
      (s'.establishment_progress ≡ s.establishment_progress)
      × (s'.production_progress ≡ s.production_progress)

forget_piece-Forgotten : (id : PieceId) (s : SettlementState) → Forgotten id s (forget_piece id s)
unfolding forget_piece
forget_piece-Forgotten id s = record {
  founder = ground (arith, option_beq_iff s.founder (some id));
  produced_pawn = ground (arith, option_beq_iff s.produced_pawn (some id));
  transfer_candidate = ground (arith, option_beq_iff s.transfer_candidate (some id));
  broken = λ e. ground (arith, option_beq_iff s.founder (some id));
  kept = λ e. ground (arith, option_beq_iff s.founder (some id));
  owner = refl;
  established = refl;
  progress = (refl, refl);
}

forget_in-Forgotten :
    (id : PieceId) (ss : List SettlementState) → Pairwise (Forgotten id) ss (forget_in id ss)
unfolding forget_in
forget_in-Forgotten id [] = tt
forget_in-Forgotten id (s ∷ rest) = (forget_piece-Forgotten id s, forget_in-Forgotten id rest)

-- Once a piece's references are cleared no settlement names it as founder, produced pawn or transfer
-- candidate, and it is no promotion candidate; a settlement whose founder it was has its cycle
-- broken, and nothing else in the settlements changes.
pub clear_piece_references-Forgotten :
    (state : MatchState) (id : PieceId)
    → Pairwise (Forgotten id) state.settlements (clear_piece_references state id).settlements
      × (Map.get id (clear_piece_references state id).promotion_candidates ≡ none)
unfolding clear_piece_references
clear_piece_references-Forgotten state id = (
  forget_in-Forgotten id state.settlements,
  ground (arith, get-remove id id state.promotion_candidates),
)

each-Pairwise :
    (f : SettlementState → Result SettlementState TransitionError)
    (R : SettlementState → SettlementState → Type 0)
    → ((s : SettlementState) → Ensures (R s) (f s))
    → (ss : List SettlementState) → Ensures (Pairwise R ss) (each_settlement f ss)
unfolding each_settlement
each-Pairwise f R h [] = tt
each-Pairwise f R h (s ∷ rest) = >>=-Ensures (R s) (Pairwise R (s ∷ rest)) (f s) _ (h s) λ s' r.
    >>=-Ensures (Pairwise R rest) (Pairwise R (s ∷ rest)) (each_settlement f rest) _
      (each-Pairwise f R h rest) λ rest' rs. (r, rs)

-- A pawn of the player stands on the site of the settlement.
pub record Holds (scenario : ScenarioDefinition) (pieces : Map Piece) (player : Player) (index : ℕ)
    (id : PieceId) : Type 0 where
  pub site : Site
  pub piece : Piece
  pub found : get_elem? scenario.settlements index ≡ some site
  pub present : Map.get id pieces ≡ some piece
  pub owner : piece.owner ≡ player
  pub kind : kind_beq piece.kind pawn ≡ true
  pub place : piece.at ≡ site.at

-- A settlement at the start of a player's turn: as it was, or taken over by the candidate that stands
-- on its site.
abbrev pub Resolved :
    ScenarioDefinition → Map Piece → Player → SettlementState → SettlementState → Type 0
Resolved scenario pieces player s s' =
    (s' ≡ s)
    ⊎ ((id : PieceId) × (s.transfer_candidate ≡ some id)
        × Holds scenario pieces player s.site_index id
        × (s'.owner ≡ some player)
        × (s'.founder ≡ some id)
        × (s'.transfer_candidate ≡ none)
        × (s'.cycle_interrupted ≡ true)
        × (s'.established ≡ s.established))

survives-Holds :
    (scenario : ScenarioDefinition) (pieces : Map Piece) (player : Player) (index : ℕ)
    (id : PieceId) (site : Site)
    → get_elem? scenario.settlements index ≡ some site
    → candidate_survives pieces player site.at id ≡ true
    → Holds scenario pieces player index id
unfolding candidate_survives
survives-Holds scenario pieces player index id site found h =
    elim (Option-cases (Map.get id pieces)) [
      | inl gone ↦ let e = rw gone at h in cc
      | inr (piece, present) ↦
          let e = rw present at h in
          record {
            site = site;
            piece = piece;
            found = found;
            present = present;
            owner = ground (arith, e, player_beq_iff piece.owner player);
            kind = ground (arith, e);
            place = ground (arith, e, coord_beq_iff piece.at site.at);
          }
    ]

taken_over : Player → PieceId → SettlementState → SettlementState
taken_over player id s = record s {
  owner = some player;
  founder = some id;
  transfer_candidate = none;
  cycle_interrupted = true;
  completed_cycle_continuous = false;
}

resolve-missing :
    (scenario : ScenarioDefinition) (pieces : Map Piece) (player : Player) (s : SettlementState)
    (id : PieceId)
    → s.transfer_candidate ≡ some id
    → get_elem? scenario.settlements s.site_index ≡ none
    → resolve_candidate scenario pieces player s ≡ err (missing_settlement s.site_index)
unfolding resolve_candidate
resolve-missing scenario pieces player s id pending gone = ground (arith, pending, gone)

resolve-found :
    (scenario : ScenarioDefinition) (pieces : Map Piece) (player : Player) (s : SettlementState)
    (id : PieceId) (site : Site)
    → s.transfer_candidate ≡ some id
    → get_elem? scenario.settlements s.site_index ≡ some site
    → resolve_candidate scenario pieces player s
      ≡ ok (if candidate_survives pieces player site.at id then taken_over player id s else s)
unfolding resolve_candidate taken_over
resolve-found scenario pieces player s id site pending found = ground (arith, pending, found)

resolve-none :
    (scenario : ScenarioDefinition) (pieces : Map Piece) (player : Player) (s : SettlementState)
    → s.transfer_candidate ≡ none
    → resolve_candidate scenario pieces player s ≡ ok s
unfolding resolve_candidate
resolve-none scenario pieces player s nobody = ground (arith, nobody)

resolve-Resolved :
    (scenario : ScenarioDefinition) (pieces : Map Piece) (player : Player) (s : SettlementState)
    → Ensures (Resolved scenario pieces player s) (resolve_candidate scenario pieces player s)
unfolding taken_over
resolve-Resolved scenario pieces player s = elim (Option-cases s.transfer_candidate) [
  | inl nobody ↦ rw (resolve-none scenario pieces player s nobody) (inl refl)
  | inr (id, pending) ↦ elim (Option-cases (get_elem? scenario.settlements s.site_index)) [
    | inl gone ↦ rw (resolve-missing scenario pieces player s id pending gone) tt
    | inr (site, found) ↦
        rw (resolve-found scenario pieces player s id site pending found)
          (elim (Bool-cases (candidate_survives pieces player site.at id)) [
            | inl stands ↦ rw stands (
                inr (
                  id,
                  pending,
                  survives-Holds scenario pieces player s.site_index id site found stands,
                  refl,
                  refl,
                  refl,
                  refl,
                  refl,
                ))
            | inr left ↦ rw left (inl refl)
          ])
  ]
]

abbrev pub AllResolved : ScenarioDefinition → MatchState → Player → MatchState → Type 0
AllResolved scenario state player next =
    Pairwise (Resolved scenario state.pieces player) state.settlements next.settlements
    × (next.pieces ≡ state.pieces)

-- At the start of a player's turn each settlement stays as it was, or passes to the player because
-- the pawn that had contested it is the player's and still stands on its site; that pawn is then the
-- founder, the cycle counts as interrupted, and an established settlement stays established.
pub resolve_transfer_candidates-Resolved :
    (scenario : ScenarioDefinition) (state : MatchState) (player : Player)
    → Ensures
        (AllResolved scenario state player)
        (resolve_transfer_candidates scenario state player)
unfolding resolve_transfer_candidates
resolve_transfer_candidates-Resolved scenario state player =
    >>=-Ensures (Pairwise (Resolved scenario state.pieces player) state.settlements) _
      (each_settlement (resolve_candidate scenario state.pieces player) state.settlements) _
      (each-Pairwise (resolve_candidate scenario state.pieces player)
        (Resolved scenario state.pieces player) (resolve-Resolved scenario state.pieces player)
        state.settlements)
      λ settlements related. (related, refl)
