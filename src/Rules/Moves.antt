-- ===== src/Rules/Moves.antt =====
-- What `legal_moves` of crates/crownline_core/src/rules.rs lists.
use crownline.Prelude.{
  ◌≡◌, ◌↔◌, ◌⊎◌, Bool, true, false, not, ◌||◌, none, List, [], ◌∷◌, if◌then◌else◌, is_some, arith,
  In, In-append, In-sort_by, Result, ok, >>=-eq-ok,
}
use crownline.Scenario.Types.{ScenarioDefinition}
use crownline.State.Types.{Piece, MatchState, is_command}
use crownline.State.Errors.{TransitionError}
use crownline.State.Invariants.{validate_invariants}
use crownline.Board.Geometry.{new}
use crownline.Board.Moves.{LegalMove, legal_move_le, pseudo_legal_moves}
use crownline.Rules.Legality.{
  move_preserves_king, preserving_moves, piece_moves, active_pieces, legal_moves,
}

module _ (scenario : ScenarioDefinition) (state : MatchState) where
  preserving-In :
      (candidate : LegalMove) (moves : List LegalMove) {kept : List LegalMove}
      → preserving_moves scenario state moves ≡ ok kept
      → In candidate kept
        ↔ (In candidate moves × (move_preserves_king scenario state candidate ≡ ok true))
  unfolding preserving_moves
  preserving-In candidate [] h = ground arith
  preserving-In candidate (m ∷ rest) h =
      let (preserved, p, h') = >>=-eq-ok (move_preserves_king scenario state m) _ h in
      let (more, q, e) = >>=-eq-ok (preserving_moves scenario state rest) _ h' in
      ground (arith, preserving-In candidate rest q, p, e)

  -- The move is a pseudo-legal move of one of the pieces.
  abbrev pub PseudoLegal : List Piece → LegalMove → Type 0
  PseudoLegal [] candidate = ⊥
  PseudoLegal (piece ∷ rest) candidate =
      In candidate (pseudo_legal_moves (new scenario state) piece) ⊎ PseudoLegal rest candidate

  pieces-In :
      (candidate : LegalMove) (pieces : List Piece) {moves : List LegalMove}
      → piece_moves scenario state pieces ≡ ok moves
      → In candidate moves
        ↔ (PseudoLegal pieces candidate × (move_preserves_king scenario state candidate ≡ ok true))
  unfolding piece_moves
  pieces-In candidate [] h = ground arith
  pieces-In candidate (piece ∷ rest) h =
      let (kept, p, h') =
        >>=-eq-ok (preserving_moves scenario state (pseudo_legal_moves (new scenario state) piece))
          _ h in
      let (more, q, e) = >>=-eq-ok (piece_moves scenario state rest) _ h' in
      let first = preserving-In candidate (pseudo_legal_moves (new scenario state) piece) p in
      let others = pieces-In candidate rest q in
      ground (arith, first, others, In-append candidate kept more, e)

-- The result of a test that fails.
pub past :
    (test : Bool) (r : Result (List LegalMove) TransitionError) {moves : List LegalMove}
    → test ≡ false
    → (if test then ok [] else r) ≡ ok moves
    → r ≡ ok moves
past true r t h = cc
past false r t h = h

pub legal_moves-In :
    (scenario : ScenarioDefinition) (state : MatchState) (candidate : LegalMove)
    {moves : List LegalMove}
    → state.outcome ≡ none
    → is_command state.phase ≡ true
    → legal_moves scenario state ≡ ok moves
    → In candidate moves ↔ (
        PseudoLegal scenario state (active_pieces state) candidate
        × (move_preserves_king scenario state candidate ≡ ok true))
unfolding legal_moves
legal_moves-In scenario state candidate live waiting h =
    let (u, valid, h') = >>=-eq-ok (validate_invariants state) _ h in
    let (all, p, e) =
      >>=-eq-ok (piece_moves scenario state (active_pieces state)) _
        (past (is_some state.outcome || not (is_command state.phase)) _ (ground arith) h') in
    ground (
      arith,
      pieces-In scenario state candidate (active_pieces state) p,
      In-sort_by legal_move_le candidate all,
      e,
    )
