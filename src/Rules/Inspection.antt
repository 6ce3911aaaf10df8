-- ===== src/Rules/Inspection.antt =====
-- `inspect_move`, `attack_lines_on` and the order of the legal moves in
-- crates/crownline_core/src/rules.rs.
use crownline.Prelude.{
  ℕ, ◌≡◌, inl, inr, refl, Bool, true, false, not, ◌||◌, Option, none, some, List, [], ◌∷◌,
  Bool-cases, Option-cases, is_some, is_none, is_empty, any, keep, contains, arith, leb, nat_beq,
  subst, In, find-In, keep-In, Sorted, sort_by-Sorted, Ensures, >>=-Ensures_any, Result, ok, ensure,
  ok_or, >>=-eq-ok, string_eq,
}
use crownline.Prelude.Map
use crownline.Prelude.Map.{Map}
use crownline.Scenario.Types.{
  Coord, coord_beq, coord_eq, is_within, Player, player_beq, ScenarioDefinition,
}
use crownline.State.Types.{PieceId, Piece, MatchState, is_command}
use crownline.State.Errors.{
  TransitionError, match_finished, wrong_turn_phase, coordinate_out_of_bounds, missing_piece,
  wrong_player,
}
use crownline.State.Invariants.{validate_invariants}
use crownline.State.Vision.{check_context}
use crownline.Board.Geometry.{new}
use crownline.Board.Attacks.{attacks_from, attack_path_to, is_square_attacked}
use crownline.Board.Agreement.{attacks_from-attack_path_to}
use crownline.Board.Moves.{LegalMove, move_kind_rank, lex, legal_move_le, pseudo_legal_moves}
use crownline.Rules.Legality.{
  move_preserves_king, piece_moves, active_pieces, legal_moves, MoveInspection, legal,
  inspect_candidate, inspect_move, attack_lines,
}
use crownline.Rules.Moves.{PseudoLegal, legal_moves-In}

lines-attacked :
    (scenario : ScenarioDefinition) (state : MatchState) (target : Coord) (pieces : List Piece)
    → not (is_empty (attack_lines scenario state target pieces))
      ≡ any (λ piece. contains (attacks_from (new scenario state) piece) target) pieces
unfolding attack_lines
lines-attacked scenario state target [] = refl
lines-attacked scenario state target (piece ∷ rest) =
    let agree = attacks_from-attack_path_to (new scenario state) piece target in
    elim (Option-cases (attack_path_to (new scenario state) piece target)) [
      | inl nowhere ↦
          rw (nowhere, attack_lines, agree, nowhere, is_some)
            (lines-attacked scenario state target rest)
      | inr (path, e) ↦ rw (e, attack_lines, agree, e, is_some) refl
    ]

-- There is a line of attack on a square exactly if the square is attacked.
pub attack_lines-is_square_attacked :
    (scenario : ScenarioDefinition) (state : MatchState) (target : Coord) (by : Player)
    → not (
        is_empty (
          attack_lines scenario state target
            (keep (λ piece. player_beq piece.owner by) (Map.values state.pieces))))
      ≡ is_square_attacked (new scenario state) target by
unfolding is_square_attacked new
attack_lines-is_square_attacked scenario state target by =
    lines-attacked scenario state target
      (keep (λ piece. player_beq piece.owner by) (Map.values state.pieces))

move_le_total : (a b : LegalMove) → legal_move_le a b ≡ false → legal_move_le b a ≡ true
unfolding legal_move_le
move_le_total a b h = ground (arith, h)

lex_trans :
    (a b c : ℕ) (p q r : Bool)
    → (p ≡ true → q ≡ true → r ≡ true)
    → lex a b p ≡ true
    → lex b c q ≡ true
    → lex a c r ≡ true
lex_trans a b c p q r f h k = ground (arith, f, h, k)

leb_trans : (a b c : ℕ) → leb a b ≡ true → leb b c ≡ true → leb a c ≡ true
leb_trans a b c h k = ground (arith, h, k)

move_le_trans :
    (a b c : LegalMove)
    → legal_move_le a b ≡ true
    → legal_move_le b c ≡ true
    → legal_move_le a c ≡ true
unfolding legal_move_le
move_le_trans a b c = lex_trans a.piece b.piece c.piece _ _ _ (
    lex_trans a.from.x b.from.x c.from.x _ _ _ (
      lex_trans a.from.y b.from.y c.from.y _ _ _ (
        lex_trans a.to.x b.to.x c.to.x _ _ _ (
          lex_trans a.to.y b.to.y c.to.y _ _ _ (
            lex_trans (move_kind_rank a.kind).0 (move_kind_rank b.kind).0 (move_kind_rank c.kind).0
              _ _ _
              (leb_trans (move_kind_rank a.kind).1 (move_kind_rank b.kind).1
                (move_kind_rank c.kind).1))))))

-- The legal moves come in their order: by piece, then by squares, then by kind.
pub legal_moves-Sorted :
    (scenario : ScenarioDefinition) (state : MatchState)
    → Ensures (Sorted legal_move_le) (legal_moves scenario state)
unfolding legal_moves
legal_moves-Sorted scenario state =
    >>=-Ensures_any (Sorted legal_move_le) (validate_invariants state) _ λ _ _.
      elim (Bool-cases (is_some state.outcome || not (is_command state.phase))) [
        | inl over ↦ rw over tt
        | inr on ↦ rw on (
            >>=-Ensures_any (Sorted legal_move_le)
              (piece_moves scenario state (active_pieces state)) _
              λ all _. sort_by-Sorted legal_move_le move_le_total move_le_trans all)
      ]

legal-injective :
    {c m : LegalMove}
    → ◌≡◌ {A = Result MoveInspection TransitionError} (ok (legal c)) (ok (legal m))
    → c ≡ m
legal-injective h = cc

candidate-legal :
    (scenario : ScenarioDefinition) (state : MatchState) (o : Option LegalMove) {m : LegalMove}
    → inspect_candidate scenario state o ≡ ok (legal m)
    → (o ≡ some m) × (move_preserves_king scenario state m ≡ ok true)
unfolding inspect_candidate
candidate-legal scenario state none h = cc
candidate-legal scenario state (some c) {m} h =
    let (preserved, p, e) = >>=-eq-ok (move_preserves_king scenario state c) _ h in
    elim (Bool-cases preserved) [
      | inl keeps ↦
          let same : c ≡ m = legal-injective (rw keeps at e) in
          subst (λ x. (some c ≡ some x) × (move_preserves_king scenario state x ≡ ok true)) same
            (refl, rw keeps at p)
      | inr exposes ↦ let e' = rw exposes at e in cc
    ]

get-In :
    (id : PieceId) (pieces : Map Piece) {piece : Piece}
    → Map.get id pieces ≡ some piece
    → In piece (Map.values pieces)
unfolding Map.get
get-In id [] h = cc
get-In id ((j, p) ∷ rest) h = elim (Bool-cases (nat_beq j id)) [
  | inl hit ↦ let e = rw hit at h in inl cc
  | inr miss ↦ inr (get-In id rest (rw miss at h))
]

pseudo-PseudoLegal :
    (scenario : ScenarioDefinition) (state : MatchState) (piece : Piece) (pieces : List Piece)
    (m : LegalMove)
    → In piece pieces
    → In m (pseudo_legal_moves (new scenario state) piece)
    → PseudoLegal scenario state pieces m
pseudo-PseudoLegal scenario state piece [] m h k = ground (arith, h)
pseudo-PseudoLegal scenario state piece (p ∷ rest) m (inl same) k =
    inl (subst (λ q. In m (pseudo_legal_moves (new scenario state) q)) same k)
pseudo-PseudoLegal scenario state piece (p ∷ rest) m (inr later) k =
    inr (pseudo-PseudoLegal scenario state piece rest m later k)

-- A move that the inspection of a piece and a square calls legal is one of the legal moves.
pub inspect_move-In :
    (scenario : ScenarioDefinition) (state : MatchState) (id : PieceId) (to : Coord) (m : LegalMove)
    {moves : List LegalMove}
    → inspect_move scenario state id to ≡ ok (legal m)
    → legal_moves scenario state ≡ ok moves
    → In m moves
unfolding inspect_move active_pieces
inspect_move-In scenario state id to m h listed =
    let (u0, e0, h0) = >>=-eq-ok (check_context scenario state) _ h in
    let (u1, e1, h1) = >>=-eq-ok (ensure (is_none state.outcome) match_finished) _ h0 in
    let (u2, e2, h2) = >>=-eq-ok (ensure (is_command state.phase) wrong_turn_phase) _ h1 in
    let (u3, e3, h3) =
      >>=-eq-ok (ensure (is_within to scenario.board) (coordinate_out_of_bounds to)) _ h2 in
    let (piece, e4, h4) = >>=-eq-ok (ok_or (Map.get id state.pieces) (missing_piece id)) _ h3 in
    let (u5, e5, h5) =
      >>=-eq-ok
        (ensure (player_beq piece.owner state.active_player)
          (wrong_player state.active_player piece.owner))
        _ h4 in
    let (found, safe) = candidate-legal scenario state _ h5 in
    let mine =
      keep-In (λ p. player_beq p.owner state.active_player) piece (Map.values state.pieces)
        (get-In id state.pieces (ground (arith, e4))) (ground (arith, e5)) in
    (legal_moves-In scenario state m (ground (arith, e1)) (ground (arith, e2)) listed).1 (
      pseudo-PseudoLegal scenario state piece _ m mine
          (find-In (λ c. coord_beq c.to to) (pseudo_legal_moves (new scenario state) piece) found),
      safe,
    )
