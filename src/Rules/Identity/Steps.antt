-- ===== src/Rules/Identity/Steps.antt =====
-- What a move does to the piece identifiers.
use crownline.Prelude.{inl, inr, refl, none, ensure, ok_or, find, any, not, Option-cases, Ensures}
use crownline.Prelude.Map
use crownline.Prelude.Map.{Map}
use crownline.Scenario.Types.{king, kind_beq, Coord, Player, ScenarioDefinition}
use crownline.State.Types.{PieceId, Piece, MatchState}
use crownline.State.Errors.{cannot_capture_king, invalid_castling_route}
use crownline.State.Steps.{from_step, from_state, weaken}
use crownline.Board.Moves.{
  MoveKind, quiet, capture, en_passant_capture, castle, pawn_double_step, LegalMove,
}
use crownline.Rules.Moving.{
  piece_of, castling_route_for, is_castling_rook, clear_piece_references,
  remove_castling_right_for_rook, apply_castling_rook, apply_capture, apply_move_kind,
  drop_castling_rights, set_en_passant, relocate, apply_move_unchecked,
}
use crownline.Rules.Command.{ensure_command_actor, chosen_move, finish_command, apply_move}
use crownline.Rules.Identity.Same.{
  SamePieces, drop-SamePieces, en_passant-SamePieces, finish-SamePieces,
}
use crownline.Rules.Identity.Maps.{
  Issued-get, Issued-remove, Issued-insert, Issued-castling, Issues, Issues-same, Issues-pieces,
}

module _ (scenario : ScenarioDefinition) (a : MatchState) where
  capture-Issues :
      (b : MatchState) (captured : PieceId)
      → Issues a b
      → Ensures (Issues a) (apply_capture scenario b captured)
  unfolding apply_capture clear_piece_references remove_castling_right_for_rook
  capture-Issues b captured i = from_step (Issues a) (piece_of b captured) _ λ victim _.
      from_step (Issues a) (ensure (not (kind_beq victim.kind king)) cannot_capture_king) _ λ _ _.
        Issues-pieces a b _ i refl (Issued-remove a b.next_piece_id captured b.pieces i.issued)

  castling-Issues :
      (b : MatchState) (royal : Piece) (to : Coord)
      → Issues a b
      → Ensures (Issues a) (apply_castling_rook scenario b royal to)
  unfolding apply_castling_rook
  castling-Issues b royal to i =
      from_step (Issues a)
        (ok_or (find (castling_route_for scenario b royal to) scenario.castling_routes)
          invalid_castling_route)
        _
        λ route _.
          from_step (Issues a)
            (ensure (any (is_castling_rook royal route) (Map.values b.pieces))
              invalid_castling_route)
            _
            λ _ _.
              Issues-pieces a b _ i refl
                (Issued-castling a b.next_piece_id royal route b.pieces i.issued)

  move_kind-Issues :
      (b : MatchState) (moving : Piece) (to : Coord) (kind : MoveKind)
      → Issues a b
      → Ensures (Issues a) (apply_move_kind scenario b moving to kind)
  unfolding apply_move_kind
  move_kind-Issues b moving to (capture captured) i = capture-Issues b captured i
  move_kind-Issues b moving to (en_passant_capture captured) i = capture-Issues b captured i
  move_kind-Issues b moving to castle i = castling-Issues b moving to i
  move_kind-Issues b moving to quiet i = i
  move_kind-Issues b moving to pawn_double_step i = i

  relocate-Issues :
      (b : MatchState) (id : PieceId) (to : Coord)
      → Issues a b
      → Ensures (Issues a) (relocate b id to)
  unfolding relocate piece_of
  relocate-Issues b id to i = elim (Option-cases (Map.get id b.pieces)) [
    | inl gone ↦ rw gone tt
    | inr (p, found) ↦ rw found (
        let known = Issued-get a b.next_piece_id id b.pieces p i.issued found in
        Issues-pieces a b _ i refl
          (Issued-insert a b.next_piece_id id _ b.pieces known.0 known.1 i.issued))
  ]

  apply_move_unchecked-Issues :
      (b : MatchState) (candidate : LegalMove)
      → Issues a b
      → Ensures (Issues a) (apply_move_unchecked scenario b candidate)
  unfolding apply_move_unchecked
  apply_move_unchecked-Issues b candidate i =
      from_step (Issues a) (piece_of b candidate.piece) _ λ moving _.
        from_state (Issues a) (Issues a)
          (apply_move_kind scenario (record b { en_passant = none }) moving candidate.to
            candidate.kind)
          _
          (move_kind-Issues (record b { en_passant = none }) moving candidate.to candidate.kind
            (Issues-same a b (record b { en_passant = none }) i (refl, refl)))
          λ taken j.
            from_state (Issues a) (Issues a) (relocate taken candidate.piece candidate.to) _
              (relocate-Issues taken candidate.piece candidate.to j)
              λ moved k.
                weaken (SamePieces (drop_castling_rights scenario moved moving)) (Issues a)
                  (set_en_passant scenario (drop_castling_rights scenario moved moving) moving
                    candidate.to candidate.kind)
                  (λ c same.
                    Issues-same a (drop_castling_rights scenario moved moving) c
                      (Issues-same a moved (drop_castling_rights scenario moved moving) k
                        (drop-SamePieces scenario moved moving))
                      same)
                  (en_passant-SamePieces scenario (drop_castling_rights scenario moved moving)
                    moving candidate.to candidate.kind)

  pub apply_move-Issues :
      (b : MatchState) (player : Player) (id : PieceId) (to : Coord)
      → Issues a b
      → Ensures (Issues a) (apply_move scenario b player id to)
  unfolding apply_move
  apply_move-Issues b player id to i = from_step (Issues a) (ensure_command_actor b player) _ λ _ _.
      from_step (Issues a) (chosen_move scenario b id to) _ λ candidate _.
        from_state (Issues a) (Issues a) (apply_move_unchecked scenario b candidate) _
          (apply_move_unchecked-Issues b candidate i)
          λ next j.
            weaken (SamePieces next) (Issues a) (finish_command scenario next player)
              (λ c. Issues-same a next c j) (finish-SamePieces scenario next player)
