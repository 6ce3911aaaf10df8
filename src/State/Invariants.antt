-- ===== src/State/Invariants.antt =====
-- `validate_invariants` of crates/crownline_core/src/state.rs.
use crownline.Prelude.{
  ℕ, ◌+◌, ◌%◌, not, Option, none, some, List, [], ◌∷◌, nat_beq, if◌then◌else◌, contains, Result, ok,
  err, ◌>>=◌, ◌>>◌, ensure,
}
use crownline.Prelude.Map
use crownline.Prelude.Map.{Map}
use crownline.Scenario.Types.{Coord, coord_eq, north, south, player_beq, king, kind_beq}
use crownline.State.Types.{PieceId, Piece, SettlementState, MatchState}
use crownline.State.Errors.{
  TransitionError, mismatched_piece_id, duplicate_occupancy, invalid_king_count,
  dangling_piece_reference,
}

pub record KingCount : Type 0 where
  pub north : ℕ
  pub south : ℕ

-- The `u8` counters wrap in a release build.
abbrev pub count_king : Piece → KingCount → KingCount
count_king piece kings =
    if kind_beq piece.kind king
    then (if player_beq piece.owner north
        then record kings { north = (kings.north + 1) % 256 }
        else record kings { south = (kings.south + 1) % 256 })
    else kings

-- The loop over the pieces: each under its own key, on a square of its own.
unfoldable pub check_pieces : Map Piece → List Coord → KingCount → Result KingCount TransitionError
check_pieces [] occupied kings = ok kings
check_pieces ((id, piece) ∷ rest) occupied kings =
    let next = check_pieces rest (piece.at ∷ occupied) (count_king piece kings) in
    if not (nat_beq id piece.id)
    then err (mismatched_piece_id id)
    else if contains occupied piece.at
    then err (duplicate_occupancy piece.at)
    else next

-- The references of one settlement, in the order of the array that the source builds.
unfoldable pub check_reference : Map Piece → Option PieceId → Result (Unit {0}) TransitionError
check_reference pieces none = ok tt
check_reference pieces (some id) = ensure (Map.contains_key id pieces) (dangling_piece_reference id)

unfoldable pub check_settlements :
    Map Piece → List SettlementState → Result (Unit {0}) TransitionError
check_settlements pieces [] = ok tt
check_settlements pieces (s ∷ rest) = do
  check_reference pieces s.founder
  check_reference pieces s.produced_pawn
  check_reference pieces s.transfer_candidate
  check_settlements pieces rest

unfoldable pub check_kings : KingCount → Result (Unit {0}) TransitionError
check_kings kings = do
  ensure (nat_beq kings.north 1) (invalid_king_count north kings.north)
  ensure (nat_beq kings.south 1) (invalid_king_count south kings.south)

unfoldable pub validate_invariants : MatchState → Result (Unit {0}) TransitionError
validate_invariants state = do
  kings ← check_pieces state.pieces [] (record { north = 0; south = 0 })
  check_kings kings
  check_settlements state.pieces state.settlements
