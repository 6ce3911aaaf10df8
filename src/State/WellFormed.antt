-- ===== src/State/WellFormed.antt =====
-- The invariants of a match state, said without the loops of `validate_invariants`.
use crownline.Prelude.{
  ℕ, ◌+◌, ◌%◌, ◌<◌, ◌≡◌, ◌≢◌, ◌↔◌, refl, true, false, not, ◌&&◌, Option, none, some, List, [], ◌∷◌,
  arith, nat_beq, if◌then◌else◌, contains, ok, Ensures, >>=-eq-ok, Ensures-ok, Ensures-map,
  else-Ensures,
}
use crownline.Prelude.Map
use crownline.Prelude.Map.{Map}
use crownline.Scenario.Types.{
  Coord, coord_beq_iff, coord_eq, Player, north, south, player_beq, king, kind_beq,
}
use crownline.State.Types.{PieceId, Piece, SettlementState, MatchState}
use crownline.State.Invariants.{
  KingCount, count_king, check_pieces, check_reference, check_settlements, check_kings,
  validate_invariants,
}

-- Every piece stands under its own identifier.
abbrev pub Keyed : Map Piece → Type 0
Keyed [] = Unit {0}
Keyed ((id, piece) ∷ rest) = (piece.id ≡ id) × Keyed rest

-- No piece of the map stands on the square.
abbrev pub Clear : Coord → Map Piece → Type 0
Clear at [] = Unit {0}
Clear at ((id, piece) ∷ rest) = (piece.at ≢ at) × Clear at rest

-- No two pieces share a square.
abbrev pub Spread : Map Piece → Type 0
Spread [] = Unit {0}
Spread ((id, piece) ∷ rest) = Clear piece.at rest × Spread rest

abbrev pub kings_of : Player → Map Piece → ℕ
kings_of player [] = 0
kings_of player ((id, piece) ∷ rest) =
    (if kind_beq piece.kind king && player_beq piece.owner player then 1 else 0)
    + kings_of player rest

-- A reference names a living piece.
abbrev pub Resolves : Map Piece → Option PieceId → Type 0
Resolves pieces none = Unit {0}
Resolves pieces (some id) = Map.contains_key id pieces ≡ true

abbrev pub References : Map Piece → List SettlementState → Type 0
References pieces [] = Unit {0}
References pieces (s ∷ rest) =
    Resolves pieces s.founder
    × Resolves pieces s.produced_pawn
    × Resolves pieces s.transfer_candidate
    × References pieces rest

-- The kings are counted in a `u8`, so the source sees their number modulo 256.
pub record WellFormed (state : MatchState) : Type 0 where
  pub keyed : Keyed state.pieces
  pub spread : Spread state.pieces
  pub north_king : kings_of north state.pieces % 256 ≡ 1
  pub south_king : kings_of south state.pieces % 256 ≡ 1
  pub references : References state.pieces state.settlements

-- None of the squares seen so far is used again.
abbrev Avoids : List Coord → Map Piece → Type 0
Avoids occupied [] = Unit {0}
Avoids occupied ((id, piece) ∷ rest) = (contains occupied piece.at ≡ false) × Avoids occupied rest

Avoids-cons :
    (at : Coord) (occupied : List Coord) (m : Map Piece)
    → Avoids (at ∷ occupied) m
    → Clear at m × Avoids occupied m
Avoids-cons at occupied [] h = (tt, tt)
Avoids-cons at occupied ((id, piece) ∷ rest) h =
    ground (arith, Avoids-cons at occupied rest h.1, coord_beq_iff at piece.at)

Avoids-Clear :
    (at : Coord) (occupied : List Coord) (m : Map Piece)
    → Clear at m
    → Avoids occupied m
    → Avoids (at ∷ occupied) m
Avoids-Clear at occupied [] h k = tt
Avoids-Clear at occupied ((id, piece) ∷ rest) h k =
    ground (arith, Avoids-Clear at occupied rest h.1 k.1, coord_beq_iff at piece.at)

-- What the loop has found when it succeeds.
abbrev Counted : Map Piece → List Coord → KingCount → KingCount → Type 0
Counted m occupied start found =
    Keyed m
    × Spread m
    × Avoids occupied m
    × (found.north ≡ (start.north + kings_of north m) % 256)
    × (found.south ≡ (start.south + kings_of south m) % 256)

count_king_bounds :
    (piece : Piece) (start : KingCount)
    → start.north < 256
    → start.south < 256
    → ((count_king piece start).north < 256) × ((count_king piece start).south < 256)
count_king_bounds piece start hn hs = ground arith

Counted-cons :
    (id : PieceId) (piece : Piece) (rest : Map Piece) (occupied : List Coord)
    (start found : KingCount)
    → start.north < 256
    → start.south < 256
    → piece.id ≡ id
    → contains occupied piece.at ≡ false
    → Counted rest (piece.at ∷ occupied) (count_king piece start) found
    → Counted ((id, piece) ∷ rest) occupied start found
Counted-cons id piece rest occupied start found hn hs e free (keyed, spread, avoids, n, s) =
    let (clear, avoids') = Avoids-cons piece.at occupied rest avoids in
    ((e, keyed), (clear, spread), (free, avoids'), ground (arith, n), ground (arith, s))

check_pieces-Counted :
    (m : Map Piece) (occupied : List Coord) (start : KingCount)
    → start.north < 256
    → start.south < 256
    → Ensures (Counted m occupied start) (check_pieces m occupied start)
unfolding check_pieces
check_pieces-Counted [] occupied start hn hs = ground arith
check_pieces-Counted ((id, piece) ∷ rest) occupied start hn hs =
    else-Ensures _ (not (nat_beq id piece.id)) _ _ λ keyed.
      else-Ensures _ (contains occupied piece.at) _ _ λ free.
        Ensures-map _ _ (check_pieces rest (piece.at ∷ occupied) (count_king piece start))
          (λ found. Counted-cons id piece rest occupied start found hn hs (ground arith) free)
          (check_pieces-Counted rest (piece.at ∷ occupied) (count_king piece start)
            (count_king_bounds piece start hn hs).0 (count_king_bounds piece start hn hs).1)

-- The loop succeeds on what it is meant to accept.
check_pieces-total :
    (m : Map Piece) (occupied : List Coord) (start : KingCount)
    → Keyed m
    → Spread m
    → Avoids occupied m
    → (found : KingCount) × (check_pieces m occupied start ≡ ok found)
unfolding check_pieces
check_pieces-total [] occupied start k s a = (start, refl)
check_pieces-total ((id, piece) ∷ rest) occupied start (e, k) (clear, s) (free, a) =
    let (found, h) =
      check_pieces-total rest (piece.at ∷ occupied) (count_king piece start) k s
        (Avoids-Clear piece.at occupied rest clear a) in
    (found, ground (arith, h))

check_reference_iff :
    (pieces : Map Piece) (r : Option PieceId)
    → (check_reference pieces r ≡ ok tt) ↔ Resolves pieces r
unfolding check_reference
check_reference_iff pieces none = (λ _. tt, λ _. refl)
check_reference_iff pieces (some id) = ground arith

check_settlements-References :
    (pieces : Map Piece) (l : List SettlementState)
    → check_settlements pieces l ≡ ok tt
    → References pieces l
unfolding check_settlements check_reference
check_settlements-References pieces [] h = tt
check_settlements-References pieces (s ∷ rest) h =
    ground (arith, check_settlements-References pieces rest)

References-check_settlements :
    (pieces : Map Piece) (l : List SettlementState)
    → References pieces l
    → check_settlements pieces l ≡ ok tt
unfolding check_settlements check_reference
References-check_settlements pieces [] h = refl
References-check_settlements pieces (s ∷ rest) h =
    ground (arith, References-check_settlements pieces rest h.3)

abbrev none_yet : KingCount
none_yet = record { north = 0; south = 0 }

Avoids-nil : (m : Map Piece) → Avoids [] m
Avoids-nil [] = tt
Avoids-nil ((id, piece) ∷ rest) = (refl, Avoids-nil rest)

Counted-found :
    (m : Map Piece) (found : KingCount)
    → check_pieces m [] none_yet ≡ ok found
    → Counted m [] none_yet found
Counted-found m found h =
    Ensures-ok (Counted m [] none_yet) _ h
      (check_pieces-Counted m [] none_yet (omega arith) (omega arith))

-- `validate_invariants` accepts only well-formed states.
pub validate-WellFormed :
    (state : MatchState) → validate_invariants state ≡ ok tt → WellFormed state
unfolding validate_invariants check_kings
validate-WellFormed state h =
    let (found, e, h') = >>=-eq-ok (check_pieces state.pieces [] none_yet) _ h in
    let (u, kings, references) = >>=-eq-ok (check_kings found) _ h' in
    let c = Counted-found state.pieces found e in
    record {
      keyed = c.0;
      spread = c.1;
      north_king = ground (arith, c.3);
      south_king = ground (arith, c.4);
      references = check_settlements-References state.pieces state.settlements references;
    }

-- And it accepts all of them.
pub WellFormed-validate :
    (state : MatchState) → WellFormed state → validate_invariants state ≡ ok tt
unfolding validate_invariants check_kings
WellFormed-validate state w =
    let (found, e) =
      check_pieces-total state.pieces [] none_yet w.keyed w.spread (Avoids-nil state.pieces) in
    let c = Counted-found state.pieces found e in
    ground (
      arith,
      e,
      c.3,
      c.4,
      w.north_king,
      w.south_king,
      References-check_settlements state.pieces state.settlements w.references,
    )
