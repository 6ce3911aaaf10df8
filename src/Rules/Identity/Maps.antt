-- ===== src/Rules/Identity/Maps.antt =====
-- Piece identifiers in a map of pieces, and what the map's operations do to them.
use crownline.Prelude.{
  ℕ, ◌≤◌, ◌<◌, ◌≡◌, ◌⊎◌, inl, inr, true, some, [], ◌∷◌, arith, ltb, nat_beq, nat_beq_iff, subst,
  Bool-cases,
}
use crownline.Prelude.Map
use crownline.Prelude.Map.{Map}
use crownline.Scenario.Types.{CastlingRoute}
use crownline.State.Types.{PieceId, Piece, MatchState}
use crownline.Rules.Moving.{move_castling_rook}
use crownline.Rules.Identity.Same.{SamePieces}

-- Each identifier of the map is below the next one, and is one that the match had before or one
-- that had not been given out then.
abbrev pub Issued : MatchState → ℕ → Map Piece → Type 0
Issued a next [] = Unit {0}
Issued a next ((id, piece) ∷ rest) =
    (id < next)
    × ((Map.contains_key id a.pieces ≡ true) ⊎ (a.next_piece_id ≤ id))
    × Issued a next rest

-- Every identifier on the board has been given out.
abbrev pub Below : ℕ → Map Piece → Type 0
Below next [] = Unit {0}
Below next ((id, piece) ∷ rest) = (id < next) × Below next rest

module _ (a : MatchState) (next : ℕ) where
  pub Issued-get :
      (id : PieceId) (m : Map Piece) (p : Piece)
      → Issued a next m
      → Map.get id m ≡ some p
      → (id < next) × ((Map.contains_key id a.pieces ≡ true) ⊎ (a.next_piece_id ≤ id))
  unfolding Map.get
  Issued-get id [] p h e = cc
  Issued-get id ((j, q) ∷ rest) p h e = elim (Bool-cases (nat_beq j id)) [
    | inl hit ↦
        subst (λ k. (k < next) × ((Map.contains_key k a.pieces ≡ true) ⊎ (a.next_piece_id ≤ k)))
          ((nat_beq_iff j id).0 hit) (h.0, h.1)
    | inr miss ↦ Issued-get id rest p h.2 (rw miss at e)
  ]

  pub Issued-remove :
      (id : PieceId) (m : Map Piece) → Issued a next m → Issued a next (Map.remove id m)
  unfolding Map.remove
  Issued-remove id [] h = tt
  Issued-remove id ((j, q) ∷ rest) h = ground (arith, Issued-remove id rest h.2)

  pub Issued-insert :
      (id : PieceId) (p : Piece) (m : Map Piece)
      → id < next
      → (Map.contains_key id a.pieces ≡ true) ⊎ (a.next_piece_id ≤ id)
      → Issued a next m
      → Issued a next (Map.insert id p m)
  unfolding Map.insert
  Issued-insert id p [] b c h = (b, c, tt)
  Issued-insert id p ((j, q) ∷ rest) b c h = elim (Bool-cases (ltb id j)) [
    | inl before ↦ rw before (b, c, h)
    | inr after ↦ rw after (elim (Bool-cases (nat_beq j id)) [
      | inl here ↦ rw here (b, c, h.2)
      | inr beyond ↦ rw beyond (h.0, h.1, Issued-insert id p rest b c h.2)
    ])
  ]

  pub Issued-castling :
      (royal : Piece) (route : CastlingRoute) (m : Map Piece)
      → Issued a next m
      → Issued a next (move_castling_rook royal route m)
  unfolding move_castling_rook
  Issued-castling royal route [] h = tt
  Issued-castling royal route ((j, q) ∷ rest) h =
      ground (arith, Issued-castling royal route rest h.2)

pub Issued-mono :
    (a : MatchState) (n n' : ℕ) (m : Map Piece) → n ≤ n' → Issued a n m → Issued a n' m
Issued-mono a n n' [] le h = tt
Issued-mono a n n' ((id, p) ∷ rest) le h = (omega arith, h.1, Issued-mono a n n' rest le h.2)

-- `b` was reached from `a` without giving an identifier out twice.
pub record Issues (a b : MatchState) : Type 0 where
  pub issued : Issued a b.next_piece_id b.pieces
  pub grows : a.next_piece_id ≤ b.next_piece_id

pub Issues-same : (a b c : MatchState) → Issues a b → SamePieces b c → Issues a c
Issues-same a b c i (p, n) = record { issued = rw (p, n) i.issued; grows = rw n i.grows }

pub Issues-pieces :
    (a b c : MatchState)
    → Issues a b
    → c.next_piece_id ≡ b.next_piece_id
    → Issued a b.next_piece_id c.pieces
    → Issues a c
Issues-pieces a b c i n h = record { issued = rw n h; grows = rw n i.grows }
