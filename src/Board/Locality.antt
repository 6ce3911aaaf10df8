-- ===== src/Board/Locality.antt =====
-- What of a board the attacks of crates/crownline_core/src/rules.rs read.
use crownline.Prelude.{
  ℕ, zero, suc, ◌≡◌, inl, inr, refl, sym, subst, List, [], ◌∷◌, Option-cases, any, keep, contains,
}
use crownline.Prelude.Map
use crownline.Scenario.Types.{
  Coord, coord_eq, Player, player_beq, PieceKind, king, queen, rook, bishop, knight, pawn,
  ScenarioDefinition,
}
use crownline.State.Types.{Piece, MatchState}
use crownline.Board.Geometry.{
  Board, new, occupant, Offset, offset_coord, terrain, projects, blocking_edge, first_blocking_edge,
  can_cross, jump_destination, step,
}
use crownline.Board.Rays.{
  ray_fuel, stops_before, stops_at, ray_loop, ray, attacks_along, slider_attacks,
}
use crownline.Board.Attacks.{
  jump_attacks, step_attacks, attacks_of, attacks_from, is_square_attacked,
}

module _ (board : Board) (s : MatchState) where
  abbrev moved_to : Board
  moved_to = record board { state = s }

  before-local :
      (piece : Piece) (current next : Coord)
      → stops_before moved_to piece current next ≡ stops_before board piece current next
  unfolding stops_before terrain can_cross first_blocking_edge blocking_edge projects
  before-local piece current next = refl

  at-local : (next : Coord) → stops_at moved_to next ≡ stops_at board next
  unfolding stops_at terrain
  at-local next = refl

  loop-local :
      (fuel : ℕ) (piece : Piece) (direction : Offset) (current : Coord)
      → ray_loop fuel moved_to piece direction current ≡ ray_loop fuel board piece direction current
  unfolding ray_loop
  loop-local zero piece direction current = refl
  loop-local (suc fuel) piece direction current =
      elim (Option-cases (offset_coord current direction)) [
        | inl gone ↦ rw (gone, ray_loop) refl
        | inr (next, e) ↦
            rw
              (
                e,
                ray_loop,
                before-local piece current next,
                at-local next,
                loop-local fuel piece direction next,
              )
              refl
      ]

  along-local :
      (squares : List Coord) → attacks_along moved_to squares ≡ attacks_along board squares
  unfolding attacks_along
  along-local [] = refl
  along-local (at ∷ rest) = rw (at-local at, along-local rest) refl

  slider-local :
      (piece : Piece) (directions : List Offset)
      → slider_attacks moved_to piece directions ≡ slider_attacks board piece directions
  unfolding slider_attacks ray
  slider-local piece [] = refl
  slider-local piece (d ∷ rest) =
      rw (loop-local (ray_fuel board) piece d piece.at, along-local, slider-local piece rest) refl

  kind-local :
      (kind : PieceKind) (piece : Piece)
      → attacks_of kind moved_to piece ≡ attacks_of kind board piece
  unfolding jump_attacks step_attacks jump_destination step terrain can_cross first_blocking_edge
      blocking_edge projects
  kind-local queen piece = slider-local piece _
  kind-local rook piece = slider-local piece _
  kind-local bishop piece = slider-local piece _
  kind-local knight piece = refl
  kind-local king piece = refl
  kind-local pawn piece = refl

  from-local : (piece : Piece) → attacks_from moved_to piece ≡ attacks_from board piece
  unfolding attacks_from
  from-local piece = kind-local piece.kind piece

  any-local :
      (at : Coord) (pieces : List Piece)
      → any (λ piece. contains (attacks_from moved_to piece) at) pieces
        ≡ any (λ piece. contains (attacks_from board piece) at) pieces
  any-local at [] = refl
  any-local at (piece ∷ rest) = rw (from-local piece, any-local at rest) refl

-- Two states with the same pieces have the same squares under attack.
pub is_square_attacked-pieces :
    (scenario : ScenarioDefinition) (a b : MatchState) (at : Coord) (by : Player)
    → b.pieces ≡ a.pieces
    → is_square_attacked (new scenario b) at by ≡ is_square_attacked (new scenario a) at by
unfolding is_square_attacked new
is_square_attacked-pieces scenario a b at by same =
    subst
      (λ m.
        any
          (λ piece.
            contains
              (attacks_from
                (record { scenario = scenario; state = b; occupancy = occupant (Map.values m) })
                piece)
              at)
          (keep (λ piece. player_beq piece.owner by) (Map.values m))
        ≡ is_square_attacked (new scenario a) at by)
      (sym same)
      (any-local (new scenario a) b at
        (keep (λ piece. player_beq piece.owner by) (Map.values a.pieces)))
