-- ===== src/Board/Agreement.antt =====
-- The two ways in which crates/crownline_core/src/rules.rs tells whether a piece strikes a square:
-- `attacks_from` lists the squares, and `attack_path_to` searches for a path.
use crownline.Prelude.{
  ℕ, zero, suc, ◌≡◌, inl, inr, refl, ◌||◌, Option, none, some, List, [], ◌∷◌, ◌++◌, Option-cases,
  is_some, or_find, contains, arith,
}
use crownline.Scenario.Types.{Coord, coord_eq, PieceKind, king, queen, rook, bishop, knight, pawn}
use crownline.State.Types.{Piece}
use crownline.Board.Geometry.{Board, Offset, offset_coord}
use crownline.Board.Rays.{
  ray_fuel, ray_loop, ray, attacks_along, slider_attacks, path_loop, slider_path,
}
use crownline.Board.Attacks.{attacks_from, attacks_of, attack_path_of, attack_path_to, short_path}

contains-append :
    (xs ys : List Coord) (at : Coord) → contains (xs ++ ys) at ≡ (contains xs at || contains ys at)
contains-append [] ys at = refl
contains-append (x ∷ xs) ys at = ground (arith, contains-append xs ys at)

is_some-or_find : (o p : Option (List Coord)) → is_some (or_find o p) ≡ (is_some o || is_some p)
is_some-or_find none p = refl
is_some-or_find (some path) p = refl

module _ (board : Board) (piece : Piece) (target : Coord) where
  loop-agrees :
      (fuel : ℕ) (direction : Offset) (current : Coord) (path : List Coord)
      → contains (attacks_along board (ray_loop fuel board piece direction current)) target
        ≡ is_some (path_loop fuel board piece target direction current path)
  unfolding ray_loop path_loop attacks_along
  loop-agrees zero direction current path = refl
  loop-agrees (suc fuel) direction current path =
      elim (Option-cases (offset_coord current direction)) [
        | inl gone ↦ rw (gone, contains, attacks_along, is_some) refl
        | inr (next, e) ↦
            rw (e, contains, attacks_along, is_some)
              (ground (arith, loop-agrees fuel direction next (path ++ next ∷ [])))
      ]

  slider-agrees :
      (directions : List Offset)
      → contains (slider_attacks board piece directions) target
        ≡ is_some (slider_path board piece target directions)
  unfolding slider_attacks slider_path ray
  slider-agrees [] = refl
  slider-agrees (d ∷ rest) =
      let head = loop-agrees (ray_fuel board) d piece.at (piece.at ∷ []) in
      let tail = slider-agrees rest in rw (contains-append, is_some-or_find, head, tail) refl

  short-agrees :
      (attacks : List Coord) → contains attacks target ≡ is_some (short_path piece target attacks)
  short-agrees attacks = ground arith

  kind-agrees :
      (kind : PieceKind)
      → contains (attacks_of kind board piece) target
        ≡ is_some (attack_path_of kind board piece target)
  kind-agrees queen = slider-agrees _
  kind-agrees rook = slider-agrees _
  kind-agrees bishop = slider-agrees _
  kind-agrees knight = short-agrees _
  kind-agrees king = short-agrees _
  kind-agrees pawn = short-agrees _

-- A square is among those that a piece strikes exactly if the search for a path to it finds one.
pub attacks_from-attack_path_to :
    (board : Board) (piece : Piece) (target : Coord)
    → contains (attacks_from board piece) target ≡ is_some (attack_path_to board piece target)
unfolding attacks_from attack_path_to
attacks_from-attack_path_to board piece target = kind-agrees board piece target piece.kind
