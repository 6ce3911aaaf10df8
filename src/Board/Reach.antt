-- ===== src/Board/Reach.antt =====
-- The squares that the sliding loops of crates/crownline_core/src/rules.rs visit, and their fuel.
use crownline.Prelude.{
  ℕ, zero, suc, ◌+◌, ◌-◌, ◌<◌, ◌≡◌, inl, inr, refl, ◌∙◌, Bool, true, false, some, arith, In,
  Bool-cases, Option-cases, pos, negsuc,
}
use crownline.Scenario.Types.{Coord, is_within, is_mountain}
use crownline.State.Types.{Piece}
use crownline.Board.Geometry.{Board, Offset, offset_axis, offset_coord, terrain, can_cross}
use crownline.Board.Rays.{ray_fuel, stops_before, stops_at, ray_loop, ray}

-- The square is on the board and no mountain.
abbrev pub Enterable : Board → Coord → Type 0
Enterable board at =
    (is_within at board.scenario.board ≡ true) × (is_mountain (terrain board at) ≡ false)

-- What the first test of a round lets through.
before-Enterable :
    (board : Board) (piece : Piece) (current next : Coord)
    → stops_before board piece current next ≡ false
    → Enterable board next × (can_cross board piece current next ≡ true)
unfolding stops_before
before-Enterable board piece current next h = ground arith

Enterable-eq :
    (board : Board) (at next : Coord) → at ≡ next → Enterable board next → Enterable board at
Enterable-eq board at next e h = rw e h

loop-Enterable :
    (fuel : ℕ) (board : Board) (piece : Piece) (direction : Offset) (current at : Coord)
    → In at (ray_loop fuel board piece direction current)
    → Enterable board at
unfolding ray_loop
loop-Enterable zero board piece direction current at h = ground arith
loop-Enterable (suc fuel) board piece direction current at h =
    elim (Option-cases (offset_coord current direction)) [
      | inl gone ↦ let e = rw (gone, ray_loop) at h in ground (arith, e)
      | inr (next, e) ↦
          let h' = rw (e, ray_loop) at h in
          elim (Bool-cases (stops_before board piece current next)) [
            | inl stop ↦ ground (arith, h', stop)
            | inr free ↦
                let first : at ≡ next → Enterable board at = λ same.
                  Enterable-eq board at next same
                    (before-Enterable board piece current next free).0 in
                let later = loop-Enterable fuel board piece direction next at in
                elim (Bool-cases (stops_at board next)) [
                  | inl last ↦ elim (rw (free, last) at h') [
                    | inl same ↦ first same
                    | inr none_left ↦ ground (arith, none_left)
                  ]
                  | inr on ↦ elim (rw (free, on) at h') [
                    | inl same ↦ first same
                    | inr further ↦ later further
                  ]
                ]
          ]
    ]

-- The direction leads somewhere.
abbrev pub is_moving : Offset → Bool
is_moving (pos zero, pos zero) = false
is_moving (pos zero, pos (suc n)) = true
is_moving (pos zero, negsuc n) = true
is_moving (pos (suc n), dy) = true
is_moving (negsuc n, dy) = true

-- The squares that are left in the direction.
abbrev room : Board → Offset → Coord → ℕ
room board (pos zero, pos n) c = board.scenario.board.height - c.y
room board (pos zero, negsuc n) c = c.y
room board (pos (suc n), dy) c = board.scenario.board.width - c.x
room board (negsuc n, dy) c = c.x

room-step :
    (board : Board) (direction : Offset) (c next : Coord)
    → is_moving direction ≡ true
    → offset_coord c direction ≡ some next
    → is_within next board.scenario.board ≡ true
    → room board direction next < room board direction c
unfolding offset_coord offset_axis
room-step board (pos zero, pos zero) c next m e w = cc
room-step board (pos zero, pos (suc n)) c next m e w = ground (arith, e, w)
room-step board (pos zero, negsuc n) c next m e w = ground (arith, e, w)
room-step board (pos (suc n), dy) c next m e w = ground (arith, e, w)
room-step board (negsuc n, dy) c next m e w = ground (arith, e, w)

-- One round more makes no difference to a loop with fuel for all its squares.
loop-stable :
    (fuel : ℕ) (board : Board) (piece : Piece) (direction : Offset) (current : Coord)
    → is_moving direction ≡ true
    → room board direction current < fuel
    → ray_loop (suc fuel) board piece direction current
      ≡ ray_loop fuel board piece direction current
unfolding ray_loop
loop-stable zero board piece direction current m h = ground (arith, h)
loop-stable (suc fuel) board piece direction current m h =
    elim (Option-cases (offset_coord current direction)) [
      | inl gone ↦ rw (gone, ray_loop) refl
      | inr (next, e) ↦ elim (Bool-cases (stops_before board piece current next)) [
        | inl stop ↦ rw (e, ray_loop, stop) refl
        | inr free ↦
            let enter = before-Enterable board piece current next free in
            let less = room-step board direction current next m e enter.0.0 in
            let same = loop-stable fuel board piece direction next m (omega (arith, less, h)) in
            rw (e, ray_loop, free, same) refl
      ]
    ]

plus_zero : (n : ℕ) → 0 + n ≡ n
plus_zero n = omega arith

plus_suc : (m n : ℕ) → suc m + n ≡ suc (m + n)
plus_suc m n = omega arith

loop-enough :
    (extra fuel : ℕ) (board : Board) (piece : Piece) (direction : Offset) (current : Coord)
    → is_moving direction ≡ true
    → room board direction current < fuel
    → ray_loop (extra + fuel) board piece direction current
      ≡ ray_loop fuel board piece direction current
loop-enough zero fuel board piece direction current m h = rw (plus_zero fuel) refl
loop-enough (suc extra) fuel board piece direction current m h = rw (plus_suc extra fuel) (
    loop-stable (extra + fuel) board piece direction current m (omega (arith, h))
    ∙ loop-enough extra fuel board piece direction current m h)

room-bounded :
    (board : Board) (direction : Offset) (at : Coord)
    → is_within at board.scenario.board ≡ true
    → room board direction at < ray_fuel board
room-bounded board (pos zero, pos n) at w = ground (arith, w)
room-bounded board (pos zero, negsuc n) at w = ground (arith, w)
room-bounded board (pos (suc n), dy) at w = ground (arith, w)
room-bounded board (negsuc n, dy) at w = ground (arith, w)

-- From a square of the board the loop over a direction ends by itself within its fuel: more fuel
-- gives the same squares.
pub ray-enough :
    (extra : ℕ) (board : Board) (piece : Piece) (direction : Offset)
    → is_within piece.at board.scenario.board ≡ true
    → is_moving direction ≡ true
    → ray_loop (extra + ray_fuel board) board piece direction piece.at ≡ ray board piece direction
unfolding ray
ray-enough extra board piece direction w m =
    loop-enough extra (ray_fuel board) board piece direction piece.at m
      (room-bounded board direction piece.at w)

-- A piece slides over squares of the board only, none of them a mountain.
pub ray-Enterable :
    (board : Board) (piece : Piece) (direction : Offset) (at : Coord)
    → In at (ray board piece direction)
    → Enterable board at
unfolding ray
ray-Enterable board piece direction at h =
    loop-Enterable (ray_fuel board) board piece direction piece.at at h
