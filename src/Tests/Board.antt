-- ===== src/Tests/Board.antt =====
-- The lines of a Rook, and the theorems on the board at a concrete input.
use crownline.Prelude.{
  ◌+◌, ◌≡◌, refl, true, false, not, is_some, is_empty, keep, contains, pos, negsuc,
}
use crownline.Prelude.Map
use crownline.Scenario.Types.{coord_eq, is_within, south, player_beq, rook}
use crownline.State.Types.{Piece, deployed}
use crownline.Board.Geometry.{new, Offset}
use crownline.Board.Rays.{ray_fuel, ray_loop, ray}
use crownline.Board.Attacks.{attacks_from, attack_path_to, is_square_attacked}
use crownline.Board.Agreement.{attacks_from-attack_path_to}
use crownline.Board.Reach.{ray-enough}
use crownline.Rules.Legality.{attack_lines}
use crownline.Rules.Inspection.{attack_lines-is_square_attacked}
use crownline.Evaluation.{evaluation}
use crownline.Examples.{at, demo, start}

-- South's Rook, and the lines from it.
abbrev tower : Piece
tower = record {
  id = 4;
  owner = south;
  kind = rook;
  at = at 3 7;
  origin = deployed;
  has_moved = false;
}

attacks_from-attack_path_to_example :
    contains (attacks_from (new demo start) tower) (at 3 5)
    ≡ is_some (attack_path_to (new demo start) tower (at 3 5))
attacks_from-attack_path_to_example = attacks_from-attack_path_to (new demo start) tower (at 3 5)

attack_lines-is_square_attacked_example :
    not (
      is_empty (
        attack_lines demo start
          (at 3 5)
          (keep (λ piece. player_beq piece.owner south) (Map.values start.pieces))))
    ≡ is_square_attacked (new demo start) (at 3 5) south
attack_lines-is_square_attacked_example = attack_lines-is_square_attacked demo start (at 3 5) south

abbrev upward : Offset
upward = (pos 0, negsuc 0)

new-within : is_within tower.at (new demo start).scenario.board ≡ true
unfolding evaluation
new-within = refl

ray-enough_example :
    ray_loop (5 + ray_fuel (new demo start)) (new demo start) tower upward tower.at
    ≡ ray (new demo start) tower upward
ray-enough_example = ray-enough 5 (new demo start) tower upward new-within refl
