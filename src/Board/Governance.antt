-- ===== src/Board/Governance.antt =====
-- `governance_trace` of crates/crownline_core/src/rules.rs, and the reports that it fills.
use crownline.Prelude.{ℕ, zero, suc, not, Option, none, some, List, [], ◌∷◌, ◌++◌, if◌then◌else◌}
use crownline.Scenario.Types.{
  Coord, is_within, coord_beq, Player, TileTerrain, mountain, forest, is_mountain, is_forest, Edge,
  EdgeKind,
}
use crownline.State.Types.{Piece, PieceId}
use crownline.Board.Geometry.{
  Board, Offset, offset_coord, terrain, first_blocking_edge, aligned_direction,
}
use crownline.Board.Rays.{ray_fuel}

pub record AttackLine : Type 0 where
  pub attacker : PieceId
  pub path : List Coord

pub data GovernanceBlocker : Type 0 where
  by_piece : (piece : PieceId) (place : Coord) → GovernanceBlocker
  by_terrain : (place : Coord) (terrain : TileTerrain) → GovernanceBlocker
  by_edge : (edge : Edge) (kind : EdgeKind) → GovernanceBlocker

pub record BlockedGovernanceLine : Type 0 where
  pub candidate : PieceId
  pub path : List Coord
  pub blocker : GovernanceBlocker

pub record GovernanceReport : Type 0 where
  pub settlement_index : ℕ
  pub owner : Option Player
  pub governors : List AttackLine
  pub blocked : List BlockedGovernanceLine

pub data GovernanceTrace : Type 0 where
  clear : List Coord → GovernanceTrace
  blocked : (path : List Coord) (blocker : GovernanceBlocker) → GovernanceTrace

-- The rest of a round once the edges to `next` are open, with what the later rounds give.
unfoldable pub trace_square :
    Board → Coord → Coord → List Coord → Option GovernanceTrace → Option GovernanceTrace
trace_square board target next path rest =
    if coord_beq next target then some (clear path) else elim (board.occupancy next) [
      | some piece ↦ some (blocked path (by_piece piece.id next))
      | none ↦
          if is_forest (terrain board next)
          then some (blocked path (by_terrain next forest))
          else rest
    ]

unfoldable pub trace_loop :
    ℕ → Board → Piece → Coord → Offset → Coord → List Coord → Option GovernanceTrace
trace_loop zero board piece target direction current path = none
trace_loop (suc fuel) board piece target direction current path =
    elim (offset_coord current direction) [
      | none ↦ none
      | some next ↦
          let rest = trace_loop fuel board piece target direction next (path ++ next ∷ []) in
          if not (is_within next board.scenario.board)
          then none
          else if is_mountain (terrain board next)
          then some (blocked (path ++ next ∷ []) (by_terrain next mountain))
          else elim (first_blocking_edge board piece current next) [
            | some (e, kind) ↦ some (blocked path (by_edge e kind))
            | none ↦ trace_square board target next (path ++ next ∷ []) rest
          ]
    ]

unfoldable pub governance_trace : Board → Piece → Coord → Option GovernanceTrace
governance_trace board piece target = elim (aligned_direction piece target) [
  | none ↦ none
  | some direction ↦
      trace_loop (ray_fuel board) board piece target direction piece.at (piece.at ∷ [])
]
