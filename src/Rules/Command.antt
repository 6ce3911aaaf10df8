-- ===== src/Rules/Command.antt =====
-- The moves and holds of a turn in crates/crownline_core/src/rules.rs, and the repetition count.
use crownline.Prelude.{
  ℕ, ◌+◌, Bool, false, not, ◌&&◌, none, some, List, [], ◌∷◌, nat_beq, if◌then◌else◌, find, is_empty,
  is_some_and, Result, ok, ◌>>=◌, ◌>>◌, ensure, ok_or, checked_inc, u64_max, u8_max, min, leb,
  String, ◌==◌, string_eq,
}
use crownline.Scenario.Types.{
  Coord, coord_beq, coord_eq, Player, opponent, player_beq, player_eq, ScenarioDefinition,
}
use crownline.State.Types.{
  PieceId, command, is_command, MatchState, checkmate, threefold_repetition,
}
use crownline.State.Errors.{
  TransitionError, wrong_player, wrong_turn_phase, illegal_move, cannot_hold_in_check,
  turn_overflow, revision_overflow,
}
use crownline.State.Invariants.{validate_invariants}
use crownline.State.Repetition.{Digest, repetition_key}
use crownline.Board.Moves.{LegalMove}
use crownline.Rules.Moving.{apply_move_unchecked}
use crownline.Rules.Legality.{is_in_check, legal_moves}

unfoldable pub ensure_command_actor : MatchState → Player → Result (Unit {0}) TransitionError
ensure_command_actor state player = do
  ensure (player_beq player state.active_player) (wrong_player state.active_player player)
  ensure (is_command state.phase) wrong_turn_phase

-- The turn passes to the opponent: the part of `finish_command` before its invariants.
unfoldable pub pass_turn : MatchState → Player → Result MatchState TransitionError
pass_turn state player = do
  turn ← checked_inc u64_max state.turn_number turn_overflow
  revision ← checked_inc u64_max state.revision revision_overflow
  ok (record state {
    outstanding_draw_offer =
        if is_some_and state.outstanding_draw_offer (λ offering. not (player_beq offering player))
        then none
        else state.outstanding_draw_offer;
    active_player = opponent player;
    turn_number = turn;
    revision = revision;
    phase = command;
  })

-- The opponent is in check and has no legal move.
unfoldable pub is_checkmated : ScenarioDefinition → MatchState → Result Bool TransitionError
is_checkmated scenario state = do
  check ← is_in_check scenario state state.active_player
  (if not check then ok false else do moves ← legal_moves scenario state; ok (is_empty moves))

unfoldable pub finish_command :
    ScenarioDefinition → MatchState → Player → Result MatchState TransitionError
finish_command scenario state player = do
  next ← pass_turn state player
  validate_invariants next
  mated ← is_checkmated scenario next
  ok (
      if mated
      then record next { outcome = some (record { winner = some player; reason = checkmate }) }
      else next)

abbrev pub is_move_of : PieceId → Coord → LegalMove → Bool
is_move_of piece_id to m = nat_beq m.piece piece_id && coord_beq m.to to

-- The legal move of that piece to that square.
unfoldable pub chosen_move :
    ScenarioDefinition → MatchState → PieceId → Coord → Result LegalMove TransitionError
chosen_move scenario state piece_id to = do
  moves ← legal_moves scenario state
  ok_or (find (is_move_of piece_id to) moves) (illegal_move piece_id to)

unfoldable pub apply_move :
    ScenarioDefinition → MatchState → Player → PieceId → Coord → Result MatchState TransitionError
apply_move scenario state player piece_id to = do
  ensure_command_actor state player
  candidate ← chosen_move scenario state piece_id to
  next ← apply_move_unchecked scenario state candidate
  finish_command scenario next player

-- The player is not in check.
unfoldable pub ensure_safe :
    ScenarioDefinition → MatchState → Player → TransitionError → Result (Unit {0}) TransitionError
ensure_safe scenario state player error = do
  check ← is_in_check scenario state player
  ensure (not check) error

unfoldable pub apply_hold :
    ScenarioDefinition → MatchState → Player → Result MatchState TransitionError
apply_hold scenario state player = do
  ensure_command_actor state player
  ensure_safe scenario state player cannot_hold_in_check
  finish_command scenario (record state { en_passant = none }) player

unfoldable pub bump_count : String → List (String × ℕ) → List (String × ℕ)
bump_count key [] = (key, 1) ∷ []
bump_count key ((k, n) ∷ rest) =
    if k == key then (k, min (n + 1) u8_max) ∷ rest else (k, n) ∷ bump_count key rest

unfoldable pub count_of : String → List (String × ℕ) → ℕ
count_of key [] = 0
count_of key ((k, n) ∷ rest) = if k == key then n else count_of key rest

unfoldable pub record_repetition : Digest → MatchState → Result MatchState TransitionError
unfolding bump_count count_of
record_repetition digest state = do
  key ← repetition_key digest state
  let counts = bump_count key state.repetition_counts
  ok (record state {
    repetition_counts = counts;
    outcome =
        if leb 3 (count_of key counts)
        then some (record { winner = none; reason = threefold_repetition })
        else state.outcome;
  })
