-- ===== src/State/Repetition.antt =====
-- The repetition identity of crates/crownline_core/src/state.rs.
use crownline.Prelude.{ℕ, Option, List, String, Result, ok_or}
use crownline.Prelude.Map.{Map}
use crownline.Scenario.Types.{Player}
use crownline.State.Types.{TurnPhase, Piece, SettlementState, EnPassantState, MatchState}
use crownline.State.Errors.{TransitionError, serialize}

-- What the repetition identity covers: neither clocks, revision nor the counters.
pub record RepetitionView : Type 0 where
  pub active_player : Player
  pub phase : TurnPhase
  pub pieces : Map Piece
  pub settlements : List SettlementState
  pub en_passant : Option EnPassantState
  pub castling : List String
  pub candidates : Map ℕ

-- `serde_json::to_vec` followed by SHA-256 in hexadecimal; `none` when the encoding fails.
abbrev pub Digest : Type 0
Digest = RepetitionView → Option String

unfoldable pub repetition_view : MatchState → RepetitionView
repetition_view state = record {
  active_player = state.active_player;
  phase = state.phase;
  pieces = state.pieces;
  settlements = state.settlements;
  en_passant = state.en_passant;
  castling = state.available_castling_routes;
  candidates = state.promotion_candidates;
}

unfoldable pub repetition_key : Digest → MatchState → Result String TransitionError
unfolding repetition_view
repetition_key digest state = ok_or (digest (repetition_view state)) serialize

-- `serde_json::to_vec` of the whole state, followed by SHA-256 in hexadecimal.
abbrev pub StateHash : Type 0
StateHash = MatchState → Option String

unfoldable pub canonical_hash : StateHash → MatchState → Result String TransitionError
canonical_hash state_hash state = ok_or (state_hash state) serialize
