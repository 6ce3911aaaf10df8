-- ===== src/Clock.antt =====
-- The chess clock of crates/crownline_core/src/clock.rs.
pub mod Charge
use crownline.Prelude.{
  ℕ, ◌+◌, ◌-◌, ◌*◌, ◌≤◌, Bool, true, false, not, ◌&&◌, ◌||◌, Option, none, some, List, [], ◌∷◌,
  ◌++◌, min, ltb, leb, nat_beq, between, if◌then◌else◌, is_none, is_some, Result, ok, err, ◌>>=◌,
  ◌>>◌, ensure, checked_inc, u64_max,
}
use crownline.Scenario.Types.{Player, north, south, opponent, ScenarioDefinition}
use crownline.State.Types.{
  ClockState, MatchState, MatchOutcome, timeout, Action, move, hold, choose_promotion,
  place_pawn_at, resign, offer_draw, respond_to_draw,
}
use crownline.State.Errors.{
  TransitionError, invalid_clock_base, invalid_clock_increment, clocks_already_started,
  clocks_must_start_with_match, match_finished, revision_overflow, clock_overflow,
}
use crownline.State.Repetition.{Digest}
use crownline.Rules.Events.{
  Transition, TransitionEvent, clock_advanced, clock_increment_applied, match_ended, event_if,
}
use crownline.Rules.Action.{apply_action}

abbrev pub min_base_minutes : ℕ
min_base_minutes = 1

abbrev pub max_base_minutes : ℕ
max_base_minutes = 180

abbrev pub max_increment_seconds : ℕ
max_increment_seconds = 60

pub record ClockSettings : Type 0 where
  pub base_minutes : ℕ
  pub increment_seconds : ℕ

unfoldable pub start_clocks : MatchState → ClockSettings → Result MatchState TransitionError
start_clocks state settings = do
  ensure (between min_base_minutes max_base_minutes settings.base_minutes)
      (invalid_clock_base settings.base_minutes)
  ensure (leb settings.increment_seconds max_increment_seconds)
      (invalid_clock_increment settings.increment_seconds)
  ensure (is_none state.clocks) clocks_already_started
  ensure (nat_beq state.revision 0 && nat_beq state.turn_number 1 && is_none state.outcome)
      clocks_must_start_with_match
  ok (record state {
    clocks = some (record {
      north_millis = settings.base_minutes * 60000;
      south_millis = settings.base_minutes * 60000;
      increment_millis = settings.increment_seconds * 1000;
    });
  })

abbrev pub remaining_for : ClockState → Player → ℕ
remaining_for clocks north = clocks.north_millis
remaining_for clocks south = clocks.south_millis

-- `remaining_for_mut` and a write.
abbrev pub set_remaining : ClockState → Player → ℕ → ClockState
set_remaining clocks north millis = record clocks { north_millis = millis }
set_remaining clocks south millis = record clocks { south_millis = millis }

-- The clock has run out: the opponent wins.
unfoldable pub expire : MatchState → List TransitionEvent → Result Transition TransitionError
expire state events = do
  revision ← checked_inc u64_max state.revision revision_overflow
  let lost : MatchOutcome = record {
    winner = some (opponent state.active_player);
    reason = timeout;
  }
  ok (record {
    state = record state { revision = revision; outcome = some lost };
    events = events ++ match_ended lost ∷ [];
  })

-- The charge against clocks that run.
unfoldable pub charge : MatchState → ClockState → ℕ → Result Transition TransitionError
charge state clocks elapsed =
    let remaining = remaining_for clocks state.active_player in
    let charged = min elapsed remaining in
    let next : MatchState = record state {
      clocks = some (set_remaining clocks state.active_player (remaining - charged));
    } in
    let events =
      event_if (ltb 0 charged) (clock_advanced state.active_player charged (remaining - charged)) in
    if leb remaining elapsed
    then expire next events
    else ok (record { state = next; events = events })

unfoldable pub advance_clock : MatchState → ℕ → Result Transition TransitionError
advance_clock state elapsed = do
  ensure (is_none state.outcome) match_finished
  elim state.clocks [
    | none ↦ ok (record { state = state; events = [] })
    | some clocks ↦ charge state clocks elapsed
  ]

-- The player whose accepted Move or Hold earns the increment.
abbrev pub increment_player : Action → Option Player
increment_player (move player piece to) = some player
increment_player (hold player) = some player
increment_player (choose_promotion player piece kind) = none
increment_player (place_pawn_at player index place) = none
increment_player (resign player) = none
increment_player (offer_draw player) = none
increment_player (respond_to_draw player accept) = none

abbrev pub increment_for :
    Option Player → Option ClockState → Transition → Result Transition TransitionError
increment_for none clocks done = ok done
increment_for (some player) none done = ok done
increment_for (some player) (some clocks) done =
    let sum = remaining_for clocks player + clocks.increment_millis in
    if leb sum u64_max
    then ok (record {
      state = record (done.state) { clocks = some (set_remaining clocks player sum) };
      events = done.events ++ clock_increment_applied player clocks.increment_millis sum ∷ [];
    })
    else err clock_overflow

unfoldable pub apply_timed_action :
    Digest → ScenarioDefinition → MatchState → Action → ℕ → Result Transition TransitionError
apply_timed_action digest scenario state action elapsed = do
  charged ← advance_clock state elapsed
  (if is_some charged.state.outcome then ok charged else do
    done ← apply_action digest scenario charged.state action
    increment_for (increment_player action) done.state.clocks
        (record { state = done.state; events = charged.events ++ done.events }))
