-- ===== src/Tests/Clock.antt =====
-- A game on clocks, and the theorems on the clock at a concrete input.
use crownline.Prelude.{◌<◌, ◌≡◌, refl, none, some, ok, Ensures, arith, u64_max}
use crownline.Scenario.Types.{coord_eq, south, opponent}
use crownline.State.Types.{Action, move, ClockState, timeout}
use crownline.Rules.Events.{Transition}
use crownline.Clock.{remaining_for, advance_clock, apply_timed_action}
use crownline.Clock.Charge.{ChargeDone, advance_clock-ChargeDone, apply_timed_action-timeout}
use crownline.Evaluation.{evaluation}
use crownline.Examples.{at, demo, demo_digest, clocked_start}

abbrev claim : Action
claim = move south 3 (at 3 3)

-- Three minutes a side.
abbrev full_clocks : ClockState
full_clocks = record { north_millis = 180000; south_millis = 180000; increment_millis = 2000 }

clocked-running : clocked_start.clocks ≡ some full_clocks
unfolding evaluation
clocked-running = refl

clocked-live : clocked_start.outcome ≡ none
unfolding evaluation
clocked-live = refl

clocked-room : clocked_start.revision < u64_max
unfolding evaluation
clocked-room = omega arith

clocked-out : remaining_for full_clocks clocked_start.active_player ≡ 180000
unfolding evaluation
clocked-out = refl

advance_clock-ChargeDone_example :
    Ensures (ChargeDone clocked_start full_clocks 5000) (advance_clock clocked_start 5000)
advance_clock-ChargeDone_example =
    advance_clock-ChargeDone clocked_start full_clocks 5000 clocked-running

apply_timed_action-timeout_example :
    (t : Transition) × (apply_timed_action demo_digest demo clocked_start claim 180000 ≡ ok t)
    × (t.state.outcome
        ≡ some (record { winner = some (opponent clocked_start.active_player); reason = timeout }))
apply_timed_action-timeout_example =
    apply_timed_action-timeout demo_digest demo clocked_start claim full_clocks 180000
      clocked-running clocked-live clocked-room (omega (arith, clocked-out))
