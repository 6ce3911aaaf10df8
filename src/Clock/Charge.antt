-- ===== src/Clock/Charge.antt =====
-- What the clock of crates/crownline_core/src/clock.rs takes from the player on the move.
use crownline.Prelude.{
  ℕ, ◌+◌, ◌-◌, ◌≤◌, ◌<◌, ◌≡◌, ◌⊎◌, inl, inr, refl, true, none, some, min, leb, is_some, Bool-cases,
  if◌then◌else◌, Result, ok, ◌>>=◌, u64_max, is_ok, is_ok-cases, Ensures, Ensures-ok, arith,
}
use crownline.Scenario.Types.{Player, north, south, opponent, ScenarioDefinition}
use crownline.State.Types.{ClockState, MatchState, timeout, Action}
use crownline.State.Errors.{TransitionError}
use crownline.State.Repetition.{Digest}
use crownline.Rules.Events.{Transition}
use crownline.Clock.{
  ClockSettings, start_clocks, remaining_for, set_remaining, expire, charge, advance_clock,
  apply_timed_action,
}

-- The clocks after a charge: what the player has left and what was taken make up what the player
-- had, and the opponent's clock and the increment stay.
pub record Charged (clocks : ClockState) (player : Player) (elapsed : ℕ) (after : ClockState)
    : Type 0 where
  pub conserved :
      remaining_for after player + min elapsed (remaining_for clocks player)
      ≡ remaining_for clocks player
  pub untouched : remaining_for after (opponent player) ≡ remaining_for clocks (opponent player)
  pub increment : after.increment_millis ≡ clocks.increment_millis

Charged-set :
    (clocks : ClockState) (player : Player) (elapsed : ℕ)
    → Charged clocks player elapsed (
        set_remaining clocks player
          (remaining_for clocks player - min elapsed (remaining_for clocks player)))
Charged-set clocks north elapsed = record {
  conserved = omega arith;
  untouched = refl;
  increment = refl;
}
Charged-set clocks south elapsed = record {
  conserved = omega arith;
  untouched = refl;
  increment = refl;
}

-- The whole outcome of a charge.
pub record ChargeDone (state : MatchState) (clocks : ClockState) (elapsed : ℕ) (t : Transition)
    : Type 0 where
  pub after : ClockState
  pub clocks_after : t.state.clocks ≡ some after
  pub charged : Charged clocks state.active_player elapsed after
  pub verdict :
      ((remaining_for clocks state.active_player ≤ elapsed)
        × (t.state.outcome
            ≡ some (record { winner = some (opponent state.active_player); reason = timeout }))
        × (t.state.revision ≡ state.revision + 1))
      ⊎ ((elapsed < remaining_for clocks state.active_player)
          × (t.state.outcome ≡ state.outcome)
          × (t.state.revision ≡ state.revision))
  pub frame :
      t.state
      ≡ record state { clocks = some after; outcome = t.state.outcome; revision = t.state.revision }

-- While a match runs on clocks, the elapsed time, but no more than what is left, is taken from the
-- active player alone; the player loses on time exactly if no time is left, which is one revision;
-- of the state nothing but the clocks and, on such a loss, the outcome and the revision changes.
pub advance_clock-ChargeDone :
    (state : MatchState) (clocks : ClockState) (elapsed : ℕ)
    → state.clocks ≡ some clocks
    → Ensures (ChargeDone state clocks elapsed) (advance_clock state elapsed)
unfolding advance_clock charge expire
advance_clock-ChargeDone state clocks elapsed running = rw running (
    let taken = Charged-set clocks state.active_player elapsed in
    elim (Bool-cases (leb (remaining_for clocks state.active_player) elapsed)) [
      | inl out ↦ ground arith
      | inr left ↦ ground arith
    ])

charge-is_ok :
    (state : MatchState) (clocks : ClockState) (elapsed : ℕ)
    → state.clocks ≡ some clocks
    → state.outcome ≡ none
    → state.revision < u64_max
    → is_ok (advance_clock state elapsed) ≡ true
unfolding advance_clock charge expire
charge-is_ok state clocks elapsed running live room = rw (running, live) (ground arith)

-- What follows a charge that has ended the match.
ended :
    (r : Result Transition TransitionError) (k : Transition → Result Transition TransitionError)
    {t : Transition}
    → r ≡ ok t
    → is_some t.state.outcome ≡ true
    → (r >>= λ charged. if is_some charged.state.outcome then ok charged else k charged) ≡ ok t
ended r k e over = rw e (rw over refl)

expired :
    (state : MatchState) (clocks : ClockState) (elapsed : ℕ) (t : Transition)
    → ChargeDone state clocks elapsed t
    → remaining_for clocks state.active_player ≤ elapsed
    → t.state.outcome
      ≡ some (record { winner = some (opponent state.active_player); reason = timeout })
expired state clocks elapsed t done out = elim done.verdict [
  | inl over ↦ over.1
  | inr running ↦ ground (arith, running.0, out)
]

-- A clock that has run out ends the match for the opponent whatever the action is: it is not looked
-- at. The match has no outcome yet, and the revision has room to grow.
pub apply_timed_action-timeout :
    (digest : Digest) (scenario : ScenarioDefinition) (state : MatchState) (action : Action)
    (clocks : ClockState) (elapsed : ℕ)
    → state.clocks ≡ some clocks
    → state.outcome ≡ none
    → state.revision < u64_max
    → remaining_for clocks state.active_player ≤ elapsed
    → (t : Transition) × (apply_timed_action digest scenario state action elapsed ≡ ok t)
      × (t.state.outcome
          ≡ some (record { winner = some (opponent state.active_player); reason = timeout }))
unfolding apply_timed_action
apply_timed_action-timeout digest scenario state action clocks elapsed running live room out =
    let (t, e) =
      is_ok-cases (advance_clock state elapsed)
        (charge-is_ok state clocks elapsed running live room) in
    let done =
      Ensures-ok (ChargeDone state clocks elapsed) (advance_clock state elapsed) e
        (advance_clock-ChargeDone state clocks elapsed running) in
    let lost = expired state clocks elapsed t done out in
    (t, ended (advance_clock state elapsed) _ e (rw lost refl), lost)

-- Clocks within the limits: the same time for both.
abbrev pub Started : MatchState → Type 0
Started next =
    (clocks : ClockState) × (next.clocks ≡ some clocks)
    × (60000 ≤ clocks.north_millis)
    × (clocks.north_millis ≤ 10800000)
    × (clocks.south_millis ≡ clocks.north_millis)
    × (clocks.increment_millis ≤ 60000)

-- Clocks start within the limits: from one minute to three hours a side, the same for both, and an
-- increment of at most a minute.
pub start_clocks-bounds :
    (state : MatchState) (settings : ClockSettings) → Ensures Started (start_clocks state settings)
unfolding start_clocks
start_clocks-bounds state settings = ground arith
