-- ===== src/Journal/Trust.antt =====
-- What a replay can end in, whatever the journal says: crates/crownline_core/src/journal.rs.
use crownline.Prelude.{
  ◌≡◌, not, ◌&&◌, ◌||◌, ◌==◌, string_eq, ensure-Ensures, Bool, true, false, List, [], ◌∷◌, arith,
  nat_beq, if◌then◌else◌, contains, String, Result, ok, err, map_err, map_err-eq-ok, >>=-eq-ok,
  Ensures, >>=-Ensures, >>=-Ensures_any,
}
use crownline.Scenario.Types.{player_beq, ScenarioDefinition}
use crownline.State.Types.{MatchState}
use crownline.State.Errors.{TransitionError}
use crownline.State.Repetition.{Digest, StateHash}
use crownline.State.Create.{from_scenario}
use crownline.Rules.Events.{Transition, action_player}
use crownline.Clock.{apply_timed_action}
use crownline.Match.{SameIds, Sound, SameIds-Sound, from_scenario-Sound, apply_timed_action-Sound}
use crownline.Journal.Equality.{IdempotencyKey, key_eq, events_beq}
use crownline.Journal.Types.{JournalRecord, ActionJournal, transition_failed}
use crownline.Journal.Append.{hash, validate_header}
use crownline.Journal.Replay.{
  divergence, diverge, initial_state, check_duplicate, check_transition, apply_record,
  replay_records, begin_replay, replay,
}

unclocked-Sound : (a b : MatchState) → Sound a → record a { clocks = b.clocks } ≡ b → Sound b
unfolding SameIds
unclocked-Sound a b sound e = SameIds-Sound a b (ground (arith, e)) sound

begin_replay-Sound :
    (digest : Digest) (state_hash : StateHash) (journal : ActionJournal)
    (scenario : ScenarioDefinition)
    → Ensures Sound (begin_replay digest state_hash journal scenario)
unfolding begin_replay initial_state
begin_replay-Sound digest state_hash journal scenario =
    >>=-Ensures_any Sound (validate_header journal scenario) _ λ _ _.
      >>=-Ensures_any Sound (initial_state digest journal scenario) _ λ state made.
        >>=-Ensures_any Sound (hash state_hash state) _ λ actual _.
          let (created, from, e) =
            >>=-eq-ok (map_err (from_scenario digest scenario) transition_failed) _ made in
          let sound =
            from_scenario-Sound digest scenario created (map_err-eq-ok _ transition_failed from) in
          ensure-Ensures Sound (actual == journal.initial_state_hash)
            (divergence state.revision "initial state hash" journal.initial_state_hash actual) state
            (unclocked-Sound created state sound (ground (arith, e)))

check_transition-Sound :
    (state_hash : StateHash) (r : JournalRecord) (t : Transition)
    → Sound t.state
    → Ensures Sound (check_transition state_hash r t)
unfolding check_transition
check_transition-Sound state_hash r t sound =
    >>=-Ensures_any Sound (hash state_hash t.state) _ λ actual _.
      ensure-Ensures Sound
        (nat_beq r.revision_after t.state.revision
          && events_beq r.events t.events
          && r.state_hash == actual)
        (divergence r.revision_after "transition metadata or resulting state" r.state_hash actual)
        t.state sound

diverge-Sound :
    (state_hash : StateHash) (state : MatchState) (r : JournalRecord) (reason : String)
    → Ensures Sound (diverge state_hash state r reason)
unfolding divergence
diverge-Sound state_hash state r reason = >>=-Ensures_any Sound (hash state_hash state) _ λ _ _. tt

step-Sound :
    (digest : Digest) (state_hash : StateHash) (scenario : ScenarioDefinition) (seen : Bool)
    (state : MatchState) (r : JournalRecord)
    → Sound state
    → Ensures Sound (
        if seen
        then check_duplicate state_hash state r
        else apply_record digest state_hash scenario state r)
unfolding check_duplicate apply_record
step-Sound digest state_hash scenario true state r sound =
    >>=-Ensures_any Sound (hash state_hash state) _ λ actual _.
      ensure-Ensures Sound (nat_beq r.revision_after state.revision && r.state_hash == actual)
        (divergence r.revision_after "duplicate idempotency record" r.state_hash actual) state sound
step-Sound digest state_hash scenario false state r sound =
    either
      (not (player_beq r.actor (action_player r.action))
        || not (nat_beq r.revision_before state.revision))
      (apply_timed_action digest scenario state r.action r.elapsed_millis)
      (apply_timed_action-Sound digest scenario state r.action r.elapsed_millis sound)
  where
    either :
        (refused : Bool) (applied : Result Transition TransitionError)
        → Ensures (λ t. Sound t.state) applied
        → Ensures Sound (
            if refused
            then diverge state_hash state r "record actor or starting revision"
            else elim applied [
              | ok transition ↦ check_transition state_hash r transition
              | err e ↦ diverge state_hash state r "recorded action is no longer legal"
            ])
    either true applied p = diverge-Sound state_hash state r _
    either false (ok t) p = check_transition-Sound state_hash r t p
    either false (err e) p = diverge-Sound state_hash state r _

replay_records-Sound :
    (digest : Digest) (state_hash : StateHash) (scenario : ScenarioDefinition)
    (applied : List IdempotencyKey) (state : MatchState) (rs : List JournalRecord)
    → Sound state
    → Ensures Sound (replay_records digest state_hash scenario applied state rs)
unfolding replay_records
replay_records-Sound digest state_hash scenario applied state [] sound = sound
replay_records-Sound digest state_hash scenario applied state (r ∷ rs) sound =
    >>=-Ensures Sound Sound _ _
      (step-Sound digest state_hash scenario (contains applied r.idempotency_key) state r sound)
      λ next. replay_records-Sound digest state_hash scenario (r.idempotency_key ∷ applied) next rs

-- Whatever a journal says, a state that it replays to is sound: no record can bring in a piece off
-- its own identifier, two pieces on a square, a second King or a reference to a piece that is gone.
pub replay-Sound :
    (digest : Digest) (state_hash : StateHash) (journal : ActionJournal)
    (scenario : ScenarioDefinition)
    → Ensures Sound (replay digest state_hash journal scenario)
unfolding replay
replay-Sound digest state_hash journal scenario =
    >>=-Ensures Sound Sound _ _ (begin_replay-Sound digest state_hash journal scenario)
      λ first. replay_records-Sound digest state_hash scenario [] first journal.records
