-- ===== src/Journal/Replay.antt =====
-- Replaying a journal: `ActionJournal::replay` of crates/crownline_core/src/journal.rs.
use crownline.Prelude.{
  ℕ, not, ◌&&◌, ◌||◌, List, [], ◌∷◌, nat_beq, if◌then◌else◌, contains, ◌==◌, string_eq, String,
  Result, ok, err, ◌>>=◌, ◌>>◌, ensure, map_err,
}
use crownline.Scenario.Types.{player_beq, ScenarioDefinition}
use crownline.State.Types.{MatchState}
use crownline.State.Repetition.{Digest, StateHash}
use crownline.State.Create.{from_scenario}
use crownline.Rules.Events.{Transition, action_player}
use crownline.Clock.{apply_timed_action}
use crownline.Journal.Equality.{IdempotencyKey, key_eq, events_beq}
use crownline.Journal.Types.{
  JournalRecord, ActionJournal, JournalError, transition_failed, diverged,
}
use crownline.Journal.Append.{hash, validate_header}

unfoldable pub initial_state :
    Digest → ActionJournal → ScenarioDefinition → Result MatchState JournalError
initial_state digest journal scenario = do
  created ← map_err (from_scenario digest scenario) transition_failed
  ok (record created { clocks = journal.initial_clocks })

unfoldable pub divergence : ℕ → String → String → String → JournalError
divergence revision reason expected actual = diverged (record {
  revision = revision;
  reason = reason;
  expected_hash = expected;
  actual_hash = actual;
})

-- `return Err(divergence(..., hash(&state)?))`.
abbrev pub diverge :
    StateHash → MatchState → JournalRecord → String → Result MatchState JournalError
diverge state_hash state r reason = do
  actual ← hash state_hash state
  err (divergence r.revision_after reason r.state_hash actual)

-- A record whose key has been applied must describe the state that is there.
unfoldable pub check_duplicate :
    StateHash → MatchState → JournalRecord → Result MatchState JournalError
unfolding divergence
check_duplicate state_hash state r = do
  actual ← hash state_hash state
  ensure (nat_beq r.revision_after state.revision && r.state_hash == actual)
      (divergence r.revision_after "duplicate idempotency record" r.state_hash actual)
  ok state

-- The comparison of a record with the transition that it leads to.
unfoldable pub check_transition :
    StateHash → JournalRecord → Transition → Result MatchState JournalError
unfolding divergence
check_transition state_hash r transition = do
  actual ← hash state_hash transition.state
  ensure
      (nat_beq r.revision_after transition.state.revision
        && events_beq r.events transition.events
        && r.state_hash == actual)
      (divergence r.revision_after "transition metadata or resulting state" r.state_hash actual)
  ok transition.state

-- A record that is applied.
unfoldable pub apply_record :
    Digest
    → StateHash
    → ScenarioDefinition
    → MatchState
    → JournalRecord
    → Result MatchState JournalError
unfolding divergence
apply_record digest state_hash scenario state r =
    if not (player_beq r.actor (action_player r.action))
      || not (nat_beq r.revision_before state.revision)
    then diverge state_hash state r "record actor or starting revision"
    else elim (apply_timed_action digest scenario state r.action r.elapsed_millis) [
      | ok transition ↦ check_transition state_hash r transition
      | err e ↦ diverge state_hash state r "recorded action is no longer legal"
    ]

-- The loop over the records, with the keys that have been applied.
unfoldable pub replay_records :
    Digest
    → StateHash
    → ScenarioDefinition
    → List IdempotencyKey
    → MatchState
    → List JournalRecord
    → Result MatchState JournalError
replay_records digest state_hash scenario applied state [] = ok state
replay_records digest state_hash scenario applied state (r ∷ rest) = do
  next ←
      if contains applied r.idempotency_key
      then check_duplicate state_hash state r
      else apply_record digest state_hash scenario state r
  replay_records digest state_hash scenario (r.idempotency_key ∷ applied) next rest

-- The checks before the loop.
unfoldable pub begin_replay :
    Digest → StateHash → ActionJournal → ScenarioDefinition → Result MatchState JournalError
unfolding initial_state divergence
begin_replay digest state_hash journal scenario = do
  validate_header journal scenario
  state ← initial_state digest journal scenario
  actual ← hash state_hash state
  ensure (actual == journal.initial_state_hash)
      (divergence state.revision "initial state hash" journal.initial_state_hash actual)
  ok state

unfoldable pub replay :
    Digest → StateHash → ActionJournal → ScenarioDefinition → Result MatchState JournalError
replay digest state_hash journal scenario = do
  state ← begin_replay digest state_hash journal scenario
  replay_records digest state_hash scenario [] state journal.records
