-- ===== src/Journal/Append.antt =====
-- Starting a journal and appending to it: `ActionJournal` of crates/crownline_core/src/journal.rs.
use crownline.Prelude.{
  ℕ, not, ◌&&◌, Option, none, some, [], ◌∷◌, ◌++◌, ltb, leb, nat_beq, between, find, last?, length,
  ◌==◌, string_eq, String, Result, ok, ◌>>=◌, ◌>>◌, ensure, map_err,
}
use crownline.Scenario.Types.{ScenarioDefinition}
use crownline.Scenario.Header.{scenario_schema_version, is_blank}
use crownline.State.Types.{Action, ClockState, MatchState}
use crownline.State.Repetition.{Digest, StateHash, canonical_hash}
use crownline.State.Create.{from_scenario}
use crownline.Rules.Events.{Transition, action_player}
use crownline.Clock.{ClockSettings, start_clocks, apply_timed_action}
use crownline.Journal.Equality.{IdempotencyKey, key_beq}
use crownline.Journal.Types.{
  journal_format_version, max_journal_records, JournalRecord, ActionJournal, AppendOutcome,
  accepted, duplicate, JournalError, unsupported_version, missing_application_version,
  unsupported_scenario_version, scenario_mismatch, scenario_version_mismatch, too_many_records,
  invalid_initial_clocks, state_does_not_match_tail, transition_failed,
}

unfoldable pub hash : StateHash → MatchState → Result String JournalError
unfolding canonical_hash
hash state_hash state = map_err (canonical_hash state_hash state) transition_failed

-- `if let Some(settings)` over the initial state.
abbrev pub initial_clocked : Option ClockSettings → MatchState → Result MatchState JournalError
initial_clocked none initial = ok initial
initial_clocked (some settings) initial = map_err (start_clocks initial settings) transition_failed

unfoldable pub new_inner :
    Digest
    → StateHash
    → String
    → ScenarioDefinition
    → Option ClockSettings
    → Result ActionJournal JournalError
new_inner digest state_hash application_version scenario settings = do
  ensure (not (is_blank application_version)) missing_application_version
  created ← map_err (from_scenario digest scenario) transition_failed
  initial ← initial_clocked settings created
  initial_state_hash ← hash state_hash initial
  ok (record {
    format_version = journal_format_version;
    application_version = application_version;
    scenario_schema_version = scenario.schema_version;
    scenario_id = scenario.id;
    initial_state_hash = initial_state_hash;
    initial_clocks = initial.clocks;
    records = [];
  })

unfoldable new :
    Digest → StateHash → String → ScenarioDefinition → Result ActionJournal JournalError
new digest state_hash application_version scenario =
    new_inner digest state_hash application_version scenario none

unfoldable new_with_clocks :
    Digest
    → StateHash
    → String
    → ScenarioDefinition
    → ClockSettings
    → Result ActionJournal JournalError
new_with_clocks digest state_hash application_version scenario settings =
    new_inner digest state_hash application_version scenario (some settings)

-- The bounds on the clocks that a journal starts from.
abbrev pub check_clocks : Option ClockState → Result (Unit {0}) JournalError
check_clocks none = ok tt
check_clocks (some clocks) =
    ensure
      (between 60000 10800000 clocks.north_millis
        && nat_beq clocks.north_millis clocks.south_millis
        && leb clocks.increment_millis 60000)
      invalid_initial_clocks

unfoldable pub validate_static : ActionJournal → Result (Unit {0}) JournalError
validate_static journal = do
  ensure (nat_beq journal.format_version journal_format_version)
      (unsupported_version journal.format_version journal_format_version)
  ensure (not (is_blank journal.application_version)) missing_application_version
  ensure (nat_beq journal.scenario_schema_version scenario_schema_version)
      (unsupported_scenario_version journal.scenario_schema_version scenario_schema_version)
  ensure (leb (length journal.records) max_journal_records) (too_many_records max_journal_records)
  check_clocks journal.initial_clocks

unfoldable pub validate_header : ActionJournal → ScenarioDefinition → Result (Unit {0}) JournalError
validate_header journal scenario = do
  validate_static journal
  ensure (nat_beq scenario.schema_version journal.scenario_schema_version)
      (scenario_version_mismatch journal.scenario_schema_version scenario.schema_version)
  ensure (scenario.id == journal.scenario_id) (scenario_mismatch journal.scenario_id scenario.id)

-- The revision and the hash that the next state must continue.
abbrev pub tail_of : ActionJournal → Option JournalRecord → ℕ × String
tail_of journal none = (0, journal.initial_state_hash)
tail_of journal (some last) = (last.revision_after, last.state_hash)

unfoldable pub ensure_tail_matches :
    StateHash → ActionJournal → MatchState → Result (Unit {0}) JournalError
ensure_tail_matches state_hash journal state = do
  actual ← hash state_hash state
  let tail = tail_of journal (last? journal.records)
  ensure (nat_beq state.revision tail.0 && actual == tail.1)
      (state_does_not_match_tail tail.0 state.revision tail.1 actual)

abbrev pub record_of :
    MatchState → IdempotencyKey → Action → ℕ → Transition → String → JournalRecord
record_of state key action elapsed transition state_hash = record {
  actor = action_player action;
  revision_before = state.revision;
  revision_after = transition.state.revision;
  idempotency_key = key;
  action = action;
  elapsed_millis = elapsed;
  events = transition.events;
  state_hash = state_hash;
}

-- The part of `append_timed` for a key that no record has.
unfoldable pub append_new :
    Digest
    → StateHash
    → ActionJournal
    → ScenarioDefinition
    → MatchState
    → IdempotencyKey
    → Action
    → ℕ
    → Result (ActionJournal × AppendOutcome) JournalError
append_new digest state_hash journal scenario state key action elapsed = do
  ensure (ltb (length journal.records) max_journal_records) (too_many_records max_journal_records)
  ensure_tail_matches state_hash journal state
  transition ← map_err (apply_timed_action digest scenario state action elapsed) transition_failed
  written ← hash state_hash transition.state
  ok (
    record journal {
      records = journal.records ++ record_of state key action elapsed transition written ∷ [];
    },
    accepted transition,
  )

-- The journal that the call leaves behind, and its answer; an error leaves the journal as it was.
unfoldable pub append_timed :
    Digest
    → StateHash
    → ActionJournal
    → ScenarioDefinition
    → MatchState
    → IdempotencyKey
    → Action
    → ℕ
    → Result (ActionJournal × AppendOutcome) JournalError
append_timed digest state_hash journal scenario state key action elapsed = do
  validate_header journal scenario
  elim (find (λ r. key_beq r.idempotency_key key) journal.records) [
    | some r ↦ ok (journal, duplicate r.revision_after r.state_hash)
    | none ↦ append_new digest state_hash journal scenario state key action elapsed
  ]

-- Without clocks no time is charged.
unfoldable append :
    Digest
    → StateHash
    → ActionJournal
    → ScenarioDefinition
    → MatchState
    → IdempotencyKey
    → Action
    → Result (ActionJournal × AppendOutcome) JournalError
append digest state_hash journal scenario state key action =
    append_timed digest state_hash journal scenario state key action 0
