-- ===== src/Journal/Types.antt =====
-- The data and the errors of crates/crownline_core/src/journal.rs.
use crownline.Prelude.{ℕ, Option, List, String}
use crownline.Scenario.Types.{Player}
use crownline.State.Types.{Action, ClockState}
use crownline.State.Errors.{TransitionError}
use crownline.Rules.Events.{Transition, TransitionEvent}
use crownline.Journal.Equality.{IdempotencyKey}

abbrev pub journal_format_version : ℕ
journal_format_version = 2

abbrev pub max_journal_records : ℕ
max_journal_records = 100000

abbrev pub max_journal_bytes : ℕ
max_journal_bytes = 16777216

pub record JournalRecord : Type 0 where
  pub actor : Player
  pub revision_before : ℕ
  pub revision_after : ℕ
  pub idempotency_key : IdempotencyKey
  pub action : Action
  pub elapsed_millis : ℕ
  pub events : List TransitionEvent
  pub state_hash : String

pub record ActionJournal : Type 0 where
  pub format_version : ℕ
  pub application_version : String
  pub scenario_schema_version : ℕ
  pub scenario_id : String
  pub initial_state_hash : String
  pub initial_clocks : Option ClockState
  pub records : List JournalRecord

pub data AppendOutcome : Type 0 where
  accepted : (transition : Transition) → AppendOutcome
  duplicate : (accepted_revision : ℕ) (state_hash : String) → AppendOutcome

pub record ReplayDivergence : Type 0 where
  pub revision : ℕ
  pub reason : String
  pub expected_hash : String
  pub actual_hash : String

pub data JournalError : Type 0 where
  malformed_json : (message : String) → JournalError
  too_large : (size maximum : ℕ) → JournalError
  unsupported_version : (found current : ℕ) → JournalError
  migration_failed : (source_version : ℕ) (message : String) → JournalError
  missing_application_version : JournalError
  unsupported_scenario_version : (found current : ℕ) → JournalError
  scenario_mismatch : (expected actual : String) → JournalError
  scenario_version_mismatch : (expected actual : ℕ) → JournalError
  too_many_records : (maximum : ℕ) → JournalError
  invalid_initial_clocks : JournalError
  state_does_not_match_tail :
      (expected_revision actual_revision : ℕ) (expected_hash actual_hash : String) → JournalError
  transition_failed : TransitionError → JournalError
  diverged : ReplayDivergence → JournalError
