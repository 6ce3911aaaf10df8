-- ===== src/Journal/Codec.antt =====
-- Reading and writing journals, and the migration of format 1: crates/crownline_core/src/journal.rs.
use crownline.Prelude.{
  ℕ, ◌≡◌, not, ◌||◌, List, [], ◌∷◌, ltb, leb, nat_beq, if◌then◌else◌, length, ◌==◌, string_eq,
  String, Result, ok, err, ◌>>=◌, ◌>>◌, ensure, map_err,
}
use crownline.Scenario.Types.{ScenarioDefinition}
use crownline.Scenario.Header.{scenario_schema_version, is_blank}
use crownline.State.Types.{MatchState}
use crownline.State.Repetition.{Digest, StateHash}
use crownline.State.Create.{from_scenario}
use crownline.Journal.Types.{
  journal_format_version, max_journal_records, max_journal_bytes, JournalRecord, ActionJournal,
  AppendOutcome, accepted, duplicate, JournalError, malformed_json, too_large, unsupported_version,
  migration_failed, transition_failed,
}
use crownline.Journal.Append.{hash, validate_static, validate_header, append_timed}

-- `serde_json` on journals, by the bytes, and `Display` of the errors that migration passes on.
pub record JournalCodec : Type 0 where
  pub encode : ActionJournal → Result (List ℕ) String
  pub decode : List ℕ → Result ActionJournal String
  pub display : JournalError → String

-- What is written can be read again.
abbrev pub RoundTrips : JournalCodec → Type 0
RoundTrips codec =
    (journal : ActionJournal) (bytes : List ℕ)
    → codec.encode journal ≡ ok bytes
    → codec.decode bytes ≡ ok journal

unfoldable pub check_size : List ℕ → Result (Unit {0}) JournalError
check_size bytes =
    ensure (leb (length bytes) max_journal_bytes) (too_large (length bytes) max_journal_bytes)

unfoldable pub to_json : JournalCodec → ActionJournal → Result (List ℕ) JournalError
to_json codec journal = do
  validate_static journal
  bytes ← map_err (codec.encode journal) malformed_json
  check_size bytes
  ok bytes

unfoldable pub from_json : JournalCodec → List ℕ → Result ActionJournal JournalError
from_json codec bytes = do
  check_size bytes
  journal ← map_err (codec.decode bytes) malformed_json
  validate_static journal
  ok journal

-- `let AppendOutcome::Accepted(transition) = outcome else`.
abbrev pub accepted_state :
    ℕ → ActionJournal × AppendOutcome → Result (ActionJournal × MatchState) JournalError
accepted_state source (journal, accepted t) = ok (journal, t.state)
accepted_state source (journal, duplicate revision written) =
    err (migration_failed source "legacy journal repeats an idempotency key")

-- One legacy record, appended anew.
unfoldable pub migrate_record :
    Digest
    → StateHash
    → JournalCodec
    → ScenarioDefinition
    → ℕ
    → ActionJournal
    → MatchState
    → JournalRecord
    → Result (ActionJournal × MatchState) JournalError
migrate_record digest state_hash codec scenario source migrated state r = do
  ensure (nat_beq r.revision_before state.revision)
      (migration_failed source "legacy journal revisions are not contiguous")
  outcome ←
      map_err
        (append_timed digest state_hash migrated scenario state r.idempotency_key r.action
          r.elapsed_millis)
        (λ e. migration_failed source (codec.display e))
  accepted_state source outcome

unfoldable pub migrate_records :
    Digest
    → StateHash
    → JournalCodec
    → ScenarioDefinition
    → ℕ
    → ActionJournal
    → MatchState
    → List JournalRecord
    → Result ActionJournal JournalError
migrate_records digest state_hash codec scenario source migrated state [] = ok migrated
migrate_records digest state_hash codec scenario source migrated state (r ∷ rest) = do
  next ← migrate_record digest state_hash codec scenario source migrated state r
  migrate_records digest state_hash codec scenario source next.0 next.1 rest

-- The journal that the records are appended to.
abbrev pub empty_successor : ActionJournal → String → ActionJournal
empty_successor legacy initial_state_hash = record {
  format_version = journal_format_version;
  application_version = legacy.application_version;
  scenario_schema_version = scenario_schema_version;
  scenario_id = legacy.scenario_id;
  initial_state_hash = initial_state_hash;
  initial_clocks = legacy.initial_clocks;
  records = [];
}

unfoldable pub check_legacy : ActionJournal → ScenarioDefinition → Result (Unit {0}) JournalError
check_legacy legacy scenario =
    ensure
      (not (
        is_blank legacy.application_version
        || not (nat_beq legacy.scenario_schema_version 1)
        || not (legacy.scenario_id == scenario.id)
        || not (nat_beq scenario.schema_version scenario_schema_version)
        || ltb max_journal_records (length legacy.records)))
      (migration_failed legacy.format_version "legacy journal metadata is incompatible")

unfoldable pub migrate_format_one :
    Digest
    → StateHash
    → JournalCodec
    → ActionJournal
    → ScenarioDefinition
    → Result ActionJournal JournalError
migrate_format_one digest state_hash codec legacy scenario = do
  check_legacy legacy scenario
  created ← map_err (from_scenario digest scenario) transition_failed
  let state : MatchState = record created { clocks = legacy.initial_clocks }
  initial_state_hash ← hash state_hash state
  migrated ←
      migrate_records digest state_hash codec scenario legacy.format_version
        (empty_successor legacy initial_state_hash) state legacy.records
  validate_header migrated scenario
  ok migrated

unfoldable pub from_json_with_scenario :
    Digest
    → StateHash
    → JournalCodec
    → List ℕ
    → ScenarioDefinition
    → Result ActionJournal JournalError
from_json_with_scenario digest state_hash codec bytes scenario = do
  check_size bytes
  legacy ← map_err (codec.decode bytes) malformed_json
  (if nat_beq legacy.format_version journal_format_version
      then (do validate_header legacy scenario; ok legacy)
      else do
        ensure (nat_beq legacy.format_version 1)
            (unsupported_version legacy.format_version journal_format_version)
        migrate_format_one digest state_hash codec legacy scenario)
