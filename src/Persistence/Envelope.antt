-- ===== src/Persistence/Envelope.antt =====
-- The envelopes and their checks in crates/crownline_core/src/persistence.rs.
use crownline.Prelude.{
  ℕ, not, ◌&&◌, if◌then◌else◌, Option, none, some, List, ◌==◌, string_eq, leb, nat_beq, length,
  is_none, String, Result, ok, ◌>>=◌, ◌>>◌, ok_or, u16_max, ensure, map_err,
}
use crownline.Scenario.Types.{ScenarioDefinition}
use crownline.Scenario.Header.{scenario_schema_version, is_blank}
use crownline.Scenario.Validate.{validate}
use crownline.State.Types.{MatchState}
use crownline.State.Errors.{invalid_scenario}
use crownline.State.Invariants.{validate_invariants}
use crownline.State.Repetition.{StateHash, canonical_hash}
use crownline.Persistence.Types.{
  save_format_version, snapshot_format_version, max_persisted_bytes, SaveEnvelope, SnapshotEnvelope,
  PersistenceError, malformed_json, too_large, missing_format_version, wrong_format_version,
  migration_failed, missing_application_version, unsupported_scenario_version, scenario_mismatch,
  state_failed, integrity_mismatch, revision_mismatch, Json,
}

unfoldable pub check_size : List ℕ → Result (Unit {0}) PersistenceError
check_size bytes =
    ensure (leb (length bytes) max_persisted_bytes) (too_large (length bytes) max_persisted_bytes)

unfoldable pub validate_payload :
    StateHash
    → ℕ
    → ℕ
    → String
    → ℕ
    → String
    → String
    → MatchState
    → Result (Unit {0}) PersistenceError
validate_payload state_hash found expected version schema scenario_id written state = do
  ensure (nat_beq found expected) (wrong_format_version found expected)
  ensure (not (is_blank version)) missing_application_version
  ensure (nat_beq schema scenario_schema_version)
      (unsupported_scenario_version schema scenario_schema_version)
  ensure (scenario_id == state.scenario_id) (scenario_mismatch scenario_id state.scenario_id)
  map_err (validate_invariants state) state_failed
  actual ← map_err (canonical_hash state_hash state) state_failed
  ensure (written == actual) integrity_mismatch

-- `SaveEnvelope::validate`.
unfoldable pub validate_save : StateHash → SaveEnvelope → Result (Unit {0}) PersistenceError
validate_save state_hash e =
    validate_payload state_hash e.format_version save_format_version e.application_version
      e.scenario_schema_version e.scenario_id e.state_hash e.state

-- `SnapshotEnvelope::validate`.
unfoldable pub validate_snapshot : StateHash → SnapshotEnvelope → Result (Unit {0}) PersistenceError
validate_snapshot state_hash e = do
  validate_payload state_hash e.format_version snapshot_format_version e.application_version
      e.scenario_schema_version e.scenario_id e.state_hash e.state
  ensure (nat_beq e.revision e.state.revision) (revision_mismatch e.revision e.state.revision)

-- `SaveEnvelope::new`.
unfoldable pub new_save : StateHash → String → MatchState → Result SaveEnvelope PersistenceError
new_save state_hash version state = do
  written ← map_err (canonical_hash state_hash state) state_failed
  let envelope : SaveEnvelope = record {
    format_version = save_format_version;
    application_version = version;
    scenario_schema_version = scenario_schema_version;
    scenario_id = state.scenario_id;
    state_hash = written;
    state = state;
  }
  validate_save state_hash envelope
  ok envelope

-- `SnapshotEnvelope::new`.
unfoldable pub new_snapshot :
    StateHash → String → MatchState → Result SnapshotEnvelope PersistenceError
new_snapshot state_hash version state = do
  written ← map_err (canonical_hash state_hash state) state_failed
  let envelope : SnapshotEnvelope = record {
    format_version = snapshot_format_version;
    application_version = version;
    scenario_schema_version = scenario_schema_version;
    scenario_id = state.scenario_id;
    revision = state.revision;
    state_hash = written;
    state = state;
  }
  validate_snapshot state_hash envelope
  ok envelope

-- `encode_bounded`, of what the encoder returned.
unfoldable pub encode_bounded : Result (List ℕ) String → Result (List ℕ) PersistenceError
unfolding check_size
encode_bounded written = do bytes ← map_err written malformed_json; check_size bytes; ok bytes

unfoldable pub save_to_json : Json → StateHash → SaveEnvelope → Result (List ℕ) PersistenceError
save_to_json json state_hash envelope = do
  validate_save state_hash envelope
  encode_bounded (json.write_save envelope)

unfoldable pub snapshot_to_json :
    Json → StateHash → SnapshotEnvelope → Result (List ℕ) PersistenceError
snapshot_to_json json state_hash envelope = do
  validate_snapshot state_hash envelope
  encode_bounded (json.write_snapshot envelope)

-- A version that is no `u16` counts as missing.
abbrev pub u16_version : Option ℕ → Option ℕ
u16_version none = none
u16_version (some n) = if leb n u16_max then some n else none

unfoldable pub declared_version : (json : Json) → json.Value → Result ℕ PersistenceError
declared_version json value = ok_or (u16_version (json.format_version value)) missing_format_version

unfoldable pub set_version_fields :
    (json : Json) → json.Value → ℕ → Result (json.Value) PersistenceError
set_version_fields json value version =
    ok_or (json.set_versions value version scenario_schema_version)
      (malformed_json "envelope must be an object")

unfoldable pub validate_envelope_scenario :
    String → ScenarioDefinition → Result (Unit {0}) PersistenceError
validate_envelope_scenario envelope_scenario scenario = do
  map_err (validate scenario) (λ errors. state_failed (invalid_scenario errors))
  ensure
      (nat_beq scenario.schema_version scenario_schema_version && envelope_scenario == scenario.id)
      (scenario_mismatch envelope_scenario scenario.id)

unfoldable pub reject_legacy_fog_migration :
    ℕ → ScenarioDefinition → Result (Unit {0}) PersistenceError
reject_legacy_fog_migration source scenario =
    ensure (is_none scenario.rules.fog)
      (migration_failed source "legacy state has no exploration history for a fog-enabled scenario")
