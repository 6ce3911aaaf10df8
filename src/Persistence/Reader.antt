-- ===== src/Persistence/Reader.antt =====
-- Reading envelopes back, with their migrations: crates/crownline_core/src/persistence.rs.
use crownline.Prelude.{
  ℕ, List, nat_beq, if◌then◌else◌, String, Result, ok, ◌>>=◌, ◌>>◌, ok_or, ensure, map_err,
}
use crownline.Prelude.Map
use crownline.Prelude.Map.{Map}
use crownline.Scenario.Types.{ScenarioDefinition}
use crownline.State.Types.{MatchState}
use crownline.State.Repetition.{StateHash, canonical_hash}
use crownline.State.Vision.{validate_exploration}
use crownline.Rules.Promotions.{validate_promotion_eligibility, migrate_promotion_eligibility}
use crownline.Persistence.Types.{
  save_format_version, snapshot_format_version, SaveEnvelope, SnapshotEnvelope, PersistenceError,
  malformed_json, unsupported_save_version, unsupported_snapshot_version, migration_failed,
  state_failed, Json,
}
use crownline.Persistence.Envelope.{
  check_size, validate_save, validate_snapshot, declared_version, set_version_fields,
  validate_envelope_scenario, reject_legacy_fog_migration,
}

-- `SaveReader`: a migration for each source version that has one.
pub record SaveReader (json : Json) : Type 0 where
  pub migrations : Map (json.Value → Result (json.Value) String)

-- `register_migration`.
unfoldable pub register_migration :
    (json : Json)
    → SaveReader json
    → ℕ
    → (json.Value → Result (json.Value) String)
    → SaveReader json
register_migration json reader source migration = record {
  migrations = Map.insert source migration reader.migrations;
}

-- The registered migration, where the version is not the present one.
unfoldable pub migrate_value :
    (json : Json) → SaveReader json → ℕ → json.Value → Result (json.Value) PersistenceError
migrate_value json reader source value = if nat_beq source save_format_version then ok value else do
  migration ←
      ok_or (Map.get source reader.migrations) (unsupported_save_version source save_format_version)
  map_err (migration value) (migration_failed source)

-- `SaveReader::read`.
unfoldable pub read :
    (json : Json) → StateHash → SaveReader json → List ℕ → Result SaveEnvelope PersistenceError
read json state_hash reader bytes = do
  check_size bytes
  value ← map_err (json.parse bytes) malformed_json
  source ← declared_version json value
  current ← migrate_value json reader source value
  envelope ← map_err (json.save_of current) malformed_json
  validate_save state_hash envelope
  ok envelope

-- The checks of a state against its scenario.
unfoldable pub check_against :
    ScenarioDefinition → String → MatchState → Result (Unit {0}) PersistenceError
check_against scenario scenario_id state = do
  validate_envelope_scenario scenario_id scenario
  map_err (validate_promotion_eligibility scenario state) state_failed
  map_err (validate_exploration scenario state) state_failed

-- The state of format 1, with the eligibility that it did not have, and its new hash.
unfoldable pub migrate_state :
    Json
    → StateHash
    → ScenarioDefinition
    → ℕ
    → String
    → MatchState
    → Result (MatchState × String) PersistenceError
migrate_state json state_hash scenario source scenario_id state = do
  validate_envelope_scenario scenario_id scenario
  migrated ←
      map_err (migrate_promotion_eligibility scenario state)
        (λ e. migration_failed source (json.display e))
  map_err (validate_exploration scenario migrated) state_failed
  written ← map_err (canonical_hash state_hash migrated) state_failed
  ok (migrated, written)

-- A save of format 1.
unfoldable pub read_format_one :
    (json : Json)
    → StateHash
    → ScenarioDefinition
    → ℕ
    → json.Value
    → Result SaveEnvelope PersistenceError
read_format_one json state_hash scenario source value = do
  reject_legacy_fog_migration source scenario
  current ← set_version_fields json value save_format_version
  legacy ← map_err (json.save_of current) malformed_json
  migrated ← migrate_state json state_hash scenario source legacy.scenario_id legacy.state
  let envelope : SaveEnvelope = record legacy { state = migrated.0; state_hash = migrated.1 }
  validate_save state_hash envelope
  ok envelope

-- `SaveReader::read_with_scenario`.
unfoldable pub read_with_scenario :
    (json : Json)
    → StateHash
    → SaveReader json
    → List ℕ
    → ScenarioDefinition
    → Result SaveEnvelope PersistenceError
read_with_scenario json state_hash reader bytes scenario = do
  check_size bytes
  value ← map_err (json.parse bytes) malformed_json
  source ← declared_version json value
  (if nat_beq source save_format_version
      then (do
        envelope ← read json state_hash reader bytes
        check_against scenario envelope.scenario_id envelope.state
        ok envelope)
      else if nat_beq source 1
      then read_format_one json state_hash scenario source value
      else read json state_hash reader bytes)

-- `SnapshotEnvelope::from_json`.
unfoldable pub snapshot_from_json :
    Json → StateHash → List ℕ → Result SnapshotEnvelope PersistenceError
snapshot_from_json json state_hash bytes = do
  check_size bytes
  envelope ← map_err (json.read_snapshot bytes) malformed_json
  validate_snapshot state_hash envelope
  ok envelope

-- A snapshot of format 1.
unfoldable pub snapshot_format_one :
    (json : Json)
    → StateHash
    → ScenarioDefinition
    → ℕ
    → json.Value
    → Result SnapshotEnvelope PersistenceError
snapshot_format_one json state_hash scenario source value = do
  reject_legacy_fog_migration source scenario
  current ← set_version_fields json value snapshot_format_version
  legacy ← map_err (json.snapshot_of current) malformed_json
  migrated ← migrate_state json state_hash scenario source legacy.scenario_id legacy.state
  let envelope : SnapshotEnvelope = record legacy { state = migrated.0; state_hash = migrated.1 }
  validate_snapshot state_hash envelope
  ok envelope

-- `SnapshotEnvelope::from_json_with_scenario`.
unfoldable pub snapshot_from_json_with_scenario :
    (json : Json)
    → StateHash
    → List ℕ
    → ScenarioDefinition
    → Result SnapshotEnvelope PersistenceError
snapshot_from_json_with_scenario json state_hash bytes scenario = do
  check_size bytes
  value ← map_err (json.parse bytes) malformed_json
  source ← declared_version json value
  (if nat_beq source snapshot_format_version
      then (do
        envelope ← snapshot_from_json json state_hash bytes
        check_against scenario envelope.scenario_id envelope.state
        ok envelope)
      else do
        ensure (nat_beq source 1) (unsupported_snapshot_version source snapshot_format_version)
        snapshot_format_one json state_hash scenario source value)
