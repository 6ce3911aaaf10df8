-- ===== src/Persistence/Types.antt =====
-- The data of crates/crownline_core/src/persistence.rs.
use crownline.Prelude.{ℕ, Option, List, String, Result}
use crownline.State.Types.{MatchState}
use crownline.State.Errors.{TransitionError}

abbrev pub save_format_version : ℕ
save_format_version = 2

abbrev pub snapshot_format_version : ℕ
snapshot_format_version = 2

abbrev pub max_persisted_bytes : ℕ
max_persisted_bytes = 4194304

pub record SaveEnvelope : Type 0 where
  pub format_version : ℕ
  pub application_version : String
  pub scenario_schema_version : ℕ
  pub scenario_id : String
  pub state_hash : String
  pub state : MatchState

pub record SnapshotEnvelope : Type 0 where
  pub format_version : ℕ
  pub application_version : String
  pub scenario_schema_version : ℕ
  pub scenario_id : String
  pub revision : ℕ
  pub state_hash : String
  pub state : MatchState

pub data AtomicWriteStage : Type 0 where
  write_stage read_stage replace_stage : AtomicWriteStage

pub data PersistenceError : Type 0 where
  malformed_json : (message : String) → PersistenceError
  too_large : (size maximum : ℕ) → PersistenceError
  missing_format_version : PersistenceError
  unsupported_save_version : (found current : ℕ) → PersistenceError
  unsupported_snapshot_version : (found current : ℕ) → PersistenceError
  wrong_format_version : (found expected : ℕ) → PersistenceError
  migration_failed : (source_version : ℕ) (message : String) → PersistenceError
  missing_application_version : PersistenceError
  unsupported_scenario_version : (found current : ℕ) → PersistenceError
  scenario_mismatch : (envelope state : String) → PersistenceError
  state_failed : TransitionError → PersistenceError
  integrity_mismatch : PersistenceError
  revision_mismatch : (envelope state : ℕ) → PersistenceError
  atomic_write : (stage : AtomicWriteStage) (message : String) → PersistenceError
  temporary_validation : PersistenceError → PersistenceError

-- `serde_json`, which is not part of this repository, on bytes, JSON values and envelopes; the
-- fields that the code reads and writes in a value; and `Display` of a transition error. A snapshot
-- is decoded from the bytes themselves by `read_snapshot`, or from a value.
pub record Json : Type 1 where
  pub Value : Type 0
  pub parse : List ℕ → Result Value String
  pub format_version : Value → Option ℕ
  pub set_versions : Value → ℕ → ℕ → Option Value
  pub save_of : Value → Result SaveEnvelope String
  pub snapshot_of : Value → Result SnapshotEnvelope String
  pub read_snapshot : List ℕ → Result SnapshotEnvelope String
  pub write_save : SaveEnvelope → Result (List ℕ) String
  pub write_snapshot : SnapshotEnvelope → Result (List ℕ) String
  pub display : TransitionError → String
