-- ===== src/Persistence/Snapshots.antt =====
-- What a snapshot that is read for a scenario is like, in crates/crownline_core/src/persistence.rs.
use crownline.Prelude.{
  ℕ, ◌≡◌, List, arith, Bool-cases, inl, inr, nat_beq, nat_beq_iff, ok, ensure, map_err, >>=-eq-ok,
  Ensures, >>=-Ensures, >>=-Ensures_any,
}
use crownline.Scenario.Types.{ScenarioDefinition}
use crownline.State.Repetition.{StateHash}
use crownline.Persistence.Types.{
  snapshot_format_version, SaveEnvelope, SnapshotEnvelope, malformed_json,
  unsupported_snapshot_version, Json,
}
use crownline.Persistence.Envelope.{
  check_size, validate_save, validate_snapshot, declared_version, set_version_fields,
  reject_legacy_fog_migration,
}
use crownline.Persistence.Reader.{
  check_against, snapshot_from_json, snapshot_format_one, snapshot_from_json_with_scenario,
}
use crownline.Persistence.Integrity.{Intact, validate_save-Intact}
use crownline.Persistence.Belonging.{Belongs, check_against-Belongs, migrate_state-Belongs}

-- The save of the same state.
abbrev pub as_save : SnapshotEnvelope → SaveEnvelope
as_save e = record {
  format_version = e.format_version;
  application_version = e.application_version;
  scenario_schema_version = e.scenario_schema_version;
  scenario_id = e.scenario_id;
  state_hash = e.state_hash;
  state = e.state;
}

-- The snapshot is intact as a save is, and of the revision of its state.
abbrev pub SnapshotIntact : StateHash → SnapshotEnvelope → Type 0
SnapshotIntact state_hash e = Intact state_hash (as_save e) × (e.revision ≡ e.state.revision)

validate_snapshot-Intact :
    (state_hash : StateHash) (e : SnapshotEnvelope)
    → validate_snapshot state_hash e ≡ ok tt
    → SnapshotIntact state_hash e
unfolding validate_snapshot validate_save
validate_snapshot-Intact state_hash e h =
    let (_, valid, same) = >>=-eq-ok (validate_save state_hash (as_save e)) _ h in
    (
      validate_save-Intact state_hash (as_save e) (ground (arith, valid)),
      ground (arith, same, nat_beq_iff e.revision e.state.revision),
    )

snapshot_from_json-Intact :
    (json : Json) (state_hash : StateHash) (bytes : List ℕ)
    → Ensures (SnapshotIntact state_hash) (snapshot_from_json json state_hash bytes)
unfolding snapshot_from_json
snapshot_from_json-Intact json state_hash bytes =
    let P = SnapshotIntact state_hash in
    >>=-Ensures_any P (check_size bytes) _ λ _ _.
      >>=-Ensures_any P (map_err (json.read_snapshot bytes) malformed_json) _ λ e _.
        >>=-Ensures_any P (validate_snapshot state_hash e) _
          λ _ valid. validate_snapshot-Intact state_hash e valid

-- A snapshot that is intact and belongs to the scenario.
abbrev pub SnapshotFits : StateHash → ScenarioDefinition → SnapshotEnvelope → Type 0
SnapshotFits state_hash scenario e =
    SnapshotIntact state_hash e × Belongs scenario e.scenario_id e.state

snapshot_format_one-Fits :
    (json : Json) (state_hash : StateHash) (scenario : ScenarioDefinition) (source : ℕ)
    (value : json.Value)
    → Ensures
        (SnapshotFits state_hash scenario)
        (snapshot_format_one json state_hash scenario source value)
unfolding snapshot_format_one
snapshot_format_one-Fits json state_hash scenario source value =
    let P = SnapshotFits state_hash scenario in
    >>=-Ensures_any P (reject_legacy_fog_migration source scenario) _ λ _ _.
      >>=-Ensures_any P (set_version_fields json value snapshot_format_version) _ λ current _.
        >>=-Ensures_any P (map_err (json.snapshot_of current) malformed_json) _ λ legacy _.
          >>=-Ensures (λ m. Belongs scenario legacy.scenario_id m.0) P _ _
            (migrate_state-Belongs json state_hash scenario source legacy.scenario_id legacy.state)
            λ migrated belongs.
              let e : SnapshotEnvelope = record legacy {
                state = migrated.0;
                state_hash = migrated.1;
              } in
              >>=-Ensures_any P (validate_snapshot state_hash e) _
                λ _ valid. (validate_snapshot-Intact state_hash e valid, belongs)

-- A snapshot that is read for a scenario is of the revision of its state and carries its hash, its
-- scenario is playable, and its state satisfies the invariants and passes the checks of its
-- promotions and of its exploration against that scenario, also where it was migrated from format 1.
pub snapshot_from_json_with_scenario-SnapshotFits :
    (json : Json) (state_hash : StateHash) (bytes : List ℕ) (scenario : ScenarioDefinition)
    → Ensures
        (SnapshotFits state_hash scenario)
        (snapshot_from_json_with_scenario json state_hash bytes scenario)
unfolding snapshot_from_json_with_scenario
snapshot_from_json_with_scenario-SnapshotFits json state_hash bytes scenario =
    let P = SnapshotFits state_hash scenario in
    >>=-Ensures_any P (check_size bytes) _ λ _ _.
      >>=-Ensures_any P (map_err (json.parse bytes) malformed_json) _ λ value _.
        >>=-Ensures_any P (declared_version json value) _ λ source _.
          elim (Bool-cases (nat_beq source snapshot_format_version)) [
            | inl present ↦ rw present (
                >>=-Ensures (SnapshotIntact state_hash) P _ _
                  (snapshot_from_json-Intact json state_hash bytes)
                  λ e intact.
                    >>=-Ensures_any P (check_against scenario e.scenario_id e.state) _ λ _ checked.
                      (intact, check_against-Belongs scenario e.scenario_id e.state checked))
            | inr other ↦ rw other (
                >>=-Ensures_any P
                  (ensure (nat_beq source 1)
                    (unsupported_snapshot_version source snapshot_format_version))
                  _ λ _ _. snapshot_format_one-Fits json state_hash scenario source value)
          ]
