-- ===== src/Tests/Persistence.antt =====
-- A save of a match, and the theorems on saves at a concrete input.
use crownline.Prelude.{
  ℕ, ◌≡◌, refl, Bool-cases, inl, inr, Option, none, some, List, [], ◌∷◌, ◌==◌, string_eq, String,
  Result, ok, err, Ensures, arith, is_ok, true,
}
use native.Mathlib.Decide.{ℕ_discrete}
use mathlib.Core.HLevel.{Discrete}
use crownline.Scenario.Types.{north, south}
use crownline.State.Types.{MatchState}
use crownline.State.Repetition.{StateHash, canonical_hash}
use crownline.Scenario.Header.{scenario_schema_version}
use crownline.Persistence.Types.{
  save_format_version, SaveEnvelope, Json, snapshot_format_version, SnapshotEnvelope,
}
use crownline.Persistence.Envelope.{
  check_size, validate_payload, validate_save, new_save, encode_bounded, save_to_json,
  validate_snapshot, declared_version, validate_envelope_scenario,
}
use crownline.Persistence.Snapshots.{SnapshotFits, snapshot_from_json_with_scenario-SnapshotFits}
use crownline.Persistence.Reader.{
  check_against, migrate_value, snapshot_from_json, snapshot_from_json_with_scenario, SaveReader,
  read, read_with_scenario,
}
use crownline.Persistence.Belonging.{Fits, read_with_scenario-Fits}
use crownline.Persistence.Integrity.{WritesTrue, save_to_json-read}
use crownline.Persistence.Atomic.{AtomicSaveStorage, write_save_atomically}
use crownline.Persistence.Atomicity.{Contract, SaveOutcome, write_save_atomically-SaveOutcome}
use crownline.Evaluation.{evaluation}
use crownline.Examples.{demo, start}

abbrev demo_hash : StateHash
demo_hash state = elim state.active_player [ north ↦ some "north" | south ↦ some "south" ]

String-discrete : Discrete String
String-discrete a b = elim (Bool-cases (a == b)) [
  | inl same ↦ yes ((string_eq.beq_iff a b).0 same)
  | inr other ↦ no (λ e. cc ((string_eq.beq_iff a b).1 e))
]

state-discrete : Discrete MatchState
state-discrete = hlevel (ℕ_discrete, String-discrete)

save-discrete : Discrete SaveEnvelope
save-discrete = hlevel (ℕ_discrete, String-discrete)

abbrev saved_start : SaveEnvelope
saved_start = record {
  format_version = save_format_version;
  application_version = "1.0";
  scenario_schema_version = scenario_schema_version;
  scenario_id = start.scenario_id;
  state_hash = "south";
  state = start;
}

new_save-eq : new_save demo_hash "1.0" start ≡ ok saved_start
unfolding evaluation new_save validate_save validate_payload canonical_hash
new_save-eq = refl

abbrev start_snapshot : SnapshotEnvelope
start_snapshot = record {
  format_version = snapshot_format_version;
  application_version = "1.0";
  scenario_schema_version = scenario_schema_version;
  scenario_id = start.scenario_id;
  revision = start.revision;
  state_hash = "south";
  state = start;
}

-- An encoding that can write one save, as no bytes at all.
abbrev write_one : SaveEnvelope → Result (List ℕ) String
write_one e = elim (save-discrete e saved_start) [
  | yes same ↦ ok []
  | no other ↦ err "another save"
]

abbrev parse_one : List ℕ → Result SaveEnvelope String
parse_one [] = ok saved_start
parse_one (b ∷ rest) = err "no save"

abbrev one_save : Json
one_save = record {
  Value = SaveEnvelope;
  parse = parse_one;
  format_version = λ e. some e.format_version;
  set_versions = λ e format schema.
      some (record e { format_version = format; scenario_schema_version = schema });
  save_of = λ e. ok e;
  snapshot_of = λ e. ok start_snapshot;
  read_snapshot = λ bytes. ok start_snapshot;
  write_save = write_one;
  write_snapshot = λ e. err "no snapshot";
  display = λ e. "error";
}

one_save-WritesTrue : WritesTrue one_save
one_save-WritesTrue e bytes h = written (save-discrete e saved_start) h
  where
    written :
        (d : Dec (e ≡ saved_start))
        → ◌≡◌ {A = Result (List ℕ) String}
            (elim d [ yes e ↦ ok [] | no e ↦ err "another save" ])
            (ok bytes)
        → (value : SaveEnvelope) × (parse_one bytes ≡ ok value)
          × (◌≡◌ {A = Option ℕ} (some value.format_version) (some e.format_version))
          × (◌≡◌ {A = Result SaveEnvelope String} (ok value) (ok e))
    written (yes same) h = (e, cc, refl, refl)
    written (no other) h = cc

abbrev no_migrations : SaveReader one_save
no_migrations = record { migrations = [] }

read_with_scenario-Fits_example :
    Ensures (Fits demo_hash demo) (read_with_scenario one_save demo_hash no_migrations [] demo)
read_with_scenario-Fits_example = read_with_scenario-Fits one_save demo_hash [] demo

save_to_json-read_example :
    Ensures
      (λ bytes. read one_save demo_hash no_migrations bytes ≡ ok saved_start)
      (save_to_json one_save demo_hash saved_start)
save_to_json-read_example =
    save_to_json-read one_save demo_hash no_migrations saved_start one_save-WritesTrue

snapshot-is_ok : is_ok (snapshot_from_json_with_scenario one_save demo_hash [] demo) ≡ true
unfolding evaluation canonical_hash check_size declared_version validate_envelope_scenario
    validate_payload validate_snapshot check_against snapshot_from_json
    snapshot_from_json_with_scenario
snapshot-is_ok = refl

snapshot_from_json_with_scenario-SnapshotFits_example :
    Ensures
      (SnapshotFits demo_hash demo)
      (snapshot_from_json_with_scenario one_save demo_hash [] demo)
snapshot_from_json_with_scenario-SnapshotFits_example =
    snapshot_from_json_with_scenario-SnapshotFits one_save demo_hash [] demo

save-is_ok : is_ok (read_with_scenario one_save demo_hash no_migrations [] demo) ≡ true
unfolding evaluation canonical_hash check_size declared_version validate_envelope_scenario
    validate_payload validate_save check_against migrate_value read read_with_scenario
save-is_ok = refl

-- A disk with a save and a temporary file.
record Disk : Type 0 where
  saved : Option (List ℕ)
  temporary : Option (List ℕ)

abbrev read_disk : Disk → Option (List ℕ) → Disk × Result (List ℕ) String
read_disk disk none = (disk, err "no temporary file")
read_disk disk (some bytes) = (disk, ok bytes)

abbrev replace_disk : Disk → Option (List ℕ) → Disk × Result (Unit {0}) String
replace_disk disk none = (disk, err "no temporary file")
replace_disk disk (some bytes) = (record { saved = some bytes; temporary = none }, ok tt)

abbrev disk_host : AtomicSaveStorage Disk
disk_host = record {
  write_temporary = λ disk bytes. (record disk { temporary = some bytes }, ok tt);
  read_temporary = λ disk. read_disk disk disk.temporary;
  replace_with_temporary = λ disk. replace_disk disk disk.temporary;
  discard_temporary = λ disk. record disk { temporary = none };
  saved = λ disk. disk.saved;
  temporary = λ disk. disk.temporary;
}

disk_host-Contract : Contract disk_host
disk_host-Contract = record {
  write_keeps = λ disk bytes. refl;
  read_keeps = λ disk. ground arith;
  read_true = λ disk bytes h. ground arith;
  discard_keeps = λ disk. refl;
  replace_done = λ disk h. ground arith;
  replace_failed = λ disk message h. ground arith;
}

abbrev empty_disk : Disk
empty_disk = record { saved = none; temporary = none }

write_save_atomically-SaveOutcome_example :
    SaveOutcome one_save demo_hash disk_host empty_disk
      (write_save_atomically one_save demo_hash disk_host empty_disk saved_start)
write_save_atomically-SaveOutcome_example =
    write_save_atomically-SaveOutcome one_save demo_hash disk_host empty_disk saved_start
      disk_host-Contract

-- The encoding does write the save.
written-eq : write_one saved_start ≡ ok []
written-eq = decided (save-discrete saved_start saved_start)
  where
    decided :
        (d : Dec (saved_start ≡ saved_start))
        → ◌≡◌ {A = Result (List ℕ) String}
            (elim d [ yes e ↦ ok [] | no e ↦ err "another save" ])
            (ok [])
    decided (yes same) = refl
    decided (no other) = absurd (other refl)

saved-valid : validate_save demo_hash saved_start ≡ ok tt
unfolding evaluation validate_save validate_payload canonical_hash
saved-valid = refl

saved-bytes : save_to_json one_save demo_hash saved_start ≡ ok []
unfolding save_to_json encode_bounded check_size
saved-bytes = rw (saved-valid, written-eq) refl
