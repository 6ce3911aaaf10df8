-- ===== src/Persistence/Integrity.antt =====
-- What a save that can be read is like, in crates/crownline_core/src/persistence.rs.
use crownline.Prelude.{
  ℕ, ◌≡◌, ◌∙◌, refl, ap, not, List, arith, nat_beq, ◌==◌, string_eq, some, ok, ensure, map_err,
  map_err-eq-ok, >>=-eq-ok, Ensures, >>=-Ensures_any,
}
use crownline.Scenario.Header.{scenario_schema_version, is_blank}
use crownline.State.Invariants.{validate_invariants}
use crownline.State.WellFormed.{WellFormed, validate-WellFormed}
use crownline.State.Repetition.{StateHash, canonical_hash}
use crownline.Persistence.Types.{
  save_format_version, SaveEnvelope, malformed_json, state_failed, wrong_format_version,
  missing_application_version, unsupported_scenario_version, scenario_mismatch, Json,
}
use crownline.Persistence.Envelope.{
  check_size, validate_payload, validate_save, encode_bounded, save_to_json, declared_version,
}
use crownline.Persistence.Reader.{SaveReader, migrate_value, read}

-- The envelope is of the present format and describes its state, which satisfies the invariants.
pub record Intact (state_hash : StateHash) (e : SaveEnvelope) : Type 0 where
  pub format : e.format_version ≡ save_format_version
  pub scenario : e.scenario_id ≡ e.state.scenario_id
  pub well_formed : WellFormed e.state
  pub hashed : canonical_hash state_hash e.state ≡ ok e.state_hash

pub validate_save-Intact :
    (state_hash : StateHash) (e : SaveEnvelope)
    → validate_save state_hash e ≡ ok tt
    → Intact state_hash e
unfolding validate_save validate_payload
validate_save-Intact state_hash e h =
    let (a, format, h1) =
      >>=-eq-ok
        (ensure (nat_beq e.format_version save_format_version)
          (wrong_format_version e.format_version save_format_version))
        _ h in
    let (b, named, h2) =
      >>=-eq-ok (ensure (not (is_blank e.application_version)) missing_application_version) _ h1 in
    let (c, schema, h3) =
      >>=-eq-ok
        (ensure (nat_beq e.scenario_schema_version scenario_schema_version)
          (unsupported_scenario_version e.scenario_schema_version scenario_schema_version))
        _ h2 in
    let (d, scenario, h4) =
      >>=-eq-ok
        (ensure (e.scenario_id == e.state.scenario_id)
          (scenario_mismatch e.scenario_id e.state.scenario_id))
        _ h3 in
    let (f, sound, h5) = >>=-eq-ok (map_err (validate_invariants e.state) state_failed) _ h4 in
    let (actual, hashed, same) =
      >>=-eq-ok (map_err (canonical_hash state_hash e.state) state_failed) _ h5 in
    record {
      format = ground (arith, format);
      scenario = ground (arith, scenario, string_eq.beq_iff e.scenario_id e.state.scenario_id);
      well_formed =
          validate-WellFormed e.state (map_err-eq-ok _ state_failed (ground (arith, sound)));
      hashed =
          map_err-eq-ok _ state_failed
            (ground (arith, hashed, same, string_eq.beq_iff e.state_hash actual));
    }

-- A save that is read is of the present format, belongs to the scenario of its state, carries the
-- hash of its state, and its state satisfies the invariants, whatever the bytes were.
pub read-Intact :
    (json : Json) (state_hash : StateHash) (reader : SaveReader json) (bytes : List ℕ)
    → Ensures (Intact state_hash) (read json state_hash reader bytes)
unfolding read
read-Intact json state_hash reader bytes =
    let P = Intact state_hash in
    >>=-Ensures_any P (check_size bytes) _ λ _ _.
      >>=-Ensures_any P (map_err (json.parse bytes) malformed_json) _ λ value _.
        >>=-Ensures_any P (declared_version json value) _ λ source _.
          >>=-Ensures_any P (migrate_value json reader source value) _ λ current _.
            >>=-Ensures_any P (map_err (json.save_of current) malformed_json) _ λ e _.
              >>=-Ensures_any P (validate_save state_hash e) _
                λ _ valid. validate_save-Intact state_hash e valid

-- What the encoder writes is read as it was, with the version that the envelope declares.
abbrev pub WritesTrue : Json → Type 0
WritesTrue json =
    (e : SaveEnvelope) (bytes : List ℕ)
    → json.write_save e ≡ ok bytes
    → (value : json.Value) × (json.parse bytes ≡ ok value)
      × (json.format_version value ≡ some e.format_version)
      × (json.save_of value ≡ ok e)

reads_back :
    (json : Json) (state_hash : StateHash) (reader : SaveReader json) (e : SaveEnvelope)
    (bytes : List ℕ) (value : json.Value)
    → check_size bytes ≡ ok tt
    → validate_save state_hash e ≡ ok tt
    → json.parse bytes ≡ ok value
    → json.format_version value ≡ some save_format_version
    → json.save_of value ≡ ok e
    → read json state_hash reader bytes ≡ ok e
unfolding read declared_version migrate_value
reads_back json state_hash reader e bytes value fits valid parsed version decoded =
    rw (fits, parsed, version, decoded, valid) refl

-- A save that is written is read back as it was, by a reader with any migrations.
pub save_to_json-read :
    (json : Json) (state_hash : StateHash) (reader : SaveReader json) (e : SaveEnvelope)
    → WritesTrue json
    → Ensures (λ bytes. read json state_hash reader bytes ≡ ok e) (save_to_json json state_hash e)
unfolding save_to_json encode_bounded
save_to_json-read json state_hash reader e writes =
    let P : List ℕ → Type 0 = λ bytes. read json state_hash reader bytes ≡ ok e in
    >>=-Ensures_any P (validate_save state_hash e) _ λ _ valid.
      >>=-Ensures_any P (map_err (json.write_save e) malformed_json) _ λ bytes written.
        >>=-Ensures_any P (check_size bytes) _ λ _ fits.
          let (value, parsed, version, decoded) =
            writes e bytes (map_err-eq-ok _ malformed_json written) in
          reads_back json state_hash reader e bytes value fits valid parsed
            (version ∙ ap some (validate_save-Intact state_hash e valid).format) decoded
