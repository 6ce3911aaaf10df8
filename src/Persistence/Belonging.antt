-- ===== src/Persistence/Belonging.antt =====
-- What a save or a snapshot that is read for a scenario is like, in
-- crates/crownline_core/src/persistence.rs.
use crownline.Prelude.{
  ℕ, ◌≡◌, refl, Bool-cases, inl, inr, false, List, [], ◌∷◌, arith, nat_beq, string_eq, String,
  Option, none, ok, ◌>>◌, any, map_err, map_err-eq-ok, map_err-Ensures, >>=-eq-ok, Ensures,
  >>=-Ensures, >>=-Ensures_any,
}
use crownline.Prelude.Map
use crownline.Scenario.Types.{ScenarioDefinition}
use crownline.Scenario.Errors.{ScenarioError}
use crownline.Scenario.Validate.{validate}
use crownline.Scenario.Sound.{Playable, validate-Playable}
use crownline.State.Types.{
  MatchState, MandatoryChoice, promote, place_pawn, TurnPhase, command, resolving_choices,
  PromotionEligibility, from_control,
}
use crownline.State.Errors.{invalid_scenario}
use crownline.State.Repetition.{StateHash, canonical_hash}
use crownline.State.Vision.{validate_exploration}
use crownline.Rules.Realm.{realm_control_score}
use crownline.Rules.Promotions.{
  pending, is_promotion, with_eligibility, check_batch, check_phase, validate_promotion_eligibility,
  migrate_promotion_eligibility,
}
use crownline.Persistence.Types.{
  save_format_version, SaveEnvelope, PersistenceError, malformed_json, state_failed, Json,
}
use crownline.Persistence.Envelope.{
  check_size, validate_save, declared_version, set_version_fields, validate_envelope_scenario,
  reject_legacy_fog_migration,
}
use crownline.Persistence.Reader.{
  migrate_value, read, check_against, migrate_state, read_format_one, read_with_scenario,
}
use crownline.Persistence.Integrity.{Intact, validate_save-Intact, read-Intact}

-- The scenario is playable and the named one, and the state passes its checks against it.
pub record Belongs (scenario : ScenarioDefinition) (scenario_id : String) (state : MatchState)
    : Type 0 where
  pub playable : Playable scenario
  pub named : scenario_id ≡ scenario.id
  pub eligible : validate_promotion_eligibility scenario state ≡ ok tt
  pub explored : validate_exploration scenario state ≡ ok tt

check_batch-none :
    (scenario : ScenarioDefinition) (queue : List MandatoryChoice)
    (batch : Option PromotionEligibility)
    → any is_promotion queue ≡ false
    → check_batch scenario queue batch ≡ ok tt
unfolding check_batch
check_batch-none scenario [] batch h = refl
check_batch-none scenario (place_pawn index squares ∷ rest) batch h =
    check_batch-none scenario rest batch h
check_batch-none scenario (promote piece index eligibility ∷ rest) batch h = cc

check_phase-none :
    (scenario : ScenarioDefinition) (phase : TurnPhase)
    → any is_promotion (pending phase) ≡ false
    → check_phase scenario phase ≡ ok tt
check_phase-none scenario command h = refl
check_phase-none scenario (resolving_choices queue) h = check_batch-none scenario queue none h

validate_promotion_eligibility-none :
    (scenario : ScenarioDefinition) (state : MatchState)
    → any is_promotion (pending state.phase) ≡ false
    → validate_promotion_eligibility scenario state ≡ ok tt
unfolding validate_promotion_eligibility
validate_promotion_eligibility-none scenario state idle = check_phase-none scenario state.phase idle

-- A migrated state has the eligibility that the check asks for.
migrate_promotion_eligibility-valid :
    (scenario : ScenarioDefinition) (state : MatchState)
    → Ensures
        (λ migrated. validate_promotion_eligibility scenario migrated ≡ ok tt)
        (migrate_promotion_eligibility scenario state)
unfolding migrate_promotion_eligibility
migrate_promotion_eligibility-valid scenario state =
    let P : MatchState → Type 0 =
      λ migrated. validate_promotion_eligibility scenario migrated ≡ ok tt in
    elim (Bool-cases (any is_promotion (pending state.phase))) [
      | inl waiting ↦ rw waiting (
          >>=-Ensures_any P (realm_control_score scenario state state.active_player) _ λ control _.
            checked (record state {
              phase = resolving_choices (
                  with_eligibility (from_control control scenario.rules.promotion_unlocks)
                    (pending state.phase));
            }))
      | inr idle ↦ rw idle (validate_promotion_eligibility-none scenario state idle)
    ]
  where
    checked :
        (migrated : MatchState)
        → Ensures
            (λ m. validate_promotion_eligibility scenario m ≡ ok tt)
            (validate_promotion_eligibility scenario migrated >> ok migrated)
    checked migrated =
        >>=-Ensures_any (λ m. validate_promotion_eligibility scenario m ≡ ok tt)
          (validate_promotion_eligibility scenario migrated) (λ _. ok migrated) λ _ valid. valid

validate_envelope_scenario-named :
    (scenario_id : String) (scenario : ScenarioDefinition)
    → validate_envelope_scenario scenario_id scenario ≡ ok tt
    → Playable scenario × (scenario_id ≡ scenario.id)
unfolding validate_envelope_scenario
validate_envelope_scenario-named scenario_id scenario h =
    let invalid : List ScenarioError → PersistenceError =
      λ errors. state_failed (invalid_scenario errors) in
    let (_, valid, named) = >>=-eq-ok (map_err (validate scenario) invalid) _ h in
    (
      validate-Playable scenario (map_err-eq-ok _ invalid (ground (arith, valid))),
      ground (arith, named, string_eq.beq_iff scenario_id scenario.id),
    )

pub check_against-Belongs :
    (scenario : ScenarioDefinition) (scenario_id : String) (state : MatchState)
    → check_against scenario scenario_id state ≡ ok tt
    → Belongs scenario scenario_id state
unfolding check_against
check_against-Belongs scenario scenario_id state h =
    let (_, known, h1) = >>=-eq-ok (validate_envelope_scenario scenario_id scenario) _ h in
    let (_, eligible, explored) =
      >>=-eq-ok (map_err (validate_promotion_eligibility scenario state) state_failed) _ h1 in
    let (playable, named) = validate_envelope_scenario-named scenario_id scenario known in
    record {
      playable = playable;
      named = named;
      eligible = map_err-eq-ok _ state_failed eligible;
      explored = map_err-eq-ok _ state_failed explored;
    }

pub migrate_state-Belongs :
    (json : Json) (state_hash : StateHash) (scenario : ScenarioDefinition) (source : ℕ)
    (scenario_id : String) (state : MatchState)
    → Ensures
        (λ m. Belongs scenario scenario_id m.0)
        (migrate_state json state_hash scenario source scenario_id state)
unfolding migrate_state
migrate_state-Belongs json state_hash scenario source scenario_id state =
    let P : MatchState × String → Type 0 = λ m. Belongs scenario scenario_id m.0 in
    >>=-Ensures_any P (validate_envelope_scenario scenario_id scenario) _ λ _ known.
      >>=-Ensures (λ m. validate_promotion_eligibility scenario m ≡ ok tt) P _ _
        (map_err-Ensures (λ m. validate_promotion_eligibility scenario m ≡ ok tt) _ _
          (migrate_promotion_eligibility-valid scenario state))
        λ migrated eligible.
          >>=-Ensures_any P (map_err (validate_exploration scenario migrated) state_failed) _
            λ _ explored.
              >>=-Ensures_any P (map_err (canonical_hash state_hash migrated) state_failed) _
                λ written _.
                  let (playable, named) =
                    validate_envelope_scenario-named scenario_id scenario known in
                  record {
                    playable = playable;
                    named = named;
                    eligible = eligible;
                    explored = map_err-eq-ok _ state_failed explored;
                  }

-- A save that is intact and belongs to the scenario.
abbrev pub Fits : StateHash → ScenarioDefinition → SaveEnvelope → Type 0
Fits state_hash scenario e = Intact state_hash e × Belongs scenario e.scenario_id e.state

read_format_one-Fits :
    (json : Json) (state_hash : StateHash) (scenario : ScenarioDefinition) (source : ℕ)
    (value : json.Value)
    → Ensures (Fits state_hash scenario) (read_format_one json state_hash scenario source value)
unfolding read_format_one
read_format_one-Fits json state_hash scenario source value =
    let P = Fits state_hash scenario in
    >>=-Ensures_any P (reject_legacy_fog_migration source scenario) _ λ _ _.
      >>=-Ensures_any P (set_version_fields json value save_format_version) _ λ current _.
        >>=-Ensures_any P (map_err (json.save_of current) malformed_json) _ λ legacy _.
          >>=-Ensures (λ m. Belongs scenario legacy.scenario_id m.0) P _ _
            (migrate_state-Belongs json state_hash scenario source legacy.scenario_id legacy.state)
            λ migrated belongs.
              let e : SaveEnvelope = record legacy {
                state = migrated.0;
                state_hash = migrated.1;
              } in
              >>=-Ensures_any P (validate_save state_hash e) _
                λ _ valid. (validate_save-Intact state_hash e valid, belongs)

-- Without migrations a save of another format is refused.
read-refused :
    (json : Json) (state_hash : StateHash) (bytes : List ℕ) (value : json.Value) (source : ℕ)
    (P : SaveEnvelope → Type 0)
    → json.parse bytes ≡ ok value
    → declared_version json value ≡ ok source
    → nat_beq source save_format_version ≡ false
    → Ensures P (read json state_hash (record { migrations = [] }) bytes)
unfolding read migrate_value Map.get
read-refused json state_hash bytes value source P parsed declared other =
    >>=-Ensures_any P (check_size bytes) _ λ _ _. rw (parsed, declared, other) tt

-- A save that is read for a scenario, by a reader without migrations of its own, is intact, its
-- scenario is playable, and its state passes the checks of its promotions and of its exploration
-- against that scenario, also where it was migrated from format 1.
pub read_with_scenario-Fits :
    (json : Json) (state_hash : StateHash) (bytes : List ℕ) (scenario : ScenarioDefinition)
    → Ensures
        (Fits state_hash scenario)
        (read_with_scenario json state_hash (record { migrations = [] }) bytes scenario)
unfolding read_with_scenario
read_with_scenario-Fits json state_hash bytes scenario =
    let P = Fits state_hash scenario in
    >>=-Ensures_any P (check_size bytes) _ λ _ _.
      >>=-Ensures_any P (map_err (json.parse bytes) malformed_json) _ λ value parsed.
        >>=-Ensures_any P (declared_version json value) _ λ source declared.
          elim (Bool-cases (nat_beq source save_format_version)) [
            | inl present ↦ rw present (
                >>=-Ensures (Intact state_hash) P _ _
                  (read-Intact json state_hash (record { migrations = [] }) bytes)
                  λ e intact.
                    >>=-Ensures_any P (check_against scenario e.scenario_id e.state) _ λ _ checked.
                      (intact, check_against-Belongs scenario e.scenario_id e.state checked))
            | inr other ↦ elim (Bool-cases (nat_beq source 1)) [
              | inl first ↦
                  rw (other, first) (read_format_one-Fits json state_hash scenario source value)
              | inr later ↦
                  rw (other, later)
                    (read-refused json state_hash bytes value source P
                      (map_err-eq-ok _ malformed_json parsed) declared other)
            ]
          ]
