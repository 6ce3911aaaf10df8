-- ===== src/Journal/Migration.antt =====
-- What reading a journal gives, in crates/crownline_core/src/journal.rs.
use crownline.Prelude.{
  ℕ, ◌≡◌, refl, List, [], ◌∷◌, arith, nat_beq, ok, ensure, map_err, map_err-eq-ok, Ensures,
  Ensures-ok, Ensures-map, >>=-Ensures, >>=-Ensures_any, string_eq,
}
use crownline.Scenario.Types.{ScenarioDefinition}
use crownline.State.Types.{MatchState}
use crownline.State.Repetition.{Digest, StateHash}
use crownline.State.Create.{from_scenario}
use crownline.Journal.Types.{
  JournalRecord, ActionJournal, AppendOutcome, accepted, duplicate, malformed_json,
  transition_failed,
}
use crownline.Journal.Append.{hash, validate_static, validate_header, append_timed}
use crownline.Journal.Replay.{replay}
use crownline.Journal.Session.{empty-replay}
use crownline.Journal.RoundTrip.{replay-append_timed}
use crownline.Journal.Codec.{
  JournalCodec, RoundTrips, check_size, to_json, from_json, accepted_state, check_legacy,
  empty_successor, migrate_record, migrate_records, migrate_format_one,
}

-- A journal that was written is read back as it was.
pub to_json-from_json :
    (codec : JournalCodec) (journal : ActionJournal)
    → RoundTrips codec
    → Ensures (λ bytes. from_json codec bytes ≡ ok journal) (to_json codec journal)
unfolding to_json from_json
to_json-from_json codec journal trips =
    let P : List ℕ → Type 0 = λ bytes. from_json codec bytes ≡ ok journal in
    >>=-Ensures_any P (validate_static journal) _ λ _ valid.
      >>=-Ensures_any P (map_err (codec.encode journal) malformed_json) _ λ bytes encoded.
        >>=-Ensures_any P (check_size bytes) _ λ _ fits.
          rw (fits, trips journal bytes (map_err-eq-ok _ malformed_json encoded), valid) refl

-- The journal replays to the state beside it.
abbrev Replays : Digest → StateHash → ScenarioDefinition → ActionJournal × MatchState → Type 0
Replays digest state_hash scenario p = replay digest state_hash p.0 scenario ≡ ok p.1

accepted_state-Replays :
    (digest : Digest) (state_hash : StateHash) (scenario : ScenarioDefinition) (source : ℕ)
    (migrated : ActionJournal) (state : MatchState) (r : JournalRecord)
    (outcome : ActionJournal × AppendOutcome)
    → replay digest state_hash migrated scenario ≡ ok state
    → append_timed digest state_hash migrated scenario state r.idempotency_key r.action
        r.elapsed_millis
      ≡ ok outcome
    → Ensures (Replays digest state_hash scenario) (accepted_state source outcome)
accepted_state-Replays digest state_hash scenario source migrated state r (j, accepted t) h k =
    replay-append_timed digest state_hash migrated scenario state r.idempotency_key r.action
      r.elapsed_millis h k
accepted_state-Replays digest state_hash scenario source migrated state r (j, duplicate n w) h k =
    tt

migrate_record-Replays :
    (digest : Digest) (state_hash : StateHash) (codec : JournalCodec)
    (scenario : ScenarioDefinition) (source : ℕ) (migrated : ActionJournal) (state : MatchState)
    (r : JournalRecord)
    → replay digest state_hash migrated scenario ≡ ok state
    → Ensures
        (Replays digest state_hash scenario)
        (migrate_record digest state_hash codec scenario source migrated state r)
unfolding migrate_record
migrate_record-Replays digest state_hash codec scenario source migrated state r h =
    let P = Replays digest state_hash scenario in
    >>=-Ensures_any P (ensure (nat_beq r.revision_before state.revision) _) _ λ _ _.
      >>=-Ensures_any P
        (map_err
          (append_timed digest state_hash migrated scenario state r.idempotency_key r.action
            r.elapsed_millis)
          _)
        _
        λ outcome done.
          accepted_state-Replays digest state_hash scenario source migrated state r outcome h
            (map_err-eq-ok _ _ done)

migrate_record-header :
    (digest : Digest) (state_hash : StateHash) (codec : JournalCodec)
    (scenario : ScenarioDefinition) (source : ℕ) (migrated : ActionJournal) (state : MatchState)
    (r : JournalRecord) {next : ActionJournal × MatchState}
    → migrate_record digest state_hash codec scenario source migrated state r ≡ ok next
    → validate_header migrated scenario ≡ ok tt
unfolding migrate_record append_timed
migrate_record-header digest state_hash codec scenario source migrated state r h = ground (arith, h)

migrate_records-replay :
    (digest : Digest) (state_hash : StateHash) (codec : JournalCodec)
    (scenario : ScenarioDefinition) (source : ℕ) (migrated : ActionJournal) (state : MatchState)
    (rs : List JournalRecord)
    → replay digest state_hash migrated scenario ≡ ok state
    → Ensures
        (λ j. (s : MatchState) × (replay digest state_hash j scenario ≡ ok s))
        (migrate_records digest state_hash codec scenario source migrated state rs)
unfolding migrate_records
migrate_records-replay digest state_hash codec scenario source migrated state [] h = (state, h)
migrate_records-replay digest state_hash codec scenario source migrated state (r ∷ rs) h =
    >>=-Ensures (Replays digest state_hash scenario) _ _ _
      (migrate_record-Replays digest state_hash codec scenario source migrated state r h)
      λ next. migrate_records-replay digest state_hash codec scenario source next.0 next.1 rs

-- The records of a legacy journal, appended to an empty one.
fresh_records-replay :
    (digest : Digest) (state_hash : StateHash) (codec : JournalCodec)
    (scenario : ScenarioDefinition) (source : ℕ) (fresh : ActionJournal) (state : MatchState)
    (rs : List JournalRecord)
    → (validate_header fresh scenario ≡ ok tt → replay digest state_hash fresh scenario ≡ ok state)
    → Ensures
        (λ j.
          validate_header j scenario ≡ ok tt
          → (s : MatchState) × (replay digest state_hash j scenario ≡ ok s))
        (migrate_records digest state_hash codec scenario source fresh state rs)
unfolding migrate_records
fresh_records-replay digest state_hash codec scenario source fresh state [] h =
    λ valid. (state, h valid)
fresh_records-replay digest state_hash codec scenario source fresh state (r ∷ rs) h =
    >>=-Ensures_any _ (migrate_record digest state_hash codec scenario source fresh state r) _
      λ next done.
        let header =
          migrate_record-header digest state_hash codec scenario source fresh state r done in
        let replays = Ensures-ok (Replays digest state_hash scenario) _ done (
          migrate_record-Replays digest state_hash codec scenario source fresh state r
            (h header)) in
        let Found : ActionJournal → Type 0 =
          λ j. (s : MatchState) × (replay digest state_hash j scenario ≡ ok s) in
        Ensures-map Found (λ j. validate_header j scenario ≡ ok tt → Found j) _ (λ j found _. found)
          (migrate_records-replay digest state_hash codec scenario source next.0 next.1 rs replays)

-- A journal that is migrated from format 1 replays under the present rules.
pub migrate_format_one-replay :
    (digest : Digest) (state_hash : StateHash) (codec : JournalCodec) (legacy : ActionJournal)
    (scenario : ScenarioDefinition)
    → Ensures
        (λ j. (s : MatchState) × (replay digest state_hash j scenario ≡ ok s))
        (migrate_format_one digest state_hash codec legacy scenario)
unfolding migrate_format_one
migrate_format_one-replay digest state_hash codec legacy scenario =
    let P : ActionJournal → Type 0 =
      λ j. (s : MatchState) × (replay digest state_hash j scenario ≡ ok s) in
    >>=-Ensures_any P (check_legacy legacy scenario) _ λ _ _.
      >>=-Ensures_any P (map_err (from_scenario digest scenario) transition_failed) _
        λ created from.
          let state : MatchState = record created { clocks = legacy.initial_clocks } in
          >>=-Ensures_any P (hash state_hash state) _ λ written hashed.
            >>=-Ensures (λ j. validate_header j scenario ≡ ok tt → P j) P _ _
              (fresh_records-replay digest state_hash codec scenario legacy.format_version
                (empty_successor legacy written) state legacy.records
                λ valid.
                  empty-replay digest state_hash (empty_successor legacy written) scenario created
                    state refl valid (map_err-eq-ok _ _ from) refl hashed)
              λ j found. >>=-Ensures_any P (validate_header j scenario) _ λ _ valid. found valid
