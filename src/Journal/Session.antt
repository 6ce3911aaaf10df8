-- ===== src/Journal/Session.antt =====
-- Journals that a session writes, in crates/crownline_core/src/journal.rs.
use crownline.Prelude.{
  ℕ, ◌≡◌, refl, not, true, Option, none, some, [], arith, string_eq, String, ok, ensure, map_err,
  >>=-eq-ok,
}
use crownline.Scenario.Types.{ScenarioDefinition}
use crownline.Scenario.Header.{scenario_schema_version, is_blank}
use crownline.State.Types.{Action, ClockState, MatchState}
use crownline.State.Repetition.{Digest, StateHash}
use crownline.Prelude.{Ensures-ok}
use crownline.State.Create.{from_scenario}
use crownline.State.Begun.{Begun, from_scenario-Begun}
use crownline.Rules.Events.{Transition}
use crownline.Clock.{ClockSettings, start_clocks}
use crownline.Journal.Equality.{IdempotencyKey}
use crownline.Journal.Types.{
  ActionJournal, accepted, missing_application_version, transition_failed,
}
use crownline.Journal.Append.{
  hash, initial_clocked, check_clocks, new_inner, validate_static, validate_header, append_timed,
}
use crownline.Journal.Replay.{initial_state, replay_records, begin_replay, replay}
use crownline.Journal.RoundTrip.{replay-append_timed}

-- What starting a journal went through.
record Started (digest : Digest) (state_hash : StateHash) (version : String)
    (scenario : ScenarioDefinition) (settings : Option ClockSettings) (journal : ActionJournal)
    : Type 0 where
  named : not (is_blank version) ≡ true
  created : MatchState
  initial : MatchState
  from : from_scenario digest scenario ≡ ok created
  clocked : initial_clocked settings created ≡ ok initial
  written : String
  hashed : hash state_hash initial ≡ ok written
  journaled : journal ≡ record {
    format_version = 2;
    application_version = version;
    scenario_schema_version = scenario.schema_version;
    scenario_id = scenario.id;
    initial_state_hash = written;
    initial_clocks = initial.clocks;
    records = [];
  }

new_inner-Started :
    (digest : Digest) (state_hash : StateHash) (version : String) (scenario : ScenarioDefinition)
    (settings : Option ClockSettings) {journal : ActionJournal}
    → new_inner digest state_hash version scenario settings ≡ ok journal
    → Started digest state_hash version scenario settings journal
unfolding new_inner
new_inner-Started digest state_hash version scenario settings h =
    let (a, named, h1) =
      >>=-eq-ok (ensure (not (is_blank version)) missing_application_version) _ h in
    let (created, from, h2) =
      >>=-eq-ok (map_err (from_scenario digest scenario) transition_failed) _ h1 in
    let (initial, clocked, h3) = >>=-eq-ok (initial_clocked settings created) _ h2 in
    let (written, hashed, e) = >>=-eq-ok (hash state_hash initial) _ h3 in
    record {
      named = ground (arith, named);
      created = created;
      initial = initial;
      from = ground (arith, from);
      clocked = clocked;
      written = written;
      hashed = hashed;
      journaled = ground (arith, e);
    }

-- The clocks that a match starts with are within the bounds of a journal, and starting them changes
-- nothing else.
record ClocksOnly (created initial : MatchState) : Type 0 where
  bounded : check_clocks initial.clocks ≡ ok tt
  same : record created { clocks = initial.clocks } ≡ initial

initial_clocked-ClocksOnly :
    (settings : Option ClockSettings) (created : MatchState) {initial : MatchState}
    → created.clocks ≡ none
    → initial_clocked settings created ≡ ok initial
    → ClocksOnly created initial
unfolding start_clocks
initial_clocked-ClocksOnly none created {initial} e h = record {
  bounded = ground (arith, e, h);
  same = ground (arith, h);
}
initial_clocked-ClocksOnly (some settings) created e h = record {
  bounded = ground (arith, h);
  same = ground (arith, h);
}

-- The session's journal so far, and the state to which its next action will be applied.
pub data Recorded (digest : Digest) (state_hash : StateHash) (scenario : ScenarioDefinition)
    : ActionJournal → MatchState → Type 0 where
  started :
      (version : String) (settings : Option ClockSettings) (created state : MatchState)
      (journal : ActionJournal)
      → from_scenario digest scenario ≡ ok created
      → initial_clocked settings created ≡ ok state
      → new_inner digest state_hash version scenario settings ≡ ok journal
      → Recorded digest state_hash scenario journal state
  appended :
      (journal : ActionJournal) (state : MatchState) (key : IdempotencyKey) (action : Action)
      (elapsed : ℕ) (journal' : ActionJournal) (t : Transition)
      → Recorded digest state_hash scenario journal state
      → append_timed digest state_hash journal scenario state key action elapsed
        ≡ ok (journal', accepted t)
      → Recorded digest state_hash scenario journal' t.state

abbrev fresh : String → ScenarioDefinition → String → Option ClockState → ActionJournal
fresh version scenario written clocks = record {
  format_version = 2;
  application_version = version;
  scenario_schema_version = scenario.schema_version;
  scenario_id = scenario.id;
  initial_state_hash = written;
  initial_clocks = clocks;
  records = [];
}

fresh-header :
    (version : String) (scenario : ScenarioDefinition) (written : String)
    (clocks : Option ClockState)
    → not (is_blank version) ≡ true
    → scenario.schema_version ≡ scenario_schema_version
    → check_clocks clocks ≡ ok tt
    → validate_header (fresh version scenario written clocks) scenario ≡ ok tt
unfolding validate_header validate_static
fresh-header version scenario written clocks named current bounded =
    ground (arith, (string_eq.beq_iff scenario.id scenario.id).1 refl)

-- A journal without records replays to its initial state.
pub empty-replay :
    (digest : Digest) (state_hash : StateHash) (journal : ActionJournal)
    (scenario : ScenarioDefinition) (created state : MatchState)
    → journal.records ≡ []
    → validate_header journal scenario ≡ ok tt
    → from_scenario digest scenario ≡ ok created
    → record created { clocks = journal.initial_clocks } ≡ state
    → hash state_hash state ≡ ok journal.initial_state_hash
    → replay digest state_hash journal scenario ≡ ok state
unfolding replay begin_replay replay_records initial_state
empty-replay digest state_hash journal scenario created state bare header from same hashed =
    let written = journal.initial_state_hash in
    rw (header, from, same, hashed, (string_eq.beq_iff written written).1 refl, bare) refl

started-replay :
    (digest : Digest) (state_hash : StateHash) (scenario : ScenarioDefinition) (version : String)
    (settings : Option ClockSettings) (created state : MatchState) {journal : ActionJournal}
    → scenario.schema_version ≡ scenario_schema_version
    → from_scenario digest scenario ≡ ok created
    → initial_clocked settings created ≡ ok state
    → new_inner digest state_hash version scenario settings ≡ ok journal
    → replay digest state_hash journal scenario ≡ ok state
started-replay digest state_hash scenario version settings created state current from clocked h =
    let s = new_inner-Started digest state_hash version scenario settings h in
    let same : s.created ≡ created = ground (arith, s.from, from) in
    let begun : s.initial ≡ state = ground (arith, s.clocked, same, clocked) in
    let begun_with = Ensures-ok (Begun scenario) _ from (from_scenario-Begun digest scenario) in
    let clocks = initial_clocked-ClocksOnly settings created begun_with.clocks clocked in
    rw (s.journaled, begun)
      (empty-replay digest state_hash (fresh version scenario s.written state.clocks) scenario
        created state refl
        (fresh-header version scenario s.written state.clocks s.named current clocks.bounded) from
        clocks.same (rw begun at s.hashed))

-- A journal that was started for a scenario of the current schema and to which actions were appended
-- replays to the state that the last of them led to.
pub Recorded-replay :
    (digest : Digest) (state_hash : StateHash) (scenario : ScenarioDefinition)
    (journal : ActionJournal) (state : MatchState)
    → scenario.schema_version ≡ scenario_schema_version
    → Recorded digest state_hash scenario journal state
    → replay digest state_hash journal scenario ≡ ok state
Recorded-replay digest state_hash scenario journal state current
      (started version settings created _ _ from clocked h) =
    started-replay digest state_hash scenario version settings created state current from clocked h
Recorded-replay digest state_hash scenario journal' state' current
      (appended journal state key action elapsed _ t r h) =
    replay-append_timed digest state_hash journal scenario state key action elapsed
      (Recorded-replay digest state_hash scenario journal state current r) h
