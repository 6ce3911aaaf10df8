-- ===== src/Tests/Journal.antt =====
-- A journal of one move on clocks, and the theorems on journals at a concrete input.
use crownline.Prelude.{
  ◌≡◌, inl, inr, Bool-cases, ◌==◌, string_eq, refl, Bool, true, false, Option, none, some, [], ◌∷◌,
  String, ok, err, Result, Ensures,
}
use native.Mathlib.Decide.{ℕ_discrete}
use mathlib.Core.HLevel.{Discrete}
use crownline.Scenario.Types.{north, south}
use crownline.State.Types.{MatchState, Action, move}
use crownline.State.Repetition.{StateHash, canonical_hash}
use crownline.State.Create.{from_scenario}
use crownline.Rules.Events.{Transition}
use crownline.Clock.{ClockSettings}
use crownline.Match.{Sound}
use crownline.Journal.Equality.{IdempotencyKey}
use crownline.Journal.Types.{ActionJournal, AppendOutcome, accepted, duplicate, JournalError}
use crownline.Journal.Append.{
  hash, initial_clocked, new_inner, validate_static, validate_header, ensure_tail_matches,
  append_new, append_timed,
}
use crownline.Journal.Replay.{replay}
use crownline.Journal.Session.{Recorded, started, appended, Recorded-replay}
use crownline.Journal.Tail.{replay-ensure_tail_matches}
use crownline.Journal.Codec.{JournalCodec, migrate_format_one}
use crownline.Journal.Migration.{migrate_format_one-replay}
use crownline.Journal.Trust.{replay-Sound}
use crownline.Evaluation.{evaluation}
use crownline.Examples.{at, demo, demo_digest, start, clocked_start}

abbrev demo_hash : StateHash
demo_hash state = elim state.active_player [ north ↦ some "north" | south ↦ some "south" ]

abbrev settings : Option ClockSettings
settings = some (record { base_minutes = 3; increment_seconds = 2 })

abbrev first_key : IdempotencyKey
first_key = record { bytes = 7 ∷ [] }

abbrev claim : Action
claim = move south 3 (at 3 3)

abbrev clocked : MatchState
clocked = clocked_start

clocked-eq : initial_clocked settings start ≡ ok clocked
unfolding evaluation
clocked-eq = refl

-- A journal that stands for a failure; no test reaches it.
abbrev fallback_journal : ActionJournal
fallback_journal = record {
  format_version = 0;
  application_version = "";
  scenario_schema_version = 0;
  scenario_id = "";
  initial_state_hash = "";
  initial_clocks = none;
  records = [];
}

abbrev journal_of : Result ActionJournal JournalError → ActionJournal
journal_of (ok j) = j
journal_of (err e) = fallback_journal

abbrev begun : ActionJournal
begun = journal_of (new_inner demo_digest demo_hash "1.0" demo settings)

begun-eq : new_inner demo_digest demo_hash "1.0" demo settings ≡ ok begun
unfolding evaluation new_inner hash canonical_hash
begun-eq = refl

start-eq : from_scenario demo_digest demo ≡ ok start
unfolding evaluation
start-eq = refl

abbrev is_accepted : Result (ActionJournal × AppendOutcome) JournalError → Bool
is_accepted (ok (j, accepted t)) = true
is_accepted (ok (j, duplicate n w)) = false
is_accepted (err e) = false

is_accepted-cases :
    (r : Result (ActionJournal × AppendOutcome) JournalError)
    → is_accepted r ≡ true
    → (j : ActionJournal) × (t : Transition) × (r ≡ ok (j, accepted t))
is_accepted-cases (ok (j, accepted t)) h = (j, t, refl)
is_accepted-cases (ok (j, duplicate n w)) h = cc
is_accepted-cases (err e) h = cc

-- South's first move, after a second.
abbrev first_append : Result (ActionJournal × AppendOutcome) JournalError
first_append = append_timed demo_digest demo_hash begun demo clocked first_key claim 1000

first-is_accepted : is_accepted first_append ≡ true
unfolding evaluation new_inner hash canonical_hash append_timed append_new ensure_tail_matches
    validate_header validate_static
first-is_accepted = refl

abbrev first_journal : ActionJournal
first_journal = (is_accepted-cases first_append first-is_accepted).0

abbrev first_transition : Transition
first_transition = (is_accepted-cases first_append first-is_accepted).1

first-eq :
    append_timed demo_digest demo_hash begun demo clocked first_key claim 1000
    ≡ ok (first_journal, accepted first_transition)
first-eq = (is_accepted-cases first_append first-is_accepted).2

begun-Recorded : Recorded demo_digest demo_hash demo begun clocked
begun-Recorded = started "1.0" settings start clocked begun start-eq clocked-eq begun-eq

first-Recorded : Recorded demo_digest demo_hash demo first_journal first_transition.state
first-Recorded =
    appended begun clocked first_key claim 1000 first_journal first_transition begun-Recorded
      first-eq

Recorded-replay_example :
    replay demo_digest demo_hash first_journal demo ≡ ok first_transition.state
Recorded-replay_example =
    Recorded-replay demo_digest demo_hash demo first_journal first_transition.state refl
      first-Recorded

replay-ensure_tail_matches_example :
    Ensures
      (λ state. ensure_tail_matches demo_hash first_journal state ≡ ok tt)
      (replay demo_digest demo_hash first_journal demo)
replay-ensure_tail_matches_example =
    replay-ensure_tail_matches demo_digest demo_hash first_journal demo

replay-Sound_example : Ensures Sound (replay demo_digest demo_hash first_journal demo)
replay-Sound_example = replay-Sound demo_digest demo_hash first_journal demo

String-discrete : Discrete String
String-discrete a b = elim (Bool-cases (a == b)) [
  | inl same ↦ yes ((string_eq.beq_iff a b).0 same)
  | inr other ↦ no (λ e. cc ((string_eq.beq_iff a b).1 e))
]

journal-discrete : Discrete ActionJournal
journal-discrete = hlevel (ℕ_discrete, String-discrete)

-- A codec that can write one journal, as no bytes at all.
abbrev codec : JournalCodec
codec = record {
  encode =
      λ j. elim (journal-discrete j first_journal) [ yes e ↦ ok [] | no e ↦ err "another journal" ];
  decode = λ bytes. ok first_journal;
  display = λ e. "error";
}

-- The same journal as format 1 had it.
abbrev legacy : ActionJournal
legacy = record first_journal { format_version = 1; scenario_schema_version = 1 }

migrate_format_one-replay_example :
    Ensures
      (λ j. (s : MatchState) × (replay demo_digest demo_hash j demo ≡ ok s))
      (migrate_format_one demo_digest demo_hash codec legacy demo)
migrate_format_one-replay_example =
    migrate_format_one-replay demo_digest demo_hash codec legacy demo
