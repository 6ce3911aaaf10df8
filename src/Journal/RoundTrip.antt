-- ===== src/Journal/RoundTrip.antt =====
-- What replay makes of the records that append wrote, in crates/crownline_core/src/journal.rs.
use crownline.Prelude.{
  ℕ, ◌≡◌, refl, inl, inr, true, false, Option-cases, none, List, [], ◌∷◌, ◌++◌, arith,
  if◌then◌else◌, find, contains, ltb, length, length-append, string_eq, String, ok, ensure, map_err,
  >>=-eq-ok,
}
use crownline.Scenario.Types.{player_beq_iff, ScenarioDefinition}
use crownline.State.Types.{Action, MatchState}
use crownline.State.Repetition.{Digest, StateHash}
use crownline.Rules.Events.{Transition, action_player}
use crownline.Clock.{apply_timed_action}
use crownline.Journal.Equality.{IdempotencyKey, key_beq, key_eq, events_beq_iff}
use crownline.Journal.Types.{
  JournalRecord, ActionJournal, accepted, max_journal_records, too_many_records, transition_failed,
}
use crownline.Journal.Append.{
  hash, validate_static, validate_header, ensure_tail_matches, record_of, append_new, append_timed,
}
use crownline.Journal.Replay.{
  initial_state, check_duplicate, check_transition, apply_record, replay_records, begin_replay,
  replay,
}

replay_records-append :
    (digest : Digest) (state_hash : StateHash) (scenario : ScenarioDefinition)
    (applied : List IdempotencyKey) (state : MatchState) (rs : List JournalRecord)
    (r : JournalRecord) {middle final : MatchState}
    → replay_records digest state_hash scenario applied state rs ≡ ok middle
    → contains applied r.idempotency_key ≡ false
    → find (λ q. key_beq q.idempotency_key r.idempotency_key) rs ≡ none
    → apply_record digest state_hash scenario middle r ≡ ok final
    → replay_records digest state_hash scenario applied state (rs ++ r ∷ []) ≡ ok final
unfolding replay_records
replay_records-append digest state_hash scenario applied state [] r h fresh new step =
    ground (arith, h, fresh, step)
replay_records-append digest state_hash scenario applied state (q ∷ rs) r h fresh new step =
    let (next, first, rest) =
      >>=-eq-ok
        (if contains applied q.idempotency_key
          then check_duplicate state_hash state q
          else apply_record digest state_hash scenario state q)
        _ h in
    rw first (
      replay_records-append digest state_hash scenario (q.idempotency_key ∷ applied) next rs r rest
        (ground (arith, new)) (ground (arith, new)) step)

apply_record-record_of :
    (digest : Digest) (state_hash : StateHash) (scenario : ScenarioDefinition) (state : MatchState)
    (key : IdempotencyKey) (action : Action) (elapsed : ℕ) {t : Transition} {written : String}
    → apply_timed_action digest scenario state action elapsed ≡ ok t
    → hash state_hash t.state ≡ ok written
    → apply_record digest state_hash scenario state (record_of state key action elapsed t written)
      ≡ ok t.state
unfolding apply_record check_transition
apply_record-record_of digest state_hash scenario state key action elapsed {t} {written} h w =
    ground (
      arith,
      player_beq_iff (action_player action) (action_player action),
      events_beq_iff t.events t.events,
      (string_eq.beq_iff written written).1 refl,
    )

-- What an append that was accepted went through.
pub record Appended (digest : Digest) (state_hash : StateHash) (journal : ActionJournal)
    (scenario : ScenarioDefinition) (state : MatchState) (key : IdempotencyKey) (action : Action)
    (elapsed : ℕ) (journal' : ActionJournal) (t : Transition) : Type 0 where
  pub written : String
  pub header : validate_header journal scenario ≡ ok tt
  pub new : find (λ r. key_beq r.idempotency_key key) journal.records ≡ none
  pub room : ltb (length journal.records) max_journal_records ≡ true
  pub tail : ensure_tail_matches state_hash journal state ≡ ok tt
  pub applied : apply_timed_action digest scenario state action elapsed ≡ ok t
  pub hashed : hash state_hash t.state ≡ ok written
  pub journaled : journal' ≡ record journal {
    records = journal.records ++ record_of state key action elapsed t written ∷ [];
  }

append_new-Appended :
    (digest : Digest) (state_hash : StateHash) (journal : ActionJournal)
    (scenario : ScenarioDefinition) (state : MatchState) (key : IdempotencyKey) (action : Action)
    (elapsed : ℕ) {journal' : ActionJournal} {t : Transition}
    → validate_header journal scenario ≡ ok tt
    → find (λ r. key_beq r.idempotency_key key) journal.records ≡ none
    → append_new digest state_hash journal scenario state key action elapsed
      ≡ ok (journal', accepted t)
    → Appended digest state_hash journal scenario state key action elapsed journal' t
unfolding append_new
append_new-Appended digest state_hash journal scenario state key action elapsed header new h =
    let (a, room, h1) =
      >>=-eq-ok
        (ensure (ltb (length journal.records) max_journal_records)
          (too_many_records max_journal_records))
        _ h in
    let (b, tail, h2) = >>=-eq-ok (ensure_tail_matches state_hash journal state) _ h1 in
    let (done, applied, h3) =
      >>=-eq-ok
        (map_err (apply_timed_action digest scenario state action elapsed) transition_failed) _
        h2 in
    let (written, hashed, e) = >>=-eq-ok (hash state_hash done.state) _ h3 in
    record {
      written = written;
      header = header;
      new = new;
      room = ground (arith, room);
      tail = ground (arith, tail);
      applied = ground (arith, applied, e);
      hashed = ground (arith, hashed, e);
      journaled = ground (arith, e);
    }

pub append_timed-Appended :
    (digest : Digest) (state_hash : StateHash) (journal : ActionJournal)
    (scenario : ScenarioDefinition) (state : MatchState) (key : IdempotencyKey) (action : Action)
    (elapsed : ℕ) {journal' : ActionJournal} {t : Transition}
    → append_timed digest state_hash journal scenario state key action elapsed
      ≡ ok (journal', accepted t)
    → Appended digest state_hash journal scenario state key action elapsed journal' t
unfolding append_timed
append_timed-Appended digest state_hash journal scenario state key action elapsed h =
    let (a, header, h1) = >>=-eq-ok (validate_header journal scenario) _ h in
    elim (Option-cases (find (λ r. key_beq r.idempotency_key key) journal.records)) [
      | inl new ↦
          append_new-Appended digest state_hash journal scenario state key action elapsed
            (ground (arith, header)) new (ground (arith, new, h1))
      | inr (r, old) ↦ absurd (ground (arith, old, h1))
    ]

abbrev pub extend_records : ActionJournal → JournalRecord → ActionJournal
extend_records journal r = record journal { records = journal.records ++ r ∷ [] }

-- With room for it, another record leaves the header valid.
pub validate_header-extended :
    (journal : ActionJournal) (scenario : ScenarioDefinition) (r : JournalRecord)
    → validate_header journal scenario ≡ ok tt
    → ltb (length journal.records) max_journal_records ≡ true
    → validate_header (extend_records journal r) scenario ≡ ok tt
unfolding validate_header validate_static
validate_header-extended journal scenario r header room =
    ground (arith, length-append journal.records (r ∷ []))

begin_replay-extended :
    (digest : Digest) (state_hash : StateHash) (journal : ActionJournal)
    (scenario : ScenarioDefinition) (r : JournalRecord) {first : MatchState}
    → begin_replay digest state_hash journal scenario ≡ ok first
    → ltb (length journal.records) max_journal_records ≡ true
    → begin_replay digest state_hash (extend_records journal r) scenario ≡ ok first
unfolding begin_replay initial_state
begin_replay-extended digest state_hash journal scenario r h room =
    let (a, header, rest) = >>=-eq-ok (validate_header journal scenario) _ h in
    rw (validate_header-extended journal scenario r (ground (arith, header)) room) rest

-- If a journal replays to the state to which an action is appended, and the append is accepted, the
-- journal that is left replays to the state that the action led to.
pub replay-append_timed :
    (digest : Digest) (state_hash : StateHash) (journal : ActionJournal)
    (scenario : ScenarioDefinition) (state : MatchState) (key : IdempotencyKey) (action : Action)
    (elapsed : ℕ) {journal' : ActionJournal} {t : Transition}
    → replay digest state_hash journal scenario ≡ ok state
    → append_timed digest state_hash journal scenario state key action elapsed
      ≡ ok (journal', accepted t)
    → replay digest state_hash journal' scenario ≡ ok t.state
unfolding replay
replay-append_timed digest state_hash journal scenario state key action elapsed {journal'} {t} h k =
    let a = append_timed-Appended digest state_hash journal scenario state key action elapsed k in
    let r = record_of state key action elapsed t a.written in
    let (first, begun, looped) = >>=-eq-ok (begin_replay digest state_hash journal scenario) _ h in
    rw (a.journaled, begin_replay-extended digest state_hash journal scenario r begun a.room)
      (replay_records-append digest state_hash scenario [] first journal.records r looped refl a.new
        (apply_record-record_of digest state_hash scenario state key action elapsed a.applied
          a.hashed))
