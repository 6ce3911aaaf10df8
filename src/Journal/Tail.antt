-- ===== src/Journal/Tail.antt =====
-- The state that a replay ends in, against the journal's last record: crates/crownline_core/src/journal.rs.
use crownline.Prelude.{
  ℕ, ◌≡◌, refl, not, ◌||◌, Bool, true, false, Option, none, some, List, [], ◌∷◌, arith, nat_beq,
  if◌then◌else◌, contains, last?, string_eq, String, Result, ok, err, map_err, >>=-eq-ok, Ensures,
  Ensures-ok, Ensures-map, >>=-Ensures, >>=-Ensures_any, map_err-eq-ok,
}
use crownline.Scenario.Types.{player_beq, ScenarioDefinition}
use crownline.State.Types.{MatchState}
use crownline.State.Errors.{TransitionError}
use crownline.State.Repetition.{Digest, StateHash}
use crownline.State.Create.{from_scenario}
use crownline.State.Begun.{Begun, from_scenario-Begun}
use crownline.Rules.Events.{Transition, action_player}
use crownline.Clock.{apply_timed_action}
use crownline.Journal.Equality.{IdempotencyKey, key_eq}
use crownline.Journal.Types.{JournalRecord, ActionJournal, transition_failed}
use crownline.Journal.Append.{hash, tail_of, validate_header, ensure_tail_matches}
use crownline.Journal.Replay.{
  divergence, diverge, initial_state, check_duplicate, check_transition, apply_record,
  replay_records, begin_replay, replay,
}

-- The last of the records, or what was before them.
abbrev or_last : List JournalRecord → Option JournalRecord → Option JournalRecord
or_last [] before = before
or_last (r ∷ rs) before = or_last rs (some r)

or_last-last? : (rs : List JournalRecord) (r : JournalRecord) → or_last rs (some r) ≡ last? (r ∷ rs)
or_last-last? [] r = refl
or_last-last? (q ∷ rs) r = or_last-last? rs q

-- The state has the given revision and hash.
abbrev At : StateHash → ℕ → String → MatchState → Type 0
At state_hash revision written state =
    (state.revision ≡ revision) × (hash state_hash state ≡ ok written)

check_duplicate-At :
    (state_hash : StateHash) (state : MatchState) (r : JournalRecord)
    → Ensures (At state_hash r.revision_after r.state_hash) (check_duplicate state_hash state r)
unfolding check_duplicate
check_duplicate-At state_hash state r =
    >>=-Ensures_any (At state_hash r.revision_after r.state_hash) (hash state_hash state) _
      λ actual e. ground (arith, e, string_eq.beq_iff r.state_hash actual)

check_transition-At :
    (state_hash : StateHash) (r : JournalRecord) (t : Transition)
    → Ensures (At state_hash r.revision_after r.state_hash) (check_transition state_hash r t)
unfolding check_transition
check_transition-At state_hash r t =
    >>=-Ensures_any (At state_hash r.revision_after r.state_hash) (hash state_hash t.state) _
      λ actual e. ground (arith, e, string_eq.beq_iff r.state_hash actual)

diverge-At :
    (state_hash : StateHash) (state : MatchState) (r : JournalRecord) (reason : String)
    (revision : ℕ) (written : String)
    → Ensures (At state_hash revision written) (diverge state_hash state r reason)
unfolding divergence
diverge-At state_hash state r reason revision written =
    >>=-Ensures_any (At state_hash revision written) (hash state_hash state) _ λ _ _. tt

apply_record-At :
    (digest : Digest) (state_hash : StateHash) (scenario : ScenarioDefinition) (state : MatchState)
    (r : JournalRecord)
    → Ensures
        (At state_hash r.revision_after r.state_hash)
        (apply_record digest state_hash scenario state r)
unfolding apply_record
apply_record-At digest state_hash scenario state r =
    either
      (not (player_beq r.actor (action_player r.action))
        || not (nat_beq r.revision_before state.revision))
      (apply_timed_action digest scenario state r.action r.elapsed_millis)
  where
    either :
        (refused : Bool) (applied : Result Transition TransitionError)
        → Ensures (At state_hash r.revision_after r.state_hash) (
            if refused
            then diverge state_hash state r "record actor or starting revision"
            else elim applied [
              | ok transition ↦ check_transition state_hash r transition
              | err e ↦ diverge state_hash state r "recorded action is no longer legal"
            ])
    either true applied = diverge-At state_hash state r _ _ _
    either false (ok t) = check_transition-At state_hash r t
    either false (err e) = diverge-At state_hash state r _ _ _

step-At :
    (digest : Digest) (state_hash : StateHash) (scenario : ScenarioDefinition) (seen : Bool)
    (state : MatchState) (r : JournalRecord)
    → Ensures (At state_hash r.revision_after r.state_hash) (
        if seen
        then check_duplicate state_hash state r
        else apply_record digest state_hash scenario state r)
step-At digest state_hash scenario true state r = check_duplicate-At state_hash state r
step-At digest state_hash scenario false state r =
    apply_record-At digest state_hash scenario state r

-- The state at the end of the loop has what the last record says, or what it began with.
replay_records-At :
    (digest : Digest) (state_hash : StateHash) (scenario : ScenarioDefinition)
    (applied : List IdempotencyKey) (journal : ActionJournal) (state : MatchState)
    (last : Option JournalRecord) (rs : List JournalRecord)
    → At state_hash (tail_of journal last).0 (tail_of journal last).1 state
    → Ensures
        (At state_hash (tail_of journal (or_last rs last)).0 (tail_of journal (or_last rs last)).1)
        (replay_records digest state_hash scenario applied state rs)
unfolding replay_records
replay_records-At digest state_hash scenario applied journal state last [] h = h
replay_records-At digest state_hash scenario applied journal state last (r ∷ rs) h =
    >>=-Ensures (At state_hash r.revision_after r.state_hash) _ _ _
      (step-At digest state_hash scenario (contains applied r.idempotency_key) state r)
      λ next at.
        replay_records-At digest state_hash scenario (r.idempotency_key ∷ applied) journal next
          (some r) rs at

begin_replay-At :
    (digest : Digest) (state_hash : StateHash) (journal : ActionJournal)
    (scenario : ScenarioDefinition)
    → Ensures
        (At state_hash 0 journal.initial_state_hash)
        (begin_replay digest state_hash journal scenario)
unfolding begin_replay initial_state
begin_replay-At digest state_hash journal scenario =
    let P = At state_hash 0 journal.initial_state_hash in
    >>=-Ensures_any P (validate_header journal scenario) _ λ _ _.
      >>=-Ensures_any P (initial_state digest journal scenario) _ λ state made.
        >>=-Ensures_any P (hash state_hash state) _ λ actual hashed.
          let (created, from, e) =
            >>=-eq-ok (map_err (from_scenario digest scenario) transition_failed) _ made in
          let begun =
            Ensures-ok (Begun scenario) _ (map_err-eq-ok _ _ from)
              (from_scenario-Begun digest scenario) in
          ground
            (arith, hashed, e, begun.revision, string_eq.beq_iff actual journal.initial_state_hash)

or_last-none : (rs : List JournalRecord) → or_last rs none ≡ last? rs
or_last-none [] = refl
or_last-none (r ∷ rs) = or_last-last? rs r

At-ensure_tail_matches :
    (state_hash : StateHash) (journal : ActionJournal) (state : MatchState)
    → At state_hash
        (tail_of journal (last? journal.records)).0
        (tail_of journal (last? journal.records)).1
        state
    → ensure_tail_matches state_hash journal state ≡ ok tt
unfolding ensure_tail_matches
At-ensure_tail_matches state_hash journal state (revision, hashed) =
    let tail = tail_of journal (last? journal.records) in
    rw (hashed, revision) (ground (arith, (string_eq.beq_iff tail.1 tail.1).1 refl))

-- The state that a journal replays to is at the journal's tail, so the next action can be appended
-- to it.
pub replay-ensure_tail_matches :
    (digest : Digest) (state_hash : StateHash) (journal : ActionJournal)
    (scenario : ScenarioDefinition)
    → Ensures
        (λ state. ensure_tail_matches state_hash journal state ≡ ok tt)
        (replay digest state_hash journal scenario)
unfolding replay
replay-ensure_tail_matches digest state_hash journal scenario =
    let Q : MatchState → Type 0 = λ state. ensure_tail_matches state_hash journal state ≡ ok tt in
    >>=-Ensures (At state_hash 0 journal.initial_state_hash) Q _ _
      (begin_replay-At digest state_hash journal scenario)
      λ first at. Ensures-map _ Q _ (At-ensure_tail_matches state_hash journal) (
        rw (or_last-none journal.records) at
          (replay_records-At digest state_hash scenario [] journal first none journal.records at))
