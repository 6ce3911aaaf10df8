-- ===== src/Persistence/Atomicity.antt =====
-- Replacing a save on a host that keeps its word, in crates/crownline_core/src/persistence.rs.
use crownline.Prelude.{
  ℕ, ◌≡◌, ◌∙◌, refl, ap, sym, some, List, [], String, Result, ok, err, >>=-eq-ok, Ensures-ok,
}
use crownline.State.Repetition.{StateHash}
use crownline.Persistence.Types.{PersistenceError, SaveEnvelope, Json}
use crownline.Persistence.Envelope.{check_size, save_to_json}
use crownline.Persistence.Reader.{read}
use crownline.Persistence.Integrity.{Intact, read-Intact}
use crownline.Persistence.Atomic.{
  AtomicSaveStorage, replaced, after_validation, after_read, after_write, after_size,
  write_bytes_atomically, validate_temporary, write_save_atomically,
}

-- What the operations are documented to do, and to leave alone, also where they fail.
pub record Contract {S : Type 0} (host : AtomicSaveStorage S) : Type 0 where
  pub write_keeps :
      (s : S) (bytes : List ℕ) → host.saved (host.write_temporary s bytes).0 ≡ host.saved s
  pub read_keeps : (s : S) → host.saved (host.read_temporary s).0 ≡ host.saved s
  pub read_true :
      (s : S) (bytes : List ℕ)
      → (host.read_temporary s).1 ≡ ok bytes
      → host.temporary (host.read_temporary s).0 ≡ some bytes
  pub discard_keeps : (s : S) → host.saved (host.discard_temporary s) ≡ host.saved s
  pub replace_done :
      (s : S)
      → (host.replace_with_temporary s).1 ≡ ok tt
      → host.saved (host.replace_with_temporary s).0 ≡ host.temporary s
  pub replace_failed :
      (s : S) (message : String)
      → (host.replace_with_temporary s).1 ≡ err message
      → host.saved (host.replace_with_temporary s).0 ≡ host.saved s

-- The save has been replaced by a payload that was validated, or it is what it was.
abbrev pub Outcome :
    {S : Type 0}
    → AtomicSaveStorage S
    → (List ℕ → Result (Unit {0}) PersistenceError)
    → S
    → S × Result (Unit {0}) PersistenceError
    → Type 0
Outcome host validate before (after, ok u) =
    (bytes : List ℕ) × (host.saved after ≡ some bytes) × (validate bytes ≡ ok tt)
Outcome host validate before (after, err e) = host.saved after ≡ host.saved before

module _ {S : Type 0} (host : AtomicSaveStorage S) (contract : Contract host)
    (validate : List ℕ → Result (Unit {0}) PersistenceError) (before : S) where
  replaced-Outcome :
      (s : S) (bytes : List ℕ) (out : S × Result (Unit {0}) String)
      → host.replace_with_temporary s ≡ out
      → host.temporary s ≡ some bytes
      → validate bytes ≡ ok tt
      → host.saved s ≡ host.saved before
      → Outcome host validate before (replaced out)
  replaced-Outcome s bytes (after, ok u) e held valid same = (
    bytes,
    sym (ap (λ p. host.saved p.0) e) ∙ contract.replace_done s (ap (λ p. p.1) e) ∙ held,
    valid,
  )
  replaced-Outcome s bytes (after, err message) e held valid same =
      sym (ap (λ p. host.saved p.0) e) ∙ contract.replace_failed s message (ap (λ p. p.1) e) ∙ same

  after_validation-Outcome :
      (s : S) (bytes : List ℕ) (r : Result (Unit {0}) PersistenceError)
      → validate bytes ≡ r
      → host.temporary s ≡ some bytes
      → host.saved s ≡ host.saved before
      → Outcome host validate before (after_validation host s r)
  after_validation-Outcome s bytes (ok u) e held same =
      replaced-Outcome s bytes (host.replace_with_temporary s) refl held e same
  after_validation-Outcome s bytes (err x) e held same = contract.discard_keeps s ∙ same

  after_read-Outcome :
      (s : S) (out : S × Result (List ℕ) String)
      → host.read_temporary s ≡ out
      → host.saved s ≡ host.saved before
      → Outcome host validate before (after_read host validate out)
  after_read-Outcome s (after, ok bytes) e same =
      after_validation-Outcome after bytes (validate bytes) refl
        (sym (ap (λ p. host.temporary p.0) e) ∙ contract.read_true s bytes (ap (λ p. p.1) e))
        (sym (ap (λ p. host.saved p.0) e) ∙ contract.read_keeps s ∙ same)
  after_read-Outcome s (after, err message) e same =
      contract.discard_keeps after ∙ sym (ap (λ p. host.saved p.0) e) ∙ contract.read_keeps s ∙ same

  after_write-Outcome :
      (bytes : List ℕ) (out : S × Result (Unit {0}) String)
      → host.write_temporary before bytes ≡ out
      → Outcome host validate before (after_write host validate out)
  after_write-Outcome bytes (after, ok u) e =
      after_read-Outcome after (host.read_temporary after) refl
        (sym (ap (λ p. host.saved p.0) e) ∙ contract.write_keeps before bytes)
  after_write-Outcome bytes (after, err message) e =
      sym (ap (λ p. host.saved p.0) e) ∙ contract.write_keeps before bytes

  after_size-Outcome :
      (bytes : List ℕ) (r : Result (Unit {0}) PersistenceError)
      → Outcome host validate before (after_size host before bytes validate r)
  after_size-Outcome bytes (ok u) =
      after_write-Outcome bytes (host.write_temporary before bytes) refl
  after_size-Outcome bytes (err e) = refl

  write_bytes_atomically-Outcome :
      (bytes : List ℕ)
      → Outcome host validate before (write_bytes_atomically host before bytes validate)
  unfolding write_bytes_atomically
  write_bytes_atomically-Outcome bytes = after_size-Outcome bytes (check_size bytes)

-- The saved payload can be read, and what is read is intact.
abbrev pub Saves : {S : Type 0} → Json → StateHash → AtomicSaveStorage S → S → Type 0
Saves json state_hash host after =
    (bytes : List ℕ) × (e : SaveEnvelope) × (host.saved after ≡ some bytes)
    × (read json state_hash (record { migrations = [] }) bytes ≡ ok e)
    × Intact state_hash e

abbrev pub SaveOutcome :
    {S : Type 0}
    → Json
    → StateHash
    → AtomicSaveStorage S
    → S
    → S × Result (Unit {0}) PersistenceError
    → Type 0
SaveOutcome json state_hash host before (after, ok u) = Saves json state_hash host after
SaveOutcome json state_hash host before (after, err e) = host.saved after ≡ host.saved before

readable :
    {S : Type 0} (json : Json) (state_hash : StateHash) (host : AtomicSaveStorage S) (before : S)
    (out : S × Result (Unit {0}) PersistenceError)
    → Outcome host (validate_temporary json state_hash) before out
    → SaveOutcome json state_hash host before out
unfolding validate_temporary
readable json state_hash host before (after, ok u) (bytes, saved, valid) =
    let (e, found, _) =
      >>=-eq-ok (read json state_hash (record { migrations = [] }) bytes) _ valid in
    (
      bytes,
      e,
      saved,
      found,
      Ensures-ok (Intact state_hash) _ found
          (read-Intact json state_hash (record { migrations = [] }) bytes),
    )
readable json state_hash host before (after, err e) h = h

-- On a host that keeps its contract, also where its operations fail, writing a save either succeeds
-- and leaves a save that can be read and is intact, or fails and leaves the save that was there.
pub write_save_atomically-SaveOutcome :
    {S : Type 0} (json : Json) (state_hash : StateHash) (host : AtomicSaveStorage S) (before : S)
    (envelope : SaveEnvelope)
    → Contract host
    → SaveOutcome json state_hash host before
        (write_save_atomically json state_hash host before envelope)
unfolding write_save_atomically
write_save_atomically-SaveOutcome json state_hash host before envelope contract =
    written (save_to_json json state_hash envelope)
  where
    written :
        (r : Result (List ℕ) PersistenceError)
        → SaveOutcome json state_hash host before (elim r [
          | ok bytes ↦ write_bytes_atomically host before bytes (validate_temporary json state_hash)
          | err e ↦ (before, err e)
        ])
    written (ok bytes) =
        readable json state_hash host before
          (write_bytes_atomically host before bytes (validate_temporary json state_hash))
          (write_bytes_atomically-Outcome host contract (validate_temporary json state_hash) before
            bytes)
    written (err e) = refl
