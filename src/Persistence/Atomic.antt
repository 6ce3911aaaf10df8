-- ===== src/Persistence/Atomic.antt =====
-- Replacing a save: `write_bytes_atomically` of crates/crownline_core/src/persistence.rs.
use crownline.Prelude.{ℕ, Option, List, [], String, Result, ok, err, ◌>>=◌}
use crownline.State.Repetition.{StateHash}
use crownline.Persistence.Types.{
  AtomicWriteStage, write_stage, read_stage, replace_stage, PersistenceError, atomic_write,
  temporary_validation, SaveEnvelope, Json,
}
use crownline.Persistence.Envelope.{check_size, save_to_json}
use crownline.Persistence.Reader.{read}

-- `AtomicSaveStorage`, which the host implements: each operation gives the storage that it leaves
-- behind, whether it succeeds or not. What is saved, and the temporary payload, are what the
-- documentation of the operations speaks of.
pub record AtomicSaveStorage (S : Type 0) : Type 0 where
  pub write_temporary : S → List ℕ → S × Result (Unit {0}) String
  pub read_temporary : S → S × Result (List ℕ) String
  pub replace_with_temporary : S → S × Result (Unit {0}) String
  pub discard_temporary : S → S
  pub saved : S → Option (List ℕ)
  pub temporary : S → Option (List ℕ)

unfoldable pub atomic_error : AtomicWriteStage → String → PersistenceError
atomic_error stage message = atomic_write stage message

-- The last stage.
abbrev pub replaced :
    {S : Type 0} → S × Result (Unit {0}) String → S × Result (Unit {0}) PersistenceError
replaced (s, ok u) = (s, ok tt)
replaced (s, err message) = (s, err (atomic_error replace_stage message))

-- What follows the validation of the payload that was read back.
abbrev pub after_validation :
    {S : Type 0}
    → AtomicSaveStorage S
    → S
    → Result (Unit {0}) PersistenceError
    → S × Result (Unit {0}) PersistenceError
after_validation host s (ok u) = replaced (host.replace_with_temporary s)
after_validation host s (err error) = (host.discard_temporary s, err (temporary_validation error))

abbrev pub after_read :
    {S : Type 0}
    → AtomicSaveStorage S
    → (List ℕ → Result (Unit {0}) PersistenceError)
    → S × Result (List ℕ) String
    → S × Result (Unit {0}) PersistenceError
after_read host validate (s, ok bytes) = after_validation host s (validate bytes)
after_read host validate (s, err message) =
    (host.discard_temporary s, err (atomic_error read_stage message))

abbrev pub after_write :
    {S : Type 0}
    → AtomicSaveStorage S
    → (List ℕ → Result (Unit {0}) PersistenceError)
    → S × Result (Unit {0}) String
    → S × Result (Unit {0}) PersistenceError
after_write host validate (s, ok u) = after_read host validate (host.read_temporary s)
after_write host validate (s, err message) = (s, err (atomic_error write_stage message))

abbrev pub after_size :
    {S : Type 0}
    → AtomicSaveStorage S
    → S
    → List ℕ
    → (List ℕ → Result (Unit {0}) PersistenceError)
    → Result (Unit {0}) PersistenceError
    → S × Result (Unit {0}) PersistenceError
after_size host s bytes validate (ok u) = after_write host validate (host.write_temporary s bytes)
after_size host s bytes validate (err e) = (s, err e)

unfoldable pub write_bytes_atomically :
    {S : Type 0}
    → AtomicSaveStorage S
    → S
    → List ℕ
    → (List ℕ → Result (Unit {0}) PersistenceError)
    → S × Result (Unit {0}) PersistenceError
unfolding atomic_error
write_bytes_atomically host s bytes validate = after_size host s bytes validate (check_size bytes)

-- `SaveReader::new().read(temporary).map(|_| ())`.
unfoldable pub validate_temporary : Json → StateHash → List ℕ → Result (Unit {0}) PersistenceError
validate_temporary json state_hash temporary = do
  envelope ← read json state_hash (record { migrations = [] }) temporary
  ok tt

unfoldable pub write_save_atomically :
    {S : Type 0}
    → Json
    → StateHash
    → AtomicSaveStorage S
    → S
    → SaveEnvelope
    → S × Result (Unit {0}) PersistenceError
write_save_atomically json state_hash host s envelope =
    elim (save_to_json json state_hash envelope) [
      | ok bytes ↦ write_bytes_atomically host s bytes (validate_temporary json state_hash)
      | err e ↦ (s, err e)
    ]
