-- ===== src/Journal/Equality.antt =====
-- Equality of the events and the keys in a journal's records, crates/crownline_core/src/journal.rs.
use crownline.Prelude.{ℕ, ◌≡◌, ◌↔◌, Bool, true, false, List, Eq, refl}
use crownline.Rules.Events.{TransitionEvent}
use native.Mathlib.Decide.{ℕ_discrete}
use mathlib.Core.HLevel.{Discrete}
use mathlib.Core.List.{List-discrete}

abbrev decided {ℓ} : {A : Type ℓ} → Dec A → Bool
decided (yes p) = true
decided (no p) = false

decided_iff {ℓ} : {A : Type ℓ} (d : Dec A) → (decided d ≡ true) ↔ A
decided_iff (yes p) = (λ _. p, λ _. refl)
decided_iff (no p) = (λ h. cc, λ a. absurd (p a))

events-discrete : Discrete (List TransitionEvent)
events-discrete = List-discrete (hlevel ℕ_discrete)

-- The derived equality of lists of events.
pub events_beq : List TransitionEvent → List TransitionEvent → Bool
events_beq xs ys = decided (events-discrete xs ys)

pub events_beq_iff : (xs ys : List TransitionEvent) → (events_beq xs ys ≡ true) ↔ (xs ≡ ys)
unfolding events_beq
events_beq_iff xs ys = decided_iff (events-discrete xs ys)

-- The sixteen bytes of a key.
pub record IdempotencyKey : Type 0 where
  pub bytes : List ℕ

key-discrete : Discrete IdempotencyKey
key-discrete = hlevel ℕ_discrete

pub key_beq : IdempotencyKey → IdempotencyKey → Bool
key_beq a b = decided (key-discrete a b)

pub key_beq_iff : (a b : IdempotencyKey) → (key_beq a b ≡ true) ↔ (a ≡ b)
unfolding key_beq
key_beq_iff a b = decided_iff (key-discrete a b)

instance abbrev pub key_eq : Eq IdempotencyKey
key_eq = record { beq = key_beq; beq_iff = key_beq_iff }
