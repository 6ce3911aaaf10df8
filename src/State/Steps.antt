-- ===== src/State/Steps.antt =====
-- Rules for do blocks that end in a match state: what a chain of fallible steps ensures.
use crownline.Prelude.{◌≡◌, refl, Result, ok, err, ◌>>=◌, Ensures}
use crownline.State.Types.{MatchState}
use crownline.State.Errors.{TransitionError}

-- A step of which only its success is known.
pub from_step :
    {A : Type 0} (P : MatchState → Type 0) (m : Result A TransitionError)
    (f : A → Result MatchState TransitionError)
    → ((a : A) → m ≡ ok a → Ensures P (f a))
    → Ensures P (m >>= f)
from_step P (ok a) f k = k a refl
from_step P (err e) f k = tt

-- A step on the state, with what it ensures.
pub from_state :
    (Q P : MatchState → Type 0) (m : Result MatchState TransitionError)
    (f : MatchState → Result MatchState TransitionError)
    → Ensures Q m
    → ((b : MatchState) → Q b → Ensures P (f b))
    → Ensures P (m >>= f)
from_state Q P (ok b) f h k = k b h
from_state Q P (err e) f h k = tt

pub weaken :
    (Q P : MatchState → Type 0) (m : Result MatchState TransitionError)
    → ((b : MatchState) → Q b → P b)
    → Ensures Q m
    → Ensures P m
weaken Q P (ok b) f h = f b h
weaken Q P (err e) f h = tt
