-- ===== src/Server/Pace.antt =====
-- A window and the times at which requests were let through, in
-- crates/crownline_server/src/limits.rs.
use crownline.Prelude.{
  ℕ, ◌+◌, ◌-◌, ◌*◌, ◌≤◌, ◌<◌, ◌≡◌, Bool-cases, inl, inr, Option, none, some, List, [], ◌∷◌, arith,
  leb, if◌then◌else◌, string_eq, u32_max,
}
use crownline.Server.Limits.{one_minute, Window, saturating_add_u32, renewed}
use crownline.Server.Windows.{or_begun}

-- The times of the log that are no earlier than one.
abbrev pub since : ℕ → List ℕ → ℕ
since s [] = 0
since s (e ∷ log) = (if leb s e then 1 else 0) + since s log

since-antitone : (s t : ℕ) (log : List ℕ) → s ≤ t → since t log ≤ since s log
since-antitone s t [] h = omega arith
since-antitone s t (e ∷ log) h = grind (arith, since-antitone s t log h)

-- In any minute at most twice the maximum was let through.
abbrev pub Spaced : ℕ → List ℕ → Type 0
Spaced maximum log = (t : ℕ) → since t log ≤ since (t + one_minute) log + 2 * maximum

-- A window with the times that it counts.
pub record Open (maximum now : ℕ) (log : List ℕ) (w : Window) : Type 0 where
  pub begun : w.started ≤ now
  pub within : w.count ≤ maximum
  pub counted : since w.started log ≡ w.count
  pub ended : since (w.started + one_minute) log ≡ 0
  pub recent : since (w.started + 1 - one_minute) log ≤ maximum + w.count

-- Without a window nothing has been let through since now, and little within a minute.
pub record Shut (maximum now : ℕ) (log : List ℕ) : Type 0 where
  pub none_since : since now log ≡ 0
  pub recent : (s : ℕ) → now ≤ s → since (s + 1 - one_minute) log ≤ maximum

abbrev pub State : ℕ → ℕ → List ℕ → Option Window → Type 0
State maximum now log none = Shut maximum now log
State maximum now log (some w) = Open maximum now log w

pub later-State :
    (maximum now later : ℕ) (log : List ℕ) (o : Option Window)
    → now ≤ later
    → State maximum now log o
    → State maximum later log o
later-State maximum now later log none h s = record {
  none_since = omega (arith, s.none_since, since-antitone now later log h);
  recent = λ t k. s.recent t (omega (arith, h, k));
}
later-State maximum now later log (some w) h s = record {
  begun = omega (arith, h, s.begun);
  within = s.within;
  counted = s.counted;
  ended = s.ended;
  recent = s.recent;
}

expired-recent :
    (maximum now s : ℕ) (log : List ℕ) (w : Window)
    → Open maximum now log w
    → one_minute ≤ s - w.started
    → since (s + 1 - one_minute) log ≤ maximum
expired-recent maximum now s log w o h = omega (
  arith,
  o.within,
  o.counted,
  since-antitone w.started (s + 1 - one_minute) log (omega (arith, h)),
)

pub expired-Shut :
    (maximum now : ℕ) (log : List ℕ) (w : Window)
    → Open maximum now log w
    → one_minute ≤ now - w.started
    → Shut maximum now log
expired-Shut maximum now log w o h = record {
  none_since =
      omega (arith, o.ended, since-antitone (w.started + one_minute) now log (omega (arith, h)));
  recent = λ s k. expired-recent maximum now s log w o (omega (arith, h, k));
}

-- A new window opens where there is none.
Shut-Open :
    (maximum now : ℕ) (log : List ℕ)
    → Shut maximum now log
    → Open maximum now log (record { started = now; count = 0 })
Shut-Open maximum now log s = record {
  begun = omega arith;
  within = omega arith;
  counted = s.none_since;
  ended = omega (arith, s.none_since, since-antitone now (now + one_minute) log (omega arith));
  recent = omega (arith, s.recent now (omega arith));
}

-- The window that a check counts in has not expired.
pub renewed-Open :
    (maximum now : ℕ) (log : List ℕ) (o : Option Window)
    → State maximum now log o
    → Open maximum now log (renewed now (or_begun now o))
      × (now < (renewed now (or_begun now o)).started + one_minute)
renewed-Open maximum now log none s = elim (Bool-cases (leb one_minute (now - now))) [
  | inl expired ↦ rw expired (Shut-Open maximum now log s, omega arith)
  | inr fresh ↦ rw fresh (Shut-Open maximum now log s, omega arith)
]
renewed-Open maximum now log (some w) s = elim (Bool-cases (leb one_minute (now - w.started))) [
  | inl expired ↦ rw expired (
    Shut-Open maximum now log (expired-Shut maximum now log w s (ground (arith, expired))),
    omega arith,
  )
  | inr fresh ↦ rw fresh (s, ground (arith, fresh, s.begun))
]

-- A request that is let through is counted in its window.
pub accept-Open :
    (maximum now : ℕ) (log : List ℕ) (w : Window)
    → maximum ≤ u32_max
    → Open maximum now log w
    → now < w.started + one_minute
    → w.count < maximum
    → Open maximum now
        (now ∷ log)
        (record { started = w.started; count = saturating_add_u32 w.count })
accept-Open maximum now log w fits o fresh room = record {
  begun = o.begun;
  within = ground (arith, fits, room);
  counted = ground (arith, fits, room, o.counted, o.begun);
  ended = ground (arith, fresh, o.ended);
  recent = ground (arith, fits, room, o.recent, o.begun);
}

pub accept-Spaced :
    (maximum now : ℕ) (log : List ℕ) (w : Window)
    → Open maximum now log w
    → now < w.started + one_minute
    → w.count < maximum
    → Spaced maximum log
    → Spaced maximum (now ∷ log)
accept-Spaced maximum now log w o fresh room spaced t = elim (Bool-cases (leb t w.started)) [
  | inl early ↦
      ground (arith, spaced t, o.recent, o.begun, since-antitone (w.started + 1 - one_minute) t log)
  | inr late ↦ ground (arith, spaced t, o.counted, o.begun, since-antitone w.started t log)
]
