-- ===== src/Server/Requests.antt =====
-- The pace of the requests that the limiter lets through, in crates/crownline_server/src/limits.rs.
use crownline.Prelude.{
  ℕ, ◌+◌, ◌≤◌, ◌<◌, ◌≡◌, refl, sym, subst, Bool, Bool-cases, inl, inr, true, false, Option, none,
  some, List, [], ◌∷◌, arith, leb, if◌then◌else◌, string_eq, u32_max,
}
use crownline.Server.Limits.{
  one_minute, Scope, scope_beq, Window, RequestLimiter, saturating_add_u32, window_of, set_window,
  renewed, check, is_fresh, discard_expired,
}
use crownline.Server.Windows.{
  found, or_begun, window_of-found, found-set_window, found-set_window_other, Distinct,
  set_window-Distinct, keep_fresh-Distinct, if_fresh, found-keep_fresh,
}
use crownline.Server.Pace.{
  Spaced, Open, State, later-State, expired-Shut, renewed-Open, accept-Open, accept-Spaced,
}

abbrev logged : Bool → ℕ → List ℕ → List ℕ
logged true now log = now ∷ log
logged false now log = log

-- What the limiter was asked and told to discard, with the times at which it let a request of the
-- scope through, and the time of the last event.
pub data Log (key : Scope) (maximum : ℕ) : RequestLimiter → ℕ → List ℕ → Type 0 where
  begun : (now : ℕ) → Log key maximum (record { windows = [] }) now []
  asked :
      (limiter : RequestLimiter) (now later : ℕ) (log : List ℕ)
      → Log key maximum limiter now log
      → now ≤ later
      → Log key maximum
          (check limiter key maximum later).0
          later
          (logged (check limiter key maximum later).1 later log)
  asked_other :
      (limiter : RequestLimiter) (now later : ℕ) (log : List ℕ) (other : Scope) (most : ℕ)
      → Log key maximum limiter now log
      → now ≤ later
      → scope_beq other key ≡ false
      → Log key maximum (check limiter other most later).0 later log
  discarded :
      (limiter : RequestLimiter) (now later : ℕ) (log : List ℕ)
      → Log key maximum limiter now log
      → now ≤ later
      → Log key maximum (discard_expired limiter later) later log

record Kept (key : Scope) (maximum now : ℕ) (log : List ℕ) (limiter : RequestLimiter) : Type 0 where
  distinct : Distinct limiter.windows
  window : State maximum now log (found key limiter.windows)
  spaced : Spaced maximum log

later-Kept :
    (key : Scope) (maximum now later : ℕ) (log : List ℕ) (limiter : RequestLimiter)
    → now ≤ later
    → Kept key maximum now log limiter
    → Kept key maximum later log limiter
later-Kept key maximum now later log limiter h k = record {
  distinct = k.distinct;
  window = later-State maximum now later log (found key limiter.windows) h k.window;
  spaced = k.spaced;
}

-- A window that is set is the one that is found.
set-Kept :
    (key : Scope) (maximum now : ℕ) (log : List ℕ) (w : Window) (ws : List (Scope × Window))
    → Distinct ws
    → Open maximum now log w
    → Spaced maximum log
    → Kept key maximum now log (record { windows = set_window key w ws })
set-Kept key maximum now log w ws d o spaced = record {
  distinct = set_window-Distinct key w ws d;
  window = subst (State maximum now log) (sym (found-set_window key w ws)) o;
  spaced = spaced;
}

check-Kept :
    (key : Scope) (maximum now : ℕ) (log : List ℕ) (limiter : RequestLimiter)
    → maximum ≤ u32_max
    → Kept key maximum now log limiter
    → Kept key maximum now
        (logged (check limiter key maximum now).1 now log)
        (check limiter key maximum now).0
unfolding check
check-Kept key maximum now log limiter fits k = rw (window_of-found key now limiter.windows) (
    counts (renewed now (or_begun now (found key limiter.windows)))
      (renewed-Open maximum now log (found key limiter.windows) k.window))
  where
    counts :
        (w : Window)
        → Open maximum now log w × (now < w.started + one_minute)
        → let r : RequestLimiter × Bool =
            (if leb maximum w.count
              then (record { windows = set_window key w limiter.windows }, false)
              else (
                record {
                  windows =
                      set_window key
                        (record { started = w.started; count = saturating_add_u32 w.count })
                        limiter.windows;
                },
                true,
              )) in
          Kept key maximum now (logged r.1 now log) r.0
    counts w (o, fresh) = elim (Bool-cases (leb maximum w.count)) [
      | inl full ↦ rw full (set-Kept key maximum now log w limiter.windows k.distinct o k.spaced)
      | inr room ↦
          let some_left : w.count < maximum = ground (arith, room) in
          rw room (
            set-Kept key maximum now (now ∷ log)
              (record { started = w.started; count = saturating_add_u32 w.count }) limiter.windows
              k.distinct (accept-Open maximum now log w fits o fresh some_left)
              (accept-Spaced maximum now log w o fresh some_left k.spaced))
    ]

check-Kept_other :
    (key other : Scope) (maximum most now : ℕ) (log : List ℕ) (limiter : RequestLimiter)
    → scope_beq other key ≡ false
    → Kept key maximum now log limiter
    → Kept key maximum now log (check limiter other most now).0
unfolding check
check-Kept_other key other maximum most now log limiter apart k =
    let w = renewed now (window_of other now limiter.windows) in
    elim (Bool-cases (leb most w.count)) [
      | inl full ↦ rw full (unchanged w)
      | inr room ↦
          rw room (unchanged (record { started = w.started; count = saturating_add_u32 w.count }))
    ]
  where
    unchanged :
        (w : Window)
        → Kept key maximum now log (record { windows = set_window other w limiter.windows })
    unchanged w = record {
      distinct = set_window-Distinct other w limiter.windows k.distinct;
      window =
          subst (State maximum now log)
            (sym (found-set_window_other key other w limiter.windows apart)) k.window;
      spaced = k.spaced;
    }

if_fresh-State :
    (maximum now : ℕ) (log : List ℕ) (o : Option Window)
    → State maximum now log o
    → State maximum now log (if_fresh now o)
if_fresh-State maximum now log none s = s
if_fresh-State maximum now log (some w) s = elim (Bool-cases (is_fresh now w)) [
  | inl fresh ↦ rw fresh s
  | inr stale ↦ rw stale (expired-Shut maximum now log w s (ground (arith, stale)))
]

discard_expired-Kept :
    (key : Scope) (maximum now : ℕ) (log : List ℕ) (limiter : RequestLimiter)
    → Kept key maximum now log limiter
    → Kept key maximum now log (discard_expired limiter now)
unfolding discard_expired
discard_expired-Kept key maximum now log limiter k = record {
  distinct = keep_fresh-Distinct now limiter.windows k.distinct;
  window =
      subst (State maximum now log) (sym (found-keep_fresh key now limiter.windows k.distinct))
        (if_fresh-State maximum now log (found key limiter.windows) k.window);
  spaced = k.spaced;
}

Log-Kept :
    (key : Scope) (maximum : ℕ) (limiter : RequestLimiter) (now : ℕ) (log : List ℕ)
    → maximum ≤ u32_max
    → Log key maximum limiter now log
    → Kept key maximum now log limiter
Log-Kept key maximum limiter now log fits (begun _) = record {
  distinct = tt;
  window = record { none_since = refl; recent = λ s h. omega arith };
  spaced = λ t. omega arith;
}
Log-Kept key maximum limiter now log fits (asked before earlier later past l h) =
    check-Kept key maximum later past before fits (
      later-Kept key maximum earlier later past before h
        (Log-Kept key maximum before earlier past fits l))
Log-Kept key maximum limiter now log fits
      (asked_other before earlier later past other most l h apart) =
    check-Kept_other key other maximum most later past before apart (
      later-Kept key maximum earlier later past before h
        (Log-Kept key maximum before earlier past fits l))
Log-Kept key maximum limiter now log fits (discarded before earlier later past l h) =
    discard_expired-Kept key maximum later past before (
      later-Kept key maximum earlier later past before h
        (Log-Kept key maximum before earlier past fits l))

-- Of the requests of a scope whose maximum stays the same, in any minute at most twice the maximum
-- is let through, whatever else the limiter is asked and whenever expired windows are discarded, as
-- long as time does not run backwards.
pub Log-Spaced :
    (key : Scope) (maximum : ℕ) (limiter : RequestLimiter) (now : ℕ) (log : List ℕ)
    → maximum ≤ u32_max
    → Log key maximum limiter now log
    → Spaced maximum log
Log-Spaced key maximum limiter now log fits l = (Log-Kept key maximum limiter now log fits l).spaced
