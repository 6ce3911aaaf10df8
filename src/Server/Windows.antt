-- ===== src/Server/Windows.antt =====
-- The windows of the limiter by their scopes, in crates/crownline_server/src/limits.rs.
use crownline.Prelude.{
  ℕ, ◌≡◌, ◌∙◌, refl, ap, subst, Bool-cases, inl, inr, true, false, Option, none, some, List, [],
  ◌∷◌, arith, nat_beq, if◌then◌else◌, string_eq,
}
use crownline.Server.Limits.{
  LimitKind, create, join, room_operation, limit_kind_index, Scope, scope_beq, Window, window_of,
  set_window, is_fresh, keep_fresh,
}

abbrev pub found : Scope → List (Scope × Window) → Option Window
found key [] = none
found key ((k, w) ∷ rest) = if scope_beq k key then some w else found key rest

abbrev pub or_begun : ℕ → Option Window → Window
or_begun now none = record { started = now; count = 0 }
or_begun now (some w) = w

kind-eq : (a b : LimitKind) → nat_beq (limit_kind_index a) (limit_kind_index b) ≡ true → a ≡ b
kind-eq create create h = refl
kind-eq create join h = cc
kind-eq create room_operation h = cc
kind-eq join create h = cc
kind-eq join join h = refl
kind-eq join room_operation h = cc
kind-eq room_operation create h = cc
kind-eq room_operation join h = cc
kind-eq room_operation room_operation h = refl

scope_beq-eq : (a b : Scope) → scope_beq a b ≡ true → a ≡ b
scope_beq-eq (a, s) (b, t) h = ground (arith, h, kind-eq a b, string_eq.beq_iff s t)

scope_beq_self : (a : Scope) → scope_beq a a ≡ true
scope_beq_self (a, s) = grind (arith, string_eq.beq_iff s s)

pub window_of-found :
    (key : Scope) (now : ℕ) (ws : List (Scope × Window))
    → window_of key now ws ≡ or_begun now (found key ws)
unfolding window_of
window_of-found key now [] = refl
window_of-found key now ((k, w) ∷ rest) = ground (arith, window_of-found key now rest)

pub found-set_window :
    (key : Scope) (w : Window) (ws : List (Scope × Window))
    → found key (set_window key w ws) ≡ some w
unfolding set_window
found-set_window key w [] = rw (scope_beq_self key) refl
found-set_window key w ((k, v) ∷ rest) = ground (arith, found-set_window key w rest)

pub found-set_window_other :
    (key other : Scope) (w : Window) (ws : List (Scope × Window))
    → scope_beq other key ≡ false
    → found key (set_window other w ws) ≡ found key ws
unfolding set_window
found-set_window_other key other w [] h = rw h refl
found-set_window_other key other w ((k, v) ∷ rest) h = elim (Bool-cases (scope_beq k other)) [
  | inl same ↦ rw (same, scope_beq-eq k other same, h) refl
  | inr different ↦ rw (different, found-set_window_other key other w rest h) refl
]

-- No scope is listed twice.
abbrev pub Distinct : List (Scope × Window) → Type 0
Distinct [] = Unit
Distinct ((k, w) ∷ rest) = (found k rest ≡ none) × Distinct rest

pub set_window-Distinct :
    (key : Scope) (w : Window) (ws : List (Scope × Window))
    → Distinct ws
    → Distinct (set_window key w ws)
unfolding set_window
set_window-Distinct key w [] d = (refl, tt)
set_window-Distinct key w ((k, v) ∷ rest) (alone, d) = elim (Bool-cases (scope_beq k key)) [
  | inl same ↦ rw same (alone, d)
  | inr different ↦ rw different (
    found-set_window_other k key w rest (unlike key k different) ∙ alone,
    set_window-Distinct key w rest d,
  )
]
  where
    unlike : (a b : Scope) → scope_beq b a ≡ false → scope_beq a b ≡ false
    unlike a b h = elim (Bool-cases (scope_beq a b)) [
      | inl same ↦ cc (scope_beq-eq a b same, scope_beq_self b)
      | inr different ↦ different
    ]

-- What is left of a window when the expired ones are discarded.
abbrev pub if_fresh : ℕ → Option Window → Option Window
if_fresh now none = none
if_fresh now (some w) = if is_fresh now w then some w else none

pub found-keep_fresh :
    (key : Scope) (now : ℕ) (ws : List (Scope × Window))
    → Distinct ws
    → found key (keep_fresh now ws) ≡ if_fresh now (found key ws)
unfolding keep_fresh
found-keep_fresh key now [] d = refl
found-keep_fresh key now ((k, w) ∷ rest) (alone, d) = elim (Bool-cases (scope_beq k key)) [
  | inl same ↦
      let absent : found key rest ≡ none =
        subst (λ s. found s rest ≡ none) (scope_beq-eq k key same) alone in
      elim (Bool-cases (is_fresh now w)) [
        | inl fresh ↦ rw (fresh, same) (rw fresh refl)
        | inr stale ↦
            rw (stale, same) (rw stale (found-keep_fresh key now rest d ∙ ap (if_fresh now) absent))
      ]
  | inr different ↦ elim (Bool-cases (is_fresh now w)) [
    | inl fresh ↦ rw (fresh, different) (found-keep_fresh key now rest d)
    | inr stale ↦ rw (stale, different) (found-keep_fresh key now rest d)
  ]
]

pub keep_fresh-Distinct :
    (now : ℕ) (ws : List (Scope × Window)) → Distinct ws → Distinct (keep_fresh now ws)
unfolding keep_fresh
keep_fresh-Distinct now [] d = tt
keep_fresh-Distinct now ((k, w) ∷ rest) (alone, d) = elim (Bool-cases (is_fresh now w)) [
  | inl fresh ↦
      rw fresh
        (found-keep_fresh k now rest d ∙ ap (if_fresh now) alone, keep_fresh-Distinct now rest d)
  | inr stale ↦ rw stale (keep_fresh-Distinct now rest d)
]
