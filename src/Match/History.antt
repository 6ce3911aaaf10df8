-- ===== src/Match/History.antt =====
-- The states of one game, in their order, and what their revisions say of them.
use crownline.Prelude.{
  ℕ, ◌<◌, ◌≡◌, ◌⊎◌, ◌∙◌, inl, inr, sym, ap, Option, is_some, List, [], ◌∷◌, In, arith, ok, Ensures,
  Ensures-ok, Ensures-map, >>=-Ensures_any, if-Ensures,
}
use crownline.Scenario.Types.{Player, ScenarioDefinition}
use crownline.State.Types.{ClockState, MatchState, Action}
use crownline.State.Repetition.{Digest}
use crownline.State.Create.{from_scenario}
use crownline.State.Cache.{Determined}
use crownline.Rules.Events.{Transition}
use crownline.Rules.Action.{apply_action}
use crownline.Rules.Conduct.{apply_action-Advances}
use crownline.Clock.{
  ClockSettings, start_clocks, advance_clock, charge, expire, increment_for, increment_player,
  apply_timed_action,
}

-- The revision has grown, or it is the same and so are the pieces.
abbrev pub Later : MatchState → MatchState → Type 0
Later a b = ((b.revision ≡ a.revision) × (b.pieces ≡ a.pieces)) ⊎ (a.revision < b.revision)

Later-trans : (a b c : MatchState) → Later a b → Later b c → Later a c
Later-trans a b c (inl (r, p)) (inl (s, q)) = inl (s ∙ r, q ∙ p)
Later-trans a b c (inl (r, p)) (inr l) = inr (omega (arith, r, l))
Later-trans a b c (inr k) (inl (s, q)) = inr (omega (arith, s, k))
Later-trans a b c (inr k) (inr l) = inr (omega (arith, k, l))

advance_clock-Later :
    (a : MatchState) (elapsed : ℕ) {t : Transition}
    → advance_clock a elapsed ≡ ok t
    → Later a t.state
unfolding advance_clock charge expire
advance_clock-Later a elapsed h = ground arith

start_clocks-Later :
    (a b : MatchState) (settings : ClockSettings) → start_clocks a settings ≡ ok b → Later a b
unfolding start_clocks
start_clocks-Later a b settings h = ground arith

apply_action-Later :
    (digest : Digest) (scenario : ScenarioDefinition) (a : MatchState) (action : Action)
    {t : Transition}
    → apply_action digest scenario a action ≡ ok t
    → Later a t.state
apply_action-Later digest scenario a action h =
    inr (omega (arith, (apply_action-Advances digest scenario a action h).revision))

increment_for-Later :
    (player : Option Player) (clocks : Option ClockState) (done : Transition)
    → Ensures (λ t. Later done.state t.state) (increment_for player clocks done)
increment_for-Later player clocks done = ground arith

apply_timed_action-Later :
    (digest : Digest) (scenario : ScenarioDefinition) (a : MatchState) (action : Action)
    (elapsed : ℕ)
    → Ensures (λ t. Later a t.state) (apply_timed_action digest scenario a action elapsed)
unfolding apply_timed_action
apply_timed_action-Later digest scenario a action elapsed =
    let P : Transition → Type 0 = λ t. Later a t.state in
    >>=-Ensures_any P (advance_clock a elapsed) _ λ charged waited.
      let first = advance_clock-Later a elapsed waited in
      if-Ensures P (is_some charged.state.outcome) _ _ first (
        >>=-Ensures_any P (apply_action digest scenario charged.state action) _ λ done acted.
          Ensures-map (λ t. Later done.state t.state) P
            (increment_for (increment_player action) done.state.clocks _)
            (λ t last.
              Later-trans a done.state t.state
                (Later-trans a charged.state done.state first
                  (apply_action-Later digest scenario charged.state action acted))
                last)
            (increment_for-Later (increment_player action) done.state.clocks _))

-- A game, with its present state and those before it, the latest first.
pub data Game (digest : Digest) (scenario : ScenarioDefinition)
    : MatchState → List MatchState → Type 0 where
  created : (s : MatchState) → from_scenario digest scenario ≡ ok s → Game digest scenario s []
  clocked :
      (s next : MatchState) (past : List MatchState) (settings : ClockSettings)
      → Game digest scenario s past
      → start_clocks s settings ≡ ok next
      → Game digest scenario next (s ∷ past)
  acted :
      (s : MatchState) (past : List MatchState) (action : Action) (t : Transition)
      → Game digest scenario s past
      → apply_action digest scenario s action ≡ ok t
      → Game digest scenario t.state (s ∷ past)
  waited :
      (s : MatchState) (past : List MatchState) (elapsed : ℕ) (t : Transition)
      → Game digest scenario s past
      → advance_clock s elapsed ≡ ok t
      → Game digest scenario t.state (s ∷ past)
  timed :
      (s : MatchState) (past : List MatchState) (action : Action) (elapsed : ℕ) (t : Transition)
      → Game digest scenario s past
      → apply_timed_action digest scenario s action elapsed ≡ ok t
      → Game digest scenario t.state (s ∷ past)

-- The later of two states of a game has the higher revision, or both have the same pieces.
abbrev Ordered : MatchState → List MatchState → Type 0
Ordered now [] = Unit
Ordered now (s ∷ past) = Later s now × Ordered now past × Ordered s past

pass-Ordered :
    (s next : MatchState) (past : List MatchState)
    → Later s next
    → Ordered s past
    → Ordered next past
pass-Ordered s next [] l o = tt
pass-Ordered s next (p ∷ past) l (k, os, op) =
    (Later-trans p s next k l, pass-Ordered s next past l os, op)

step-Ordered :
    (s next : MatchState) (past : List MatchState)
    → Later s next
    → Ordered s past
    → Ordered next (s ∷ past)
step-Ordered s next past l o = (l, pass-Ordered s next past l o, o)

Game-Ordered :
    (digest : Digest) (scenario : ScenarioDefinition) (now : MatchState) (past : List MatchState)
    → Game digest scenario now past
    → Ordered now past
Game-Ordered digest scenario now past (created _ h) = tt
Game-Ordered digest scenario now _ (clocked s _ past settings g h) =
    step-Ordered s now past (start_clocks-Later s now settings h)
      (Game-Ordered digest scenario s past g)
Game-Ordered digest scenario now _ (acted s past action t g h) =
    step-Ordered s t.state past (apply_action-Later digest scenario s action h)
      (Game-Ordered digest scenario s past g)
Game-Ordered digest scenario now _ (waited s past elapsed t g h) =
    step-Ordered s t.state past (advance_clock-Later s elapsed h)
      (Game-Ordered digest scenario s past g)
Game-Ordered digest scenario now _ (timed s past action elapsed t g h) =
    step-Ordered s t.state past
      (Ensures-ok (λ t. Later s t.state) _ h
        (apply_timed_action-Later digest scenario s action elapsed))
      (Game-Ordered digest scenario s past g)

Ordered-In :
    (now s : MatchState) (past : List MatchState) → Ordered now past → In s past → Later s now
Ordered-In now s [] o k = absurd k.1
Ordered-In now s (p ∷ past) (l, o, _) (inl same) = rw same l
Ordered-In now s (p ∷ past) (l, o, _) (inr k) = Ordered-In now s past o k

Later-pieces : (a b : MatchState) → a.revision ≡ b.revision → Later a b → a.pieces ≡ b.pieces
Later-pieces a b e (inl (_, p)) = sym p
Later-pieces a b e (inr l) = absurd (omega (arith, e, l))

Ordered-pieces :
    (past : List MatchState) (now a b : MatchState)
    → Ordered now past
    → In a (now ∷ past)
    → In b (now ∷ past)
    → a.revision ≡ b.revision
    → a.pieces ≡ b.pieces
Ordered-pieces [] now a b o (inl x) (inl y) e = ap (λ s. s.pieces) (x ∙ sym y)
Ordered-pieces [] now a b o (inl x) (inr l) e = absurd l.1
Ordered-pieces [] now a b o (inr k) l e = absurd k.1
Ordered-pieces (p ∷ past) now a b o (inl x) (inl y) e = ap (λ s. s.pieces) (x ∙ sym y)
Ordered-pieces (p ∷ past) now a b o (inl x) (inr k) e =
    ap (λ s. s.pieces) x
    ∙ sym (Later-pieces b now (sym e ∙ ap (λ s. s.revision) x) (Ordered-In now b (p ∷ past) o k))
Ordered-pieces (p ∷ past) now a b o (inr k) (inl y) e =
    Later-pieces a now (e ∙ ap (λ s. s.revision) y) (Ordered-In now a (p ∷ past) o k)
    ∙ sym (ap (λ s. s.pieces) y)
Ordered-pieces (p ∷ past) now a b (_, _, o) (inr k) (inr l) e = Ordered-pieces past p a b o k l e

-- In a game the revision determines where the pieces stand, however the game is played.
pub Game-Determined :
    (digest : Digest) (scenario : ScenarioDefinition) (now : MatchState) (past : List MatchState)
    → Game digest scenario now past
    → Determined (λ played s. (played ≡ scenario) × In s (now ∷ past))
Game-Determined digest scenario now past g _ _ a b (_, k) (_, l) _ _ _ e =
    Ordered-pieces past now a b (Game-Ordered digest scenario now past g) k l e
