-- ===== src/Prelude/Member.antt =====
-- Membership in a list, by recursion, and the list functions that keep it.
use mathlib.Core.Path.{◌≡◌, subst}
use mathlib.Core.Option.{some}
use mathlib.Core.Logic.{◌↔◌, ◌⊎◌, inl, inr}
use mathlib.Core.Bool.{Bool, true}
use mathlib.Core.List.{List, [], ◌∷◌, ◌++◌}
use native.Mathlib.Omega.{arith}
use crownline.Prelude.Tests.{Bool-cases}
use crownline.Prelude.Lists.{find, keep, insert_sorted, sort_by}

module _ {ℓ} {A : Type ℓ} where
  abbrev pub In : A → List A → Type ℓ
  In a [] = Unit {ℓ} × ⊥
  In a (x ∷ xs) = (a ≡ x) ⊎ In a xs

  pub In-append : (a : A) (xs ys : List A) → In a (xs ++ ys) ↔ (In a xs ⊎ In a ys)
  In-append a [] ys = ground arith
  In-append a (x ∷ xs) ys = ground (arith, In-append a xs ys)

  pub In-insert_sorted :
      (le : A → A → Bool) (a x : A) (xs : List A)
      → In a (insert_sorted le x xs) ↔ ((a ≡ x) ⊎ In a xs)
  In-insert_sorted le a x [] = ground arith
  In-insert_sorted le a x (y ∷ ys) = elim (Bool-cases (le x y)) [
    | inl before ↦ rw before (ground arith)
    | inr after ↦ rw after (ground (arith, In-insert_sorted le a x ys))
  ]

  pub In-sort_by : (le : A → A → Bool) (a : A) (xs : List A) → In a (sort_by le xs) ↔ In a xs
  unfolding sort_by
  In-sort_by le a [] = ground arith
  In-sort_by le a (x ∷ xs) =
      ground (arith, In-insert_sorted le a x (sort_by le xs), In-sort_by le a xs)

  pub find-In : (p : A → Bool) (xs : List A) {a : A} → find p xs ≡ some a → In a xs
  find-In p [] h = cc
  find-In p (x ∷ xs) h = elim (Bool-cases (p x)) [
    | inl hit ↦ let e = rw hit at h in inl cc
    | inr miss ↦ inr (find-In p xs (rw miss at h))
  ]

  pub keep-In : (p : A → Bool) (a : A) (xs : List A) → In a xs → p a ≡ true → In a (keep p xs)
  keep-In p a [] h t = h
  keep-In p a (x ∷ xs) (inl same) t = rw (subst (λ y. p y ≡ true) same t) (inl same)
  keep-In p a (x ∷ xs) (inr later) t = elim (Bool-cases (p x)) [
    | inl hit ↦ rw hit (inr (keep-In p a xs later t))
    | inr miss ↦ rw miss (keep-In p a xs later t)
  ]
