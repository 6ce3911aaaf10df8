-- ===== src/Prelude/Sorting.antt =====
-- The stable sort: it keeps the length, and its result is in order.
use Prim.Native.Nat.{suc}
use mathlib.Core.Path.{◌≡◌, refl}
use mathlib.Core.Logic.{inl, inr}
use mathlib.Core.Bool.{Bool, true, false}
use mathlib.Core.List.{List, [], ◌∷◌}
use native.Mathlib.Omega.{arith}
use crownline.Prelude.Tests.{Bool-cases}
use crownline.Prelude.Lists.{length, insert_sorted, sort_by}

module _ {ℓ} {A : Type ℓ} (le : A → A → Bool) where
  length-insert_sorted : (x : A) (xs : List A) → length (insert_sorted le x xs) ≡ suc (length xs)
  length-insert_sorted x [] = refl
  length-insert_sorted x (y ∷ ys) = elim (Bool-cases (le x y)) [
    | inl before ↦ rw before refl
    | inr after ↦ rw (after, length-insert_sorted x ys) refl
  ]

  pub length-sort_by : (xs : List A) → length (sort_by le xs) ≡ length xs
  unfolding sort_by
  length-sort_by [] = refl
  length-sort_by (x ∷ xs) = omega (arith, length-insert_sorted x (sort_by le xs), length-sort_by xs)

  -- The element comes before each element of the list.
  abbrev pub Before : A → List A → Type 0
  Before x [] = Unit {0}
  Before x (y ∷ ys) = (le x y ≡ true) × Before x ys

  abbrev pub Sorted : List A → Type 0
  Sorted [] = Unit {0}
  Sorted (x ∷ xs) = Before x xs × Sorted xs

  module _ (total : (x y : A) → le x y ≡ false → le y x ≡ true)
      (trans : (x y z : A) → le x y ≡ true → le y z ≡ true → le x z ≡ true) where
    Before-trans : (x y : A) (ys : List A) → le x y ≡ true → Before y ys → Before x ys
    Before-trans x y [] h b = tt
    Before-trans x y (z ∷ zs) h b = (trans x y z h b.0, Before-trans x y zs h b.1)

    Before-insert :
        (z x : A) (xs : List A) → le z x ≡ true → Before z xs → Before z (insert_sorted le x xs)
    Before-insert z x [] h b = (h, tt)
    Before-insert z x (y ∷ ys) h b = elim (Bool-cases (le x y)) [
      | inl before ↦ rw before (h, b)
      | inr after ↦ rw after (b.0, Before-insert z x ys h b.1)
    ]

    insert-Sorted : (x : A) (xs : List A) → Sorted xs → Sorted (insert_sorted le x xs)
    insert-Sorted x [] s = (tt, tt)
    insert-Sorted x (y ∷ ys) s = elim (Bool-cases (le x y)) [
      | inl before ↦ rw before ((before, Before-trans x y ys before s.0), s)
      | inr after ↦ rw after (Before-insert y x ys (total x y after) s.0, insert-Sorted x ys s.1)
    ]

    pub sort_by-Sorted : (xs : List A) → Sorted (sort_by le xs)
    unfolding sort_by
    sort_by-Sorted [] = tt
    sort_by-Sorted (x ∷ xs) = insert-Sorted x (sort_by le xs) (sort_by-Sorted xs)
