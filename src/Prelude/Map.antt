-- ===== src/Prelude/Map.antt =====
-- `BTreeMap` with numeric keys, as an association list in the order of its keys.
use Prim.Native.Nat.{ℕ}
use mathlib.Core.Path.{◌≡◌, refl}
use mathlib.Core.Bool.{Bool}
use mathlib.Core.Option.{Option, none, some}
use mathlib.Core.List.{List, [], ◌∷◌}
use native.Mathlib.Omega.{arith}
use crownline.Prelude.Tests.{ltb, nat_beq, if◌then◌else◌, is_some}

abbrev pub Map {ℓ} : Type ℓ → Type ℓ
Map V = List (ℕ × V)

module _ {ℓ} {V : Type ℓ} where
  unfoldable pub get : ℕ → Map V → Option V
  get k [] = none
  get k ((j, v) ∷ m) = if nat_beq j k then some v else get k m

  unfoldable pub insert : ℕ → V → Map V → Map V
  insert k v [] = (k, v) ∷ []
  insert k v ((j, w) ∷ m) =
      if ltb k j
      then (k, v) ∷ (j, w) ∷ m
      else if nat_beq j k
      then (k, v) ∷ m
      else (j, w) ∷ insert k v m

  unfoldable pub remove : ℕ → Map V → Map V
  remove k [] = []
  remove k ((j, w) ∷ m) = let rest = remove k m in if nat_beq j k then rest else (j, w) ∷ rest

  abbrev pub contains_key : ℕ → Map V → Bool
  contains_key k m = is_some (get k m)

  abbrev pub values : Map V → List V
  values [] = []
  values ((k, v) ∷ m) = v ∷ values m

  abbrev pub keys : Map V → List ℕ
  keys [] = []
  keys ((k, v) ∷ m) = k ∷ keys m

  unfoldable pub retain : (ℕ → V → Bool) → Map V → Map V
  retain p [] = []
  retain p ((k, v) ∷ m) = let rest = retain p m in if p k v then (k, v) ∷ rest else rest

  pub get-insert :
      (k j : ℕ) (v : V) (m : Map V)
      → get j (insert k v m) ≡ (if nat_beq k j then some v else get j m)
  unfolding get insert
  get-insert k j v [] = refl
  get-insert k j v ((i, w) ∷ m) = ground (arith, get-insert k j v m)

  pub get-remove :
      (k j : ℕ) (m : Map V) → get j (remove k m) ≡ (if nat_beq k j then none else get j m)
  unfolding get remove
  get-remove k j [] = ground arith
  get-remove k j ((i, w) ∷ m) = ground (arith, get-remove k j m)
