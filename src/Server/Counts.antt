-- ===== src/Server/Counts.antt =====
-- The counts of the registry by address, in crates/crownline_server/src/limits.rs.
use crownline.Prelude.{ℕ, ◌+◌, ◌≤◌, ◌<◌, ◌≡◌, refl, none, some, [], ◌∷◌, arith}
use crownline.Prelude.Map
use crownline.Prelude.Map.{Map}
use crownline.Server.Limits.{or_zero}

-- Every address that is counted has a connection, and no more than it may have; the addresses are
-- in order and at least the first.
abbrev pub Counted : ℕ → ℕ → Map ℕ → Type 0
Counted least most [] = Unit
Counted least most ((ip, n) ∷ rest) =
    (least ≤ ip) × (1 ≤ n) × (n ≤ most) × Counted (1 + ip) most rest

abbrev pub sum : Map ℕ → ℕ
sum [] = 0
sum ((ip, n) ∷ rest) = n + sum rest

get-below :
    (ip least most : ℕ) (m : Map ℕ) → ip < least → Counted least most m → Map.get ip m ≡ none
unfolding Map.get
get-below ip least most [] h c = refl
get-below ip least most ((j, n) ∷ rest) h (a, b, d, c) =
    grind (arith, get-below ip (1 + j) most rest)

pub get-Counted :
    (ip least most n : ℕ) (m : Map ℕ)
    → Counted least most m
    → Map.get ip m ≡ some n
    → (1 ≤ n) × (n ≤ most) × (least ≤ ip)
unfolding Map.get
get-Counted ip least most n [] c h = cc
get-Counted ip least most n ((j, k) ∷ rest) (a, b, d, c) h =
    grind (arith, get-Counted ip (1 + j) most n rest c)

pub insert-Counted :
    (ip least most n : ℕ) (m : Map ℕ)
    → Counted least most m
    → least ≤ ip
    → 1 ≤ n
    → n ≤ most
    → Counted least most (Map.insert ip n m)
unfolding Map.insert
insert-Counted ip least most n [] c a b d = (a, b, d, tt)
insert-Counted ip least most n ((j, k) ∷ rest) (e, f, g, c) a b d =
    ground (arith, insert-Counted ip (1 + j) most n rest c)

pub sum-insert :
    (ip least most n : ℕ) (m : Map ℕ)
    → Counted least most m
    → sum (Map.insert ip n m) + or_zero (Map.get ip m) ≡ sum m + n
unfolding Map.insert Map.get
sum-insert ip least most n [] c = omega arith
sum-insert ip least most n ((j, k) ∷ rest) (e, f, g, c) =
    grind (arith, sum-insert ip (1 + j) most n rest c, get-below ip (1 + j) most rest)

pub remove-Counted :
    (ip least most : ℕ) (m : Map ℕ) → Counted least most m → Counted least most (Map.remove ip m)
unfolding Map.remove
remove-Counted ip least most [] c = tt
remove-Counted ip least most ((j, k) ∷ rest) (e, f, g, c) =
    ground (arith, remove-Counted ip (1 + j) most rest c, lower-Counted)
  where
    lower-Counted :
        Counted (1 + j) most (Map.remove ip rest) → Counted least most (Map.remove ip rest)
    lower-Counted = lower (Map.remove ip rest)
      where
        lower : (m : Map ℕ) → Counted (1 + j) most m → Counted least most m
        lower [] d = tt
        lower ((i, n) ∷ others) (a, x, y, d) = (omega arith, x, y, d)

remove-below :
    (ip least most : ℕ) (m : Map ℕ) → ip < least → Counted least most m → Map.remove ip m ≡ m
unfolding Map.remove
remove-below ip least most [] h c = refl
remove-below ip least most ((j, n) ∷ rest) h (a, b, d, c) =
    grind (arith, remove-below ip (1 + j) most rest)

pub sum-remove :
    (ip least most : ℕ) (m : Map ℕ)
    → Counted least most m
    → sum (Map.remove ip m) + or_zero (Map.get ip m) ≡ sum m
unfolding Map.remove Map.get
sum-remove ip least most [] c = refl
sum-remove ip least most ((j, k) ∷ rest) (e, f, g, c) = grind (
  arith,
  sum-remove ip (1 + j) most rest c,
  get-below ip (1 + j) most rest,
  remove-below ip (1 + j) most rest,
)

pub remove-insert_new :
    (ip least most n : ℕ) (m : Map ℕ)
    → Counted least most m
    → Map.get ip m ≡ none
    → Map.remove ip (Map.insert ip n m) ≡ m
unfolding Map.get Map.insert Map.remove
remove-insert_new ip least most n [] c h = ground arith
remove-insert_new ip least most n ((j, k) ∷ rest) (e, f, g, c) h =
    grind (arith, remove-insert_new ip (1 + j) most n rest c, remove-below ip (1 + j) most rest)

pub insert-insert :
    (ip least most n k : ℕ) (m : Map ℕ)
    → Counted least most m
    → Map.get ip m ≡ some n
    → Map.insert ip n (Map.insert ip k m) ≡ m
unfolding Map.get Map.insert
insert-insert ip least most n k [] c h = cc
insert-insert ip least most n k ((j, w) ∷ rest) (e, f, g, c) h =
    grind (arith, insert-insert ip (1 + j) most n k rest c, get-below ip (1 + j) most rest)

pub get-insert_self : (ip n : ℕ) (m : Map ℕ) → Map.get ip (Map.insert ip n m) ≡ some n
get-insert_self ip n m = grind (arith, Map.get-insert ip ip n m)
