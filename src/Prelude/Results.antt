-- ===== src/Prelude/Results.antt =====
-- `Result<T, E>`, its `?` as a do block, and the loops that stop at the first error.
use mathlib.Core.Path.{◌≡◌, refl, subst}
use mathlib.Core.Bool.{Bool, true, false}
use mathlib.Core.Option.{Option, none, some}
use Prim.Native.Nat.{ℕ, ◌+◌}
use crownline.Prelude.Tests.{ltb, if◌then◌else◌}

pub data Result {ℓ κ} (A : Type ℓ) (E : Type κ) : Type (ℓ ⊔ κ) where
  ok : A → Result A E
  err : E → Result A E

infixl 5 ◌>>=◌ ◌>>◌
abbrev pub ◌>>=◌ {ℓ κ ι} :
    {A : Type ℓ} {B : Type κ} {E : Type ι} → Result A E → (A → Result B E) → Result B E
ok value >>= step = step value
err error >>= step = err error

abbrev pub ◌>>◌ {ℓ κ} : {B : Type ℓ} {E : Type κ} → Result (Unit {0}) E → Result B E → Result B E
first >> rest = first >>= λ _. rest

-- `if !test { return Err(e) }`.
abbrev pub ensure {κ} : {E : Type κ} → Bool → E → Result (Unit {0}) E
ensure true error = ok tt
ensure false error = err error

abbrev pub ok_or {ℓ κ} : {A : Type ℓ} {E : Type κ} → Option A → E → Result A E
ok_or none e = err e
ok_or (some a) e = ok a

abbrev pub map_err {ℓ κ ι} :
    {A : Type ℓ} {E : Type κ} {F : Type ι} → Result A E → (E → F) → Result A F
map_err (ok a) f = ok a
map_err (err e) f = err (f e)

abbrev pub is_ok {ℓ κ} : {A : Type ℓ} {E : Type κ} → Result A E → Bool
is_ok (ok a) = true
is_ok (err e) = false

pub map_err-eq-ok {ℓ κ ι} :
    {A : Type ℓ} {E : Type κ} {F : Type ι} (r : Result A E) (f : E → F) {a : A}
    → map_err r f ≡ ok a
    → r ≡ ok a
map_err-eq-ok (ok a) f h = cc
map_err-eq-ok (err e) f h = cc

pub is_ok-cases {ℓ κ} :
    {A : Type ℓ} {E : Type κ} (r : Result A E) → is_ok r ≡ true → (a : A) × (r ≡ ok a)
is_ok-cases (ok a) h = (a, refl)
is_ok-cases (err e) h = cc

-- What a bind that succeeds has gone through.
pub >>=-eq-ok {ℓ κ ι} :
    {A : Type ℓ} {B : Type κ} {E : Type ι} (first : Result A E) (step : A → Result B E) {final : B}
    → (first >>= step) ≡ ok final
    → (value : A) × (first ≡ ok value) × (step value ≡ ok final)
>>=-eq-ok (ok value) step h = (value, refl, h)
>>=-eq-ok (err error) step h = cc

-- `checked_add(1)` of an unsigned integer with the given maximum.
abbrev pub checked_inc {κ} : {E : Type κ} → ℕ → ℕ → E → Result ℕ E
checked_inc maximum n e = if ltb n maximum then ok (n + 1) else err e

abbrev pub u8_max : ℕ
u8_max = 255

abbrev pub u16_max : ℕ
u16_max = 65535

abbrev pub u32_max : ℕ
u32_max = 4294967295

abbrev pub u64_max : ℕ
u64_max = 18446744073709551615

-- A result that holds `P` where it succeeds.
abbrev pub Ensures {ℓ κ ι} : {A : Type ℓ} {E : Type κ} → (A → Type ι) → Result A E → Type ι
Ensures P (ok a) = P a
Ensures P (err e) = Unit

-- The rule of a do block: what the first step ensures is given to the second.
pub >>=-Ensures {ℓ κ ι η θ} :
    {A : Type ℓ} {B : Type κ} {E : Type ι} (P : A → Type η) (Q : B → Type θ) (m : Result A E)
    (f : A → Result B E)
    → Ensures P m
    → ((a : A) → P a → Ensures Q (f a))
    → Ensures Q (m >>= f)
>>=-Ensures P Q (ok a) f h k = k a h
>>=-Ensures P Q (err e) f h k = tt

-- The same where nothing is known of the first step.
pub >>=-Ensures_any {ℓ κ ι θ} :
    {A : Type ℓ} {B : Type κ} {E : Type ι} (Q : B → Type θ) (m : Result A E) (f : A → Result B E)
    → ((a : A) → m ≡ ok a → Ensures Q (f a))
    → Ensures Q (m >>= f)
>>=-Ensures_any Q (ok a) f k = k a refl
>>=-Ensures_any Q (err e) f k = tt

pub Ensures-ok {ℓ κ ι} :
    {A : Type ℓ} {E : Type κ} (P : A → Type ι) (r : Result A E) {a : A}
    → r ≡ ok a
    → Ensures P r
    → P a
Ensures-ok P r e h = subst (Ensures P) e h

-- A test that fails with an error, before a result.
pub else-Ensures {ℓ κ ι} :
    {A : Type ℓ} {E : Type κ} (P : A → Type ι) (test : Bool) (e : E) (r : Result A E)
    → (test ≡ false → Ensures P r)
    → Ensures P (if test then err e else r)
else-Ensures P true e r h = tt
else-Ensures P false e r h = h refl

pub ensure-Ensures {ℓ κ ι} :
    {A : Type ℓ} {E : Type κ} (P : A → Type ι) (test : Bool) (e : E) (a : A)
    → P a
    → Ensures P (ensure test e >> ok a)
ensure-Ensures P true e a h = h
ensure-Ensures P false e a h = tt

pub if-Ensures {ℓ κ ι} :
    {A : Type ℓ} {E : Type κ} (P : A → Type ι) (test : Bool) (a : A) (r : Result A E)
    → P a
    → Ensures P r
    → Ensures P (if test then ok a else r)
if-Ensures P true a r h k = h
if-Ensures P false a r h k = k

pub Ensures-map {ℓ κ ι η} :
    {A : Type ℓ} {E : Type κ} (P : A → Type ι) (Q : A → Type η) (r : Result A E)
    → ((a : A) → P a → Q a)
    → Ensures P r
    → Ensures Q r
Ensures-map P Q (ok a) f h = f a h
Ensures-map P Q (err e) f h = tt

pub map_err-Ensures {ℓ κ ι η} :
    {A : Type ℓ} {E : Type κ} {F : Type ι} (P : A → Type η) (r : Result A E) (f : E → F)
    → Ensures P r
    → Ensures P (map_err r f)
map_err-Ensures P (ok a) f h = h
map_err-Ensures P (err e) f h = tt
