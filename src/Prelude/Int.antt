-- ===== src/Prelude/Int.antt =====
-- Signed integers over the native numbers.
use Prim.Native.Nat.{ℕ, suc, ◌+◌, ◌-◌}
use mathlib.Core.Bool.{Bool, true, false}
use crownline.Prelude.Tests.{leb, nat_beq, if◌then◌else◌}

-- `negsuc n` is -(n + 1).
pub data ℤ : Type 0 where
  pos : ℕ → ℤ
  negsuc : ℕ → ℤ

abbrev pub is_negative : ℤ → Bool
is_negative (pos n) = false
is_negative (negsuc n) = true

-- The absolute value, as a number.
abbrev pub nat_abs : ℤ → ℕ
nat_abs (pos n) = n
nat_abs (negsuc n) = suc n

-- a - b, as an integer.
abbrev pub sub_ℕ : ℕ → ℕ → ℤ
sub_ℕ a b = if leb b a then pos (a - b) else negsuc (b - a - 1)

-- `abs_diff`.
abbrev pub abs_diff : ℕ → ℕ → ℕ
abs_diff a b = a - b + (b - a)

-- `signum`.
abbrev pub signum : ℤ → ℤ
signum (pos n) = if nat_beq n 0 then pos 0 else pos 1
signum (negsuc n) = negsuc 0

abbrev pub int_beq : ℤ → ℤ → Bool
int_beq (pos a) (pos b) = nat_beq a b
int_beq (negsuc a) (negsuc b) = nat_beq a b
int_beq (pos a) (negsuc b) = false
int_beq (negsuc a) (pos b) = false

-- `i8::saturating_mul(2)`.
abbrev pub double_i8 : ℤ → ℤ
double_i8 (pos n) = if leb (n + n) 127 then pos (n + n) else pos 127
double_i8 (negsuc n) = if leb (n + n + 2) 128 then negsuc (n + n + 1) else negsuc 127
