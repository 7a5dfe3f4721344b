-- ===== src/Prelude/Int.antt =====
-- Signed machine integers: `i32` fields of the protocol and the TINYINT columns (`i8`).
use Prim.Native.Nat.{ℕ, ◌-◌, ◌%◌}
use mathlib.Core.Path.{◌≡◌}
use mathlib.Core.Logic.{◌↔◌}
use mathlib.Core.Bool.{Bool, true, false}
use native.Mathlib.Omega.{arith}
use task_db.Prelude.Tests.{◌==◌, ltb, if◌then◌else◌}

-- `negsuc n` is -(n + 1).
pub data ℤ : Type 0 where
  pos : ℕ → ℤ
  negsuc : ℕ → ℤ

abbrev pub int_eq : ℤ → ℤ → Bool
int_eq (pos a) (pos b) = a == b
int_eq (negsuc a) (negsuc b) = a == b
int_eq (pos a) (negsuc b) = false
int_eq (negsuc a) (pos b) = false

pub int_eq_iff : (a b : ℤ) → (int_eq a b ≡ true) ↔ (a ≡ b)
int_eq_iff (pos a) (pos b) = ground arith
int_eq_iff (negsuc a) (negsuc b) = ground arith
int_eq_iff (pos a) (negsuc b) = ground arith
int_eq_iff (negsuc a) (pos b) = ground arith

-- The byte of a two's complement representation, read as signed.
abbrev pub signed_byte : ℕ → ℤ
signed_byte b = if ltb b 128 then pos b else negsuc (255 - b)

-- `x as i8`: the low byte.
pub as_i8 : ℤ → ℤ
as_i8 (pos n) = signed_byte (n % 256)
as_i8 (negsuc n) = signed_byte (255 - n % 256)

-- The values that an `i8` holds.
abbrev pub is_i8 : ℤ → Bool
is_i8 (pos n) = ltb n 128
is_i8 (negsuc n) = ltb n 128

pub as_i8_lem : (x : ℤ) → (as_i8 x ≡ x) ↔ (is_i8 x ≡ true)
unfolding as_i8
as_i8_lem (pos n) = ground arith
as_i8_lem (negsuc n) = ground arith
