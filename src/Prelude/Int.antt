-- ===== src/Prelude/Int.antt =====
-- Signed machine integers: `i64` and `i32` values as integers, with the casts of the source
-- (`as u64`, `as i32`) written out in two's complement.
use Prim.Native.Nat.{ℕ, ◌-◌, ◌%◌, ◌^◌, ◌<◌}
use mathlib.Core.Path.{◌≡◌, ap}
use mathlib.Core.Logic.{◌↔◌}
use mathlib.Core.Bool.{Bool, true, false}
use native.Mathlib.Omega.{arith}
use ferroq.Prelude.Tests.{ltb, nat_eq, if◌then◌else◌, Eq}

-- `negsuc n` is -(n + 1).
pub data ℤ : Type 0 where
  pos : ℕ → ℤ
  negsuc : ℕ → ℤ

abbrev pub int_eq : ℤ → ℤ → Bool
int_eq (pos a) (pos b) = nat_eq a b
int_eq (negsuc a) (negsuc b) = nat_eq a b
int_eq (pos a) (negsuc b) = false
int_eq (negsuc a) (pos b) = false

pub int_eq_iff : (a b : ℤ) → (int_eq a b ≡ true) ↔ (a ≡ b)
int_eq_iff (pos a) (pos b) = ground arith
int_eq_iff (negsuc a) (negsuc b) = ground arith
int_eq_iff (pos a) (negsuc b) = ground arith
int_eq_iff (negsuc a) (pos b) = ground arith

instance abbrev pub eq_ℤ : Eq ℤ
eq_ℤ = record { test = int_eq; test_iff = int_eq_iff }

-- A value of type `i64`, of type `i32`.
abbrev pub IsI64 : ℤ → Type 0
IsI64 (pos n) = n < 2 ^ 63
IsI64 (negsuc n) = n < 2 ^ 63

abbrev pub IsI32 : ℤ → Type 0
IsI32 (pos n) = n < 2 ^ 31
IsI32 (negsuc n) = n < 2 ^ 31

-- `x as u64` of an `i64`.
unfoldable pub as_u64 : ℤ → ℕ
as_u64 (pos n) = n % 2 ^ 64
as_u64 (negsuc n) = 2 ^ 64 - 1 - n % 2 ^ 64

-- `x as i32` of an `i64`: the low 32 bits, read as a signed number.
unfoldable pub as_i32 : ℤ → ℤ
unfolding as_u64
as_i32 z =
    let bits = as_u64 z % 2 ^ 32 in
    if ltb bits (2 ^ 31) then pos bits else negsuc (2 ^ 32 - 1 - bits)

pub as_u64-lt : (z : ℤ) → as_u64 z < 2 ^ 64
unfolding as_u64
as_u64-lt (pos n) = omega arith
as_u64-lt (negsuc n) = omega arith

-- The cast to `u64` loses nothing of an `i64`.
pub as_u64_inj : (a b : ℤ) → IsI64 a → IsI64 b → as_u64 a ≡ as_u64 b → a ≡ b
unfolding as_u64
as_u64_inj (pos a) (pos b) ha hb e = ap pos (omega arith)
as_u64_inj (negsuc a) (negsuc b) ha hb e = ap negsuc (omega arith)
as_u64_inj (pos a) (negsuc b) ha hb e = absurd (omega arith)
as_u64_inj (negsuc a) (pos b) ha hb e = absurd (omega arith)

-- The cast to `i32` keeps every number that fits.
pub as_i32_fits : (z : ℤ) → IsI32 z → as_i32 z ≡ z
unfolding as_i32
as_i32_fits (pos n) h = ground arith
as_i32_fits (negsuc n) h = ground arith
