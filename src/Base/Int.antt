-- ===== src/Base/Int.antt =====
-- Signed integers over the native numbers, under the library's names.
use Prim.Native.Nat.{ℕ, zero, suc, ◌+◌, ◌-◌, ◌*◌, ◌%◌, ◌/◌, ◌^◌}
use mathlib.Core.Bool.{Bool, false}
use kllm.Base.Tests.{ltb, ◌==◌, if◌then◌else◌}

-- `negsuc n` is -(n + 1).
pub data ℤ : Type 0 where
  pos : ℕ → ℤ
  negsuc : ℕ → ℤ

-- `n > 0`
abbrev pub is_pos : ℤ → Bool
is_pos (pos n) = ltb 0 n
is_pos (negsuc _) = false

abbrev pub equals : ℤ → ℤ → Bool
equals (pos m) (pos n) = m == n
equals (pos _) (negsuc _) = false
equals (negsuc _) (pos _) = false
equals (negsuc m) (negsuc n) = m == n

-- `n == 0`
abbrev pub is_zero : ℤ → Bool
is_zero n = equals n (pos 0)

abbrev pub neg : ℕ → ℤ
neg zero = pos 0
neg (suc n) = negsuc n

-- `m / n` on `int64`, which truncates towards 0; Go panics where `n` is 0.
abbrev pub quot : ℤ → ℤ → ℤ
quot (pos m) (pos n) = pos (m / n)
quot (pos m) (negsuc n) = neg (m / suc n)
quot (negsuc m) (pos n) = neg (suc m / n)
quot (negsuc m) (negsuc n) = pos (suc m / suc n)

-- `n + 1` on `int64`, which wraps round at 2 ^ 63.
abbrev pub plus_one : ℤ → ℤ
plus_one (pos n) = if ltb (n + 1) (2 ^ 63) then pos (n + 1) else negsuc n
plus_one (negsuc zero) = pos 0
plus_one (negsuc (suc n)) = negsuc n

-- `m % n` on `int64`, with the sign of `m`; Go panics where `n` is 0.
abbrev pub rem : ℤ → ℤ → ℤ
rem (pos m) (pos n) = pos (m % n)
rem (pos m) (negsuc n) = pos (m % suc n)
rem (negsuc m) (pos n) = neg (suc m % n)
rem (negsuc m) (negsuc n) = neg (suc m % suc n)

-- The bit pattern of an `int64`, and the number that a pattern stands for.
abbrev pub bits : ℤ → ℕ
bits (pos n) = n % 2 ^ 64
bits (negsuc n) = 2 ^ 64 - 1 - n % 2 ^ 64

abbrev pub signed : ℕ → ℤ
signed w = if ltb w (2 ^ 63) then pos w else negsuc (2 ^ 64 - 1 - w)

-- `m * n` on `int64`
abbrev pub mul_int : ℤ → ℤ → ℤ
mul_int m n = signed ((bits m * bits n) % 2 ^ 64)
