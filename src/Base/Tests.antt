-- ===== src/Base/Tests.antt =====
-- Boolean tests on the native numbers, the conditional, and Go's fixed-width integers.
use Prim.Native.Nat.{ℕ, ◌+◌, ◌%◌, ◌^◌, compare, Ordering}
use mathlib.Core.Path.{◌≡◌, refl}
use mathlib.Core.Logic.{◌⊎◌, inl, inr}
use mathlib.Core.Bool.{Bool, true, false}
use mathlib.Core.Option.{Option, none, some}

abbrev pub ltb : ℕ → ℕ → Bool
ltb a b = elim (compare a b) [ Ordering.lt ↦ true | _ ↦ false ]

abbrev pub leb : ℕ → ℕ → Bool
leb a b = elim (compare a b) [ Ordering.gt ↦ false | _ ↦ true ]

infix 50 ◌==◌
abbrev pub ◌==◌ : ℕ → ℕ → Bool
a == b = elim (compare a b) [ Ordering.eq ↦ true | _ ↦ false ]

infix 1 if◌then◌else◌
abbrev pub if◌then◌else◌ {ℓ} : {A : Type ℓ} → Bool → A → A → A
if true then x else y = x
if false then x else y = y

pub Bool-cases : (b : Bool) → (b ≡ true) ⊎ (b ≡ false)
Bool-cases true = inl refl
Bool-cases false = inr refl

pub Option-cases {ℓ} : {A : Type ℓ} (o : Option A) → (o ≡ none) ⊎ ((a : A) × (o ≡ some a))
Option-cases none = inl refl
Option-cases (some a) = inr (a, refl)

-- The number of values of an `int32`, which is kept as its bit pattern.
abbrev pub int32_mod : ℕ
int32_mod = 2 ^ 32

-- The number of values of an `int`, an `int64` or a `uint64`.
abbrev pub int_mod : ℕ
int_mod = 2 ^ 64

-- The largest `int` and one: a bit pattern from here on is a negative `int`.
abbrev pub int_limit : ℕ
int_limit = 2 ^ 63

-- `int32(n)`
abbrev pub to_int32 : ℕ → ℕ
to_int32 n = n % int32_mod

-- `a + b` on `int`
abbrev pub add_int : ℕ → ℕ → ℕ
add_int a b = (a + b) % int_mod
