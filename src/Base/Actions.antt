-- ===== src/Base/Actions.antt =====
-- Code that changes a state and may fail: what a method on a pointer does and returns. The state
-- stays as it was left where an error ends a chain.
use mathlib.Core.Bool.{Bool, true, false}
use mathlib.Core.Path.{◌≡◌}
use kllm.Base.Results.{Result, ok, err, panic, Error, result_cases}

abbrev pub Act {ℓ κ} : Type ℓ → Type κ → Type (ℓ ⊔ κ)
Act S A = S → S × Result A

abbrev pub pure {ℓ κ} : {S : Type ℓ} {A : Type κ} → A → Act S A
pure a s = (s, ok a)

abbrev pub raise {ℓ κ} : {S : Type ℓ} {A : Type κ} → Error → Act S A
raise e s = (s, err e)

abbrev pub fault {ℓ κ} : {S : Type ℓ} {A : Type κ} → Act S A
fault s = (s, panic)

infixl 5 ◌>>=◌ ◌>>◌
abbrev pub ◌>>=◌ {ℓ κ λ'} :
    {S : Type ℓ} {A : Type κ} {B : Type λ'} → Act S A → (A → Act S B) → Act S B
◌>>=◌ m f s =
    let (s', r) = m s in elim r [ ok a ↦ f a s' | err e ↦ (s', err e) | panic ↦ (s', panic) ]

abbrev pub ◌>>◌ {ℓ κ} : {S : Type ℓ} {B : Type κ} → Act S (Unit {0}) → Act S B → Act S B
m >> k = m >>= λ _. k

-- `return` of an error unless the test holds.
abbrev pub unless {ℓ} : {S : Type ℓ} → Bool → Error → Act S (Unit {0})
unless true e = pure tt
unless false e = raise e

-- The rule for a chain: what every end of the first part leads to.
pub bind_cases {ℓ κ λ' μ} :
    {S : Type ℓ} {A : Type κ} {B : Type λ'} (P : S × Result B → Type μ) (m : Act S A)
    (f : A → Act S B) (s : S)
    → ((a : A) → (m s).1 ≡ ok a → P (f a (m s).0))
    → ((e : Error) → (m s).1 ≡ err e → P ((m s).0, err e))
    → ((m s).1 ≡ panic → P ((m s).0, panic))
    → P ((m >>= f) s)
bind_cases P m f s on_ok on_err on_panic =
    result_cases P (m s).1 (λ a. f a (m s).0) (λ e. ((m s).0, err e)) ((m s).0, panic) on_ok on_err
      on_panic
