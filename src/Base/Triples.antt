-- ===== src/Base/Triples.antt =====
-- Triples on actions: what holds before, after a success and after an error. Nothing is said where
-- the action panics, which ends the program.
use kllm.Base.Results.{Result, ok, err, panic}
use kllm.Base.Actions.{Act, ◌>>=◌}

module _ {ℓ κ} {S : Type ℓ} {A : Type κ} where
  -- Where an outcome ends.
  abbrev pub Ends : (Q : A → S → Type 0) (E : S → Type 0) → S × Result A → Type 0
  Ends Q E (s, ok a) = Q a s
  Ends Q E (s, err e) = E s
  Ends Q E (s, panic) = Unit

  abbrev pub Triple : (P : S → Type 0) → Act S A → (Q : A → S → Type 0) (E : S → Type 0) → Type ℓ
  Triple P m Q E = (s : S) → P s → Ends Q E (m s)

-- The rule for a chain.
pub bind_triple {ℓ κ λ'} :
    {S : Type ℓ} {A : Type κ} {B : Type λ'} (P : S → Type 0) (Q : A → S → Type 0)
    (R : B → S → Type 0) (E : S → Type 0) (m : Act S A) (f : A → Act S B)
    → Triple P m Q E
    → ((a : A) → Triple (Q a) (f a) R E)
    → Triple P (m >>= f) R E
bind_triple {S = S} {A = A} P Q R E m f h k s p = go (m s) (h s p)
  where
    go :
        (r : S × Result A)
        → Ends Q E r
        → Ends R E (elim r.1 [ ok a ↦ f a r.0 | err e ↦ (r.0, err e) | panic ↦ (r.0, panic) ])
    go (s', ok a) q = k a s' q
    go (s', err e) q = q
    go (s', panic) q = tt
