-- ===== src/Engine/Sampling.antt =====
-- `Argmax` against its description: the index of the first of the greatest values.
use kllm.Base.{
  ℕ, ◌+◌, ◌≡◌, refl, ap, ◌∙◌, subst, List, [], ◌∷◌, ◌++◌, Bool, true, false, some, All, All-append,
  All-map, length, length-append, Bool-cases, inl, inr, to_int32, arith,
}
use mathlib.Core.List.{append_assoc, append-nil}
use kllm.Engine.{scan, argmax}

-- The order laws of `>` on `float32`s none of which is a NaN.
pub record IsOrder {V : Type 0} (gt : V → V → Bool) : Type 0 where
  pub asym : (x y : V) → gt x y ≡ true → gt y x ≡ false
  pub above : (x y z : V) → gt x y ≡ true → gt z y ≡ false → gt x z ≡ true

-- `k` is the index of a value that is greater than all before it, and that none after it exceeds.
pub record IsFirstMax {V : Type 0} (gt : V → V → Bool) (l : List V) (k : ℕ) : Type 0 where
  pub front : List V
  pub value : V
  pub back : List V
  pub split : l ≡ front ++ value ∷ back
  pub index : k ≡ length front
  pub below : All (λ v. gt value v ≡ true) front
  pub top : All (λ v. gt v value ≡ false) back

module _ {V : Type 0} (gt : V → V → Bool) (order : IsOrder gt) where
  -- The same at equal lists and indices.
  at :
      {l l' : List V} {b b' i i' : ℕ}
      → l ≡ l'
      → b ≡ b'
      → i ≡ i'
      → (x : V) (vs : List V) → IsFirstMax gt l (scan gt b i x vs)
      → IsFirstMax gt l' (scan gt b' i' x vs)
  at {l} {l'} {b} {b'} {i} {i'} el eb ei x vs k =
      subst (λ m. IsFirstMax gt m (scan gt b' i' x vs)) el
        (subst (λ c. IsFirstMax gt l (scan gt c i' x vs)) eb
          (subst (λ c. IsFirstMax gt l (scan gt b c x vs)) ei k))

  scan-IsFirstMax :
      (front back vs : List V) (x : V)
      → All (λ v. gt x v ≡ true) front
      → All (λ v. gt v x ≡ false) back
      → IsFirstMax gt
          (front ++ x ∷ (back ++ vs))
          (scan gt (length front) (length front + length back) x vs)
  unfolding scan
  scan-IsFirstMax front back [] x below top = record {
    front = front;
    value = x;
    back = back;
    split = rw append-nil refl;
    index = refl;
    below = below;
    top = top;
  }
  scan-IsFirstMax front back (v ∷ vs) x below top =
      let seen = front ++ x ∷ back in
      let n : length seen ≡ length front + length back + 1 = grind (arith, length-append) in
      elim (Bool-cases (gt v x)) [
        | inl better ↦
            let exceeds : All (λ y. gt v y ≡ true) seen =
              All-append (λ y. gt v y ≡ true) front (x ∷ back)
                (All-map (λ y q. order.above v x y better (order.asym x y q)) front below)
                (better, All-map (λ y q. order.above v x y better q) back top) in
            rw better (
              at (append_assoc front (x ∷ back) (v ∷ vs)) n (omega arith) v vs
                (scan-IsFirstMax seen [] vs v exceeds tt))
        | inr not_better ↦ rw not_better (
            at (ap (λ l. front ++ x ∷ l) (append_assoc back (v ∷ []) vs)) refl
              (ap (λ m. length front + m) (length-append back (v ∷ [])) ∙ omega arith) x vs
              (scan-IsFirstMax front (back ++ v ∷ []) vs x below
                (All-append (λ y. gt y x ≡ false) back (v ∷ []) top (not_better, tt))))
      ]

-- Where `>` orders the logits as `IsOrder` says, which leaves out NaN, `Argmax` of logits that are not
-- empty is the index of the first greatest one, as an `int32`.
pub argmax-IsFirstMax :
    {V : Type 0} (gt : V → V → Bool)
    → IsOrder gt
    → (v : V) (vs : List V)
    → (k : ℕ) × (argmax gt (v ∷ vs) ≡ some (to_int32 k)) × IsFirstMax gt (v ∷ vs) k
unfolding argmax
argmax-IsFirstMax gt order v vs =
    (scan gt 0 0 v vs, refl, scan-IsFirstMax gt order [] [] vs v tt tt)
