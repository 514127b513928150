-- ===== src/Oracle/Tolerance.antt =====
-- What the comparison with a tolerance shows.
use kllm.Base.{
  ◌≡◌, ◌↔◌, arith, List, [], ◌∷◌, Bool, true, false, not, length, ◌==◌, if_cases, if◌then◌else◌,
}
use kllm.Oracle.{largest, max_abs_diff}

-- `>` on numbers; no NaN is among them.
pub record IsStrict {F : Type 0} (gt : F → F → Bool) : Type 0 where
  pub asymmetric : (x y : F) → gt x y ≡ true → gt y x ≡ false
  pub transitive : (x y z : F) → gt x y ≡ false → gt y z ≡ false → gt x z ≡ false

module _ {V F : Type 0} (zero_f inf : F) (gap : V → V → F) (gt : F → F → Bool) where
  -- Element by element, no difference is greater than the tolerance.
  abbrev pub AllWithin : F → List V → List V → Type 0
  AllWithin tol [] ys = Unit
  AllWithin tol (_ ∷ _) [] = Unit
  AllWithin tol (x ∷ xs) (y ∷ ys) = (gt (gap x y) tol ≡ false) × AllWithin tol xs ys

  module _ (laws : IsStrict gt) where
    greater_iff :
        (d m tol : F)
        → (gt (if gt d m then d else m) tol ≡ false) ↔ ((gt m tol ≡ false) × (gt d tol ≡ false))
    greater_iff d m tol =
        if_cases (λ k. (gt k tol ≡ false) ↔ ((gt m tol ≡ false) × (gt d tol ≡ false))) (gt d m) d m
          (λ over. (λ e. (laws.transitive m d tol (laws.asymmetric d m over) e, e), λ h. h.1))
          (λ under. (λ e. (e, laws.transitive d m tol under e), λ h. h.0))

    largest_iff :
        (m tol : F) (xs ys : List V)
        → (gt (largest zero_f inf gap gt m xs ys) tol ≡ false)
          ↔ ((gt m tol ≡ false) × AllWithin tol xs ys)
    unfolding largest
    largest_iff m tol [] ys = (λ e. (e, tt), λ h. h.0)
    largest_iff m tol (x ∷ xs) [] = (λ e. (e, tt), λ h. h.0)
    largest_iff m tol (x ∷ xs) (y ∷ ys) =
        let d = gap x y in
        let rest = largest_iff (if gt d m then d else m) tol xs ys in
        let first = greater_iff d m tol in
        (
          λ e. (let (a, b) = rest.0 e in let (c, f) = first.0 a in (c, (f, b))),
          λ h. rest.1 (first.1 (h.0, h.1.0), h.1.1),
        )

    -- Over numbers that `>` orders, `MaxAbsDiff` is not above a tolerance that is not negative
    -- exactly when the two slices have one length and no two elements differ by more than it.
    pub max_abs_diff_iff :
        (tol : F) (xs ys : List V)
        → gt zero_f tol ≡ false
        → gt inf tol ≡ true
        → (gt (max_abs_diff zero_f inf gap gt xs ys) tol ≡ false)
          ↔ ((length xs ≡ length ys) × AllWithin tol xs ys)
    unfolding max_abs_diff
    max_abs_diff_iff tol xs ys not_negative finite =
        if_cases (λ k. (gt k tol ≡ false) ↔ ((length xs ≡ length ys) × AllWithin tol xs ys))
          (not (length xs == length ys)) inf (largest zero_f inf gap gt zero_f xs ys)
          (λ differ. (λ e. cc (e, finite), λ h. absurd (ground (arith, h.0))))
          (λ same.
            let k = largest_iff zero_f tol xs ys in
            (λ e. (ground arith, (k.0 e).1), λ h. k.1 (not_negative, h.1)))
