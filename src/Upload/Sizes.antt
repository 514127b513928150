-- ===== src/Upload/Sizes.antt =====
-- Sizes of quantized weights in `int64` arithmetic, and the dimensions that `uploadWeights` reads off.
use Prim.Native.String.{String}
use text.Mathlib.Text.{◌==◌}
use text.Mathlib.TextEquality.{eq_iff}
use native.Mathlib.Nat.{mul-le-mul_left, div-eq_of_eq-mul_left, div-add-mod, mod-eq_of_lt}
use kllm.Base.{
  ℕ, zero, suc, ◌*◌, ◌/◌, ◌%◌, ◌^◌, ◌<◌, ◌≤◌, ◌≡◌, refl, sym, ap, arith, List, [], ◌∷◌, Option,
  some, ltb, if_cases, ℤ, pos, mul_int,
}
use kllm.Handle.{nibble_bytes, scale_bytes}
use kllm.Loader.{Tensor}
use kllm.Upload.{pair_of, two_dims}

pair_of_lem :
    (shape : List ℤ) (rows columns : ℤ)
    → pair_of shape ≡ some (rows, columns)
    → shape ≡ rows ∷ columns ∷ []
unfolding pair_of
pair_of_lem [] rows columns e = cc
pair_of_lem (_ ∷ []) rows columns e = cc
pair_of_lem (_ ∷ _ ∷ []) rows columns e = cc
pair_of_lem (_ ∷ _ ∷ _ ∷ _) rows columns e = cc

pub two_dims_lem :
    (dtype : String) (t : Tensor) (rows columns : ℤ)
    → two_dims dtype t ≡ some (rows, columns)
    → (t.dtype ≡ dtype) × (t.shape ≡ rows ∷ columns ∷ [])
unfolding two_dims
two_dims_lem dtype t rows columns =
    if_cases
      (λ (o : Option (ℤ × ℤ)).
        o ≡ some (rows, columns) → (t.dtype ≡ dtype) × (t.shape ≡ rows ∷ columns ∷ []))
      (t.dtype == dtype) _ _
      (λ same e. ((eq_iff t.dtype dtype).0 same, pair_of_lem t.shape rows columns e)) (λ _ e. cc e)

pub factor_small : (m n k : ℕ) → 0 < n → m * n < k → m < k
factor_small m zero k some_n h = absurd (omega arith)
factor_small m (suc n) k some_n h = omega arith

-- Where a product stays below 2 ^ 63, `int64` computes it.
pub mul_int_small :
    (m n : ℕ) → 0 < m → 0 < n → m * n < 2 ^ 63 → mul_int (pos m) (pos n) ≡ pos (m * n)
mul_int_small m n some_m some_n h =
    let m_small : m < 2 ^ 64 = omega (arith, factor_small m n (2 ^ 63) some_n h) in
    let n_small : n < 2 ^ 64 = omega (arith, factor_small n m (2 ^ 63) some_m (omega arith)) in
    let prod : (m % 2 ^ 64 * (n % 2 ^ 64)) % 2 ^ 64 ≡ m * n =
      rw (mod-eq_of_lt m_small, mod-eq_of_lt n_small) (mod-eq_of_lt (omega arith)) in
    rw prod (
      if_cases (λ z. z ≡ pos (m * n)) (ltb (m * n) (2 ^ 63)) _ _ (λ _. refl)
        (λ e. absurd (ground arith)))

pub product_positive : (m n : ℕ) → 0 < m → 0 < n → 0 < m * n
product_positive m n h k = grind arith

module _ (out half groups : ℕ) (some_out : 0 < out) (some_half : 0 < half)
    (some_groups : 0 < groups) (divides : (half * 2) % groups ≡ 0)
    (small : out * half < 2 ^ 60) where
  whole : groups * (half * 2 / groups) ≡ half * 2
  whole = omega (arith, div-add-mod (half * 2) groups)

  pub some_group : 0 < half * 2 / groups
  some_group = go (half * 2 / groups) whole
    where
      go : (k : ℕ) → groups * k ≡ half * 2 → 0 < k
      go zero e = absurd (omega arith)
      go (suc k) e = omega arith

  regroup : half * 2 / (half * 2 / groups) ≡ groups
  regroup = div-eq_of_eq-mul_left some_group (sym whole)

  pub groups_bound : out * groups ≤ out * half * 2
  groups_bound =
      let bound : groups ≤ half * 2 = go (half * 2 / groups) whole some_group in
      omega (arith, mul-le-mul_left out bound)
    where
      go : (k : ℕ) → groups * k ≡ half * 2 → 0 < k → groups ≤ half * 2
      go zero e h = absurd (omega arith)
      go (suc k) e h = omega arith

  pub nibbles : nibble_bytes (pos out) (pos (half * 2)) ≡ pos (out * half)
  nibbles =
      rw (mul_int_small out (half * 2) some_out (omega arith) (omega arith)) (ap pos (omega arith))

  pub scales :
      scale_bytes (pos out) (pos (half * 2)) (pos (half * 2 / groups)) ≡ pos (out * groups * 4)
  scales =
      rw (regroup, mul_int_small out groups some_out some_groups (omega (arith, groups_bound)))
        (mul_int_small (out * groups) 4 (product_positive out groups some_out some_groups)
          (omega arith) (omega (arith, groups_bound)))
