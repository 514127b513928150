-- ===== src/Loader/Products.antt =====
-- The number of elements of a matrix that `parse` accepts.
use Prim.Native.String.{String}
use native.Mathlib.Nat.{le-div_iff_mul-le}
use kllm.Base.{
  OnOk, ℕ, zero, suc, ◌-◌, ◌*◌, ◌/◌, ◌%◌, ◌^◌, ◌≤◌, ◌<◌, ◌≡◌, refl, sym, subst, [], ◌∷◌, false,
  ◌&&◌, if_cases, ltb, int_limit, int_mod, ℤ, pos, negsuc, ok, arith, some,
}
use kllm.Loader.{Tensor, count_elements, num_bytes, dtype_size}
use kllm.Loader.Bounds.{IsPlaced}

-- The factors of a product, which does not wrap round.
pub record IsProduct (rows columns : ℤ) (n : ℕ) : Type 0 where
  pub height : ℕ
  pub width : ℕ
  pub rows_lem : rows ≡ pos height
  pub columns_lem : columns ≡ pos width
  pub product : n ≡ height * width
  pub small : height * width < 2 ^ 63

fits : (a b : ℕ) → (ltb 0 b && ltb ((int_limit - 1) / b) a) ≡ false → a * b < 2 ^ 63
fits a zero e = omega arith
fits a (suc b) e =
    let bound : a ≤ (int_limit - 1) / suc b = ground arith in
    let k = (le-div_iff_mul-le {k = suc b} {x = a} {y = int_limit - 1} (omega arith)).0 bound in
    omega arith

count_elements-IsProduct :
    (name : String) (rows columns : ℤ)
    → OnOk (IsProduct rows columns) (count_elements name 1 (rows ∷ columns ∷ []))
unfolding count_elements
count_elements-IsProduct name (negsuc _) (pos b) = tt
count_elements-IsProduct name (negsuc _) (negsuc _) = tt
count_elements-IsProduct name (pos a) (negsuc _) =
    if_cases (OnOk (IsProduct (pos a) (negsuc _))) (ltb 0 a && ltb ((int_limit - 1) / a) 1) _ _
      (λ _. tt) (λ _. tt)
count_elements-IsProduct name (pos a) (pos b) =
    if_cases (OnOk (IsProduct (pos a) (pos b))) (ltb 0 a && ltb ((int_limit - 1) / a) 1) _ _
      (λ _. tt)
      (λ _.
        if_cases (OnOk (IsProduct (pos a) (pos b))) (ltb 0 b && ltb ((int_limit - 1) / b) (1 * a)) _
          _ (λ _. tt)
          (λ e. record {
            height = a;
            width = b;
            rows_lem = refl;
            columns_lem = refl;
            product = grind arith;
            small =
                fits a b
                  (subst (λ n. (ltb 0 b && ltb ((int_limit - 1) / b) n) ≡ false) (omega arith) e);
          }))

-- A matrix of elements of `size` bytes in an accepted checkpoint.
pub record IsMatrix (rows columns : ℤ) (size : ℕ) (t : Tensor) : Type 0 where
  pub height : ℕ
  pub width : ℕ
  pub rows_lem : rows ≡ pos height
  pub columns_lem : columns ≡ pos width
  pub small : height * width < 2 ^ 63
  pub bytes : num_bytes t ≡ (height * width * size) % int_mod

pub placed-IsMatrix :
    (data_start file_size : ℕ) (t : Tensor) (rows columns : ℤ) (size : ℕ)
    → IsPlaced data_start file_size t
    → dtype_size t.dtype ≡ some size
    → t.shape ≡ rows ∷ columns ∷ []
    → IsMatrix rows columns size t
placed-IsMatrix data_start file_size t rows columns size h known shape =
    let counted : count_elements t.name 1 (rows ∷ columns ∷ []) ≡ ok h.numel =
      subst (λ s. count_elements t.name 1 s ≡ ok h.numel) shape h.counted in
    let p : IsProduct rows columns h.numel =
      subst (OnOk (IsProduct rows columns)) counted
        (count_elements-IsProduct t.name rows columns) in
    let same_size : h.size ≡ size = cc (h.known, known) in
    record {
      height = p.height;
      width = p.width;
      rows_lem = p.rows_lem;
      columns_lem = p.columns_lem;
      small = p.small;
      bytes = rw (sym p.product, sym same_size) h.bytes;
    }
