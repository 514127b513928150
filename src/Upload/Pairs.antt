-- ===== src/Upload/Pairs.antt =====
-- A quantized weight and its scales: what the checks of `uploadWeights` and `parse` say of their
-- dimensions and sizes.
use Prim.Native.String.{String, ◌++◌}
use native.Mathlib.Nat.{mod-eq_of_lt}
use kllm.Base.{
  ℕ, zero, suc, ◌*◌, ◌/◌, ◌%◌, ◌^◌, ◌<◌, ◌≡◌, refl, ap, subst, ◌∙◌, arith, List, length, Bool, true,
  false, not, ◌||◌, some, if_cases, option_cases, OnOk, ℤ, pos, negsuc, is_pos, is_zero, equals,
  quot, rem, mul_int,
}
use kllm.Loader.{Tensor, num_bytes}
use kllm.Loader.Bounds.{IsPlaced}
use kllm.Loader.Products.{IsMatrix}
use kllm.Loader.Shards.{Model, find_in_model}
use kllm.Upload.{two_dims, w4_dims}
use kllm.Upload.Sizes.{some_group, mul_int_small, factor_small, groups_bound}

-- What the checks on a `.qweight` tensor and its scales let through.
pub record IsPaired (m : Model) (t : Tensor) (base : String) (dims : ℤ × ℤ × ℤ) : Type 0 where
  pub half : ℤ
  pub groups : ℤ
  pub st : Tensor
  pub packed : two_dims "U8" t ≡ some (dims.0, half)
  pub found : find_in_model m (base ++ ".scales") ≡ some st
  pub scaled : two_dims "F32" st ≡ some (dims.0, groups)
  pub some_group : is_pos groups ≡ true
  pub divides : is_zero (rem (mul_int half (pos 2)) groups) ≡ true
  pub in_dim : dims.1 ≡ mul_int half (pos 2)
  pub group : dims.2 ≡ quot (mul_int half (pos 2)) groups

equals-eq : (m n : ℤ) → equals m n ≡ true → m ≡ n
equals-eq (pos m) (pos n) e = ap pos (ground arith)
equals-eq (pos m) (negsuc n) e = cc
equals-eq (negsuc m) (pos n) e = cc
equals-eq (negsuc m) (negsuc n) e = ap negsuc (ground arith)

guards : (x y z : Bool) → (not x || not y || not z) ≡ false → (x ≡ true) × (y ≡ true) × (z ≡ true)
guards true true true e = (refl, refl, refl)
guards true true false e = cc
guards true false z e = cc
guards false y z e = cc

pub w4_dims-IsPaired :
    (m : Model) (t : Tensor) (base : String) → OnOk (IsPaired m t base) (w4_dims m t base)
unfolding w4_dims
w4_dims-IsPaired m t base =
    option_cases (OnOk (IsPaired m t base)) (two_dims "U8" t) _ _ (λ _. tt)
      (λ ds packed.
        option_cases (OnOk (IsPaired m t base)) (find_in_model m (base ++ ".scales")) _ _ (λ _. tt)
          (λ st found.
            option_cases (OnOk (IsPaired m t base)) (two_dims "F32" st) _ _ (λ _. tt)
              (λ ss scaled.
                let in_dim = mul_int ds.1 (pos 2) in
                if_cases (OnOk (IsPaired m t base))
                  (not (equals ss.0 ds.0) || not (is_pos ss.1) || not (is_zero (rem in_dim ss.1))) _
                  _ (λ _. tt)
                  (λ e.
                    let (same, some_group, divides) =
                      guards (equals ss.0 ds.0) (is_pos ss.1) (is_zero (rem in_dim ss.1)) e in
                    record {
                      half = ds.1;
                      groups = ss.1;
                      st = st;
                      packed = packed;
                      found = found;
                      scaled =
                          subst (λ r. two_dims "F32" st ≡ some (r, ss.1)) (equals-eq ss.0 ds.0 same)
                            scaled;
                      some_group = some_group;
                      divides = divides;
                      in_dim = refl;
                      group = refl;
                    }))))

pub fits : (m n : ℕ) (z : ℤ) → z ≡ pos n → m ≡ n → not (equals (pos m) z) ≡ false
fits m n z e same = rw (e, same) (ground arith)

-- What is found under the name is a tensor that `parse` accepted.
abbrev pub IsAccepted : Model → String → Type 0
IsAccepted m name =
    (u : Tensor) → find_in_model m name ≡ some u → (start size : ℕ) × IsPlaced start size u

-- What the two tensors' shapes and sizes come to.
pub record IsSized (q sc : List ℕ) (out_dim in_dim group : ℤ) : Type 0 where
  pub out : ℕ
  pub half : ℕ
  pub groups : ℕ
  pub out_lem : out_dim ≡ pos out
  pub in_lem : in_dim ≡ pos (half * 2)
  pub group_lem : group ≡ pos (half * 2 / groups)
  pub some_out : 0 < out
  pub some_half : 0 < half
  pub some_groups : 0 < groups
  pub divides : (half * 2) % groups ≡ 0
  pub small : out * half < 2 ^ 60
  pub q_size : length q ≡ out * half
  pub sc_size : length sc ≡ out * groups * 4

pub positive_left : (m n : ℕ) → 0 < m * n → 0 < m
positive_left zero n h = absurd (omega arith)
positive_left (suc m) n h = omega arith

pub positive_right : (m n : ℕ) → 0 < m * n → 0 < n
positive_right m zero h = absurd (omega arith)
positive_right m (suc n) h = omega arith

pub paired-IsSized :
    (m : Model) (t : Tensor) (base : String) (q sc : List ℕ) (out_dim in_dim group : ℤ)
    (p : IsPaired m t base (out_dim, in_dim, group))
    → IsMatrix out_dim p.half 1 t
    → IsMatrix out_dim p.groups 4 p.st
    → length q ≡ num_bytes t
    → length sc ≡ num_bytes p.st
    → 0 < length q
    → length q < 2 ^ 60
    → IsSized q sc out_dim in_dim group
paired-IsSized m t base q sc out_dim in_dim group p a b q_read sc_read some_q small_q =
    let q_size : length q ≡ a.height * a.width =
      q_read ∙ a.bytes ∙ mod-eq_of_lt (omega (arith, a.small)) ∙ omega arith in
    let some_out = positive_left a.height a.width (omega (arith, q_size)) in
    let some_half = positive_right a.height a.width (omega (arith, q_size)) in
    let small : a.height * a.width < 2 ^ 60 = omega (arith, q_size) in
    let width_small = factor_small a.width a.height (2 ^ 60) some_out (omega arith) in
    let doubled : mul_int p.half (pos 2) ≡ pos (a.width * 2) =
      rw a.columns_lem (mul_int_small a.width 2 some_half (omega arith) (omega arith)) in
    let some_groups : 0 < b.width =
      let e : is_pos (pos b.width) ≡ true =
        subst (λ z. is_pos z ≡ true) b.columns_lem p.some_group in
      ground arith in
    let divides : (a.width * 2) % b.width ≡ 0 =
      let e : is_zero (rem (mul_int p.half (pos 2)) (pos b.width)) ≡ true =
        subst (λ z. is_zero (rem (mul_int p.half (pos 2)) z) ≡ true) b.columns_lem p.divides in
      let e' : is_zero (rem (pos (a.width * 2)) (pos b.width)) ≡ true =
        subst (λ z. is_zero (rem z (pos b.width)) ≡ true) doubled e in
      ground arith in
    let same : b.height ≡ a.height = cc (a.rows_lem, b.rows_lem) in
    let bound =
      groups_bound a.height a.width b.width some_out some_half some_groups divides small in
    record {
      out = a.height;
      half = a.width;
      groups = b.width;
      out_lem = a.rows_lem;
      in_lem = p.in_dim ∙ doubled;
      group_lem = rw (p.group, doubled, b.columns_lem) refl;
      some_out = some_out;
      some_half = some_half;
      some_groups = some_groups;
      divides = divides;
      small = small;
      q_size = q_size;
      sc_size = sc_read ∙ b.bytes ∙ (rw same (mod-eq_of_lt (omega arith)));
    }
