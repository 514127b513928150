-- ===== src/Upload/Guards.antt =====
-- `uploadWeights` and the guards of `LoadTensorW4`.
use Prim.Native.String.{String, ◌++◌}
use kllm.Base.{
  ℕ, ◌*◌, ◌/◌, ◌%◌, ◌^◌, ◌<◌, ◌≡◌, refl, subst, ◌∙◌, arith, List, length, not, Option, some,
  if_cases, option_cases, OnOk, OnOk-equation, ℤ, pos, is_zero, equals, ok,
}
use kllm.Base.Actions.{Act}
use kllm.Handle.{Impl, nibble_bytes, scale_bytes, load_w4}
use kllm.Loader.{Tensor, dtype_size, num_bytes}
use kllm.Loader.Products.{IsMatrix, placed-IsMatrix}
use kllm.Loader.Shards.{Model, find_in_model, read_in_model}
use kllm.Loader.Shards.Names.{read_in_model_size}
use kllm.Upload.{w4_dims, read_bytes}
use kllm.Upload.Sizes.{two_dims_lem, nibbles, scales, some_group, product_positive}
use kllm.Upload.Pairs.{IsPaired, IsSized, IsAccepted, w4_dims-IsPaired, paired-IsSized, fits}

module _ {S V F C : Type 0} (im : Impl S V F C) (read : String → ℕ → ℕ → Option (List ℕ)) where
  -- `LoadTensorW4` with sizes that fit.
  load_w4_passes :
      (name : String) (q sc : List ℕ) (out half groups : ℕ)
      → 0 < out
      → 0 < half
      → 0 < groups
      → (half * 2) % groups ≡ 0
      → out * half < 2 ^ 60
      → length q ≡ out * half
      → length sc ≡ out * groups * 4
      → load_w4 im name q sc (pos out) (pos (half * 2)) (pos (half * 2 / groups))
        ≡ im.load_tensor_w4 name q sc (pos out) (pos (half * 2)) (pos (half * 2 / groups))
  unfolding load_w4
  load_w4_passes name q sc out half groups some_out some_half some_groups divides small q_size
        sc_size =
      let nb = nibbles out half groups some_out some_half some_groups divides small in
      let sb = scales out half groups some_out some_half some_groups divides small in
      let sg = some_group out half groups some_out some_half some_groups divides small in
      let P = λ (call : Act S (Unit {0})).
        call ≡ im.load_tensor_w4 name q sc (pos out) (pos (half * 2)) (pos (half * 2 / groups)) in
      if_cases P (not (equals (pos (length q)) (nibble_bytes (pos out) (pos (half * 2))))) _ _
        (λ e. cc (e, fits (length q) (out * half) _ nb q_size))
        (λ _.
          if_cases P (is_zero (pos (half * 2 / groups))) _ _ (λ e. absurd (ground arith))
            (λ _.
              if_cases P
                (not (
                  equals (pos (length sc))
                    (scale_bytes (pos out) (pos (half * 2)) (pos (half * 2 / groups)))))
                _ _ (λ e. cc (e, fits (length sc) (out * groups * 4) _ sb sc_size)) (λ _. refl)))

  bytes_read :
      (m : Model) (name : String) (t : Tensor) (bytes : List ℕ)
      → ((path : String) (offset n : ℕ) (xs : List ℕ)
          → read path offset n ≡ some xs
          → length xs ≡ n)
      → find_in_model m name ≡ some t
      → read_bytes im read m name ≡ ok bytes
      → length bytes ≡ num_bytes t
  unfolding read_bytes
  bytes_read m name t bytes full found e =
      subst (OnOk (λ (xs : List ℕ). length xs ≡ num_bytes t)) e (
        OnOk-equation (λ (xs : List ℕ). length xs ≡ num_bytes t) (read_in_model m name) _
          (λ r asked.
            option_cases (OnOk (λ (xs : List ℕ). length xs ≡ num_bytes t)) (read r.0 r.1 r.2) _ _
              (λ _. tt)
              (λ xs got.
                let size : r.2 ≡ num_bytes t =
                  subst (OnOk (λ (r : String × ℕ × ℕ). r.2 ≡ num_bytes t)) asked
                    (read_in_model_size m name t found) in
                full r.0 r.1 r.2 xs got ∙ size)))

  sized_passes :
      (name : String) (q sc : List ℕ) (out_dim in_dim group : ℤ)
      → IsSized q sc out_dim in_dim group
      → (load_w4 im name q sc out_dim in_dim group
          ≡ im.load_tensor_w4 name q sc out_dim in_dim group)
        × (0 < length sc)
  sized_passes name q sc out_dim in_dim group z = (
    rw (z.out_lem, z.in_lem, z.group_lem)
        (load_w4_passes name q sc z.out z.half z.groups z.some_out z.some_half z.some_groups
          z.divides z.small z.q_size z.sc_size),
    omega (arith, z.sc_size, product_positive z.out z.groups z.some_out z.some_groups),
  )

  -- The weights of a checkpoint whose tensors `parse` accepted, and whose reads are complete, always
  -- pass the guards of `LoadTensorW4` if there is at least one byte and fewer than 2 ^ 60 of them: the
  -- sizes that `uploadWeights` computes are those that the guards compute, without overflow or a
  -- division by 0, so the call reaches the library; there are scales too.
  pub uploads_pass :
      (m : Model) (t : Tensor) (base name : String) (q sc : List ℕ) (out_dim in_dim group : ℤ)
      → IsAccepted m t.name
      → IsAccepted m (base ++ ".scales")
      → ((path : String) (offset n : ℕ) (xs : List ℕ)
          → read path offset n ≡ some xs
          → length xs ≡ n)
      → find_in_model m t.name ≡ some t
      → w4_dims m t base ≡ ok (out_dim, in_dim, group)
      → read_bytes im read m t.name ≡ ok q
      → read_bytes im read m (base ++ ".scales") ≡ ok sc
      → 0 < length q
      → length q < 2 ^ 60
      → (load_w4 im name q sc out_dim in_dim group
          ≡ im.load_tensor_w4 name q sc out_dim in_dim group)
        × (0 < length sc)
  unfolding dtype_size
  uploads_pass m t base name q sc out_dim in_dim group t_accepted s_accepted full found dims q_read
        sc_read some_q small_q =
      let p : IsPaired m t base (out_dim, in_dim, group) =
        subst (OnOk (IsPaired m t base)) dims (w4_dims-IsPaired m t base) in
      let (t_start, t_end, t_placed) = t_accepted t found in
      let (s_start, s_end, s_placed) = s_accepted p.st p.found in
      let (u8, t_shape) = two_dims_lem "U8" t out_dim p.half p.packed in
      let (f32, s_shape) = two_dims_lem "F32" p.st out_dim p.groups p.scaled in
      let a : IsMatrix out_dim p.half 1 t =
        placed-IsMatrix t_start t_end t out_dim p.half 1 t_placed (rw u8 refl) t_shape in
      let b : IsMatrix out_dim p.groups 4 p.st =
        placed-IsMatrix s_start s_end p.st out_dim p.groups 4 s_placed (rw f32 refl) s_shape in
      sized_passes name q sc out_dim in_dim group (
        paired-IsSized m t base q sc out_dim in_dim group p a b
          (bytes_read m t.name t q full found q_read)
          (bytes_read m (base ++ ".scales") p.st sc full p.found sc_read) some_q small_q)
