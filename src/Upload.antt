-- ===== src/Upload.antt =====
-- engine/engine.go: `uploadWeights`. The reads of the checkpoint's files and the sort are parameters:
-- `read path offset n` is what `ReadAt` puts into a buffer of `n` bytes, or `none` for an error.
pub mod Sizes
pub mod Pairs
pub mod Guards
pub mod Effects
mod Examples
use Prim.Native.String.{String, ◌++◌}
use text.Mathlib.Text.{◌==◌}
use kllm.Base.{
  ℕ, List, [], ◌∷◌, Bool, not, ◌||◌, Option, none, some, if◌then◌else◌, ℤ, pos, is_pos, is_zero,
  equals, quot, rem, mul_int, Result, ok, err, panic, ◌>>=◌, short_read, in_file, not_two_dims,
  no_scales, wrong_scales, unsupported_tensor, uploading,
}
use kllm.Base.Actions.{Act, pure, raise}
use kllm.Base.Text.{strip_suffix, ends_with}
use kllm.Handle.{Impl, load_f32, load_w4}
use kllm.Loader.{Tensor}
use kllm.Loader.Shards.{Model, find_in_model, model_tensors, read_in_model}

-- The two numbers of a shape of length 2.
unfoldable pub pair_of : List ℤ → Option (ℤ × ℤ)
pair_of [] = none
pair_of (_ ∷ []) = none
pair_of (rows ∷ columns ∷ []) = some (rows, columns)
pair_of (_ ∷ _ ∷ _ ∷ _) = none

-- The two dimensions of a tensor of the given type.
unfoldable pub two_dims : String → Tensor → Option (ℤ × ℤ)
unfolding pair_of
two_dims dtype t = if t.dtype == dtype then pair_of t.shape else none

-- `outDim`, `inDim` and `inDim/groups` of a `.qweight` tensor that agrees with its scales.
unfoldable pub w4_dims : Model → Tensor → String → Result (ℤ × ℤ × ℤ)
unfolding two_dims
w4_dims m t base = elim (two_dims "U8" t) [
  | none ↦ err (not_two_dims t.name)
  | some (out_dim, half) ↦ elim (find_in_model m (base ++ ".scales")) [
    | none ↦ err (no_scales t.name)
    | some st ↦ elim (two_dims "F32" st) [
      | none ↦ err (no_scales t.name)
      | some (rows, groups) ↦
          let in_dim = mul_int half (pos 2) in
          if not (equals rows out_dim) || not (is_pos groups) || not (is_zero (rem in_dim groups))
          then err (wrong_scales t.name)
          else ok (out_dim, in_dim, quot in_dim groups)
    ]
  ]
]

module _ {S V F C : Type 0} (im : Impl S V F C) (read : String → ℕ → ℕ → Option (List ℕ)) where
  -- `Model.ReadTensor`, with the bytes.
  unfoldable pub read_bytes : Model → String → Result (List ℕ)
  read_bytes m name = read_in_model m name >>= λ (path, offset, n). elim (read path offset n) [
    | none ↦ err (in_file name short_read)
    | some bytes ↦ ok bytes
  ]

  -- The error of an upload, wrapped.
  upload : String → Act S (Unit {0}) → Act S (Unit {0})
  upload name call s =
      let (s', r) = call s in
      elim r [ ok _ ↦ (s', ok tt) | err e ↦ (s', err (uploading name e)) | panic ↦ (s', panic) ]

  -- A `.qweight` tensor with its scales.
  upload_w4 : Model → Tensor → String → Act S (Unit {0})
  unfolding upload
  upload_w4 m t base s = elim (w4_dims m t base) [
    | err e ↦ (s, err e)
    | panic ↦ (s, panic)
    | ok (out_dim, in_dim, group) ↦ elim (read_bytes m t.name) [
      | err e ↦ (s, err e)
      | panic ↦ (s, panic)
      | ok q ↦ elim (read_bytes m (base ++ ".scales")) [
        | err e ↦ (s, err e)
        | panic ↦ (s, panic)
        | ok scales ↦ upload t.name (load_w4 im (base ++ ".weight") q scales out_dim in_dim group) s
      ]
    ]
  ]

  upload_f32 : Model → Tensor → Act S (Unit {0})
  unfolding upload
  upload_f32 m t s = elim (read_bytes m t.name) [
    | err e ↦ (s, err e)
    | panic ↦ (s, panic)
    | ok raw ↦ upload t.name (load_f32 im t.name raw) s
  ]

  -- One round of the loop.
  upload_one : Model → Tensor → Act S (Unit {0})
  unfolding upload_w4 upload_f32
  upload_one m t =
      if ends_with t.name ".scales" then pure tt else elim (strip_suffix t.name ".qweight") [
        | some base ↦ upload_w4 m t base
        | none ↦ if t.dtype == "F32" then upload_f32 m t else raise (unsupported_tensor t.name)
      ]

  upload_all : Model → List Tensor → Act S (Unit {0})
  unfolding upload_one
  upload_all m [] s = (s, ok tt)
  upload_all m (t ∷ ts) s =
      let (s', r) = upload_one m t s in
      elim r [ ok _ ↦ upload_all m ts s' | err e ↦ (s', err e) | panic ↦ (s', panic) ]

  -- `uploadWeights`
  unfoldable pub upload_weights : (List Tensor → List Tensor) → Model → Act S (Unit {0})
  unfolding upload_all
  upload_weights sort m = upload_all m (model_tensors sort m)
