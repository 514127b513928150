-- ===== src/Handle.antt =====
-- engine/backend/backend.go: the interface that a platform's binding of the C library provides, and
-- the methods of `Handle` over it; `ForwardBatch` stands in Backend.antt.
use Prim.Native.String.{String}
use kllm.Base.{
  ℕ, ◌%◌, List, Bool, not, ◌||◌, length, ◌==◌, if◌then◌else◌, Result, ok, err, panic, ℤ, pos,
  equals, is_zero, quot, mul_int, not_words, wrong_bytes,
}
use kllm.Base.Actions.{Act, pure, raise, fault, ◌>>◌}
use kllm.Backend.{SeqForward, Device}

-- `impl`. `V` stands for `float32`, `F` for `float64` and `C` for `ModelConfig`; `S` is what the
-- library keeps. `forward_batch` is given the length of the logits buffer and returns the buffer.
pub record Impl (S V F C : Type 0) : Type 0 where
  pub init : ℤ → Act S (Unit {0})
  pub device_info : Act S (List ℕ)
  pub smoke_vector_add : List V → List V → Act S (List V)
  pub model_create : C → Act S (Unit {0})
  pub load_tensor : String → List ℕ → Act S (Unit {0})
  pub load_tensor_w4 : String → List ℕ → List ℕ → ℤ → ℤ → ℤ → Act S (Unit {0})
  -- The milliseconds are returned beside the error.
  pub bench_matmul : ℤ → ℤ → ℤ → ℤ → ℤ → S → S × F × Result (Unit {0})
  pub set_layer_sliding : List ℕ → Act S (Unit {0})
  pub finalize : Act S (Unit {0})
  pub forward_batch : List SeqForward → ℕ → Act S (List V)
  pub set_fusion : Bool → Act S (Unit {0})
  pub set_kernels : ℤ → ℤ → Act S (Unit {0})
  pub debug_set : Bool → Act S (Unit {0})
  pub debug_count : Act S ℕ
  pub debug_read : ℤ → Act S (List V)
  pub close : Act S (Unit {0})

-- `outDim*inDim/2`, and `outDim*(inDim/group)*4`, on `int64`.
abbrev pub nibble_bytes : ℤ → ℤ → ℤ
nibble_bytes out_dim in_dim = quot (mul_int out_dim in_dim) (pos 2)

abbrev pub scale_bytes : ℤ → ℤ → ℤ → ℤ
scale_bytes out_dim in_dim group = mul_int (mul_int out_dim (quot in_dim group)) (pos 4)

module _ {S V F C : Type 0} (im : Impl S V F C) where
  -- A binding as the device that `ForwardBatch` calls.
  abbrev pub device_of : Device V
  device_of = record { State = S; forward = λ st seqs n. im.forward_batch seqs n st }

  -- Run `m`; where it fails, run `cleanup` too and return the first error.
  unfoldable pub or_close : {A : Type 0} → Act S A → Act S A
  or_close m s =
      let (s', r) = m s in
      elim r [ ok a ↦ (s', ok a) | err e ↦ ((im.close s').0, err e) | panic ↦ (s', panic) ]

  -- `Load` after the library is opened: `init`, and `close` where that fails.
  unfoldable pub load_backend : ℤ → Act S (Unit {0})
  load_backend device = or_close (im.init device)

  -- `ModelCreate`; the configuration that the handle keeps is the result.
  unfoldable pub create_model : C → Act S C
  create_model cfg = do im.model_create cfg; pure cfg

  -- `LoadTensorF32`
  unfoldable pub load_f32 : String → List ℕ → Act S (Unit {0})
  load_f32 name raw =
      if length raw == 0 || not (length raw % 4 == 0)
      then raise (not_words name (length raw))
      else im.load_tensor name raw

  -- `LoadTensorW4`. The division by a group of 0 panics.
  unfoldable pub load_w4 : String → List ℕ → List ℕ → ℤ → ℤ → ℤ → Act S (Unit {0})
  load_w4 name q scales out_dim in_dim group =
      if not (equals (pos (length q)) (nibble_bytes out_dim in_dim))
      then raise (wrong_bytes name (length q) (nibble_bytes out_dim in_dim))
      else if is_zero group
      then fault
      else if not (equals (pos (length scales)) (scale_bytes out_dim in_dim group))
      then raise (wrong_bytes name (length scales) (scale_bytes out_dim in_dim group))
      else im.load_tensor_w4 name q scales out_dim in_dim group
