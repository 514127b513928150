-- ===== src/Bindings.antt =====
-- engine/backend/backend_cgo.go and backend_windows.go: the two bindings of the C library.
--
-- The library is a parameter: each of its functions changes the library's state, leaves a 64-bit
-- register, whose low half is the result where the C function returns `int`, and what it wrote into
-- the buffers that it was given. `V` stands for `float32`, `F` for `float64`. A pointer to the first
-- element of an empty slice panics. Names are Go strings; both bindings copy them with a final NUL.
pub mod Cgo
pub mod Windows
pub mod Same
pub mod Faults
pub mod Running
pub mod Answering
mod Examples
use Prim.Native.String.{String}
use kllm.Base.{
  ℕ, suc, ◌%◌, List, [], ◌∷◌, Bool, true, false, if◌then◌else◌, length, ◌==◌, ltb, int32_mod,
  int_mod, int_limit, Result, ok, err, panic, bits, ℤ, Error,
}
use kllm.Base.Actions.{Act, pure, raise, fault}
use kllm.Backend.{Flat}

pub record CLib (V F C : Type 0) : Type 1 where
  pub State : Type 0
  pub zero_v : V
  pub zero_f : F
  -- The buffer's length; the buffer.
  pub last_error : ℕ → State → State × List ℕ
  -- An `int`, as a 32-bit pattern.
  pub init : ℕ → State → State × ℕ
  pub device_info : ℕ → State → State × ℕ × List ℕ
  -- Two inputs, the output's content, and their length as an `int`.
  pub smoke_vector_add : List V → List V → List V → ℕ → State → State × ℕ × List V
  pub model_create : C → State → State × ℕ
  -- A name, the bytes, and the number of elements.
  pub load_tensor : String → List ℕ → ℕ → State → State × ℕ
  pub load_tensor_w4 : String → List ℕ → List ℕ → ℕ → ℕ → ℕ → State → State × ℕ
  pub bench_matmul : ℕ → ℕ → ℕ → ℕ → ℕ → F → State → State × ℕ × F
  pub set_layer_sliding : List ℕ → ℕ → State → State × ℕ
  pub finalize : State → State × ℕ
  -- The number of sequences, the flat batch, and the logits buffer's content.
  pub forward_batch : ℕ → Flat → List V → State → State × ℕ × List V
  pub set_fusion : ℕ → State → State × ℕ
  pub set_kernels : ℕ → ℕ → State → State × ℕ
  pub debug_set : ℕ → State → State × ℕ
  pub debug_count : State → State × ℕ
  pub debug_size : ℕ → State → State × ℕ
  pub debug_read : ℕ → List V → ℕ → State → State × ℕ × List V

-- The low half of a register.
abbrev pub low32 : ℕ → ℕ
low32 r = r % int32_mod

-- `cstrlen`
pub cstrlen : List ℕ → ℕ
cstrlen [] = 0
cstrlen (c ∷ b) = let rest = cstrlen b in if c == 0 then 0 else suc rest

-- `&xs[0]`
abbrev pub first_of : {S A : Type 0} → List A → Act S (Unit {0})
first_of [] = fault
first_of (_ ∷ _) = pure tt

-- Whether the `int64` in a register is negative.
abbrev pub is_negative : ℕ → Bool
is_negative r = if ltb (r % int_mod) int_limit then false else true

abbrev pub flag : Bool → ℕ
flag on = if on then 1 else 0
