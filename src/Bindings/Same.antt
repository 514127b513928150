-- ===== src/Bindings/Same.antt =====
-- The two bindings do the same.
use Prim.Native.String.{String}
use kllm.Base.{Result, ok, err, panic, ap, sym, ℕ, ◌≡◌, refl, List, Bool, ℤ}
use kllm.Base.Actions.{Act}
use kllm.Backend.{SeqForward}
use kllm.Bindings.{CLib}
use kllm.Bindings.Cgo.{cgo}
use kllm.Bindings.Windows.{windows}

-- Each operation of the two leaves the same state of the library and returns the same, the error
-- messages included; of `benchMatmul` the time is the same only if there is no error.
pub record IsSame {V F C : Type 0} (c : CLib V F C) (release : Act c.State (Unit {0})) (s : c.State)
    : Type 0 where
  pub init : (device : ℤ) → (cgo c).init device s ≡ (windows c release).init device s
  pub device_info : (cgo c).device_info s ≡ (windows c release).device_info s
  pub smoke_vector_add :
      (a b : List V) → (cgo c).smoke_vector_add a b s ≡ (windows c release).smoke_vector_add a b s
  pub model_create : (cfg : C) → (cgo c).model_create cfg s ≡ (windows c release).model_create cfg s
  pub load_tensor :
      (name : String) (raw : List ℕ)
      → (cgo c).load_tensor name raw s ≡ (windows c release).load_tensor name raw s
  pub load_tensor_w4 :
      (name : String) (q scales : List ℕ) (out_dim in_dim group : ℤ)
      → (cgo c).load_tensor_w4 name q scales out_dim in_dim group s
        ≡ (windows c release).load_tensor_w4 name q scales out_dim in_dim group s
  pub bench_matmul :
      (m k n iters mode : ℤ)
      → let (s1, ms1, r1) = (cgo c).bench_matmul m k n iters mode s in
        let (s2, ms2, r2) = (windows c release).bench_matmul m k n iters mode s in
        (s1 ≡ s2) × (r1 ≡ r2) × (r1 ≡ ok tt → ms1 ≡ ms2)
  pub set_layer_sliding :
      (flags : List ℕ)
      → (cgo c).set_layer_sliding flags s ≡ (windows c release).set_layer_sliding flags s
  pub finalize : (cgo c).finalize s ≡ (windows c release).finalize s
  pub forward_batch :
      (seqs : List SeqForward) (n : ℕ)
      → (cgo c).forward_batch seqs n s ≡ (windows c release).forward_batch seqs n s
  pub set_fusion : (on : Bool) → (cgo c).set_fusion on s ≡ (windows c release).set_fusion on s
  pub set_kernels :
      (w4 attn : ℤ) → (cgo c).set_kernels w4 attn s ≡ (windows c release).set_kernels w4 attn s
  pub debug_set : (on : Bool) → (cgo c).debug_set on s ≡ (windows c release).debug_set on s
  pub debug_count : (cgo c).debug_count s ≡ (windows c release).debug_count s
  pub debug_read : (idx : ℤ) → (cgo c).debug_read idx s ≡ (windows c release).debug_read idx s

-- Whatever the C library does, and whatever its state, the two bindings agree on every call but
-- `close`: they leave the library in the same state and return the same result or error. Of
-- `benchMatmul` the time is the same only where there is no error. This holds although one reads a C
-- result as a `C.int` and the other the low half of a register.
pub bindings_agree :
    {V F C : Type 0} (c : CLib V F C) (release : Act c.State (Unit {0})) (s : c.State)
    → IsSame c release s
unfolding cgo windows
bindings_agree {V} {F} c release s = record {
  init = λ device. refl;
  device_info = refl;
  smoke_vector_add = λ a b. refl;
  model_create = λ cfg. refl;
  load_tensor = λ name raw. refl;
  load_tensor_w4 = λ name q scales out_dim in_dim group. refl;
  bench_matmul = λ m k n iters mode. (refl, refl, λ fine. sym (ap (time_or_zero _) fine));
  set_layer_sliding = λ flags. refl;
  finalize = refl;
  forward_batch = λ seqs n. refl;
  set_fusion = λ on. refl;
  set_kernels = λ w4 attn. refl;
  debug_set = λ on. refl;
  debug_count = refl;
  debug_read = λ idx. refl;
}
  where
    time_or_zero : F → Result (Unit {0}) → F
    time_or_zero ms checked = elim checked [ ok _ ↦ ms | err _ ↦ c.zero_f | panic ↦ c.zero_f ]
