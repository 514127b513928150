-- ===== src/Bindings/Cgo.antt =====
-- engine/backend/backend_cgo.go: a C function that returns `int` is read as a `C.int`, the low half
-- of its register; arguments are converted to the C types.
use Prim.Native.String.{String}
use kllm.Base.{
  Result, ℕ, ◌/◌, List, [], Bool, if◌then◌else◌, length, take, replicate, ◌==◌, not, ok, err, bits,
  ℤ, backend_error, length_mismatch, negative_count,
}
use kllm.Base.Actions.{Act, pure, raise, ◌>>=◌, ◌>>◌}
use kllm.Backend.{SeqForward, flatten_batch}
use kllm.Handle.{Impl}
use kllm.Bindings.{CLib, low32, cstrlen, first_of, is_negative, flag}

module _ {V F C : Type 0} (c : CLib V F C) where
  open c use {State}

  -- The `C.int` that a call returns.
  c_int : (State → State × ℕ) → State → State × ℕ
  c_int f s = let (s', r) = f s in (s', low32 r)

  last_error : State → State × List ℕ
  last_error s = let (s', buf) = c.last_error 512 s in (s', take (cstrlen buf) buf)

  -- `check`, after the call that gives its code.
  unfoldable pub check : String → ℕ → Act State (Unit {0})
  unfolding last_error
  check name code s =
      if code == 0
      then (s, ok tt)
      else (let (s', msg) = last_error s in (s', err (backend_error name code msg)))

  -- `check(fn, C.fn(...))`
  unfoldable pub call : String → (State → State × ℕ) → Act State (Unit {0})
  unfolding c_int check
  call name f s = let (s', code) = c_int f s in check name code s'

  -- The same for a function that writes a buffer, which is returned where it succeeds.
  unfoldable pub call_into : {A : Type 0} → String → (State → State × ℕ × A) → Act State A
  unfolding check
  call_into name f s = let (s', r, out) = f s in (check name (low32 r) >>= λ _. pure out) s'

  init : ℤ → Act State (Unit {0})
  unfolding call
  init device = call "te_init" (c.init (low32 (bits device)))

  device_info : Act State (List ℕ)
  unfolding call_into
  device_info =
      call_into "te_device_info" (c.device_info 256) >>= λ buf. pure (take (cstrlen buf) buf)

  smoke_vector_add : List V → List V → Act State (List V)
  unfolding call_into
  smoke_vector_add a b =
      if not (length a == length b)
      then raise (length_mismatch (length a) (length b))
      else if length a == 0
      then pure []
      else call_into "te_smoke_vector_add"
          (c.smoke_vector_add a b (replicate (length a) c.zero_v) (low32 (length a)))

  model_create : C → Act State (Unit {0})
  unfolding call
  model_create cfg = call "te_model_create" (c.model_create cfg)

  load_tensor : String → List ℕ → Act State (Unit {0})
  unfolding call
  load_tensor name raw = do
    first_of raw
    call "te_model_load_tensor" (c.load_tensor name raw (length raw / 4))

  load_tensor_w4 : String → List ℕ → List ℕ → ℤ → ℤ → ℤ → Act State (Unit {0})
  unfolding call
  load_tensor_w4 name q scales out_dim in_dim group = do
    first_of q
    first_of scales
    call "te_model_load_tensor_w4"
        (c.load_tensor_w4 name q scales (bits out_dim) (bits in_dim) (bits group))

  -- What the C library left in `ms` is returned beside the error, if there is one.
  bench_matmul : ℤ → ℤ → ℤ → ℤ → ℤ → State → State × F × Result (Unit {0})
  unfolding check
  bench_matmul m k n iters mode s =
      let (s', r, ms) =
        c.bench_matmul (bits m) (bits k) (bits n) (bits iters) (bits mode) c.zero_f s in
      let (s'', checked) = check "te_bench_matmul" (low32 r) s' in (s'', ms, checked)

  set_layer_sliding : List ℕ → Act State (Unit {0})
  unfolding call
  set_layer_sliding flags = do
    first_of flags
    call "te_model_set_layer_sliding" (c.set_layer_sliding flags (length flags))

  finalize : Act State (Unit {0})
  unfolding call
  finalize = call "te_model_finalize" c.finalize

  forward_batch : List SeqForward → ℕ → Act State (List V)
  unfolding call_into
  forward_batch seqs n =
      let f = flatten_batch seqs in
      do
        first_of f.tokens
        first_of f.n_tokens
        first_of f.pos
        first_of f.tables
        first_of (replicate n c.zero_v)
        call_into "te_forward_batch" (c.forward_batch (length seqs) f (replicate n c.zero_v))

  set_fusion : Bool → Act State (Unit {0})
  unfolding call
  set_fusion on = call "te_set_fusion" (c.set_fusion (flag on))

  set_kernels : ℤ → ℤ → Act State (Unit {0})
  unfolding call
  set_kernels w4 attn = call "te_set_kernels" (c.set_kernels (bits w4) (bits attn))

  debug_set : Bool → Act State (Unit {0})
  unfolding call
  debug_set on = call "te_debug_set" (c.debug_set (flag on))

  debug_count : Act State ℕ
  debug_count s =
      let (s', r) = c.debug_count s in
      if is_negative r then (s', err (negative_count "te_debug_count" r)) else (s', ok r)

  -- `debugRead`; an empty entry panics at `&out[0]`.
  debug_read : ℤ → Act State (List V)
  unfolding call_into
  debug_read idx s =
      let (s', r) = c.debug_size (bits idx) s in
      if is_negative r
      then (s', err (negative_count "te_debug_size" r))
      else (do
        first_of (replicate r c.zero_v)
        call_into "te_debug_read" (c.debug_read (bits idx) (replicate r c.zero_v) r))
          s'

  -- `close` does nothing: the library is linked at build time.
  close : Act State (Unit {0})
  close = pure tt

  unfoldable pub cgo : Impl c.State V F C
  unfolding init device_info smoke_vector_add model_create load_tensor load_tensor_w4 bench_matmul
      set_layer_sliding finalize forward_batch set_fusion set_kernels debug_set debug_count
      debug_read close
  cgo = record {
    init = init;
    device_info = device_info;
    smoke_vector_add = smoke_vector_add;
    model_create = model_create;
    load_tensor = load_tensor;
    load_tensor_w4 = load_tensor_w4;
    bench_matmul = bench_matmul;
    set_layer_sliding = set_layer_sliding;
    finalize = finalize;
    forward_batch = forward_batch;
    set_fusion = set_fusion;
    set_kernels = set_kernels;
    debug_set = debug_set;
    debug_count = debug_count;
    debug_read = debug_read;
    close = close;
  }
