-- ===== src/Bindings/Windows.antt =====
-- engine/backend/backend_windows.go: every argument is a 64-bit register and every result is one; a C
-- function takes the low half where its parameter is an `int`, and `check` takes it of a result.
use Prim.Native.String.{String}
use kllm.Base.{
  ℕ, ◌/◌, List, [], ◌∷◌, Bool, if◌then◌else◌, length, take, replicate, ◌==◌, not, Result, ok, err,
  panic, bits, ℤ, missing_export, backend_error, length_mismatch, negative_count,
}
use kllm.Base.Actions.{Act, pure, raise, ◌>>=◌, ◌>>◌}
use kllm.Backend.{SeqForward, flatten_batch}
use kllm.Handle.{Impl}
use kllm.Bindings.{CLib, low32, cstrlen, first_of, is_negative, flag}

-- The exports that `load` looks up, in order.
abbrev pub exports : List String
exports =
    "te_last_error" ∷ "te_init" ∷ "te_device_info" ∷ "te_smoke_vector_add" ∷ "te_model_create"
    ∷ "te_model_load_tensor" ∷ "te_model_load_tensor_w4" ∷ "te_bench_matmul"
    ∷ "te_model_set_layer_sliding" ∷ "te_model_finalize" ∷ "te_forward_batch" ∷ "te_set_fusion"
    ∷ "te_set_kernels" ∷ "te_debug_set" ∷ "te_debug_count" ∷ "te_debug_size" ∷ "te_debug_read" ∷ []

-- The loop of `load`: whether an export is there, how often the library was released, the result.
pub find_procs : (String → Bool) → List String → ℕ × Result (Unit {0})
find_procs has [] = (0, ok tt)
find_procs has (name ∷ names) =
    let rest = find_procs has names in if has name then rest else (1, err (missing_export name))

-- `release` stands for `DLL.Release`.
module _ {V F C : Type 0} (c : CLib V F C) (release : Act c.State (Unit {0})) where
  open c use {State}

  -- `check`
  check : String → ℕ → Act State (Unit {0})
  check name rc s =
      if low32 rc == 0
      then (s, ok tt)
      else (let (s', buf) = c.last_error 512 s in
          (s', err (backend_error name (low32 rc) (take (cstrlen buf) buf))))

  -- A call of a procedure that only returns a code.
  call : String → (State → State × ℕ) → Act State (Unit {0})
  unfolding check
  call name proc s = let (s', rc) = proc s in check name rc s'

  -- A call that writes a buffer.
  call_into : {A : Type 0} → String → (State → State × ℕ × A) → Act State A
  unfolding check
  call_into name proc s =
      let (s', rc, out) = proc s in
      let (s'', checked) = check name rc s' in
      elim checked [ ok _ ↦ (s'', ok out) | err e ↦ (s'', err e) | panic ↦ (s'', panic) ]

  init : ℤ → Act State (Unit {0})
  unfolding call
  init device = call "te_init" (c.init (low32 (bits device)))

  device_info : Act State (List ℕ)
  unfolding call_into
  device_info = do
    buf ← call_into "te_device_info" (c.device_info 256)
    pure (take (cstrlen buf) buf)

  smoke_vector_add : List V → List V → Act State (List V)
  unfolding call_into
  smoke_vector_add a b =
      if not (length a == length b)
      then raise (length_mismatch (length a) (length b))
      else if length a == 0
      then pure []
      else call_into "te_smoke_vector_add"
          (c.smoke_vector_add a b (replicate (length a) c.zero_v) (low32 (length a)))

  model_create : C → Act State (Unit {0})
  unfolding call
  model_create cfg = call "te_model_create" (c.model_create cfg)

  load_tensor : String → List ℕ → Act State (Unit {0})
  unfolding call
  load_tensor name raw = do
    first_of raw
    call "te_model_load_tensor" (c.load_tensor name raw (length raw / 4))

  load_tensor_w4 : String → List ℕ → List ℕ → ℤ → ℤ → ℤ → Act State (Unit {0})
  unfolding call
  load_tensor_w4 name q scales out_dim in_dim group = do
    first_of q
    first_of scales
    call "te_model_load_tensor_w4"
        (c.load_tensor_w4 name q scales (bits out_dim) (bits in_dim) (bits group))

  -- Beside an error it returns 0.
  bench_matmul : ℤ → ℤ → ℤ → ℤ → ℤ → State → State × F × Result (Unit {0})
  unfolding check
  bench_matmul m k n iters mode s =
      let (s', rc, ms) =
        c.bench_matmul (bits m) (bits k) (bits n) (bits iters) (bits mode) c.zero_f s in
      let (s'', checked) = check "te_bench_matmul" rc s' in
      (s'', elim checked [ ok _ ↦ ms | err _ ↦ c.zero_f | panic ↦ c.zero_f ], checked)

  set_layer_sliding : List ℕ → Act State (Unit {0})
  unfolding call
  set_layer_sliding flags = do
    first_of flags
    call "te_model_set_layer_sliding" (c.set_layer_sliding flags (length flags))

  finalize : Act State (Unit {0})
  unfolding call
  finalize = call "te_model_finalize" c.finalize

  forward_batch : List SeqForward → ℕ → Act State (List V)
  unfolding call_into
  forward_batch seqs n =
      let f = flatten_batch seqs in
      do
        first_of f.tokens
        first_of f.n_tokens
        first_of f.pos
        first_of f.tables
        first_of (replicate n c.zero_v)
        call_into "te_forward_batch" (c.forward_batch (length seqs) f (replicate n c.zero_v))

  set_fusion : Bool → Act State (Unit {0})
  unfolding call
  set_fusion on = call "te_set_fusion" (c.set_fusion (flag on))

  set_kernels : ℤ → ℤ → Act State (Unit {0})
  unfolding call
  set_kernels w4 attn = call "te_set_kernels" (c.set_kernels (bits w4) (bits attn))

  debug_set : Bool → Act State (Unit {0})
  unfolding call
  debug_set on = call "te_debug_set" (c.debug_set (flag on))

  debug_count : Act State ℕ
  debug_count s =
      let (s', r) = c.debug_count s in
      if is_negative r then (s', err (negative_count "te_debug_count" r)) else (s', ok r)

  -- `debugRead`; an empty entry panics at `&out[0]`.
  debug_read : ℤ → Act State (List V)
  unfolding call_into
  debug_read idx s =
      let (s', r) = c.debug_size (bits idx) s in
      if is_negative r
      then (s', err (negative_count "te_debug_size" r))
      else (do
        first_of (replicate r c.zero_v)
        call_into "te_debug_read" (c.debug_read (bits idx) (replicate r c.zero_v) r))
          s'

  close : Act State (Unit {0})
  close = release

  unfoldable pub windows : Impl c.State V F C
  unfolding init device_info smoke_vector_add model_create load_tensor load_tensor_w4 bench_matmul
      set_layer_sliding finalize forward_batch set_fusion set_kernels debug_set debug_count
      debug_read close
  windows = record {
    init = init;
    device_info = device_info;
    smoke_vector_add = smoke_vector_add;
    model_create = model_create;
    load_tensor = load_tensor;
    load_tensor_w4 = load_tensor_w4;
    bench_matmul = bench_matmul;
    set_layer_sliding = set_layer_sliding;
    finalize = finalize;
    forward_batch = forward_batch;
    set_fusion = set_fusion;
    set_kernels = set_kernels;
    debug_set = debug_set;
    debug_count = debug_count;
    debug_read = debug_read;
    close = close;
  }
