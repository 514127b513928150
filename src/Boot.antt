-- ===== src/Boot.antt =====
-- engine/engine.go: `New`, from the configuration to the engine. Opening the shared library, the
-- files, and the readers of JSON are parameters.
pub mod Opening
pub mod Cleanup
mod Examples
use Prim.Native.String.{String}
use kllm.Base.{negsuc, ℕ, ℤ, List, [], ◌∷◌, Option, Result, ok, err, panic, pos}
use kllm.Base.Actions.{fault, Act, pure, ◌>>◌, ◌>>=◌}
use kllm.Platform.{Platform}
use kllm.Models.{
  Json, HfConfig, ModelConfig, load_config, validate, to_backend, layer_sliding_flags,
}
use kllm.Handle.{Impl, load_backend, create_model}
use kllm.Kv.{Allocator, new_allocator}
use kllm.Loader.{Tensor}
use kllm.Loader.Shards.{Model, Files, open_model, close_model}
use kllm.Engine.{Options, fill}
use kllm.Upload.{upload_weights}

-- What `New` changes: the library's state and the files.
pub record Machine (S : Type 0) : Type 0 where
  pub lib : S
  pub files : Files

-- `backend.ModelConfig` with the two fields that `New` sets.
pub record EngineConfig (F : Type 0) : Type 0 where
  pub model : ModelConfig F
  pub kv_block_size : ℤ
  pub kv_num_blocks : ℤ

-- `Engine`; of the handle, the configuration that it keeps.
pub record Engine (F Config : Type 0) : Type 0 where
  pub handle : EngineConfig F
  pub cfg : Config
  pub alloc : Allocator
  pub max_step_tokens : ℤ

-- What `New` finds outside the program: what opening the library does, the configuration that
-- `LoadConfig` returns, what `Open` makes of a path, the paths of the model's files, a read of a
-- file, and `sort.Slice`.
pub record Outside (S Config : Type 0) : Type 0 where
  pub open_lib : Act S (Unit {0})
  pub config : Result Config
  pub disk : String → Option (Result (List Tensor))
  pub paths : Result (List String)
  pub read : String → ℕ → ℕ → Option (List ℕ)
  pub sort : List Tensor → List Tensor

module _ {S : Type 0} where
  -- A call of the library.
  unfoldable pub on_lib : {A : Type 0} → Act S A → Act (Machine S) A
  on_lib m s = let (lib, r) = m s.lib in (record s { lib = lib }, r)

  unfoldable pub on_files : {A : Type 0} → Act Files A → Act (Machine S) A
  on_files m s = let (files, r) = m s.files in (record s { files = files }, r)

  -- The rest of the body and then, whatever it returns, the deferred `m.Close()`.
  unfoldable pub closing : {A : Type 0} → Model → Act (Machine S) A → Act (Machine S) A
  closing m body s = let (s', r) = body s in (record s' { files = close_model m s'.files }, r)

module _ (p : Platform) (json : Json p.Float) {S V G : Type 0}
    (im : Impl S V G (EngineConfig p.Float)) where
  open p use {Float}
  open json use {Raw}

  abbrev Config : Type 0
  Config = HfConfig Float Raw

  -- `if err := …; err != nil { h.Close(); return nil, err }`
  or_shut : {A : Type 0} → Act (Machine S) A → Act (Machine S) A
  unfolding on_lib
  or_shut m s =
      let (s', r) = m s in
      elim r [ ok a ↦ (s', ok a) | err e ↦ ((on_lib im.close s').0, err e) | panic ↦ (s', panic) ]

  backend_config : Config → Options → EngineConfig Float
  backend_config cfg opts = record {
    model = to_backend p json cfg opts.max_seq;
    kv_block_size = opts.block_size;
    kv_num_blocks = opts.num_blocks;
  }

  -- `SetLayerSliding`, if the checkpoint lists its layers' types.
  set_flags : List ℕ → Act S (Unit {0})
  set_flags [] = pure tt
  set_flags (f ∷ flags) = im.set_layer_sliding (f ∷ flags)

  -- The uploads and `Finalize`, with the model's files open.
  upload_and_finish : Outside S Config → Model → Act (Machine S) (Unit {0})
  unfolding or_shut on_lib
  upload_and_finish out m =
      or_shut (on_lib (upload_weights im out.read out.sort m)) >> or_shut (on_lib im.finalize)

  -- `kv.NewAllocator`: `make` panics on a negative number of blocks. `te_model_create` has refused
  -- a block size that is not positive (backend/model.cu), so an allocator with a negative one is
  -- not made; it stands as that of 0 here.
  make_allocator : ℤ → ℤ → Act (Machine S) Allocator
  make_allocator (pos n) (pos block_size) = pure (new_allocator n block_size)
  make_allocator (pos n) (negsuc _) = pure (new_allocator n 0)
  make_allocator (negsuc _) block_size = fault

  -- What follows `backend.Load`.
  build : Outside S Config → Options → String → Config → Act (Machine S) (Engine Float Config)
  unfolding or_shut on_lib on_files closing backend_config set_flags upload_and_finish
      make_allocator
  build out opts dir cfg = do
    handle ← or_shut (on_lib (create_model im (backend_config cfg opts)))
    or_shut (on_lib (set_flags (layer_sliding_flags p json cfg)))
    m ← or_shut (on_files (open_model out.disk dir out.paths))
    closing m (
        upload_and_finish out m >> make_allocator opts.num_blocks opts.block_size >>= λ alloc.
        pure (record { handle = handle; cfg = cfg; alloc = alloc; max_step_tokens = opts.max_seq }))

  -- `LoadConfig` and `Validate`.
  checked : Result Config → Result Config
  checked (ok cfg) = elim (validate p json cfg) [ ok _ ↦ ok cfg | err e ↦ err e | panic ↦ panic ]
  checked (err e) = err e
  checked panic = panic

  -- `New`
  pub new_engine : Outside S Config → Options → ℤ → String → Act (Machine S) (Engine Float Config)
  unfolding build on_lib checked
  new_engine out opts device dir s = elim (checked out.config) [
    | err e ↦ (s, err e)
    | panic ↦ (s, panic)
    | ok cfg ↦ (on_lib (out.open_lib >> load_backend im device) >> build out (fill opts) dir cfg) s
  ]
