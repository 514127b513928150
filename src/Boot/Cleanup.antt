-- ===== src/Boot/Cleanup.antt =====
-- What `New` leaves open.
use Prim.Native.String.{String}
use kllm.Base.{
  pos, negsuc, ℕ, suc, ◌≡◌, refl, ◌∙◌, arith, List, [], ◌∷◌, length, ℤ, Result, ok, err, panic,
  result_cases,
}
use kllm.Base.Actions.{Act, pure, ◌>>◌, ◌>>=◌}
use kllm.Base.Triples.{Triple, Ends, bind_triple}
use kllm.Platform.{Platform}
use kllm.Models.{Json, layer_sliding_flags}
use kllm.Handle.{Impl, load_backend, create_model, or_close}
use kllm.Loader.Shards.{Model, open_model}
use kllm.Loader.Shards.Closing.{open_model-IsBalanced}
use kllm.Engine.{Options, fill}
use kllm.Kv.{Allocator}
use kllm.Upload.{upload_weights}
use kllm.Upload.Effects.{Keeps, upload_weights-Keeps}
use kllm.Boot.{
  make_allocator, Machine, EngineConfig, Engine, Outside, on_lib, on_files, closing, or_shut,
  backend_config, set_flags, upload_and_finish, build, checked, new_engine, Config,
}
use kllm.Boot.Opening.{
  Counts, IsOpen, HasLive, kept, on_lib-triple, on_files-triple, closing-triple,
}

module _ {S V G : Type 0} (p : Platform) (json : Json p.Float)
    (im : Impl S V G (EngineConfig p.Float)) (out : Outside S (Config p json im)) (live : S → ℕ)
    (c : Counts im out.open_lib live) where
  or_shut-triple :
      {A : Type 0} (n k : ℕ) (P : Machine S → Type 0) (Q : A → Machine S → Type 0)
      (m : Act (Machine S) A)
      → Triple P m Q (IsOpen live (suc n) k)
      → Triple P (or_shut p json im m) Q (IsOpen live n k)
  unfolding or_shut on_lib
  or_shut-triple {A} n k P Q m h s pre = go (m s) (h s pre)
    where
      go :
          (r : Machine S × Result A)
          → Ends Q (IsOpen live (suc n) k) r
          → Ends Q (IsOpen live n k) (elim r.1 [
            | ok a ↦ (r.0, ok a)
            | err e ↦ ((on_lib im.close r.0).0, err e)
            | panic ↦ (r.0, panic)
          ])
      go (s', ok a) q = q
      go (s', err e) (libs, files) = (omega (arith, c.closes s'.lib), files)
      go (s', panic) q = tt

  -- One call of the library between opening it and `Finalize`.
  guarded :
      {A : Type 0} (n k : ℕ) (m : Act S A)
      → Keeps live m
      → Triple
          (IsOpen live (suc n) k)
          (or_shut p json im (on_lib m))
          (λ _. IsOpen live (suc n) k)
          (IsOpen live n k)
  guarded n k m h =
      or_shut-triple n k (IsOpen live (suc n) k) (λ _. IsOpen live (suc n) k) (on_lib m)
        (on_lib-triple live (suc n) (suc n) (suc n) k m (kept live (suc n) m h))

  create_model-Keeps : (cfg : EngineConfig p.Float) → Keeps live (create_model im cfg)
  unfolding create_model
  create_model-Keeps cfg s =
      result_cases (λ (r : S × Result (EngineConfig p.Float)). live r.0 ≡ live s)
        (im.model_create cfg s).1 _ _ _ (λ _ _. c.model_create cfg s) (λ _ _. c.model_create cfg s)
        (λ _. c.model_create cfg s)

  set_flags-Keeps : (flags : List ℕ) → Keeps live (set_flags p json im flags)
  unfolding set_flags
  set_flags-Keeps [] s = refl
  set_flags-Keeps (f ∷ flags) s = c.set_layer_sliding (f ∷ flags) s

  upload_and_finish-triple :
      (n k : ℕ) (m : Model)
      → Triple
          (IsOpen live (suc n) k)
          (upload_and_finish p json im out m)
          (λ _. IsOpen live (suc n) k)
          (IsOpen live n k)
  unfolding upload_and_finish
  upload_and_finish-triple n k m =
      bind_triple (IsOpen live (suc n) k) (λ _. IsOpen live (suc n) k) (λ _. IsOpen live (suc n) k)
        (IsOpen live n k) (or_shut p json im (on_lib (upload_weights im out.read out.sort m)))
        (λ _. or_shut p json im (on_lib im.finalize))
        (guarded n k (upload_weights im out.read out.sort m)
          (upload_weights-Keeps im out.read live c.load_tensor c.load_tensor_w4 out.sort m))
        (λ _. guarded n k im.finalize c.finalize)

  init-triple :
      (n : ℕ) (device : ℤ)
      → Triple
          (HasLive live (suc n))
          (load_backend im device)
          (λ _. HasLive live (suc n))
          (HasLive live n)
  unfolding load_backend or_close
  init-triple n device s libs = go (im.init device s) (c.init device s ∙ libs)
    where
      go :
          (r : S × Result (Unit {0}))
          → live r.0 ≡ suc n
          → Ends {A = Unit {0}}
              (λ _. HasLive live (suc n))
              (HasLive live n)
              (elim r.1 [
                | ok a ↦ (r.0, ok a)
                | err e ↦ ((im.close r.0).0, err e)
                | panic ↦ (r.0, panic)
              ])
      go (s', ok a) e = e
      go (s', err x) e = omega (arith, c.closes s')
      go (s', panic) e = tt

  load-triple :
      (n : ℕ) (device : ℤ)
      → Triple
          (HasLive live n)
          (out.open_lib >> load_backend im device)
          (λ _. HasLive live (suc n))
          (HasLive live n)
  load-triple n device =
      bind_triple (HasLive live n) (λ _. HasLive live (suc n)) (λ _. HasLive live (suc n))
        (HasLive live n) out.open_lib (λ _. load_backend im device) (c.opens n)
        (λ _. init-triple n device)

  make_allocator-triple :
      (n k : ℕ) (blocks block_size : ℤ)
      → Triple
          (IsOpen live (suc n) k)
          (make_allocator p json im blocks block_size)
          (λ _. IsOpen live (suc n) k)
          (IsOpen live n k)
  unfolding make_allocator
  make_allocator-triple n k (pos b) (pos z) s held = held
  make_allocator-triple n k (pos b) (negsuc z) s held = held
  make_allocator-triple n k (negsuc b) z s held = tt

  build-triple :
      (n : ℕ) (opts : Options) (dir : String) (cfg : Config p json im)
      → Triple
          (IsOpen live (suc n) 0)
          (build p json im out opts dir cfg)
          (λ _. IsOpen live (suc n) 0)
          (IsOpen live n 0)
  unfolding build
  build-triple n opts dir cfg =
      let held = IsOpen live (suc n) 0 in
      let free = IsOpen live n 0 in
      let engine : EngineConfig p.Float → Allocator → Engine p.Float (Config p json im) =
        λ handle alloc. record {
          handle = handle;
          cfg = cfg;
          alloc = alloc;
          max_step_tokens = opts.max_seq;
        } in
      let finish : EngineConfig p.Float
          → Model
          → Act (Machine S) (Engine p.Float (Config p json im)) =
        λ handle m. closing m (
          upload_and_finish p json im out m
          >> make_allocator p json im opts.num_blocks opts.block_size
          >>= λ alloc. pure (engine handle alloc)) in
      let open_files : Act (Machine S) Model =
        or_shut p json im (on_files (open_model out.disk dir out.paths)) in
      let flags : Act (Machine S) (Unit {0}) =
        or_shut p json im (on_lib (set_flags p json im (layer_sliding_flags p json cfg))) in
      bind_triple held (λ _. held) (λ _. held) free
        (or_shut p json im (on_lib (create_model im (backend_config p json im cfg opts))))
        (λ handle. flags >>= λ _. open_files >>= finish handle)
        (guarded n 0 (create_model im (backend_config p json im cfg opts))
          (create_model-Keeps (backend_config p json im cfg opts)))
        (λ handle.
          bind_triple held (λ _. held) (λ _. held) free flags (λ _. open_files >>= finish handle)
            (guarded n 0 (set_flags p json im (layer_sliding_flags p json cfg))
              (set_flags-Keeps (layer_sliding_flags p json cfg)))
            (λ _.
              bind_triple held (λ m. IsOpen live (suc n) (length m.files)) (λ _. held) free
                open_files (finish handle)
                (or_shut-triple n 0 held (λ m. IsOpen live (suc n) (length m.files))
                  (on_files (open_model out.disk dir out.paths))
                  (on_files-triple live (suc n) (open_model out.disk dir out.paths)
                    (open_model-IsBalanced out.disk dir out.paths)))
                (λ m.
                  let k = length m.files in
                  closing-triple live (suc n) (suc n) n m
                    (upload_and_finish p json im out m
                      >> make_allocator p json im opts.num_blocks opts.block_size
                      >>= λ alloc. pure (engine handle alloc))
                    (bind_triple (IsOpen live (suc n) k) (λ _. IsOpen live (suc n) k)
                      (λ _. IsOpen live (suc n) k) (IsOpen live n k)
                      (upload_and_finish p json im out m
                        >> make_allocator p json im opts.num_blocks opts.block_size)
                      (λ alloc. pure (engine handle alloc))
                      (bind_triple (IsOpen live (suc n) k) (λ _. IsOpen live (suc n) k)
                        (λ _. IsOpen live (suc n) k) (IsOpen live n k)
                        (upload_and_finish p json im out m)
                        (λ _. make_allocator p json im opts.num_blocks opts.block_size)
                        (upload_and_finish-triple n k m)
                        (λ _. make_allocator-triple n k opts.num_blocks opts.block_size))
                      (λ alloc s q. q)))))

  -- Where as many files are closed as were opened before `New`: however it ends but for a panic, the
  -- checkpoint's files that it opened are closed again; after an error no library is open that was
  -- not open before, and after a success one more is: an error before, in or after any of its calls
  -- closes the library exactly as often as it was opened. The hypothesis on the library is that only
  -- opening and closing it change the number of open ones, as on Windows.
  pub new_engine-IsOpen :
      (opts : Options) (device : ℤ) (dir : String) (n : ℕ) (s : Machine S)
      → IsOpen live n 0 s
      → Ends
          (λ _. IsOpen live (suc n) 0)
          (IsOpen live n 0)
          (new_engine p json im out opts device dir s)
  unfolding new_engine
  new_engine-IsOpen opts device dir n s h =
      result_cases (Ends (λ _. IsOpen live (suc n) 0) (IsOpen live n 0))
        (checked p json im out.config) _ _ _
        (λ cfg _.
          bind_triple (IsOpen live n 0) (λ _. IsOpen live (suc n) 0) (λ _. IsOpen live (suc n) 0)
            (IsOpen live n 0) (on_lib (out.open_lib >> load_backend im device))
            (λ _. build p json im out (fill opts) dir cfg)
            (on_lib-triple live n (suc n) n 0 (out.open_lib >> load_backend im device)
              (load-triple n device))
            (λ _. build-triple n (fill opts) dir cfg) s h)
        (λ _ _. h) (λ _. tt)
