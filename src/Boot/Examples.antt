-- ===== src/Boot/Examples.antt =====
-- `New` on a small checkpoint and a library whose state is how often it is open.
use kllm.Base.{ℕ, suc, ◌-◌, refl, [], ◌∷◌, some, pos, ok, err, no_tensor, replicate}
use kllm.Base.Triples.{Ends}
use kllm.Samples.{naturals, blocks, loaded}
use kllm.Handle.{Impl}
use kllm.Engine.{Options}
use kllm.Boot.{Machine, EngineConfig, Outside, Config, new_engine}
use kllm.Boot.Opening.{Counts, IsOpen}
use kllm.Boot.Cleanup.{new_engine-IsOpen}

-- `Finalize` fails.
abbrev library : Impl ℕ ℕ ℕ (EngineConfig ℕ)
library = record {
  init = λ d s. (s, ok tt);
  device_info = λ s. (s, ok []);
  smoke_vector_add = λ a b s. (s, ok a);
  model_create = λ cfg s. (s, ok tt);
  load_tensor = λ name raw s. (s, ok tt);
  load_tensor_w4 = λ name q scales n k g s. (s, ok tt);
  bench_matmul = λ m k n iters mode s. (s, 0, ok tt);
  set_layer_sliding = λ flags s. (s, ok tt);
  finalize = λ s. (s, err (no_tensor "lm_head.weight"));
  forward_batch = λ seqs n s. (s, ok (replicate n 0));
  set_fusion = λ on s. (s, ok tt);
  set_kernels = λ w4 attn s. (s, ok tt);
  debug_set = λ on s. (s, ok tt);
  debug_count = λ s. (s, ok 0);
  debug_read = λ i s. (s, ok []);
  close = λ s. (s - 1, ok tt);
}

abbrev checkpoint : Outside ℕ (Config naturals blocks library)
checkpoint = record {
  open_lib = λ s. (suc s, ok tt);
  config = ok loaded;
  disk = λ path.
      some
        (ok (record { name = "w"; dtype = "F32"; shape = pos 1 ∷ []; first = 8; last = 12 } ∷ []));
  paths = ok ("f" ∷ []);
  read = λ path offset n. some (replicate n 0);
  sort = λ ts. ts;
}

abbrev start : Machine ℕ
start = record { lib = 0; files = record { opened = 0; closed = 0 } }

abbrev defaults : Options
defaults = record { max_seq = pos 0; block_size = pos 0; num_blocks = pos 0 }

library-Counts : Counts library (λ s. (suc s, ok tt)) (λ s. s)
library-Counts = record {
  opens = λ n l e. rw e refl;
  closes = λ s. refl;
  init = λ d s. refl;
  model_create = λ cfg s. refl;
  set_layer_sliding = λ flags s. refl;
  load_tensor = λ name raw s. refl;
  load_tensor_w4 = λ name q sc n k g s. refl;
  finalize = λ s. refl;
}

new_engine-IsOpen_example :
    Ends
      (λ _. IsOpen (λ l. l) 1 0)
      (IsOpen (λ l. l) 0 0)
      (new_engine naturals blocks library checkpoint defaults (pos 0) "dir" start)
new_engine-IsOpen_example =
    new_engine-IsOpen naturals blocks library checkpoint (λ l. l) library-Counts defaults (pos 0)
      "dir" 0 start (refl, refl)
