-- ===== src/Bindings/Examples.antt =====
-- The bindings of a small library, whose state counts the calls.
use kllm.Base.{arith, ℕ, suc, ◌≡◌, ◌≢◌, refl, List, [], ◌∷◌, ok, panic}
use kllm.Base.Actions.{Act}
use kllm.Backend.{SeqForward, forward_batch}
use kllm.Handle.{device_of}
use kllm.Bindings.{CLib, cstrlen}
use kllm.Bindings.Cgo.{cgo, check, call_into}
use kllm.Bindings.Windows.{windows}
use kllm.Bindings.Same.{IsSame, bindings_agree}
use kllm.Bindings.Faults.{forward_batch_sound}

abbrev count : ℕ → ℕ → ℕ × ℕ
count r s = (suc s, r)

abbrev count_with : {A : Type 0} → A → ℕ → ℕ × ℕ × A
count_with a s = (suc s, 0, a)

-- `te_last_error` writes `no`.
abbrev tiny : CLib ℕ ℕ (Unit {0})
tiny = record {
  State = ℕ;
  zero_v = 0;
  zero_f = 0;
  last_error = λ n s. (suc s, 110 ∷ 111 ∷ 0 ∷ 9 ∷ []);
  init = λ d. count 0;
  device_info = λ n. count_with (71 ∷ 0 ∷ 5 ∷ []);
  smoke_vector_add = λ a b out n. count_with out;
  model_create = λ cfg. count 0;
  load_tensor = λ name raw n. count 0;
  load_tensor_w4 = λ name q scales n k g. count 0;
  bench_matmul = λ m k n iters mode ms. count_with ms;
  set_layer_sliding = λ flags n. count 0;
  finalize = count 4294967303;
  forward_batch = λ n flat out. count_with out;
  set_fusion = λ on. count 0;
  set_kernels = λ w4 attn. count 0;
  debug_set = λ on. count 0;
  debug_count = count 0;
  debug_size = λ i. count 0;
  debug_read = λ i out n. count_with out;
}

abbrev no_release : Act ℕ (Unit {0})
no_release s = (s, ok tt)

info_is_cut : (cgo tiny).device_info 0 ≡ (1, ok (71 ∷ []))
unfolding cgo call_into check cstrlen
info_is_cut = refl

bindings_agree_example : IsSame tiny no_release 0
bindings_agree_example = bindings_agree tiny no_release 0

abbrev two_seqs : List SeqForward
two_seqs =
    record { tokens = 5 ∷ 6 ∷ []; pos = 0; block_table = 3 ∷ [] }
    ∷ record { tokens = 9 ∷ []; pos = 2; block_table = 4 ∷ [] }
    ∷ []

forward_batch_sound_example :
    ((forward_batch (device_of (cgo tiny)) 3 0 two_seqs).1 ≢ panic)
    × ((forward_batch (device_of (windows tiny no_release)) 3 0 two_seqs).1 ≢ panic)
forward_batch_sound_example =
    forward_batch_sound tiny no_release 3 0 two_seqs (omega arith) (omega arith)
      (omega arith, (omega arith, tt))
