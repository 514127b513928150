-- ===== src/Upload/Examples.antt =====
-- The upload of a quantized weight of two rows and eight columns, in groups of four.
use Prim.Native.String.{String}
use mathlib.Core.Option.{some-injective}
use kllm.Base.{
  ℕ, ◌<◌, ◌≡◌, refl, subst, List, [], ◌∷◌, Option, some, length, length-replicate, replicate, pos,
  ok, arith, suc,
}
use kllm.Handle.{Impl, load_w4}
use kllm.Loader.{Tensor, dtype_size, count_elements, find_tensor, read_tensor}
use kllm.Loader.Bounds.{IsPlaced}
use kllm.Loader.Shards.{Shard, Model, lookup, find_in_model, read_in_model}
use kllm.Upload.{pair_of, two_dims, w4_dims, read_bytes}
use kllm.Upload.Pairs.{IsAccepted}
use kllm.Upload.Guards.{uploads_pass}

abbrev weight : Tensor
weight = record {
  name = "w.qweight";
  dtype = "U8";
  shape = pos 2 ∷ pos 4 ∷ [];
  first = 8;
  last = 16;
}

abbrev weight_scales : Tensor
weight_scales = record {
  name = "w.scales";
  dtype = "F32";
  shape = pos 2 ∷ pos 2 ∷ [];
  first = 16;
  last = 32;
}

abbrev shard : Shard
shard = record { path = "f"; tensors = weight ∷ weight_scales ∷ [] }

abbrev one_file : Model
one_file = record { files = shard ∷ []; by_name = ("w.qweight", shard) ∷ ("w.scales", shard) ∷ [] }

abbrev sevens : String → ℕ → ℕ → Option (List ℕ)
sevens path offset n = some (replicate n 7)

-- A library that counts its calls.
abbrev counting : Impl ℕ ℕ ℕ (Unit {0})
counting = record {
  init = λ d s. (suc s, ok tt);
  device_info = λ s. (suc s, ok []);
  smoke_vector_add = λ a b s. (suc s, ok a);
  model_create = λ cfg s. (suc s, ok tt);
  load_tensor = λ name raw s. (suc s, ok tt);
  load_tensor_w4 = λ name q scales n k g s. (suc s, ok tt);
  bench_matmul = λ m k n iters mode s. (suc s, 0, ok tt);
  set_layer_sliding = λ flags s. (suc s, ok tt);
  finalize = λ s. (suc s, ok tt);
  forward_batch = λ seqs n s. (suc s, ok (replicate n 0));
  set_fusion = λ on s. (suc s, ok tt);
  set_kernels = λ w4 attn s. (suc s, ok tt);
  debug_set = λ on s. (suc s, ok tt);
  debug_count = λ s. (suc s, ok 0);
  debug_read = λ i s. (suc s, ok []);
  close = λ s. (suc s, ok tt);
}

finds_weight : find_in_model one_file "w.qweight" ≡ some weight
unfolding find_in_model lookup find_tensor
finds_weight = refl

finds_scales : find_in_model one_file "w.scales" ≡ some weight_scales
unfolding find_in_model lookup find_tensor
finds_scales = refl

weight-IsPlaced : IsPlaced 8 32 weight
unfolding dtype_size count_elements
weight-IsPlaced = record {
  size = 1;
  known = refl;
  after_header = omega arith;
  ordered = omega arith;
  in_file = omega arith;
  numel = 8;
  counted = refl;
  bytes = refl;
}

scales-IsPlaced : IsPlaced 8 32 weight_scales
unfolding dtype_size count_elements
scales-IsPlaced = record {
  size = 4;
  known = refl;
  after_header = omega arith;
  ordered = omega arith;
  in_file = omega arith;
  numel = 4;
  counted = refl;
  bytes = refl;
}

weight-IsAccepted : IsAccepted one_file "w.qweight"
weight-IsAccepted u found =
    (8, 32, subst (IsPlaced 8 32) (cc (finds_weight, found)) weight-IsPlaced)

scales-IsAccepted : IsAccepted one_file "w.scales"
scales-IsAccepted u found =
    (8, 32, subst (IsPlaced 8 32) (cc (finds_scales, found)) scales-IsPlaced)

has_dims : w4_dims one_file weight "w" ≡ ok (pos 2, pos 8, pos 4)
unfolding w4_dims two_dims pair_of find_in_model lookup find_tensor
has_dims = refl

reads_weight : read_bytes counting sevens one_file "w.qweight" ≡ ok (replicate 8 7)
unfolding read_bytes read_in_model lookup find_tensor read_tensor
reads_weight = refl

reads_scales : read_bytes counting sevens one_file "w.scales" ≡ ok (replicate 16 7)
unfolding read_bytes read_in_model lookup find_tensor read_tensor
reads_scales = refl

sevens_full :
    (path : String) (offset n : ℕ) (xs : List ℕ) → sevens path offset n ≡ some xs → length xs ≡ n
sevens_full path offset n xs e =
    subst (λ (ys : List ℕ). length ys ≡ n) (some-injective (replicate n 7) xs e)
      (length-replicate n 7)

uploads_pass_example :
    (load_w4 counting "w.weight" (replicate 8 7) (replicate 16 7) (pos 2) (pos 8) (pos 4)
      ≡ counting.load_tensor_w4 "w.weight" (replicate 8 7) (replicate 16 7) (pos 2) (pos 8) (pos 4))
    × (0 < length {A = ℕ} (replicate 16 7))
uploads_pass_example =
    uploads_pass counting sevens one_file weight "w" "w.weight" (replicate 8 7) (replicate 16 7)
      (pos 2) (pos 8) (pos 4) weight-IsAccepted scales-IsAccepted sevens_full finds_weight has_dims
      reads_weight reads_scales (omega arith) (omega arith)
