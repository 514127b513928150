-- ===== src/Loader/Shards/Examples.antt =====
-- A checkpoint of two files, and one with a tensor in both.
use Prim.Native.String.{String}
use text.Mathlib.Text.{◌==◌}
use kllm.Base.{
  ℕ, ◌+◌, ◌≡◌, refl, List, [], ◌∷◌, Option, some, none, Result, ok, err, if◌then◌else◌, pos,
  duplicate_tensor,
}
use kllm.Loader.{Tensor, find_tensor}
use kllm.Loader.Shards.{
  Shard, Model, indexed, Files, open_file, close_model, lookup, add_names, open_shards, open_model,
  find_in_model, read_in_model, paths_of,
}
use kllm.Loader.Shards.Closing.{open_model-IsBalanced, IsBalanced}
use kllm.Loader.Shards.Names.{open_model-finds}

abbrev weight_at : String → ℕ → Tensor
weight_at name first = record {
  name = name;
  dtype = "F32";
  shape = pos 1 ∷ [];
  first = first;
  last = first + 4;
}

abbrev disk : String → Option (Result (List Tensor))
disk path =
    if path == "d/1"
    then some (ok (weight_at "a" 8 ∷ []))
    else if path == "d/2"
    then some (ok (weight_at "b" 8 ∷ weight_at "c" 12 ∷ []))
    else if path == "d/3"
    then some (ok (weight_at "b" 8 ∷ []))
    else none

abbrev shard_1 : Shard
shard_1 = record { path = "d/1"; tensors = weight_at "a" 8 ∷ [] }

abbrev shard_2 : Shard
shard_2 = record { path = "d/2"; tensors = weight_at "b" 8 ∷ weight_at "c" 12 ∷ [] }

abbrev two_files : Model
two_files = record {
  files = shard_1 ∷ shard_2 ∷ [];
  by_name = ("a", shard_1) ∷ ("b", shard_2) ∷ ("c", shard_2) ∷ [];
}

abbrev no_files_open : Files
no_files_open = record { opened = 0; closed = 0 }

index_paths :
    paths_of (λ name. name) (λ xs. xs) "d" (some (indexed (some ("1" ∷ "2" ∷ "1" ∷ "2" ∷ []))))
    ≡ ok ("1" ∷ "2" ∷ [])
unfolding paths_of
index_paths = refl

opens : (open_model disk "d" (ok ("d/1" ∷ "d/2" ∷ [])) no_files_open).1 ≡ ok two_files
unfolding open_model open_shards open_file add_names lookup
opens = refl

refuses :
    open_model disk "d" (ok ("d/2" ∷ "d/3" ∷ [])) no_files_open
    ≡ (record { opened = 2; closed = 2 }, err (duplicate_tensor "b" "d/2" "d/3"))
unfolding open_model open_shards open_file add_names lookup close_model
refuses = refl

open_model-IsBalanced_example :
    IsBalanced (open_model disk "d" (ok ("d/1" ∷ "d/2" ∷ "d/4" ∷ [])) no_files_open)
open_model-IsBalanced_example =
    open_model-IsBalanced disk "d" (ok ("d/1" ∷ "d/2" ∷ "d/4" ∷ [])) no_files_open refl

finds_c : find_tensor (weight_at "b" 8 ∷ weight_at "c" 12 ∷ []) "c" ≡ some (weight_at "c" 12)
unfolding find_tensor
finds_c = refl

open_model-finds_example :
    (find_in_model two_files "c" ≡ some (weight_at "c" 12))
    × (read_in_model two_files "c" ≡ ok ("d/2", 12, 4))
open_model-finds_example =
    open_model-finds disk "d" (ok ("d/1" ∷ "d/2" ∷ [])) no_files_open two_files 1 shard_2 "c"
      (weight_at "c" 12) opens refl finds_c
