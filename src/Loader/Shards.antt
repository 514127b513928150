-- ===== src/Loader/Shards.antt =====
-- engine/loader/safetensors.go: a checkpoint of several files. The file system and the sort are
-- parameters; `Files` counts the files that were opened and closed.
pub mod Closing
pub mod Names
mod Examples
use Prim.Native.String.{String}
use text.Mathlib.Text.{◌==◌}
use kllm.Base.{
  ℕ, ◌+◌, List, [], ◌∷◌, ◌++◌, Bool, true, false, not, ◌&&◌, Option, none, some, length,
  if◌then◌else◌, Result, ok, err, panic, Error, no_file, bad_json, no_files, duplicate_tensor,
  no_tensor, in_file,
}
use kllm.Base.Actions.{Act, raise}
use kllm.Base.Text.{ends_with}
use kllm.Loader.{Tensor, find_tensor, read_tensor}

-- `File`
pub record Shard : Type 0 where
  pub path : String
  pub tensors : List Tensor

pub record Model : Type 0 where
  pub files : List Shard
  pub by_name : List (String × Shard)

pub record Files : Type 0 where
  pub opened : ℕ
  pub closed : ℕ

-- What the path given to `OpenModel` is: a file; a directory with an index, whose weight map gives
-- the files in the map's order if it decodes; or a directory without, with its entries and whether
-- each is a directory, if they can be read.
pub data Source : Type 0 where
  single : Source
  indexed : Option (List String) → Source
  listed : Option (List (String × Bool)) → Source

member : String → List String → Bool
member x [] = false
member x (y ∷ ys) = if x == y then true else member x ys

-- The loop over the weight map, with the files seen so far.
shards_of : (String → String) → List String → List String → List String
unfolding member
shards_of join seen [] = []
shards_of join seen (file ∷ files) =
    let old = member file seen in
    let rest = shards_of join (if old then seen else file ∷ seen) files in
    if old then rest else join file ∷ rest

-- The loop over the entries of a directory.
listed_files : (String → String) → List (String × Bool) → List String
listed_files join [] = []
listed_files join ((name, is_dir) ∷ entries) =
    let rest = listed_files join entries in
    if not is_dir && ends_with name ".safetensors" then join name ∷ rest else rest

-- The paths that `OpenModel` opens; `none` is a path that `Stat` fails on.
pub paths_of :
    (String → String) → (List String → List String) → String → Option Source → Result (List String)
unfolding shards_of listed_files
paths_of join sort path none = err no_file
paths_of join sort path (some single) = ok (path ∷ [])
paths_of join sort path (some (indexed none)) = err bad_json
paths_of join sort path (some (indexed (some files))) = ok (sort (shards_of join [] files))
paths_of join sort path (some (listed none)) = err no_file
paths_of join sort path (some (listed (some entries))) = ok (sort (listed_files join entries))

-- `Open`: `none` is a file that can not be opened, and `some r` one that `parse` makes `r` of.
pub open_file : (String → Option (Result (List Tensor))) → String → Act Files Shard
open_file disk path s = elim (disk path) [
  | none ↦ (s, err no_file)
  | some r ↦
      let s' : Files = record s { opened = s.opened + 1 } in
      elim r [
        | ok ts ↦ (s', ok (record { path = path; tensors = ts }))
        | err e ↦ (record s' { closed = s'.closed + 1 }, err (in_file path e))
        | panic ↦ (s', panic)
      ]
]

-- `Model.Close`
unfoldable pub close_model : Model → Files → Files
close_model m s = record s { closed = s.closed + length m.files }

unfoldable pub lookup : String → List (String × Shard) → Option Shard
lookup k [] = none
lookup k ((j, f) ∷ names) = if j == k then some f else lookup k names

-- The loop over the tensors of a file that was opened.
pub add_names : Shard → List Tensor → List (String × Shard) → Result (List (String × Shard))
unfolding lookup
add_names f [] names = ok names
add_names f (t ∷ ts) names =
    let rest = add_names f ts (names ++ (t.name, f) ∷ []) in
    elim (lookup t.name names) [
      | some prev ↦ err (duplicate_tensor t.name prev.path f.path)
      | none ↦ rest
    ]

-- The loop over the paths.
pub open_shards : (String → Option (Result (List Tensor))) → Model → List String → Act Files Model
unfolding open_file close_model add_names
open_shards disk m [] s = (s, ok m)
open_shards disk m (path ∷ paths) s =
    let (s', r) = open_file disk path s in
    elim r [
      | err e ↦ (close_model m s', err e)
      | panic ↦ (s', panic)
      | ok f ↦
          let files = m.files ++ f ∷ [] in
          elim (add_names f f.tensors m.by_name) [
            | ok names ↦ open_shards disk (record { files = files; by_name = names }) paths s'
            | err e ↦ (close_model (record m { files = files }) s', err e)
            | panic ↦ (s', panic)
          ]
    ]

-- `OpenModel`, for the paths that it found.
pub open_model :
    (String → Option (Result (List Tensor))) → String → Result (List String) → Act Files Model
unfolding open_shards
open_model disk path (ok []) s = (s, err (no_files path))
open_model disk path (ok (p ∷ paths)) s =
    open_shards disk (record { files = []; by_name = [] }) (p ∷ paths) s
open_model disk path (err e) s = (s, err e)
open_model disk path panic s = (s, panic)

-- `Model.Tensor`
unfoldable pub find_in_model : Model → String → Option Tensor
unfolding lookup
find_in_model m name = elim (lookup name m.by_name) [
  | none ↦ none
  | some f ↦ find_tensor f.tensors name
]

-- The tensors of all files, before the sort.
pub all_tensors : (List Tensor → List Tensor) → List Shard → List Tensor
all_tensors sort [] = []
all_tensors sort (f ∷ files) = sort f.tensors ++ all_tensors sort files

-- `Model.Tensors`; `sort` is `sort.Slice` by name.
pub model_tensors : (List Tensor → List Tensor) → Model → List Tensor
unfolding all_tensors
model_tensors sort m = sort (all_tensors sort m.files)

-- `Model.ReadTensor`: the file, the offset and the length of the read.
unfoldable pub read_in_model : Model → String → Result (String × ℕ × ℕ)
unfolding lookup
read_in_model m name = elim (lookup name m.by_name) [
  | none ↦ err (no_tensor name)
  | some f ↦ elim (read_tensor f.tensors name) [
    | ok (offset, len) ↦ ok (f.path, offset, len)
    | err e ↦ err e
    | panic ↦ panic
  ]
]
