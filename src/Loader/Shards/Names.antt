-- ===== src/Loader/Shards/Names.antt =====
-- The names of a checkpoint of several files.
use Prim.Native.String.{String}
use text.Mathlib.Text.{◌==◌}
use text.Mathlib.TextEquality.{eq_iff}
use kllm.Base.{
  if_cases, OnOk-map, ℕ, ◌≡◌, refl, subst, List, [], ◌∷◌, ◌++◌, Option, none, some, All, All-map,
  All-append, All-get_elem?, get_elem?, Result, ok, err, panic, arith, option_cases, result_cases,
  OnOk,
}
use kllm.Loader.{Tensor, find_tensor, num_bytes, read_tensor}
use kllm.Loader.Shards.{
  Shard, Model, Files, open_file, lookup, add_names, open_shards, open_model, find_in_model,
  read_in_model,
}

-- A file that was found stays found when names are added at the end.
lookup-append :
    (k : String) (names more : List (String × Shard)) (g : Shard)
    → lookup k names ≡ some g
    → lookup k (names ++ more) ≡ some g
unfolding lookup
lookup-append k [] more g e = cc
lookup-append k ((j, f) ∷ names) more g e = ground (arith, lookup-append k names more g)

lookup-append_last :
    (k : String) (names : List (String × Shard)) (f : Shard)
    → lookup k names ≡ none
    → lookup k (names ++ (k, f) ∷ []) ≡ some f
unfolding lookup
lookup-append_last k [] f e = ground (arith, eq_iff k k)
lookup-append_last k ((j, g) ∷ names) f e = ground (arith, lookup-append_last k names f)

-- `names'` keeps what `names` finds, and finds every tensor of `ts` in `f`.
record IsAdded (f : Shard) (ts : List Tensor) (names names' : List (String × Shard)) : Type 0 where
  kept : (k : String) (g : Shard) → lookup k names ≡ some g → lookup k names' ≡ some g
  found : (k : String) (t : Tensor) → find_tensor ts k ≡ some t → lookup k names' ≡ some f

-- Once `t` is added to `names`, what is added for `ts` is added for `t ∷ ts`.
IsAdded-cons :
    (f : Shard) (t : Tensor) (ts : List Tensor) (names names' : List (String × Shard))
    → lookup t.name names ≡ none
    → IsAdded f ts (names ++ (t.name, f) ∷ []) names'
    → IsAdded f (t ∷ ts) names names'
unfolding find_tensor
IsAdded-cons f t ts names names' fresh h = record {
  kept = λ k g e. h.kept k g (lookup-append k names ((t.name, f) ∷ []) g e);
  found = λ k u.
      if_cases (λ o. o ≡ some u → lookup k names' ≡ some f) (t.name == k) (some t)
        (find_tensor ts k)
        (λ same _. h.kept k f (
          subst (λ j. lookup j (names ++ (t.name, f) ∷ []) ≡ some f) ((eq_iff t.name k).0 same)
            (lookup-append_last t.name names f fresh)))
        (λ _ e. h.found k u e);
}

add_names-IsAdded :
    (f : Shard) (ts : List Tensor) (names : List (String × Shard))
    → OnOk (IsAdded f ts names) (add_names f ts names)
unfolding add_names find_tensor
add_names-IsAdded f [] names = record { kept = λ k g e. e; found = λ k t e. cc }
add_names-IsAdded f (t ∷ ts) names =
    option_cases (OnOk (IsAdded f (t ∷ ts) names)) (lookup t.name names) _ _
      (λ fresh.
        OnOk-map (λ names'. IsAdded-cons f t ts names names' fresh)
          (add_names f ts (names ++ (t.name, f) ∷ []))
          (add_names-IsAdded f ts (names ++ (t.name, f) ∷ [])))
      (λ prev _. tt)

-- Every tensor of every file is found in that file.
abbrev Indexes : List (String × Shard) → Shard → Type 0
Indexes names f =
    (k : String) (t : Tensor) → find_tensor f.tensors k ≡ some t → lookup k names ≡ some f

abbrev pub IsIndexed : Model → Type 0
IsIndexed m = All (Indexes m.by_name) m.files

-- Adding a file's names indexes that file too.
IsIndexed-add :
    (m : Model) (f : Shard) (names : List (String × Shard))
    → IsIndexed m
    → IsAdded f f.tensors m.by_name names
    → IsIndexed (record { files = m.files ++ f ∷ []; by_name = names })
IsIndexed-add m f names h a =
    All-append (Indexes names) m.files (f ∷ [])
      (All-map (λ g k_found k t e. a.kept k g (k_found k t e)) m.files h) (a.found, tt)

open_shards-IsIndexed :
    (disk : String → Option (Result (List Tensor))) (m : Model) (paths : List String) (s : Files)
    → IsIndexed m
    → OnOk IsIndexed (open_shards disk m paths s).1
unfolding open_shards
open_shards-IsIndexed disk m [] s h = h
open_shards-IsIndexed disk m (path ∷ paths) s h =
    let r = open_file disk path s in
    result_cases (λ (r : Files × Result Model). OnOk IsIndexed r.1) r.1 _ _ _
      (λ f _.
        result_cases (λ (r : Files × Result Model). OnOk IsIndexed r.1)
          (add_names f f.tensors m.by_name) _ _ _
          (λ names e.
            open_shards-IsIndexed disk (record { files = m.files ++ f ∷ []; by_name = names }) paths
              r.0
              (IsIndexed-add m f names h (
                subst (OnOk (IsAdded f f.tensors m.by_name)) e
                  (add_names-IsAdded f f.tensors m.by_name))))
          (λ e _. tt) (λ _. tt))
      (λ e _. tt) (λ _. tt)

-- In a checkpoint that `OpenModel` opens, a tensor of any of its files is found under its name in the
-- whole and read from that file at its own offset and length, whatever files come before and after.
pub open_model-finds :
    (disk : String → Option (Result (List Tensor))) (path : String) (paths : Result (List String))
    (s : Files) (m : Model) (i : ℕ) (f : Shard) (name : String) (t : Tensor)
    → (open_model disk path paths s).1 ≡ ok m
    → get_elem? m.files i ≡ some f
    → find_tensor f.tensors name ≡ some t
    → (find_in_model m name ≡ some t) × (read_in_model m name ≡ ok (f.path, t.first, num_bytes t))
unfolding open_model find_in_model read_in_model read_tensor
open_model-finds disk path (ok []) s m i f name t opened here e = cc
open_model-finds disk path (err _) s m i f name t opened here e = cc
open_model-finds disk path panic s m i f name t opened here e = cc
open_model-finds disk path (ok (p ∷ paths)) s m i f name t opened here e =
    let start : Model = record { files = []; by_name = [] } in
    let indexed : IsIndexed m =
      subst (OnOk IsIndexed) opened (open_shards-IsIndexed disk start (p ∷ paths) s tt) in
    let found : lookup name m.by_name ≡ some f =
      All-get_elem? (Indexes m.by_name) m.files i f indexed here name t e in
    (rw (find_in_model, found) e, rw (read_in_model, found, read_tensor, e) refl)

-- A read asks for as many bytes as the tensor that is found has.
pub read_in_model_size :
    (m : Model) (name : String) (t : Tensor)
    → find_in_model m name ≡ some t
    → OnOk (λ (r : String × ℕ × ℕ). r.2 ≡ num_bytes t) (read_in_model m name)
unfolding find_in_model read_in_model read_tensor
read_in_model_size m name t h =
    option_cases (OnOk (λ (r : String × ℕ × ℕ). r.2 ≡ num_bytes t)) (lookup name m.by_name) _ _
      (λ _. tt)
      (λ f here.
        let found : find_tensor f.tensors name ≡ some t =
          subst
            (λ (o : Option Shard).
              elim o [ none ↦ none | some f ↦ find_tensor f.tensors name ] ≡ some t)
            here h in
        rw found refl)
