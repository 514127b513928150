-- ===== src/Loader/Shards/Closing.antt =====
-- `OpenModel` keeps no file open that its caller can not close.
use Prim.Native.String.{String}
use kllm.Base.{
  ◌+◌, ◌≡◌, refl, List, [], ◌∷◌, ◌++◌, Option, length, length-append, Result, ok, err, panic, arith,
  option_cases, result_cases,
}
use kllm.Loader.{Tensor}
use kllm.Loader.Shards.{
  Shard, Model, Files, open_file, close_model, add_names, open_shards, open_model,
}

-- The files that are open are those of the model, and none after an error.
abbrev pub IsBalanced : Files × Result Model → Type 0
IsBalanced (s, ok m) = s.opened ≡ s.closed + length m.files
IsBalanced (s, err e) = s.opened ≡ s.closed
IsBalanced (s, panic) = Unit

-- What `Open` leaves: one more file that is open, or none.
abbrev IsOpened : Files → Files × Result Shard → Type 0
IsOpened s (s', ok f) = (s'.opened ≡ s.opened + 1) × (s'.closed ≡ s.closed)
IsOpened s (s', err e) = s'.opened + s.closed ≡ s'.closed + s.opened
IsOpened s (s', panic) = Unit

open_file-IsOpened :
    (disk : String → Option (Result (List Tensor))) (path : String) (s : Files)
    → IsOpened s (open_file disk path s)
unfolding open_file
open_file-IsOpened disk path s =
    option_cases (IsOpened s) (disk path) _ _ (λ _. omega arith)
      (λ r _.
        result_cases (IsOpened s) r _ _ _ (λ ts _. (refl, refl)) (λ e _. omega arith) (λ _. tt))

-- One step of the loop, with the rest of the loop given.
open_shards-step :
    (m : Model) (s : Files) (next : Shard → List (String × Shard) → Files → Files × Result Model)
    (r : Files × Result Shard)
    → s.opened ≡ s.closed + length m.files
    → ((f : Shard) (names : List (String × Shard)) (s' : Files)
        → s'.opened ≡ s'.closed + length (m.files ++ f ∷ [])
        → IsBalanced (next f names s'))
    → IsOpened s r
    → IsBalanced (elim r.1 [
      | err e ↦ (close_model m r.0, err e)
      | panic ↦ (r.0, panic)
      | ok f ↦ elim (add_names f f.tensors m.by_name) [
        | ok names ↦ next f names r.0
        | err e ↦ (close_model (record m { files = m.files ++ f ∷ [] }) r.0, err e)
        | panic ↦ (r.0, panic)
      ]
    ])
unfolding close_model
open_shards-step m s next (s', err e) h rest k = omega arith
open_shards-step m s next (s', panic) h rest k = tt
open_shards-step m s next (s', ok f) h rest (opened, closed) =
    let one_more = length-append {0} m.files (f ∷ []) in
    result_cases IsBalanced (add_names f f.tensors m.by_name) _ _ _
      (λ names _. rest f names s' (omega arith)) (λ e _. omega arith) (λ _. tt)

open_shards-IsBalanced :
    (disk : String → Option (Result (List Tensor))) (m : Model) (paths : List String) (s : Files)
    → s.opened ≡ s.closed + length m.files
    → IsBalanced (open_shards disk m paths s)
unfolding open_shards
open_shards-IsBalanced disk m [] s h = h
open_shards-IsBalanced disk m (path ∷ paths) s h =
    open_shards-step m s
      (λ f names s'.
        open_shards disk (record { files = m.files ++ f ∷ []; by_name = names }) paths s')
      (open_file disk path s) h
      (λ f names s' h'.
        open_shards-IsBalanced disk (record { files = m.files ++ f ∷ []; by_name = names }) paths s'
          h')
      (open_file-IsOpened disk path s)

-- However many files there are and whatever fails, a file that can not be opened or parsed or a
-- tensor in two files: if as many files were closed as opened before, then after an error it is so
-- again, and after a success exactly the model's files are open, which `Close` closes.
pub open_model-IsBalanced :
    (disk : String → Option (Result (List Tensor))) (path : String) (paths : Result (List String))
    (s : Files)
    → s.opened ≡ s.closed
    → IsBalanced (open_model disk path paths s)
unfolding open_model
open_model-IsBalanced disk path (ok []) s h = h
open_model-IsBalanced disk path (ok (p ∷ paths)) s h =
    open_shards-IsBalanced disk (record { files = []; by_name = [] }) (p ∷ paths) s (omega arith)
open_model-IsBalanced disk path (err e) s h = h
open_model-IsBalanced disk path panic s h = tt
