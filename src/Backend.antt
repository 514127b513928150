-- ===== src/Backend.antt =====
-- engine/backend/backend.go: the batch descriptors that cross the C boundary, and the checks of
-- `Handle.ForwardBatch`. The C library behind the boundary is a parameter: `forward` stands for
-- `impl.forwardBatch`, on the state of the device.
pub mod Rows
pub mod Flatten
pub mod Forward
pub mod Paged
mod Examples
use kllm.Base.{
  ℕ, zero, suc, ◌+◌, ◌*◌, ◌-◌, ◌^◌, List, [], ◌∷◌, ◌++◌, Bool, true, false, ◌||◌, length, take,
  drop, replicate, ltb, ◌==◌, if◌then◌else◌, to_int32, int32_mod, Result, ok, err, panic, ◌>>=◌,
  ◌>>◌, bad_batch, no_tokens,
}

-- Token ids and block ids are `int32` bit patterns.
pub record SeqForward : Type 0 where
  pub tokens : List ℕ
  pub pos : ℕ
  pub block_table : List ℕ

abbrev pub max_batch_seqs : ℕ
max_batch_seqs = 128

-- The most `float32`s that Go's `make` gives: it panics on a slice of more than 2^48 bytes.
abbrev pub make_limit : ℕ
make_limit = 2 ^ 46

-- The C-ABI's parallel arrays, and the width of a row of `tables`.
pub record Flat : Type 0 where
  pub tokens : List ℕ
  pub n_tokens : List ℕ
  pub pos : List ℕ
  pub tables : List ℕ
  pub mbps : ℕ

-- `int32(-1)`
abbrev pub minus_one : ℕ
minus_one = int32_mod - 1

-- Go's `copy`, which stops at the shorter of its two slices.
copy : List ℕ → List ℕ → List ℕ
copy [] src = []
copy (d ∷ dst) [] = d ∷ dst
copy (d ∷ dst) (s ∷ src) = s ∷ copy dst src

-- `copy(dst[at:], src)`
copy_at : ℕ → List ℕ → List ℕ → List ℕ
unfolding copy
copy_at at src dst = take at dst ++ copy (drop at dst) src

-- The first loop of `flattenBatch`.
gather : Flat → List SeqForward → Flat
gather f [] = f
gather f (s ∷ seqs) =
    gather
      (record f {
        tokens = f.tokens ++ s.tokens;
        n_tokens = f.n_tokens ++ to_int32 (length s.tokens) ∷ [];
        pos = f.pos ++ to_int32 s.pos ∷ [];
        mbps = if ltb f.mbps (length s.block_table) then length s.block_table else f.mbps;
      })
      seqs

-- The last loop of `flattenBatch`, from row `i`.
fill_tables : ℕ → ℕ → List SeqForward → List ℕ → List ℕ
unfolding copy_at
fill_tables i mbps [] tables = tables
fill_tables i mbps (s ∷ seqs) tables =
    fill_tables (i + 1) mbps seqs (copy_at (i * mbps) s.block_table tables)

unfoldable pub flatten_batch : List SeqForward → Flat
unfolding gather fill_tables
flatten_batch seqs =
    let f = gather (record { tokens = []; n_tokens = []; pos = []; tables = []; mbps = 0 }) seqs in
    record f { tables = fill_tables 0 f.mbps seqs (replicate (length seqs * f.mbps) minus_one) }

-- The loop of `ForwardBatch` that refuses a sequence with no tokens.
check_tokens : ℕ → List SeqForward → Result (Unit {0})
check_tokens i [] = ok tt
check_tokens i (s ∷ seqs) =
    if length s.tokens == 0 then err (no_tokens i) else check_tokens (i + 1) seqs

-- `out[i] = flat[i*vocab : (i+1)*vocab]`, from row `i`, with the rows that are left.
pub rows {ℓ} : {V : Type ℓ} → ℕ → ℕ → ℕ → List V → List (List V)
rows zero i vocab flat = []
rows (suc left) i vocab flat = take vocab (drop (i * vocab) flat) ∷ rows left (i + 1) vocab flat

-- The guards of `ForwardBatch`.
unfoldable pub check_batch : List SeqForward → Result (Unit {0})
unfolding check_tokens
check_batch seqs =
    if length seqs == 0 || ltb max_batch_seqs (length seqs)
    then err (bad_batch (length seqs))
    else check_tokens 0 seqs

-- What the C library offers: its state, and one forward pass over a batch into a buffer of a
-- given length.
pub record Device (V : Type 0) : Type 1 where
  pub State : Type 0
  pub forward : State → List SeqForward → ℕ → State × Result (List V)

module _ {V : Type 0} (dev : Device V) where
  open dev use {State, forward}

  -- `Handle.ForwardBatch`, with the handle's vocabulary size. The buffer's length is the exact
  -- product, which is Go's up to `make_limit`; beyond it, where `len(seqs)*vocab` may wrap and `make`
  -- panics, the code is not modelled, and a theorem that excludes panics assumes that 128 rows stay
  -- within it.
  unfoldable pub forward_batch : ℕ → State → List SeqForward → State × Result (List (List V))
  unfolding rows
  forward_batch vocab st seqs = elim (check_batch seqs) [
    | err e ↦ (st, err e)
    | panic ↦ (st, panic)
    | ok _ ↦
        let (st', flat) = forward st seqs (length seqs * vocab) in
        (st', (do buffer ← flat; ok (rows (length seqs) 0 vocab buffer)))
  ]
