-- ===== src/Engine.antt =====
-- engine/engine.go: sizing, greedy sampling, one sequence's forward step and `Generate`. The
-- device and its logits are parameters (Backend.antt).
pub mod Sampling
pub mod Stepping
pub mod Exhausted
pub mod Generation
pub mod Greedy
mod Examples
use kllm.Base.{
  signed, bits, is_zero, quot, mul_int, ℕ, zero, suc, ◌+◌, ◌*◌, ◌/◌, List, [], ◌∷◌, ◌++◌, Bool,
  true, false, ◌&&◌, ◌||◌, Option, none, some, length, ltb, ◌==◌, if◌then◌else◌, to_int32,
  int32_mod, Result, ok, err, panic, ◌>>=◌, ℤ, pos, negsuc, Error,
}
use kllm.Kv.{Allocator, Sequence, new_sequence, reserve, commit, release}
use kllm.Backend.{SeqForward, Device, forward_batch}

-- `Options`, less the device number.
pub record Options : Type 0 where
  pub max_seq : ℤ
  pub block_size : ℤ
  pub num_blocks : ℤ

-- `Options.fill`: the three assignments in order. `4 * int(o.MaxSeq)` wraps round, and a negative
-- size is kept.
pub fill : Options → Options
fill o =
    let max_seq : ℤ = if is_zero o.max_seq then pos 256 else o.max_seq in
    let block_size : ℤ = if is_zero o.block_size then pos 16 else o.block_size in
    let num_blocks : ℤ =
      if is_zero o.num_blocks
      then signed (bits (quot (mul_int (pos 4) max_seq) block_size))
      else o.num_blocks in
    record { max_seq = max_seq; block_size = block_size; num_blocks = num_blocks }

-- What `Sequence.Step` leaves and returns.
pub record Stepped : Type 0 where
  pub alloc : Allocator
  pub seq : Sequence
  pub result : Result SeqForward

unfoldable pub step : Allocator → Sequence → List ℕ → Stepped
step a s tokens =
    let r = reserve a s (length tokens) in
    record {
      alloc = r.alloc;
      seq = r.seq;
      result = (do
        _ ← r.result
        ok (record { tokens = tokens; pos = r.seq.len; block_table = r.seq.table }));
    }

-- `EOSTokenID >= 0 && int64(tok) == EOSTokenID`. A token from 2 ^ 31 on is a negative `int32`.
unfoldable pub is_eos : ℤ → ℕ → Bool
is_eos (pos e) tok = ltb tok (int32_mod / 2) && tok == e
is_eos (negsuc _) tok = false

module _ {V : Type 0} (gt : V → V → Bool) where
  -- The loop of `Argmax` over `logits[1:]`; `i` is the loop's index.
  scan : ℕ → ℕ → V → List V → ℕ
  scan best i best_val [] = best
  scan best i best_val (v ∷ vs) =
      let better : Bool = gt v best_val in
      scan (if better then i + 1 else best) (i + 1) (if better then v else best_val) vs

  -- `none` is the panic on `logits[0]`.
  unfoldable pub argmax : List V → Option ℕ
  unfolding scan
  argmax [] = none
  argmax (v ∷ vs) = some (to_int32 (scan 0 0 v vs))

-- The state that one sequence runs on: the device, the allocator and the sequence.
pub record Session (D : Type 0) : Type 0 where
  pub device : D
  pub alloc : Allocator
  pub seq : Sequence

module _ {V : Type 0} (gt : V → V → Bool) (dev : Device V) (vocab : ℕ) where
  open dev use {State}

  -- The logits of the first row; a batch of one has one.
  first_row : Result (List (List V)) → Result (List V)
  first_row (ok []) = panic
  first_row (ok (row ∷ rows)) = ok row
  first_row (err e) = err e
  first_row panic = panic

  -- `Sequence.Forward` after `Step`: the batch of one, and the commit if it succeeds.
  run_alone : Session State → ℕ → SeqForward → Session State × Result (List V)
  unfolding first_row
  run_alone s n sf =
      let (device, out) = forward_batch dev vocab s.device (sf ∷ []) in
      elim out [
        | ok rows ↦ (record s { device = device; seq = commit s.seq n }, first_row (ok rows))
        | err e ↦ (record s { device = device }, err e)
        | panic ↦ (record s { device = device }, panic)
      ]

  -- `Sequence.Forward`
  unfoldable pub forward : Session State → List ℕ → Session State × Result (List V)
  unfolding run_alone
  forward s tokens =
      let t = step s.alloc s.seq tokens in
      let s' : Session State = record s { alloc = t.alloc; seq = t.seq } in
      elim t.result [
        | ok sf ↦ run_alone s' (length tokens) sf
        | err e ↦ (s', err e)
        | panic ↦ (s', panic)
      ]

  -- What `Generate` returns: the tokens so far, and the error if it stopped on one.
  pub record Generated : Type 0 where
    pub out : List ℕ
    pub result : Result (Unit {0})

  -- The loop of `Generate`, with the rounds that are left. The forward pass at the end of a round
  -- is made in the last round too.
  unfoldable pub decode : ℤ → ℕ → Session State → List V → List ℕ → Session State × Generated
  decode eos zero s logits out = (s, record { out = out; result = ok tt })
  decode eos (suc rounds) s logits out = elim (argmax gt logits) [
    | none ↦ (s, record { out = out; result = panic })
    | some next ↦
        let out' = out ++ next ∷ [] in
        let (s', r) = forward s (next ∷ []) in
        elim (is_eos eos next) [
          | true ↦ (s, record { out = out'; result = ok tt })
          | false ↦ elim r [
            | ok logits' ↦ decode eos rounds s' logits' out'
            | err e ↦ (s', record { out = out'; result = err e })
            | panic ↦ (s', record { out = out'; result = panic })
          ]
        ]
  ]

  -- The body of `Generate` before the deferred `Release`.
  generate_on : ℤ → Session State → List ℕ → ℕ → Session State × Generated
  unfolding decode
  generate_on eos s prompt max_new =
      let (s', r) = forward s prompt in
      elim r [
        | ok logits ↦ decode eos max_new s' logits []
        | err e ↦ (s', record { out = []; result = err e })
        | panic ↦ (s', record { out = []; result = panic })
      ]

  -- `Generate`: a new sequence, the decode, and the release of its blocks on every path.
  pub generate : ℤ → State → Allocator → List ℕ → ℕ → State × Allocator × Generated
  unfolding generate_on
  generate eos st a prompt max_new =
      let (s, g) =
        generate_on eos (record { device = st; alloc = a; seq = new_sequence }) prompt max_new in
      (s.device, (release s.alloc s.seq).0, g)
