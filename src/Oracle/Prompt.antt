-- ===== src/Oracle/Prompt.antt =====
-- engine/oracle/oracle.go: the subtest of `Run` for one prompt. A failed test is an error. The debug
-- calls of the backend and the dumps that `npy.ReadF32` reads are parameters.
pub mod Passing
use kllm.Base.{
  ℕ, zero, suc, ◌+◌, ◌*◌, ◌≤◌, List, [], ◌∷◌, Bool, true, false, none, some, length, take, drop,
  leb, ◌==◌, get_elem?, if◌then◌else◌, Result, ok, err, panic, layer_diverges, logits_diverge,
  wrong_token,
}
use kllm.Kv.{Allocator, new_sequence, release}
use kllm.Backend.{Device}
use kllm.Engine.{argmax, Session, forward}
use kllm.Oracle.{max_abs_diff}

-- `RefTokens`
pub record Reference : Type 0 where
  pub input_ids : List ℕ
  pub generated_ids : List ℕ

-- `DebugSet` and `DebugRead`.
pub record Debug (D V : Type 0) : Type 0 where
  pub set : D → Bool → D × Result (Unit {0})
  pub read : D → ℕ → D × Result (List V)

-- The arrays of one prompt, with their shapes.
pub record Dumps (V : Type 0) : Type 0 where
  pub layer : ℕ → Result (List ℕ × List V)
  pub logits : Result (List ℕ × List V)

-- `refLogits[step*vocab : (step+1)*vocab]`
unfoldable pub row : {V : Type 0} → ℕ → ℕ → List V → Result (List V)
row step vocab logits =
    if leb ((step + 1) * vocab) (length logits)
    then ok (take vocab (drop (step * vocab) logits))
    else panic

module _ {V F : Type 0} (gt : V → V → Bool) (dev : Device V) (vocab : ℕ) (debug : Debug dev.State V)
    (zero_f inf : F) (gap : V → V → F) (gt_f : F → F → Bool) (layer_tol logits_tol : F) where
  open dev use {State}

  -- The loop over the layers from `hf` on, with the rounds that are left. The last entry of the
  -- reference is the output of the final norm.
  pub check_layers : Dumps V → ℕ → ℕ → ℕ → State → State × Result (Unit {0})
  check_layers dumps layers zero hf st = (st, ok tt)
  check_layers dumps layers (suc left) hf st =
      let (st', got) = debug.read st (if hf == layers then layers + 1 else hf) in
      let rest = check_layers dumps layers left (hf + 1) st' in
      elim got [
        | err e ↦ (st', err e)
        | panic ↦ (st', panic)
        | ok activations ↦ elim (dumps.layer hf) [
          | err e ↦ (st', err e)
          | panic ↦ (st', panic)
          | ok want ↦
              if gt_f (max_abs_diff zero_f inf gap gt_f activations want.1) layer_tol
              then (st', err (layer_diverges hf))
              else rest
        ]
      ]

  -- The pass between two steps, and `k`, the steps after it; there is none after the last step.
  pass_then :
      List ℕ
      → Session State × Result (List V)
      → Session State
      → (Session State → List V → Session State × Result (Unit {0}))
      → Session State × Result (Unit {0})
  pass_then [] (s', r) s k = (s, ok tt)
  pass_then (_ ∷ _) (s', ok logits) s k = k s' logits
  pass_then (_ ∷ _) (s', err e) s k = (s', err e)
  pass_then (_ ∷ _) (s', panic) s k = (s', panic)

  -- The loop over the reference's tokens.
  unfoldable pub check_steps :
      ℕ → ℕ → List V → List ℕ → Session State → List V → Session State × Result (Unit {0})
  unfolding pass_then
  check_steps step width reference [] s logits = (s, ok tt)
  check_steps step width reference (want ∷ wanted) s logits =
      let rest : Session State → List V → Session State × Result (Unit {0}) =
        check_steps (step + 1) width reference wanted in
      elim (row step width reference) [
        | err e ↦ (s, err e)
        | panic ↦ (s, panic)
        | ok want_row ↦
            if gt_f (max_abs_diff zero_f inf gap gt_f logits want_row) logits_tol
            then (s, err (logits_diverge step))
            else elim (argmax gt logits) [
              | none ↦ (s, panic)
              | some tok ↦
                  if tok == want
                  then pass_then wanted (forward gt dev vocab s (tok ∷ [])) s rest
                  else (s, err (wrong_token step tok want))
            ]
      ]

  -- What follows the passes over the layers: `DebugSet(false)`, the reference's logits, the steps.
  check_tokens : Dumps V → Reference → Session State → List V → Session State × Result (Unit {0})
  check_tokens dumps ref s logits =
      let (st, off) = debug.set s.device false in
      let s' : Session State = record s { device = st } in
      elim off [
        | err e ↦ (s', err e)
        | panic ↦ (s', panic)
        | ok _ ↦ elim dumps.logits [
          | err e ↦ (s', err e)
          | panic ↦ (s', panic)
          | ok dump ↦ elim (get_elem? dump.0 1) [
            | none ↦ (s', panic)
            | some width ↦ check_steps 0 width dump.1 ref.generated_ids s' logits
          ]
        ]
      ]

  -- `seq.Forward(ref.InputIDs)`, the layers, and the rest.
  check_forward : Dumps V → ℕ → Reference → Session State → Session State × Result (Unit {0})
  unfolding check_tokens
  check_forward dumps layers ref s =
      let (s', r) = forward gt dev vocab s ref.input_ids in
      elim r [
        | err e ↦ (s', err e)
        | panic ↦ (s', panic)
        | ok logits ↦
            let (st, same) = check_layers dumps layers (layers + 1) 0 s'.device in
            let s'' : Session State = record s' { device = st } in
            elim same [
              | err e ↦ (s'', err e)
              | panic ↦ (s'', panic)
              | ok _ ↦ check_tokens dumps ref s'' logits
            ]
      ]

  -- The subtest, with the deferred `Release`.
  pub check_prompt :
      Dumps V → ℕ → Reference → State → Allocator → State × Allocator × Result (Unit {0})
  unfolding check_forward
  check_prompt dumps layers ref st a =
      let (st', on) = debug.set st true in
      let s : Session State = record { device = st'; alloc = a; seq = new_sequence } in
      let (end, out) : Session State × Result (Unit {0}) = elim on [
        | err e ↦ (s, err e)
        | panic ↦ (s, panic)
        | ok _ ↦ check_forward dumps layers ref s
      ] in
      (end.device, (release end.alloc end.seq).0, out)
