-- ===== src/Bindings/Running.antt =====
-- The two bindings as the device of `IsRunning`, which the scheduler's properties ask for.
use Prim.Native.String.{String}
use kllm.Base.{
  ℕ, ◌≡◌, length, length-replicate, replicate, List, [], ◌∷◌, OnOk, ◌∙◌, subst, Result, panic, ◌≢◌,
}
use kllm.Base.Actions.{Act, ◌>>◌, pure, bind_cases}
use kllm.Backend.{Flat, flatten_batch}
use kllm.Backend.Forward.{check_batch_iff}
use kllm.Handle.{device_of}
use kllm.Bindings.{CLib, first_of, low32}
use kllm.Bindings.Cgo.{cgo, check, call_into}
use kllm.Bindings.Windows.{windows}
use kllm.Bindings.Same.{bindings_agree}
use kllm.Bindings.Faults.{cgo_sound}
use kllm.Scheduler.Faults.Histories.{IsRunning}

first_of-filled :
    {S A B : Type 0} (P : B → Type 0) (xs : List A) (m : Act S B) (s : S)
    → OnOk P (m s).1
    → OnOk P ((first_of xs >> m) s).1
first_of-filled P [] m s h = tt
first_of-filled P (x ∷ xs) m s h = h

module _ {V F C : Type 0} (c : CLib V F C)
    (fills : (k : ℕ) (f : Flat) (out : List V) (s : c.State)
      → length (c.forward_batch k f out s).2 ≡ length out) where
  call_into-filled :
      {A : Type 0} (P : A → Type 0) (name : String) (f : c.State → c.State × ℕ × A) (s : c.State)
      → P (f s).2
      → OnOk P (call_into c name f s).1
  unfolding call_into
  call_into-filled {A} P name f s h =
      bind_cases (λ (r : c.State × Result A). OnOk P r.1) (check c name (low32 (f s).1))
        (λ _. pure (f s).2) (f s).0 (λ _ _. h) (λ _ _. tt) (λ _. tt)

  -- The C library keeps the length of the buffer that it is given.
  pub cgo-IsRunning : IsRunning (device_of (cgo c))
  unfolding cgo
  cgo-IsRunning = record {
    fills = λ s seqs n.
        let P = λ (buffer : List V). length buffer ≡ n in
        let f = flatten_batch seqs in
        let out : List V = replicate n c.zero_v in
        let run : Act c.State (List V) =
          call_into c "te_forward_batch" (c.forward_batch (length seqs) f out) in
        let with_out : Act c.State (List V) = first_of out >> run in
        let with_tables : Act c.State (List V) = first_of f.tables >> with_out in
        let with_pos : Act c.State (List V) = first_of f.pos >> with_tables in
        let with_counts : Act c.State (List V) = first_of f.n_tokens >> with_pos in
        first_of-filled P f.tokens with_counts s (
          first_of-filled P f.n_tokens with_pos s (
            first_of-filled P f.pos with_tables s (
              first_of-filled P f.tables with_out s (
                first_of-filled P out run s (
                  call_into-filled P "te_forward_batch" (c.forward_batch (length seqs) f out) s
                    (fills (length seqs) f out s ∙ length-replicate n c.zero_v))))));
    runs = λ s seqs n guarded blocks some_n few.
        let k = (check_batch_iff seqs).0 guarded in cgo_sound c seqs n s k.2 blocks k.0 some_n;
  }

  pub windows-IsRunning :
      (release : Act c.State (Unit {0})) → IsRunning (device_of (windows c release))
  windows-IsRunning release = record {
    fills = λ s seqs n.
        subst (λ (r : c.State × Result (List V)). OnOk (λ (b : List V). length b ≡ n) r.1)
          ((bindings_agree c release s).forward_batch seqs n) (cgo-IsRunning.fills s seqs n);
    runs = λ s seqs n guarded blocks some_n few.
        subst (λ (r : c.State × Result (List V)). r.1 ≢ panic)
          ((bindings_agree c release s).forward_batch seqs n)
          (cgo-IsRunning.runs s seqs n guarded blocks some_n few);
  }
