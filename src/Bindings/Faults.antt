-- ===== src/Bindings/Faults.antt =====
-- When a forward pass through a binding can not panic.
use Prim.Native.String.{String}
use kllm.Base.{
  ◌≤◌, ℕ, ◌*◌, ◌<◌, ◌≡◌, ◌≢◌, subst, List, [], ◌∷◌, ◌++◌, arith, length, length-append, length-map,
  length-replicate, replicate, ◌-◌, All, Result, ok, panic, ◌==◌, if_cases,
}
use kllm.Base.Actions.{Act, ◌>>◌, pure, bind_cases}
use kllm.Backend.{
  max_batch_seqs, make_limit, minus_one, SeqForward, flatten_batch, check_batch, forward_batch,
}
use kllm.Backend.Flatten.{all_tokens, widest, padded, flatten_batch_lem}
use kllm.Backend.Forward.{HasTokens, check_batch_iff, forward_batch_of_device}
use kllm.Handle.{device_of}
use kllm.Bindings.{CLib, first_of, low32}
use kllm.Bindings.Cgo.{cgo, check, call_into}
use kllm.Bindings.Windows.{windows}
use kllm.Bindings.Same.{bindings_agree}

-- The sequence has a block; a successful `Reserve` gives it one.
abbrev pub HasBlock : SeqForward → Type 0
HasBlock s = 0 < length s.block_table

first_of-then :
    {S A B : Type 0} (xs : List A) (m : Act S B) (s : S)
    → 0 < length xs
    → (m s).1 ≢ panic
    → ((first_of xs >> m) s).1 ≢ panic
first_of-then [] m s some_x h = absurd (omega arith)
first_of-then (x ∷ xs) m s some_x h = h

pub tables-length :
    (width : ℕ) (seqs : List SeqForward)
    → All HasBlock seqs
    → 0 < length seqs
    → 0 < length (padded width seqs)
tables-length width [] h some_seq = absurd (omega arith)
tables-length width (s ∷ seqs) h some_seq = omega (
  arith,
  length-append {0} (s.block_table ++ replicate (width - length s.block_table) minus_one)
      (padded width seqs),
  length-append {0} s.block_table (replicate (width - length s.block_table) minus_one),
)

pub tokens-length :
    (seqs : List SeqForward) → All HasTokens seqs → 0 < length seqs → 0 < length (all_tokens seqs)
tokens-length [] h some_seq = absurd (omega arith)
tokens-length (s ∷ seqs) h some_seq = omega (arith, length-append {0} s.tokens (all_tokens seqs))

product_positive : (m n : ℕ) → 0 < m → 0 < n → 0 < m * n
product_positive m n h k = grind arith

module _ {V F C : Type 0} (c : CLib V F C) where
  check_sound : (name : String) (code : ℕ) (s : c.State) → (check c name code s).1 ≢ panic
  unfolding check
  check_sound name code s =
      if_cases (λ (r : c.State × Result (Unit {0})). r.1 ≢ panic) (code == 0) _ _ (λ _ e. cc)
        (λ _ e. cc)

  call_into_sound :
      {A : Type 0} (name : String) (f : c.State → c.State × ℕ × A) (s : c.State)
      → (call_into c name f s).1 ≢ panic
  unfolding call_into
  call_into_sound {A} name f s =
      bind_cases (λ (r : c.State × Result A). r.1 ≢ panic) (check c name (low32 (f s).1))
        (λ _. pure (f s).2) (f s).0 (λ _ _ e. cc e) (λ _ _ e. cc e)
        (λ faulted. absurd (check_sound name (low32 (f s).1) (f s).0 faulted))

  pub cgo_sound :
      (seqs : List SeqForward) (n : ℕ) (s : c.State)
      → All HasTokens seqs
      → All HasBlock seqs
      → 0 < length seqs
      → 0 < n
      → ((cgo c).forward_batch seqs n s).1 ≢ panic
  unfolding cgo
  cgo_sound seqs n s filled blocks some_seq some_n =
      let e = flatten_batch_lem seqs in
      let f = flatten_batch seqs in
      let out : List V = replicate n c.zero_v in
      let run : Act c.State (List V) =
        call_into c "te_forward_batch" (c.forward_batch (length seqs) f out) in
      let with_out : Act c.State (List V) = first_of out >> run in
      let with_tables : Act c.State (List V) = first_of f.tables >> with_out in
      let with_pos : Act c.State (List V) = first_of f.pos >> with_tables in
      let with_counts : Act c.State (List V) = first_of f.n_tokens >> with_pos in
      first_of-then f.tokens with_counts s (rw e (tokens-length seqs filled some_seq)) (
        first_of-then f.n_tokens with_pos s (rw (e, length-map) some_seq) (
          first_of-then f.pos with_tables s (rw (e, length-map) some_seq) (
            first_of-then f.tables with_out s
              (rw e (tables-length (widest seqs) seqs blocks some_seq))
              (first_of-then out run s (rw length-replicate some_n)
                (call_into_sound "te_forward_batch" (c.forward_batch (length seqs) f out) s)))))

-- Through either binding, `ForwardBatch` on a model with a vocabulary, of which 128 rows of logits
-- fit a buffer that Go can make, never panics if each sequence has a block: whatever the guards say
-- and whatever the C library returns.
pub forward_batch_sound :
    {V F C : Type 0} (c : CLib V F C) (release : Act c.State (Unit {0})) (vocab : ℕ) (s : c.State)
    (seqs : List SeqForward)
    → 0 < vocab
    → max_batch_seqs * vocab ≤ make_limit
    → All HasBlock seqs
    → ((forward_batch (device_of (cgo c)) vocab s seqs).1 ≢ panic)
      × ((forward_batch (device_of (windows c release)) vocab s seqs).1 ≢ panic)
forward_batch_sound c release vocab s seqs some_vocab few blocks =
    let runs = λ (guarded : check_batch seqs ≡ ok tt).
      let k = (check_batch_iff seqs).0 guarded in
      cgo_sound c seqs (length seqs * vocab) s k.2 blocks k.0
        (product_positive (length seqs) vocab k.0 some_vocab) in
    (
      forward_batch_of_device (device_of (cgo c)) vocab s seqs runs,
      forward_batch_of_device (device_of (windows c release)) vocab s seqs (λ guarded.
          subst (λ (r : c.State × Result (List _)). r.1 ≢ panic)
            ((bindings_agree c release s).forward_batch seqs (length seqs * vocab)) (runs guarded)),
    )
