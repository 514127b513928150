-- ===== src/Bindings/Answering.antt =====
-- The cgo binding as the device of `IsAnswering`, which `Generate`'s properties ask for.
use Prim.Native.String.{String}
use kllm.Base.{
  ℕ, zero, suc, ◌*◌, ◌≤◌, ◌<◌, ◌≡◌, refl, ap, ◌∙◌, List, [], ◌∷◌, arith, length, length-map,
  length-replicate, replicate, sym, subst, ok,
}
use kllm.Base.Actions.{Act, ◌>>◌}
use kllm.Backend.{SeqForward, flatten_batch}
use kllm.Backend.Flatten.{widest, flatten_batch_lem}
use kllm.Handle.{device_of}
use kllm.Bindings.{CLib, first_of, low32}
use kllm.Bindings.Cgo.{cgo, check, call_into}
use kllm.Bindings.Faults.{tables-length, tokens-length}
use kllm.Engine.Greedy.Feeding.{IsTaken, IsAnswering}

first_of-some :
    {S A B : Type 0} (xs : List A) (m : Act S B) (s : S)
    → 0 < length xs
    → (first_of xs >> m) s ≡ m s
first_of-some [] m s h = absurd (omega arith)
first_of-some (x ∷ xs) m s h = refl

some_block : (n size m : ℕ) → 0 < m → m ≤ n * size → 0 < n
some_block zero size m some_m few = absurd (omega (arith, some_m, few))
some_block (suc n) size m some_m few = omega arith

-- A C library that, once it is ready, accepts each batch of one sequence that `IsTaken` describes.
pub record IsAccepting {V F C : Type 0} (c : CLib V F C) (vocab max_seq cache block_size : ℕ)
    : Type 1 where
  pub Ready : c.State → Type 0
  pub accepts :
      (st : c.State) (sf : SeqForward)
      → Ready st
      → IsTaken max_seq cache block_size sf
      → let (st', code, _) =
          c.forward_batch 1 (flatten_batch (sf ∷ [])) (replicate (1 * vocab) c.zero_v) st in
        (low32 code ≡ 0) × Ready st'

module _ {V F C : Type 0} (c : CLib V F C) where
  call_into-accepted :
      {A : Type 0} (name : String) (f : c.State → c.State × ℕ × A) (s : c.State)
      → low32 (f s).1 ≡ 0
      → call_into c name f s ≡ ((f s).0, ok (f s).2)
  unfolding call_into check
  call_into-accepted name f s e = rw e refl

  passes :
      (sf : SeqForward) (n : ℕ) (st : c.State)
      → 0 < length sf.tokens
      → 0 < length sf.block_table
      → 0 < n
      → (cgo c).forward_batch (sf ∷ []) n st
        ≡ call_into c "te_forward_batch"
            (c.forward_batch 1 (flatten_batch (sf ∷ [])) (replicate n c.zero_v))
            st
  unfolding cgo
  passes sf n st some_token some_block some_n =
      let e = flatten_batch_lem (sf ∷ []) in
      let f = flatten_batch (sf ∷ []) in
      let out : List V = replicate n c.zero_v in
      let run : Act c.State (List V) = call_into c "te_forward_batch" (c.forward_batch 1 f out) in
      let with_out : Act c.State (List V) = first_of out >> run in
      let with_tables : Act c.State (List V) = first_of f.tables >> with_out in
      let with_pos : Act c.State (List V) = first_of f.pos >> with_tables in
      let with_counts : Act c.State (List V) = first_of f.n_tokens >> with_pos in
      first_of-some f.tokens with_counts st
        (rw e (tokens-length (sf ∷ []) (some_token, tt) (omega arith)))
      ∙ first_of-some f.n_tokens with_pos st (rw (e, length-map) (omega arith))
      ∙ first_of-some f.pos with_tables st (rw (e, length-map) (omega arith))
      ∙ first_of-some f.tables with_out st
          (rw e (tables-length (widest (sf ∷ [])) (sf ∷ []) (some_block, tt) (omega arith)))
      ∙ first_of-some out run st (rw length-replicate some_n)

  pub cgo-IsAnswering :
      {vocab max_seq cache block_size : ℕ}
      → 0 < vocab
      → IsAccepting c vocab max_seq cache block_size
      → IsAnswering (device_of (cgo c)) vocab max_seq cache block_size
  cgo-IsAnswering {vocab} {max_seq} {cache} {block_size} some_vocab accepting = record {
    Ready = accepting.Ready;
    answers_one =
        λ st sf ready taken. let e = ran st sf ready taken in (_, ap (λ (r : c.State × _). r.1) e);
    stays = λ st sf ready taken.
        subst accepting.Ready (sym (ap (λ (r : c.State × _). r.0) (ran st sf ready taken)))
          (accepting.accepts st sf ready taken).1;
  }
    where
      ran :
          (st : c.State) (sf : SeqForward)
          → accepting.Ready st
          → IsTaken max_seq cache block_size sf
          → let (st', _, buffer) =
              c.forward_batch 1 (flatten_batch (sf ∷ [])) (replicate (1 * vocab) c.zero_v) st in
            (cgo c).forward_batch (sf ∷ []) (1 * vocab) st ≡ (st', ok buffer)
      ran st sf ready taken =
          passes sf (1 * vocab) st taken.some_token
            (some_block (length sf.block_table) block_size _ (omega (arith, taken.some_token))
              taken.covered)
            (omega arith)
          ∙ call_into-accepted "te_forward_batch" _ st (accepting.accepts st sf ready taken).0
