-- ===== src/Engine/Generation.antt =====
-- What `Generate` leaves behind and how much it returns.
use kllm.Base.{
  ℕ, zero, suc, ◌+◌, ◌≤◌, ◌≡◌, refl, ◌∙◌, List, [], ◌∷◌, ◌++◌, Bool, true, false, length,
  length-append, count, option_cases, result_cases, ℤ, Result, arith,
}
use kllm.Kv.{Allocator, Sequence, new_sequence, commit}
use kllm.Kv.Blocks.{count-reserve, count-release}
use kllm.Backend.{SeqForward, Device, forward_batch}
use kllm.Engine.{
  step, is_eos, argmax, Session, run_alone, forward, Generated, decode, generate_on, generate,
}

-- How often a block stands on the free list or in the session's table.
abbrev owners_in : {D : Type 0} → ℕ → Session D → ℕ
owners_in x s = count x s.alloc.free + count x s.seq.table

count-step :
    (x : ℕ) (a : Allocator) (s : Sequence) (tokens : List ℕ)
    → let t = step a s tokens in
      count x t.alloc.free + count x t.seq.table ≡ count x a.free + count x s.table
unfolding step
count-step x a s tokens = count-reserve x a s (length tokens)

eos_cases {ℓ κ} :
    {A : Type κ} (P : A → Type ℓ) (b : Bool) (x y : A)
    → P x
    → P y
    → P (elim b [ true ↦ x | false ↦ y ])
eos_cases P true x y f g = f
eos_cases P false x y f g = g

module _ {V : Type 0} (gt : V → V → Bool) (dev : Device V) (vocab : ℕ) where
  -- The outcome of a generation: the owners of block `x` as before, and at most `bound` tokens.
  record IsFair (x before bound : ℕ) (r : Session dev.State × Generated gt dev vocab) : Type 0 where
    owners : owners_in x r.0 ≡ before
    few : length r.1.out ≤ bound

  run_alone-owners :
      (x : ℕ) (s : Session dev.State) (n : ℕ) (sf : SeqForward)
      → owners_in x (run_alone gt dev vocab s n sf).0 ≡ owners_in x s
  unfolding run_alone commit
  run_alone-owners x s n sf =
      result_cases (λ (r : Session dev.State × Result (List V)). owners_in x r.0 ≡ owners_in x s)
        (forward_batch dev vocab s.device (sf ∷ [])).1 _ _ _ (λ rows _. refl) (λ e _. refl)
        (λ _. refl)

  forward-owners :
      (x : ℕ) (s : Session dev.State) (tokens : List ℕ)
      → owners_in x (forward gt dev vocab s tokens).0 ≡ owners_in x s
  unfolding forward
  forward-owners x s tokens =
      let t = step s.alloc s.seq tokens in
      let kept = count-step x s.alloc s.seq tokens in
      result_cases (λ (r : Session dev.State × Result (List V)). owners_in x r.0 ≡ owners_in x s)
        t.result _ _ _
        (λ sf _.
          run_alone-owners x (record s { alloc = t.alloc; seq = t.seq }) (length tokens) sf ∙ kept)
        (λ e _. kept) (λ _. kept)

  decode-IsFair :
      (x : ℕ) (eos : ℤ) (rounds : ℕ) (s : Session dev.State) (logits : List V) (out : List ℕ)
      → IsFair x (owners_in x s) (length out + rounds) (decode gt dev vocab eos rounds s logits out)
  unfolding decode
  decode-IsFair x eos zero s logits out = record { owners = refl; few = omega arith }
  decode-IsFair x eos (suc rounds) s logits out =
      option_cases (IsFair x (owners_in x s) (length out + suc rounds)) (argmax gt logits) _ _
        (λ _. record { owners = refl; few = omega arith })
        (λ token _.
          let longer = length-append out (token ∷ []) in
          let f = forward gt dev vocab s (token ∷ []) in
          let kept = forward-owners x s (token ∷ []) in
          eos_cases (IsFair x (owners_in x s) (length out + suc rounds)) (is_eos eos token) _ _
            (record { owners = refl; few = omega (arith, longer) })
            (result_cases (IsFair x (owners_in x s) (length out + suc rounds)) f.1 _ _ _
              (λ logits' _.
                let d = decode-IsFair x eos rounds f.0 logits' (out ++ token ∷ []) in
                record { owners = d.owners ∙ kept; few = omega (arith, d.few, longer) })
              (λ e _. record { owners = kept; few = omega (arith, longer) })
              (λ _. record { owners = kept; few = omega (arith, longer) })))

  generate_on-IsFair :
      (x : ℕ) (eos : ℤ) (s : Session dev.State) (prompt : List ℕ) (max_new : ℕ)
      → IsFair x (owners_in x s) max_new (generate_on gt dev vocab eos s prompt max_new)
  unfolding generate_on
  generate_on-IsFair x eos s prompt max_new =
      let f = forward gt dev vocab s prompt in
      let kept = forward-owners x s prompt in
      result_cases (IsFair x (owners_in x s) max_new) f.1 _ _ _
        (λ logits _.
          let d = decode-IsFair x eos max_new f.0 logits [] in
          record { owners = d.owners ∙ kept; few = omega (arith, d.few) })
        (λ e _. record { owners = kept; few = omega arith })
        (λ _. record { owners = kept; few = omega arith })

-- Whatever happens, an early end, an error of the device or a lack of blocks: `Generate` gives back
-- every block that it took, so that each stands on the free list as often as before, and returns at
-- most `maxNewTokens` tokens.
pub generate-count :
    {V : Type 0} (gt : V → V → Bool) (dev : Device V) (vocab x : ℕ) (eos : ℤ) (st : dev.State)
    (a : Allocator) (prompt : List ℕ) (max_new : ℕ)
    → let (_, a', g) = generate gt dev vocab eos st a prompt max_new in
      (count x a'.free ≡ count x a.free) × (length g.out ≤ max_new)
unfolding generate
generate-count gt dev vocab x eos st a prompt max_new =
    let s : Session dev.State = record { device = st; alloc = a; seq = new_sequence } in
    let f = generate_on-IsFair gt dev vocab x eos s prompt max_new in
    let end = (generate_on gt dev vocab eos s prompt max_new).0 in
    (omega (arith, f.owners, count-release x end.alloc end.seq), f.few)
