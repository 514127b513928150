-- ===== src/Engine/Greedy/Generating.antt =====
-- `Generate` over a device with a paged cache, where there are enough blocks.
use kllm.Base.{
  ℕ, zero, suc, ◌+◌, ◌*◌, ◌≤◌, ◌<◌, ◌≡◌, ◌≢◌, refl, sym, ap, ◌∙◌, List, [], ◌∷◌, ◌++◌, Bool, true,
  false, none, some, arith, length, length-append, count, option_cases, result_cases, ℤ, err, panic,
  ltb, ok, if◌then◌else◌,
}
use mathlib.Core.List.{append-nil, append_assoc}
use kllm.Kv.{Allocator, new_sequence}
use kllm.Backend.{Device}
use kllm.Engine.{argmax, is_eos, Session, forward, Generated, decode, generate_on, generate}
use kllm.Engine.Greedy.{greedy, greedy-some}
use kllm.Engine.Greedy.Feeding.{Alone, IsAt, forward-IsAt}

argmax-some :
    {V : Type 0} (gt : V → V → Bool) (row : List V) → 0 < length row → argmax gt row ≢ none
unfolding argmax
argmax-some gt [] h e = omega arith
argmax-some gt (v ∷ row) h e = cc e

end_cases {ℓ κ} :
    {A : Type κ} (P : A → Type ℓ) (b : Bool) (x y : A)
    → (b ≡ true → P x)
    → (b ≡ false → P y)
    → P (elim b [ true ↦ x | false ↦ y ])
end_cases P true x y f g = f refl
end_cases P false x y f g = g refl

module _ {V : Type 0} (gt : V → V → Bool) (dev : Device V) (vocab : ℕ) (eos : ℤ)
    {max_seq cache num_blocks block_size : ℕ} {model : List ℕ → List V}
    (alone : Alone dev vocab max_seq cache num_blocks block_size model)
    (some_vocab : 0 < vocab) where
  -- A decode that ends without an error, with these tokens.
  abbrev IsDecoded : List ℕ → Session dev.State × Generated gt dev vocab → Type 0
  IsDecoded out (s, g) = (g.out ≡ out) × (g.result ≡ ok tt)

  -- What follows a token that was picked.
  module _ (rounds tok : ℕ) (s : Session dev.State) (h out : List ℕ)
      (at_h : IsAt gt dev vocab alone s h) (room : length h + suc rounds ≤ num_blocks * block_size)
      (short : length h + suc rounds ≤ max_seq) (picked : argmax gt (model h) ≡ some tok) where
    abbrev context : List ℕ
    context = h ++ tok ∷ []

    abbrev sent : List ℕ
    sent = out ++ tok ∷ []

    choice :
        (b : Bool)
        → is_eos eos tok ≡ b
        → sent ++ (if b then [] else greedy gt eos model rounds context)
          ≡ out ++ greedy gt eos model (suc rounds) h
    choice b e =
        append_assoc out (tok ∷ []) _
        ∙ ap (◌++◌ out) (
            sym (
              greedy-some gt eos model rounds tok h picked
              ∙ ap (λ c. tok ∷ (if c then [] else greedy gt eos model rounds context)) e))

    one_round :
        ((s' : Session dev.State)
          → IsAt gt dev vocab alone s' context
          → IsDecoded
              (sent ++ greedy gt eos model rounds context)
              (decode gt dev vocab eos rounds s' (model context) sent))
        → let (s', r) = forward gt dev vocab s (tok ∷ []) in
          IsDecoded (out ++ greedy gt eos model (suc rounds) h) (elim (is_eos eos tok) [
            | true ↦ (s, record { out = sent; result = ok tt })
            | false ↦ elim r [
              | ok logits ↦ decode gt dev vocab eos rounds s' logits sent
              | err e ↦ (s', record { out = sent; result = err e })
              | panic ↦ (s', record { out = sent; result = panic })
            ]
          ])
    one_round later =
        let Decoded = IsDecoded (out ++ greedy gt eos model (suc rounds) h) in
        let f = forward gt dev vocab s (tok ∷ []) in
        let (answered, at_next) =
          forward-IsAt gt dev vocab alone s h (tok ∷ []) at_h (omega (arith, room))
            (omega (arith, short)) (omega arith) in
        end_cases Decoded (is_eos eos tok) _ _
          (λ over. (sym (append-nil sent) ∙ choice true over, refl))
          (λ on.
            result_cases Decoded f.1 _ _ _
              (λ logits q.
                let same : model context ≡ logits = cc (q, answered) in
                let (tokens, fine) = later f.0 at_next in
                rw (← same) (tokens ∙ choice false on, fine))
              (λ e q. absurd (cc (q, answered))) (λ q. absurd (cc (q, answered))))

  decode-IsDecoded :
      (rounds : ℕ) (s : Session dev.State) (h out : List ℕ)
      → IsAt gt dev vocab alone s h
      → length h + rounds ≤ num_blocks * block_size
      → length h + rounds ≤ max_seq
      → IsDecoded
          (out ++ greedy gt eos model rounds h)
          (decode gt dev vocab eos rounds s (model h) out)
  unfolding decode greedy
  decode-IsDecoded zero s h out at_h room short = (sym (append-nil out), refl)
  decode-IsDecoded (suc rounds) s h out at_h room short =
      option_cases (IsDecoded (out ++ greedy gt eos model (suc rounds) h)) (argmax gt (model h)) _ _
        (λ none_is.
          absurd (argmax-some gt (model h) (omega (arith, alone.wide h, some_vocab)) none_is))
        (λ tok picked. one_round rounds tok s h out at_h room short picked (λ s' at_next.
          decode-IsDecoded rounds s' (h ++ tok ∷ []) (out ++ tok ∷ []) at_next
            (omega (arith, room, length-append h (tok ∷ [])))
            (omega (arith, short, length-append h (tok ∷ [])))))

-- As below, for a cache whose sizes are known by equations.
pub generate_sized :
    {V : Type 0} (gt : V → V → Bool) (dev : Device V) (vocab : ℕ) (eos : ℤ) (st : dev.State)
    (a : Allocator) {max_seq cache num_blocks block_size : ℕ} {model : List ℕ → List V}
    (prompt : List ℕ) (max_new : ℕ)
    → (alone : Alone dev vocab max_seq cache num_blocks block_size model) → alone.answering.Ready st
    → a.block_size ≡ block_size
    → length a.free ≡ num_blocks
    → 0 < vocab
    → ((x : ℕ) → count x a.free ≤ (if ltb x cache then 1 else 0))
    → 0 < length prompt
    → length prompt + max_new ≤ num_blocks * block_size
    → length prompt + max_new ≤ max_seq
    → let (_, _, g) = generate gt dev vocab eos st a prompt max_new in
      (g.result ≡ ok tt) × (g.out ≡ greedy gt eos model max_new prompt)
unfolding generate generate_on
generate_sized {V} gt dev vocab eos st a {model = model} prompt max_new alone ready size number
      some_vocab once some_prompt room short =
    let s : Session dev.State = record { device = st; alloc = a; seq = new_sequence } in
    let at_start : IsAt gt dev vocab alone s [] = record {
      size = size;
      number = omega (arith, number);
      once = λ x. omega (arith, once x);
      len = refl;
      kept = alone.paged.starts st [];
      tight = omega (arith, alone.some_size);
      ready = ready;
    } in
    let f = forward gt dev vocab s prompt in
    let (answered, at_prompt) =
      forward-IsAt gt dev vocab alone s [] prompt at_start (omega (arith, room))
        (omega (arith, short)) some_prompt in
    result_cases
      (λ (r : Session dev.State × Generated gt dev vocab).
        (r.1.result ≡ ok tt) × (r.1.out ≡ greedy gt eos model max_new prompt))
      f.1 _ _ _
      (λ logits q.
        let same : model prompt ≡ logits = cc (q, answered) in
        let (tokens, fine) =
          decode-IsDecoded gt dev vocab eos alone some_vocab max_new f.0 prompt [] at_prompt room
            short in
        rw (← same) (fine, tokens))
      (λ e q. absurd (cc (q, answered))) (λ q. absurd (cc (q, answered)))

-- `Generate` is greedy decoding. For a device that keeps the context of a sequence in its
-- blocks, as `Paged` says, and that, in a state in which it is ready, answers a batch of one
-- sequence that has a token, keeps to `max_seq`, and whose table covers it, fits the staging
-- area and names blocks of the cache, and stays ready; with logits as wide as the vocabulary, a
-- vocabulary, a block size and a prompt that are not empty, free blocks that with one more have
-- fewer than 2 ^ 31 positions, a free list of blocks of the cache in which none stands twice,
-- free blocks for the prompt and `maxNewTokens` more tokens, and no more than `max_seq` tokens in
-- all, since the last token is passed too: from a state in which the device is ready, `Generate`
-- returns without an error, and what it returns is the greedy decoding of the prompt.
pub generate-greedy :
    {V : Type 0} (gt : V → V → Bool) (dev : Device V) (vocab : ℕ) (eos : ℤ) (st : dev.State)
    (a : Allocator) {max_seq : ℕ} {model : List ℕ → List V} (prompt : List ℕ) (max_new : ℕ)
    → (alone : Alone dev vocab max_seq a.num_blocks (length a.free) a.block_size model)
    → alone.answering.Ready st
    → 0 < vocab
    → ((x : ℕ) → count x a.free ≤ (if ltb x a.num_blocks then 1 else 0))
    → 0 < length prompt
    → length prompt + max_new ≤ length a.free * a.block_size
    → length prompt + max_new ≤ max_seq
    → let (_, _, g) = generate gt dev vocab eos st a prompt max_new in
      (g.result ≡ ok tt) × (g.out ≡ greedy gt eos model max_new prompt)
generate-greedy gt dev vocab eos st a prompt max_new alone ready =
    generate_sized gt dev vocab eos st a prompt max_new alone ready refl refl
