-- ===== src/Backend/Paged/Sample.antt =====
-- A small device with a paged cache, for the tests: under the first block of a table it keeps all the
-- tokens of the sequence, and it answers with a model of its own.
use kllm.Base.{
  ℕ, ◌+◌, ◌*◌, ◌≤◌, ◌≡◌, refl, sym, ap, ◌∙◌, ◌⊎◌, inl, inr, List, [], ◌∷◌, ◌++◌, map, arith, length,
  length-append, take, count, All, ◌==◌, if◌then◌else◌, ok,
}
use mathlib.Core.List.{append-nil}
use kllm.Backend.{SeqForward, Device}
use kllm.Backend.Forward.{concat}
use kllm.Backend.Rows.{take-length-append}
use kllm.Backend.Paged.{Job, Paged, IsResumed, context, uses, batch}

-- The second logit is 4, the first the number of tokens.
abbrev pub counting : List ℕ → List ℕ
counting context = length context ∷ 4 ∷ []

abbrev Memory : Type 0
Memory = ℕ → List ℕ

abbrev recall : Memory → List ℕ → List ℕ
recall st [] = []
recall st (b ∷ table) = st b

abbrev store : Memory → List ℕ → List ℕ → Memory
store st [] h = st
store st (b ∷ table) h = λ x. if x == b then h else st x

abbrev Holds : Memory → List ℕ → List ℕ → Type 0
Holds st [] h = h ≡ []
Holds st (b ∷ table) h = (h ≡ []) ⊎ (st b ≡ h)

module _ (model : List ℕ → List ℕ) (block_size : ℕ) where
  -- The tokens of a sequence once it is through.
  abbrev known : Memory → SeqForward → List ℕ
  known st s = take s.pos (recall st s.block_table) ++ s.tokens

  abbrev remember : Memory → SeqForward → Memory
  remember st s = store st s.block_table (known st s)

  abbrev serve : Memory → List SeqForward → Memory × List ℕ
  serve st [] = (st, [])
  serve st (s ∷ seqs) =
      let (st', out) = serve (remember st s) seqs in (st', model (known st s) ++ out)

  abbrev pub remembering : Device ℕ
  remembering = record {
    State = Memory;
    forward = λ st seqs n. let (st', out) = serve st seqs in (st', ok out);
  }

  recall-held :
      (st : Memory) (table h : List ℕ) (n : ℕ)
      → Holds st table h
      → n ≡ length h
      → take n (recall st table) ≡ h
  recall-held st [] h n e size = rw (size, e) refl
  recall-held st (b ∷ table) h n (inl e) size = rw (size, e) refl
  recall-held st (b ∷ table) h n (inr e) size =
      rw (size, e)
        (ap (take (length h)) (sym (append-nil h)) ∙ take-length-append (length h) h [] refl)

  store-left :
      (st : Memory) (table h other new : List ℕ)
      → ((x : ℕ) → count x table + count x other ≤ 1)
      → Holds st table h
      → Holds (store st other new) table h
  store-left st [] h other new apart e = e
  store-left st (b ∷ table) h [] new apart e = e
  store-left st (b ∷ table) h (c ∷ other) new apart (inl e) = inl e
  store-left st (b ∷ table) h (c ∷ other) new apart (inr e) = inr (ground (arith, apart b))

  empty : (xs : List ℕ) → length xs ≤ 0 → xs ≡ []
  empty [] h = refl
  empty (x ∷ xs) h = absurd (omega arith)

  store-held :
      (st : Memory) (table h : List ℕ)
      → length h ≤ length table * block_size
      → Holds (store st table h) table h
  store-held st [] h room = empty h (omega arith)
  store-held st (b ∷ table) h room = inr (ground arith)

  abbrev Resumed : Memory → Job → Type 0
  Resumed st = IsResumed block_size (Holds st)

  known-context : (st : Memory) (j : Job) → Resumed st j → known st j.sf ≡ context j
  known-context st j h =
      ap (λ ts. ts ++ j.sf.tokens)
        (recall-held st j.sf.block_table j.history j.sf.pos h.kept h.at_end)

  Resumed-left :
      (st : Memory) (other new : List ℕ) (jobs : List Job)
      → ((x : ℕ) → count x other + uses x jobs ≤ 1)
      → All (Resumed st) jobs
      → All (Resumed (store st other new)) jobs
  Resumed-left st other new [] apart h = tt
  Resumed-left st other new (j ∷ jobs) apart h = (
    record {
      kept =
          store-left st j.sf.block_table j.history other new (λ x. omega (arith, apart x)) h.0.kept;
      at_end = h.0.at_end;
      room = h.0.room;
      in_range = h.0.in_range;
    },
    Resumed-left st other new jobs (λ x. omega (arith, apart x)) h.1,
  )

  serve-left :
      (st : Memory) (jobs : List Job) (table h : List ℕ)
      → ((x : ℕ) → count x table + uses x jobs ≤ 1)
      → Holds st table h
      → Holds (serve st (batch jobs)).0 table h
  serve-left st [] table h apart e = e
  serve-left st (j ∷ jobs) table h apart e =
      serve-left (remember st j.sf) jobs table h (λ x. omega (arith, apart x))
        (store-left st table h j.sf.block_table (known st j.sf) (λ x. omega (arith, apart x)) e)

  serve-answers :
      (st : Memory) (jobs : List Job)
      → All (Resumed st) jobs
      → ((x : ℕ) → uses x jobs ≤ 1)
      → ((serve st (batch jobs)).1 ≡ concat (map (λ j. model (context j)) jobs))
        × All (λ j. Holds (serve st (batch jobs)).0 j.sf.block_table (context j)) jobs
  serve-answers st [] h once = (refl, tt)
  serve-answers st (j ∷ jobs) h once =
      let ctx = known-context st j h.0 in
      let later =
        serve-answers (remember st j.sf) jobs
          (Resumed-left st j.sf.block_table (known st j.sf) jobs once h.1)
          (λ x. omega (arith, once x)) in
      let room : length (known st j.sf) ≤ length j.sf.block_table * block_size =
        omega (arith, ap length ctx, length-append j.history j.sf.tokens, h.0.room, h.0.at_end) in
      (
        ap (λ ts. model ts ++ (serve (remember st j.sf) (batch jobs)).1) ctx
            ∙ ap (◌++◌ (model (context j))) later.0,
        (
          serve-left (remember st j.sf) jobs j.sf.block_table (context j) once
              (rw (← ctx) (store-held st j.sf.block_table (known st j.sf) room)),
          later.1,
        ),
      )

  pub remembering-Paged : Paged remembering block_size model
  remembering-Paged = record {
    Holds = Holds;
    starts = λ st table. starts st table;
    grows = λ st table more h e. grows st table more h e;
    answers = λ st jobs n buffer h once e. sym (cc e) ∙ (serve-answers st jobs h once).0;
    stores = λ st jobs n buffer h once e. (serve-answers st jobs h once).1;
    leaves = λ st jobs n buffer table h apart e held. serve-left st jobs table h apart held;
  }
    where
      starts : (st : Memory) (table : List ℕ) → Holds st table []
      starts st [] = refl
      starts st (b ∷ table) = inl refl

      grows : (st : Memory) (table more h : List ℕ) → Holds st table h → Holds st (table ++ more) h
      grows st [] [] h e = e
      grows st [] (c ∷ more) h e = inl e
      grows st (b ∷ table) more h e = e
