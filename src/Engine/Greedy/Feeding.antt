-- ===== src/Engine/Greedy/Feeding.antt =====
-- `Sequence.Forward` over a device with a paged cache, where there are enough blocks.
use native.Mathlib.Nat.{lt_of_mul-lt-mul_left}
use kllm.Base.{
  ℕ, ◌+◌, ◌*◌, ◌/◌, ◌≤◌, ◌<◌, All, if◌then◌else◌, ltb, ◌≡◌, refl, sym, ap, subst, ◌∙◌, List, [],
  ◌∷◌, ◌++◌, Bool, arith, length, length-append, count, Result, ok, result_cases, int_limit,
  int32_mod,
}
use kllm.Kv.{Allocator, Sequence, need_blocks, reserve, commit}
use kllm.Kv.Growth.{need_blocks_ceil}
use kllm.Kv.Blocks.{reserve_covers, count-reserve}
use kllm.Kv.Sizes.{reserve-enough, Keeps, reserve-Keeps}
use kllm.Backend.{SeqForward, Device, forward_batch, rows}
use kllm.Backend.Forward.{check_batch_iff}
use kllm.Backend.Paged.{Job, Paged, IsResumed, rows-concat, uses}
use kllm.Engine.{Stepped, step, Session, first_row, run_alone, forward}
use kllm.Engine.Stepping.{descriptor}

-- Enough free blocks for a reservation.
reserve-succeeds :
    (a : Allocator) (s : Sequence) (n : ℕ)
    → 0 < a.block_size
    → s.len + n + a.block_size ≤ int_limit
    → s.len + n ≤ (length a.free + length s.table) * a.block_size
    → (reserve a s n).result ≡ ok tt
reserve-succeeds a s n some_size fits room =
    let ceil = need_blocks_ceil s.len n a.block_size some_size fits in
    let few : need_blocks s.len n a.block_size < length a.free + length s.table + 1 =
      lt_of_mul-lt-mul_left a.block_size (grind (arith, ceil)) in
    reserve-enough a s n some_size (omega arith)

pub step-succeeds :
    (a : Allocator) (s : Sequence) (tokens : List ℕ)
    → (reserve a s (length tokens)).result ≡ ok tt
    → (step a s tokens).result ≡ ok (descriptor (step a s tokens).seq tokens)
unfolding step
step-succeeds a s tokens e = rw e refl

-- A sequence that `te_forward_batch` (backend/model.cu) takes in a batch of its own: it has a
-- token, keeps to `max_seq`, and its table covers its tokens, fits the staging area and names
-- blocks of the cache.
pub record IsTaken (max_seq cache block_size : ℕ) (sf : SeqForward) : Type 0 where
  pub some_token : 0 < length sf.tokens
  pub short : sf.pos + length sf.tokens ≤ max_seq
  pub covered : sf.pos + length sf.tokens ≤ length sf.block_table * block_size
  pub staged : length sf.block_table * block_size < max_seq + block_size
  pub ids : All (λ b. b < cache) sf.block_table

-- A device that, once it is ready, answers every batch of one such sequence, and stays ready.
pub record IsAnswering {V : Type 0} (dev : Device V) (vocab max_seq cache block_size : ℕ)
    : Type 1 where
  pub Ready : dev.State → Type 0
  pub answers_one :
      (st : dev.State) (sf : SeqForward)
      → Ready st
      → IsTaken max_seq cache block_size sf
      → (buffer : List V) × ((dev.forward st (sf ∷ []) (1 * vocab)).1 ≡ ok buffer)
  pub stays :
      (st : dev.State) (sf : SeqForward)
      → Ready st
      → IsTaken max_seq cache block_size sf
      → Ready (dev.forward st (sf ∷ []) (1 * vocab)).0

-- One sequence on a device with a paged cache: blocks enough for every position, which an `int32`
-- can hold.
pub record Alone {V : Type 0} (dev : Device V) (vocab max_seq cache num_blocks block_size : ℕ)
    (model : List ℕ → List V) : Type 1 where
  pub paged : Paged dev block_size model
  pub answering : IsAnswering dev vocab max_seq cache block_size
  pub wide : (context : List ℕ) → length (model context) ≡ vocab
  pub some_size : 0 < block_size
  pub small : num_blocks * block_size + block_size < int32_mod / 2

-- A list in which no block stands twice, and only blocks below `cache`.
all_below :
    (cache : ℕ) (table : List ℕ)
    → ((x : ℕ) → count x table ≤ (if ltb x cache then 1 else 0))
    → All (λ b. b < cache) table
all_below cache [] h = tt
all_below cache (b ∷ table) h =
    (ground (arith, h b), all_below cache table (λ x. omega (arith, h x)))

module _ {V : Type 0} (gt : V → V → Bool) (dev : Device V) (vocab : ℕ)
    {max_seq cache num_blocks block_size : ℕ} {model : List ℕ → List V}
    (alone : Alone dev vocab max_seq cache num_blocks block_size model) where
  open alone use {paged, answering, wide, some_size, small}

  -- The pass over a batch of one.
  pass_one :
      (st : dev.State) (sf : SeqForward) (h : List ℕ)
      → IsResumed block_size (paged.Holds st) (record { sf = sf; history = h })
      → answering.Ready st
      → IsTaken max_seq cache block_size sf
      → ((x : ℕ) → count x sf.block_table ≤ 1)
      → let (st', out) = forward_batch dev vocab st (sf ∷ []) in
        (out ≡ ok (model (h ++ sf.tokens) ∷ []))
        × paged.Holds st' sf.block_table (h ++ sf.tokens)
        × answering.Ready st'
  unfolding forward_batch
  pass_one st sf h resumed ready taken once =
      let jobs : List Job = record { sf = sf; history = h } ∷ [] in
      let guarded =
        (check_batch_iff (sf ∷ [])).1 (omega arith, omega arith, (taken.some_token, tt)) in
      let (buffer, ran) = answering.answers_one st sf ready taken in
      let uses_once : (x : ℕ) → uses x jobs ≤ 1 = λ x. omega (arith, once x) in
      let full = paged.answers st jobs (1 * vocab) buffer (resumed, tt) uses_once ran in
      let stored = paged.stores st jobs (1 * vocab) buffer (resumed, tt) uses_once ran in
      (
        rw (forward_batch, guarded, ran)
            (ap (λ b. ok (rows 1 0 vocab b)) full
              ∙ ap ok
                  (rows-concat vocab (model (h ++ sf.tokens) ∷ []) (wide (h ++ sf.tokens), tt))),
        rw (forward_batch, guarded) stored.0,
        rw (forward_batch, guarded) (answering.stays st sf ready taken),
      )

  -- A session that has been fed `h`.
  pub record IsAt (s : Session dev.State) (h : List ℕ) : Type 0 where
    pub size : s.alloc.block_size ≡ block_size
    pub number : length s.alloc.free + length s.seq.table ≡ num_blocks
    pub once : (x : ℕ) → count x s.alloc.free + count x s.seq.table ≤ (if ltb x cache then 1 else 0)
    pub tight : length s.seq.table * block_size < length h + block_size
    pub ready : answering.Ready s.device
    pub len : s.seq.len ≡ length h
    pub kept : paged.Holds s.device s.seq.table h

  module _ (s : Session dev.State) (h tokens : List ℕ) (at_h : IsAt s h)
      (room : length h + length tokens ≤ num_blocks * block_size)
      (short : length h + length tokens ≤ max_seq) where
    abbrev t : Stepped
    t = step s.alloc s.seq tokens

    fits : s.seq.len + length tokens + s.alloc.block_size ≤ int_limit
    fits = omega (arith, at_h.len, at_h.size, room, small)

    reserved : (reserve s.alloc s.seq (length tokens)).result ≡ ok tt
    reserved =
        reserve-succeeds s.alloc s.seq (length tokens) (omega (arith, at_h.size, some_size)) fits (
          subst (λ k. s.seq.len + length tokens ≤ k * s.alloc.block_size) (sym at_h.number)
            (subst (λ k. s.seq.len + length tokens ≤ num_blocks * k) (sym at_h.size)
              (omega (arith, at_h.len, room))))

    abbrev sf : SeqForward
    sf = descriptor t.seq tokens

    kept_by : Keeps s.alloc t.alloc s.seq t.seq
    unfolding step
    kept_by = reserve-Keeps s.alloc s.seq (length tokens)

    owned : (x : ℕ) → count x t.alloc.free + count x t.seq.table ≤ (if ltb x cache then 1 else 0)
    unfolding step
    owned x = omega (arith, at_h.once x, count-reserve x s.alloc s.seq (length tokens))

    -- The table has no block more than its tokens need.
    tight : length t.seq.table * block_size < length h + length tokens + block_size
    unfolding step
    tight =
        let (_, size, _, _, _) = reserve_covers s.alloc s.seq (length tokens) fits reserved in
        let ceil =
          need_blocks_ceil s.seq.len (length tokens) s.alloc.block_size
            (omega (arith, at_h.size, some_size)) fits in
        subst (λ k. length t.seq.table * k < length h + length tokens + k) at_h.size
          (grind (
            arith,
            size,
            ceil,
            at_h.len,
            subst (λ k. length s.seq.table * k < length h + k) (sym at_h.size) at_h.tight,
          ))

    resumed : IsResumed block_size (paged.Holds s.device) (record { sf = sf; history = h })
    unfolding step
    resumed =
        let (covered, _, grown, _, _) =
          reserve_covers s.alloc s.seq (length tokens) fits reserved in
        record {
          kept =
              subst (λ table. paged.Holds s.device table h) (sym grown)
                (paged.grows s.device s.seq.table _ h at_h.kept);
          at_end = kept_by.len ∙ at_h.len;
          room =
              subst (λ k. t.seq.len + length tokens ≤ length t.seq.table * k) at_h.size
                (omega (arith, covered, kept_by.len));
          in_range = omega (arith, kept_by.len, at_h.len, room, small);
        }

    taken : 0 < length tokens → IsTaken max_seq cache block_size sf
    taken some_token = record {
      some_token = some_token;
      short = omega (arith, kept_by.len, at_h.len, short);
      covered = resumed.room;
      staged = omega (arith, tight, short);
      ids = all_below cache t.seq.table (λ x. omega (arith, owned x));
    }

    end-IsAt :
        (device : dev.State)
        → answering.Ready device
        → paged.Holds device t.seq.table (h ++ tokens)
        → IsAt
            (record { device = device; alloc = t.alloc; seq = commit t.seq (length tokens) })
            (h ++ tokens)
    unfolding commit
    end-IsAt device ready stored = record {
      size = kept_by.size ∙ at_h.size;
      number = omega (arith, kept_by.number, at_h.number);
      once = owned;
      len = omega (arith, kept_by.len, at_h.len, room, small, length-append h tokens);
      kept = stored;
      tight = omega (arith, tight, length-append h tokens);
      ready = ready;
    }

    abbrev End : Session dev.State × Result (List V) → Type 0
    End (s', out) = (out ≡ ok (model (h ++ tokens))) × IsAt s' (h ++ tokens)

    run_alone-IsAt :
        0 < length tokens
        → End
            (run_alone gt dev vocab (record s { alloc = t.alloc; seq = t.seq }) (length tokens) sf)
    unfolding run_alone first_row
    run_alone-IsAt some_token =
        let (answered, stored, ready) =
          pass_one s.device sf h resumed at_h.ready (taken some_token)
            (λ x. ground (arith, owned x)) in
        result_cases End (forward_batch dev vocab s.device (sf ∷ [])).1 _ _ _
          (λ rows q.
            let same : rows ≡ model (h ++ tokens) ∷ [] = cc (q, answered) in
            (ap (λ out. first_row gt dev vocab (ok out)) same, end-IsAt _ ready stored))
          (λ e q. absurd (cc (q, answered))) (λ q. absurd (cc (q, answered)))

    -- A forward pass answers with the logits of everything fed so far, and keeps it.
    pub forward-IsAt :
        0 < length tokens
        → let (s', out) = forward gt dev vocab s tokens in
          (out ≡ ok (model (h ++ tokens))) × IsAt s' (h ++ tokens)
    unfolding forward
    forward-IsAt some_token =
        let stepped = step-succeeds s.alloc s.seq tokens reserved in
        rw (forward, stepped) (run_alone-IsAt some_token)
