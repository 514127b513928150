-- ===== src/Kv/Store/Exclusive.antt =====
-- No history of calls loses a block or hands one out twice.
use kllm.Base.{
  ℕ, zero, suc, ◌+◌, ◌≤◌, ◌≡◌, refl, ◌∙◌, inl, inr, List, [], ◌∷◌, ◌++◌, some, arith, count,
  get_elem?, set, ltb, if◌then◌else◌, Option-cases, int32_mod,
}
use kllm.Kv.{Sequence, new_sequence, reserve, commit, release}
use kllm.Kv.Blocks.{count-released, count-reserve, count-release, count-new_allocator}
use kllm.Kv.Store.{Store, Op, opens, reserves, commits, releases, apply, call, step, run, start}

-- How often a block stands in the tables of some sequences.
abbrev pub held : ℕ → List Sequence → ℕ
held x [] = 0
held x (s ∷ ss) = count x s.table + held x ss

-- How many owners a block has: the free list and the tables.
abbrev pub owners : ℕ → Store → ℕ
owners x st = count x st.alloc.free + held x st.seqs

held-append : (x : ℕ) (ss ts : List Sequence) → held x (ss ++ ts) ≡ held x ss + held x ts
held-append x [] ts = omega arith
held-append x (s ∷ ss) ts = omega (arith, held-append x ss ts)

held-set :
    (x : ℕ) (ss : List Sequence) (i : ℕ) (s s' : Sequence)
    → get_elem? ss i ≡ some s
    → held x (set ss i s') + count x s.table ≡ held x ss + count x s'.table
held-set x [] i s s' e = cc
held-set x (t ∷ ss) zero s s' e = ground arith
held-set x (t ∷ ss) (suc i) s s' e = omega (arith, held-set x ss i s s' e)

count-commit : (x : ℕ) (s : Sequence) (n : ℕ) → count x (commit s n).table ≡ count x s.table
unfolding commit
count-commit x s n = refl

owners-apply :
    (x : ℕ) (op : Op) (st : Store) (s : Sequence) (i : ℕ)
    → get_elem? st.seqs i ≡ some s
    → owners x (apply op st s i) ≡ owners x st
unfolding apply
owners-apply x opens st s i e = refl
owners-apply x (reserves _ n) st s i e =
    omega (arith, count-reserve x st.alloc s n, held-set x st.seqs i s (reserve st.alloc s n).seq e)
owners-apply x (commits _ n) st s i e =
    omega (arith, count-commit x s n, held-set x st.seqs i s (commit s n) e)
owners-apply x (releases _) st s i e = omega (
  arith,
  count-release x st.alloc s,
  count-released x st.alloc s,
  held-set x st.seqs i s (release st.alloc s).1 e,
)

owners-call : (x : ℕ) (op : Op) (i : ℕ) (st : Store) → owners x (call op i st) ≡ owners x st
unfolding call
owners-call x op i st = elim (Option-cases (get_elem? st.seqs i)) [
  | inl e ↦ rw (e, call)
  | inr (s, e) ↦ rw (e, call) (owners-apply x op st s i e)
]

owners-step : (x : ℕ) (st : Store) (op : Op) → owners x (step st op) ≡ owners x st
unfolding step
owners-step x st opens = omega (arith, held-append x st.seqs (new_sequence ∷ []))
owners-step x st (reserves i n) = owners-call x (reserves i n) i st
owners-step x st (commits i n) = owners-call x (commits i n) i st
owners-step x st (releases i) = owners-call x (releases i) i st

owners-run : (x : ℕ) (st : Store) (ops : List Op) → owners x (run st ops) ≡ owners x st
unfolding run
owners-run x st [] = refl
owners-run x st (op ∷ ops) = owners-run x (step st op) ops ∙ owners-step x st op

-- After any history of `NewSequence`, `Reserve`, `Commit` and `Release` on the sequences of a new
-- allocator of at most 2^32 blocks, failed calls included, each block below `numBlocks` has exactly one owner, the free
-- list or one place of one table, and no other id has any.
pub run_exclusive :
    (num_blocks block_size : ℕ) (ops : List Op) (x : ℕ)
    → num_blocks ≤ int32_mod
    → owners x (run (start num_blocks block_size) ops) ≡ (if ltb x num_blocks then 1 else 0)
unfolding start
run_exclusive num_blocks block_size ops x h = omega (
  arith,
  owners-run x (start num_blocks block_size) ops,
  count-new_allocator x num_blocks block_size h,
)
