-- ===== src/Kv/Store.antt =====
-- One allocator and the sequences that share it, as kv_test.go and the engine use them.
pub mod Exclusive
use kllm.Base.{ℕ, zero, suc, List, [], ◌∷◌, ◌++◌, Option, none, some, get_elem?, set}
use kllm.Kv.{Allocator, Sequence, new_allocator, new_sequence, reserve, commit, release}

pub record Store : Type 0 where
  pub alloc : Allocator
  pub seqs : List Sequence

-- A method call. A sequence is named by the order of its `NewSequence`.
pub data Op : Type 0 where
  opens : Op
  reserves commits : ℕ → ℕ → Op
  releases : ℕ → Op

apply : Op → Store → Sequence → ℕ → Store
apply opens st s i = st
apply (reserves _ n) st s i =
    let r = reserve st.alloc s n in record { alloc = r.alloc; seqs = set st.seqs i r.seq }
apply (commits _ n) st s i = record st { seqs = set st.seqs i (commit s n) }
apply (releases _) st s i =
    let (a, s') = release st.alloc s in record { alloc = a; seqs = set st.seqs i s' }

-- The call `op` on sequence `i`; a number that names no sequence is no call.
call : Op → ℕ → Store → Store
unfolding apply
call op i st = elim (get_elem? st.seqs i) [ none ↦ st | some s ↦ apply op st s i ]

unfoldable pub step : Store → Op → Store
unfolding call
step st opens = record st { seqs = st.seqs ++ new_sequence ∷ [] }
step st (reserves i n) = call (reserves i n) i st
step st (commits i n) = call (commits i n) i st
step st (releases i) = call (releases i) i st

unfoldable pub run : Store → List Op → Store
run st [] = st
run st (op ∷ ops) = run (step st op) ops

unfoldable pub start : ℕ → ℕ → Store
start num_blocks block_size = record { alloc = new_allocator num_blocks block_size; seqs = [] }
