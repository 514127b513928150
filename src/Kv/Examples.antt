-- ===== src/Kv/Examples.antt =====
-- Tests after kv_test.go, and the properties of the allocator at concrete inputs.
use kllm.Base.{◌+◌, ◌*◌, ◌≤◌, ◌<◌, max, ◌≡◌, refl, [], ◌∷◌, arith, length, count}
use kllm.Kv.{
  Allocator, Sequence, new_allocator, grow, need_blocks, reserve, commit, release, free_blocks,
}
use kllm.Kv.Growth.{taken, reserve-eq-taken, need_blocks_ceil}
use kllm.Kv.Blocks.{count-reserve, reserve_covers}
use kllm.Kv.Store.{Store, opens, reserves, commits, releases, step, run, start}
use kllm.Kv.Store.Exclusive.{owners, run_exclusive}

abbrev half_used : Allocator
half_used = record { block_size = 4; num_blocks = 4; free = 2 ∷ 3 ∷ [] }

abbrev two_blocks : Sequence
two_blocks = record { table = 0 ∷ 1 ∷ []; len = 5 }

-- TestReserveCommitRelease
reserve_commit_release : Store
unfolding start run
reserve_commit_release =
    run (start 8 4)
      (opens ∷ reserves 0 5 ∷ commits 0 5 ∷ reserves 0 3 ∷ commits 0 3 ∷ reserves 0 1 ∷ [])

tables_after_growth : reserve_commit_release ≡ record {
  alloc = record { block_size = 4; num_blocks = 8; free = 3 ∷ 4 ∷ 5 ∷ 6 ∷ 7 ∷ [] };
  seqs = record { table = 0 ∷ 1 ∷ 2 ∷ []; len = 8 } ∷ [];
}
unfolding reserve_commit_release step reserve grow need_blocks commit new_allocator
tables_after_growth = refl

free_after_release : free_blocks (release half_used two_blocks).0 ≡ 4
unfolding free_blocks release
free_after_release = refl

reserve-eq-taken_example : reserve half_used two_blocks 12 ≡ taken 3 half_used two_blocks
unfolding need_blocks
reserve-eq-taken_example = reserve-eq-taken half_used two_blocks 12 (omega arith)

need_blocks_ceil_example : (5 + 3 ≤ need_blocks 5 3 4 * 4) × (need_blocks 5 3 4 * 4 < 5 + 3 + 4)
need_blocks_ceil_example = need_blocks_ceil 5 3 4 (omega arith) (omega arith)

count-reserve_example :
    let r = reserve half_used two_blocks 40 in count 3 r.alloc.free + count 3 r.seq.table ≡ 1
count-reserve_example = count-reserve 3 half_used two_blocks 40

reserve_covers_example :
    let s' = (reserve half_used two_blocks 5).seq in
    (10 ≤ length s'.table * 4)
    × (length s'.table ≡ max 2 (need_blocks 5 5 4))
    × (s'.table ≡ 0 ∷ 1 ∷ 2 ∷ [])
    × (s'.len ≡ 5)
    × ((reserve half_used two_blocks 5).alloc ≡ record half_used { free = 3 ∷ [] })
unfolding reserve grow need_blocks
reserve_covers_example = reserve_covers half_used two_blocks 5 (omega arith) refl

run_exclusive_example :
    owners 2 (run (start 4 2) (opens ∷ opens ∷ reserves 0 4 ∷ reserves 1 5 ∷ releases 0 ∷ [])) ≡ 1
run_exclusive_example =
    run_exclusive 4 2 (opens ∷ opens ∷ reserves 0 4 ∷ reserves 1 5 ∷ releases 0 ∷ []) 2
      (omega arith)
