-- ===== src/Engine/Exhausted.antt =====
-- A step of a sequence that needs a block when there is none.
use kllm.Base.{ℕ, zero, suc, ◌<◌, ◌≡◌, refl, ◌∙◌, List, [], arith, length, err, out_of_blocks}
use mathlib.Core.List.{append-nil}
use kllm.Kv.{Allocator, Sequence, need_blocks}
use kllm.Kv.Growth.{taken, missing, reserve-eq-taken}
use kllm.Engine.{step}

-- The sequence needs a block that it does not hold.
abbrev pub IsShort : Allocator → Sequence → ℕ → Type 0
IsShort a s n = length s.table < need_blocks s.len n a.block_size

taken_nothing :
    (k : ℕ) (a : Allocator) (s : Sequence)
    → a.free ≡ []
    → 0 < k
    → taken k a s ≡ record { alloc = a; seq = s; result = err (out_of_blocks a.num_blocks) }
taken_nothing zero a s e h = absurd (omega arith)
taken_nothing (suc k) a s e h = ground (arith, append-nil s.table)

-- It fails and changes nothing.
pub step_exhausted :
    (a : Allocator) (s : Sequence) (tokens : List ℕ)
    → 0 < a.block_size
    → a.free ≡ []
    → IsShort a s (length tokens)
    → step a s tokens ≡ record { alloc = a; seq = s; result = err (out_of_blocks a.num_blocks) }
unfolding step
step_exhausted a s tokens pos_size e short =
    rw
      (reserve-eq-taken a s (length tokens) pos_size
        ∙ taken_nothing (missing a s (length tokens)) a s e (omega arith))
      refl
