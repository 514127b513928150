-- ===== src/Scheduler/Ownership.antt =====
-- Who owns each KV block while the scheduler runs, once the requests that are over have given theirs
-- back.
use kllm.Base.{
  ℕ, ◌+◌, ◌≤◌, ◌≡◌, refl, List, [], ◌∷◌, Bool, false, arith, count, length, if◌then◌else◌, ltb, All,
  int32_mod,
}
use kllm.Platform.{Platform}
use kllm.Kv.{new_allocator}
use kllm.Backend.{Device}
use kllm.Scheduler.{Request, Config}
use kllm.Scheduler.Weight.{weigh}
use kllm.Scheduler.Loop.{State, init, Reach}
use kllm.Scheduler.Blocks.{blocks, reach_exclusive}
use kllm.Scheduler.Capacity.{held}
use kllm.Scheduler.Every.Histories.{reach-Kept}
use kllm.Scheduler.Draining.Ready.{IsReleased, fitting}

count_empty : (x : ℕ) (table : List ℕ) → length table ≡ 0 → count x table ≡ 0
count_empty x [] e = refl
count_empty x (b ∷ table) e = absurd (omega arith)

-- Requests that have given their blocks back own none.
released-own :
    {T : Type 0} (x : ℕ) (rs : List (Request T))
    → All IsReleased rs
    → weigh (λ r. count x (blocks r)) rs ≡ 0
released-own x [] h = refl
released-own x (r ∷ rs) h = omega (arith, count_empty x (blocks r) h.0, released-own x rs h.1)

-- How often a block stands on the free list or in the table of a live request.
abbrev pub live_owners : {D F T : Type 0} → ℕ → State D F T → ℕ
live_owners x st =
    count x st.world.alloc.free
    + weigh (λ r. count x (blocks r)) st.queue
    + weigh (λ r. count x (blocks r)) st.running
    + weigh (λ r. count x (blocks r)) st.waiting

-- In every state that a new scheduler over a new allocator of at most 2^32 blocks can reach, by any
-- schedule of clients, rounds and a stop, until it panics: a request that is over holds no block,
-- and each block below `numBlocks` has exactly one owner, the free list or one place in the table of
-- one request that is queued, waits or runs; no other id has any. So no block is leaked and none is
-- shared by two requests.
pub reach_owned :
    (p : Platform) {V : Type 0} (gt : V → V → Bool) (cfg : Config) (dev : Device V)
    (num_blocks block_size x : ℕ) (device : dev.State) {v : State dev.State p.Float p.Time}
    → num_blocks ≤ int32_mod
    → Reach p gt cfg dev (init p gt cfg dev device (new_allocator num_blocks block_size)) v
    → v.crashed ≡ false
    → All (λ r. held r ≡ 0) v.world.over × (live_owners x v ≡ (if ltb x num_blocks then 1 else 0))
unfolding init
reach_owned p gt cfg dev num_blocks block_size x device {v} few reach good =
    let released =
      (reach-Kept p gt cfg dev (fitting p gt cfg) reach good
        (record { over = tt; queue = tt; running = tt; waiting = tt })).over in
    (
      released,
      omega (
        arith,
        reach_exclusive p gt cfg dev num_blocks block_size x device few reach good,
        released-own x v.world.over released,
      ),
    )
