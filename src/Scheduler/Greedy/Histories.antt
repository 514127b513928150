-- ===== src/Scheduler/Greedy/Histories.antt =====
-- The tokens of every request over a history of the scheduler, for a device with a paged cache.
use kllm.Base.{ℕ, ◌≤◌, ◌≡◌, List, Bool, false, arith, int32_mod}
use kllm.Platform.{Platform}
use kllm.Kv.{new_allocator}
use kllm.Backend.{Device}
use kllm.Scheduler.{Config}
use kllm.Scheduler.Conservation.{uncrashed}
use kllm.Scheduler.Blocks.{reach_exclusive}
use kllm.Scheduler.Capacity.{reach_capacity}
use kllm.Scheduler.Loop.{State, init, Reach, here, next}
use kllm.Scheduler.Every.Histories.{AllKept}
use kllm.Scheduler.Greedy.{IsGreedy, IsOnTrack}
use kllm.Scheduler.Greedy.Forming.{Serving}
use kllm.Scheduler.Greedy.Batch.{IsServed}
use kllm.Scheduler.Greedy.Rounds.{IsTidy, running-IsOnTrack, waiting-IsOnTrack, Step-IsServed}

module _ (p : Platform) {V : Type 0} (gt : V → V → Bool) (cfg : Config) (dev : Device V)
    {num_blocks block_size : ℕ} {model : List ℕ → List V}
    (serving : Serving cfg dev num_blocks block_size model) (device : dev.State)
    (few : num_blocks ≤ int32_mod) where
  open p use {Float, Time}

  abbrev start : State dev.State Float Time
  start = init p gt cfg dev device (new_allocator num_blocks block_size)

  reach-IsTidy :
      {v : State dev.State Float Time}
      → Reach p gt cfg dev start v
      → v.crashed ≡ false
      → IsTidy num_blocks block_size v
  reach-IsTidy reach good =
      let (number, size) = reach_capacity p gt cfg dev num_blocks block_size device reach good in
      record {
        number = number;
        size = size;
        once = λ x.
            ground
              (arith, reach_exclusive p gt cfg dev num_blocks block_size x device few reach good);
      }

  reach-IsServed :
      {v : State dev.State Float Time}
      → Reach p gt cfg dev start v
      → v.crashed ≡ false
      → IsServed p gt cfg dev serving v
  unfolding init
  reach-IsServed here good = record { over = tt; queue = tt; running = tt; waiting = tt }
  reach-IsServed (next reach step) good =
      let before = uncrashed p gt cfg dev step good in
      Step-IsServed p gt cfg dev serving step good (reach-IsTidy reach before)
        (reach-IsServed reach before)

-- Continuous batching does not change an answer. For a device that keeps the context of a
-- sequence in its blocks, as `Paged` says, logits as wide as the vocabulary, at most 2 ^ 32
-- blocks, and a cache that with a step's tokens and one block more has fewer than 2 ^ 31
-- positions: in every state that a new scheduler reaches, until a panic, each live request has
-- sent the first tokens of the greedy decoding of its own prompt; one that is over has sent all
-- of them if it ended without an error, and else the first ones, whatever the other requests
-- and the batches were.
pub reach-IsGreedy :
    (p : Platform) {V : Type 0} (gt : V → V → Bool) (cfg : Config) (dev : Device V)
    {num_blocks block_size : ℕ} {model : List ℕ → List V}
    (serving : Serving cfg dev num_blocks block_size model) (device : dev.State)
    {v : State dev.State p.Float p.Time}
    → num_blocks ≤ int32_mod
    → Reach p gt cfg dev (init p gt cfg dev device (new_allocator num_blocks block_size)) v
    → v.crashed ≡ false
    → AllKept (IsOnTrack p gt cfg model) (IsGreedy p gt cfg model) v
reach-IsGreedy p gt cfg dev {model = model} serving device {v} few reach good =
    let h = reach-IsServed p gt cfg dev serving device few reach good in
    record {
      over = h.over;
      queue = waiting-IsOnTrack p gt cfg dev serving v.queue h.queue;
      running = running-IsOnTrack p gt cfg dev serving v.device v.running h.running;
      waiting = waiting-IsOnTrack p gt cfg dev serving v.waiting h.waiting;
    }
