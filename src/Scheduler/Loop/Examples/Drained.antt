-- ===== src/Scheduler/Loop/Examples/Drained.antt =====
-- A request that waits, until it is over.
use kllm.Base.{◌+◌, ◌-◌, ◌≤◌, ◌≡◌, refl, arith, length}
use kllm.Samples.{naturals, greater, small, zeros}
use kllm.Kv.{new_allocator, need_blocks, reserve, commit, release}
use kllm.Backend.{forward_batch, check_batch}
use kllm.Engine.{step, argmax, is_eos}
use kllm.Scheduler.{close, form, form_one, admit, deliver, set_gauges}
use kllm.Scheduler.Weight.{weigh}
use kllm.Scheduler.Loop.{cycle, formed, init}
use kllm.Scheduler.Loop.Examples.{
  received, run_to_received, zeros-IsRunning, small-HasVocab, small-IsSized,
}
use kllm.Scheduler.Draining.{left, claim}
use kllm.Scheduler.Draining.Ending.{rounds, IsDrained, rounds_drain}

prompt_fits : weigh (claim 2) received.waiting ≤ 4
unfolding need_blocks
prompt_fits = omega arith

rounds_drain_example : IsDrained naturals greater small zeros received (
    rounds naturals greater small zeros
      (λ n. (20 - n, 30 - n))
      (weigh left received.running + weigh left received.waiting)
      received)
unfolding init
rounds_drain_example =
    rounds_drain naturals greater small zeros 4 2 0 (λ n. (20 - n, 30 - n)) zeros-IsRunning
      small-HasVocab (omega arith) small-IsSized run_to_received refl refl refl prompt_fits

-- The two tokens of the request take two rounds.
drained_over :
    length (rounds naturals greater small zeros (λ n. (20 - n, 30 - n)) 2 received).world.over ≡ 1
unfolding init rounds cycle formed form form_one admit deliver new_allocator reserve need_blocks
    step forward_batch check_batch argmax is_eos set_gauges close release commit
drained_over = refl
