-- ===== src/Scheduler/Loop/Examples.antt =====
-- A short run of the scheduler, a starved and a stopped one, and the properties at them.
mod Served
mod Drained
use kllm.Base.{
  All, ℕ, ◌<◌, length-replicate, ◌≤◌, ◌≡◌, ◌≢◌, refl, [], ◌∷◌, map, true, false, length, arith, ok,
  scheduler_stopped,
}
use kllm.Samples.{naturals, greater, zeros, small}
use kllm.Kv.{release, commit, new_allocator, reserve, need_blocks}
use kllm.Engine.{step, argmax, is_eos}
use kllm.Backend.{check_batch, forward_batch}
use kllm.Scheduler.{Config, close, Request, form, form_one, admit, deliver, set_gauges}
use kllm.Scheduler.Loop.{
  Sys, fresh, new_request, formed, cycle, halt, init, enqueue, submits, receives, cycles, Reach,
  here, next,
}
use kllm.Scheduler.Requests.{places, reach_places}
use kllm.Scheduler.Every.Histories.{AllKept}
use kllm.Scheduler.Streams.{IsOpen, IsComplete, reach_streams}
use kllm.Scheduler.Feeding.{token_count}
use kllm.Scheduler.Feeding.Histories.{reach_batch_fits}
use kllm.Scheduler.Stopping.{failed, halt_strands_queue}
use kllm.Scheduler.Faults.{IsSized}
use kllm.Scheduler.Faults.Histories.{IsRunning, HasVocab}
use kllm.Scheduler.Livelock.{IsDead, IsStarved, dead_starves}

abbrev System : Type 0
System = Sys naturals greater small zeros

abbrev request : Request ℕ
request = fresh 0 10 7 (5 ∷ 6 ∷ 8 ∷ []) 2

abbrev started : System
started = init naturals greater small zeros 0 (new_allocator 4 2)

abbrev submitted : System
submitted = enqueue naturals greater small zeros started request

abbrev received : System
received = record submitted { queue = []; waiting = request ∷ [] }

-- After the prompt's round the request runs, with one token.
abbrev prefilled : System
prefilled = cycle naturals greater small zeros 11 12 received

run_to_received : Reach naturals greater small zeros started received
unfolding init new_request
run_to_received =
    next (next here (submits started 10 7 (5 ∷ 6 ∷ 8 ∷ []) 2 request refl (omega arith)))
      (receives submitted request [] (refl, refl) refl)

run_to_prefilled : Reach naturals greater small zeros started prefilled
unfolding init
run_to_prefilled = next run_to_received (cycles received 11 12 (refl, refl) refl refl (λ e. cc))

prefilled_well : prefilled.crashed ≡ false
unfolding init cycle formed form form_one admit deliver new_allocator reserve step forward_batch
    check_batch argmax is_eos set_gauges
prefilled_well = refl

forms_well : (formed naturals greater small zeros received).crashed ≡ false
unfolding init formed form form_one admit new_allocator reserve step set_gauges
forms_well = refl

forms_some : (formed naturals greater small zeros received).slots ≢ []
unfolding init formed form form_one admit new_allocator reserve step set_gauges
forms_some = λ e. cc

reach_places_example : places 7 prefilled ≡ 1
unfolding run_to_prefilled run_to_received
reach_places_example =
    reach_places naturals greater small zeros 7 0 (new_allocator 4 2) run_to_prefilled
      prefilled_well

reach_streams_example : AllKept IsOpen IsComplete prefilled
reach_streams_example =
    reach_streams naturals greater small zeros 0 (new_allocator 4 2) run_to_prefilled prefilled_well

reach_batch_fits_example :
    let f = formed naturals greater small zeros received in
    (token_count f.slots ≤ 8)
    × (length f.slots ≤ 2)
    × (check_batch (map (λ s. s.sf) f.slots) ≡ ok tt)
unfolding init
reach_batch_fits_example =
    reach_batch_fits naturals greater small zeros 0 (new_allocator 4 2) (omega arith)
      run_to_received refl forms_well forms_some

-- A request is queued when the loop stops, and another one after that.
abbrev stopped : System
stopped = record received { queue = record request { ref = 8 } ∷ []; stopping = true }

abbrev late : Request ℕ
late = fresh 0 20 9 (1 ∷ []) 1

late_is_queued :
    Reach naturals greater small zeros
      (halt naturals greater small zeros stopped)
      (enqueue naturals greater small zeros (halt naturals greater small zeros stopped) late)
unfolding init new_request halt
late_is_queued =
    next here
      (submits (halt naturals greater small zeros stopped) 20 9 (1 ∷ []) 1 late refl (omega arith))

halt_strands_queue_example :
    let v = enqueue naturals greater small zeros (halt naturals greater small zeros stopped) late in
    (v.world.over ≡ map (failed scheduler_stopped) (request ∷ []))
    × (v.queue ≡ record request { ref = 8 } ∷ late ∷ [])
unfolding init late_is_queued halt
halt_strands_queue_example = halt_strands_queue naturals greater small zeros stopped late_is_queued

-- Three requests over four blocks: the first runs on two, the second keeps the other two while it
-- waits for a third block, and the last takes those of the first and waits for a third one too.
abbrev wide : Config
wide = record small { max_step_tokens = 16 }

abbrev first : Request ℕ
first = fresh 0 10 1 (1 ∷ 2 ∷ 3 ∷ 4 ∷ []) 1

abbrev second : Request ℕ
second = fresh 0 10 2 (1 ∷ 2 ∷ 3 ∷ 4 ∷ 5 ∷ []) 1

abbrev last : Request ℕ
last = fresh 0 10 3 (1 ∷ 2 ∷ 3 ∷ 4 ∷ 5 ∷ []) 1

abbrev contended : System
contended = record started { waiting = first ∷ second ∷ last ∷ [] }

abbrev starved : System
starved =
    cycle naturals greater wide zeros 13 14 (cycle naturals greater wide zeros 11 12 contended)

starved-IsDead : IsDead naturals greater wide zeros starved
unfolding init cycle formed form form_one admit deliver new_allocator reserve need_blocks step
    forward_batch check_batch argmax is_eos set_gauges close release commit
starved-IsDead = record {
  pos_size = omega arith;
  none_free = refl;
  none_runs = refl;
  stuck = (
    record { not_started = refl; fits_step = omega arith; short = omega arith },
    (record { not_started = refl; fits_step = omega arith; short = omega arith }, tt),
  );
  queued = tt;
}

abbrev still_starved : System
still_starved = cycle naturals greater wide zeros 30 31 starved

starved_round : Reach naturals greater wide zeros starved still_starved
unfolding init cycle formed form form_one admit deliver new_allocator reserve need_blocks step
    forward_batch check_batch argmax is_eos set_gauges close release commit
starved_round = next here (cycles starved 30 31 (refl, refl) refl refl (λ e. cc))

still_starved_on : still_starved.returned ≡ false
unfolding init cycle formed form form_one admit deliver new_allocator reserve need_blocks step
    forward_batch check_batch argmax is_eos set_gauges close release commit
still_starved_on = refl

starved_size : starved.world.alloc.block_size ≡ 2
unfolding init cycle formed form form_one admit deliver new_allocator reserve need_blocks step
    forward_batch check_batch argmax is_eos set_gauges close release commit
starved_size = refl

dead_starves_example : IsStarved naturals greater wide zeros starved still_starved
dead_starves_example =
    dead_starves naturals greater wide zeros (omega (arith, starved_size)) starved-IsDead
      starved_round still_starved_on

zeros-IsRunning : IsRunning zeros
zeros-IsRunning = record {
  fills = λ st seqs n. length-replicate n 0;
  runs = λ st seqs n guarded blocks some_n few e. cc e;
}

pub small-HasVocab : HasVocab small
small-HasVocab = record { some = omega arith; few = omega arith }

pub small-IsSized : IsSized small (new_allocator 4 2)
unfolding new_allocator
small-IsSized = record { some_size = omega arith; fits = omega arith }
