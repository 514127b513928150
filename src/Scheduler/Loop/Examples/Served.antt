-- ===== src/Scheduler/Loop/Examples/Served.antt =====
-- Two requests in one batch over a device with a paged cache, until both are over.
use kllm.Base.{All, ℕ, ◌≡◌, refl, [], ◌∷◌, map, false, true, arith, some, get_elem?, ok, negsuc}
use kllm.Samples.{naturals, greater, small}
use kllm.Kv.{new_allocator, reserve, need_blocks, commit, release}
use kllm.Backend.{forward_batch, check_batch}
use kllm.Backend.Paged.Sample.{counting, remembering, remembering-Paged}
use kllm.Engine.Greedy.Feeding.{IsAnswering}
use kllm.Engine.{generate, step, argmax, is_eos}
use kllm.Scheduler.Greedy.Agreement.{reach-eq-generate}
use kllm.Scheduler.{
  token_event, done_event, Request, form, form_one, admit, deliver, set_gauges, close,
}
use kllm.Scheduler.Loop.{
  Sys, fresh, new_request, formed, cycle, init, enqueue, submits, receives, cycles, Reach, here,
  next,
}
use kllm.Scheduler.Capacity.{held}
use kllm.Scheduler.Ownership.{live_owners, reach_owned}
use kllm.Scheduler.Every.Histories.{AllKept}
use kllm.Scheduler.Greedy.{IsOnTrack, IsGreedy, sent_tokens}
use kllm.Scheduler.Greedy.Forming.{Serving}
use kllm.Scheduler.Greedy.Histories.{reach-IsGreedy}

abbrev serving : Serving small (remembering counting 2) 4 2 counting
serving = record {
  paged = remembering-Paged counting 2;
  wide = λ context. refl;
  small = omega arith;
}

abbrev System : Type 0
System = Sys naturals greater small (remembering counting 2)

abbrev long : Request ℕ
long = fresh 0 10 7 (5 ∷ 6 ∷ 8 ∷ []) 2

abbrev short : Request ℕ
short = fresh 0 11 8 (9 ∷ []) 1

abbrev started : System
started = init naturals greater small (remembering counting 2) (λ _. []) (new_allocator 4 2)

abbrev with_long : System
with_long = enqueue naturals greater small (remembering counting 2) started long

abbrev with_both : System
with_both = enqueue naturals greater small (remembering counting 2) with_long short

abbrev received : System
received = record with_both { queue = []; waiting = long ∷ short ∷ [] }

abbrev one_round : System
one_round = cycle naturals greater small (remembering counting 2) 12 13 received

abbrev two_rounds : System
two_rounds = cycle naturals greater small (remembering counting 2) 14 15 one_round

run_to_end : Reach naturals greater small (remembering counting 2) started two_rounds
unfolding init new_request cycle formed form form_one admit deliver new_allocator reserve
    need_blocks step forward_batch check_batch argmax is_eos set_gauges close release commit
run_to_end =
    next
      (next
        (next
          (next
            (next (next here (submits started 10 7 (5 ∷ 6 ∷ 8 ∷ []) 2 long refl (omega arith)))
              (submits with_long 11 8 (9 ∷ []) 1 short refl (omega arith)))
            (receives with_both long (short ∷ []) (refl, refl) refl))
          (receives (record with_both { queue = short ∷ []; waiting = long ∷ [] }) short []
            (refl, refl) refl))
        (cycles received 12 13 (refl, refl) refl refl (λ e. cc)))
      (cycles one_round 14 15 (refl, refl) refl refl (λ e. cc))

ends_well : two_rounds.crashed ≡ false
unfolding init cycle formed form form_one admit deliver new_allocator reserve need_blocks step
    forward_batch check_batch argmax is_eos set_gauges close release commit
ends_well = refl

-- What the two clients got, the short request first.
both_answered :
    map (λ (r : Request ℕ). sent_tokens r.out) two_rounds.world.over ≡ (1 ∷ []) ∷ (1 ∷ 0 ∷ []) ∷ []
unfolding init cycle formed form form_one admit deliver new_allocator reserve need_blocks step
    forward_batch check_batch argmax is_eos set_gauges close release commit
both_answered = refl

reach-IsGreedy_example :
    AllKept
      (IsOnTrack naturals greater small counting)
      (IsGreedy naturals greater small counting)
      two_rounds
reach-IsGreedy_example =
    reach-IsGreedy naturals greater small (remembering counting 2) serving (λ _. []) (omega arith)
      run_to_end ends_well

reach_owned_example : All (λ r. held r ≡ 0) two_rounds.world.over × (live_owners 3 two_rounds ≡ 1)
reach_owned_example =
    reach_owned naturals greater small (remembering counting 2) 4 2 3 (λ _. []) (omega arith)
      run_to_end ends_well

-- The longer request as it ended.
abbrev long_answered : Request ℕ
long_answered = record long {
  out = token_event 1 ∷ token_event 0 ∷ done_event ∷ [];
  closed = true;
  seq = some (record { table = []; len = 0 });
  prefilled = true;
  next = 0;
  generated = 2;
  last_tok_at = 15;
}

second_over : get_elem? two_rounds.world.over 1 ≡ some long_answered
unfolding init cycle formed form form_one admit deliver new_allocator reserve need_blocks step
    forward_batch check_batch argmax is_eos set_gauges close release commit
second_over = refl

remembering-IsAnswering : IsAnswering (remembering counting 2) 2 5 4 2
remembering-IsAnswering = record {
  Ready = λ _. Unit;
  answers_one = λ st sf ready taken. (_, refl);
  stays = λ st sf ready taken. tt;
}

reach-eq-generate_example :
    let (_, _, g) =
      generate greater
        (remembering counting 2)
        2
        (negsuc 0)
        (λ _. [])
        (new_allocator 4 2)
        (5 ∷ 6 ∷ 8 ∷ [])
        2 in
    (g.result ≡ ok tt) × (sent_tokens long_answered.out ≡ g.out)
unfolding init remembering-IsAnswering
reach-eq-generate_example =
    reach-eq-generate naturals greater small (remembering counting 2) serving (λ _. []) (λ _. []) 1
      long_answered remembering-IsAnswering tt (omega arith) (omega arith) run_to_end ends_well
      second_over refl (omega arith) (omega arith)
