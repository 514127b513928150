-- ===== src/Scheduler/Every/Histories.antt =====
-- The two properties over a round of the main loop and over a history of the system.
use kllm.Base.{
  ◌≡◌, subst, List, [], ◌∷◌, ◌++◌, map, Bool, false, All, All-append, scheduler_stopped,
}
use kllm.Platform.{Platform}
use kllm.Backend.{Device}
use kllm.Scheduler.{Request, Config, Slot, Forming, set_gauges}
use kllm.Scheduler.Batching.{form_inv}
use kllm.Scheduler.Results.{deliver_inv}
use kllm.Scheduler.Loop.{
  State, give_rows, formed, cycle, halt, Step, submits, stops, receives, halts, cycles, Reach, here,
  next,
}
use kllm.Scheduler.Loop.Rounds.{cycle_cases}
use kllm.Scheduler.Conservation.{uncrashed}
use kllm.Scheduler.Every.{
  Kept, AllSlots, FormKept, DeliveryKept, fail_all-over, admit-All, form_one-Kept, deliver_one-Kept,
}

-- Every live request has the one property and every request that is over the other.
pub record AllKept {D F T : Type 0} (P Q : Request T → Type 0) (st : State D F T) : Type 0 where
  pub over : All Q st.world.over
  pub queue : All P st.queue
  pub running : All P st.running
  pub waiting : All P st.waiting

module _ (p : Platform) {V : Type 0} (gt : V → V → Bool) (cfg : Config) (dev : Device V)
    {P Q : Request p.Time → Type 0} (laws : Kept p gt cfg P Q) where
  open p use {Float, Time}
  open laws use {on_request}

  pub formed-Kept :
      (st : State dev.State Float Time)
      → AllKept P Q st
      → (formed p gt cfg dev st).crashed ≡ false
      → FormKept p gt cfg laws (formed p gt cfg dev st) []
  unfolding formed set_gauges
  formed-Kept st k =
      let (ps, qs) =
        admit-All p gt cfg laws cfg.max_batch st.running st.waiting k.running k.waiting in
      form_inv (FormKept p gt cfg laws) (λ f r left h _. form_one-Kept p gt cfg laws f r left h) _ _
        (record { over = k.over; slots = tt; skipped = tt; waiting = qs; to_come = ps })

  give_rows-Kept :
      (start now : Time) (st : State dev.State Float Time) (f : Forming Float Time)
      (rows : List (List V))
      → All P st.queue
      → FormKept p gt cfg laws f []
      → let v = give_rows p gt cfg dev start now st f rows in v.crashed ≡ false → AllKept P Q v
  unfolding give_rows
  give_rows-Kept start now st f rows queue k good =
      let (over, ps, _) =
        deliver_inv p gt cfg (DeliveryKept p gt cfg laws) now
          (λ d slot left row h _. deliver_one-Kept p gt cfg laws now d slot left row h) _ f.slots
          rows (k.over, k.skipped, k.slots) good in
      record { over = over; queue = queue; running = ps; waiting = k.waiting }

  All-slot_reqs : (slots : List (Slot Time)) → AllSlots P slots → All P (map (λ s. s.req) slots)
  All-slot_reqs [] h = tt
  All-slot_reqs (s ∷ slots) h = (h.0, All-slot_reqs slots h.1)

  pub cycle-Kept :
      (start now : Time) (st : State dev.State Float Time)
      → AllKept P Q st
      → (cycle p gt cfg dev start now st).crashed ≡ false
      → AllKept P Q (cycle p gt cfg dev start now st)
  cycle-Kept start now st k =
      cycle_cases p gt cfg dev (λ v. v.crashed ≡ false → AllKept P Q v) start now st
        (record {
          crashes = λ _ good. cc;
          idles = λ good _ _.
              (let k' = formed-Kept st k good in
                record {
                  over = k'.over;
                  queue = k.queue;
                  running = k'.skipped;
                  waiting = k'.waiting;
                });
          answers =
              λ rows good _ _. give_rows-Kept start now _ _ rows k.queue (formed-Kept st k good);
          fails = λ e good _ _ _.
              (let k' = formed-Kept st k good in
                record {
                  over =
                      fail_all-over p gt cfg laws _ _ e
                        (All-append P _ _ (All-slot_reqs (formed p gt cfg dev st).slots k'.slots)
                          k'.skipped)
                        k'.over;
                  queue = k.queue;
                  running = tt;
                  waiting = k'.waiting;
                });
          faults = λ _ _ _ good. cc;
        })

  halt-Kept :
      (st : State dev.State Float Time) → AllKept P Q st → AllKept P Q (halt p gt cfg dev st)
  unfolding halt
  halt-Kept st k = record {
    over =
        fail_all-over p gt cfg laws st.world (st.running ++ st.waiting) scheduler_stopped
          (All-append P st.running st.waiting k.running k.waiting) k.over;
    queue = k.queue;
    running = tt;
    waiting = tt;
  }

  Step-Kept :
      {u v : State dev.State Float Time}
      → Step p gt cfg dev u v
      → v.crashed ≡ false
      → AllKept P Q u
      → AllKept P Q v
  Step-Kept (submits st now ref prompt max_new r made room) good k = record {
    over = k.over;
    queue =
        All-append P st.queue (r ∷ []) k.queue
          (on_request p.no_time now ref prompt max_new r made, tt);
    running = k.running;
    waiting = k.waiting;
  }
  Step-Kept (stops st going) good k = record {
    over = k.over;
    queue = k.queue;
    running = k.running;
    waiting = k.waiting;
  }
  Step-Kept (receives st r rest live e) good k =
      let ps : All P (r ∷ rest) = subst (All P) e k.queue in
      record {
        over = k.over;
        queue = ps.1;
        running = k.running;
        waiting = All-append P st.waiting (r ∷ []) k.waiting (ps.0, tt);
      }
  Step-Kept (halts st live stop) good k = halt-Kept st k
  Step-Kept (cycles st start now live going drained busy) good k = cycle-Kept start now st k good

  pub reach-Kept :
      {u v : State dev.State Float Time}
      → Reach p gt cfg dev u v
      → v.crashed ≡ false
      → AllKept P Q u
      → AllKept P Q v
  reach-Kept here good k = k
  reach-Kept (next reach step) good k =
      Step-Kept step good (reach-Kept reach (uncrashed p gt cfg dev step good) k)
