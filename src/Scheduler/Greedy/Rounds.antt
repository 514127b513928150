-- ===== src/Scheduler/Greedy/Rounds.antt =====
-- The tokens of every request over a round of the main loop and over each other step.
use kllm.Base.{
  ℕ, ◌+◌, ◌≤◌, ◌≡◌, sym, subst, List, [], ◌∷◌, ◌++◌, map, Bool, false, arith, length, count, All,
  All-append, All-map, scheduler_stopped, ok,
}
use kllm.Platform.{Platform}
use kllm.Backend.{Device}
use kllm.Scheduler.{Request, Config, Slot, Forming}
use kllm.Scheduler.Weight.{weigh, weigh_slots}
use kllm.Scheduler.Conservation.{sys_total, formed-total}
use kllm.Scheduler.Blocks.{blocks, owned, owners, count-advance}
use kllm.Scheduler.Capacity.{held}
use kllm.Scheduler.Loop.{
  State, give_rows, formed, cycle, halt, Step, submits, stops, receives, halts, cycles,
}
use kllm.Scheduler.Loop.Rounds.{pass, cycle_cases}
use kllm.Scheduler.Greedy.{IsFresh, IsOnTrack, IsFresh-IsOnTrack, new_request-IsFresh}
use kllm.Scheduler.Greedy.Forming.{Serving, IsFed, IsJoined, FormGreedy, fail_all-IsGreedy}
use kllm.Scheduler.Greedy.Batch.{IsServed, formed-FormGreedy}
use kllm.Scheduler.Greedy.Delivery.{deliver-IsFed}
use kllm.Scheduler.Greedy.Pass.{Served, pass-Served}

-- What the blocks of a state are known to be: of one size, all there, and each with one owner.
pub record IsTidy {D F T : Type 0} (num_blocks block_size : ℕ) (st : State D F T) : Type 0 where
  pub number : sys_total (λ a. length a.free) held st ≡ num_blocks
  pub size : st.world.alloc.block_size ≡ block_size
  pub once : (x : ℕ) → owners x st ≤ 1

module _ (p : Platform) {V : Type 0} (gt : V → V → Bool) (cfg : Config) (dev : Device V)
    {num_blocks block_size : ℕ} {model : List ℕ → List V}
    (serving : Serving cfg dev num_blocks block_size model) where
  open p use {Float, Time}
  open serving use {paged}

  abbrev Fed : dev.State → Request Time → Type 0
  Fed st = IsFed p gt cfg dev serving st

  IsFed-left :
      (st st' : dev.State) (slots : List (Slot Time)) (rows : List (List V))
      → Served p gt cfg dev serving st st' slots rows
      → (rs : List (Request Time))
      → ((x : ℕ)
          → weigh (λ r. count x (blocks r)) rs + weigh_slots (λ r. count x (blocks r)) slots ≤ 1)
      → All (Fed st) rs
      → All (Fed st') rs
  IsFed-left st st' slots rows served [] once h = tt
  IsFed-left st st' slots rows served (r ∷ rs) once h = (
    record {
      on_track = h.0.on_track;
      joined = h.0.joined;
      len = h.0.len;
      kept = served.left (blocks r) _ (λ x. omega (arith, once x)) h.0.kept;
      covered = h.0.covered;
      fresh = h.0.fresh;
    },
    IsFed-left st st' slots rows served rs (λ x. omega (arith, once x)) h.1,
  )

  slots-IsOnTrack :
      (st : dev.State) (slots : List (Slot Time))
      → All (IsJoined p gt cfg dev serving st) slots
      → All (IsOnTrack p gt cfg model) (map (λ s. s.req) slots)
  slots-IsOnTrack st [] h = tt
  slots-IsOnTrack st (s ∷ slots) h = (h.0.on_track, slots-IsOnTrack st slots h.1)

  pub running-IsOnTrack :
      (st : dev.State) (rs : List (Request Time))
      → All (Fed st) rs
      → All (IsOnTrack p gt cfg model) rs
  running-IsOnTrack st rs h = All-map (λ r (k : Fed st r). k.on_track) rs h

  pub waiting-IsOnTrack :
      (rs : List (Request Time)) → All IsFresh rs → All (IsOnTrack p gt cfg model) rs
  waiting-IsOnTrack rs h = All-map (λ r k. IsFresh-IsOnTrack p gt cfg model r k) rs h

  module _ (st : State dev.State Float Time) (h : IsServed p gt cfg dev serving st)
      (tidy : IsTidy num_blocks block_size st)
      (good : (formed p gt cfg dev st).crashed ≡ false) where
    abbrev f : Forming Float Time
    f = formed p gt cfg dev st

    kept : FormGreedy p gt cfg dev serving st.device f []
    kept = formed-FormGreedy p gt cfg dev serving st h tidy.number tidy.size good

    formed_once :
        (x : ℕ)
        → weigh (λ r. count x (blocks r)) f.skipped + weigh_slots (λ r. count x (blocks r)) f.slots
          ≤ 1
    formed_once x = omega (
      arith,
      tidy.once x,
      formed-total p gt cfg dev (owned Float Time x) (count-advance p gt cfg dev x) st good,
    )

    give_rows-IsServed :
        (start now : Time) (rows : List (List V))
        → (pass p gt cfg dev st f).1 ≡ ok rows
        → let v =
            give_rows p gt cfg dev start now
              (record st { device = (pass p gt cfg dev st f).0 })
              f
              rows in
          v.crashed ≡ false → IsServed p gt cfg dev serving v
    unfolding give_rows
    give_rows-IsServed start now rows e =
        let st' = (pass p gt cfg dev st f).0 in
        let served : Served p gt cfg dev serving st.device st' f.slots rows =
          pass-Served p gt cfg dev serving st.device f.slots rows kept.slots
            (λ x. omega (arith, formed_once x)) e in
        subst
          (λ (out : List (List V)).
            let v = give_rows p gt cfg dev start now (record st { device = st' }) f out in
            v.crashed ≡ false → IsServed p gt cfg dev serving v)
          (sym served.answered)
          (λ fine.
            let (over, running) =
              deliver-IsFed p gt cfg dev serving st' now _ f.slots kept.over
                (IsFed-left st.device st' f.slots rows served f.skipped formed_once kept.skipped)
                served.stored fine in
            record { over = over; queue = h.queue; running = running; waiting = kept.waiting })

  cycle-IsServed :
      (start now : Time) (st : State dev.State Float Time)
      → IsServed p gt cfg dev serving st
      → IsTidy num_blocks block_size st
      → (cycle p gt cfg dev start now st).crashed ≡ false
      → IsServed p gt cfg dev serving (cycle p gt cfg dev start now st)
  cycle-IsServed start now st h tidy =
      cycle_cases p gt cfg dev (λ v. v.crashed ≡ false → IsServed p gt cfg dev serving v) start now
        st
        (record {
          crashes = λ _ fine. cc;
          idles = λ good _ _.
              (let k = kept st h tidy good in
                record {
                  over = k.over;
                  queue = h.queue;
                  running = k.skipped;
                  waiting = k.waiting;
                });
          answers = λ rows good _ e. give_rows-IsServed st h tidy good start now rows e;
          fails = λ e good _ _ _.
              (let k = kept st h tidy good in
                record {
                  over =
                      fail_all-IsGreedy p gt cfg dev serving _ _ e
                        (All-append (IsOnTrack p gt cfg model) _ _
                          (slots-IsOnTrack st.device (f st h tidy good).slots k.slots)
                          (running-IsOnTrack st.device _ k.skipped))
                        k.over;
                  queue = h.queue;
                  running = tt;
                  waiting = k.waiting;
                });
          faults = λ _ _ _ fine. cc;
        })

  pub Step-IsServed :
      {u v : State dev.State Float Time}
      → Step p gt cfg dev u v
      → v.crashed ≡ false
      → IsTidy num_blocks block_size u
      → IsServed p gt cfg dev serving u
      → IsServed p gt cfg dev serving v
  unfolding halt
  Step-IsServed (submits st now ref prompt max_new r made room) good tidy h = record {
    over = h.over;
    queue =
        All-append IsFresh st.queue _ h.queue
          (new_request-IsFresh cfg p.no_time now ref prompt max_new r made, tt);
    running = h.running;
    waiting = h.waiting;
  }
  Step-IsServed (stops st going) good tidy h = record {
    over = h.over;
    queue = h.queue;
    running = h.running;
    waiting = h.waiting;
  }
  Step-IsServed (receives st r rest live e) good tidy h =
      let (first, later) : All IsFresh (r ∷ rest) = subst (All IsFresh) e h.queue in
      record {
        over = h.over;
        queue = later;
        running = h.running;
        waiting = All-append IsFresh st.waiting _ h.waiting (first, tt);
      }
  Step-IsServed (halts st live stop) good tidy h = record {
    over =
        fail_all-IsGreedy p gt cfg dev serving st.world (st.running ++ st.waiting) scheduler_stopped
          (All-append (IsOnTrack p gt cfg model) st.running st.waiting
            (running-IsOnTrack st.device st.running h.running)
            (waiting-IsOnTrack st.waiting h.waiting))
          h.over;
    queue = h.queue;
    running = tt;
    waiting = tt;
  }
  Step-IsServed (cycles st start now live going drained busy) good tidy h =
      cycle-IsServed start now st h tidy good
