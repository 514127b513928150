-- ===== src/Scheduler/Draining/Shaped.antt =====
-- The shape of the lists of requests, in every state that a new scheduler reaches.
use kllm.Base.{
  ℕ, ◌<◌, ◌≡◌, refl, sym, subst, ◌⊎◌, inl, inr, List, [], ◌∷◌, Bool, false, arith, All, All-append,
  All-map, ok,
}
use kllm.Platform.{Platform}
use kllm.Kv.{new_allocator}
use kllm.Backend.{Device}
use kllm.Scheduler.{Request, Config, admit, set_gauges}
use kllm.Scheduler.Conservation.{uncrashed}
use kllm.Scheduler.Capacity.{reach_capacity}
use kllm.Scheduler.Faults.{IsSized}
use kllm.Scheduler.Faults.Histories.{IsRunning, HasVocab, IsSound, formed-IsForming, Step-IsSound}
use kllm.Scheduler.Loop.{
  State, give_rows, formed, cycle, halt, init, new_request, new_request-IsAccepted, Step, submits,
  stops, receives, halts, cycles, Reach, here, next,
}
use kllm.Scheduler.Loop.Rounds.{cycle_cases}
use kllm.Scheduler.Draining.Shape.{
  IsStarted, IsPending, FormShape, form-FormShape, IsAdmitted, admit-IsAdmitted, deliver-IsStarted,
}

new_request-IsPending :
    {T : Type 0} (block_size : ℕ) (cfg : Config) (no_time now : T) (ref : ℕ) (prompt : List ℕ)
    (max_new : ℕ) (r : Request T)
    → new_request cfg no_time now ref prompt max_new ≡ ok r
    → IsPending block_size r
new_request-IsPending block_size cfg no_time now ref prompt max_new r made =
    let a = new_request-IsAccepted cfg no_time now ref prompt max_new r made in
    subst (IsPending block_size) (sym a.made)
      (record { not_started = refl; no_len = refl; few = omega arith })

module _ (p : Platform) {V : Type 0} (gt : V → V → Bool) (cfg : Config) (dev : Device V)
    (device_runs : IsRunning dev) (some_vocab : HasVocab cfg) (block_size : ℕ) where
  open p use {Float, Time}

  -- What runs has run; what waits has not, and holds no more than it needs.
  pub record IsShaped (st : State dev.State Float Time) : Type 0 where
    pub sound : IsSound p gt cfg dev device_runs some_vocab st
    pub size : st.world.alloc.block_size ≡ block_size
    pub started : All IsStarted st.running
    pub pending : All (IsPending block_size) st.waiting
    pub queued : All (IsPending block_size) st.queue

  -- What a round keeps of a state.
  pub record IsRound (st v : State dev.State Float Time) : Type 0 where
    pub started : All IsStarted v.running
    pub pending : All (IsPending block_size) v.waiting
    pub queue : v.queue ≡ st.queue
    pub returned : v.returned ≡ st.returned
    pub stopping : v.stopping ≡ st.stopping

  module _ (st : State dev.State Float Time) (h : IsShaped st) where
    abbrev pub admitted : List (Request Time) × List (Request Time)
    admitted = admit cfg.max_batch st.running st.waiting

    pub admitted-IsAdmitted : IsAdmitted block_size st.running admitted
    admitted-IsAdmitted = admit-IsAdmitted block_size cfg.max_batch st.running st.waiting h.pending

    pub formed_well : (formed p gt cfg dev st).crashed ≡ false
    formed_well = (formed-IsForming p gt cfg dev device_runs some_vocab st h.sound).good

    formed-FormShape : FormShape block_size (formed p gt cfg dev st) []
    unfolding formed set_gauges
    formed-FormShape =
        let k = admitted-IsAdmitted in
        let some_size : 0 < block_size = omega (arith, h.size, h.sound.size.some_size) in
        form-FormShape block_size some_size _ admitted.0
          (record {
            size = h.size;
            skipped = tt;
            waiting = k.waiting;
            to_come = subst (All (λ r. IsStarted r ⊎ IsPending block_size r)) (sym k.joined) (
                All-append (λ r. IsStarted r ⊎ IsPending block_size r) st.running k.more
                  (All-map (λ r on. inl on) st.running h.started)
                  (All-map (λ r q. inr q) k.more k.pending));
          })
          formed_well

    pub cycle-IsRound :
        (start now : Time)
        → let v = cycle p gt cfg dev start now st in v.crashed ≡ false → IsRound st v
    unfolding give_rows
    cycle-IsRound start now =
        let shape = formed-FormShape in
        cycle_cases p gt cfg dev (λ v. v.crashed ≡ false → IsRound st v) start now st
          (record {
            crashes = λ bad. absurd (cc (bad, formed_well));
            idles = λ _ _ _. record {
              started = shape.skipped;
              pending = shape.waiting;
              queue = refl;
              returned = refl;
              stopping = refl;
            };
            answers = λ rows _ _ _ fine. record {
              started =
                  deliver-IsStarted p gt cfg now _ (formed p gt cfg dev st).slots rows shape.skipped
                    fine;
              pending = shape.waiting;
              queue = refl;
              returned = refl;
              stopping = refl;
            };
            fails = λ _ _ _ _ _. record {
              started = tt;
              pending = shape.waiting;
              queue = refl;
              returned = refl;
              stopping = refl;
            };
            faults = λ _ _ _ fine. cc;
          })

  -- The three lists.
  abbrev Lists : State dev.State Float Time → Type 0
  Lists st =
      All IsStarted st.running
      × All (IsPending block_size) st.waiting
      × All (IsPending block_size) st.queue

  Step-Lists :
      {u v : State dev.State Float Time}
      → Step p gt cfg dev u v
      → v.crashed ≡ false
      → IsShaped u
      → Lists v
  unfolding halt
  Step-Lists (submits st now ref prompt max_new r made room) good h = (
    h.started,
    h.pending,
    All-append (IsPending block_size) st.queue _ h.queued
        (new_request-IsPending block_size cfg p.no_time now ref prompt max_new r made, tt),
  )
  Step-Lists (stops st going) good h = (h.started, h.pending, h.queued)
  Step-Lists (receives st r rest live e) good h =
      let (first, later) : All (IsPending block_size) (r ∷ rest) =
        subst (All (IsPending block_size)) e h.queued in
      (h.started, All-append (IsPending block_size) st.waiting _ h.pending (first, tt), later)
  Step-Lists (halts st live stop) good h = (tt, tt, h.queued)
  Step-Lists (cycles st start now live going drained busy) good h =
      let r = cycle-IsRound st h start now good in
      (r.started, r.pending, subst (All (IsPending block_size)) (sym r.queue) h.queued)

  pub reach-IsShaped :
      (num_blocks : ℕ) (device : dev.State) {v : State dev.State Float Time}
      → IsSized cfg (new_allocator num_blocks block_size)
      → Reach p gt cfg dev (init p gt cfg dev device (new_allocator num_blocks block_size)) v
      → v.crashed ≡ false
      → IsShaped v
  unfolding init new_allocator
  reach-IsShaped num_blocks device some_size here good = record {
    sound = record { good = refl; size = some_size; running = tt; waiting = tt; queue = tt };
    size = refl;
    started = tt;
    pending = tt;
    queued = tt;
  }
  reach-IsShaped num_blocks device some_size (next reach step) good =
      let before =
        reach-IsShaped num_blocks device some_size reach (uncrashed p gt cfg dev step good) in
      let (started, pending, queued) = Step-Lists step good before in
      record {
        sound = Step-IsSound p gt cfg dev device_runs some_vocab step before.sound;
        size = (reach_capacity p gt cfg dev num_blocks block_size device (next reach step) good).1;
        started = started;
        pending = pending;
        queued = queued;
      }
