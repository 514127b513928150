-- ===== src/Scheduler/Conservation.antt =====
-- The conserved sum over a whole round of the main loop, and over a history of the system.
use kllm.Base.{
  ap, ℕ, ◌+◌, ◌≡◌, refl, ◌∙◌, List, [], ◌∷◌, ◌++◌, map, Bool, false, arith, length,
  scheduler_stopped,
}
use kllm.Platform.{Platform}
use kllm.Kv.{Allocator}
use kllm.Backend.{Device}
use kllm.Scheduler.{
  Request, Config, Slot, Forming, Delivery, done_event, set_gauges, advance, deliver_one, deliver,
}
use kllm.Scheduler.Weight.{
  weigh, weigh_slots, weigh-append, weigh-slot_reqs, world_total, Conserved, form_total,
  fail_all-total, admit-weigh, form-total,
}
use kllm.Scheduler.Results.{advanced, counted, deliver_one_cases, deliver_inv}
use kllm.Scheduler.Loop.Rounds.{cycle_cases}
use kllm.Scheduler.Loop.{
  State, give_rows, formed, cycle, halt, Step, submits, stops, receives, halts, cycles, Reach, here,
  next, sent, all_sent,
}

-- The sum over the whole state: the free blocks, the requests that are over, and those in the
-- queue and in the two lists.
abbrev pub sys_total : {D F T : Type 0} → (Allocator → ℕ) → (Request T → ℕ) → State D F T → ℕ
sys_total φ wt st =
    world_total φ wt st.world + weigh wt st.queue + weigh wt st.running + weigh wt st.waiting

module _ (p : Platform) {V : Type 0} (gt : V → V → Bool) (cfg : Config) (dev : Device V) where
  open p use {Float, Time}

  -- A panic is for good.
  pub uncrashed :
      {u v : State dev.State Float Time}
      → Step p gt cfg dev u v
      → v.crashed ≡ false
      → u.crashed ≡ false
  unfolding halt
  uncrashed (submits st now ref prompt max_new r made room) good = good
  uncrashed (stops st going) good = good
  uncrashed (receives st r rest live e) good = live.1
  uncrashed (halts st live stop) good = live.1
  uncrashed (cycles st start now live going drained busy) good = live.1

module _ (p : Platform) {V : Type 0} (gt : V → V → Bool) (cfg : Config) (dev : Device V) where
  open p use {Float, Time}

  module _ {φ : Allocator → ℕ} {wt : Request Time → ℕ} (laws : Conserved Float Time φ wt)
      (on_advance : (r : Request Time) (fed tok : ℕ) (now : Time)
        → wt (advance p gt cfg r fed tok now) ≡ wt r) where
    open laws use {on_close}

    abbrev delivery_total : Delivery Float Time → List (Slot Time) → ℕ
    delivery_total d left = world_total φ wt d.world + weigh wt d.next + weigh_slots wt left

    deliver_one-total :
        (now : Time) (d : Delivery Float Time) (slot : Slot Time) (left : List (Slot Time))
        (row : List V)
        → let e = deliver_one p gt cfg now d slot row in
          e.crashed ≡ false → delivery_total e left ≡ delivery_total d (slot ∷ left)
    deliver_one-total now d slot left row =
        deliver_one_cases p gt cfg
          (λ e. e.crashed ≡ false → delivery_total e left ≡ delivery_total d (slot ∷ left)) now d
          slot row (λ _ good. cc)
          (λ tok _ _ _. omega (
            arith,
            on_close (counted p gt cfg d slot now) (advanced p gt cfg slot tok now) done_event,
            on_advance slot.req (length slot.sf.tokens) tok now,
          ))
          (λ tok _ _ _. omega (
            arith,
            weigh-append wt d.next (advanced p gt cfg slot tok now ∷ []),
            on_advance slot.req (length slot.sf.tokens) tok now,
          ))

    deliver-total :
        (now : Time) (d : Delivery Float Time) (slots : List (Slot Time)) (rows : List (List V))
        → let e = deliver p gt cfg now d slots rows in
          e.crashed ≡ false → delivery_total e [] ≡ delivery_total d slots
    deliver-total now d slots rows good =
        deliver_inv p gt cfg
          (λ e left. e.crashed ≡ false → delivery_total e left ≡ delivery_total d slots) now
          (λ e slot left row h fine fine'. deliver_one-total now e slot left row fine' ∙ h fine) d
          slots rows (λ _. refl) good good

    pub formed-total :
        (st : State dev.State Float Time)
        → let f = formed p gt cfg dev st in
          f.crashed ≡ false → form_total laws f + weigh wt st.queue ≡ sys_total φ wt st
    unfolding formed set_gauges
    formed-total st good =
        omega
          (arith, form-total laws _ _ good, admit-weigh laws cfg.max_batch st.running st.waiting)

    give_rows-total :
        (start now : Time) (st : State dev.State Float Time) (f : Forming Float Time)
        (rows : List (List V))
        → let v = give_rows p gt cfg dev start now st f rows in
          v.crashed ≡ false → sys_total φ wt v ≡ form_total laws f + weigh wt st.queue
    unfolding give_rows
    give_rows-total start now st f rows good = omega (arith, deliver-total now _ f.slots rows good)

    pub cycle-total :
        (start now : Time) (st : State dev.State Float Time)
        → let v = cycle p gt cfg dev start now st in
          v.crashed ≡ false → sys_total φ wt v ≡ sys_total φ wt st
    cycle-total start now st =
        cycle_cases p gt cfg dev (λ v. v.crashed ≡ false → sys_total φ wt v ≡ sys_total φ wt st)
          start now st
          (record {
            crashes = λ _ good. cc;
            idles = λ good none_left _.
                omega (arith, formed-total st good, ap (weigh_slots wt) none_left);
            answers = λ rows good _ _ fine.
                omega (arith, formed-total st good, give_rows-total start now _ _ rows fine);
            fails = λ e good _ _ _. omega (
              arith,
              formed-total st good,
              fail_all-total laws (formed p gt cfg dev st).world _ e,
              weigh-append wt (map (λ (s : Slot Time). s.req) (formed p gt cfg dev st).slots)
                  (formed p gt cfg dev st).skipped,
              weigh-slot_reqs wt (formed p gt cfg dev st).slots,
            );
            faults = λ _ _ _ good. cc;
          })

    halt-total :
        (st : State dev.State Float Time)
        → sys_total φ wt (halt p gt cfg dev st) ≡ sys_total φ wt st
    unfolding halt
    halt-total st = omega (
      arith,
      fail_all-total laws st.world (st.running ++ st.waiting) scheduler_stopped,
      weigh-append wt st.running st.waiting,
    )

    Step-total :
        {u v : State dev.State Float Time} (s : Step p gt cfg dev u v)
        → v.crashed ≡ false
        → sys_total φ wt v ≡ sys_total φ wt u + weigh wt (sent p gt cfg dev s)
    Step-total (submits st now ref prompt max_new r made room) good =
        omega (arith, weigh-append wt st.queue (r ∷ []))
    Step-total (stops st going) good = omega arith
    Step-total (receives st r rest live e) good =
        omega (arith, ap (weigh wt) e, weigh-append wt st.waiting (r ∷ []))
    Step-total (halts st live stop) good = omega (arith, halt-total st)
    Step-total (cycles st start now live going drained busy) good =
        omega (arith, cycle-total start now st good)

    -- The sum grows by what the clients submit, and by nothing else, until a panic.
    pub reach-total :
        {u v : State dev.State Float Time} (reach : Reach p gt cfg dev u v)
        → v.crashed ≡ false
        → sys_total φ wt v ≡ sys_total φ wt u + weigh wt (all_sent p gt cfg dev reach)
    reach-total here good = omega arith
    reach-total (next {u = m} reach step) good = omega (
      arith,
      Step-total step good,
      reach-total reach (uncrashed p gt cfg dev step good),
      weigh-append wt (all_sent p gt cfg dev reach) (sent p gt cfg dev step),
    )
