-- ===== src/Scheduler/Draining/Rounds.antt =====
-- What a draining scheduler keeps from round to round, and that each round gets it closer to the end.
use kllm.Base.{
  ℕ, ◌+◌, ◌≤◌, ◌<◌, ◌≡◌, ◌≢◌, refl, sym, ap, subst, ◌∙◌, inl, inr, List, [], ◌∷◌, ◌++◌, Bool, false,
  Option, arith, length, All, All-append, All-map,
}
use kllm.Platform.{Platform}
use kllm.Kv.{Sequence}
use kllm.Backend.{Device}
use kllm.Scheduler.{Request, Config, Slot, Forming, admit, form, set_gauges, advance}
use kllm.Scheduler.Weight.{weigh, weigh_slots, admit-weigh}
use kllm.Scheduler.Conservation.{sys_total}
use kllm.Scheduler.Capacity.{held, numbered, cycle-capacity}
use kllm.Scheduler.Every.{admit-All}
use kllm.Scheduler.Every.Histories.{AllKept, formed-Kept, cycle-Kept}
use kllm.Scheduler.Streams.{IsOpen, IsComplete, streams}
use kllm.Scheduler.Faults.{HasSeq}
use kllm.Scheduler.Faults.Histories.{IsRunning, HasVocab, IsSound, cycle-IsSound}
use kllm.Scheduler.Loop.{State, formed, cycle}
use kllm.Scheduler.Draining.{left, claim, live, form-live, admit-live}
use kllm.Scheduler.Draining.Shaped.{
  IsShaped, IsRound, admitted, admitted-IsAdmitted, formed_well, cycle-IsRound,
}
use kllm.Scheduler.Draining.Shape.{IsPending, IsAdmitted, weigh-claim, admit-some}
use kllm.Scheduler.Draining.Progress.{Moves, cycle-less}
use kllm.Scheduler.Draining.Ready.{
  IsFitting, IsReleased, fitting, weigh-released, IsReady, ready-Moves,
}

-- Something is admitted where anything is live.
admitted-busy :
    {T : Type 0} (block_size max_batch : ℕ) (running waiting : List (Request T))
    → 0 < max_batch
    → All (IsPending block_size) waiting
    → (k : IsAdmitted block_size running (admit max_batch running waiting))
    → running ++ waiting ≢ []
    → running ++ k.more ≢ []
admitted-busy block_size max_batch [] [] some_batch h k busy = absurd (busy refl)
admitted-busy block_size max_batch [] (r ∷ waiting) some_batch h k busy =
    λ empty. admit-some block_size max_batch r waiting some_batch h (k.joined ∙ empty)
admitted-busy block_size max_batch (r ∷ running) waiting some_batch h k busy = λ empty. cc

some_loss : {T : Type 0} (slots : List (Slot T)) → 0 < length slots → 0 < weigh_slots (λ _. 1) slots
some_loss [] h = absurd (omega arith)
some_loss (s ∷ slots) h = omega arith

module _ (p : Platform) {V : Type 0} (gt : V → V → Bool) (cfg : Config) (dev : Device V)
    (device_runs : IsRunning dev) (some_vocab : HasVocab cfg) (some_batch : 0 < cfg.max_batch)
    (num_blocks block_size : ℕ) where
  open p use {Float, Time}

  -- A state whose prompts fit the cache together, with nothing in the queue.
  pub record IsDraining (st : State dev.State Float Time) : Type 0 where
    pub shaped : IsShaped p gt cfg dev device_runs some_vocab block_size st
    pub opened : AllKept IsOpen IsComplete st
    pub fit : AllKept (IsFitting cfg) IsReleased st
    pub number : sys_total (λ a. length a.free) held st ≡ num_blocks
    pub claims :
        weigh (claim block_size) st.running + weigh (claim block_size) st.waiting ≤ num_blocks
    pub queue : st.queue ≡ []

  module _ (st : State dev.State Float Time) (h : IsDraining st) where
    abbrev lists : List (Request Time) × List (Request Time)
    lists = admitted p gt cfg dev device_runs some_vocab block_size st h.shaped

    abbrev k : IsAdmitted block_size st.running lists
    k = admitted-IsAdmitted p gt cfg dev device_runs some_vocab block_size st h.shaped

    forms : (formed p gt cfg dev st).crashed ≡ false
    forms = formed_well p gt cfg dev device_runs some_vocab block_size st h.shaped

    -- What is free, and what the admitted requests hold, is enough for what they claim.
    blocks_enough :
        weigh (claim block_size) (st.running ++ k.more)
        ≤ length st.world.alloc.free + weigh held (st.running ++ k.more)
    blocks_enough = omega (
      arith,
      h.number,
      h.claims,
      ap (weigh (held {T = Time})) h.queue,
      weigh-released st.world.over h.fit.over,
      admit-weigh (numbered Float Time) cfg.max_batch st.running st.waiting,
      admit-live (claim block_size) (λ _ _. refl) cfg.max_batch st.running st.waiting,
      weigh-claim block_size lists.1 k.waiting,
      ap (weigh (held {T = Time})) k.joined,
      ap (weigh (claim block_size)) k.joined,
    )

    -- Forming the batch adds no work.
    not_more :
        (wt : Request Time → ℕ)
        (on_seq : (r : Request Time) (o : Option Sequence) → wt (record r { seq = o }) ≡ wt r)
        → live wt on_seq (formed p gt cfg dev st) [] ≤ weigh wt st.running + weigh wt st.waiting
    unfolding formed set_gauges
    not_more wt on_seq = omega (
      arith,
      (form-live wt on_seq _ lists.0 forms).0,
      admit-live wt on_seq cfg.max_batch st.running st.waiting,
    )

    opening_Moves :
        st.running ++ st.waiting ≢ []
        → Moves (formed p gt cfg dev st) [] (weigh left st.running + weigh left st.waiting)
    unfolding formed set_gauges
    opening_Moves busy =
        let f0 : Forming Float Time = record {
          world = set_gauges p gt cfg st.world (length lists.0) (length lists.1);
          budget = cfg.max_step_tokens;
          slots = [];
          skipped = [];
          waiting = lists.1;
          crashed = false;
        } in
        let (fits, _) =
          admit-All p gt cfg (fitting p gt cfg) cfg.max_batch st.running st.waiting h.fit.running
            h.fit.waiting in
        let (opened, _) =
          admit-All p gt cfg (streams p gt cfg) cfg.max_batch st.running st.waiting h.opened.running
            h.opened.waiting in
        let ready : IsReady cfg block_size f0 st.running k.more = record {
          started = h.shaped.started;
          pending = k.pending;
          seqs =
              All-append HasSeq st.running k.more
                (All-map (λ r steady. steady.0) st.running h.shaped.sound.running) k.seqs;
          fitting = subst (All (IsFitting cfg)) k.joined fits;
          opened = subst (All IsOpen) k.joined opened;
          budget = refl;
          size = h.shaped.size;
          some_size = omega (arith, h.shaped.size, h.shaped.sound.size.some_size);
          enough = blocks_enough;
        } in
        let before : live left (λ _ _. refl) f0 lists.0
            ≡ weigh left st.running + weigh left st.waiting =
          omega (arith, admit-live left (λ _ _. refl) cfg.max_batch st.running st.waiting) in
        subst (Moves (formed p gt cfg dev st) []) before (
          subst
            (λ rs.
              (form f0 rs).crashed ≡ false → Moves (form f0 rs) [] (live left (λ _ _. refl) f0 rs))
            (sym k.joined)
            (ready-Moves cfg block_size f0 st.running k.more ready
              (admitted-busy block_size cfg.max_batch st.running st.waiting some_batch
                h.shaped.pending k busy)
              refl)
            forms)

    module _ (start now : Time) where
      abbrev after : State dev.State Float Time
      after = cycle p gt cfg dev start now st

      pub after-IsSound : IsSound p gt cfg dev device_runs some_vocab after
      after-IsSound = cycle-IsSound p gt cfg dev device_runs some_vocab start now st h.shaped.sound

      -- Each round that finds a live request leaves less to do.
      pub after_left :
          st.running ++ st.waiting ≢ []
          → weigh left after.running + weigh left after.waiting
            < weigh left st.running + weigh left st.waiting
      unfolding advance
      after_left busy = decided (opening_Moves busy) (
          cycle-less p gt cfg dev left 1 (λ _ _. refl)
            (λ r fed tok now (o : IsOpen r). omega (arith, o.more)) start now st
            (λ good. (formed-Kept p gt cfg dev (streams p gt cfg) st h.opened good).slots)
            after-IsSound.good)
        where
          decided :
              Moves (formed p gt cfg dev st) [] (weigh left st.running + weigh left st.waiting)
              → weigh left after.running
                  + weigh left after.waiting
                  + weigh_slots (λ _. 1) (formed p gt cfg dev st).slots
                ≤ live left (λ _ _. refl) (formed p gt cfg dev st) []
              → weigh left after.running + weigh left after.waiting
                < weigh left st.running + weigh left st.waiting
          decided (inl some_slot) less = omega (
            arith,
            less,
            some_loss (formed p gt cfg dev st).slots some_slot,
            not_more left (λ _ _. refl),
          )
          decided (inr fewer) less = omega (arith, less, fewer)

      pub after-IsDraining : IsDraining after
      unfolding advance
      after-IsDraining = record {
        shaped = record {
          sound = after-IsSound;
          size = capacity.1 ∙ h.shaped.size;
          started = round.started;
          pending = round.pending;
          queued = subst (All (IsPending block_size)) (sym round.queue) h.shaped.queued;
        };
        opened =
            cycle-Kept p gt cfg dev (streams p gt cfg) start now st h.opened after-IsSound.good;
        fit = cycle-Kept p gt cfg dev (fitting p gt cfg) start now st h.fit after-IsSound.good;
        number = capacity.0 ∙ h.number;
        claims = omega (
          arith,
          h.claims,
          not_more (claim block_size) (λ _ _. refl),
          cycle-less p gt cfg dev (claim block_size) 0 {P = λ _. Unit {0}} (λ _ _. refl)
              (λ r fed tok now _. claim-advance r fed tok now) start now st
              (λ _. all_true (formed p gt cfg dev st).slots) after-IsSound.good,
        );
        queue = round.queue ∙ h.queue;
      }
        where
          capacity :
              (sys_total (λ a. length a.free) held after ≡ sys_total (λ a. length a.free) held st)
              × (after.world.alloc.block_size ≡ st.world.alloc.block_size)
          capacity = cycle-capacity p gt cfg dev start now st after-IsSound.good

          round : IsRound p gt cfg dev device_runs some_vocab block_size st after
          round =
              cycle-IsRound p gt cfg dev device_runs some_vocab block_size st h.shaped start now
                after-IsSound.good

          claim-advance :
              (r : Request Time) (fed tok : ℕ) (now : Time)
              → claim block_size (advance p gt cfg r fed tok now) + 0 ≤ claim block_size r
          claim-advance r fed tok now = omega arith

          all_true : (slots : List (Slot Time)) → All (λ _. Unit {0}) slots
          all_true [] = tt
          all_true (s ∷ slots) = (tt, all_true slots)
