-- ===== src/Scheduler/Draining/Ending.antt =====
-- The main loop of `run` while no client sends anything: it comes to the idle wait.
use kllm.Base.{
  ℕ, zero, suc, ◌+◌, ◌≤◌, ◌<◌, ◌≡◌, ◌≢◌, refl, ap, ◌∙◌, List, [], ◌∷◌, ◌++◌, Bool, false, arith,
  length, All, All-append,
}
use kllm.Platform.{Platform}
use kllm.Kv.{new_allocator}
use kllm.Backend.{Device}
use kllm.Scheduler.{Request, Config, close}
use kllm.Scheduler.Weight.{weigh, weigh-append, Conserved}
use kllm.Scheduler.Conservation.{sys_total, cycle-total}
use kllm.Scheduler.Capacity.{reach_capacity}
use kllm.Scheduler.Every.Histories.{reach-Kept}
use kllm.Scheduler.Streams.{IsOpen, reach_streams}
use kllm.Scheduler.Faults.{IsSized}
use kllm.Scheduler.Faults.Histories.{IsRunning, HasVocab, reach_sound}
use kllm.Scheduler.Loop.{State, cycle, init, cycles, Reach, here, next}
use kllm.Scheduler.Draining.{left, claim}
use kllm.Scheduler.Draining.Shape.{IsStarted}
use kllm.Scheduler.Draining.Ready.{fitting}
use kllm.Scheduler.Draining.Shaped.{cycle-IsRound, reach-IsShaped}
use kllm.Scheduler.Draining.Rounds.{IsDraining, after-IsSound, after_left, after-IsDraining}

-- The rounds of the loop, at most so many, until nothing runs and nothing waits; the queue is empty
-- and no stop is asked for. `clock` gives the two readings of each round.
unfoldable pub rounds :
    (p : Platform) {V : Type 0} (gt : V → V → Bool) (cfg : Config) (dev : Device V)
    → (ℕ → p.Time × p.Time)
    → ℕ
    → State dev.State p.Float p.Time
    → State dev.State p.Float p.Time
rounds p gt cfg dev clock zero st = st
rounds p gt cfg dev clock (suc n) st = elim (st.running ++ st.waiting) [
  | [] ↦ st
  | _ ∷ _ ↦
      let (start, now) = clock n in rounds p gt cfg dev clock n (cycle p gt cfg dev start now st)
]

weigh-one : {T : Type 0} (rs : List (Request T)) → weigh (λ _. 1) rs ≡ length rs
weigh-one [] = refl
weigh-one (r ∷ rs) = omega (arith, weigh-one rs)

numbers : (F T : Type 0) → Conserved F T (λ _. 0) (λ _. 1)
unfolding close
numbers F T = record {
  on_close = λ w r ev. omega (arith, weigh-append (λ (q : Request T). 1) w.over);
  on_step = λ a r s tokens e. refl;
  on_with_seq = λ r. refl;
}

-- What has run claims nothing.
started-claim :
    {T : Type 0} (block_size : ℕ) (rs : List (Request T))
    → All IsStarted rs
    → weigh (claim block_size) rs ≡ 0
started-claim block_size [] h = refl
started-claim block_size (r ∷ rs) h =
    let none_claimed : claim block_size r ≡ 0 = rw h.0 refl in
    omega (arith, none_claimed, started-claim block_size rs h.1)

-- Nothing in two lists.
both_empty : {T : Type 0} (xs ys : List T) → xs ++ ys ≡ [] → (xs ≡ []) × (ys ≡ [])
both_empty [] [] e = (refl, refl)
both_empty [] (y ∷ ys) e = cc
both_empty (x ∷ xs) ys e = cc

no_work : {T : Type 0} (rs : List (Request T)) → All IsOpen rs → weigh left rs ≤ 0 → rs ≡ []
no_work [] h none_left = refl
no_work (r ∷ rs) h none_left = absurd (omega (arith, h.0.more))

busy_cases {ℓ κ λ'} :
    {T : Type κ} {A : Type λ'} (P : A → Type ℓ) (rs : List T) (x y : A)
    → (rs ≡ [] → P x)
    → (rs ≢ [] → P y)
    → P (elim rs [ [] ↦ x | _ ∷ _ ↦ y ])
busy_cases P [] x y f g = f refl
busy_cases P (r ∷ rs) x y f g = g (λ e. cc)

module _ (p : Platform) {V : Type 0} (gt : V → V → Bool) (cfg : Config) (dev : Device V) where
  open p use {Float, Time}

  reach_trans :
      {s t u : State dev.State Float Time}
      → Reach p gt cfg dev s t
      → Reach p gt cfg dev t u
      → Reach p gt cfg dev s u
  reach_trans first here = first
  reach_trans first (next reach step) = next (reach_trans first reach) step

  -- The idle wait with every request over that was live at the start.
  pub record IsDrained (st w : State dev.State Float Time) : Type 0 where
    pub run : Reach p gt cfg dev st w
    pub none_runs : w.running ≡ []
    pub none_waits : w.waiting ≡ []
    pub all_over :
        length w.world.over ≡ length st.world.over + length st.running + length st.waiting

  abbrev reqs : State dev.State Float Time → ℕ
  reqs = sys_total (λ _. 0) (λ _. 1)

  abbrev work : State dev.State Float Time → ℕ
  work st = weigh left st.running + weigh left st.waiting

  module _ (device_runs : IsRunning dev) (some_vocab : HasVocab cfg)
      (some_batch : 0 < cfg.max_batch) (num_blocks block_size : ℕ) (clock : ℕ → Time × Time) where
    abbrev Draining : State dev.State Float Time → Type 0
    Draining = IsDraining p gt cfg dev device_runs some_vocab some_batch num_blocks block_size

    -- What `rounds` leaves.
    record IsEnd (st w : State dev.State Float Time) : Type 0 where
      run : Reach p gt cfg dev st w
      none_live : w.running ++ w.waiting ≡ []
      queue : w.queue ≡ []
      same : reqs w ≡ reqs st

    rounds-IsEnd :
        (n : ℕ) (st : State dev.State Float Time)
        → Draining st
        → st.returned ≡ false
        → st.stopping ≡ false
        → work st ≤ n
        → IsEnd st (rounds p gt cfg dev clock n st)
    unfolding rounds
    rounds-IsEnd zero st h on going enough = record {
      run = here;
      none_live =
          no_work (st.running ++ st.waiting)
            (All-append IsOpen st.running st.waiting h.opened.running h.opened.waiting)
            (omega (arith, enough, weigh-append (left {T = Time}) st.running st.waiting));
      queue = h.queue;
      same = refl;
    }
    rounds-IsEnd (suc n) st h on going enough =
        let start = (clock n).0 in
        let now = (clock n).1 in
        let v = cycle p gt cfg dev start now st in
        busy_cases (IsEnd st) (st.running ++ st.waiting) _ _
          (λ idle. record { run = here; none_live = idle; queue = h.queue; same = refl })
          (λ busy.
            let fine : v.crashed ≡ false =
              (after-IsSound p gt cfg dev device_runs some_vocab some_batch num_blocks block_size st
                h start now).good in
            let round =
              cycle-IsRound p gt cfg dev device_runs some_vocab block_size st h.shaped start now
                fine in
            let less =
              after_left p gt cfg dev device_runs some_vocab some_batch num_blocks block_size st h
                start now busy in
            let later =
              rounds-IsEnd n v
                (after-IsDraining p gt cfg dev device_runs some_vocab some_batch num_blocks
                  block_size st h start now)
                (round.returned ∙ on) (round.stopping ∙ going) (omega (arith, less, enough)) in
            record {
              run =
                  reach_trans
                    (next here (cycles st start now (on, h.shaped.sound.good) going h.queue busy))
                    later.run;
              none_live = later.none_live;
              queue = later.queue;
              same =
                  later.same
                  ∙ cycle-total p gt cfg dev (numbers Float Time) (λ _ _ _ _. refl) start now st
                      fine;
            })

-- The scheduler drains. The conditions: a device that fills its buffers, and does not panic on a
-- batch that the guards of `ForwardBatch` accept, whose sequences have blocks, and a buffer that
-- Go can make (it may answer what it wants, errors included); a vocabulary that is not empty, 128
-- rows of logits that fit a buffer; a batch size and a block size that are not 0; a block size
-- that together with the token budget of a step is at most 2^63. Then, from every state that a new scheduler reaches, in which the loop runs, no stop was asked for,
-- the queue is empty and the prompts that still wait fit the cache together, it takes at most
-- as many rounds as the live requests may still get tokens until nothing runs and nothing
-- waits; those rounds are steps of the system, and by then every request that was live is over.
pub rounds_drain :
    (p : Platform) {V : Type 0} (gt : V → V → Bool) (cfg : Config) (dev : Device V)
    (num_blocks block_size : ℕ) (device : dev.State) (clock : ℕ → p.Time × p.Time)
    {v : State dev.State p.Float p.Time}
    → IsRunning dev
    → HasVocab cfg
    → 0 < cfg.max_batch
    → IsSized cfg (new_allocator num_blocks block_size)
    → Reach p gt cfg dev (init p gt cfg dev device (new_allocator num_blocks block_size)) v
    → v.returned ≡ false
    → v.stopping ≡ false
    → v.queue ≡ []
    → weigh (claim block_size) v.waiting ≤ num_blocks
    → IsDrained p gt cfg dev v
        (rounds p gt cfg dev clock (weigh left v.running + weigh left v.waiting) v)
unfolding init
rounds_drain p gt cfg dev num_blocks block_size device clock {v} device_runs some_vocab some_batch
      some_size reach on going empty claims =
    let fine =
      reach_sound p gt cfg dev device_runs some_vocab device (new_allocator num_blocks block_size)
        some_size reach in
    let shaped =
      reach-IsShaped p gt cfg dev device_runs some_vocab block_size num_blocks device some_size
        reach fine in
    let draining : IsDraining p gt cfg dev device_runs some_vocab some_batch num_blocks block_size
        v =
      record {
        shaped = shaped;
        opened = reach_streams p gt cfg dev device (new_allocator num_blocks block_size) reach fine;
        fit =
            reach-Kept p gt cfg dev (fitting p gt cfg) reach fine
              (record { over = tt; queue = tt; running = tt; waiting = tt });
        number = (reach_capacity p gt cfg dev num_blocks block_size device reach fine).0;
        claims = omega (arith, claims, started-claim block_size v.running shaped.started);
        queue = empty;
      } in
    let w = rounds p gt cfg dev clock (weigh left v.running + weigh left v.waiting) v in
    let done =
      rounds-IsEnd p gt cfg dev device_runs some_vocab some_batch num_blocks block_size clock
        (weigh left v.running + weigh left v.waiting) v draining on going (omega arith) in
    let (none_runs, none_waits) = both_empty w.running w.waiting done.none_live in
    record {
      run = done.run;
      none_runs = none_runs;
      none_waits = none_waits;
      all_over = omega (
        arith,
        done.same,
        ap length none_runs,
        ap length none_waits,
        ap length done.queue,
        ap length empty,
        weigh-one w.world.over,
        weigh-one w.running,
        weigh-one w.waiting,
        weigh-one w.queue,
        weigh-one v.world.over,
        weigh-one v.running,
        weigh-one v.waiting,
        weigh-one v.queue,
      );
    }
