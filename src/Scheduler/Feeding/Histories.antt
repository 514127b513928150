-- ===== src/Scheduler/Feeding/Histories.antt =====
-- The size of the running list and of each batch over a history of the scheduler.
use kllm.Base.{
  ℕ, ◌+◌, ◌≤◌, ◌<◌, ◌≡◌, ◌≢◌, refl, List, [], ◌∷◌, map, Bool, false, arith, length, length-append,
  length-map, All, ok,
}
use kllm.Platform.{Platform}
use kllm.Kv.{Allocator}
use kllm.Backend.{Device, max_batch_seqs, check_batch}
use kllm.Backend.Forward.{HasTokens, check_batch_iff}
use kllm.Scheduler.{Config, Slot, Forming, Delivery, deliver_one}
use kllm.Scheduler.Results.{advanced, deliver_one_cases, deliver_inv}
use kllm.Scheduler.Loop.{
  State, give_rows, formed, cycle, halt, init, Step, submits, stops, receives, halts, cycles, Reach,
  here, next,
}
use kllm.Scheduler.Loop.Rounds.{cycle_cases}
use kllm.Scheduler.Conservation.{uncrashed}
use kllm.Scheduler.Every.Histories.{AllKept, reach-Kept}
use kllm.Scheduler.Feeding.{HasPrompt, prompts, token_count, Fed, formed-Fed}

module _ (p : Platform) {V : Type 0} (gt : V → V → Bool) (cfg : Config) (dev : Device V) where
  open p use {Float, Time}

  deliver_one-few :
      (now : Time) (d : Delivery Float Time) (slot : Slot Time) (left : List (Slot Time))
      (row : List V) (n : ℕ)
      → length d.next + length (slot ∷ left) ≤ n
      → length (deliver_one p gt cfg now d slot row).next + length left ≤ n
  deliver_one-few now d slot left row n h =
      deliver_one_cases p gt cfg (λ e. length e.next + length left ≤ n) now d slot row
        (λ _. omega (arith, h)) (λ tok _ _. omega (arith, h))
        (λ tok _ _. omega (arith, h, length-append d.next (advanced p gt cfg slot tok now ∷ [])))

  give_rows-few :
      (start now : Time) (st : State dev.State Float Time) (f : Forming Float Time)
      (rows : List (List V)) (n : ℕ)
      → length f.slots + length f.skipped ≤ n
      → let v = give_rows p gt cfg dev start now st f rows in
        v.crashed ≡ false → length v.running ≤ n
  unfolding give_rows
  give_rows-few start now st f rows n h good = omega (
    arith,
    deliver_inv p gt cfg (λ d left. length d.next + length left ≤ n) now
        (λ d slot left row few _. deliver_one-few now d slot left row n few) _ f.slots rows
        (omega (arith, h)) good,
  )

  -- What a state needs so that its batch fits.
  pub record IsReady (st : State dev.State Float Time) : Type 0 where
    pub queue : All HasPrompt st.queue
    pub running : All HasPrompt st.running
    pub waiting : All HasPrompt st.waiting
    pub few : length st.running ≤ cfg.max_batch

  cycle-few :
      (start now : Time) (st : State dev.State Float Time)
      → IsReady st
      → let v = cycle p gt cfg dev start now st in
        v.crashed ≡ false → length v.running ≤ cfg.max_batch
  cycle-few start now st k =
      cycle_cases p gt cfg dev (λ v. v.crashed ≡ false → length v.running ≤ cfg.max_batch) start now
        st
        (record {
          crashes = λ _ good. cc;
          idles = λ good _ _. omega (arith, (fed good).places);
          answers = λ rows good _ _.
              give_rows-few start now _ _ rows cfg.max_batch (omega (arith, (fed good).places));
          fails = λ e good _ _ _. omega arith;
          faults = λ _ _ _ good. cc;
        })
    where
      fed :
          (formed p gt cfg dev st).crashed ≡ false
          → Fed cfg.max_step_tokens cfg.max_batch (formed p gt cfg dev st) []
      fed = formed-Fed p gt cfg dev st k.running k.waiting k.few

  Step-few :
      {u v : State dev.State Float Time}
      → Step p gt cfg dev u v
      → IsReady u
      → v.crashed ≡ false
      → length v.running ≤ cfg.max_batch
  unfolding halt
  Step-few (submits st now ref prompt max_new r made room) k good = k.few
  Step-few (stops st going) k good = k.few
  Step-few (receives st r rest live e) k good = k.few
  Step-few (halts st live stop) k good = omega arith
  Step-few (cycles st start now live going drained busy) k good = cycle-few start now st k good

  reach-IsReady :
      {u v : State dev.State Float Time}
      → AllKept HasPrompt (λ _. Unit {0}) u
      → length u.running ≤ cfg.max_batch
      → Reach p gt cfg dev u v
      → v.crashed ≡ false
      → IsReady v
  reach-IsReady k few here good = record {
    queue = k.queue;
    running = k.running;
    waiting = k.waiting;
    few = few;
  }
  reach-IsReady k few (next reach step) good =
      let before = reach-IsReady k few reach (uncrashed p gt cfg dev step good) in
      let after = reach-Kept p gt cfg dev (prompts p gt cfg) (next reach step) good k in
      record {
        queue = after.queue;
        running = after.running;
        waiting = after.waiting;
        few = Step-few step before good;
      }

filled-batch :
    {T : Type 0} (slots : List (Slot T))
    → All (λ s. HasTokens s.sf) slots
    → All HasTokens (map (λ s. s.sf) slots)
filled-batch [] h = tt
filled-batch (s ∷ slots) h = (h.0, filled-batch slots h.1)

some-length : {A : Type 0} (xs : List A) → xs ≢ [] → 0 < length xs
some-length [] h = absurd (h refl)
some-length (x ∷ xs) h = omega arith

-- In every state that a new scheduler with a batch of at most 128 reaches, a batch that it forms
-- holds at most `MaxStepTokens` tokens and at most `maxBatch` sequences, and passes the checks of
-- `ForwardBatch`, unless it is empty, when no forward pass is made.
pub reach_batch_fits :
    (p : Platform) {V : Type 0} (gt : V → V → Bool) (cfg : Config) (dev : Device V)
    (device : dev.State) (a : Allocator) {v : State dev.State p.Float p.Time}
    → cfg.max_batch ≤ max_batch_seqs
    → Reach p gt cfg dev (init p gt cfg dev device a) v
    → v.crashed ≡ false
    → (formed p gt cfg dev v).crashed ≡ false
    → (formed p gt cfg dev v).slots ≢ []
    → let f = formed p gt cfg dev v in
      (token_count f.slots ≤ cfg.max_step_tokens)
      × (length f.slots ≤ cfg.max_batch)
      × (check_batch (map (λ s. s.sf) f.slots) ≡ ok tt)
unfolding init
reach_batch_fits p gt cfg dev device a {v} bound reach good formed_well some_slot =
    let k =
      reach-IsReady p gt cfg dev (record { over = tt; queue = tt; running = tt; waiting = tt })
        (omega arith) reach good in
    let f = formed p gt cfg dev v in
    let fed = formed-Fed p gt cfg dev v k.running k.waiting k.few formed_well in
    let size = length-map (λ (s : Slot p.Time). s.sf) f.slots in
    (
      omega (arith, fed.tokens),
      omega (arith, fed.places),
      (check_batch_iff (map (λ s. s.sf) f.slots)).1 (
        omega (arith, size, some-length f.slots some_slot),
        omega (arith, size, fed.places),
        filled-batch f.slots fed.filled,
      ),
    )
