-- ===== src/Scheduler/Loop.antt =====
-- The main loop of `run` as a step function, and the steps of the whole system: clients that
-- submit and stop, and the scheduler's goroutine.
--
-- A step is what happens between two choices of a `select`: `receives` is its queue branch, in
-- the idle wait and in the drain; `halts` its stop branch; `cycles` the round that follows the
-- drain's default, which is taken only when the queue is empty and no stop was asked for. `stops`
-- is the first call of `Stop`: a second one panics, since it closes a closed channel, and a history
-- ends before it, as it does before a `Submit` that panics.
pub mod Rounds
mod Examples
use kllm.Base.{
  ℕ, ◌+◌, ◌-◌, ◌^◌, ◌≡◌, ◌≢◌, ◌≤◌, ◌<◌, List, [], ◌∷◌, ◌++◌, Bool, true, false, ◌||◌, none, length,
  map, ltb, ◌==◌, arith, if◌then◌else◌, Result, ok, err, panic, Error, empty_request,
  prompt_too_long, scheduler_stopped,
}
use kllm.Platform.{Platform}
use kllm.Kv.{Allocator}
use kllm.Metrics.{inc, new_metrics}
use kllm.Backend.{SeqForward, Device, forward_batch}
use kllm.Scheduler.{
  Request, World, Config, Slot, Forming, Delivery, fail_all, admit, form, set_gauges, count_step,
  deliver,
}

-- The capacity of `s.queue`.
abbrev pub queue_cap : ℕ
queue_cap = 1024

-- The `reqState` that `Submit` makes.
abbrev pub fresh : {T : Type 0} → T → T → ℕ → List ℕ → ℕ → Request T
fresh no_time now ref prompt max_new = record {
  ref = ref;
  prompt = prompt;
  max_new = max_new;
  out = [];
  closed = false;
  seq = none;
  prefilled = false;
  next = 0;
  generated = 0;
  submit_at = now;
  last_tok_at = no_time;
}

-- The greatest capacity of a channel of `GenEvent`, 32 bytes each: `make` panics on a buffer, with
-- the channel's own 96 bytes, that does not fit 2^48 bytes.
abbrev pub chan_limit : ℕ
chan_limit = 2 ^ 43 - 3

-- `Submit` up to its `select`: the request, the error that it returns, or its panic in
-- `make(chan GenEvent, maxNew+1)`. A `maxNew` of 0 stands for all that are not positive.
unfoldable pub new_request : {T : Type 0} → Config → T → T → ℕ → List ℕ → ℕ → Result (Request T)
new_request cfg no_time now ref prompt max_new =
    if length prompt == 0 || max_new == 0
    then err empty_request
    else if ltb cfg.max_step_tokens (length prompt)
    then err (prompt_too_long (length prompt) cfg.max_step_tokens)
    else if ltb chan_limit (max_new + 1)
    then panic
    else ok (fresh no_time now ref prompt max_new)

-- What `Submit` accepts.
pub record IsAccepted {T : Type 0} (cfg : Config) (no_time now : T) (ref : ℕ) (prompt : List ℕ)
    (max_new : ℕ) (r : Request T) : Type 0 where
  pub made : r ≡ fresh no_time now ref prompt max_new
  pub some_prompt : 0 < length prompt
  pub some_max : 0 < max_new
  pub fits : length prompt ≤ cfg.max_step_tokens
  pub few : max_new < chan_limit

pub new_request-IsAccepted :
    {T : Type 0} (cfg : Config) (no_time now : T) (ref : ℕ) (prompt : List ℕ) (max_new : ℕ)
    (r : Request T)
    → new_request cfg no_time now ref prompt max_new ≡ ok r
    → IsAccepted cfg no_time now ref prompt max_new r
unfolding new_request
new_request-IsAccepted cfg no_time now ref prompt max_new r e = record {
  made = ground arith;
  some_prompt = ground arith;
  some_max = ground arith;
  fits = ground arith;
  few = ground arith;
}

-- The device, what the requests and the allocator are, the queue's content, the two local lists of
-- `run`, and whether `stopCh` is closed, `run` has returned, or it has panicked.
pub record State (D F T : Type 0) : Type 0 where
  pub device : D
  pub world : World F T
  pub queue : List (Request T)
  pub running : List (Request T)
  pub waiting : List (Request T)
  pub stopping : Bool
  pub returned : Bool
  pub crashed : Bool

module _ (p : Platform) {V : Type 0} (gt : V → V → Bool) (cfg : Config) (dev : Device V) where
  open p use {Float, Time, no_time}

  abbrev pub Sys : Type 0
  Sys = State dev.State Float Time

  -- The round after a successful `ForwardBatch`.
  unfoldable pub give_rows : Time → Time → Sys → Forming Float Time → List (List V) → Sys
  give_rows start now st f rows =
      let w : World Float Time = record f.world {
        metrics = count_step p gt cfg f.world.metrics (length f.slots) start now;
      } in
      let d =
        deliver p gt cfg now (record { world = w; next = f.skipped; crashed = false }) f.slots
          rows in
      record st { world = d.world; running = d.next; waiting = f.waiting; crashed = d.crashed }

  -- The round from `ForwardBatch` on, for a batch that is not empty.
  pub run_batch : Time → Time → Sys → Forming Float Time → Sys
  unfolding give_rows
  run_batch start now st f =
      let (device, out) = forward_batch dev cfg.vocab st.device (map (λ s. s.sf) f.slots) in
      let st' : Sys = record st { device = device } in
      elim out [
        | ok rows ↦ give_rows start now st' f rows
        | err e ↦ record st' {
          world = fail_all f.world (map (λ s. s.req) f.slots ++ f.skipped) e;
          running = [];
          waiting = f.waiting;
        }
        | panic ↦ record st' { crashed = true }
      ]

  pub after_form : Time → Time → Sys → Forming Float Time → Sys
  unfolding run_batch
  after_form start now st f = if f.crashed then record st { crashed = true } else elim f.slots [
    | [] ↦ record st { world = f.world; running = f.skipped; waiting = f.waiting }
    | _ ∷ _ ↦ run_batch start now st f
  ]

  -- The forming loop's variables when it starts, and its result.
  unfoldable pub formed : Sys → Forming Float Time
  formed st =
      let (running, waiting) = admit cfg.max_batch st.running st.waiting in
      form
        (record {
          world = set_gauges p gt cfg st.world (length running) (length waiting);
          budget = cfg.max_step_tokens;
          slots = [];
          skipped = [];
          waiting = waiting;
          crashed = false;
        })
        running

  -- One round of the main loop after the drain; `start` and `now` are its two clock readings.
  pub cycle : Time → Time → Sys → Sys
  unfolding after_form
  cycle start now st = after_form start now st (formed st)

  -- What the stop branch of the drain does; the two lists end with `run`. In the idle wait both
  -- are empty.
  unfoldable pub halt : Sys → Sys
  halt st = record st {
    world = fail_all st.world (st.running ++ st.waiting) scheduler_stopped;
    running = [];
    waiting = [];
    returned = true;
  }

  -- `NewScheduler` over an engine, and the empty lists that `run` starts with. Its constants are `cfg`,
  -- which `new_config` makes with the bound on `maxBatch`.
  unfoldable pub init : dev.State → Allocator → Sys
  init device alloc = record {
    device = device;
    world = record { alloc = alloc; metrics = new_metrics p; over = [] };
    queue = [];
    running = [];
    waiting = [];
    stopping = false;
    returned = false;
    crashed = false;
  }

  -- A successful send on the queue.
  abbrev pub enqueue : Sys → Request Time → Sys
  enqueue st r = record st {
    queue = st.queue ++ r ∷ [];
    world = record st.world {
      metrics = record st.world.metrics { requests_total = inc st.world.metrics.requests_total };
    };
  }

  abbrev pub Live : Sys → Type 0
  Live st = (st.returned ≡ false) × (st.crashed ≡ false)

  pub data Step : Sys → Sys → Type 0 where
    submits :
        (st : Sys) (now : Time) (ref : ℕ) (prompt : List ℕ) (max_new : ℕ) (r : Request Time)
        → new_request cfg no_time now ref prompt max_new ≡ ok r
        → length st.queue < queue_cap
        → Step st (enqueue st r)
    stops : (st : Sys) → st.stopping ≡ false → Step st (record st { stopping = true })
    receives :
        (st : Sys) (r : Request Time) (rest : List (Request Time))
        → Live st
        → st.queue ≡ r ∷ rest
        → Step st (record st { queue = rest; waiting = st.waiting ++ r ∷ [] })
    halts : (st : Sys) → Live st → st.stopping ≡ true → Step st (halt st)
    cycles :
        (st : Sys) (start now : Time)
        → Live st
        → st.stopping ≡ false
        → st.queue ≡ []
        → st.running ++ st.waiting ≢ []
        → Step st (cycle start now st)

  pub data Reach (st : Sys) : Sys → Type 0 where
    here : Reach st st
    next : {u v : Sys} → Reach st u → Step u v → Reach st v

  -- The requests that a step, or a history, puts on the queue.
  abbrev pub sent : {u v : Sys} → Step u v → List (Request Time)
  sent (submits _ _ _ _ _ r _ _) = r ∷ []
  sent (stops _ _) = []
  sent (receives _ _ _ _ _) = []
  sent (halts _ _ _) = []
  sent (cycles _ _ _ _ _ _ _) = []

  abbrev pub all_sent : {u v : Sys} → Reach u v → List (Request Time)
  all_sent here = []
  all_sent (next reach step) = all_sent reach ++ sent step
