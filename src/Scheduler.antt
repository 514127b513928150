-- ===== src/Scheduler.antt =====
-- engine/scheduler.go: continuous batching. The state of `run` and one function for each part of
-- its loop; Scheduler/Loop.antt composes them and adds the clients.
pub mod Loop
pub mod Weight
pub mod Conservation
pub mod Every
pub mod Requests
pub mod Batching
pub mod Results
pub mod Blocks
pub mod Ownership
pub mod Capacity
pub mod Streams
pub mod Feeding
pub mod Greedy
pub mod Stopping
pub mod Stuck
pub mod Livelock
pub mod Draining
pub mod Faults
use kllm.Base.{
  ℕ, zero, suc, ◌+◌, ◌-◌, List, [], ◌∷◌, ◌++◌, Bool, true, false, ◌||◌, ◌&&◌, Option, none, some,
  length, ltb, leb, ◌==◌, if◌then◌else◌, map, ℤ, add_int, Result, ok, err, panic, Error,
  reservation_failed,
}
use kllm.Platform.{Platform}
use kllm.Metrics.{Metrics, inc, observe, update_tok_per_sec}
use kllm.Kv.{Allocator, Sequence, new_sequence, commit, release, free_blocks}
use kllm.Backend.{SeqForward, Device, max_batch_seqs}
use kllm.Engine.{step, is_eos, argmax}

pub record GenEvent : Type 0 where
  pub token : ℕ
  pub error : Option Error
  pub done : Bool

abbrev pub token_event : ℕ → GenEvent
token_event tok = record { token = tok; error = none; done = false }

abbrev pub done_event : GenEvent
done_event = record { token = 0; error = none; done = true }

abbrev pub error_event : Error → GenEvent
error_event e = record { token = 0; error = some e; done = true }

-- `reqState`. `ref` stands for the pointer's identity, `out` for what was sent on the channel and
-- `closed` for whether it is closed; `seq` is `none` for nil.
pub record Request (T : Type 0) : Type 0 where
  pub ref : ℕ
  pub prompt : List ℕ
  pub max_new : ℕ
  pub out : List GenEvent
  pub closed : Bool
  pub seq : Option Sequence
  pub prefilled : Bool
  pub next : ℕ
  pub generated : ℕ
  pub submit_at : T
  pub last_tok_at : T

-- What `fail` and `finish` change: the allocator, the instruments, and the requests that are over.
pub record World (F T : Type 0) : Type 0 where
  pub alloc : Allocator
  pub metrics : Metrics F
  pub over : List (Request T)

-- The fixed fields of `Engine` and `Scheduler`.
pub record Config : Type 0 where
  pub max_step_tokens : ℕ
  pub max_batch : ℕ
  pub eos : ℤ
  pub vocab : ℕ

-- `NewScheduler`'s bound on the batch.
pub batch_bound : ℕ → ℕ
batch_bound max_batch = if max_batch == 0 || ltb max_batch_seqs max_batch then 8 else max_batch

-- The constants of a scheduler that `NewScheduler` makes, from the engine's and its argument.
abbrev pub new_config : ℕ → ℕ → ℤ → ℕ → Config
new_config max_step_tokens max_batch eos vocab = record {
  max_step_tokens = max_step_tokens;
  max_batch = batch_bound max_batch;
  eos = eos;
  vocab = vocab;
}

-- A member of the step's batch: the parallel entries of `batch` and `stepReqs`.
pub record Slot (T : Type 0) : Type 0 where
  pub sf : SeqForward
  pub req : Request T

-- The variables of the loop that forms a batch.
pub record Forming (F T : Type 0) : Type 0 where
  pub world : World F T
  pub budget : ℕ
  pub slots : List (Slot T)
  pub skipped : List (Request T)
  pub waiting : List (Request T)
  pub crashed : Bool

-- The variables of the loop that hands out the results.
pub record Delivery (F T : Type 0) : Type 0 where
  pub world : World F T
  pub next : List (Request T)
  pub crashed : Bool

module _ {T : Type 0} where
  -- `if r.seq == nil { r.seq = s.e.NewSequence() }`
  pub with_seq : Request T → Request T
  with_seq r = record r { seq = elim r.seq [ none ↦ some new_sequence | some s ↦ some s ] }

  -- The loop that admits waiting requests: the new `running` and `waiting`.
  pub admit : ℕ → List (Request T) → List (Request T) → List (Request T) × List (Request T)
  unfolding with_seq
  admit max_batch running [] = (running, [])
  admit max_batch running (r ∷ waiting) =
      if ltb (length running) max_batch
      then admit max_batch (running ++ with_seq r ∷ []) waiting
      else (running, r ∷ waiting)

  -- The tokens that a request feeds to the next step.
  abbrev pub tokens_of : Request T → List ℕ
  tokens_of r = if r.prefilled then r.next ∷ [] else r.prompt

-- `if r.seq != nil { r.seq.Release() }`: the allocator, and the sequence that stays in `r`.
free_seq : Allocator → Option Sequence → Allocator × Option Sequence
free_seq a none = (a, none)
free_seq a (some s) = let (a', s') = release a s in (a', some s')

module _ {F T : Type 0} where
  -- The end of a request with its last event: what `fail` and `finish` share.
  pub close : World F T → Request T → GenEvent → World F T
  unfolding free_seq
  close w r ev =
      let (a, s) = free_seq w.alloc r.seq in
      record {
        alloc = a;
        metrics = record w.metrics { requests_done = inc w.metrics.requests_done };
        over = w.over ++ record r { seq = s; out = r.out ++ ev ∷ []; closed = true } ∷ [];
      }

  abbrev pub fail : World F T → Request T → Error → World F T
  fail w r e = close w r (error_event e)

  abbrev pub finish : World F T → Request T → World F T
  finish w r = close w r done_event

  pub fail_all : World F T → List (Request T) → Error → World F T
  fail_all w [] e = w
  fail_all w (r ∷ rs) e = fail_all (fail w r e) rs e

  -- `r.seq.Step(tokens)` and what follows, for a sequence that is not nil.
  reserve_for : Forming F T → Request T → Sequence → List ℕ → Forming F T
  reserve_for f r s tokens =
      let t = step f.world.alloc s tokens in
      let r' : Request T = record r { seq = some t.seq } in
      let w : World F T = record f.world { alloc = t.alloc } in
      elim t.result [
        | ok sf ↦ record f {
          world = w;
          budget = f.budget - length tokens;
          slots = f.slots ++ record { sf = sf; req = r' } ∷ [];
        }
        | err e ↦
            if r.prefilled
            then record f { world = fail w r' (reservation_failed e) }
            else record f { world = w; waiting = f.waiting ++ r' ∷ [] }
        | panic ↦ record f { crashed = true }
      ]

  -- One round of the loop that forms the batch. A nil sequence would panic.
  pub form_one : Forming F T → Request T → Forming F T
  unfolding reserve_for
  form_one f r =
      if ltb f.budget (length (tokens_of r))
      then (if r.prefilled
          then record f { skipped = f.skipped ++ r ∷ [] }
          else record f { waiting = f.waiting ++ r ∷ [] })
      else elim r.seq [
        | none ↦ record f { crashed = true }
        | some s ↦ reserve_for f r s (tokens_of r)
      ]

  -- The loop; nothing runs after a panic.
  pub form : Forming F T → List (Request T) → Forming F T
  form f [] = f
  form f (r ∷ running) = if f.crashed then f else form (form_one f r) running

module _ (p : Platform) {V : Type 0} (gt : V → V → Bool) (cfg : Config) where
  open p use {Float, Time, of_nat, seconds}

  -- The gauges that each round of the main loop sets.
  pub set_gauges : World Float Time → ℕ → ℕ → World Float Time
  set_gauges w running waiting = record w {
    metrics = record w.metrics {
      running_seqs = of_nat running;
      queued_reqs = of_nat waiting;
      kv_blocks_tot = of_nat w.alloc.num_blocks;
      kv_blocks_used = of_nat (w.alloc.num_blocks - free_blocks w.alloc);
    };
  }

  -- The instruments after a forward pass over `n` sequences.
  pub count_step : Metrics Float → ℕ → Time → Time → Metrics Float
  count_step m n start now =
      let m' : Metrics Float = record m {
        forward_steps = inc m.forward_steps;
        batch_size = observe p m.batch_size (of_nat n);
      } in
      update_tok_per_sec p m' n (seconds now start)

  -- The instruments after one token of a request.
  pub count_token : Metrics Float → Request Time → Time → Metrics Float
  count_token m r now =
      if r.prefilled
      then record m {
        tokens_total = inc m.tokens_total;
        itl = observe p m.itl (seconds now r.last_tok_at);
      }
      else record m {
        tokens_total = inc m.tokens_total;
        prefill_tokens = add_int m.prefill_tokens (length r.prompt);
        ttft = observe p m.ttft (seconds now r.submit_at);
      }

  -- A request after its step gave it a token: the fields that the loop sets, and the event sent.
  pub advance : Request Time → ℕ → ℕ → Time → Request Time
  advance r fed tok now = record r {
    seq = elim r.seq [ none ↦ none | some s ↦ some (commit s fed) ];
    prefilled = true;
    next = tok;
    generated = r.generated + 1;
    last_tok_at = now;
    out = r.out ++ token_event tok ∷ [];
  }

  -- One round of the loop over the results.
  pub deliver_one : Time → Delivery Float Time → Slot Time → List V → Delivery Float Time
  unfolding advance count_token
  deliver_one now d slot logits = elim (argmax gt logits) [
    | none ↦ record d { crashed = true }
    | some tok ↦
        let r = advance slot.req (length slot.sf.tokens) tok now in
        let w : World Float Time = record d.world {
          metrics = count_token d.world.metrics slot.req now;
        } in
        if is_eos cfg.eos tok || leb r.max_new r.generated
        then record d { world = finish w r }
        else record d { world = w; next = d.next ++ r ∷ [] }
  ]

  -- The loop over `stepReqs`; a slot with no row of logits would panic.
  pub deliver : Time → Delivery Float Time → List (Slot Time) → List (List V) → Delivery Float Time
  unfolding deliver_one
  deliver now d [] rows = d
  deliver now d (slot ∷ slots) [] = record d { crashed = true }
  deliver now d (slot ∷ slots) (row ∷ rows) =
      if d.crashed then d else deliver now (deliver_one now d slot row) slots rows
