-- ===== src/Scheduler/Blocks.antt =====
-- Who owns each KV block while the scheduler runs.
use kllm.Base.{
  ap, ℕ, ◌+◌, ◌≤◌, ◌≡◌, refl, List, [], Bool, false, Option, none, some, arith, count, length,
  if◌then◌else◌, ltb, int32_mod, ok,
}
use kllm.Platform.{Platform}
use kllm.Kv.{Allocator, Sequence, new_allocator, commit}
use kllm.Kv.Blocks.{count-reserve, count-release, count-released, count-new_allocator}
use kllm.Backend.{Device}
use kllm.Engine.{step}
use kllm.Scheduler.{Request, Config, free_seq, close, with_seq, advance}
use kllm.Scheduler.Weight.{weigh, weigh-append, Conserved}
use kllm.Scheduler.Loop.{
  State, new_request, init, Step, Reach, sent, all_sent, submits, stops, receives, halts, cycles,
  here, next,
}
use kllm.Scheduler.Conservation.{sys_total, reach-total}

-- The blocks of a sequence, none if it is nil.
abbrev pub table_of : Option Sequence → List ℕ
table_of none = []
table_of (some s) = s.table

abbrev pub blocks : {T : Type 0} → Request T → List ℕ
blocks r = table_of r.seq

count-free_seq :
    (x : ℕ) (a : Allocator) (o : Option Sequence)
    → let (a', o') = free_seq a o in
      count x a'.free + count x (table_of o') ≡ count x a.free + count x (table_of o)
unfolding free_seq
count-free_seq x a none = refl
count-free_seq x a (some s) = omega (arith, count-release x a s, count-released x a s)

count-with_seq :
    {T : Type 0} (x : ℕ) (r : Request T) → count x (blocks (with_seq r)) ≡ count x (blocks r)
unfolding with_seq
count-with_seq x r = ground arith

count-stepped :
    {T : Type 0} (x : ℕ) (a : Allocator) (r : Request T) (s : Sequence) (tokens : List ℕ)
    → r.seq ≡ some s
    → let t = step a s tokens in
      count x t.alloc.free + count x t.seq.table ≡ count x a.free + count x (blocks r)
unfolding step
count-stepped x a r s tokens e = omega (
  arith,
  count-reserve x a s (length tokens),
  ap (λ (o : Option Sequence). count x (table_of o)) e,
)

-- The owners of a block: the free list and the tables of the requests that are over.
pub owned : (F T : Type 0) (x : ℕ) → Conserved F T (λ a. count x a.free) (λ r. count x (blocks r))
unfolding close
owned F T x = record {
  on_close = λ w r ev. omega (
    arith,
    count-free_seq x w.alloc r.seq,
    weigh-append (λ (q : Request T). count x (blocks q)) w.over,
  );
  on_step = λ a r s tokens e. count-stepped x a r s tokens e;
  on_with_seq = λ r. count-with_seq x r;
}

module _ (p : Platform) {V : Type 0} (gt : V → V → Bool) (cfg : Config) (dev : Device V) where
  open p use {Float, Time}

  pub count-advance :
      (x : ℕ) (r : Request Time) (fed tok : ℕ) (now : Time)
      → count x (blocks (advance p gt cfg r fed tok now)) ≡ count x (blocks r)
  unfolding advance commit
  count-advance x r fed tok now = ground arith

  fresh-blocks :
      (x : ℕ) (no_time now : Time) (ref : ℕ) (prompt : List ℕ) (max_new : ℕ) (r : Request Time)
      → new_request cfg no_time now ref prompt max_new ≡ ok r
      → count x (blocks r) ≡ 0
  unfolding new_request
  fresh-blocks x no_time now ref prompt max_new r made = ground arith

  sent-blocks :
      (x : ℕ) {u v : State dev.State Float Time} (s : Step p gt cfg dev u v)
      → weigh (λ q. count x (blocks q)) (sent p gt cfg dev s) ≡ 0
  sent-blocks x (submits st now ref prompt max_new r made room) =
      omega (arith, fresh-blocks x p.no_time now ref prompt max_new r made)
  sent-blocks x (stops st going) = refl
  sent-blocks x (receives st r rest live e) = refl
  sent-blocks x (halts st live stop) = refl
  sent-blocks x (cycles st start now live going drained busy) = refl

  all_sent-blocks :
      (x : ℕ) {u v : State dev.State Float Time} (reach : Reach p gt cfg dev u v)
      → weigh (λ q. count x (blocks q)) (all_sent p gt cfg dev reach) ≡ 0
  all_sent-blocks x here = refl
  all_sent-blocks x (next reach step) = omega (
    arith,
    weigh-append (λ (q : Request Time). count x (blocks q)) (all_sent p gt cfg dev reach)
        (sent p gt cfg dev step),
    all_sent-blocks x reach,
    sent-blocks x step,
  )

-- How often a block stands on the free list or in the table of a request, wherever that is.
abbrev pub owners : {D F T : Type 0} → ℕ → State D F T → ℕ
owners x = sys_total (λ a. count x a.free) (λ r. count x (blocks r))

-- In every state that a new scheduler over a new allocator can reach, by any schedule of clients,
-- rounds and a stop, each block below `numBlocks` has exactly one owner, the free list or one place
-- in the table of one request, and no other id has any: no block is leaked, none is shared by two
-- requests. This holds until the scheduler panics.
pub reach_exclusive :
    (p : Platform) {V : Type 0} (gt : V → V → Bool) (cfg : Config) (dev : Device V)
    (num_blocks block_size x : ℕ) (device : dev.State) {v : State dev.State p.Float p.Time}
    → num_blocks ≤ int32_mod
    → Reach p gt cfg dev (init p gt cfg dev device (new_allocator num_blocks block_size)) v
    → v.crashed ≡ false
    → owners x v ≡ (if ltb x num_blocks then 1 else 0)
unfolding init
reach_exclusive p gt cfg dev num_blocks block_size x device few reach good = omega (
  arith,
  reach-total p gt cfg dev (owned p.Float p.Time x) (count-advance p gt cfg dev x) reach good,
  all_sent-blocks p gt cfg dev x reach,
  count-new_allocator x num_blocks block_size few,
)
