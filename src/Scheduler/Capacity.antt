-- ===== src/Scheduler/Capacity.antt =====
-- The number of the blocks, and their size, over a history of the scheduler.
use kllm.Base.{
  ℕ, ◌+◌, ◌≡◌, refl, ap, List, [], ◌∷◌, Bool, false, Option, none, some, arith, length, ok,
}
use kllm.Platform.{Platform}
use kllm.Kv.{Allocator, Sequence, new_allocator, commit}
use kllm.Kv.Sizes.{reserve-Keeps, length-release, length-new_allocator, new_allocator-size}
use kllm.Backend.{Device}
use kllm.Engine.{step}
use kllm.Scheduler.{Request, Config, free_seq, close, with_seq, advance}
use kllm.Scheduler.Weight.{weigh, weigh-append, Conserved}
use kllm.Scheduler.Loop.{
  State, cycle, new_request, init, Step, Reach, sent, all_sent, submits, stops, receives, halts,
  cycles, here, next,
}
use kllm.Scheduler.Conservation.{sys_total, cycle-total, reach-total}
use kllm.Scheduler.Blocks.{table_of, blocks}
use kllm.Scheduler.Faults.{close-block_size}

-- The blocks of a request, counted.
abbrev pub held : {T : Type 0} → Request T → ℕ
held r = length (blocks r)

length-free_seq :
    (a : Allocator) (o : Option Sequence)
    → let (a', o') = free_seq a o in
      length a'.free + length (table_of o') ≡ length a.free + length (table_of o)
unfolding free_seq
length-free_seq a none = refl
length-free_seq a (some s) = length-release a s

held-with_seq : {T : Type 0} (r : Request T) → held (with_seq r) ≡ held r
unfolding with_seq
held-with_seq r = ground arith

pub numbered : (F T : Type 0) → Conserved F T (λ a. length a.free) held
unfolding close step
numbered F T = record {
  on_close =
      λ w r ev. omega (arith, length-free_seq w.alloc r.seq, weigh-append (held {T = T}) w.over);
  on_step = λ a r s tokens e. omega (
    arith,
    (reserve-Keeps a s (length tokens)).number,
    ap (λ (o : Option Sequence). length (table_of o)) e,
  );
  on_with_seq = held-with_seq;
}

weigh-nothing : {T : Type 0} (rs : List (Request T)) → weigh (λ _. 0) rs ≡ 0
weigh-nothing [] = refl
weigh-nothing (r ∷ rs) = omega (arith, weigh-nothing rs)

sized : (F T : Type 0) → Conserved F T (λ a. a.block_size) (λ _. 0)
unfolding step
sized F T = record {
  on_close = λ w r ev.
      omega
        (arith, close-block_size w r ev, weigh-nothing (close w r ev).over, weigh-nothing w.over);
  on_step = λ a r s tokens e. omega (arith, (reserve-Keeps a s (length tokens)).size);
  on_with_seq = λ r. refl;
}

module _ (p : Platform) {V : Type 0} (gt : V → V → Bool) (cfg : Config) (dev : Device V) where
  open p use {Float, Time}

  pub held-advance :
      (r : Request Time) (fed tok : ℕ) (now : Time) → held (advance p gt cfg r fed tok now) ≡ held r
  unfolding advance commit
  held-advance r fed tok now = ground arith

  fresh-held :
      (no_time now : Time) (ref : ℕ) (prompt : List ℕ) (max_new : ℕ) (r : Request Time)
      → new_request cfg no_time now ref prompt max_new ≡ ok r
      → held r ≡ 0
  unfolding new_request
  fresh-held no_time now ref prompt max_new r made = ground arith

  all_sent-held :
      {u v : State dev.State Float Time} (reach : Reach p gt cfg dev u v)
      → weigh held (all_sent p gt cfg dev reach) ≡ 0
  all_sent-held here = refl
  all_sent-held (next reach step) = omega (
    arith,
    weigh-append (held {T = Time}) (all_sent p gt cfg dev reach) (sent p gt cfg dev step),
    all_sent-held reach,
    sent-held step,
  )
    where
      sent-held :
          {u v : State dev.State Float Time} (s : Step p gt cfg dev u v)
          → weigh held (sent p gt cfg dev s) ≡ 0
      sent-held (submits st now ref prompt max_new r made room) =
          omega (arith, fresh-held p.no_time now ref prompt max_new r made)
      sent-held (stops st going) = refl
      sent-held (receives st r rest live e) = refl
      sent-held (halts st live stop) = refl
      sent-held (cycles st start now live going drained busy) = refl

module _ (p : Platform) {V : Type 0} (gt : V → V → Bool) (cfg : Config) (dev : Device V) where
  open p use {Float, Time}

  -- A round keeps both.
  pub cycle-capacity :
      (start now : Time) (st : State dev.State Float Time)
      → let v = cycle p gt cfg dev start now st in
        v.crashed ≡ false
        → (sys_total (λ a. length a.free) held v ≡ sys_total (λ a. length a.free) held st)
          × (v.world.alloc.block_size ≡ st.world.alloc.block_size)
  cycle-capacity start now st good =
      let v = cycle p gt cfg dev start now st in
      (
        cycle-total p gt cfg dev (numbered Float Time) (held-advance p gt cfg dev) start now st
            good,
        omega (
          arith,
          cycle-total p gt cfg dev (sized Float Time) (λ _ _ _ _. refl) start now st good,
          weigh-nothing v.world.over,
          weigh-nothing v.queue,
          weigh-nothing v.running,
          weigh-nothing v.waiting,
          weigh-nothing st.world.over,
          weigh-nothing st.queue,
          weigh-nothing st.running,
          weigh-nothing st.waiting,
        ),
      )

-- The blocks of the whole system, and the size of one.
pub reach_capacity :
    (p : Platform) {V : Type 0} (gt : V → V → Bool) (cfg : Config) (dev : Device V)
    (num_blocks block_size : ℕ) (device : dev.State) {v : State dev.State p.Float p.Time}
    → Reach p gt cfg dev (init p gt cfg dev device (new_allocator num_blocks block_size)) v
    → v.crashed ≡ false
    → (sys_total (λ a. length a.free) held v ≡ num_blocks) × (v.world.alloc.block_size ≡ block_size)
unfolding init
reach_capacity p gt cfg dev num_blocks block_size device {v} reach good = (
  omega (
    arith,
    reach-total p gt cfg dev (numbered p.Float p.Time) (held-advance p gt cfg dev) reach good,
    all_sent-held p gt cfg dev reach,
    length-new_allocator num_blocks block_size,
  ),
  omega (
    arith,
    reach-total p gt cfg dev (sized p.Float p.Time) (λ _ _ _ _. refl) reach good,
    weigh-nothing v.world.over,
    weigh-nothing v.queue,
    weigh-nothing v.running,
    weigh-nothing v.waiting,
    weigh-nothing (all_sent p gt cfg dev reach),
    new_allocator-size num_blocks block_size,
  ),
)
