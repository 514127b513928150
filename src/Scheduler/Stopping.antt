-- ===== src/Scheduler/Stopping.antt =====
-- What `Stop` does to the requests.
use kllm.Base.{
  ◌≡◌, refl, sym, ap, ◌∙◌, List, [], ◌∷◌, ◌++◌, map, Bool, true, false, Option, none, some, Error,
  scheduler_stopped,
}
use mathlib.Core.List.{append-nil, append_assoc}
use kllm.Platform.{Platform}
use kllm.Kv.{Allocator, Sequence, release}
use kllm.Backend.{Device}
use kllm.Scheduler.{Request, World, Config, error_event, free_seq, close, fail, fail_all}
use kllm.Scheduler.Loop.{
  State, halt, Step, submits, stops, receives, halts, cycles, Reach, here, next, sent, all_sent,
}
use kllm.Scheduler.Every.{closed_with}

-- A sequence after `Release`: its table and its length are zero values.
abbrev pub released : Option Sequence → Option Sequence
released none = none
released (some s) = some (record { table = []; len = 0 })

-- A request that `fail` ended.
abbrev pub failed : {T : Type 0} → Error → Request T → Request T
failed e r = closed_with r (error_event e) (released r.seq)

free_seq-released : (a : Allocator) (o : Option Sequence) → (free_seq a o).1 ≡ released o
unfolding free_seq release
free_seq-released a none = refl
free_seq-released a (some s) = refl

fail_all-over-eq :
    {F T : Type 0} (w : World F T) (rs : List (Request T)) (e : Error)
    → (fail_all w rs e).over ≡ w.over ++ map (failed e) rs
unfolding fail_all close
fail_all-over-eq w [] e = sym (append-nil w.over)
fail_all-over-eq w (r ∷ rs) e =
    fail_all-over-eq (fail w r e) rs e
    ∙ append_assoc w.over _ (map (failed e) rs)
    ∙ ap (λ o. w.over ++ closed_with r (error_event e) o ∷ map (failed e) rs)
        (free_seq-released w.alloc r.seq)

module _ (p : Platform) {V : Type 0} (gt : V → V → Bool) (cfg : Config) (dev : Device V) where
  open p use {Float, Time}

  -- The state of a loop that has returned, with what clients queued since.
  pub record IsOver (u : State dev.State Float Time) (queued : List (Request Time))
      (v : State dev.State Float Time) : Type 0 where
    pub returned : v.returned ≡ true
    pub over : v.world.over ≡ u.world.over
    pub queue : v.queue ≡ u.queue ++ queued

  live_again :
      {A : Type 0} (v : State dev.State Float Time)
      → (v.returned ≡ false) × (v.crashed ≡ false)
      → v.returned ≡ true
      → A
  live_again v live h = absurd (cc live.0)

  Step-IsOver :
      {u v w : State dev.State Float Time} (queued : List (Request Time))
      (s : Step p gt cfg dev v w)
      → IsOver u queued v
      → IsOver u (queued ++ sent p gt cfg dev s) w
  Step-IsOver {u} queued (submits st now ref prompt max_new r made room) k = record {
    returned = k.returned;
    over = k.over;
    queue = ap (λ q. q ++ r ∷ []) k.queue ∙ append_assoc u.queue queued (r ∷ []);
  }
  Step-IsOver queued (stops st going) k = record {
    returned = k.returned;
    over = k.over;
    queue = rw append-nil k.queue;
  }
  Step-IsOver queued (receives st r rest live e) k = live_again st live k.returned
  Step-IsOver queued (halts st live stop) k = live_again st live k.returned
  Step-IsOver queued (cycles st start now live going drained busy) k = live_again st live k.returned

  reach-IsOver :
      {u v : State dev.State Float Time} (reach : Reach p gt cfg dev u v)
      → u.returned ≡ true
      → IsOver u (all_sent p gt cfg dev reach) v
  reach-IsOver {u} here h = record { returned = h; over = refl; queue = sym (append-nil u.queue) }
  reach-IsOver (next reach step) h =
      Step-IsOver (all_sent p gt cfg dev reach) step (reach-IsOver reach h)

-- `Stop` ends the loop with an error event for each running and each waiting request. What is in
-- the queue by then, and what clients manage to queue afterwards, gets no event: whatever happens
-- from there on, those requests stay in the queue and no other request ends.
pub halt_strands_queue :
    (p : Platform) {V : Type 0} (gt : V → V → Bool) (cfg : Config) (dev : Device V)
    (u : State dev.State p.Float p.Time) {v : State dev.State p.Float p.Time}
    (reach : Reach p gt cfg dev (halt p gt cfg dev u) v)
    → (v.world.over ≡ u.world.over ++ map (failed scheduler_stopped) (u.running ++ u.waiting))
      × (v.queue ≡ u.queue ++ all_sent p gt cfg dev reach)
unfolding halt
halt_strands_queue p gt cfg dev u reach =
    let k = reach-IsOver p gt cfg dev reach refl in
    (k.over ∙ fail_all-over-eq u.world (u.running ++ u.waiting) scheduler_stopped, k.queue)
