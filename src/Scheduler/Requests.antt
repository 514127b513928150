-- ===== src/Scheduler/Requests.antt =====
-- No request is lost or answered twice.
use kllm.Base.{ℕ, ◌≡◌, refl, Bool, false, arith, ◌==◌, if◌then◌else◌}
use kllm.Platform.{Platform}
use kllm.Kv.{Allocator}
use kllm.Backend.{Device}
use kllm.Scheduler.{Request, Config, close, with_seq, advance}
use kllm.Scheduler.Weight.{weigh, weigh-append, Conserved}
use kllm.Scheduler.Loop.{State, init, Reach, all_sent}
use kllm.Scheduler.Conservation.{sys_total, reach-total}

-- Whether a request is the one that `k` names.
abbrev pub named : {T : Type 0} → ℕ → Request T → ℕ
named k r = if r.ref == k then 1 else 0

kept_name : (F T : Type 0) (k : ℕ) → Conserved F T (λ _. 0) (named k)
unfolding close with_seq
kept_name F T k = record {
  on_close = λ w r ev. omega (arith, weigh-append (named k) w.over);
  on_step = λ a r s tokens e. refl;
  on_with_seq = λ r. refl;
}

-- How often a request stands in the queue, the two lists of the loop and the list of those over.
abbrev pub places : {D F T : Type 0} → ℕ → State D F T → ℕ
places k = sys_total (λ _. 0) (named k)

module _ (p : Platform) {V : Type 0} (gt : V → V → Bool) (cfg : Config) (dev : Device V) where
  open p use {Time}

  named-advance :
      (k : ℕ) (r : Request Time) (fed tok : ℕ) (now : Time)
      → named k (advance p gt cfg r fed tok now) ≡ named k r
  unfolding advance
  named-advance k r fed tok now = refl

-- Whatever the schedule, until a panic: a request stands in as many places, the queue, the waiting
-- list, the running list or the list of those that are over, as it was submitted times. So one that
-- was submitted once is in exactly one of them: it is never dropped and never answered twice.
pub reach_places :
    (p : Platform) {V : Type 0} (gt : V → V → Bool) (cfg : Config) (dev : Device V) (k : ℕ)
    (device : dev.State) (a : Allocator) {v : State dev.State p.Float p.Time}
    (reach : Reach p gt cfg dev (init p gt cfg dev device a) v)
    → v.crashed ≡ false
    → places k v ≡ weigh (named k) (all_sent p gt cfg dev reach)
unfolding init
reach_places p gt cfg dev k device a reach good = omega (
  arith,
  reach-total p gt cfg dev (kept_name p.Float p.Time k) (named-advance p gt cfg dev k) reach good,
)
