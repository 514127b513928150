-- ===== src/Scheduler/Livelock.antt =====
-- Sequences keep the blocks that a failed `Reserve` took, so waiting requests can starve each other.
use kllm.Base.{
  ◌+◌, ◌≤◌, ◌<◌, ◌≡◌, refl, sym, ◌∙◌, subst, [], ◌∷◌, Bool, false, length, All, All-append, All-map,
  int_limit,
}
use kllm.Platform.{Platform}
use kllm.Backend.{Device}
use kllm.Engine.{step}
use kllm.Scheduler.{Config, Forming, admit, set_gauges}
use kllm.Scheduler.Loop.{
  State, halt, formed, cycle, Step, submits, stops, receives, halts, cycles, Reach, here, next,
}
use kllm.Scheduler.Loop.Rounds.{cycle_cases}
use kllm.Scheduler.Stuck.{IsStuck, IsStuckRunning, form-stuck, admit-IsStuck, fresh-IsStuck}

module _ (p : Platform) {V : Type 0} (gt : V → V → Bool) (cfg : Config) (dev : Device V) where
  open p use {Float, Time, no_time}

  -- Every request waits for a block, no block is free, and nothing runs that could free one.
  pub record IsDead (st : State dev.State Float Time) : Type 0 where
    pub pos_size : 0 < st.world.alloc.block_size
    pub none_free : st.world.alloc.free ≡ []
    pub none_runs : st.running ≡ []
    pub stuck : All (IsStuck cfg st.world.alloc) st.waiting
    pub queued : All (IsStuck cfg st.world.alloc) st.queue

  -- The batch of a dead state is empty.
  record IsIdle (st : State dev.State Float Time) (f : Forming Float Time) : Type 0 where
    no_slots : f.slots ≡ []
    none_skipped : f.skipped ≡ []
    good : f.crashed ≡ false
    same_alloc : f.world.alloc ≡ st.world.alloc
    same_over : f.world.over ≡ st.world.over
    all_wait : All (IsStuck cfg st.world.alloc) f.waiting

  formed-IsIdle : (st : State dev.State Float Time) → IsDead st → IsIdle st (formed p gt cfg dev st)
  unfolding formed set_gauges
  formed-IsIdle st k =
      let l = admit cfg.max_batch st.running st.waiting in
      let ks =
        admit-IsStuck cfg st.world.alloc cfg.max_batch st.running st.waiting
          (subst (All (IsStuckRunning cfg st.world.alloc)) (sym k.none_runs) tt) k.stuck in
      let e =
        form-stuck cfg
          (record {
            world = set_gauges p gt cfg st.world (length l.0) (length l.1);
            budget = cfg.max_step_tokens;
            slots = [];
            skipped = [];
            waiting = l.1;
            crashed = false;
          })
          l.0 k.pos_size k.none_free refl ks.0 in
      subst (IsIdle st) (sym e) (record {
        no_slots = refl;
        none_skipped = refl;
        good = refl;
        same_alloc = refl;
        same_over = refl;
        all_wait =
            All-append (IsStuck cfg st.world.alloc) l.1 l.0 ks.1 (All-map (λ r q. q.0) l.0 ks.0);
      })

  -- `v` is dead too, and no request ended between `u` and `v`.
  pub record IsStarved (u v : State dev.State Float Time) : Type 0 where
    pub dead : IsDead v
    pub same_alloc : v.world.alloc ≡ u.world.alloc
    pub same_over : v.world.over ≡ u.world.over

  cycle-IsStarved :
      (start now : Time) (st : State dev.State Float Time)
      → IsDead st
      → IsStarved st (cycle p gt cfg dev start now st)
  cycle-IsStarved start now st k =
      let i = formed-IsIdle st k in
      cycle_cases p gt cfg dev (IsStarved st) start now st (record {
        crashes = λ bad. absurd (cc i.good);
        idles = λ _ _. record {
          dead = record {
            pos_size = rw i.same_alloc k.pos_size;
            none_free = rw i.same_alloc k.none_free;
            none_runs = i.none_skipped;
            stuck =
                subst (λ a. All (IsStuck cfg a) (formed p gt cfg dev st).waiting) (sym i.same_alloc)
                  i.all_wait;
            queued = subst (λ a. All (IsStuck cfg a) st.queue) (sym i.same_alloc) k.queued;
          };
          same_alloc = i.same_alloc;
          same_over = i.same_over;
        };
        answers = λ rows _ some_slot _. absurd (some_slot i.no_slots);
        fails = λ e _ some_slot _. absurd (some_slot i.no_slots);
        faults = λ _ some_slot _. absurd (some_slot i.no_slots);
      })

  Step-IsStarved :
      {u v : State dev.State Float Time}
      → cfg.max_step_tokens + u.world.alloc.block_size ≤ int_limit
      → Step p gt cfg dev u v
      → IsDead u
      → v.returned ≡ false
      → IsStarved u v
  unfolding halt
  Step-IsStarved small (submits st now ref prompt max_new r made room) k on = record {
    dead = record {
      pos_size = k.pos_size;
      none_free = k.none_free;
      none_runs = k.none_runs;
      stuck = k.stuck;
      queued = All-append (IsStuck cfg st.world.alloc) st.queue (r ∷ []) k.queued (
        fresh-IsStuck cfg st.world.alloc no_time now ref prompt max_new r k.pos_size small made,
        tt,
      );
    };
    same_alloc = refl;
    same_over = refl;
  }
  Step-IsStarved small (stops st going) k on = record {
    dead = record {
      pos_size = k.pos_size;
      none_free = k.none_free;
      none_runs = k.none_runs;
      stuck = k.stuck;
      queued = k.queued;
    };
    same_alloc = refl;
    same_over = refl;
  }
  Step-IsStarved small (receives st r rest live e) k on =
      let q : All (IsStuck cfg st.world.alloc) (r ∷ rest) =
        subst (All (IsStuck cfg st.world.alloc)) e k.queued in
      record {
        dead = record {
          pos_size = k.pos_size;
          none_free = k.none_free;
          none_runs = k.none_runs;
          stuck = All-append (IsStuck cfg st.world.alloc) st.waiting (r ∷ []) k.stuck (q.0, tt);
          queued = q.1;
        };
        same_alloc = refl;
        same_over = refl;
      }
  Step-IsStarved small (halts st live stop) k on = cc
  Step-IsStarved small (cycles st start now live going drained busy) k on =
      cycle-IsStarved start now st k

  Step-on :
      {u v : State dev.State Float Time}
      → Step p gt cfg dev u v
      → v.returned ≡ false
      → u.returned ≡ false
  Step-on (submits st now ref prompt max_new r made room) on = on
  Step-on (stops st going) on = on
  Step-on (receives st r rest live e) on = on
  Step-on (halts st live stop) on = live.0
  Step-on (cycles st start now live going drained busy) on = live.0

-- Where every request waits for a block, no block is free and nothing runs, no request is ever
-- answered, failed or finished: that holds after any number of rounds and whatever is submitted,
-- until `Stop` ends the loop. The blocks stay with the requests that wait for more of them.
pub dead_starves :
    (p : Platform) {V : Type 0} (gt : V → V → Bool) (cfg : Config) (dev : Device V)
    {u v : State dev.State p.Float p.Time}
    → cfg.max_step_tokens + u.world.alloc.block_size ≤ int_limit
    → IsDead p gt cfg dev u
    → Reach p gt cfg dev u v
    → v.returned ≡ false
    → IsStarved p gt cfg dev u v
dead_starves p gt cfg dev small k here on = record { dead = k; same_alloc = refl; same_over = refl }
dead_starves p gt cfg dev small k (next reach step) on =
    let i = dead_starves p gt cfg dev small k reach (Step-on p gt cfg dev step on) in
    let j = Step-IsStarved p gt cfg dev (rw i.same_alloc small) step i.dead on in
    record {
      dead = j.dead;
      same_alloc = j.same_alloc ∙ i.same_alloc;
      same_over = j.same_over ∙ i.same_over;
    }
