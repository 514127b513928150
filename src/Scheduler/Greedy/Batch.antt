-- ===== src/Scheduler/Greedy/Batch.antt =====
-- The whole loop that forms a batch, from the requests that were admitted.
use kllm.Base.{
  ℕ, ◌+◌, ◌≤◌, ◌≡◌, refl, ap, ◌∙◌, List, [], ◌∷◌, ◌++◌, Bool, true, false, some, arith, length,
  take, All, All-append, ltb, if_cases, reservation_failed,
}
use mathlib.Core.List.{append-nil}
use kllm.Platform.{Platform}
use kllm.Kv.{Sequence}
use kllm.Backend.{Device}
use kllm.Scheduler.{Request, Config, Forming, error_event, with_seq, admit, form_one, set_gauges}
use kllm.Scheduler.Batching.{held_by, Ends, form_one_cases, form_inv}
use kllm.Scheduler.Weight.{weigh, form_total, form_one-total, admit-weigh}
use kllm.Scheduler.Conservation.{sys_total}
use kllm.Scheduler.Blocks.{table_of}
use kllm.Scheduler.Capacity.{held, numbered}
use kllm.Scheduler.Faults.{close-block_size}
use kllm.Scheduler.Loop.{State, formed}
use kllm.Scheduler.Greedy.{
  IsFresh, IsGreedy, IsOnTrack-error, IsFresh-IsOnTrack, told, history, with_seq-IsFresh,
}
use kllm.Scheduler.Greedy.Forming.{
  Serving, IsFed, IsJoined, FormGreedy, close-IsGreedy, keeps, step-IsJoined, retried-IsFresh,
}

module _ (p : Platform) {V : Type 0} (gt : V → V → Bool) (cfg : Config) (dev : Device V)
    {num_blocks block_size : ℕ} {model : List ℕ → List V}
    (serving : Serving cfg dev num_blocks block_size model) where
  open p use {Float, Time}
  open serving use {paged}

  abbrev Kept : dev.State → Forming Float Time → List (Request Time) → Type 0
  Kept = FormGreedy p gt cfg dev serving

  form_one-FormGreedy :
      (st : dev.State) (f : Forming Float Time) (r : Request Time) (left : List (Request Time))
      → Kept st f (r ∷ left)
      → f.crashed ≡ false
      → Kept st (form_one f r) left
  form_one-FormGreedy st f r left h good =
      form_one_cases
        (λ g.
          (g.crashed ≡ false → form_total (numbered Float Time) g + weigh held left ≤ num_blocks)
          → Kept st g left)
        f r
        (λ _ number. record {
          over = h.over;
          slots = h.slots;
          skipped = All-append (IsFed p gt cfg dev serving st) f.skipped _ h.skipped (fed, tt);
          waiting = h.waiting;
          to_come = h.to_come.1;
          size = h.size;
          budget = h.budget;
          number = number;
        })
        (λ off number. record {
          over = h.over;
          slots = h.slots;
          skipped = h.skipped;
          waiting = All-append IsFresh f.waiting _ h.waiting (fed.fresh off, tt);
          to_come = h.to_come.1;
          size = h.size;
          budget = h.budget;
          number = number;
        })
        (λ _. crashed) (λ s has. ends s has)
        (λ fine. omega (arith, form_one-total (numbered Float Time) f r fine, h.number good))
    where
      fed : IsFed p gt cfg dev serving st r
      fed = h.to_come.0

      Numbered : Forming Float Time → Type 0
      Numbered g =
          g.crashed ≡ false → form_total (numbered Float Time) g + weigh held left ≤ num_blocks

      crashed : Numbered (record f { crashed = true }) → Kept st (record f { crashed = true }) left
      crashed number = record {
        over = h.over;
        slots = h.slots;
        skipped = h.skipped;
        waiting = h.waiting;
        to_come = h.to_come.1;
        size = h.size;
        budget = h.budget;
        number = number;
      }

      ends : (s : Sequence) → r.seq ≡ some s → Ends (λ g. Numbered g → Kept st g left) f r s
      ends s has =
          let kept = keeps p gt cfg dev serving st f r left h good s has in
          record {
            joins = λ sf ran fits number. record {
              over = h.over;
              slots =
                  All-append (IsJoined p gt cfg dev serving st) f.slots _ h.slots
                    (step-IsJoined p gt cfg dev serving st f r left h good s has sf ran fits, tt);
              skipped = h.skipped;
              waiting = h.waiting;
              to_come = h.to_come.1;
              size = kept.size ∙ h.size;
              budget = omega (arith, h.budget);
              number = number;
            };
            retries = λ e _ off number. record {
              over = h.over;
              slots = h.slots;
              skipped = h.skipped;
              waiting =
                  All-append IsFresh f.waiting _ h.waiting
                    (retried-IsFresh p gt cfg dev serving st f r left h good s has off, tt);
              to_come = h.to_come.1;
              size = kept.size ∙ h.size;
              budget = h.budget;
              number = number;
            };
            fails = λ e _ _ number. record {
              over =
                  close-IsGreedy p gt cfg dev serving _ _ _
                    (λ o.
                      IsOnTrack-error p gt cfg model (held_by f r s) (reservation_failed e) o
                        (record { so_far = fed.on_track.so_far; more = fed.on_track.more }))
                    h.over;
              slots = h.slots;
              skipped = h.skipped;
              waiting = h.waiting;
              to_come = h.to_come.1;
              size =
                  close-block_size _ (held_by f r s) (error_event (reservation_failed e))
                  ∙ kept.size
                  ∙ h.size;
              budget = h.budget;
              number = number;
            };
            faults = λ _. crashed;
          }

  -- A fresh request that is admitted has been fed nothing.
  with_seq-IsFed :
      (st : dev.State) (r : Request Time) → IsFresh r → IsFed p gt cfg dev serving st (with_seq r)
  with_seq-IsFed st r k =
      let h = with_seq-IsFresh r k in
      let q : Request Time = with_seq r in
      let empty : history q ≡ [] = ap (λ n. take n (told q)) h.no_len in
      record {
        on_track = IsFresh-IsOnTrack p gt cfg model q h;
        joined = rw (empty, h.not_started, h.silent, append-nil) refl;
        len = rw (empty, h.no_len) refl;
        kept = rw empty (paged.starts st (table_of q.seq));
        covered = omega (arith, h.no_len);
        fresh = λ _. h;
      }

  admit-IsFed :
      (st : dev.State) (max_batch : ℕ) (running waiting : List (Request Time))
      → All (IsFed p gt cfg dev serving st) running
      → All IsFresh waiting
      → let (running', waiting') = admit max_batch running waiting in
        All (IsFed p gt cfg dev serving st) running' × All IsFresh waiting'
  unfolding admit
  admit-IsFed st max_batch running [] ps qs = (ps, tt)
  admit-IsFed st max_batch running (r ∷ waiting) ps qs =
      if_cases
        (λ (a : List (Request Time) × List (Request Time)).
          All (IsFed p gt cfg dev serving st) a.0 × All IsFresh a.1)
        (ltb (length running) max_batch) _ _
        (λ _.
          admit-IsFed st max_batch (running ++ with_seq r ∷ []) waiting
            (All-append (IsFed p gt cfg dev serving st) running _ ps (with_seq-IsFed st r qs.0, tt))
            qs.1)
        (λ _. (ps, qs))

  -- The state of the main loop before a round.
  pub record IsServed (st : State dev.State Float Time) : Type 0 where
    pub over : All (IsGreedy p gt cfg model) st.world.over
    pub queue : All IsFresh st.queue
    pub running : All (IsFed p gt cfg dev serving st.device) st.running
    pub waiting : All IsFresh st.waiting

  pub formed-FormGreedy :
      (st : State dev.State Float Time)
      → IsServed st
      → sys_total (λ a. length a.free) held st ≡ num_blocks
      → st.world.alloc.block_size ≡ block_size
      → (formed p gt cfg dev st).crashed ≡ false
      → Kept st.device (formed p gt cfg dev st) []
  unfolding formed set_gauges
  formed-FormGreedy st h number size =
      let (ps, qs) =
        admit-IsFed st.device cfg.max_batch st.running st.waiting h.running h.waiting in
      form_inv (Kept st.device) (λ f r left k good. form_one-FormGreedy st.device f r left k good) _
        _
        (record {
          over = h.over;
          slots = tt;
          skipped = tt;
          waiting = qs;
          to_come = ps;
          size = size;
          budget = omega arith;
          number = λ _. omega (
            arith,
            number,
            admit-weigh (numbered Float Time) cfg.max_batch st.running st.waiting,
          );
        })
