-- ===== src/Scheduler/Every.antt =====
-- A property of every live request and one of every request that is over, which each part of the
-- loop keeps. Streams.antt and Feeding.antt give such properties.
pub mod Histories
use kllm.Base.{
  ℕ, ◌≡◌, refl, List, [], ◌∷◌, ◌++◌, map, Bool, true, false, Option, none, some, length, All,
  All-append, Error, if_cases, scheduler_stopped, ltb, if◌then◌else◌, ok,
}
use kllm.Platform.{Platform}
use kllm.Scheduler.Blocks.{table_of}
use kllm.Kv.{release, Allocator, Sequence, new_sequence}
use kllm.Backend.{Device}
use kllm.Scheduler.{
  Request, World, Config, Slot, Forming, Delivery, GenEvent, error_event, done_event, free_seq,
  close, fail, fail_all, with_seq, admit, form_one, form, set_gauges, advance, deliver_one, deliver,
}
use kllm.Scheduler.Batching.{held_by, Ends, form_one_cases, form_inv}
use kllm.Scheduler.Results.{advanced, ended, deliver_one_cases, deliver_inv}
use kllm.Scheduler.Loop.{
  State, give_rows, formed, cycle, halt, new_request, Step, submits, stops, receives, halts, cycles,
  Reach, here, next,
}
use kllm.Scheduler.Loop.Rounds.{cycle_cases}
use kllm.Scheduler.Conservation.{uncrashed}

-- A request that is over, with its last event.
abbrev pub closed_with : {T : Type 0} → Request T → GenEvent → Option Sequence → Request T
closed_with r ev o = record r { seq = o; out = r.out ++ ev ∷ []; closed = true }

-- The sequence of a request that is over holds no blocks.
free_seq-released : (a : Allocator) (o : Option Sequence) → table_of (free_seq a o).1 ≡ []
unfolding free_seq release
free_seq-released a none = refl
free_seq-released a (some s) = refl

-- What the two properties have to satisfy.
pub record Kept (p : Platform) {V : Type 0} (gt : V → V → Bool) (cfg : Config)
    (P Q : Request p.Time → Type 0) : Type 0 where
  pub on_seq : (r : Request p.Time) (o : Option Sequence) → P r → P (record r { seq = o })
  pub on_error :
      (r : Request p.Time) (e : Error) (o : Option Sequence)
      → P r
      → table_of o ≡ []
      → Q (closed_with r (error_event e) o)
  pub on_end :
      (r : Request p.Time) (fed tok : ℕ) (now : p.Time) (o : Option Sequence)
      → P r
      → table_of o ≡ []
      → Q (closed_with (advance p gt cfg r fed tok now) done_event o)
  pub on_token :
      (r : Request p.Time) (fed tok : ℕ) (now : p.Time)
      → P r
      → ended p gt cfg (advance p gt cfg r fed tok now) tok ≡ false
      → P (advance p gt cfg r fed tok now)
  pub on_request :
      (no_time now : p.Time) (ref : ℕ) (prompt : List ℕ) (max_new : ℕ) (r : Request p.Time)
      → new_request cfg no_time now ref prompt max_new ≡ ok r
      → P r

abbrev pub AllSlots : {T : Type 0} → (Request T → Type 0) → List (Slot T) → Type 0
AllSlots P = All (λ s. P s.req)

module _ (p : Platform) {V : Type 0} (gt : V → V → Bool) (cfg : Config)
    {P Q : Request p.Time → Type 0} (laws : Kept p gt cfg P Q) where
  open p use {Float, Time}
  open laws use {on_seq, on_error, on_end, on_token, on_request}

  close-over :
      (w : World Float Time) (r : Request Time) (ev : GenEvent)
      → ((o : Option Sequence) → table_of o ≡ [] → Q (closed_with r ev o))
      → All Q w.over
      → All Q (close w r ev).over
  unfolding close
  close-over w r ev q h =
      All-append Q w.over _ h (q (free_seq w.alloc r.seq).1 (free_seq-released w.alloc r.seq), tt)

  pub fail_all-over :
      (w : World Float Time) (rs : List (Request Time)) (e : Error)
      → All P rs
      → All Q w.over
      → All Q (fail_all w rs e).over
  unfolding fail_all
  fail_all-over w [] e ps h = h
  fail_all-over w (r ∷ rs) e ps h =
      fail_all-over (fail w r e) rs e ps.1
        (close-over w r (error_event e) (λ o done. on_error r e o ps.0 done) h)

  pub admit-All :
      (max_batch : ℕ) (running waiting : List (Request Time))
      → All P running
      → All P waiting
      → let (running', waiting') = admit max_batch running waiting in
        All P running' × All P waiting'
  unfolding admit with_seq
  admit-All max_batch running [] ps qs = (ps, tt)
  admit-All max_batch running (r ∷ waiting) ps qs =
      if_cases (λ (a : List (Request Time) × List (Request Time)). All P a.0 × All P a.1)
        (ltb (length running) max_batch) _ _
        (λ _.
          admit-All max_batch (running ++ with_seq r ∷ []) waiting
            (All-append P running _ ps (on_seq r _ qs.0, tt)) qs.1)
        (λ _. (ps, qs))

  -- The forming loop's lists.
  pub record FormKept (f : Forming Float Time) (left : List (Request Time)) : Type 0 where
    pub over : All Q f.world.over
    pub slots : AllSlots P f.slots
    pub skipped : All P f.skipped
    pub waiting : All P f.waiting
    pub to_come : All P left

  pub form_one-Kept :
      (f : Forming Float Time) (r : Request Time) (left : List (Request Time))
      → FormKept f (r ∷ left)
      → FormKept (form_one f r) left
  form_one-Kept f r left k =
      form_one_cases (λ g. FormKept g left) f r
        (λ _. record {
          over = k.over;
          slots = k.slots;
          skipped = All-append P f.skipped (r ∷ []) k.skipped (k.to_come.0, tt);
          waiting = k.waiting;
          to_come = k.to_come.1;
        })
        (λ _. record {
          over = k.over;
          slots = k.slots;
          skipped = k.skipped;
          waiting = All-append P f.waiting (r ∷ []) k.waiting (k.to_come.0, tt);
          to_come = k.to_come.1;
        })
        (λ _. crashed)
        (λ s _. record {
          joins = λ sf _ _. record {
            over = k.over;
            slots = All-append (λ (t : Slot Time). P t.req) f.slots _ k.slots (held s, tt);
            skipped = k.skipped;
            waiting = k.waiting;
            to_come = k.to_come.1;
          };
          retries = λ _ _ _. record {
            over = k.over;
            slots = k.slots;
            skipped = k.skipped;
            waiting = All-append P f.waiting _ k.waiting (held s, tt);
            to_come = k.to_come.1;
          };
          fails = λ e _ _. record {
            over =
                close-over _ (held_by f r s) _
                  (λ o done. on_error (held_by f r s) _ o (held s) done) k.over;
            slots = k.slots;
            skipped = k.skipped;
            waiting = k.waiting;
            to_come = k.to_come.1;
          };
          faults = λ _. crashed;
        })
    where
      held : (s : Sequence) → P (held_by f r s)
      held s = on_seq r _ k.to_come.0

      crashed : FormKept (record f { crashed = true }) left
      crashed = record {
        over = k.over;
        slots = k.slots;
        skipped = k.skipped;
        waiting = k.waiting;
        to_come = k.to_come.1;
      }

  -- The lists of the loop that hands out the results.
  abbrev pub DeliveryKept : Delivery Float Time → List (Slot Time) → Type 0
  DeliveryKept d left = All Q d.world.over × All P d.next × AllSlots P left

  pub deliver_one-Kept :
      (now : Time) (d : Delivery Float Time) (slot : Slot Time) (left : List (Slot Time))
      (row : List V)
      → DeliveryKept d (slot ∷ left)
      → DeliveryKept (deliver_one p gt cfg now d slot row) left
  deliver_one-Kept now d slot left row (over, ps, (pr, rest)) =
      deliver_one_cases p gt cfg (λ e. DeliveryKept e left) now d slot row (λ _. (over, ps, rest))
        (λ tok _ _. (
          close-over _ _ done_event (λ o done. on_end slot.req _ tok now o pr done) over,
          ps,
          rest,
        ))
        (λ tok _ goes_on.
          (over, All-append P d.next _ ps (on_token slot.req _ tok now pr goes_on, tt), rest))
