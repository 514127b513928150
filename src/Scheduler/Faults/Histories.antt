-- ===== src/Scheduler/Faults/Histories.antt =====
-- The scheduler does not panic, whatever its clients do.
use kllm.Base.{
  ℕ, ◌*◌, ◌≤◌, ap, sym, inl, inr, ◌<◌, ◌≡◌, ◌≢◌, refl, ◌∙◌, subst, List, [], ◌∷◌, ◌++◌, map, Bool,
  false, Option, none, some, arith, length, length-map, OnOk, All, All-append, All-map, ok, panic,
  if_cases, scheduler_stopped,
}
use kllm.Platform.{Platform}
use kllm.Kv.{Allocator, Sequence, new_sequence, commit}
use kllm.Backend.{SeqForward, Device, check_batch, max_batch_seqs, make_limit}
use kllm.Backend.Forward.{check_batch_iff, forward_batch_of_device, forward_batch_shape}
use kllm.Engine.{argmax}
use kllm.Scheduler.{
  Request, Config, Slot, Delivery, with_seq, admit, set_gauges, advance, deliver_one, deliver,
  done_event,
}
use kllm.Scheduler.Results.{deliver_one_cases, advanced, counted}
use kllm.Scheduler.Loop.{
  State, formed, cycle, give_rows, halt, init, new_request, new_request-IsAccepted, Step, submits,
  stops, receives, halts, cycles, Reach, here, next,
}
use kllm.Scheduler.Loop.Rounds.{cycle_cases}
use kllm.Scheduler.Blocks.{table_of, blocks}
use kllm.Scheduler.Faults.{
  IsNew, IsBacked, IsSteady, IsSized, same_size, IsFilled, HasSeq, AllSlots, close-block_size,
  fail_all-block_size, IsForming, form-IsForming,
}

-- A vocabulary with which a buffer of one row of logits for each sequence of a batch can be made,
-- and is not empty.
pub record HasVocab (cfg : Config) : Type 0 where
  pub some : 0 < cfg.vocab
  pub few : max_batch_seqs * cfg.vocab ≤ make_limit

pub HasVocab-fits :
    (cfg : Config) (seqs : List SeqForward)
    → HasVocab cfg
    → check_batch seqs ≡ ok tt
    → (0 < length seqs * cfg.vocab) × (length seqs * cfg.vocab ≤ make_limit)
HasVocab-fits cfg seqs h guarded =
    let k = (check_batch_iff seqs).0 guarded in
    product_between (length seqs) cfg.vocab k.0 k.1 h.some h.few
  where
    product_between :
        (m n : ℕ)
        → 0 < m
        → m ≤ max_batch_seqs
        → 0 < n
        → max_batch_seqs * n ≤ make_limit
        → (0 < m * n) × (m * n ≤ make_limit)
    product_between m n some_m few_m some_n few = (grind arith, grind arith)

-- A device that fills its buffer where it does not fail, and does not panic on a batch that the
-- guards of `ForwardBatch` let through, whose sequences have blocks, and a buffer that Go can make.
pub record IsRunning {V : Type 0} (dev : Device V) : Type 0 where
  pub fills :
      (st : dev.State) (seqs : List SeqForward) (n : ℕ)
      → OnOk (λ (buffer : List V). length buffer ≡ n) (dev.forward st seqs n).1
  pub runs :
      (st : dev.State) (seqs : List SeqForward) (n : ℕ)
      → check_batch seqs ≡ ok tt
      → All (λ s. 0 < length s.block_table) seqs
      → 0 < n
      → n ≤ make_limit
      → (dev.forward st seqs n).1 ≢ panic

-- The length of a new sequence.
no_len-new : (s : Sequence) → some new_sequence ≡ some s → s.len ≡ 0
no_len-new s q = ap length_of (sym q)
  where
    length_of : Option Sequence → ℕ
    length_of none = 0
    length_of (some t) = t.len

module _ {T : Type 0} (cfg : Config) where
  with_seq-IsSteady : (r : Request T) → IsBacked cfg r → IsSteady cfg (with_seq r)
  unfolding with_seq
  with_seq-IsSteady r backed = got r.seq refl
    where
      got :
          (o : Option Sequence)
          → r.seq ≡ o
          → IsSteady cfg (record r { seq = elim o [ none ↦ some new_sequence | some s ↦ some s ] })
      got none e = ((λ q. cc q), inr (new backed))
        where
          new : IsBacked cfg r → IsNew cfg (record r { seq = some new_sequence })
          new (inl some_block) = absurd (omega (arith, some_block, ap (λ o. length (table_of o)) e))
          new (inr k) = record {
            some_prompt = k.some_prompt;
            fits = k.fits;
            not_started = k.not_started;
            no_len = λ s q. no_len-new s q;
          }
      got (some s) e = ((λ q. cc q), kept backed)
        where
          kept : IsBacked cfg r → IsBacked cfg (record r { seq = some s })
          kept (inl some_block) = inl (omega (arith, some_block, ap (λ o. length (table_of o)) e))
          kept (inr k) = inr (record {
            some_prompt = k.some_prompt;
            fits = k.fits;
            not_started = k.not_started;
            no_len = λ t q. k.no_len t (e ∙ q);
          })

  admit-IsSteady :
      (max_batch : ℕ) (running waiting : List (Request T))
      → All (IsSteady cfg) running
      → All (IsBacked cfg) waiting
      → let a = admit max_batch running waiting in All (IsSteady cfg) a.0 × All (IsBacked cfg) a.1
  unfolding admit
  admit-IsSteady max_batch running [] h k = (h, tt)
  admit-IsSteady max_batch running (r ∷ waiting) h k =
      if_cases
        (λ (a : List (Request T) × List (Request T)).
          All (IsSteady cfg) a.0 × All (IsBacked cfg) a.1)
        _ _ _
        (λ _.
          admit-IsSteady max_batch (running ++ with_seq r ∷ []) waiting
            (All-append (IsSteady cfg) running _ h (with_seq-IsSteady r k.0, tt)) k.1)
        (λ _. (h, k))

module _ (p : Platform) {V : Type 0} (gt : V → V → Bool) (cfg : Config) where
  open p use {Float, Time}

  argmax-some : (row : List V) → 0 < length row → argmax gt row ≢ none
  unfolding argmax
  argmax-some [] h e = omega arith
  argmax-some (v ∷ row) h e = cc e

  advance-IsSteady :
      (r : Request Time) (fed tok : ℕ) (now : Time)
      → HasSeq r
      → 0 < length (blocks r)
      → IsSteady cfg (advance p gt cfg r fed tok now)
  unfolding advance commit
  advance-IsSteady r fed tok now h some_block = got r.seq refl
    where
      got :
          (o : Option Sequence)
          → r.seq ≡ o
          → IsSteady cfg (advance p gt cfg (record r { seq = o }) fed tok now)
      got none e = absurd (h e)
      got (some s) e =
          ((λ q. cc q), inl (omega (arith, some_block, ap (λ o. length (table_of o)) e)))

  record IsDelivering (d : Delivery Float Time) : Type 0 where
    good : d.crashed ≡ false
    size : IsSized cfg d.world.alloc
    next : All (IsSteady cfg) d.next

  deliver_one-IsDelivering :
      (now : Time) (d : Delivery Float Time) (slot : Slot Time) (row : List V)
      → IsFilled slot
      → 0 < length row
      → IsDelivering d
      → IsDelivering (deliver_one p gt cfg now d slot row)
  deliver_one-IsDelivering now d slot row filled some_logit h =
      deliver_one_cases p gt cfg IsDelivering now d slot row
        (λ e. absurd (argmax-some row some_logit e))
        (λ tok _ _. record {
          good = h.good;
          size =
              same_size
                (close-block_size (counted p gt cfg d slot now) (advanced p gt cfg slot tok now)
                  done_event)
                h.size;
          next = h.next;
        })
        (λ tok _ _. record {
          good = h.good;
          size = h.size;
          next = All-append (IsSteady cfg) d.next _ h.next (
            advance-IsSteady slot.req (length slot.sf.tokens) tok now filled.has filled.kept,
            tt,
          );
        })

  deliver-IsDelivering :
      (now : Time) (d : Delivery Float Time) (slots : List (Slot Time)) (rows : List (List V))
      → AllSlots slots
      → length rows ≡ length slots
      → All (λ row. 0 < length row) rows
      → IsDelivering d
      → IsDelivering (deliver p gt cfg now d slots rows)
  unfolding deliver
  deliver-IsDelivering now d [] rows has same wide h = h
  deliver-IsDelivering now d (slot ∷ slots) [] has same wide h = absurd (omega arith)
  deliver-IsDelivering now d (slot ∷ slots) (row ∷ rows) has same wide h =
      if_cases IsDelivering d.crashed d
        (deliver p gt cfg now (deliver_one p gt cfg now d slot row) slots rows)
        (λ bad. absurd (cc (bad, h.good)))
        (λ _.
          deliver-IsDelivering now (deliver_one p gt cfg now d slot row) slots rows has.1
            (omega arith) wide.1 (deliver_one-IsDelivering now d slot row has.0 wide.0 h))

  -- The sequences of a batch have blocks.
  batch-blocks :
      (slots : List (Slot Time))
      → AllSlots slots
      → All (λ s. 0 < length s.block_table) (map (λ s. s.sf) slots)
  batch-blocks [] h = tt
  batch-blocks (s ∷ slots) h = (h.0.block, batch-blocks slots h.1)

  module _ (dev : Device V) (device_runs : IsRunning dev) (vocab : HasVocab cfg) where
    -- The scheduler has not panicked; every running request has its sequence, and every live one
    -- has a block or will get one.
    pub record IsSound (st : State dev.State Float Time) : Type 0 where
      pub good : st.crashed ≡ false
      pub size : IsSized cfg st.world.alloc
      pub running : All (IsSteady cfg) st.running
      pub waiting : All (IsBacked cfg) st.waiting
      pub queue : All (IsBacked cfg) st.queue

    pub formed-IsForming :
        (st : State dev.State Float Time) → IsSound st → IsForming cfg (formed p gt cfg dev st) []
    unfolding formed set_gauges
    formed-IsForming st h =
        let a = admit cfg.max_batch st.running st.waiting in
        let (steady, backed) =
          admit-IsSteady cfg cfg.max_batch st.running st.waiting h.running h.waiting in
        form-IsForming cfg _ a.0 (record {
          good = refl;
          size = h.size;
          slots = tt;
          skipped = tt;
          waiting = backed;
          to_come = steady;
        })

    pub cycle-IsSound :
        (start now : Time) (st : State dev.State Float Time)
        → IsSound st
        → IsSound (cycle p gt cfg dev start now st)
    unfolding give_rows
    cycle-IsSound start now st h =
        let f = formed p gt cfg dev st in
        let k = formed-IsForming st h in
        let batch = map (λ s. s.sf) f.slots in
        cycle_cases p gt cfg dev IsSound start now st (record {
          crashes = λ bad. absurd (cc (bad, k.good));
          idles = λ _ _. record {
            good = h.good;
            size = k.size;
            running = k.skipped;
            waiting = k.waiting;
            queue = h.queue;
          };
          answers = λ rows _ _ e.
              (let shaped : (length rows ≡ length batch)
                    × All (λ row. length row ≡ cfg.vocab) rows =
                  subst
                    (OnOk (λ (out : List (List V)).
                      (length out ≡ length batch) × All (λ row. length row ≡ cfg.vocab) out))
                    e
                    (forward_batch_shape dev cfg.vocab st.device batch
                      (device_runs.fills st.device batch (length batch * cfg.vocab))) in
                let d =
                  deliver-IsDelivering now (record { world = _; next = f.skipped; crashed = false })
                    f.slots rows k.slots (shaped.0 ∙ length-map (λ s. s.sf) f.slots)
                    (All-map (λ row wide. omega (arith, wide, vocab.some)) rows shaped.1)
                    (record { good = refl; size = k.size; next = k.skipped }) in
                record {
                  good = d.good;
                  size = d.size;
                  running = d.next;
                  waiting = k.waiting;
                  queue = h.queue;
                });
          fails = λ e _ _ _. record {
            good = h.good;
            size =
                same_size (fail_all-block_size f.world (map (λ s. s.req) f.slots ++ f.skipped) e)
                  k.size;
            running = tt;
            waiting = k.waiting;
            queue = h.queue;
          };
          faults = λ _ _ e. absurd (
              forward_batch_of_device dev cfg.vocab st.device batch
                (λ guarded.
                  let (some_n, few) = HasVocab-fits cfg batch vocab guarded in
                  device_runs.runs st.device batch (length batch * cfg.vocab) guarded
                    (batch-blocks f.slots k.slots) some_n few)
                e);
        })

    new_request-IsBacked :
        (now : Time) (ref : ℕ) (prompt : List ℕ) (max_new : ℕ) (r : Request Time)
        → new_request cfg p.no_time now ref prompt max_new ≡ ok r
        → IsBacked cfg r
    new_request-IsBacked now ref prompt max_new r made =
        let a = new_request-IsAccepted cfg p.no_time now ref prompt max_new r made in
        subst (IsBacked cfg) (sym a.made) (
          inr (record {
            some_prompt = a.some_prompt;
            fits = a.fits;
            not_started = refl;
            no_len = λ s q. cc q;
          }))

    pub Step-IsSound :
        {u v : State dev.State Float Time} → Step p gt cfg dev u v → IsSound u → IsSound v
    unfolding halt
    Step-IsSound (submits st now ref prompt max_new r made room) h = record {
      good = h.good;
      size = h.size;
      running = h.running;
      waiting = h.waiting;
      queue =
          All-append (IsBacked cfg) st.queue _ h.queue
            (new_request-IsBacked now ref prompt max_new r made, tt);
    }
    Step-IsSound (stops st going) h = record {
      good = h.good;
      size = h.size;
      running = h.running;
      waiting = h.waiting;
      queue = h.queue;
    }
    Step-IsSound (receives st r rest live e) h =
        let (first, later) : All (IsBacked cfg) (r ∷ rest) = subst (All (IsBacked cfg)) e h.queue in
        record {
          good = h.good;
          size = h.size;
          running = h.running;
          waiting = All-append (IsBacked cfg) st.waiting _ h.waiting (first, tt);
          queue = later;
        }
    Step-IsSound (halts st live stop) h = record {
      good = h.good;
      size =
          same_size (fail_all-block_size st.world (st.running ++ st.waiting) scheduler_stopped)
            h.size;
      running = tt;
      waiting = tt;
      queue = h.queue;
    }
    Step-IsSound (cycles st start now live going drained busy) h = cycle-IsSound start now st h

    pub reach-IsSound :
        {u v : State dev.State Float Time} → Reach p gt cfg dev u v → IsSound u → IsSound v
    reach-IsSound here h = h
    reach-IsSound (next reach step) h = Step-IsSound step (reach-IsSound reach h)

    pub reach_sound :
        (device : dev.State) (a : Allocator) {v : State dev.State Float Time}
        → IsSized cfg a
        → Reach p gt cfg dev (init p gt cfg dev device a) v
        → v.crashed ≡ false
    unfolding init
    reach_sound device a size reach =
        (reach-IsSound reach
          (record { good = refl; size = size; running = tt; waiting = tt; queue = tt })).good
