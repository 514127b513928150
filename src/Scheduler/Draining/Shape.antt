-- ===== src/Scheduler/Draining/Shape.antt =====
-- The running requests have run; the waiting ones have not, and hold no more blocks than their
-- prompts ask for.
use kllm.Base.{
  ℕ, ◌≤◌, ◌<◌, ◌≡◌, ◌≢◌, refl, sym, ap, ◌∙◌, ◌⊎◌, inl, inr, List, [], ◌∷◌, ◌++◌, Bool, true, false,
  some, arith, length, All, All-append, if_cases, ltb,
}
use mathlib.Core.List.{append-nil, append_assoc}
use kllm.Platform.{Platform}
use kllm.Kv.{Sequence, need_blocks}
use kllm.Kv.Sizes.{reserve-Keeps, reserve-few}
use kllm.Engine.{step}
use kllm.Scheduler.{
  Request, Config, Slot, Forming, Delivery, with_seq, admit, tokens_of, form_one, form, advance,
  deliver,
}
use kllm.Scheduler.Batching.{stepped, held_by, form_one_cases, form_inv}
use kllm.Scheduler.Results.{deliver_one_cases, deliver_inv}
use kllm.Scheduler.Weight.{weigh}
use kllm.Scheduler.Blocks.{table_of}
use kllm.Scheduler.Capacity.{held}
use kllm.Scheduler.Faults.{HasSeq, close-block_size}
use kllm.Scheduler.Stuck.{seq-with_seq}
use kllm.Scheduler.Greedy.{len_of}
use kllm.Scheduler.Draining.{claim}

abbrev pub IsStarted : {T : Type 0} → Request T → Type 0
IsStarted r = r.prefilled ≡ true

pub record IsPending {T : Type 0} (block_size : ℕ) (r : Request T) : Type 0 where
  pub not_started : r.prefilled ≡ false
  pub no_len : len_of r.seq ≡ 0
  pub few : held r ≤ claim block_size r

pub with_seq-IsPending :
    {T : Type 0} (block_size : ℕ) (r : Request T)
    → IsPending block_size r
    → IsPending block_size (with_seq r)
unfolding with_seq
with_seq-IsPending block_size r h = record {
  not_started = h.not_started;
  no_len = ground (arith, h.no_len);
  few = ground (arith, h.few);
}

pub weigh-claim :
    {T : Type 0} (block_size : ℕ) (rs : List (Request T))
    → All (IsPending block_size) rs
    → weigh held rs ≤ weigh (claim block_size) rs
weigh-claim block_size [] h = omega arith
weigh-claim block_size (r ∷ rs) h = omega (arith, h.0.few, weigh-claim block_size rs h.1)

IsPending-of :
    {T : Type 0} (block_size : ℕ) (r : Request T)
    → IsStarted r ⊎ IsPending block_size r
    → r.prefilled ≡ false
    → IsPending block_size r
IsPending-of block_size r (inl on) off = cc
IsPending-of block_size r (inr h) off = h

pub record FormShape {F T : Type 0} (block_size : ℕ) (f : Forming F T) (rs : List (Request T))
    : Type 0 where
  pub size : f.world.alloc.block_size ≡ block_size
  pub skipped : All IsStarted f.skipped
  pub waiting : All (IsPending block_size) f.waiting
  pub to_come : All (λ r. IsStarted r ⊎ IsPending block_size r) rs

module _ {F T : Type 0} (block_size : ℕ) (some_size : 0 < block_size) where
  module _ (f : Forming F T) (r : Request T) (rs : List (Request T))
      (h : FormShape block_size f (r ∷ rs)) (s : Sequence) (has : r.seq ≡ some s) where
    pub stepped_size : (stepped f r s).alloc.block_size ≡ block_size
    unfolding step
    stepped_size = (reserve-Keeps f.world.alloc s (length (tokens_of r))).size ∙ h.size

    -- A request that has to wait has taken no more than it needs.
    held_by-IsPending : r.prefilled ≡ false → IsPending block_size (held_by f r s)
    unfolding step
    held_by-IsPending off =
        let k = IsPending-of block_size r h.to_come.0 off in
        let len : s.len ≡ 0 = ap len_of (sym has) ∙ k.no_len in
        let before : held r ≡ length s.table = ap (λ o. length (table_of o)) has in
        let asked : claim block_size r
            ≡ need_blocks s.len (length (tokens_of r)) f.world.alloc.block_size =
          rw (off, len, h.size) refl in
        record {
          not_started = off;
          no_len = (reserve-Keeps f.world.alloc s (length (tokens_of r))).len ∙ len;
          few = omega (
            arith,
            k.few,
            before,
            asked,
            reserve-few f.world.alloc s (length (tokens_of r)) (omega (arith, h.size, some_size)),
          );
        }

  form_one-FormShape :
      (f : Forming F T) (r : Request T) (rs : List (Request T))
      → FormShape block_size f (r ∷ rs)
      → FormShape block_size (form_one f r) rs
  form_one-FormShape f r rs h =
      form_one_cases (λ g. FormShape block_size g rs) f r
        (λ on. record {
          size = h.size;
          skipped = All-append IsStarted f.skipped _ h.skipped (on, tt);
          waiting = h.waiting;
          to_come = h.to_come.1;
        })
        (λ off. record {
          size = h.size;
          skipped = h.skipped;
          waiting =
              All-append (IsPending block_size) f.waiting _ h.waiting
                (IsPending-of block_size r h.to_come.0 off, tt);
          to_come = h.to_come.1;
        })
        (λ _. passed)
        (λ s has. record {
          joins = λ sf _ _. record {
            size = stepped_size f r rs h s has;
            skipped = h.skipped;
            waiting = h.waiting;
            to_come = h.to_come.1;
          };
          retries = λ _ _ off. record {
            size = stepped_size f r rs h s has;
            skipped = h.skipped;
            waiting =
                All-append (IsPending block_size) f.waiting _ h.waiting
                  (held_by-IsPending f r rs h s has off, tt);
            to_come = h.to_come.1;
          };
          fails = λ e _ _. record {
            size = close-block_size _ (held_by f r s) _ ∙ stepped_size f r rs h s has;
            skipped = h.skipped;
            waiting = h.waiting;
            to_come = h.to_come.1;
          };
          faults = λ _. passed;
        })
    where
      passed : FormShape block_size (record f { crashed = true }) rs
      passed = record {
        size = h.size;
        skipped = h.skipped;
        waiting = h.waiting;
        to_come = h.to_come.1;
      }

  pub form-FormShape :
      (f : Forming F T) (rs : List (Request T))
      → FormShape block_size f rs
      → (form f rs).crashed ≡ false
      → FormShape block_size (form f rs) []
  form-FormShape f rs h =
      form_inv (FormShape block_size) (λ g r ss k _. form_one-FormShape g r ss k) f rs h

-- What is admitted follows what runs; both lists keep their shape.
pub record IsAdmitted {T : Type 0} (block_size : ℕ) (running : List (Request T))
    (admitted : List (Request T) × List (Request T)) : Type 0 where
  pub more : List (Request T)
  pub joined : admitted.0 ≡ running ++ more
  pub pending : All (IsPending block_size) more
  pub seqs : All HasSeq more
  pub waiting : All (IsPending block_size) admitted.1

pub admit-IsAdmitted :
    {T : Type 0} (block_size max_batch : ℕ) (running waiting : List (Request T))
    → All (IsPending block_size) waiting
    → IsAdmitted block_size running (admit max_batch running waiting)
unfolding admit
admit-IsAdmitted block_size max_batch running [] h = record {
  more = [];
  joined = sym (append-nil running);
  pending = tt;
  seqs = tt;
  waiting = tt;
}
admit-IsAdmitted {T} block_size max_batch running (r ∷ waiting) h =
    if_cases (IsAdmitted block_size running) (ltb (length running) max_batch) _ _
      (λ _.
        let k = admit-IsAdmitted block_size max_batch (running ++ with_seq r ∷ []) waiting h.1 in
        record {
          more = with_seq r ∷ k.more;
          joined = k.joined ∙ append_assoc running (with_seq r ∷ []) k.more;
          pending = (with_seq-IsPending block_size r h.0, k.pending);
          seqs = (λ nil. cc (seq-with_seq r), k.seqs);
          waiting = k.waiting;
        })
      (λ _. record {
        more = [];
        joined = sym (append-nil running);
        pending = tt;
        seqs = tt;
        waiting = h;
      })

-- Where nothing runs, something is admitted.
pub admit-some :
    {T : Type 0} (block_size max_batch : ℕ) (r : Request T) (waiting : List (Request T))
    → 0 < max_batch
    → All (IsPending block_size) (r ∷ waiting)
    → (admit max_batch [] (r ∷ waiting)).0 ≢ []
unfolding admit
admit-some {T} block_size max_batch r waiting some_batch h =
    if_cases (λ (a : List (Request T) × List (Request T)). a.0 ≢ []) (ltb 0 max_batch) _ _
      (λ _ empty.
        let k = admit-IsAdmitted block_size max_batch (with_seq r ∷ []) waiting h.1 in
        cc (sym k.joined ∙ empty))
      (λ full. absurd (ground arith))

module _ (p : Platform) {V : Type 0} (gt : V → V → Bool) (cfg : Config) where
  open p use {Float, Time}

  -- After the loop over the results every running request has run.
  pub deliver-IsStarted :
      (now : Time) (d : Delivery Float Time) (slots : List (Slot Time)) (rows : List (List V))
      → All IsStarted d.next
      → let e = deliver p gt cfg now d slots rows in e.crashed ≡ false → All IsStarted e.next
  unfolding advance
  deliver-IsStarted now d slots rows h =
      deliver_inv p gt cfg (λ e _. All IsStarted e.next) now
        (λ e slot rest row k _.
          deliver_one_cases p gt cfg (λ e. All IsStarted e.next) now e slot row (λ _. k)
            (λ tok _ _. k) (λ tok _ _. All-append IsStarted e.next _ k (refl, tt)))
        d slots rows h
