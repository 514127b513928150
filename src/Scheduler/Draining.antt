-- ===== src/Scheduler/Draining.antt =====
-- How much is left to do: a weight of each live request that no part of the loop makes greater, and
-- that a round in which a request joins the batch, or fails, makes smaller.
pub mod Shape
pub mod Progress
pub mod Ready
pub mod Shaped
pub mod Ending
pub mod Rounds
use kllm.Base.{
  ℕ, ◌+◌, ◌-◌, ◌≤◌, ◌<◌, ◌≡◌, refl, List, [], ◌∷◌, ◌++◌, map, Bool, true, false, Option, none, some,
  arith, length, length-append, All, if◌then◌else◌, ltb,
}
use kllm.Platform.{Platform}
use kllm.Kv.{Sequence, need_blocks}
use kllm.Scheduler.{
  Request, Config, Slot, Forming, Delivery, with_seq, admit, form_one, form, advance, deliver_one,
  deliver,
}
use kllm.Scheduler.Batching.{held_by, Ends, form_one_cases, form_inv}
use kllm.Scheduler.Results.{advanced, deliver_one_cases, deliver_inv}
use kllm.Scheduler.Weight.{weigh, weigh_slots, weigh-append, weigh_slots-append}

-- The tokens that a request may still get.
abbrev pub left : {T : Type 0} → Request T → ℕ
left r = r.max_new - r.generated

-- The blocks that its prompt asks for, before it has run.
abbrev pub claim : {T : Type 0} → ℕ → Request T → ℕ
claim block_size r = if r.prefilled then 0 else need_blocks 0 (length r.prompt) block_size

module _ {F T : Type 0} (wt : Request T → ℕ)
    (on_seq : (r : Request T) (o : Option Sequence) → wt (record r { seq = o }) ≡ wt r) where
  -- The requests that are live while a batch is formed.
  abbrev pub live : Forming F T → List (Request T) → ℕ
  live f rs = weigh_slots wt f.slots + weigh wt f.skipped + weigh wt f.waiting + weigh wt rs

  form_one-live :
      (f : Forming F T) (r : Request T) (rs : List (Request T))
      → live (form_one f r) rs ≤ live f (r ∷ rs)
  form_one-live f r rs =
      form_one_cases (λ g. live g rs ≤ live f (r ∷ rs)) f r
        (λ _. omega (arith, weigh-append wt f.skipped (r ∷ [])))
        (λ _. omega (arith, weigh-append wt f.waiting (r ∷ []))) (λ _. omega arith)
        (λ s _. record {
          joins = λ sf _ _. omega (
            arith,
            on_seq r (held_by f r s).seq,
            weigh_slots-append wt f.slots (record { sf = sf; req = held_by f r s } ∷ []),
          );
          retries = λ _ _ _.
              omega (
                arith,
                on_seq r (held_by f r s).seq,
                weigh-append wt f.waiting (held_by f r s ∷ []),
              );
          fails = λ _ _ _. omega arith;
          faults = λ _. omega arith;
        })

  form_one-slots : (f : Forming F T) (r : Request T) → length f.slots ≤ length (form_one f r).slots
  form_one-slots f r =
      form_one_cases (λ g. length f.slots ≤ length g.slots) f r (λ _. omega arith)
        (λ _. omega arith) (λ _. omega arith)
        (λ s _. record {
          joins = λ sf _ _.
              omega (arith, length-append f.slots (record { sf = sf; req = held_by f r s } ∷ []));
          retries = λ _ _ _. omega arith;
          fails = λ _ _ _. omega arith;
          faults = λ _. omega arith;
        })

  pub form-live :
      (f : Forming F T) (rs : List (Request T))
      → (form f rs).crashed ≡ false
      → (live (form f rs) [] ≤ live f rs) × (length f.slots ≤ length (form f rs).slots)
  form-live f rs good =
      form_inv (λ g ss. (live g ss ≤ live f rs) × (length f.slots ≤ length g.slots))
        (λ g r ss h _.
          (omega (arith, h.0, form_one-live g r ss), omega (arith, h.1, form_one-slots g r)))
        f rs (omega arith, omega arith) good

module _ {T : Type 0} (wt : Request T → ℕ)
    (on_seq : (r : Request T) (o : Option Sequence) → wt (record r { seq = o }) ≡ wt r) where
  -- Admitting changes nothing.
  pub admit-live :
      (max_batch : ℕ) (running waiting : List (Request T))
      → let (running', waiting') = admit max_batch running waiting in
        weigh wt running' + weigh wt waiting' ≡ weigh wt running + weigh wt waiting
  unfolding admit with_seq
  admit-live max_batch running [] = refl
  admit-live max_batch running (r ∷ waiting) = ground (
    arith,
    admit-live max_batch (running ++ with_seq r ∷ []) waiting,
    weigh-append wt running (with_seq r ∷ []),
    on_seq r (with_seq r).seq,
  )

-- A weight that a token makes smaller by `loss`.
module _ (p : Platform) {V : Type 0} (gt : V → V → Bool) (cfg : Config) (wt : Request p.Time → ℕ)
    (loss : ℕ) {P : Request p.Time → Type 0}
    (on_token : (r : Request p.Time) (fed tok : ℕ) (now : p.Time)
      → P r
      → wt (advance p gt cfg r fed tok now) + loss ≤ wt r) where
  open p use {Float, Time}

  -- What is left in the loop over the results; `total` and `before` are the values at its start.
  record IsLess (total before : ℕ) (d : Delivery Float Time) (slots : List (Slot Time))
      : Type 0 where
    less : weigh wt d.next + weigh_slots wt slots + total ≤ before + weigh_slots (λ _. loss) slots
    all : All (λ s. P s.req) slots

  deliver_one-IsLess :
      (total before : ℕ) (now : Time) (d : Delivery Float Time) (slot : Slot Time)
      (slots : List (Slot Time)) (row : List V)
      → IsLess total before d (slot ∷ slots)
      → IsLess total before (deliver_one p gt cfg now d slot row) slots
  deliver_one-IsLess total before now d slot slots row h =
      deliver_one_cases p gt cfg (λ e. IsLess total before e slots) now d slot row
        (λ _. record {
          less = omega (arith, h.less, on_token slot.req 0 0 now h.all.0);
          all = h.all.1;
        })
        (λ tok _ _. record {
          less = omega (arith, h.less, on_token slot.req (length slot.sf.tokens) tok now h.all.0);
          all = h.all.1;
        })
        (λ tok _ _. record {
          less = omega (
            arith,
            h.less,
            on_token slot.req (length slot.sf.tokens) tok now h.all.0,
            weigh-append wt d.next (advanced p gt cfg slot tok now ∷ []),
          );
          all = h.all.1;
        })

  pub deliver-less :
      (now : Time) (d : Delivery Float Time) (slots : List (Slot Time)) (rows : List (List V))
      → All (λ s. P s.req) slots
      → let e = deliver p gt cfg now d slots rows in
        e.crashed ≡ false
        → weigh wt e.next + weigh_slots (λ _. loss) slots ≤ weigh wt d.next + weigh_slots wt slots
  deliver-less now d slots rows h good =
      let total = weigh_slots (λ _. loss) slots in
      let before = weigh wt d.next + weigh_slots wt slots in
      let ended =
        deliver_inv p gt cfg (IsLess total before) now
          (λ e slot rest row k _. deliver_one-IsLess total before now e slot rest row k) d slots
          rows (record { less = omega arith; all = h }) good in
      omega (arith, ended.less)
