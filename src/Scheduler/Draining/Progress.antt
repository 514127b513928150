-- ===== src/Scheduler/Draining/Progress.antt =====
-- A round in which a request can be served gets closer to the end.
use kllm.Base.{
  ℕ, ◌+◌, ◌≤◌, ◌<◌, ◌≡◌, refl, ap, ◌⊎◌, inl, inr, List, [], ◌∷◌, Bool, true, false, some, Option,
  arith, length, length-append, All, if_cases, Bool-cases, ok,
}
use kllm.Platform.{Platform}
use kllm.Kv.{Sequence, need_blocks}
use kllm.Kv.Sizes.{reserve-enough}
use kllm.Backend.{Device}
use kllm.Engine.Greedy.Feeding.{step-succeeds}
use kllm.Scheduler.{Request, Config, Slot, Forming, tokens_of, form_one, form, advance}
use kllm.Scheduler.Batching.{stepped, held_by, form_one_fits, form-crashed}
use kllm.Scheduler.Weight.{weigh, weigh_slots}
use kllm.Scheduler.Loop.{State, give_rows, formed, cycle}
use kllm.Scheduler.Loop.Rounds.{cycle_cases}
use kllm.Scheduler.Draining.{left, claim, live, form-live, deliver-less}

-- The first request of the loop that forms a batch, where it can not be put off.
pub record IsServable {F T : Type 0} (f : Forming F T) (r : Request T) : Type 0 where
  pub seq : Sequence
  pub has : r.seq ≡ some seq
  pub fits : length (tokens_of r) ≤ f.budget
  pub some_size : 0 < f.world.alloc.block_size
  pub enough :
      r.prefilled ≡ false
      → (seq.len ≡ 0)
        × (claim f.world.alloc.block_size r ≤ length f.world.alloc.free + length seq.table)
  pub more : 0 < left r

-- A request joins the batch, or one has failed.
abbrev pub Moves : {F T : Type 0} → Forming F T → List (Request T) → ℕ → Type 0
Moves f rs before = (0 < length f.slots) ⊎ (live left (λ _ _. refl) f rs < before)

module _ {F T : Type 0} where
  form_one-Moves :
      (f : Forming F T) (r : Request T) (rs : List (Request T))
      → IsServable f r
      → (form_one f r).crashed ≡ false
      → Moves (form_one f r) rs (live left (λ _ _. refl) f (r ∷ rs))
  form_one-Moves f r rs h =
      form_one_fits (λ g. g.crashed ≡ false → Moves g rs (live left (λ _ _. refl) f (r ∷ rs))) f r
        h.seq h.fits h.has
        (record {
          joins = λ sf _ _ _. inl (
              omega
                (arith, length-append f.slots (record { sf = sf; req = held_by f r h.seq } ∷ [])));
          retries = λ e failed off _. absurd (cc (failed, served off));
          fails = λ _ _ _ _. inr (omega (arith, h.more));
          faults = λ _ bad. cc;
        })
    where
      served :
          r.prefilled ≡ false
          → (stepped f r h.seq).result
            ≡ ok (record {
              tokens = tokens_of r;
              pos = (stepped f r h.seq).seq.len;
              block_table = (stepped f r h.seq).seq.table;
            })
      served off =
          let (no_len, few) = h.enough off in
          let asked : claim f.world.alloc.block_size r
              ≡ need_blocks h.seq.len (length (tokens_of r)) f.world.alloc.block_size =
            rw (off, no_len) refl in
          step-succeeds f.world.alloc h.seq (tokens_of r) (
            reserve-enough f.world.alloc h.seq (length (tokens_of r)) h.some_size
              (omega (arith, few, asked)))

  pub form-Moves :
      (f : Forming F T) (r : Request T) (rs : List (Request T))
      → IsServable f r
      → f.crashed ≡ false
      → (form f (r ∷ rs)).crashed ≡ false
      → Moves (form f (r ∷ rs)) [] (live left (λ _ _. refl) f (r ∷ rs))
  unfolding form
  form-Moves f r rs h start =
      if_cases (λ g. g.crashed ≡ false → Moves g [] (live left (λ _ _. refl) f (r ∷ rs))) f.crashed
        f (form (form_one f r) rs) (λ bad _. cc)
        (λ _ good.
          let one : (form_one f r).crashed ≡ false = uncrashed_one (Bool-cases _) good in
          let (less, slots) = form-live left (λ _ _. refl) (form_one f r) rs good in
          moved (form_one-Moves f r rs h one) less slots)
    where
      uncrashed_one :
          ((form_one f r).crashed ≡ true) ⊎ ((form_one f r).crashed ≡ false)
          → (form (form_one f r) rs).crashed ≡ false
          → (form_one f r).crashed ≡ false
      uncrashed_one (inl bad) good =
          absurd (
            cc
              (ap (λ (g : Forming F T). g.crashed) (form-crashed (form_one f r) rs bad), good, bad))
      uncrashed_one (inr fine) good = fine

      moved :
          Moves (form_one f r) rs (live left (λ _ _. refl) f (r ∷ rs))
          → live left (λ _ _. refl) (form (form_one f r) rs) []
            ≤ live left (λ _ _. refl) (form_one f r) rs
          → length (form_one f r).slots ≤ length (form (form_one f r) rs).slots
          → Moves (form (form_one f r) rs) [] (live left (λ _ _. refl) f (r ∷ rs))
      moved (inl some_slot) less slots = inl (omega arith)
      moved (inr fewer) less slots = inr (omega arith)

module _ (p : Platform) {V : Type 0} (gt : V → V → Bool) (cfg : Config) (dev : Device V)
    (wt : Request p.Time → ℕ) (loss : ℕ) {P : Request p.Time → Type 0}
    (on_seq : (r : Request p.Time) (o : Option Sequence) → wt (record r { seq = o }) ≡ wt r)
    (on_token : (r : Request p.Time) (fed tok : ℕ) (now : p.Time)
      → P r
      → wt (advance p gt cfg r fed tok now) + loss ≤ wt r) where
  open p use {Float, Time}

  losses_fit :
      (slots : List (Slot Time))
      → Time
      → All (λ s. P s.req) slots
      → weigh_slots (λ _. loss) slots ≤ weigh_slots wt slots
  losses_fit [] now h = omega arith
  losses_fit (s ∷ slots) now h = omega (arith, on_token s.req 0 0 now h.0, losses_fit slots now h.1)

  give_rows-less :
      (start now : Time) (st : State dev.State Float Time) (f : Forming Float Time)
      (rows : List (List V))
      → All (λ s. P s.req) f.slots
      → let v = give_rows p gt cfg dev start now st f rows in
        v.crashed ≡ false
        → weigh wt v.running + weigh wt v.waiting + weigh_slots (λ _. loss) f.slots
          ≤ live wt on_seq f []
  unfolding give_rows
  give_rows-less start now st f rows h good =
      omega (arith, deliver-less p gt cfg wt loss on_token now _ f.slots rows h good)

  -- What is live after a round, and what its batch has lost.
  pub cycle-less :
      (start now : Time) (st : State dev.State Float Time)
      → let f = formed p gt cfg dev st in
        let v = cycle p gt cfg dev start now st in
        (f.crashed ≡ false → All (λ s. P s.req) f.slots)
        → v.crashed ≡ false
        → weigh wt v.running + weigh wt v.waiting + weigh_slots (λ _. loss) f.slots
          ≤ live wt on_seq f []
  cycle-less start now st h =
      let f = formed p gt cfg dev st in
      cycle_cases p gt cfg dev
        (λ v.
          v.crashed ≡ false
          → weigh wt v.running + weigh wt v.waiting + weigh_slots (λ _. loss) f.slots
            ≤ live wt on_seq f [])
        start now st
        (record {
          crashes = λ _ good. cc;
          idles = λ good none_left _.
              omega (arith, ap (weigh_slots (λ (_ : Request Time). loss)) none_left);
          answers = λ rows good _ _ fine. give_rows-less start now _ f rows (h good) fine;
          fails = λ e good _ _ _. omega (arith, losses_fit f.slots now (h good));
          faults = λ _ _ _ good. cc;
        })
