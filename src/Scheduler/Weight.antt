-- ===== src/Scheduler/Weight.antt =====
-- What the scheduler keeps: a measure of the allocator and a weight of each request that every
-- part of the loop keeps in sum. Blocks.antt and Requests.antt give the two measures.
use kllm.Base.{
  ℕ, ◌+◌, ◌≡◌, refl, List, [], ◌∷◌, ◌++◌, map, false, some, arith, Error, reservation_failed,
}
use kllm.Kv.{Allocator, Sequence}
use kllm.Engine.{step}
use kllm.Scheduler.Batching.{stepped, held_by, Ends, form_one_cases, form_inv}
use kllm.Scheduler.{
  Request, World, Slot, Forming, GenEvent, error_event, close, fail, fail_all, with_seq, admit,
  tokens_of, form_one, form,
}

module _ {T : Type 0} (wt : Request T → ℕ) where
  abbrev pub weigh : List (Request T) → ℕ
  weigh [] = 0
  weigh (r ∷ rs) = wt r + weigh rs

  abbrev pub weigh_slots : List (Slot T) → ℕ
  weigh_slots [] = 0
  weigh_slots (s ∷ slots) = wt s.req + weigh_slots slots

  pub weigh-append : (rs ss : List (Request T)) → weigh (rs ++ ss) ≡ weigh rs + weigh ss
  weigh-append [] ss = omega arith
  weigh-append (r ∷ rs) ss = omega (arith, weigh-append rs ss)

  pub weigh_slots-append :
      (rs ss : List (Slot T)) → weigh_slots (rs ++ ss) ≡ weigh_slots rs + weigh_slots ss
  weigh_slots-append [] ss = omega arith
  weigh_slots-append (r ∷ rs) ss = omega (arith, weigh_slots-append rs ss)

  pub weigh-slot_reqs : (slots : List (Slot T)) → weigh (map (λ s. s.req) slots) ≡ weigh_slots slots
  weigh-slot_reqs [] = refl
  weigh-slot_reqs (s ∷ slots) = omega (arith, weigh-slot_reqs slots)

-- The sum of the measure of the free blocks and the weight of the requests that are over.
abbrev pub world_total : {F T : Type 0} → (Allocator → ℕ) → (Request T → ℕ) → World F T → ℕ
world_total φ wt w = φ w.alloc + weigh wt w.over

-- The two ways in which an allocator and a request change together, and the ways in which only a
-- request changes.
pub record Conserved (F T : Type 0) (φ : Allocator → ℕ) (wt : Request T → ℕ) : Type 0 where
  pub on_close :
      (w : World F T) (r : Request T) (ev : GenEvent)
      → world_total φ wt (close w r ev) ≡ world_total φ wt w + wt r
  pub on_step :
      (a : Allocator) (r : Request T) (s : Sequence) (tokens : List ℕ)
      → r.seq ≡ some s
      → let t = step a s tokens in φ t.alloc + wt (record r { seq = some t.seq }) ≡ φ a + wt r
  pub on_with_seq : (r : Request T) → wt (with_seq r) ≡ wt r

module _ {F T : Type 0} {φ : Allocator → ℕ} {wt : Request T → ℕ} (laws : Conserved F T φ wt) where
  open laws use {on_close, on_step, on_with_seq}

  abbrev pub total : World F T → ℕ
  total = world_total φ wt

  pub fail_all-total :
      (w : World F T) (rs : List (Request T)) (e : Error)
      → total (fail_all w rs e) ≡ total w + weigh wt rs
  unfolding fail_all
  fail_all-total w [] e = omega arith
  fail_all-total w (r ∷ rs) e =
      omega (arith, fail_all-total (fail w r e) rs e, on_close w r (error_event e))

  pub admit-weigh :
      (max_batch : ℕ) (running waiting : List (Request T))
      → let (running', waiting') = admit max_batch running waiting in
        weigh wt running' + weigh wt waiting' ≡ weigh wt running + weigh wt waiting
  unfolding admit
  admit-weigh max_batch running [] = refl
  admit-weigh max_batch running (r ∷ waiting) = ground (
    arith,
    admit-weigh max_batch (running ++ with_seq r ∷ []) waiting,
    weigh-append wt running (with_seq r ∷ []),
    on_with_seq r,
  )

  abbrev pub form_total : Forming F T → ℕ
  form_total f = total f.world + weigh_slots wt f.slots + weigh wt f.skipped + weigh wt f.waiting

  pub form_one-total :
      (f : Forming F T) (r : Request T)
      → (form_one f r).crashed ≡ false
      → form_total (form_one f r) ≡ form_total f + wt r
  form_one-total f r =
      form_one_cases (λ g. g.crashed ≡ false → form_total g ≡ form_total f + wt r) f r
        (λ _ _. omega (arith, weigh-append wt f.skipped (r ∷ [])))
        (λ _ _. omega (arith, weigh-append wt f.waiting (r ∷ []))) (λ _ h. cc)
        (λ s q. ends s (on_step f.world.alloc r s (tokens_of r) q))
    where
      ends :
          (s : Sequence)
          → φ (stepped f r s).alloc + wt (held_by f r s) ≡ φ f.world.alloc + wt r
          → Ends (λ g. g.crashed ≡ false → form_total g ≡ form_total f + wt r) f r s
      ends s moved = record {
        joins = λ sf _ _ _. omega (
          arith,
          moved,
          weigh_slots-append wt f.slots (record { sf = sf; req = held_by f r s } ∷ []),
        );
        retries = λ _ _ _ _. omega (arith, moved, weigh-append wt f.waiting (held_by f r s ∷ []));
        fails = λ e _ _ _. omega (
          arith,
          moved,
          on_close (record f.world { alloc = (stepped f r s).alloc }) (held_by f r s)
              (error_event (reservation_failed e)),
        );
        faults = λ _ h. cc;
      }

  pub form-total :
      (f : Forming F T) (rs : List (Request T))
      → (form f rs).crashed ≡ false
      → form_total (form f rs) ≡ form_total f + weigh wt rs
  form-total f rs ended = omega (
    arith,
    form_inv
        (λ g left. g.crashed ≡ false → form_total g + weigh wt left ≡ form_total f + weigh wt rs)
        (λ g r left h good ok_one. omega (arith, h good, form_one-total g r ok_one)) f rs
        (λ _. refl) ended ended,
  )
