-- ===== src/Scheduler/Batching.antt =====
-- How one round of the forming loop ends: the cases that every property of the loop goes through.
use kllm.Base.{
  ◌≡◌, ◌≤◌, ◌-◌, List, [], ◌∷◌, ◌++◌, true, false, none, some, arith, length, ltb, ok, err, panic,
  Error, reservation_failed, refl, subst, if_cases, option_cases, result_cases,
}
use kllm.Kv.{Sequence}
use kllm.Backend.{SeqForward}
use kllm.Engine.{Stepped, step}
use kllm.Scheduler.{Request, Forming, fail, tokens_of, reserve_for, form_one, form}

module _ {F T : Type 0} where
  -- The call of `Step` for a request.
  abbrev pub stepped : Forming F T → Request T → Sequence → Stepped
  stepped f r s = step f.world.alloc s (tokens_of r)

  -- The request and the loop's variables once `Step` has changed the sequence and the allocator.
  abbrev pub held_by : Forming F T → Request T → Sequence → Request T
  held_by f r s = record r { seq = some (stepped f r s).seq }

  abbrev pub reserved : Forming F T → Request T → Sequence → Forming F T
  reserved f r s = record f { world = record f.world { alloc = (stepped f r s).alloc } }

  -- The ends of a round in which the request has a sequence.
  pub record Ends {ℓ} (P : Forming F T → Type ℓ) (f : Forming F T) (r : Request T) (s : Sequence)
      : Type ℓ where
    pub joins :
        (sf : SeqForward)
        → (stepped f r s).result ≡ ok sf
        → length (tokens_of r) ≤ f.budget
        → P (record (reserved f r s) {
          budget = f.budget - length (tokens_of r);
          slots = f.slots ++ record { sf = sf; req = held_by f r s } ∷ [];
        })
    pub retries :
        (e : Error)
        → (stepped f r s).result ≡ err e
        → r.prefilled ≡ false
        → P (record (reserved f r s) { waiting = f.waiting ++ held_by f r s ∷ [] })
    pub fails :
        (e : Error)
        → (stepped f r s).result ≡ err e
        → r.prefilled ≡ true
        → P (record f {
          world =
              fail
                (record f.world { alloc = (stepped f r s).alloc })
                (held_by f r s)
                (reservation_failed e);
        })
    pub faults : (stepped f r s).result ≡ panic → P (record f { crashed = true })

  reserve_for_cases {ℓ} :
      (P : Forming F T → Type ℓ) (f : Forming F T) (r : Request T) (s : Sequence)
      → length (tokens_of r) ≤ f.budget
      → Ends P f r s
      → P (reserve_for f r s (tokens_of r))
  unfolding reserve_for
  reserve_for_cases P f r s fits ends =
      result_cases P (stepped f r s).result _ _ _ (λ sf q. ends.joins sf q fits)
        (λ e q. if_cases P r.prefilled _ _ (ends.fails e q) (ends.retries e q)) ends.faults

  -- A round ends in one of seven ways.
  pub form_one_cases {ℓ} :
      (P : Forming F T → Type ℓ) (f : Forming F T) (r : Request T)
      → (r.prefilled ≡ true → P (record f { skipped = f.skipped ++ r ∷ [] }))
      → (r.prefilled ≡ false → P (record f { waiting = f.waiting ++ r ∷ [] }))
      → (r.seq ≡ none → P (record f { crashed = true }))
      → ((s : Sequence) → r.seq ≡ some s → Ends P f r s)
      → P (form_one f r)
  unfolding form_one
  form_one_cases P f r skips waits faults ends =
      if_cases P (ltb f.budget (length (tokens_of r))) _ _
        (λ over. if_cases P r.prefilled _ _ skips waits)
        (λ fits.
          option_cases P r.seq _ _ faults
            (λ s q. reserve_for_cases P f r s (ground arith) (ends s q)))

  -- Where the tokens fit the budget and the request has its sequence.
  pub form_one_fits {ℓ} :
      (P : Forming F T → Type ℓ) (f : Forming F T) (r : Request T) (s : Sequence)
      → length (tokens_of r) ≤ f.budget
      → r.seq ≡ some s
      → Ends P f r s
      → P (form_one f r)
  unfolding form_one
  form_one_fits P f r s fits has ends =
      if_cases P (ltb f.budget (length (tokens_of r))) _ _ (λ over. absurd (ground arith))
        (λ _.
          option_cases P r.seq _ _ (λ nil. cc)
            (λ s' q.
              let same : s ≡ s' = cc in
              reserve_for_cases P f r s' fits (subst (Ends P f r) same ends)))

  -- Nothing runs after a panic.
  pub form-crashed : (f : Forming F T) (rs : List (Request T)) → f.crashed ≡ true → form f rs ≡ f
  unfolding form
  form-crashed f [] h = refl
  form-crashed f (r ∷ rs) h = ground arith

  -- The rule of the loop, for a property of the loop's variables and the requests still to come.
  pub form_inv {ℓ} :
      (P : Forming F T → List (Request T) → Type ℓ)
      → ((f : Forming F T) (r : Request T) (rs : List (Request T))
          → P f (r ∷ rs)
          → f.crashed ≡ false
          → P (form_one f r) rs)
      → (f : Forming F T) (rs : List (Request T)) → P f rs
      → (form f rs).crashed ≡ false
      → P (form f rs) []
  unfolding form
  form_inv P keep f [] h = λ _. h
  form_inv P keep f (r ∷ rs) h =
      if_cases (λ g. g.crashed ≡ false → P g []) f.crashed f (form (form_one f r) rs)
        (λ bad good. cc) (λ good. form_inv P keep (form_one f r) rs (keep f r rs h good))
