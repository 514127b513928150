-- ===== src/Scheduler/Feeding.antt =====
-- What the scheduler feeds to `ForwardBatch`.
pub mod Histories
use kllm.Base.{
  ℕ, zero, suc, ◌+◌, ◌-◌, ◌≤◌, ◌<◌, ◌≡◌, ◌≢◌, refl, sym, ap, subst, List, [], ◌∷◌, ◌++◌, map, Bool,
  true, false, Option, none, some, arith, length, length-append, length-map, All, All-append, ok,
  ltb, leb, ◌==◌, ◌||◌, if◌then◌else◌, if_cases, Error,
}
use kllm.Platform.{Platform}
use kllm.Kv.{Allocator, Sequence}
use kllm.Backend.{SeqForward, Device, max_batch_seqs, check_batch}
use kllm.Backend.Forward.{HasTokens, check_batch_iff}
use kllm.Engine.{step}
use kllm.Engine.Stepping.{step-ok, descriptor}
use kllm.Scheduler.{
  Request, World, Config, Slot, Forming, Delivery, batch_bound, with_seq, admit, tokens_of,
  form_one, form, set_gauges, advance, deliver_one, deliver,
}
use kllm.Scheduler.Batching.{stepped, held_by, Ends, form_one_cases, form_inv}
use kllm.Scheduler.Loop.{State, new_request, new_request-IsAccepted, init, formed, Reach}
use kllm.Scheduler.Every.{Kept}
use kllm.Scheduler.Every.Histories.{AllKept, reach-Kept}

abbrev pub HasPrompt : {T : Type 0} → Request T → Type 0
HasPrompt r = 0 < length r.prompt

prompts :
    (p : Platform) {V : Type 0} (gt : V → V → Bool) (cfg : Config)
    → Kept p gt cfg HasPrompt (λ _. Unit)
unfolding advance
prompts p gt cfg = record {
  on_seq = λ r o h. h;
  on_error = λ r e o h _. tt;
  on_end = λ r fed tok now o h _. tt;
  on_token = λ r fed tok now h goes_on. h;
  on_request = λ no_time now ref prompt max_new r made.
      let a = new_request-IsAccepted cfg no_time now ref prompt max_new r made in
      subst HasPrompt (sym a.made) a.some_prompt;
}

-- The tokens of a batch.
abbrev pub token_count : {T : Type 0} → List (Slot T) → ℕ
token_count [] = 0
token_count (s ∷ slots) = length s.sf.tokens + token_count slots

token_count-append :
    {T : Type 0} (xs ys : List (Slot T)) → token_count (xs ++ ys) ≡ token_count xs + token_count ys
token_count-append [] ys = omega arith
token_count-append (x ∷ xs) ys = omega (arith, token_count-append xs ys)

tokens_of-filled : {T : Type 0} (r : Request T) → HasPrompt r → 0 < length (tokens_of r)
tokens_of-filled r h = if_cases (λ ts. 0 < length ts) r.prefilled _ _ (λ _. omega arith) (λ _. h)

-- The batch so far: `limit` tokens shared with the budget, no more members than requests.
pub record IsFed {T : Type 0} (limit members budget : ℕ) (slots : List (Slot T))
    (skipped left : List (Request T)) : Type 0 where
  pub tokens : token_count slots + budget ≡ limit
  pub places : length slots + length skipped + length left ≤ members
  pub filled : All (λ s. HasTokens s.sf) slots
  pub to_come : All HasPrompt left

module _ {F T : Type 0} (limit members : ℕ) where
  abbrev pub Fed : Forming F T → List (Request T) → Type 0
  Fed f = IsFed limit members f.budget f.slots f.skipped

  form_one-IsFed :
      (f : Forming F T) (r : Request T) (left : List (Request T))
      → Fed f (r ∷ left)
      → Fed (form_one f r) left
  form_one-IsFed f r left k =
      form_one_cases (λ g. Fed g left) f r
        (λ _. record {
          tokens = k.tokens;
          places = omega (arith, k.places, length-append f.skipped (r ∷ []));
          filled = k.filled;
          to_come = k.to_come.1;
        })
        (λ _. passed) (λ _. passed)
        (λ s _. record {
          joins = λ sf q fits. joined s sf (step-ok f.world.alloc s (tokens_of r) sf q).1 fits;
          retries = λ _ _ _. passed;
          fails = λ _ _ _. passed;
          faults = λ _. passed;
        })
    where
      passed : IsFed limit members f.budget f.slots f.skipped left
      passed = record {
        tokens = k.tokens;
        places = omega (arith, k.places);
        filled = k.filled;
        to_come = k.to_come.1;
      }

      joined :
          (s : Sequence) (sf : SeqForward)
          → sf ≡ descriptor (stepped f r s).seq (tokens_of r)
          → length (tokens_of r) ≤ f.budget
          → IsFed limit members
              (f.budget - length (tokens_of r))
              (f.slots ++ record { sf = sf; req = held_by f r s } ∷ [])
              f.skipped
              left
      joined s sf e fits =
          let size = ap (λ (x : SeqForward). length x.tokens) e in
          record {
            tokens = omega (
              arith,
              k.tokens,
              size,
              token_count-append f.slots (record { sf = sf; req = held_by f r s } ∷ []),
            );
            places = omega (
              arith,
              k.places,
              length-append f.slots (record { sf = sf; req = held_by f r s } ∷ []),
            );
            filled =
                All-append (λ (t : Slot T). HasTokens t.sf) f.slots _ k.filled
                  (omega (arith, size, tokens_of-filled r k.to_come.0), tt);
            to_come = k.to_come.1;
          }

admit-prompts :
    {T : Type 0} (max_batch : ℕ) (running waiting : List (Request T))
    → All HasPrompt running
    → All HasPrompt waiting
    → length running ≤ max_batch
    → let (running', waiting') = admit max_batch running waiting in
      All HasPrompt running' × (length running' ≤ max_batch)
unfolding admit with_seq
admit-prompts max_batch running [] ps qs few = (ps, few)
admit-prompts max_batch running (r ∷ waiting) ps qs few =
    if_cases
      (λ (a : List (Request _) × List (Request _)). All HasPrompt a.0 × (length a.0 ≤ max_batch))
      (ltb (length running) max_batch) _ _
      (λ room.
        admit-prompts max_batch (running ++ with_seq r ∷ []) waiting
          (All-append HasPrompt running _ ps (qs.0, tt)) qs.1
          (ground (arith, length-append running (with_seq r ∷ []))))
      (λ _. (ps, few))

-- The bound that `NewScheduler` puts on the batch fits the C library's.
pub batch_bound_range : (n : ℕ) → (0 < batch_bound n) × (batch_bound n ≤ max_batch_seqs)
unfolding batch_bound
batch_bound_range n = ground arith

module _ (p : Platform) {V : Type 0} (gt : V → V → Bool) (cfg : Config) (dev : Device V) where
  open p use {Float, Time}

  pub formed-Fed :
      (st : State dev.State Float Time)
      → All HasPrompt st.running
      → All HasPrompt st.waiting
      → length st.running ≤ cfg.max_batch
      → let f = formed p gt cfg dev st in
        f.crashed ≡ false → Fed cfg.max_step_tokens cfg.max_batch f []
  unfolding formed set_gauges
  formed-Fed st ps qs few good =
      let (ps', few') = admit-prompts cfg.max_batch st.running st.waiting ps qs few in
      form_inv (Fed cfg.max_step_tokens cfg.max_batch)
        (λ f r left h _. form_one-IsFed cfg.max_step_tokens cfg.max_batch f r left h) _ _
        (record { tokens = omega arith; places = omega arith; filled = tt; to_come = ps' }) good
