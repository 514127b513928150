-- ===== src/Scheduler/Faults.antt =====
-- The loop that forms a batch does not panic.
pub mod Histories
use kllm.Base.{
  ℕ, zero, suc, ◌+◌, ◌≤◌, ◌⊎◌, inl, inr, take, length-append, int_limit, ◌*◌, ◌<◌, ◌≡◌, ◌≢◌, refl,
  sym, ap, ◌∙◌, subst, List, [], ◌∷◌, ◌++◌, map, Bool, true, false, Option, none, some, arith,
  length, length-map, OnOk, All, All-append, Result, ok, err, panic, Error, ◌>>=◌, if_cases,
  option_cases, result_cases,
}
use kllm.Platform.{Platform}
use kllm.Kv.{Allocator, Sequence, release, give_back, reserve, new_allocator}
use kllm.Kv.Growth.{missing, reserve-eq-taken}
use kllm.Kv.Blocks.{reserve_covers}
use kllm.Kv.Faults.{reserve-IsSafe, IsSafe}
use kllm.Scheduler.Blocks.{table_of, blocks}
use kllm.Backend.{SeqForward, Device, check_batch, forward_batch}
use kllm.Backend.Forward.{forward_batch_of_device, forward_batch_shape}
use kllm.Engine.{Stepped, step, argmax}
use kllm.Scheduler.{
  Request, World, Config, Slot, Forming, Delivery, free_seq, close, fail_all, fail, finish,
  with_seq, admit, tokens_of, form_one, form, advance, deliver_one, deliver, error_event,
  done_event,
}
use kllm.Scheduler.Batching.{stepped, held_by, reserved, Ends, form_one_cases}

-- A member of the running list has its sequence.
abbrev pub HasSeq : {T : Type 0} → Request T → Type 0
HasSeq r = r.seq ≢ none

-- A request that no step has been made for, with a prompt that a step takes.
pub record IsNew {T : Type 0} (cfg : Config) (r : Request T) : Type 0 where
  pub some_prompt : 0 < length r.prompt
  pub fits : length r.prompt ≤ cfg.max_step_tokens
  pub not_started : r.prefilled ≡ false
  pub no_len : (s : Sequence) → r.seq ≡ some s → s.len ≡ 0

-- A live request has a block, or its first step will give it one.
abbrev pub IsBacked : {T : Type 0} → Config → Request T → Type 0
IsBacked cfg r = (0 < length (blocks r)) ⊎ IsNew cfg r

-- A member of the running list.
abbrev pub IsSteady : {T : Type 0} → Config → Request T → Type 0
IsSteady cfg r = HasSeq r × IsBacked cfg r

-- A block size that is not 0, with which the tokens of a step do not overflow.
pub record IsSized (cfg : Config) (a : Allocator) : Type 0 where
  pub some_size : 0 < a.block_size
  pub fits : cfg.max_step_tokens + a.block_size ≤ int_limit

pub same_size :
    {cfg : Config} {a b : Allocator} → b.block_size ≡ a.block_size → IsSized cfg a → IsSized cfg b
same_size e h = record {
  some_size = omega (arith, e, h.some_size);
  fits = omega (arith, e, h.fits);
}

-- `Step` takes no block from a table, and adds no length.
step-grows :
    (a : Allocator) (s : Sequence) (tokens : List ℕ)
    → 0 < a.block_size
    → let t = step a s tokens in (length s.table ≤ length t.seq.table) × (t.seq.len ≡ s.len)
unfolding step
step-grows a s tokens some_size =
    rw (reserve-eq-taken a s (length tokens) some_size)
      (omega (arith, length-append s.table (take (missing a s (length tokens)) a.free)), refl)

table_some : (n b : ℕ) → 0 < n * b → 0 < n
table_some zero b h = absurd (omega (arith, h))
table_some (suc n) b h = omega arith

-- The descriptor of a successful step has the sequence's table.
step-table :
    (a : Allocator) (s : Sequence) (tokens : List ℕ) (sf : SeqForward)
    → (step a s tokens).result ≡ ok sf
    → ((reserve a s (length tokens)).result ≡ ok tt)
      × (sf.block_table ≡ (step a s tokens).seq.table)
unfolding step
step-table a s tokens sf e = got (reserve a s (length tokens)).result _ e
  where
    got :
        (m : Result (Unit {0})) (x : SeqForward)
        → (m >>= λ _. ok x) ≡ ok sf
        → (m ≡ ok tt) × (sf.block_table ≡ x.block_table)
    got (ok _) x q = (refl, cc)
    got (err _) x q = cc
    got panic x q = cc

step-IsSafe :
    (a : Allocator) (s : Sequence) (tokens : List ℕ)
    → 0 < a.block_size
    → ((step a s tokens).result ≢ panic) × ((step a s tokens).alloc.block_size ≡ a.block_size)
unfolding step
step-IsSafe a s tokens some_size =
    let (runs, size) = reserve-IsSafe a s (length tokens) some_size in
    (λ e. runs (passed (reserve a s (length tokens)).result _ e), size)
  where
    passed : {A : Type 0} (m : Result (Unit {0})) (x : A) → (m >>= λ _. ok x) ≡ panic → m ≡ panic
    passed (ok _) x e = cc
    passed (err _) x e = cc
    passed panic x e = refl

-- A sequence of the batch has a block, and its request keeps it.
pub record IsFilled {T : Type 0} (s : Slot T) : Type 0 where
  pub has : HasSeq s.req
  pub block : 0 < length s.sf.block_table
  pub kept : 0 < length (blocks s.req)

abbrev pub AllSlots : {T : Type 0} → List (Slot T) → Type 0
AllSlots = All IsFilled

module _ {F T : Type 0} (cfg : Config) (f : Forming F T) (r : Request T) (s : Sequence)
    (size : IsSized cfg f.world.alloc) (backed : IsBacked cfg r) (has : r.seq ≡ some s) where
  -- The block that the sequence of a joining request has.
  joined-block :
      (sf : SeqForward) → (stepped f r s).result ≡ ok sf → 0 < length (stepped f r s).seq.table
  unfolding step
  joined-block sf q = got backed
    where
      got : IsBacked cfg r → 0 < length (stepped f r s).seq.table
      got (inl some_block) = omega (
        arith,
        (step-grows f.world.alloc s (tokens_of r) size.some_size).0,
        ap (λ o. length (table_of o)) has,
        some_block,
      )
      got (inr new) =
          let len : s.len ≡ 0 = new.no_len s has in
          let fed : length (tokens_of r) ≡ length r.prompt = rw new.not_started refl in
          let covers =
            (reserve_covers f.world.alloc s (length (tokens_of r))
              (omega (arith, len, fed, new.fits, size.fits))
              (step-table f.world.alloc s (tokens_of r) sf q).0).0 in
          table_some _ f.world.alloc.block_size (omega (arith, covers, fed, new.some_prompt))

  held_by-IsBacked : IsBacked cfg (held_by f r s)
  held_by-IsBacked = got backed
    where
      grown : length s.table ≤ length (stepped f r s).seq.table
      grown = (step-grows f.world.alloc s (tokens_of r) size.some_size).0

      got : IsBacked cfg r → IsBacked cfg (held_by f r s)
      got (inl some_block) =
          inl (omega (arith, grown, ap (λ o. length (table_of o)) has, some_block))
      got (inr new) = inr (record {
        some_prompt = new.some_prompt;
        fits = new.fits;
        not_started = new.not_started;
        no_len = λ t e.
            let same : (stepped f r s).seq ≡ t = cc in
            ap (λ (q : Sequence). q.len) (sym same)
            ∙ (step-grows f.world.alloc s (tokens_of r) size.some_size).1
            ∙ new.no_len s has;
      })

module _ {F T : Type 0} where
  pub close-block_size :
      (w : World F T) (r : Request T) (ev : _)
      → (close w r ev).alloc.block_size ≡ w.alloc.block_size
  unfolding close free_seq release give_back
  close-block_size w r ev = go r.seq
    where
      go : (s : Option Sequence) → (free_seq w.alloc s).0.block_size ≡ w.alloc.block_size
      go none = refl
      go (some s) = refl

  pub fail_all-block_size :
      (w : World F T) (rs : List (Request T)) (e : Error)
      → (fail_all w rs e).alloc.block_size ≡ w.alloc.block_size
  unfolding fail_all
  fail_all-block_size w [] e = refl
  fail_all-block_size w (r ∷ rs) e =
      fail_all-block_size (fail w r e) rs e ∙ close-block_size w r (error_event e)

  -- The forming loop has not panicked, and can not on the requests to come.
  pub record IsForming (cfg : Config) (f : Forming F T) (left : List (Request T)) : Type 0 where
    pub good : f.crashed ≡ false
    pub size : IsSized cfg f.world.alloc
    pub slots : AllSlots f.slots
    pub skipped : All (IsSteady cfg) f.skipped
    pub waiting : All (IsBacked cfg) f.waiting
    pub to_come : All (IsSteady cfg) left

  module _ (cfg : Config) where
    form_one-IsForming :
        (f : Forming F T) (r : Request T) (left : List (Request T))
        → IsForming cfg f (r ∷ left)
        → IsForming cfg (form_one f r) left
    form_one-IsForming f r left h =
        form_one_cases (λ g. IsForming cfg g left) f r
          (λ _. record {
            good = h.good;
            size = h.size;
            slots = h.slots;
            skipped = All-append (IsSteady cfg) f.skipped (r ∷ []) h.skipped (h.to_come.0, tt);
            waiting = h.waiting;
            to_come = h.to_come.1;
          })
          (λ _. record {
            good = h.good;
            size = h.size;
            slots = h.slots;
            skipped = h.skipped;
            waiting = All-append (IsBacked cfg) f.waiting (r ∷ []) h.waiting (h.to_come.0.1, tt);
            to_come = h.to_come.1;
          })
          (λ nil. absurd (h.to_come.0.0 nil))
          (λ s has.
            let (runs, kept) = step-IsSafe f.world.alloc s (tokens_of r) h.size.some_size in
            let size : IsSized cfg (stepped f r s).alloc = same_size kept h.size in
            record {
              joins = λ sf q _.
                  (let some_block = joined-block cfg f r s h.size h.to_come.0.1 has sf q in
                    record {
                      good = h.good;
                      size = size;
                      slots = All-append IsFilled f.slots _ h.slots (
                        record {
                          has = λ e. cc e;
                          block = omega (
                            arith,
                            ap length (step-table f.world.alloc s (tokens_of r) sf q).1,
                            some_block,
                          );
                          kept = some_block;
                        },
                        tt,
                      );
                      skipped = h.skipped;
                      waiting = h.waiting;
                      to_come = h.to_come.1;
                    });
              retries = λ e _ _. record {
                good = h.good;
                size = size;
                slots = h.slots;
                skipped = h.skipped;
                waiting =
                    All-append (IsBacked cfg) f.waiting _ h.waiting
                      (held_by-IsBacked cfg f r s h.size h.to_come.0.1 has, tt);
                to_come = h.to_come.1;
              };
              fails = λ e _ _. record {
                good = h.good;
                size = same_size (close-block_size _ (held_by f r s) (error_event _)) size;
                slots = h.slots;
                skipped = h.skipped;
                waiting = h.waiting;
                to_come = h.to_come.1;
              };
              faults = λ e. absurd (runs e);
            })

    pub form-IsForming :
        (f : Forming F T) (rs : List (Request T))
        → IsForming cfg f rs
        → IsForming cfg (form f rs) []
    unfolding form
    form-IsForming f [] h = h
    form-IsForming f (r ∷ rs) h =
        if_cases (λ g. IsForming cfg g []) f.crashed f (form (form_one f r) rs)
          (λ bad. absurd (cc (bad, h.good)))
          (λ _. form-IsForming (form_one f r) rs (form_one-IsForming f r rs h))
