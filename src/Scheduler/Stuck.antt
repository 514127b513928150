-- ===== src/Scheduler/Stuck.antt =====
-- A request that cannot be served: what the loop that forms a batch makes of it.
use kllm.Base.{
  ◌*◌, ℕ, zero, suc, ◌+◌, ◌≤◌, ◌<◌, ◌≡◌, refl, sym, ap, ◌∙◌, subst, List, [], ◌∷◌, ◌++◌, false,
  none, some, arith, length, All, All-append, int_limit, ok, err, ltb, if_cases, out_of_blocks,
}
use mathlib.Core.List.{append_assoc, append-nil}
use kllm.Kv.Growth.{need_blocks_ceil}
use kllm.Kv.{Allocator, Sequence, new_sequence}
use kllm.Engine.{Stepped}
use kllm.Engine.Exhausted.{IsShort, step_exhausted}
use kllm.Scheduler.{Request, Config, Forming, with_seq, admit, tokens_of, form_one, form}
use kllm.Scheduler.Batching.{stepped, form_one_cases}
use kllm.Scheduler.Loop.{new_request, new_request-IsAccepted}

abbrev pub seq_of : {T : Type 0} → Request T → Sequence
seq_of r = elim r.seq [ none ↦ new_sequence | some s ↦ s ]

-- A request that waits for its prompt to fit, and needs a block that it does not hold.
pub record IsStuck {T : Type 0} (cfg : Config) (a : Allocator) (r : Request T) : Type 0 where
  pub not_started : r.prefilled ≡ false
  pub fits_step : length r.prompt ≤ cfg.max_step_tokens
  pub short : IsShort a (seq_of r) (length r.prompt)

-- What `Step` leaves of an allocator and a sequence that it cannot serve.
abbrev refused : Allocator → Sequence → Stepped
refused a s = record { alloc = a; seq = s; result = err (out_of_blocks a.num_blocks) }

stepped-stuck :
    {F T : Type 0} (cfg : Config) (f : Forming F T) (r : Request T) (s : Sequence)
    → 0 < f.world.alloc.block_size
    → f.world.alloc.free ≡ []
    → r.seq ≡ some s
    → IsStuck cfg f.world.alloc r
    → stepped f r s ≡ refused f.world.alloc s
stepped-stuck cfg f r s pos_size none_free q k =
    let prompt_fed : tokens_of r ≡ r.prompt = rw k.not_started in
    let held : seq_of r ≡ s = rw q in
    rw prompt_fed (
      step_exhausted f.world.alloc s r.prompt pos_size none_free
        (subst (λ t. IsShort f.world.alloc t (length r.prompt)) held k.short))

form_one-stuck :
    {F T : Type 0} (cfg : Config) (f : Forming F T) (r : Request T) (s : Sequence)
    → 0 < f.world.alloc.block_size
    → f.world.alloc.free ≡ []
    → r.seq ≡ some s
    → IsStuck cfg f.world.alloc r
    → form_one f r ≡ record f { waiting = f.waiting ++ r ∷ [] }
form_one-stuck cfg f r s pos_size none_free q k =
    form_one_cases (λ g. g ≡ record f { waiting = f.waiting ++ r ∷ [] }) f r
      (λ old. cc k.not_started) (λ _. refl) (λ nil. cc)
      (λ s' q'.
        let same : s' ≡ s = cc in
        let e = stepped-stuck cfg f r s' pos_size none_free q' k in
        record {
          joins = λ sf ok_is _. cc (ap (λ (t : Stepped). t.result) e);
          retries = λ _ _ _.
              ap
                (λ (t : Stepped). record f {
                  world = record f.world { alloc = t.alloc };
                  waiting = f.waiting ++ record r { seq = some t.seq } ∷ [];
                })
                e
              ∙ ap (λ o. record f { waiting = f.waiting ++ record r { seq = o } ∷ [] }) (sym q');
          fails = λ _ _ old. cc k.not_started;
          faults = λ panic_is. cc (ap (λ (t : Stepped). t.result) e);
        })

-- Stuck, and given its sequence by `admit`.
abbrev pub IsStuckRunning : {T : Type 0} → Config → Allocator → Request T → Type 0
IsStuckRunning cfg a r = IsStuck cfg a r × ((s : Sequence) × (r.seq ≡ some s))

pub form-stuck :
    {F T : Type 0} (cfg : Config) (f : Forming F T) (rs : List (Request T))
    → 0 < f.world.alloc.block_size
    → f.world.alloc.free ≡ []
    → f.crashed ≡ false
    → All (IsStuckRunning cfg f.world.alloc) rs
    → form f rs ≡ record f { waiting = f.waiting ++ rs }
unfolding form
form-stuck cfg f [] pos_size none_free good ks =
    ap (λ ws. record f { waiting = ws }) (sym (append-nil f.waiting))
form-stuck cfg f (r ∷ rs) pos_size none_free good ks =
    if_cases (λ g. g ≡ record f { waiting = f.waiting ++ r ∷ rs }) f.crashed _ _ (λ bad. cc)
      (λ _.
        ap (λ g. form g rs) (form_one-stuck cfg f r ks.0.1.0 pos_size none_free ks.0.1.1 ks.0.0)
        ∙ form-stuck cfg (record f { waiting = f.waiting ++ r ∷ [] }) rs pos_size none_free good
            ks.1
        ∙ ap (λ ws. record f { waiting = ws }) (append_assoc f.waiting (r ∷ []) rs))

pub seq-with_seq : {T : Type 0} (r : Request T) → (with_seq r).seq ≡ some (seq_of r)
unfolding with_seq
seq-with_seq r = ground arith

with_seq-stuck :
    {T : Type 0} (cfg : Config) (a : Allocator) (r : Request T)
    → IsStuck cfg a r
    → IsStuckRunning cfg a (with_seq r)
unfolding with_seq
with_seq-stuck cfg a r k =
    let q = seq-with_seq r in
    let same : seq_of (with_seq r) ≡ seq_of r = rw q in
    (
      record {
        not_started = k.not_started;
        fits_step = k.fits_step;
        short = subst (λ t. IsShort a t (length r.prompt)) (sym same) k.short;
      },
      (seq_of r, q),
    )

pub admit-IsStuck :
    {T : Type 0} (cfg : Config) (a : Allocator) (max_batch : ℕ) (running waiting : List (Request T))
    → All (IsStuckRunning cfg a) running
    → All (IsStuck cfg a) waiting
    → let (running', waiting') = admit max_batch running waiting in
      All (IsStuckRunning cfg a) running' × All (IsStuck cfg a) waiting'
unfolding admit
admit-IsStuck cfg a max_batch running [] ps qs = (ps, tt)
admit-IsStuck cfg a max_batch running (r ∷ waiting) ps qs =
    if_cases
      (λ (l : List (Request _) × List (Request _)).
        All (IsStuckRunning cfg a) l.0 × All (IsStuck cfg a) l.1)
      (ltb (length running) max_batch) _ _
      (λ _.
        admit-IsStuck cfg a max_batch (running ++ with_seq r ∷ []) waiting
          (All-append (IsStuckRunning cfg a) running _ ps (with_seq-stuck cfg a r qs.0, tt)) qs.1)
      (λ _. (ps, qs))

positive : {n k : ℕ} (b : ℕ) → n ≤ k * b → 0 < n → 0 < k
positive {k = zero} b h pos = absurd (omega arith)
positive {k = suc k} b h pos = omega arith

-- A fresh request needs a block.
pub fresh-IsStuck :
    {T : Type 0} (cfg : Config) (a : Allocator) (no_time now : T) (ref : ℕ) (prompt : List ℕ)
    (max_new : ℕ) (r : Request T)
    → 0 < a.block_size
    → cfg.max_step_tokens + a.block_size ≤ int_limit
    → new_request cfg no_time now ref prompt max_new ≡ ok r
    → IsStuck cfg a r
fresh-IsStuck cfg a no_time now ref prompt max_new r pos_size small made =
    let k = new_request-IsAccepted cfg no_time now ref prompt max_new r made in
    let ceil = need_blocks_ceil 0 (length prompt) a.block_size pos_size (omega arith) in
    subst (IsStuck cfg a) (sym k.made) (record {
      not_started = refl;
      fits_step = k.fits;
      short = positive a.block_size ceil.0 (omega arith);
    })
