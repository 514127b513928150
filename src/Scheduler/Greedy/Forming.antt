-- ===== src/Scheduler/Greedy/Forming.antt =====
-- The batch that the scheduler forms continues each of its sequences.
use kllm.Base.{
  ℕ, ◌+◌, ◌*◌, ◌/◌, ◌≤◌, ◌<◌, ◌≡◌, refl, sym, ap, subst, ◌∙◌, List, [], ◌∷◌, ◌++◌, Bool, false,
  Option, some, arith, length, take, All, All-append, Error, ok, int_limit, int32_mod,
}
use native.Mathlib.Nat.{mul-le-mul_left}
use kllm.Platform.{Platform}
use kllm.Kv.{Allocator, Sequence}
use kllm.Kv.Blocks.{reserve_covers}
use kllm.Kv.Sizes.{Keeps, reserve-Keeps}
use kllm.Backend.{SeqForward, Device}
use kllm.Backend.Paged.{Paged}
use kllm.Engine.{step}
use kllm.Engine.Stepping.{step-ok, descriptor}
use kllm.Scheduler.{
  Request, World, Config, Slot, Forming, GenEvent, close, fail, fail_all, free_seq, tokens_of,
}
use kllm.Scheduler.Batching.{stepped, held_by}
use kllm.Scheduler.Weight.{weigh, form_total}
use kllm.Scheduler.Blocks.{table_of}
use kllm.Scheduler.Capacity.{held, numbered}
use kllm.Scheduler.Every.{closed_with}
use kllm.Scheduler.Greedy.{IsFresh, IsOnTrack, IsGreedy, IsOnTrack-error, told, len_of, history}

-- `Step` keeps what `Reserve` keeps.
step-Keeps :
    (a : Allocator) (s : Sequence) (tokens : List ℕ)
    → let t = step a s tokens in Keeps a t.alloc s t.seq
unfolding step
step-Keeps a s tokens = reserve-Keeps a s (length tokens)

-- After a step that succeeds the table has room for the tokens, and begins as before.
record Covers (bs : ℕ) (s s' : Sequence) (n : ℕ) : Type 0 where
  room : s.len + n ≤ length s'.table * bs
  more : List ℕ
  grown : s'.table ≡ s.table ++ more

step-Covers :
    (a : Allocator) (s : Sequence) (tokens : List ℕ) (sf : SeqForward)
    → s.len + length tokens + a.block_size ≤ int_limit
    → (step a s tokens).result ≡ ok sf
    → Covers a.block_size s (step a s tokens).seq (length tokens)
unfolding step
step-Covers a s tokens sf fits e =
    let (room, _, grown, _, _) =
      reserve_covers a s (length tokens) fits (step-ok a s tokens sf e).0 in
    record { room = room; more = _; grown = grown }

-- What the loop needs: a device with a paged cache, logits of the vocabulary's width, and a cache
-- whose positions an `int32` can hold.
pub record Serving (cfg : Config) {V : Type 0} (dev : Device V) (num_blocks block_size : ℕ)
    (model : List ℕ → List V) : Type 1 where
  pub paged : Paged dev block_size model
  pub wide : (context : List ℕ) → length (model context) ≡ cfg.vocab
  pub small : num_blocks * block_size + cfg.max_step_tokens + block_size < int32_mod / 2

module _ (p : Platform) {V : Type 0} (gt : V → V → Bool) (cfg : Config) (dev : Device V)
    {num_blocks block_size : ℕ} {model : List ℕ → List V}
    (serving : Serving cfg dev num_blocks block_size model) where
  open p use {Float, Time}
  open serving use {paged, small}

  -- A request of the running list: its blocks hold what it was fed, and its next tokens follow.
  pub record IsFed (st : dev.State) (r : Request Time) : Type 0 where
    pub on_track : IsOnTrack p gt cfg model r
    pub joined : history r ++ tokens_of r ≡ told r
    pub len : length (history r) ≡ len_of r.seq
    pub kept : paged.Holds st (table_of r.seq) (history r)
    pub covered : len_of r.seq ≤ length (table_of r.seq) * block_size
    pub fresh : r.prefilled ≡ false → IsFresh r

  -- A member of the batch.
  pub record IsJoined (st : dev.State) (s : Slot Time) : Type 0 where
    pub seq : Sequence
    pub has : s.req.seq ≡ some seq
    pub described : s.sf ≡ descriptor seq (tokens_of s.req)
    pub on_track : IsOnTrack p gt cfg model s.req
    pub joined : history s.req ++ tokens_of s.req ≡ told s.req
    pub len : length (history s.req) ≡ seq.len
    pub kept : paged.Holds st seq.table (history s.req)
    pub room : seq.len + length (tokens_of s.req) ≤ length seq.table * block_size
    pub in_range : length seq.table * block_size + cfg.max_step_tokens < int32_mod / 2

  pub record FormGreedy (st : dev.State) (f : Forming Float Time) (left : List (Request Time))
      : Type 0 where
    pub over : All (IsGreedy p gt cfg model) f.world.over
    pub slots : All (IsJoined st) f.slots
    pub skipped : All (IsFed st) f.skipped
    pub waiting : All IsFresh f.waiting
    pub to_come : All (IsFed st) left
    pub size : f.world.alloc.block_size ≡ block_size
    pub budget : f.budget ≤ cfg.max_step_tokens
    pub number :
        f.crashed ≡ false → form_total (numbered Float Time) f + weigh held left ≤ num_blocks

  -- The requests that `fail` and `finish` add to those that are over.
  pub close-IsGreedy :
      (w : World Float Time) (r : Request Time) (ev : GenEvent)
      → ((o : Option Sequence) → IsGreedy p gt cfg model (closed_with r ev o))
      → All (IsGreedy p gt cfg model) w.over
      → All (IsGreedy p gt cfg model) (close w r ev).over
  unfolding close
  close-IsGreedy w r ev q h =
      All-append (IsGreedy p gt cfg model) w.over _ h (q (free_seq w.alloc r.seq).1, tt)

  pub fail_all-IsGreedy :
      (w : World Float Time) (rs : List (Request Time)) (e : Error)
      → All (IsOnTrack p gt cfg model) rs
      → All (IsGreedy p gt cfg model) w.over
      → All (IsGreedy p gt cfg model) (fail_all w rs e).over
  unfolding fail_all
  fail_all-IsGreedy w [] e ps h = h
  fail_all-IsGreedy w (r ∷ rs) e ps h =
      fail_all-IsGreedy (fail w r e) rs e ps.1
        (close-IsGreedy w r _ (λ o. IsOnTrack-error p gt cfg model r e o ps.0) h)

  module _ (st : dev.State) (f : Forming Float Time) (r : Request Time) (left : List (Request Time))
      (h : FormGreedy st f (r ∷ left)) (good : f.crashed ≡ false) where
    abbrev fed : IsFed st r
    fed = h.to_come.0

    passed_fresh : r.prefilled ≡ false → IsFresh r
    passed_fresh = fed.fresh

    module _ (s : Sequence) (has : r.seq ≡ some s) where
      pub keeps : Keeps f.world.alloc (stepped f r s).alloc s (stepped f r s).seq
      keeps = step-Keeps f.world.alloc s (tokens_of r)

      len : s.len ≡ len_of r.seq
      len = ap len_of (sym has)

      -- The table of the sequence fits the cache, before the step and after it.
      few : length (stepped f r s).seq.table ≤ num_blocks
      few = omega (arith, h.number good, keeps.number, ap (λ o. length (table_of o)) has)

      few_tokens : length (stepped f r s).seq.table * block_size ≤ num_blocks * block_size
      few_tokens = grind (arith, mul-le-mul_left block_size few)

      len_fits : s.len ≤ num_blocks * block_size
      len_fits =
          let few_before : length (table_of r.seq) ≤ num_blocks = omega (arith, h.number good) in
          grind (arith, mul-le-mul_left block_size few_before, fed.covered, len)

      pub step-IsJoined :
          (sf : SeqForward)
          → (stepped f r s).result ≡ ok sf
          → length (tokens_of r) ≤ f.budget
          → IsJoined st (record { sf = sf; req = held_by f r s })
      step-IsJoined sf ran fits =
          let covers =
            step-Covers f.world.alloc s (tokens_of r) sf
              (omega (arith, len_fits, h.size, h.budget, small)) ran in
          let same : len_of (some (stepped f r s).seq) ≡ len_of r.seq = keeps.len ∙ len in
          let unmoved : history (held_by f r s) ≡ history r = ap (λ k. take k (told r)) same in
          record {
            seq = (stepped f r s).seq;
            has = refl;
            described = (step-ok f.world.alloc s (tokens_of r) sf ran).1;
            on_track = record { so_far = fed.on_track.so_far; more = fed.on_track.more };
            joined = ap (λ ts. ts ++ tokens_of r) unmoved ∙ fed.joined;
            len = ap length unmoved ∙ fed.len ∙ sym same;
            kept =
                subst (λ ts. paged.Holds st (stepped f r s).seq.table ts) (sym unmoved)
                  (subst (λ t. paged.Holds st t (history r)) (sym covers.grown)
                    (paged.grows st s.table covers.more (history r)
                      (subst (λ o. paged.Holds st (table_of o) (history r)) has fed.kept)));
            room =
                subst
                  (λ k.
                    (stepped f r s).seq.len + length (tokens_of r)
                    ≤ length (stepped f r s).seq.table * k)
                  h.size (omega (arith, covers.room, keeps.len));
            in_range = omega (arith, few_tokens, small);
          }

      pub retried-IsFresh : r.prefilled ≡ false → IsFresh (held_by f r s)
      retried-IsFresh off =
          let k = fed.fresh off in
          record {
            not_started = k.not_started;
            silent = k.silent;
            none_made = k.none_made;
            no_len = keeps.len ∙ len ∙ k.no_len;
            some_max = k.some_max;
          }
