-- ===== src/Scheduler/Greedy/Delivery.antt =====
-- The loop over the results, when the rows are the model's: each request gets the next token of
-- greedy decoding, and its blocks hold all that it was fed.
use kllm.Base.{
  ℕ, ◌+◌, ◌*◌, ◌≤◌, ◌<◌, ◌≡◌, refl, sym, ap, subst, ◌∙◌, List, [], ◌∷◌, ◌++◌, map, Bool, false,
  some, Option, arith, length, length-append, take, All, All-append, if_cases, int32_mod, count,
}
use kllm.Platform.{Platform}
use kllm.Kv.{Sequence, commit}
use kllm.Backend.{SeqForward, Device}
use kllm.Backend.Paged.{Job, context, batch, uses, IsResumed}
use kllm.Backend.Rows.{take-length-append}
use kllm.Engine.{argmax}
use kllm.Scheduler.{
  Request, Config, Slot, Delivery, done_event, tokens_of, advance, deliver_one, deliver,
}
use kllm.Scheduler.Results.{advanced, ended, deliver_one_cases}
use kllm.Scheduler.Weight.{weigh_slots}
use kllm.Scheduler.Blocks.{table_of, blocks}
use kllm.Scheduler.Greedy.{
  IsGreedy, IsOnTrack, told, len_of, history, told-advance, advance-IsOnTrack, advance-IsGreedy,
}
use kllm.Scheduler.Greedy.Forming.{Serving, IsFed, IsJoined, close-IsGreedy}

abbrev pub job_of : {T : Type 0} → Slot T → Job
job_of s = record { sf = s.sf; history = history s.req }

pub batch-job_of :
    {T : Type 0} (slots : List (Slot T)) → batch (map job_of slots) ≡ map (λ s. s.sf) slots
batch-job_of [] = refl
batch-job_of (s ∷ slots) = ap (◌∷◌ s.sf) (batch-job_of slots)

-- The rows that a pass over the batch gives.
abbrev pub model_rows : {V T : Type 0} → (List ℕ → List V) → List (Slot T) → List (List V)
model_rows model slots = map (λ s. model (told s.req)) slots

module _ (p : Platform) {V : Type 0} (gt : V → V → Bool) (cfg : Config) (dev : Device V)
    {num_blocks block_size : ℕ} {model : List ℕ → List V}
    (serving : Serving cfg dev num_blocks block_size model) where
  open p use {Float, Time}
  open serving use {paged}

  pub context-job_of :
      (st : dev.State) (s : Slot Time)
      → IsJoined p gt cfg dev serving st s
      → context (job_of s) ≡ told s.req
  context-job_of st s h = ap (λ (x : SeqForward). history s.req ++ x.tokens) h.described ∙ h.joined

  job_of-IsResumed :
      (st : dev.State) (s : Slot Time)
      → IsJoined p gt cfg dev serving st s
      → IsResumed block_size (paged.Holds st) (job_of s)
  job_of-IsResumed st s h =
      let table : s.sf.block_table ≡ h.seq.table =
        ap (λ (x : SeqForward). x.block_table) h.described in
      let pos : s.sf.pos ≡ h.seq.len = ap (λ (x : SeqForward). x.pos) h.described in
      let size : length s.sf.tokens ≡ length (tokens_of s.req) =
        ap (λ (x : SeqForward). length x.tokens) h.described in
      record {
        kept = rw table h.kept;
        at_end = pos ∙ sym h.len;
        room = rw (pos, size, table) h.room;
        in_range = omega (arith, pos, h.room, h.in_range);
      }

  pub jobs-IsResumed :
      (st : dev.State) (slots : List (Slot Time))
      → All (IsJoined p gt cfg dev serving st) slots
      → All (IsResumed block_size (paged.Holds st)) (map job_of slots)
  jobs-IsResumed st [] h = tt
  jobs-IsResumed st (s ∷ slots) h = (job_of-IsResumed st s h.0, jobs-IsResumed st slots h.1)

  pub uses-job_of :
      (st : dev.State) (x : ℕ) (slots : List (Slot Time))
      → All (IsJoined p gt cfg dev serving st) slots
      → uses x (map job_of slots) ≡ weigh_slots (λ r. count x (blocks r)) slots
  uses-job_of st x [] h = refl
  uses-job_of st x (s ∷ slots) h = omega (
    arith,
    ap (λ (y : SeqForward). count x y.block_table) h.0.described,
    ap (λ (o : Option Sequence). count x (table_of o)) h.0.has,
    uses-job_of st x slots h.1,
  )

  -- A member of the batch once the pass is through.
  pub record IsStored (st : dev.State) (s : Slot Time) : Type 0 where
    pub seq : Sequence
    pub has : s.req.seq ≡ some seq
    pub on_track : IsOnTrack p gt cfg model s.req
    pub whole : seq.len + length s.sf.tokens ≡ length (told s.req)
    pub kept : paged.Holds st seq.table (told s.req)
    pub room : seq.len + length s.sf.tokens ≤ length seq.table * block_size
    pub in_range : seq.len + length s.sf.tokens < int32_mod

  pub joined-IsStored :
      (st st' : dev.State) (s : Slot Time)
      → IsJoined p gt cfg dev serving st s
      → paged.Holds st' s.sf.block_table (context (job_of s))
      → IsStored st' s
  joined-IsStored st st' s h stored =
      let size : length s.sf.tokens ≡ length (tokens_of s.req) =
        ap (λ (x : SeqForward). length x.tokens) h.described in
      let all : context (job_of s) ≡ told s.req = context-job_of st s h in
      record {
        seq = h.seq;
        has = h.has;
        on_track = h.on_track;
        whole = omega (
          arith,
          size,
          h.len,
          length-append (history s.req) (tokens_of s.req),
          ap length h.joined,
        );
        kept =
            subst (λ t. paged.Holds st' t (told s.req))
              (ap (λ (x : SeqForward). x.block_table) h.described)
              (subst (paged.Holds st' s.sf.block_table) all stored);
        room = omega (arith, size, h.room);
        in_range = omega (arith, size, h.room, h.in_range);
      }

  module _ (st : dev.State) (slot : Slot Time) (h : IsStored st slot) (tok : ℕ) (now : Time)
      (picked : argmax gt (model (told slot.req)) ≡ some tok) where
    abbrev moved : Request Time
    moved = advanced p gt cfg slot tok now

    moved_seq : moved.seq ≡ some (commit h.seq (length slot.sf.tokens))
    unfolding advance
    moved_seq = rw (advance, h.has) refl

    moved_len : len_of moved.seq ≡ length (told slot.req)
    unfolding commit
    moved_len = ap len_of moved_seq ∙ omega (arith, h.whole, h.in_range)

    moved_table : table_of moved.seq ≡ h.seq.table
    unfolding commit
    moved_table = ap table_of moved_seq

    told-moved : told moved ≡ told slot.req ++ tok ∷ []
    told-moved = told-advance p gt cfg model slot.req (length slot.sf.tokens) tok now

    moved_history : history moved ≡ told slot.req
    moved_history =
        ap (λ k. take k (told moved)) moved_len
        ∙ ap (take (length (told slot.req))) told-moved
        ∙ take-length-append (length (told slot.req)) (told slot.req) (tok ∷ []) refl

    advanced-IsFed : ended p gt cfg moved tok ≡ false → IsFed p gt cfg dev serving st moved
    unfolding advance
    advanced-IsFed goes_on = record {
      on_track =
          advance-IsOnTrack p gt cfg model slot.req (length slot.sf.tokens) tok now h.on_track
            picked goes_on;
      joined = ap (λ ts. ts ++ tok ∷ []) moved_history ∙ sym told-moved;
      len = ap length moved_history ∙ sym moved_len;
      kept = rw (moved_table, moved_history) h.kept;
      covered =
          omega (arith, moved_len, h.whole, h.room, ap (λ t. length t * block_size) moved_table);
      fresh = λ off. cc;
    }

  pub deliver-IsFed :
      (st : dev.State) (now : Time) (d : Delivery Float Time) (slots : List (Slot Time))
      → All (IsGreedy p gt cfg model) d.world.over
      → All (IsFed p gt cfg dev serving st) d.next
      → All (IsStored st) slots
      → let e = deliver p gt cfg now d slots (model_rows model slots) in
        e.crashed ≡ false
        → All (IsGreedy p gt cfg model) e.world.over × All (IsFed p gt cfg dev serving st) e.next
  unfolding deliver
  deliver-IsFed st now d [] over next left = λ _. (over, next)
  deliver-IsFed st now d (slot ∷ slots) over next left =
      if_cases
        (λ e.
          e.crashed ≡ false
          → All (IsGreedy p gt cfg model) e.world.over × All (IsFed p gt cfg dev serving st) e.next)
        d.crashed d (deliver p gt cfg now one slots (model_rows model slots)) (λ bad fine. cc)
        (λ _. let (over', next') = one_kept in deliver-IsFed st now one slots over' next' left.1)
    where
      one : Delivery Float Time
      one = deliver_one p gt cfg now d slot (model (told slot.req))

      one_kept :
          All (IsGreedy p gt cfg model) one.world.over
          × All (IsFed p gt cfg dev serving st) one.next
      one_kept =
          deliver_one_cases p gt cfg
            (λ e.
              All (IsGreedy p gt cfg model) e.world.over
              × All (IsFed p gt cfg dev serving st) e.next)
            now d slot (model (told slot.req)) (λ _. (over, next))
            (λ tok picked last. (
              close-IsGreedy p gt cfg dev serving _ _ done_event
                  (λ o.
                    advance-IsGreedy p gt cfg model slot.req (length slot.sf.tokens) tok now o
                      left.0.on_track picked last)
                  over,
              next,
            ))
            (λ tok picked goes_on. (
              over,
              All-append (IsFed p gt cfg dev serving st) d.next _ next
                  (advanced-IsFed st slot left.0 tok now picked goes_on, tt),
            ))
