-- ===== src/Scheduler/Greedy/Pass.antt =====
-- The forward pass over a batch that continues each of its sequences.
use kllm.Base.{
  ℕ, ◌+◌, ◌*◌, ◌≤◌, ◌≡◌, refl, sym, ap, subst, ◌∙◌, List, [], ◌∷◌, map, Bool, arith, length,
  length-map, All, count, ok,
}
use kllm.Platform.{Platform}
use kllm.Backend.{SeqForward, Device, forward_batch, rows}
use kllm.Backend.Forward.{concat}
use kllm.Backend.Paged.{Job, Ran, context, batch, uses, IsResumed, forward_batch-Ran, rows-concat}
use kllm.Scheduler.{Config, Slot}
use kllm.Scheduler.Weight.{weigh_slots}
use kllm.Scheduler.Blocks.{blocks}
use kllm.Scheduler.Greedy.{told}
use kllm.Scheduler.Greedy.Forming.{Serving, IsJoined}
use kllm.Scheduler.Greedy.Delivery.{
  job_of, batch-job_of, context-job_of, jobs-IsResumed, uses-job_of, IsStored, joined-IsStored,
  model_rows,
}

module _ (p : Platform) {V : Type 0} (gt : V → V → Bool) (cfg : Config) (dev : Device V)
    {num_blocks block_size : ℕ} {model : List ℕ → List V}
    (serving : Serving cfg dev num_blocks block_size model) where
  open p use {Float, Time}
  open serving use {paged, wide}

  slots-IsStored :
      (st st' : dev.State) (slots : List (Slot Time))
      → All (IsJoined p gt cfg dev serving st) slots
      → All (λ j. paged.Holds st' j.sf.block_table (context j)) (map job_of slots)
      → All (IsStored p gt cfg dev serving st') slots
  slots-IsStored st st' [] h k = tt
  slots-IsStored st st' (s ∷ slots) h k =
      (joined-IsStored p gt cfg dev serving st st' s h.0 k.0, slots-IsStored st st' slots h.1 k.1)

  job_rows :
      (st : dev.State) (slots : List (Slot Time))
      → All (IsJoined p gt cfg dev serving st) slots
      → map (λ j. model (context j)) (map job_of slots) ≡ model_rows model slots
  job_rows st [] h = refl
  job_rows st (s ∷ slots) h =
      rw (context-job_of p gt cfg dev serving st s h.0, job_rows st slots h.1) refl

  rows_wide :
      (slots : List (Slot Time)) → All (λ row. length row ≡ cfg.vocab) (model_rows model slots)
  rows_wide [] = tt
  rows_wide (s ∷ slots) = (wide (told s.req), rows_wide slots)

  -- What a pass that succeeds gives, stores and leaves alone.
  pub record Served (st st' : dev.State) (slots : List (Slot Time)) (out : List (List V))
      : Type 0 where
    pub answered : out ≡ model_rows model slots
    pub stored : All (IsStored p gt cfg dev serving st') slots
    pub left :
        (table h : List ℕ)
        → ((x : ℕ) → count x table + weigh_slots (λ r. count x (blocks r)) slots ≤ 1)
        → paged.Holds st table h
        → paged.Holds st' table h

  pub pass-Served :
      (st : dev.State) (slots : List (Slot Time)) (out : List (List V))
      → All (IsJoined p gt cfg dev serving st) slots
      → ((x : ℕ) → weigh_slots (λ r. count x (blocks r)) slots ≤ 1)
      → (forward_batch dev cfg.vocab st (map (λ s. s.sf) slots)).1 ≡ ok out
      → Served st (forward_batch dev cfg.vocab st (map (λ s. s.sf) slots)).0 slots out
  pass-Served st slots out h once e = record {
    answered =
        ran.cut
        ∙ ap (rows (length seqs) 0 cfg.vocab) full
        ∙ ap (λ n. rows n 0 cfg.vocab (concat (model_rows model slots))) same_size
        ∙ rows-concat cfg.vocab (model_rows model slots) (rows_wide slots);
    stored = slots-IsStored st _ slots h (
        subst (λ st'. All (λ j. paged.Holds st' j.sf.block_table (context j)) jobs) after
          (paged.stores st jobs n ran.buffer resumed exclusive answered));
    left = λ table h apart holds.
        subst (λ st'. paged.Holds st' table h) after
          (paged.leaves st jobs n ran.buffer table h (λ x. omega (arith, apart x, in_batch x))
            answered holds);
  }
    where
      seqs : List SeqForward
      seqs = map (λ s. s.sf) slots

      jobs : List Job
      jobs = map job_of slots

      n : ℕ
      n = length seqs * cfg.vocab

      ran : Ran dev cfg.vocab st seqs out
      ran = forward_batch-Ran dev cfg.vocab st seqs out e

      answered : (dev.forward st (batch jobs) n).1 ≡ ok ran.buffer
      answered =
          ap (λ (ss : List SeqForward). (dev.forward st ss n).1) (batch-job_of slots) ∙ ran.answered

      after : (dev.forward st (batch jobs) n).0 ≡ (forward_batch dev cfg.vocab st seqs).0
      after =
          ap (λ (ss : List SeqForward). (dev.forward st ss n).0) (batch-job_of slots) ∙ sym ran.left

      resumed : All (IsResumed block_size (paged.Holds st)) jobs
      resumed = jobs-IsResumed p gt cfg dev serving st slots h

      in_batch : (x : ℕ) → uses x jobs ≡ weigh_slots (λ r. count x (blocks r)) slots
      in_batch x = uses-job_of p gt cfg dev serving st x slots h

      exclusive : (x : ℕ) → uses x jobs ≤ 1
      exclusive x = omega (arith, in_batch x, once x)

      full : ran.buffer ≡ concat (model_rows model slots)
      full =
          paged.answers st jobs n ran.buffer resumed exclusive answered
          ∙ ap concat (job_rows st slots h)

      same_size : length seqs ≡ length (model_rows model slots)
      same_size = omega (
        arith,
        length-map (λ (s : Slot Time). s.sf) slots,
        length-map (λ (s : Slot Time). model (told s.req)) slots,
      )
