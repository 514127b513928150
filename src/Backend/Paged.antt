-- ===== src/Backend/Paged.antt =====
-- What backend/shim.h promises of a batched forward pass, as hypotheses on the device: the
-- blocks of a sequence keep its context, and the logits are those of the whole context. Neither
-- the cells of the cache nor the arithmetic of the model are fixed.
pub mod Sample
use kllm.Base.{
  ℕ, ◌+◌, ◌*◌, ◌/◌, ◌≤◌, ◌<◌, ◌≡◌, refl, sym, ap, ◌∙◌, List, [], ◌∷◌, ◌++◌, map, arith, length,
  take, drop, drop-drop, count, All, int32_mod, Result, ok, err, panic,
}
use kllm.Backend.{SeqForward, Device, check_batch, rows, forward_batch}
use kllm.Backend.Forward.{concat}
use kllm.Backend.Rows.{take-length-append, drop-length-append}

-- A sequence of a batch, and the tokens that were fed to it before.
pub record Job : Type 0 where
  pub sf : SeqForward
  pub history : List ℕ

-- All the tokens of a sequence once the batch is through.
abbrev pub context : Job → List ℕ
context j = j.history ++ j.sf.tokens

-- How often a block stands in the tables of a batch.
abbrev pub uses : ℕ → List Job → ℕ
uses x [] = 0
uses x (j ∷ jobs) = count x j.sf.block_table + uses x jobs

abbrev pub batch : List Job → List SeqForward
batch jobs = map (λ j. j.sf) jobs

-- A job continues its sequence: the position is behind the history, the table has room for the new
-- tokens, and the position is an `int32`.
pub record IsResumed (block_size : ℕ) (holds : List ℕ → List ℕ → Type 0) (j : Job) : Type 0 where
  pub kept : holds j.sf.block_table j.history
  pub at_end : j.sf.pos ≡ length j.history
  pub room : j.sf.pos + length j.sf.tokens ≤ length j.sf.block_table * block_size
  pub in_range : j.sf.pos < int32_mod / 2

-- A device with a paged cache. `Holds st table h` says that the blocks of `table` hold the keys and
-- values of the tokens `h`; `model` gives the logits after a context.
pub record Paged {V : Type 0} (dev : Device V) (block_size : ℕ) (model : List ℕ → List V)
    : Type 1 where
  pub Holds : dev.State → List ℕ → List ℕ → Type 0
  pub starts : (st : dev.State) (table : List ℕ) → Holds st table []
  pub grows :
      (st : dev.State) (table more h : List ℕ) → Holds st table h → Holds st (table ++ more) h
  -- A pass over a batch in which no block stands twice answers with one row for each job,
  pub answers :
      (st : dev.State) (jobs : List Job) (n : ℕ) (buffer : List V)
      → All (IsResumed block_size (Holds st)) jobs
      → ((x : ℕ) → uses x jobs ≤ 1)
      → (dev.forward st (batch jobs) n).1 ≡ ok buffer
      → buffer ≡ concat (map (λ j. model (context j)) jobs)
  -- keeps the new tokens in the blocks of their sequences,
  pub stores :
      (st : dev.State) (jobs : List Job) (n : ℕ) (buffer : List V)
      → All (IsResumed block_size (Holds st)) jobs
      → ((x : ℕ) → uses x jobs ≤ 1)
      → (dev.forward st (batch jobs) n).1 ≡ ok buffer
      → All (λ j. Holds (dev.forward st (batch jobs) n).0 j.sf.block_table (context j)) jobs
  -- and leaves the blocks of the others alone.
  pub leaves :
      (st : dev.State) (jobs : List Job) (n : ℕ) (buffer : List V) (table h : List ℕ)
      → ((x : ℕ) → count x table + uses x jobs ≤ 1)
      → (dev.forward st (batch jobs) n).1 ≡ ok buffer
      → Holds st table h
      → Holds (dev.forward st (batch jobs) n).0 table h

-- What a forward pass that succeeds did.
pub record Ran {V : Type 0} (dev : Device V) (vocab : ℕ) (st : dev.State) (seqs : List SeqForward)
    (out : List (List V)) : Type 0 where
  pub buffer : List V
  pub answered : (dev.forward st seqs (length seqs * vocab)).1 ≡ ok buffer
  pub cut : out ≡ rows (length seqs) 0 vocab buffer
  pub left : (forward_batch dev vocab st seqs).0 ≡ (dev.forward st seqs (length seqs * vocab)).0

answered-Ran :
    {V : Type 0} (dev : Device V) (vocab : ℕ) (st : dev.State) (seqs : List SeqForward)
    (out : List (List V))
    → check_batch seqs ≡ ok tt
    → (r : Result (List V)) → (dev.forward st seqs (length seqs * vocab)).1 ≡ r
    → (forward_batch dev vocab st seqs).1 ≡ ok out
    → Ran dev vocab st seqs out
unfolding forward_batch
answered-Ran dev vocab st seqs out guarded (ok buffer) q e = record {
  buffer = buffer;
  answered = q;
  cut =
      let same : ok (rows (length seqs) 0 vocab buffer) ≡ ok out =
        rw (forward_batch, guarded, q) at e in
      cc;
  left = rw (forward_batch, guarded) refl;
}
answered-Ran dev vocab st seqs out guarded (err x) q e =
    let bad : err x ≡ ok out = rw (forward_batch, guarded, q) at e in cc
answered-Ran dev vocab st seqs out guarded panic q e =
    let bad : panic ≡ ok out = rw (forward_batch, guarded, q) at e in cc

pub forward_batch-Ran :
    {V : Type 0} (dev : Device V) (vocab : ℕ) (st : dev.State) (seqs : List SeqForward)
    (out : List (List V))
    → (forward_batch dev vocab st seqs).1 ≡ ok out
    → Ran dev vocab st seqs out
unfolding forward_batch
forward_batch-Ran dev vocab st seqs out e = passed (check_batch seqs) refl
  where
    passed : (g : Result (Unit {0})) → check_batch seqs ≡ g → Ran dev vocab st seqs out
    passed (ok _) q = answered-Ran dev vocab st seqs out q _ refl e
    passed (err x) q = let bad : err x ≡ ok out = rw (forward_batch, q) at e in cc
    passed panic q = let bad : panic ≡ ok out = rw (forward_batch, q) at e in cc

rows-concat_from :
    {V : Type 0} (i vocab : ℕ) (xss : List (List V)) (flat : List V)
    → All (λ xs. length xs ≡ vocab) xss
    → drop (i * vocab) flat ≡ concat xss
    → rows (length xss) i vocab flat ≡ xss
unfolding rows
rows-concat_from i vocab [] flat wide e = refl
rows-concat_from {V} i vocab (xs ∷ xss) flat wide e =
    let first : take vocab (drop (i * vocab) flat) ≡ xs =
      ap (take vocab) e ∙ take-length-append vocab xs (concat xss) wide.0 in
    let later : drop ((i + 1) * vocab) flat ≡ concat xss =
      sym (drop-drop (i * vocab) vocab ((i + 1) * vocab) flat (omega arith))
      ∙ ap (drop vocab) e
      ∙ drop-length-append vocab xs (concat xss) wide.0 in
    rw (first, rows-concat_from (i + 1) vocab xss flat wide.1 later) refl

pub rows-concat :
    {V : Type 0} (vocab : ℕ) (xss : List (List V))
    → All (λ xs. length xs ≡ vocab) xss
    → rows (length xss) 0 vocab (concat xss) ≡ xss
rows-concat vocab xss wide =
    let start : 0 * vocab ≡ 0 = omega arith in
    rows-concat_from 0 vocab xss (concat xss) wide (ap (λ k. drop k (concat xss)) start)
