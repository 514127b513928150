-- ===== src/Scheduler/Greedy/Agreement.antt =====
-- The scheduler and `Generate` give the same answers (TestPagedBatchMatchesSolo).
use kllm.Base.{
  ℕ, ◌+◌, ◌*◌, ◌≤◌, ◌<◌, ◌≡◌, sym, subst, ◌∙◌, ltb, if◌then◌else◌, List, Bool, false, some, arith,
  length, get_elem?, count, All-get_elem?, ok, int32_mod,
}
use native.Mathlib.Nat.{le-mul_of_pos_right}
use kllm.Platform.{Platform}
use kllm.Kv.{new_allocator}
use kllm.Kv.Blocks.{count-new_allocator}
use kllm.Kv.Sizes.{length-new_allocator, new_allocator-size}
use kllm.Backend.{Device}
use kllm.Engine.{generate}
use kllm.Engine.Greedy.Feeding.{Alone, IsAnswering}
use kllm.Engine.Greedy.Generating.{generate_sized}
use kllm.Scheduler.{Request, Config, advance}
use kllm.Scheduler.Every.{Kept}
use kllm.Scheduler.Every.Histories.{reach-Kept}
use kllm.Scheduler.Loop.{State, new_request-IsAccepted, init, Reach}
use kllm.Scheduler.Feeding.{HasPrompt}
use kllm.Scheduler.Greedy.{IsGreedy, sent_tokens, has_error}
use kllm.Scheduler.Greedy.Forming.{Serving}
use kllm.Scheduler.Greedy.Histories.{reach-IsGreedy}

-- A request keeps its prompt, also when it is over.
prompts_kept :
    (p : Platform) {V : Type 0} (gt : V → V → Bool) (cfg : Config)
    → Kept p gt cfg HasPrompt HasPrompt
unfolding advance
prompts_kept p gt cfg = record {
  on_seq = λ r o h. h;
  on_error = λ r e o h _. h;
  on_end = λ r fed tok now o h _. h;
  on_token = λ r fed tok now h goes_on. h;
  on_request = λ no_time now ref prompt max_new r made.
      let a = new_request-IsAccepted cfg no_time now ref prompt max_new r made in
      subst HasPrompt (sym a.made) a.some_prompt;
}

-- A request that is over without an error, in any state that a new scheduler reaches before a
-- panic, has been sent exactly what `Generate` returns for its prompt and its limit on an
-- unused cache of the same size, if that cache has room for them and they are no more than
-- `max_seq`; `Generate` returns without an error there. This is for a device that keeps contexts
-- in blocks, as `Paged` says, and that, in a state in which it is ready, answers a batch of one
-- sequence that has a token, keeps to `max_seq`, and whose table covers it, fits the staging
-- area and names blocks of the cache, and stays ready; it is ready on the unused cache. The logits
-- are as wide as the vocabulary, the vocabulary and the block size are not 0, and the cache, with a
-- step's tokens and one block more, has fewer than 2 ^ 31 positions.
pub reach-eq-generate :
    (p : Platform) {V : Type 0} (gt : V → V → Bool) (cfg : Config) (dev : Device V)
    {num_blocks block_size : ℕ} {model : List ℕ → List V}
    (serving : Serving cfg dev num_blocks block_size model) (device unused : dev.State)
    {max_seq : ℕ} {v : State dev.State p.Float p.Time} (i : ℕ) (r : Request p.Time)
    → (answering : IsAnswering dev cfg.vocab max_seq num_blocks block_size) → answering.Ready unused
    → 0 < cfg.vocab
    → 0 < block_size
    → Reach p gt cfg dev (init p gt cfg dev device (new_allocator num_blocks block_size)) v
    → v.crashed ≡ false
    → get_elem? v.world.over i ≡ some r
    → has_error r.out ≡ false
    → length r.prompt + r.max_new ≤ num_blocks * block_size
    → length r.prompt + r.max_new ≤ max_seq
    → let a = new_allocator num_blocks block_size in
      let (_, _, g) = generate gt dev cfg.vocab cfg.eos unused a r.prompt r.max_new in
      (g.result ≡ ok tt) × (sent_tokens r.out ≡ g.out)
unfolding init
reach-eq-generate p gt cfg dev {num_blocks} {block_size} {model} serving device unused {max_seq} {v}
      i r answering ready some_vocab some_size reach good member fine room short =
    let least : num_blocks ≤ num_blocks * block_size = le-mul_of_pos_right num_blocks some_size in
    let few : num_blocks ≤ int32_mod = omega (arith, least, serving.small) in
    let answered =
      All-get_elem? (IsGreedy p gt cfg model) v.world.over i r
        (reach-IsGreedy p gt cfg dev serving device few reach good).over member in
    let prompted =
      All-get_elem? HasPrompt v.world.over i r
        (reach-Kept p gt cfg dev (prompts_kept p gt cfg) reach good
          (record { over = tt; queue = tt; running = tt; waiting = tt })).over
        member in
    let a = new_allocator num_blocks block_size in
    let number : length a.free ≡ num_blocks = length-new_allocator num_blocks block_size in
    let size : a.block_size ≡ block_size = new_allocator-size num_blocks block_size in
    let alone : Alone dev cfg.vocab max_seq num_blocks num_blocks block_size model = (record {
      paged = serving.paged;
      answering = answering;
      wide = serving.wide;
      some_size = some_size;
      small = omega (arith, serving.small);
    }) in
    let once : (x : ℕ) → count x a.free ≤ (if ltb x num_blocks then 1 else 0) =
      λ x. omega (arith, count-new_allocator x num_blocks block_size few) in
    let (result, tokens) =
      generate_sized gt dev cfg.vocab cfg.eos unused a r.prompt r.max_new alone ready size number
        some_vocab once prompted room short in
    (result, answered.whole fine ∙ sym tokens)
