-- ===== src/Metrics.antt =====
-- engine/metrics/metrics.go: counters, gauges and histograms, the Prometheus text and the JSON
-- snapshot. A gauge's bit packing, the atomics and the mutex are left out: each method is one step.
pub mod Buckets
mod Examples
use Prim.Native.String.{String}
use kllm.Base.{
  ℕ, zero, suc, ◌+◌, ◌%◌, ◌-◌, ◌^◌, List, [], ◌∷◌, ◌++◌, Bool, true, false, ◌||◌, Option, none,
  some, length, replicate, ltb, ◌==◌, if◌then◌else◌, int_mod, add_int,
}
use kllm.Platform.{Platform}

-- `Counter.Inc`, on a `uint64`
abbrev pub inc : ℕ → ℕ
inc c = add_int c 1

pub record Histogram (F : Type 0) : Type 0 where
  pub bounds : List F
  pub counts : List ℕ
  pub sum : F
  pub total : ℕ

pub record Metrics (F : Type 0) : Type 0 where
  pub requests_total : ℕ
  pub requests_done : ℕ
  pub tokens_total : ℕ
  pub prefill_tokens : ℕ
  pub forward_steps : ℕ
  pub running_seqs : F
  pub queued_reqs : F
  pub kv_blocks_used : F
  pub kv_blocks_tot : F
  pub tok_per_sec : F
  pub ttft : Histogram F
  pub itl : Histogram F
  pub batch_size : Histogram F

-- One line, or a few, of the Prometheus text: what `Fprintf` is given.
pub data Line (F : Type 0) : Type 0 where
  counter_line : String → ℕ → Line F
  gauge_line : String → F → Line F
  histogram_header : String → Line F
  bucket_line : String → F → ℕ → Line F
  infinity_line : String → ℕ → Line F
  sum_count_line : String → F → ℕ → Line F

pub record Snapshot (F : Type 0) : Type 0 where
  pub requests_total : ℕ
  pub requests_done : ℕ
  pub tokens_total : ℕ
  pub prefill_tokens : ℕ
  pub forward_steps : ℕ
  pub running_seqs : F
  pub queued_reqs : F
  pub kv_blocks_used : F
  pub kv_blocks_total : F
  pub tokens_per_sec : F
  pub ttft_mean_ms : F
  pub itl_mean_ms : F
  pub avg_batch_size : F

-- `h.counts[i]++`
bump : ℕ → List ℕ → List ℕ
bump i [] = []
bump zero (c ∷ cs) = inc c ∷ cs
bump (suc i) (c ∷ cs) = c ∷ bump i cs

module _ (p : Platform) where
  open p use {Float, zero_f, add_f, mul_f, div_f, gt_f, le_f, eq_f, of_nat, ratio}

  pub new_histogram : List Float → Histogram Float
  new_histogram bounds = record {
    bounds = bounds;
    counts = replicate (length bounds + 1) 0;
    sum = zero_f;
    total = 0;
  }

  -- The loop of `Observe`: the first bound that is not below `v`, or their number.
  bucket : Float → List Float → ℕ
  bucket v [] = 0
  bucket v (b ∷ bounds) = if gt_f v b then suc (bucket v bounds) else 0

  unfoldable pub observe : Histogram Float → Float → Histogram Float
  unfolding bucket bump
  observe h v = record h {
    counts = bump (bucket v h.bounds) h.counts;
    sum = add_f h.sum v;
    total = inc h.total;
  }

  -- The mean that `Histogram.Snapshot` returns beside `total` and `sum`.
  mean : Histogram Float → Float
  mean h = if ltb 0 h.total then div_f h.sum (of_nat h.total) else zero_f

  pub new_metrics : Metrics Float
  unfolding new_histogram
  new_metrics = record {
    requests_total = 0;
    requests_done = 0;
    tokens_total = 0;
    prefill_tokens = 0;
    forward_steps = 0;
    running_seqs = zero_f;
    queued_reqs = zero_f;
    kv_blocks_used = zero_f;
    kv_blocks_tot = zero_f;
    tok_per_sec = zero_f;
    ttft = new_histogram (
        ratio 1 1000
        ∷ ratio 2 1000
        ∷ ratio 5 1000
        ∷ ratio 1 100
        ∷ ratio 2 100
        ∷ ratio 5 100
        ∷ ratio 1 10
        ∷ ratio 25 100
        ∷ ratio 5 10
        ∷ ratio 1 1
        ∷ ratio 25 10
        ∷ []);
    itl = new_histogram (
        ratio 5 10000
        ∷ ratio 1 1000
        ∷ ratio 2 1000
        ∷ ratio 5 1000
        ∷ ratio 1 100
        ∷ ratio 2 100
        ∷ ratio 5 100
        ∷ ratio 1 10
        ∷ ratio 25 100
        ∷ []);
    batch_size = new_histogram (
        of_nat 1
        ∷ of_nat 2
        ∷ of_nat 4
        ∷ of_nat 8
        ∷ of_nat 16
        ∷ of_nat 32
        ∷ of_nat 64
        ∷ of_nat 128
        ∷ []);
  }

  -- `UpdateTokPerSec`, with `tokens` a length.
  unfoldable pub update_tok_per_sec : Metrics Float → ℕ → Float → Metrics Float
  update_tok_per_sec m tokens secs =
      let inst = div_f (of_nat tokens) secs in
      let prev = m.tok_per_sec in
      if le_f secs zero_f || tokens == 0
      then m
      else if eq_f prev zero_f
      then record m { tok_per_sec = inst }
      else record m { tok_per_sec = add_f (mul_f (ratio 2 10) inst) (mul_f (ratio 8 10) prev) }

  -- The loop of `hist` over the bounds, with `cum` so far, and the line for `+Inf`. A histogram
  -- with no count left would panic: it prints no more.
  bucket_lines : String → List Float → List ℕ → ℕ → List (Line Float)
  bucket_lines name [] [] cum = []
  bucket_lines name (b ∷ bounds) [] cum = []
  bucket_lines name [] (c ∷ counts) cum = infinity_line name (add_int cum c) ∷ []
  bucket_lines name (b ∷ bounds) (c ∷ counts) cum =
      bucket_line name b (add_int cum c) ∷ bucket_lines name bounds counts (add_int cum c)

  pub hist_lines : String → Histogram Float → List (Line Float)
  unfolding bucket_lines
  hist_lines name h =
      histogram_header name
      ∷ (bucket_lines name h.bounds h.counts 0 ++ sum_count_line name h.sum h.total ∷ [])

  pub write_prom : Metrics Float → List (Line Float)
  unfolding hist_lines
  write_prom m =
      counter_line "kllm_requests_total" m.requests_total
      ∷ counter_line "kllm_requests_done_total" m.requests_done
      ∷ counter_line "kllm_tokens_generated_total" m.tokens_total
      ∷ counter_line "kllm_prefill_tokens_total" m.prefill_tokens
      ∷ counter_line "kllm_forward_steps_total" m.forward_steps
      ∷ gauge_line "kllm_running_sequences" m.running_seqs
      ∷ gauge_line "kllm_queued_requests" m.queued_reqs
      ∷ gauge_line "kllm_kv_blocks_used" m.kv_blocks_used
      ∷ gauge_line "kllm_kv_blocks_total" m.kv_blocks_tot
      ∷ gauge_line "kllm_tokens_per_second" m.tok_per_sec
      ∷ (hist_lines "kllm_ttft_seconds" m.ttft
          ++ (hist_lines "kllm_itl_seconds" m.itl ++ hist_lines "kllm_batch_size" m.batch_size))

  pub snapshot : Metrics Float → Snapshot Float
  unfolding mean
  snapshot m = record {
    requests_total = m.requests_total;
    requests_done = m.requests_done;
    tokens_total = m.tokens_total;
    prefill_tokens = m.prefill_tokens;
    forward_steps = m.forward_steps;
    running_seqs = m.running_seqs;
    queued_reqs = m.queued_reqs;
    kv_blocks_used = m.kv_blocks_used;
    kv_blocks_total = m.kv_blocks_tot;
    tokens_per_sec = m.tok_per_sec;
    ttft_mean_ms = mul_f (mean m.ttft) (of_nat 1000);
    itl_mean_ms = mul_f (mean m.itl) (of_nat 1000);
    avg_batch_size = mean m.batch_size;
  }
