-- ===== src/Samples.antt =====
-- Small concrete parameters for the tests: natural numbers for floats, logits and times, and a
-- device that counts its forward passes and answers with zeros.
use kllm.Base.{
  ℕ, ◌+◌, ◌*◌, ◌-◌, ◌/◌, Bool, ltb, leb, ◌==◌, replicate, ok, negsuc, pos, none, true, [], ◌∷◌,
}
use kllm.Platform.{Platform}
use kllm.Backend.{Device}
use kllm.Scheduler.{Config}
use kllm.Models.{Json, HfConfig}

abbrev pub naturals : Platform
naturals = record {
  Float = ℕ;
  zero_f = 0;
  add_f = λ a b. a + b;
  mul_f = λ a b. a * b;
  div_f = λ a b. a / b;
  gt_f = λ a b. ltb b a;
  le_f = λ a b. leb a b;
  eq_f = λ a b. a == b;
  of_nat = λ n. n;
  ratio = λ n d. n / d;
  Time = ℕ;
  no_time = 0;
  seconds = λ now start. now - start;
}

abbrev pub greater : ℕ → ℕ → Bool
greater a b = ltb b a

abbrev pub zeros : Device ℕ
zeros = record { State = ℕ; forward = λ passes seqs n. (passes + 1, ok (replicate n 0)) }

abbrev pub small : Config
small = record { max_step_tokens = 8; max_batch = 2; eos = negsuc 0; vocab = 2 }

-- Every raw block is absent.
abbrev pub blocks : Json ℕ
blocks = record { Raw = Unit; is_null = λ _. true; keyed = λ _. none; flat = λ _. none }

abbrev pub zeroed : HfConfig ℕ (Unit {0})
zeroed = record {
  model_type = "";
  hidden_size = pos 0;
  intermediate_size = pos 0;
  num_hidden_layers = pos 0;
  num_attention_heads = pos 0;
  num_key_value_heads = pos 0;
  head_dim = pos 0;
  vocab_size = pos 0;
  max_position_embeddings = pos 0;
  rope_theta = 0;
  rms_norm_eps = 0;
  eos_token_id = pos 0;
  num_local_experts = pos 0;
  num_experts_per_tok = pos 0;
  kllm_router = "";
  hidden_activation = "";
  sliding_window = pos 0;
  sliding_window_pattern = pos 0;
  layer_types = [];
  rope_local_base_freq = 0;
  query_pre_attn_scalar = 0;
  rope_scaling = tt;
  rope_parameters = tt;
}

-- What the decoder reads from the file.
abbrev pub decoded : HfConfig ℕ (Unit {0}) → HfConfig ℕ (Unit {0})
decoded c = record c {
  model_type = "gemma3_text";
  hidden_size = pos 64;
  num_hidden_layers = pos 2;
  num_attention_heads = pos 4;
  vocab_size = pos 100;
  sliding_window = pos 32;
  layer_types = "sliding_attention" ∷ "full_attention" ∷ [];
}

abbrev pub loaded : HfConfig ℕ (Unit {0})
loaded = record (decoded zeroed) {
  rope_theta = 10000;
  eos_token_id = negsuc 0;
  num_key_value_heads = pos 4;
  head_dim = pos 16;
}
