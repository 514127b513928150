-- ===== src/Models.antt =====
-- models/config.go: a model's configuration after JSON decoding. `encoding/json` and the file are
-- parameters: what `Unmarshal` makes of the raw text is `Json`.
pub mod Sliding
mod Examples
use Prim.Native.String.{String}
use text.Mathlib.Text.{starts_with, ◌==◌}
use kllm.Base.{
  ℕ, List, [], ◌∷◌, map, Bool, true, false, not, ◌&&◌, ◌||◌, Option, none, some, length, ltb,
  if◌then◌else◌, ℤ, pos, negsuc, is_pos, is_zero, equals, quot, plus_one, Result, ok, err, panic,
  Error, ◌>>=◌, ◌>>◌, no_file, bad_json, missing_dims, unknown_rope_shape, rope_type_unsupported,
  activation_unsupported, scaling_unsupported, no_sliding_pattern, wrong_layer_types,
}
use kllm.Platform.{Platform}

pub record RopeParams (F : Type 0) : Type 0 where
  pub rope_theta : F
  pub rope_type : String

-- `json.RawMessage` and the decoders that the code calls on it.
pub record Json (F : Type 0) : Type 1 where
  pub Raw : Type 0
  -- `len(raw) == 0 || string(raw) == "null"`
  pub is_null : Raw → Bool
  -- `json.Unmarshal` into a map, by key, and into one `ropeParams`; `none` for an error.
  pub keyed : Raw → Option (String → Option (RopeParams F))
  pub flat : Raw → Option (RopeParams F)

-- `HFConfig`, less `Architectures`, which no code reads.
pub record HfConfig (F R : Type 0) : Type 0 where
  pub model_type : String
  pub hidden_size : ℤ
  pub intermediate_size : ℤ
  pub num_hidden_layers : ℤ
  pub num_attention_heads : ℤ
  pub num_key_value_heads : ℤ
  pub head_dim : ℤ
  pub vocab_size : ℤ
  pub max_position_embeddings : ℤ
  pub rope_theta : F
  pub rms_norm_eps : F
  pub eos_token_id : ℤ
  pub num_local_experts : ℤ
  pub num_experts_per_tok : ℤ
  pub kllm_router : String
  pub hidden_activation : String
  pub sliding_window : ℤ
  pub sliding_window_pattern : ℤ
  pub layer_types : List String
  pub rope_local_base_freq : F
  pub query_pre_attn_scalar : F
  pub rope_scaling : R
  pub rope_parameters : R

-- `backend.ModelConfig`; the two fields of the paged cache are set by the engine.
pub record ModelConfig (F : Type 0) : Type 0 where
  pub hidden : ℤ
  pub n_layers : ℤ
  pub n_heads : ℤ
  pub n_kv_heads : ℤ
  pub head_dim : ℤ
  pub intermediate : ℤ
  pub vocab : ℤ
  pub max_seq : ℤ
  pub n_experts : ℤ
  pub top_k : ℤ
  pub moe_intermediate : ℤ
  pub router_mode : ℤ
  pub arch : ℤ
  pub sliding_window : ℤ
  pub sliding_pattern : ℤ
  pub rope_theta : F
  pub rope_local_theta : F
  pub query_scalar : F
  pub rms_eps : F

module _ (p : Platform) (json : Json p.Float) where
  open p use {Float, zero_f, gt_f, ratio}
  open json use {Raw, is_null, keyed, flat}

  abbrev pub Config : Type 0
  Config = HfConfig Float Raw

  -- The function `check` of `applyRopeParameters`.
  check_type : RopeParams Float → Result (Unit {0})
  check_type r =
      if not (r.rope_type == "") && not (r.rope_type == "default")
      then err (rope_type_unsupported r.rope_type)
      else ok tt

  apply_full : Config → Option (RopeParams Float) → Result Config
  unfolding check_type
  apply_full c none = ok c
  apply_full c (some r) =
      if gt_f r.rope_theta zero_f
      then check_type r >> ok (record c { rope_theta = r.rope_theta })
      else ok c

  apply_sliding : Config → Option (RopeParams Float) → Result Config
  unfolding check_type
  apply_sliding c none = ok c
  apply_sliding c (some r) =
      if gt_f r.rope_theta zero_f
      then check_type r >> ok (record c { rope_local_base_freq = r.rope_theta })
      else ok c

  -- The flat form. A block that does not decode, or has no positive base, is not recognized.
  apply_flat : Config → Option (RopeParams Float) → Result Config
  unfolding check_type
  apply_flat c none = err unknown_rope_shape
  apply_flat c (some r) =
      if gt_f r.rope_theta zero_f
      then check_type r >> ok (record c { rope_theta = r.rope_theta })
      else err unknown_rope_shape

  -- The hybrid form, if one of its two keys is there.
  apply_keyed : Config → Option (RopeParams Float) → Option (RopeParams Float) → Result Config
  unfolding apply_full apply_sliding apply_flat
  apply_keyed c none none = apply_flat c (flat c.rope_parameters)
  apply_keyed c (some full) slide = apply_full c (some full) >>= λ c'. apply_sliding c' slide
  apply_keyed c none (some slide) = apply_sliding c (some slide)

  pub apply_rope_parameters : Config → Result Config
  unfolding apply_keyed apply_flat
  apply_rope_parameters c =
      if is_null c.rope_parameters then ok c else elim (keyed c.rope_parameters) [
        | none ↦ apply_flat c (flat c.rope_parameters)
        | some find ↦ apply_keyed c (find "full_attention") (find "sliding_attention")
      ]

  -- The two defaults that depend on other fields.
  with_heads : Config → Config
  with_heads c =
      let kv : ℤ =
        if is_zero c.num_key_value_heads then c.num_attention_heads else c.num_key_value_heads in
      let dim : ℤ =
        if is_zero c.head_dim then quot c.hidden_size c.num_attention_heads else c.head_dim in
      record c { num_key_value_heads = kv; head_dim = dim }

  -- `LoadConfig` after the file is decoded.
  pub finish_config : Config → Result Config
  unfolding with_heads
  finish_config c =
      if not (is_pos c.hidden_size)
        || not (is_pos c.num_hidden_layers)
        || not (is_pos c.num_attention_heads)
        || not (is_pos c.vocab_size)
      then err missing_dims
      else apply_rope_parameters (with_heads c)

  -- `LoadConfig`: `bytes` is what `ReadFile` returns, `unmarshal` the decoder over a struct that has
  -- its defaults; `zeroed` is the zero value.
  pub load_config : {B : Type 0} → Config → Option B → (B → Config → Option Config) → Result Config
  load_config zeroed none unmarshal = err no_file
  load_config zeroed (some bytes) unmarshal =
      elim (unmarshal bytes (record zeroed {
        rope_theta = ratio 10000 1;
        rms_norm_eps = ratio 1 1000000;
        eos_token_id = negsuc 0;
      })) [ none ↦ err bad_json | some c ↦ finish_config c ]

  abbrev pub is_gemma : Config → Bool
  is_gemma c = starts_with c.model_type "gemma3"

  -- `SlidingPattern` before and after the placeholder for explicit layer types.
  pub pattern_of : Config → ℤ
  pattern_of c =
      if is_zero c.sliding_window_pattern && ltb 0 (length c.layer_types)
      then plus_one c.num_hidden_layers
      else c.sliding_window_pattern

  -- `HFConfig.Backend`
  pub to_backend : Config → ℤ → ModelConfig Float
  unfolding pattern_of
  to_backend c max_seq =
      let moe : Bool = is_pos c.num_local_experts in
      let gemma : Bool = is_gemma c in
      record {
        hidden = c.hidden_size;
        n_layers = c.num_hidden_layers;
        n_heads = c.num_attention_heads;
        n_kv_heads = c.num_key_value_heads;
        head_dim = c.head_dim;
        intermediate = c.intermediate_size;
        vocab = c.vocab_size;
        max_seq = if is_zero max_seq then c.max_position_embeddings else max_seq;
        n_experts = c.num_local_experts;
        top_k = c.num_experts_per_tok;
        moe_intermediate = if moe then c.intermediate_size else pos 0;
        router_mode = if moe && c.kllm_router == "sigmoid_bias" then pos 1 else pos 0;
        arch = if gemma then pos 1 else pos 0;
        sliding_window = if gemma then c.sliding_window else pos 0;
        sliding_pattern = if gemma then pattern_of c else pos 0;
        rope_theta = c.rope_theta;
        rope_local_theta = if gemma then c.rope_local_base_freq else zero_f;
        query_scalar = if gemma then c.query_pre_attn_scalar else zero_f;
        rms_eps = c.rms_norm_eps;
      }

  -- `LayerSlidingFlags`; nil is the empty list.
  pub layer_sliding_flags : Config → List ℕ
  layer_sliding_flags c = map (λ t. if t == "sliding_attention" then 1 else 0) c.layer_types

  pub validate : Config → Result (Unit {0})
  validate c =
      if is_gemma c
      then (if not (c.hidden_activation == "") && not (c.hidden_activation == "gelu_pytorch_tanh")
          then err (activation_unsupported c.hidden_activation)
          else if not (is_null c.rope_scaling)
          then err scaling_unsupported
          else if ltb 0 (length c.layer_types)
              && not (equals (pos (length c.layer_types)) c.num_hidden_layers)
          then err (wrong_layer_types (length c.layer_types) c.num_hidden_layers)
          else if is_pos c.sliding_window
              && not (ltb 0 (length c.layer_types))
              && not (is_pos c.sliding_window_pattern)
          then err no_sliding_pattern
          else ok tt)
      else ok tt
