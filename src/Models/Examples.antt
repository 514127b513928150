-- ===== src/Models/Examples.antt =====
-- The properties of the configuration at a small Gemma checkpoint.
use kllm.Base.{◌≡◌, refl, true, some, pos, is_pos, ok, arith}
use kllm.Samples.{naturals, blocks, zeroed, decoded, loaded}
use kllm.Models.{load_config, finish_config, apply_rope_parameters, to_backend, validate}
use kllm.Models.Sliding.{validate_pattern}

loads : load_config naturals blocks zeroed (some tt) (λ _ c. some (decoded c)) ≡ ok loaded
unfolding load_config finish_config apply_rope_parameters
loads = refl

is_valid : validate naturals blocks loaded ≡ ok tt
unfolding validate
is_valid = refl

validate_pattern_example : is_pos (to_backend naturals blocks loaded (pos 0)).sliding_pattern ≡ true
unfolding to_backend
validate_pattern_example =
    validate_pattern naturals blocks loaded (pos 0) 2 0 is_valid refl refl (omega arith) refl refl
