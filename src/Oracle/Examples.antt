-- ===== src/Oracle/Examples.antt =====
-- The comparison over natural numbers, where 100 stands for the infinity.
use kllm.Base.{ℕ, ◌-◌, ◌+◌, ◌≡◌, ◌↔◌, refl, arith, [], ◌∷◌, false, length, ok, negsuc}
use kllm.Samples.{greater}
use kllm.Kv.{new_allocator, new_sequence, reserve, need_blocks, commit}
use kllm.Backend.{Device, forward_batch, check_batch}
use kllm.Backend.Paged.Sample.{counting, remembering}
use kllm.Engine.{Session, forward, step, argmax, decode}
use kllm.Oracle.{max_abs_diff}
use kllm.Oracle.Prompt.{Debug, row, check_steps}
use kllm.Oracle.Prompt.Passing.{check_steps-decode}
use kllm.Oracle.Tolerance.{IsStrict, AllWithin, max_abs_diff_iff}

abbrev gap : ℕ → ℕ → ℕ
gap a b = (a - b) + (b - a)

greater-IsStrict : IsStrict greater
greater-IsStrict = record {
  asymmetric = λ x y e. ground arith;
  transitive = λ x y z e h. ground arith;
}

max_abs_diff_iff_example :
    (greater (max_abs_diff 0 100 gap greater (5 ∷ 9 ∷ []) (6 ∷ 7 ∷ [])) 2 ≡ false) ↔ (
      (length {A = ℕ} (5 ∷ 9 ∷ []) ≡ length {A = ℕ} (6 ∷ 7 ∷ []))
      × AllWithin 0 100 gap greater 2 (5 ∷ 9 ∷ []) (6 ∷ 7 ∷ []))
max_abs_diff_iff_example =
    max_abs_diff_iff 0 100 gap greater greater-IsStrict 2 (5 ∷ 9 ∷ []) (6 ∷ 7 ∷ []) refl refl

-- A reference of two tokens with their logits, against a device whose second logit is 4 and whose
-- first is the number of tokens that it was fed.
abbrev counted : Device ℕ
counted = remembering counting 2

abbrev session : Session counted.State
session = record { device = λ _. []; alloc = new_allocator 4 2; seq = new_sequence }

abbrev untouched : Debug counted.State ℕ
untouched = record { set = λ st on. (st, ok tt); read = λ st i. (st, ok []) }

two_steps_pass :
    (check_steps greater counted 2 untouched 0 100 gap greater 0 0 0 2
      (3 ∷ 4 ∷ 1 ∷ 4 ∷ [])
      (1 ∷ 1 ∷ [])
      session
      (3 ∷ 4 ∷ [])).1
    ≡ ok tt
unfolding check_steps row forward step reserve need_blocks new_allocator forward_batch check_batch
    argmax max_abs_diff commit
two_steps_pass = refl

check_steps-decode_example :
    (decode greater counted 2 (negsuc 0) 2 session (3 ∷ 4 ∷ []) []).1.out ≡ 1 ∷ 1 ∷ []
check_steps-decode_example =
    check_steps-decode greater counted 2 untouched 0 100 gap greater 0 0 0 2 (3 ∷ 4 ∷ 1 ∷ 4 ∷ [])
      (1 ∷ 1 ∷ []) [] session (3 ∷ 4 ∷ []) two_steps_pass
