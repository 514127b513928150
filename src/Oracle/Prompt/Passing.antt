-- ===== src/Oracle/Prompt/Passing.antt =====
-- What it means that the subtest passes.
use kllm.Base.{
  ℕ, suc, ◌+◌, ◌≡◌, refl, sym, ap, subst, ◌∙◌, List, [], ◌∷◌, ◌++◌, Bool, some, arith, length, ◌==◌,
  negsuc, Result, ok, err, panic, if_cases, option_cases, result_cases,
}
use mathlib.Core.List.{append-nil, append_assoc}
use kllm.Backend.{Device}
use kllm.Engine.{argmax, is_eos, Session, forward, Generated, decode}
use kllm.Oracle.{max_abs_diff}
use kllm.Oracle.Prompt.{Debug, row, pass_then, check_steps}

module _ {V F : Type 0} (gt : V → V → Bool) (dev : Device V) (vocab : ℕ) (debug : Debug dev.State V)
    (zero_f inf : F) (gap : V → V → F) (gt_f : F → F → Bool) (layer_tol logits_tol : F) where
  open dev use {State}

  -- `Generate`'s loop with no end token.
  abbrev decoded : ℕ → Session State → List V → List ℕ → List ℕ
  decoded rounds s logits out = (decode gt dev vocab (negsuc 0) rounds s logits out).1.out

  -- What `Generate`'s loop does after a token.
  abbrev go_on :
      ℕ → Session State × Result (List V) → List ℕ → Session State × Generated gt dev vocab
  go_on rounds (s', r) out = elim r [
    | ok logits ↦ decode gt dev vocab (negsuc 0) rounds s' logits out
    | err e ↦ (s', record { out = out; result = err e })
    | panic ↦ (s', record { out = out; result = panic })
  ]

  decoded-suc :
      (rounds tok : ℕ) (s : Session State) (logits : List V) (out : List ℕ)
      → argmax gt logits ≡ some tok
      → decode gt dev vocab (negsuc 0) (suc rounds) s logits out
        ≡ go_on rounds (forward gt dev vocab s (tok ∷ [])) (out ++ tok ∷ [])
  unfolding decode is_eos
  decoded-suc rounds tok s logits out picked = rw (decode, picked) refl

  -- The last pass changes nothing of what was decoded.
  go_on-zero : (f : Session State × Result (List V)) (out : List ℕ) → (go_on 0 f out).1.out ≡ out
  unfolding decode
  go_on-zero (s', ok logits) out = refl
  go_on-zero (s', err e) out = refl
  go_on-zero (s', panic) out = refl

  -- The checks of one step that passes.
  one_step :
      (step width want : ℕ) (reference : List V) (wanted : List ℕ) (s : Session State)
      (logits : List V)
      → (check_steps gt dev vocab debug zero_f inf gap gt_f layer_tol logits_tol step width
          reference
          (want ∷ wanted)
          s
          logits).1
        ≡ ok tt
      → (argmax gt logits ≡ some want)
        × ((pass_then gt dev vocab debug zero_f inf gap gt_f layer_tol logits_tol wanted
              (forward gt dev vocab s (want ∷ []))
              s
              (check_steps gt dev vocab debug zero_f inf gap gt_f layer_tol logits_tol
                (step + 1)
                width
                reference
                wanted)).1
            ≡ ok tt)
  unfolding check_steps
  one_step step width want reference wanted s logits =
      let then_pass : ℕ → Session State × Result (Unit {0}) = λ tok.
        pass_then gt dev vocab debug zero_f inf gap gt_f layer_tol logits_tol wanted
          (forward gt dev vocab s (tok ∷ [])) s
          (check_steps gt dev vocab debug zero_f inf gap gt_f layer_tol logits_tol (step + 1) width
            reference wanted) in
      let Passed : Session State × Result (Unit {0}) → Type 0 =
        λ r. r.1 ≡ ok tt → (argmax gt logits ≡ some want) × ((then_pass want).1 ≡ ok tt) in
      result_cases Passed (row step width reference) _ _ _
        (λ want_row _.
          if_cases Passed (gt_f (max_abs_diff zero_f inf gap gt_f logits want_row) logits_tol) _ _
            (λ _ bad. cc)
            (λ _.
              option_cases Passed (argmax gt logits) _ _ (λ _ bad. cc)
                (λ tok picked.
                  if_cases Passed (tok == want) _ _
                    (λ equal passed.
                      let same : tok ≡ want = ground arith in
                      (picked ∙ ap some same, subst (λ t. (then_pass t).1 ≡ ok tt) same passed))
                    (λ _ bad. cc))))
        (λ _ _ bad. cc) (λ _ bad. cc)

  -- A pass that is followed by steps that pass.
  later :
      (wanted : List ℕ) (f : Session State × Result (List V)) (out : List ℕ) (s : Session State)
      (k : Session State → List V → Session State × Result (Unit {0}))
      → ((s' : Session State) (logits : List V)
          → (k s' logits).1 ≡ ok tt
          → decoded (length wanted) s' logits out ≡ out ++ wanted)
      → (pass_then gt dev vocab debug zero_f inf gap gt_f layer_tol logits_tol wanted f s k).1
        ≡ ok tt
      → (go_on (length wanted) f out).1.out ≡ out ++ wanted
  unfolding pass_then
  later [] f out s k ih passed = go_on-zero f out ∙ sym (append-nil out)
  later (_ ∷ _) (s', ok logits) out s k ih passed = ih s' logits passed
  later (_ ∷ _) (s', err x) out s k ih passed = cc
  later (_ ∷ _) (s', panic) out s k ih passed = cc

  -- The loop over the reference's tokens passes only if the loop of `Generate`, from the same
  -- session and logits and with no end token, gives exactly those tokens after the ones it had,
  -- whatever the device does.
  pub check_steps-decode :
      (step width : ℕ) (reference : List V) (wanted out : List ℕ) (s : Session State)
      (logits : List V)
      → (check_steps gt dev vocab debug zero_f inf gap gt_f layer_tol logits_tol step width
          reference wanted s logits).1
        ≡ ok tt
      → (decode gt dev vocab (negsuc 0) (length wanted) s logits out).1.out ≡ out ++ wanted
  unfolding pass_then decode
  check_steps-decode step width reference [] out s logits passed = sym (append-nil out)
  check_steps-decode step width reference (want ∷ wanted) out s logits passed =
      let (picked, goes_on) = one_step step width want reference wanted s logits passed in
      ap (λ (d : Session State × Generated gt dev vocab). d.1.out)
        (decoded-suc (length wanted) want s logits out picked)
      ∙ later wanted (forward gt dev vocab s (want ∷ [])) (out ++ want ∷ []) s _
          (λ s' logits' k.
            check_steps-decode (step + 1) width reference wanted (out ++ want ∷ []) s' logits' k)
          goes_on
      ∙ append_assoc out (want ∷ []) wanted
