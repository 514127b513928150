-- ===== src/Models/Sliding.antt =====
-- What `Validate` guarantees of a Gemma configuration's sliding layers.
use text.Mathlib.Text.{◌==◌}
use kllm.Base.{
  ℕ, zero, suc, ◌<◌, ◌+◌, ◌≡◌, refl, sym, ap, subst, Bool, true, false, not, ◌&&◌, length, ltb,
  if◌then◌else◌, if_cases, ℤ, pos, negsuc, is_pos, is_zero, equals, Result, ok, err, arith,
  int_limit, Error, activation_unsupported, scaling_unsupported, wrong_layer_types,
  no_sliding_pattern,
}
use kllm.Platform.{Platform}
use kllm.Models.{Json, Config, pattern_of, to_backend, validate, is_gemma}

equals-same : (m n : ℤ) → equals m n ≡ true → m ≡ n
equals-same (pos m) (pos n) e = ap pos (ground arith)
equals-same (pos m) (negsuc n) e = cc
equals-same (negsuc m) (pos n) e = cc
equals-same (negsuc m) (negsuc n) e = ap negsuc (ground arith)

-- The two last tests of `Validate` find nothing.
record IsPassed (types layers_wrong windowed patterned : Bool) : Type 0 where
  counted : (types && layers_wrong) ≡ false
  has_pattern : (windowed && not types && not patterned) ≡ false

abbrev fine : Result (Unit {0})
fine = ok tt

-- A chain of tests that each end in an error, passed.
chain_passed :
    (gemma a s x y : Bool) (ea es ex ey : Error)
    → (if gemma
        then (if a
            then err ea
            else if s
            then err es
            else if x
            then err ex
            else if y
            then err ey
            else ok tt)
        else ok tt)
      ≡ fine
    → gemma ≡ true
    → (x ≡ false) × (y ≡ false)
chain_passed true false false false false ea es ex ey e g = (refl, refl)
chain_passed true true s x y ea es ex ey e g = cc
chain_passed true false true x y ea es ex ey e g = cc
chain_passed true false false true y ea es ex ey e g = cc
chain_passed true false false false true ea es ex ey e g = cc
chain_passed false a s x y ea es ex ey e g = cc

validated :
    (p : Platform) (json : Json p.Float) (c : Config p json)
    → validate p json c ≡ ok tt
    → is_gemma p json c ≡ true
    → IsPassed
        (ltb 0 (length c.layer_types))
        (not (equals (pos (length c.layer_types)) c.num_hidden_layers))
        (is_pos c.sliding_window)
        (is_pos c.sliding_window_pattern)
unfolding validate
validated p json c e gemma =
    let (x, y) =
      chain_passed (is_gemma p json c)
        (not (c.hidden_activation == "") && not (c.hidden_activation == "gelu_pytorch_tanh"))
        (not (json.is_null c.rope_scaling)) _ _ (activation_unsupported c.hidden_activation)
        scaling_unsupported (wrong_layer_types (length c.layer_types) c.num_hidden_layers)
        no_sliding_pattern e gemma in
    record { counted = x; has_pattern = y }

-- A pattern that is kept is not 0.
kept_pattern :
    (k : ℕ) (windowed types : Bool)
    → (windowed && not types && not (is_pos (pos k))) ≡ false
    → windowed ≡ true
    → (is_zero (pos k) && types) ≡ false
    → is_pos (pos k) ≡ true
kept_pattern zero true true e w f = cc
kept_pattern zero true false e w f = cc
kept_pattern zero false types e w f = cc
kept_pattern (suc k) windowed types e w f = ground arith

pattern_positive :
    (p : Platform) (json : Json p.Float) (c : Config p json) (n k : ℕ)
    → c.num_hidden_layers ≡ pos n
    → n + 1 < int_limit
    → c.sliding_window_pattern ≡ pos k
    → is_pos c.sliding_window ≡ true
    → (is_pos c.sliding_window
        && not (ltb 0 (length c.layer_types))
        && not (is_pos c.sliding_window_pattern))
      ≡ false
    → is_pos (pattern_of p json c) ≡ true
unfolding pattern_of
pattern_positive p json c n k layers small pattern window passed =
    if_cases (λ m. is_pos m ≡ true)
      (is_zero c.sliding_window_pattern && ltb 0 (length c.layer_types)) _ _
      (λ _. rw layers (ground arith))
      (λ kept. rw pattern (
        kept_pattern k (is_pos c.sliding_window) (ltb 0 (length c.layer_types))
          (subst
            (λ m.
              (is_pos c.sliding_window && not (ltb 0 (length c.layer_types)) && not (is_pos m))
              ≡ false)
            pattern passed)
          window (subst (λ m. (is_zero m && ltb 0 (length c.layer_types)) ≡ false) pattern kept)))

-- A Gemma configuration that passes `Validate`, with a pattern that is not negative and fewer than
-- 2 ^ 63 - 1 layers, gives the backend a positive pattern whenever it has a sliding window, which
-- is what the backend's check of a new model asks for.
pub validate_pattern :
    (p : Platform) (json : Json p.Float) (c : Config p json) (max_seq : ℤ) (n k : ℕ)
    → validate p json c ≡ ok tt
    → is_gemma p json c ≡ true
    → c.num_hidden_layers ≡ pos n
    → n + 1 < int_limit
    → c.sliding_window_pattern ≡ pos k
    → let b = to_backend p json c max_seq in
      is_pos b.sliding_window ≡ true → is_pos b.sliding_pattern ≡ true
unfolding to_backend pattern_of
validate_pattern p json c max_seq n k e gemma layers small pattern slides =
    let passed = validated p json c e gemma in
    let window : is_pos c.sliding_window ≡ true =
      subst (λ g. is_pos (if g then c.sliding_window else pos 0) ≡ true) gemma slides in
    subst (λ g. is_pos (if g then pattern_of p json c else pos 0) ≡ true) (sym gemma)
      (pattern_positive p json c n k layers small pattern window passed.has_pattern)
