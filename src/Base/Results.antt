-- ===== src/Base/Results.antt =====
-- What a Go function returns with its error, and the errors of the modelled packages.
use Prim.Native.Nat.{ℕ}
use Prim.Native.String.{String}
use mathlib.Core.Path.{◌≡◌, refl}
use mathlib.Core.Bool.{Bool, true, false}
use mathlib.Core.Option.{Option, none, some}
use mathlib.Core.List.{List}
use kllm.Base.Int.{ℤ}
use kllm.Base.Tests.{if◌then◌else◌}

-- An error, by the call that makes it and what it prints; `reservation_failed` wraps another one,
-- as `fmt.Errorf("…: %w", err)` does.
pub data Error : Type 0 where
  out_of_blocks : ℕ → Error
  bad_batch no_tokens : ℕ → Error
  backend : ℕ → Error
  empty_request scheduler_stopped : Error
  prompt_too_long : ℕ → ℕ → Error
  reservation_failed : Error → Error
  no_file bad_json missing_dims unknown_rope_shape : Error
  rope_type_unsupported activation_unsupported : String → Error
  scaling_unsupported no_sliding_pattern : Error
  wrong_layer_types : ℕ → ℤ → Error
  short_read bad_header : Error
  header_length : ℕ → ℕ → Error
  bad_entry unknown_dtype negative_dim shape_overflow out_of_bounds wrong_size no_tensor :
      String → Error
  backend_error : String → ℕ → List ℕ → Error
  length_mismatch : ℕ → ℕ → Error
  negative_count : String → ℕ → Error
  missing_export no_files : String → Error
  duplicate_tensor : String → String → String → Error
  not_words : String → ℕ → Error
  wrong_bytes : String → ℕ → ℤ → Error
  not_two_dims no_scales wrong_scales unsupported_tensor : String → Error
  uploading in_file : String → Error → Error
  bad_request no_streaming : Error
  not_npy truncated bad_descr bad_order no_shape bad_dim : Error
  bad_version : ℕ → Error
  data_size : ℕ → ℤ → Error
  server_error : String → Error
  bad_status : ℕ → Error
  layer_diverges logits_diverge : ℕ → Error
  wrong_token : ℕ → ℕ → ℕ → Error

-- `panic` is a run-time panic, which no code of the repository recovers from.
pub data Result {ℓ} (A : Type ℓ) : Type ℓ where
  ok : A → Result A
  err : Error → Result A
  panic : Result A

infixl 5 ◌>>=◌ ◌>>◌
abbrev pub ◌>>=◌ {ℓ κ} : {A : Type ℓ} {B : Type κ} → Result A → (A → Result B) → Result B
ok a >>= f = f a
err e >>= f = err e
panic >>= f = panic

abbrev pub ◌>>◌ {ℓ} : {B : Type ℓ} → Result (Unit {0}) → Result B → Result B
m >> k = m >>= λ _. k

-- A property of a branching term, from its branches; each knows which way the test went.
pub if_cases {ℓ κ} :
    {A : Type ℓ} (P : A → Type κ) (b : Bool) (x y : A)
    → (b ≡ true → P x)
    → (b ≡ false → P y)
    → P (if b then x else y)
if_cases P true x y f g = f refl
if_cases P false x y f g = g refl

pub option_cases {ℓ κ λ'} :
    {A : Type ℓ} {B : Type κ} (P : B → Type λ') (o : Option A) (x : B) (g : A → B)
    → (o ≡ none → P x)
    → ((a : A) → o ≡ some a → P (g a))
    → P (elim o [ none ↦ x | some a ↦ g a ])
option_cases P none x g f h = f refl
option_cases P (some a) x g f h = h a refl

pub result_cases {ℓ κ λ'} :
    {A : Type ℓ} {B : Type κ} (P : B → Type λ') (m : Result A) (f : A → B) (g : Error → B) (x : B)
    → ((a : A) → m ≡ ok a → P (f a))
    → ((e : Error) → m ≡ err e → P (g e))
    → (m ≡ panic → P x)
    → P (elim m [ ok a ↦ f a | err e ↦ g e | panic ↦ x ])
result_cases P (ok a) f g x on_ok on_err on_panic = on_ok a refl
result_cases P (err e) f g x on_ok on_err on_panic = on_err e refl
result_cases P panic f g x on_ok on_err on_panic = on_panic refl

-- `Q` of the value, if there is one.
abbrev pub OnOk {ℓ κ} : {A : Type ℓ} → (A → Type κ) → Result A → Type κ
OnOk Q (ok a) = Q a
OnOk Q (err e) = Unit
OnOk Q panic = Unit

pub OnOk-equation {ℓ κ λ'} :
    {A : Type ℓ} {B : Type κ} (Q : B → Type λ') (m : Result A) (f : A → Result B)
    → ((a : A) → m ≡ ok a → OnOk Q (f a))
    → OnOk Q (m >>= f)
OnOk-equation Q (ok a) f k = k a refl
OnOk-equation Q (err e) f k = tt
OnOk-equation Q panic f k = tt

pub OnOk-map {ℓ κ μ} :
    {A : Type ℓ} {P : A → Type κ} {Q : A → Type μ} (f : (x : A) → P x → Q x) (m : Result A)
    → OnOk P m
    → OnOk Q m
OnOk-map f (ok a) p = f a p
OnOk-map f (err e) p = tt
OnOk-map f panic p = tt
