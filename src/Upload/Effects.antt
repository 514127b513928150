-- ===== src/Upload/Effects.antt =====
-- What `uploadWeights` leaves as it was: whatever the two calls of the library leave.
use Prim.Native.String.{String, ◌++◌}
use text.Mathlib.Text.{◌==◌}
use kllm.Base.{
  ℕ, ◌≡◌, refl, ◌∙◌, List, [], ◌∷◌, not, Option, length, ℤ, pos, equals, is_zero, if_cases,
  option_cases, result_cases, Result,
}
use kllm.Base.Actions.{Act}
use kllm.Base.Text.{ends_with, strip_suffix}
use kllm.Handle.{Impl, load_f32, load_w4, nibble_bytes, scale_bytes}
use kllm.Loader.{Tensor}
use kllm.Loader.Shards.{Model, model_tensors}
use kllm.Upload.{
  upload, upload_w4, upload_f32, upload_one, upload_all, upload_weights, w4_dims, read_bytes,
}

-- The action keeps the measure.
abbrev pub Keeps : {S A : Type 0} → (S → ℕ) → Act S A → Type 0
Keeps live m = (s : _) → live (m s).0 ≡ live s

module _ {S V F C : Type 0} (im : Impl S V F C) (read : String → ℕ → ℕ → Option (List ℕ))
    (live : S → ℕ) (loads : (name : String) (raw : List ℕ) → Keeps live (im.load_tensor name raw))
    (loads_w4 : (name : String) (q sc : List ℕ) (n k g : ℤ)
      → Keeps live (im.load_tensor_w4 name q sc n k g)) where
  load_f32-Keeps : (name : String) (raw : List ℕ) → Keeps live (load_f32 im name raw)
  unfolding load_f32
  load_f32-Keeps name raw = if_cases (Keeps live) _ _ _ (λ _ s. refl) (λ _. loads name raw)

  load_w4-Keeps :
      (name : String) (q sc : List ℕ) (n k g : ℤ) → Keeps live (load_w4 im name q sc n k g)
  unfolding load_w4
  load_w4-Keeps name q sc n k g =
      if_cases (Keeps live) (not (equals (pos (length q)) (nibble_bytes n k))) _ _ (λ _ s. refl)
        (λ _.
          if_cases (Keeps live) (is_zero g) _ _ (λ _ s. refl)
            (λ _.
              if_cases (Keeps live) (not (equals (pos (length sc)) (scale_bytes n k g))) _ _
                (λ _ s. refl) (λ _. loads_w4 name q sc n k g)))

  upload-Keeps :
      (name : String) (call : Act S (Unit {0}))
      → Keeps live call
      → Keeps live (upload im read name call)
  unfolding upload
  upload-Keeps name call h s =
      let P = λ (r : S × Result (Unit {0})). live r.0 ≡ live s in
      result_cases P (call s).1 _ _ _ (λ _ _. h s) (λ _ _. h s) (λ _. h s)

  upload_one-Keeps : (m : Model) (t : Tensor) → Keeps live (upload_one im read m t)
  unfolding upload_one upload_w4 upload_f32
  upload_one-Keeps m t s =
      let P = λ (r : S × Result (Unit {0})). live r.0 ≡ live s in
      if_cases (Keeps live) (ends_with t.name ".scales") _ _ (λ _ s. refl)
        (λ _.
          option_cases (Keeps live) (strip_suffix t.name ".qweight") _ _
            (λ _.
              if_cases (Keeps live) (t.dtype == "F32") _ _
                (λ _ s.
                  result_cases (λ (r : S × Result (Unit {0})). live r.0 ≡ live s)
                    (read_bytes im read m t.name) _ _ _
                    (λ raw _.
                      upload-Keeps t.name (load_f32 im t.name raw) (load_f32-Keeps t.name raw) s)
                    (λ _ _. refl) (λ _. refl))
                (λ _ s. refl))
            (λ base _ s.
              let P = λ (r : S × Result (Unit {0})). live r.0 ≡ live s in
              result_cases P (w4_dims m t base) _ _ _
                (λ d _.
                  result_cases P (read_bytes im read m t.name) _ _ _
                    (λ q _.
                      result_cases P (read_bytes im read m (base ++ ".scales")) _ _ _
                        (λ sc _.
                          upload-Keeps t.name (load_w4 im (base ++ ".weight") q sc d.0 d.1 d.2)
                            (load_w4-Keeps (base ++ ".weight") q sc d.0 d.1 d.2) s)
                        (λ _ _. refl) (λ _. refl))
                    (λ _ _. refl) (λ _. refl))
                (λ _ _. refl) (λ _. refl)))
        s

  upload_all-Keeps : (m : Model) (ts : List Tensor) → Keeps live (upload_all im read m ts)
  unfolding upload_all
  upload_all-Keeps m [] s = refl
  upload_all-Keeps m (t ∷ ts) s =
      let first = upload_one-Keeps m t s in
      let rest = upload_all-Keeps m ts (upload_one im read m t s).0 in
      result_cases (λ (r : S × Result (Unit {0})). live r.0 ≡ live s) (upload_one im read m t s).1 _
        _ _ (λ _ _. rest ∙ first) (λ _ _. first) (λ _. first)

  pub upload_weights-Keeps :
      (sort : List Tensor → List Tensor) (m : Model) → Keeps live (upload_weights im read sort m)
  unfolding upload_weights
  upload_weights-Keeps sort m = upload_all-Keeps m (model_tensors sort m)
