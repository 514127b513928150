-- ===== src/Backend/Forward.antt =====
-- What `ForwardBatch` accepts, and the rows that it returns.
use kllm.Base.{
  OnOk, OnOk-equation, subst, ◌==◌, ltb, ok, err, Result, ◌≢◌, if_cases, result_cases, panic, ◌||◌,
  ◌>>=◌, sym, ◌∙◌, drop-all, drop-drop, take-append-drop, Error, ℕ, zero, suc, ◌+◌, ◌*◌, ◌≤◌, ◌<◌,
  ◌≡◌, refl, ◌↔◌, ap, List, [], ◌∷◌, ◌++◌, arith, length, length-take, length-drop, drop, All, ok,
  err,
}
use kllm.Backend.{
  SeqForward, Device, max_batch_seqs, check_tokens, check_batch, rows, forward_batch,
}

abbrev pub HasTokens : SeqForward → Type 0
HasTokens s = 0 < length s.tokens

check_tokens_ok :
    (i : ℕ) (seqs : List SeqForward) → All HasTokens seqs → check_tokens i seqs ≡ ok tt
unfolding check_tokens
check_tokens_ok i [] h = refl
check_tokens_ok i (s ∷ seqs) h = ground (arith, check_tokens_ok (i + 1) seqs h.1)

check_tokens_inv :
    (i : ℕ) (seqs : List SeqForward) → check_tokens i seqs ≡ ok tt → All HasTokens seqs
unfolding check_tokens
check_tokens_inv i [] e = tt
check_tokens_inv i (s ∷ seqs) e = (ground arith, check_tokens_inv (i + 1) seqs (ground arith))

-- The guards let a batch through exactly when it has 1 to 128 sequences and each has a token.
pub check_batch_iff :
    (seqs : List SeqForward)
    → (check_batch seqs ≡ ok tt)
      ↔ ((0 < length seqs) × (length seqs ≤ max_batch_seqs) × All HasTokens seqs)
unfolding check_batch
check_batch_iff seqs = (there, back)
  where
    there :
        check_batch seqs ≡ ok tt
        → (0 < length seqs) × (length seqs ≤ max_batch_seqs) × All HasTokens seqs
    there e = (ground arith, ground arith, check_tokens_inv 0 seqs (ground arith))

    back :
        (0 < length seqs) × (length seqs ≤ max_batch_seqs) × All HasTokens seqs
        → check_batch seqs ≡ ok tt
    back (some_seq, few, filled) = ground (arith, check_tokens_ok 0 seqs filled)

module _ {ℓ} {V : Type ℓ} where
  abbrev pub concat : List (List V) → List V
  concat [] = []
  concat (xs ∷ xss) = xs ++ concat xss

  concat-rows :
      (left i vocab : ℕ) (flat : List V)
      → length flat ≡ (i + left) * vocab
      → concat (rows left i vocab flat) ≡ drop (i * vocab) flat
  unfolding rows
  concat-rows zero i vocab flat e = sym (drop-all (i * vocab) flat (omega arith))
  concat-rows (suc left) i vocab flat e =
      rw
        (
          concat-rows left (i + 1) vocab flat (omega arith),
          ← drop-drop (i * vocab) vocab ((i + 1) * vocab) flat (omega arith),
        )
        (take-append-drop vocab (drop (i * vocab) flat))

  length-rows : (left i vocab : ℕ) (flat : List V) → length (rows left i vocab flat) ≡ left
  unfolding rows
  length-rows zero i vocab flat = refl
  length-rows (suc left) i vocab flat = ap suc (length-rows left (i + 1) vocab flat)

  rows-width :
      (left i vocab : ℕ) (flat : List V)
      → length flat ≡ (i + left) * vocab
      → All (λ row. length row ≡ vocab) (rows left i vocab flat)
  unfolding rows
  rows-width zero i vocab flat e = tt
  rows-width (suc left) i vocab flat e = (
    omega (arith, length-take vocab (drop (i * vocab) flat), length-drop (i * vocab) flat),
    rows-width left (i + 1) vocab flat (omega arith),
  )

concat-rows-all :
    {V : Type 0} (n vocab : ℕ) (flat : List V)
    → length flat ≡ n * vocab
    → concat (rows n 0 vocab flat) ≡ flat
concat-rows-all n vocab flat e =
    let start : 0 * vocab ≡ 0 = omega arith in
    concat-rows n 0 vocab flat (omega arith) ∙ ap (λ k. drop k flat) start

-- A forward pass that fills its buffer of one row of logits a sequence comes back as those rows:
-- as many as sequences, each `vocab` wide, and together the buffer.
pub forward_batch_rows :
    {V : Type 0} (dev : Device V) (vocab : ℕ) (st st' : dev.State) (seqs : List SeqForward)
    (buffer : List V)
    → check_batch seqs ≡ ok tt
    → dev.forward st seqs (length seqs * vocab) ≡ (st', ok buffer)
    → length buffer ≡ length seqs * vocab
    → (out : List (List V)) × (forward_batch dev vocab st seqs ≡ (st', ok out))
      × (length out ≡ length seqs)
      × All (λ row. length row ≡ vocab) out
      × (concat out ≡ buffer)
unfolding forward_batch
forward_batch_rows dev vocab st st' seqs buffer guarded ran filled = (
  rows (length seqs) 0 vocab buffer,
  rw (guarded, ran, forward_batch),
  length-rows (length seqs) 0 vocab buffer,
  rows-width (length seqs) 0 vocab buffer (omega arith),
  concat-rows-all (length seqs) vocab buffer filled,
)

-- A batch that the guards refuse does not reach the device.
pub forward_batch_refused :
    {V : Type 0} (dev : Device V) (vocab : ℕ) (st : dev.State) (seqs : List SeqForward) (e : Error)
    → check_batch seqs ≡ err e
    → forward_batch dev vocab st seqs ≡ (st, err e)
unfolding forward_batch
forward_batch_refused dev vocab st seqs e refused = rw (refused, forward_batch)

check_tokens_sound : (i : ℕ) (seqs : List SeqForward) → check_tokens i seqs ≢ panic
unfolding check_tokens
check_tokens_sound i [] e = cc
check_tokens_sound i (s ∷ seqs) e =
    if_cases (λ r. r ≢ panic) (length s.tokens == 0) _ _ (λ _ e. cc e)
      (λ _. check_tokens_sound (i + 1) seqs) e

check_batch_sound : (seqs : List SeqForward) → check_batch seqs ≢ panic
unfolding check_batch
check_batch_sound seqs =
    if_cases (λ r. r ≢ panic) (length seqs == 0 || ltb max_batch_seqs (length seqs)) _ _
      (λ _ e. cc e) (λ _. check_tokens_sound 0 seqs)

map_sound : {A B : Type 0} (m : Result A) (f : A → B) → (m >>= λ a. ok (f a)) ≡ panic → m ≡ panic
map_sound (ok a) f e = cc
map_sound (err x) f e = cc
map_sound panic f e = refl

-- `ForwardBatch` panics only where the device does, on a batch that the guards let through.
pub forward_batch_of_device :
    {V : Type 0} (dev : Device V) (vocab : ℕ) (st : dev.State) (seqs : List SeqForward)
    → (check_batch seqs ≡ ok tt → (dev.forward st seqs (length seqs * vocab)).1 ≢ panic)
    → (forward_batch dev vocab st seqs).1 ≢ panic
unfolding forward_batch
forward_batch_of_device {V} dev vocab st seqs runs =
    result_cases (λ (r : dev.State × Result (List (List V))). r.1 ≢ panic) (check_batch seqs) _ _ _
      (λ u guarded e. runs guarded (map_sound (dev.forward st seqs (length seqs * vocab)).1 _ e))
      (λ x _ e. cc e) (λ faulted. absurd (check_batch_sound seqs faulted))

-- What comes back has a row of the vocabulary's width for each sequence, if the device fills its
-- buffers.
pub forward_batch_shape :
    {V : Type 0} (dev : Device V) (vocab : ℕ) (st : dev.State) (seqs : List SeqForward)
    → OnOk
        (λ (buffer : List V). length buffer ≡ length seqs * vocab)
        (dev.forward st seqs (length seqs * vocab)).1
    → OnOk
        (λ (out : List (List V)). (length out ≡ length seqs) × All (λ row. length row ≡ vocab) out)
        (forward_batch dev vocab st seqs).1
unfolding forward_batch
forward_batch_shape {V} dev vocab st seqs filled =
    let Shaped =
      λ (out : List (List V)). (length out ≡ length seqs) × All (λ row. length row ≡ vocab) out in
    result_cases (λ (r : dev.State × Result (List (List V))). OnOk Shaped r.1) (check_batch seqs) _
      _ _
      (λ _ _. OnOk-equation Shaped (dev.forward st seqs (length seqs * vocab)).1 _ (λ buffer ran.
        let full : length buffer ≡ length seqs * vocab =
          subst (OnOk (λ (buffer : List V). length buffer ≡ length seqs * vocab)) ran filled in
        (
          length-rows (length seqs) 0 vocab buffer,
          rows-width (length seqs) 0 vocab buffer (omega (arith, full)),
        )))
      (λ _ _. tt) (λ _. tt)
