-- ===== src/Backend/Rows.antt =====
-- Lists cut into rows of one width.
use kllm.Base.{
  ℕ, zero, suc, ◌+◌, ◌≡◌, refl, ap, List, [], ◌∷◌, ◌++◌, arith, length, take, drop, replicate,
}

module _ {ℓ} {A : Type ℓ} where
  pub take-length-append : (n : ℕ) (xs ys : List A) → length xs ≡ n → take n (xs ++ ys) ≡ xs
  take-length-append zero [] ys e = refl
  take-length-append (suc n) [] ys e = absurd (omega arith)
  take-length-append zero (x ∷ xs) ys e = absurd (omega arith)
  take-length-append (suc n) (x ∷ xs) ys e = ap (◌∷◌ x) (take-length-append n xs ys (omega arith))

  pub drop-length-append : (n : ℕ) (xs ys : List A) → length xs ≡ n → drop n (xs ++ ys) ≡ ys
  drop-length-append zero [] ys e = refl
  drop-length-append (suc n) [] ys e = absurd (omega arith)
  drop-length-append zero (x ∷ xs) ys e = absurd (omega arith)
  drop-length-append (suc n) (x ∷ xs) ys e = drop-length-append n xs ys (omega arith)

  pub drop-append-past :
      (n k j : ℕ) (xs ys : List A) → length xs ≡ n → n + k ≡ j → drop j (xs ++ ys) ≡ drop k ys
  drop-append-past zero k j [] ys e h = ap (λ i. drop i ys) (omega arith)
  drop-append-past (suc n) k j [] ys e h = absurd (omega arith)
  drop-append-past zero k j (x ∷ xs) ys e h = absurd (omega arith)
  drop-append-past (suc n) k zero (x ∷ xs) ys e h = absurd (omega arith)
  drop-append-past (suc n) k (suc j) (x ∷ xs) ys e h =
      drop-append-past n k j xs ys (omega arith) (omega arith)

  pub replicate-add :
      (m n k : ℕ) (a : A) → m + n ≡ k → replicate m a ++ replicate n a ≡ replicate k a
  replicate-add zero n k a e = ap (λ j. replicate j a) (omega arith)
  replicate-add (suc m) n zero a e = absurd (omega arith)
  replicate-add (suc m) n (suc k) a e = ap (◌∷◌ a) (replicate-add m n k a (omega arith))
