-- ===== src/Engine/Greedy.antt =====
-- What greedy decoding over a model promises, without caches, batches or blocks: each token is the
-- argmax of the logits after everything before it, up to the end token or the limit.

pub mod Feeding
pub mod Generating
use kllm.Base.{ℕ, zero, suc, ◌≡◌, refl, List, [], ◌∷◌, ◌++◌, Bool, some, none, if◌then◌else◌, ℤ}
use kllm.Engine.{argmax, is_eos}

module _ {V : Type 0} (gt : V → V → Bool) (eos : ℤ) (model : List ℕ → List V) where
  -- At most so many tokens after a context.
  unfoldable pub greedy : ℕ → List ℕ → List ℕ
  greedy zero context = []
  greedy (suc n) context = elim (argmax gt (model context)) [
    | none ↦ []
    | some tok ↦
        let rest = greedy n (context ++ tok ∷ []) in tok ∷ (if is_eos eos tok then [] else rest)
  ]

  pub greedy-some :
      (n tok : ℕ) (context : List ℕ)
      → argmax gt (model context) ≡ some tok
      → greedy (suc n) context
        ≡ tok ∷ (if is_eos eos tok then [] else greedy n (context ++ tok ∷ []))
  unfolding greedy
  greedy-some n tok context e = rw (greedy, e) refl
