-- ===== src/Oracle.antt =====
-- engine/oracle/oracle.go: `MaxAbsDiff`. `V` stands for `float32` and `F` for `float64`; the
-- infinity, the absolute difference and `>` are parameters.
pub mod Tolerance
pub mod Prompt
mod Examples
use kllm.Base.{ℕ, List, [], ◌∷◌, Bool, not, length, ◌==◌, if◌then◌else◌}

module _ {V F : Type 0} (zero_f inf : F) (gap : V → V → F) (gt : F → F → Bool) where
  -- The loop over the elements of two slices of one length, with the greatest difference so far.
  pub largest : F → List V → List V → F
  largest m [] ys = m
  largest m (_ ∷ _) [] = m
  largest m (x ∷ xs) (y ∷ ys) = largest (if gt (gap x y) m then gap x y else m) xs ys

  pub max_abs_diff : List V → List V → F
  unfolding largest
  max_abs_diff xs ys = if not (length xs == length ys) then inf else largest zero_f xs ys
