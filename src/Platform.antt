-- ===== src/Platform.antt =====
-- What the engine uses of Go's run time: `float64` and the clock. None of it is code of the
-- repository, so it is a parameter of the model.

use kllm.Base.{ℕ, Bool}

pub record Platform : Type 1 where
  -- `float64`
  pub Float : Type 0
  pub zero_f : Float
  -- `a + b`, `a * b`, `a / b`
  pub add_f : Float → Float → Float
  pub mul_f : Float → Float → Float
  pub div_f : Float → Float → Float
  -- `a > b`, `a <= b`, `a == b`
  pub gt_f : Float → Float → Bool
  pub le_f : Float → Float → Bool
  pub eq_f : Float → Float → Bool
  -- `float64(n)`, and the constant n / d
  pub of_nat : ℕ → Float
  pub ratio : ℕ → ℕ → Float
  -- `time.Time`, its zero value, and `now.Sub(t).Seconds()`
  pub Time : Type 0
  pub no_time : Time
  pub seconds : Time → Time → Float
