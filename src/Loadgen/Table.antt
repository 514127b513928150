-- ===== src/Loadgen/Table.antt =====
-- cmd/loadgen/main.go: what `runLevel` makes of the results of its requests. `sort.Slice` and
-- `int(float64(n) * q)` are parameters; the workers and the printing are left out.
mod Examples
use kllm.Base.{
  ℕ, zero, suc, ◌+◌, ◌-◌, ◌≤◌, ◌<◌, ◌≡◌, ◌≢◌, refl, sym, ap, ◌∙◌, List, [], ◌∷◌, ◌++◌, map, Option,
  none, some, arith, length, length-append, length-map, get_elem?, All, All-append, All-get_elem?,
  ℤ, pos, negsuc, Result, ok, err, panic, ◌>>=◌,
}
use mathlib.Core.List.{append-nil, append_assoc}
use kllm.Loadgen.{Tally}

-- The columns that come from the results.
pub record Level (D : Type 0) : Type 0 where
  pub tokens : ℕ
  pub ttft_half : D
  pub ttft_most : D
  pub total_most : D

-- What the loop over the results gathers.
pub record Gathered (D : Type 0) : Type 0 where
  pub ttfts : List D
  pub totals : List D
  pub tokens : ℕ

module _ {D : Type 0} where
  collect : List (Result (Tally D)) → Gathered D → Result (Gathered D)
  collect [] g = ok g
  collect (err e ∷ results) g = err e
  collect (panic ∷ results) g = panic
  collect (ok r ∷ results) g = collect results (record {
    ttfts = g.ttfts ++ r.ttft ∷ [];
    totals = g.totals ++ r.total ∷ [];
    tokens = g.tokens + r.tokens;
  })

module _ {D Q : Type 0} (sort : List D → List D) (scaled : ℤ → Q → ℤ) (half most : Q) where
  -- `p`: an index that is negative or behind the end panics.
  percentile : List D → Q → Result D
  percentile ds q = elim (scaled (elim ds [ [] ↦ negsuc 0 | _ ∷ rest ↦ pos (length rest) ]) q) [
    | negsuc _ ↦ panic
    | pos i ↦ elim (get_elem? ds i) [ none ↦ panic | some d ↦ ok d ]
  ]

  unfoldable pub run_level : List (Result (Tally D)) → Result (Level D)
  unfolding collect percentile
  run_level results = do
    g ← collect results (record { ttfts = []; totals = []; tokens = 0 })
    a ← percentile (sort g.ttfts) half
    b ← percentile (sort g.ttfts) most
    c ← percentile (sort g.totals) most
    ok (record { tokens = g.tokens; ttft_half = a; ttft_most = b; total_most = c })
