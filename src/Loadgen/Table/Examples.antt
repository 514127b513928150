-- ===== src/Loadgen/Table/Examples.antt =====
-- A level of two requests whose durations come in order, and one of no requests.
use kllm.Base.{ℕ, ◌*◌, ◌/◌, ◌≡◌, refl, List, [], ◌∷◌, map, ok, panic, pos, negsuc, ℤ}
use kllm.Loadgen.{Tally}
use kllm.Loadgen.Table.{run_level}

-- A quantile in hundredths; `int` of -0.5 is 0.
abbrev hundredths : ℤ → ℕ → ℤ
hundredths (pos n) q = pos (n * q / 100)
hundredths (negsuc n) q = pos 0

abbrev in_order : List ℕ → List ℕ
in_order ds = ds

-- The sum of the tokens; the first of the two durations is the half, and 99 hundredths of 1 is 0.
abbrev quick : Tally ℕ
quick = record { tokens = 3; ttft = 5; total = 9 }

abbrev slow : Tally ℕ
slow = record { tokens = 4; ttft = 7; total = 30 }

two_requests :
    run_level in_order hundredths 50 99 (map ok (quick ∷ slow ∷ []))
    ≡ ok (record { tokens = 7; ttft_half = 5; ttft_most = 5; total_most = 9 })
unfolding run_level
two_requests = refl

-- With no request the first percentile is out of range.
no_requests : run_level in_order hundredths 50 99 [] ≡ panic
unfolding run_level
no_requests = refl
