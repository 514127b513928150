-- ===== src/Metrics/Examples.antt =====
-- The properties of the instruments at concrete inputs.
use kllm.Base.{◌≡◌, [], ◌∷◌}
use kllm.Samples.{naturals}
use kllm.Metrics.{
  new_histogram, hist_lines, histogram_header, bucket_line, infinity_line, sum_count_line,
}
use kllm.Metrics.Buckets.{observe_all, bounded_lines, observed_lines}

observed_lines_example :
    hist_lines naturals "sizes"
      (observe_all naturals (new_histogram naturals (1 ∷ 2 ∷ 4 ∷ [])) (3 ∷ 1 ∷ 9 ∷ []))
    ≡ histogram_header "sizes"
      ∷ bucket_line "sizes" 1 1
      ∷ bucket_line "sizes" 2 1
      ∷ bucket_line "sizes" 4 2
      ∷ infinity_line "sizes" 3
      ∷ sum_count_line "sizes" 13 3
      ∷ []
unfolding bounded_lines
observed_lines_example = observed_lines naturals "sizes" (1 ∷ 2 ∷ 4 ∷ []) (3 ∷ 1 ∷ 9 ∷ [])
