-- ===== src/Backend/Examples.antt =====
-- The properties of the batch descriptors at concrete inputs.
use kllm.Base.{
  ℕ, ◌*◌, ◌-◌, ◌≤◌, ◌<◌, ◌≡◌, ◌↔◌, refl, List, [], ◌∷◌, ◌++◌, map, length, take, drop, replicate,
  to_int32, All, ok,
}
use kllm.Samples.{zeros}
use kllm.Backend.{SeqForward, minus_one, max_batch_seqs, flatten_batch, check_batch, forward_batch}
use kllm.Backend.Flatten.{widest, padded, all_tokens, flatten_batch_lem, flatten_batch_row}
use kllm.Backend.Forward.{HasTokens, concat, check_batch_iff, forward_batch_rows}

abbrev two_seqs : List SeqForward
two_seqs =
    record { tokens = 5 ∷ 6 ∷ 7 ∷ []; pos = 0; block_table = 3 ∷ 1 ∷ [] }
    ∷ record { tokens = 9 ∷ []; pos = 2; block_table = 4 ∷ [] }
    ∷ []

flatten_batch_lem_example : flatten_batch two_seqs ≡ record {
  tokens = all_tokens two_seqs;
  n_tokens = map (λ s. to_int32 (length s.tokens)) two_seqs;
  pos = map (λ s. to_int32 s.pos) two_seqs;
  tables = padded (widest two_seqs) two_seqs;
  mbps = widest two_seqs;
}
flatten_batch_lem_example = flatten_batch_lem two_seqs

flatten_batch_row_example :
    let f = flatten_batch two_seqs in
    take f.mbps (drop (1 * f.mbps) f.tables) ≡ 4 ∷ [] ++ replicate (f.mbps - 1) minus_one
flatten_batch_row_example =
    flatten_batch_row two_seqs 1 (record { tokens = 9 ∷ []; pos = 2; block_table = 4 ∷ [] }) refl

check_batch_iff_example :
    (check_batch two_seqs ≡ ok tt) ↔ ((0 < 2) × (2 ≤ max_batch_seqs) × All HasTokens two_seqs)
check_batch_iff_example = check_batch_iff two_seqs

forward_batch_rows_example :
    (out : List (List ℕ)) × (forward_batch zeros 3 0 two_seqs ≡ (1, ok out))
    × (length out ≡ 2)
    × All (λ row. length row ≡ 3) out
    × (concat out ≡ replicate 6 0)
unfolding check_batch
forward_batch_rows_example = forward_batch_rows zeros 3 0 1 two_seqs (replicate 6 0) refl refl refl
