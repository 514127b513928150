-- ===== src/Engine/Examples.antt =====
-- The properties of the engine at concrete inputs.
use kllm.Base.{
  ltb, if◌then◌else◌, count, length, negsuc, ℕ, ◌+◌, ◌*◌, ◌≤◌, ◌≡◌, refl, ok, [], ◌∷◌, some,
  to_int32, arith,
}
use kllm.Samples.{greater, zeros}
use kllm.Kv.{new_allocator}
use kllm.Backend.Paged.Sample.{counting, remembering, remembering-Paged}
use kllm.Engine.Greedy.{greedy}
use kllm.Engine.Greedy.Feeding.{Alone}
use kllm.Engine.Greedy.Generating.{generate-greedy}
use kllm.Engine.Generation.{generate-count}
use kllm.Engine.{argmax, generate, is_eos}
use kllm.Engine.Sampling.{IsOrder, IsFirstMax, argmax-IsFirstMax}

greater-IsOrder : IsOrder greater
greater-IsOrder = record { asym = λ x y h. ground arith; above = λ x y z h g. ground arith }

argmax-IsFirstMax_example :
    (k : ℕ) × (argmax greater (3 ∷ 7 ∷ 7 ∷ 1 ∷ []) ≡ some (to_int32 k))
    × IsFirstMax greater (3 ∷ 7 ∷ 7 ∷ 1 ∷ []) k
argmax-IsFirstMax_example = argmax-IsFirstMax greater greater-IsOrder 3 (7 ∷ 7 ∷ 1 ∷ [])

-- Two blocks of two hold the prompt and one token: the second token's pass runs out of blocks.
generate-count_example :
    let (_, a', g) = generate greater zeros 2 (negsuc 0) 0 (new_allocator 2 2) (5 ∷ 6 ∷ 7 ∷ []) 9 in
    (count 1 a'.free ≡ count 1 (new_allocator 2 2).free) × (length g.out ≤ 9)
generate-count_example =
    generate-count greater zeros 2 1 (negsuc 0) 0 (new_allocator 2 2) (5 ∷ 6 ∷ 7 ∷ []) 9

-- Four blocks of two hold a prompt of three tokens and three more.
unused-Alone :
    let a = new_allocator 4 2 in
    Alone (remembering counting 2) 2 6 a.num_blocks (length a.free) a.block_size counting
unfolding new_allocator
unused-Alone = record {
  paged = remembering-Paged counting 2;
  answering = record {
    Ready = λ _. Unit;
    answers_one = λ st sf ready taken. (_, refl);
    stays = λ st sf ready taken. tt;
  };
  wide = λ context. refl;
  some_size = omega arith;
  small = omega arith;
}

-- A block below `cache` may stand there once, another not at all.
abbrev owned_once : ℕ → ℕ → ℕ
owned_once x cache = if ltb x cache then 1 else 0

unused_once :
    (x : ℕ) → count x (new_allocator 4 2).free ≤ owned_once x (new_allocator 4 2).num_blocks
unfolding new_allocator
unused_once x = ground arith

unused_room : 3 + 3 ≤ length (new_allocator 4 2).free * (new_allocator 4 2).block_size
unfolding new_allocator
unused_room = omega arith

generate-greedy_example :
    let (_, _, g) =
      generate greater
        (remembering counting 2)
        2
        (negsuc 0)
        (λ _. [])
        (new_allocator 4 2)
        (5 ∷ 6 ∷ 7 ∷ [])
        3 in
    (g.result ≡ ok tt) × (g.out ≡ greedy greater (negsuc 0) counting 3 (5 ∷ 6 ∷ 7 ∷ []))
unfolding unused-Alone
generate-greedy_example =
    generate-greedy greater (remembering counting 2) 2 (negsuc 0) (λ _. []) (new_allocator 4 2)
      (5 ∷ 6 ∷ 7 ∷ []) 3 unused-Alone tt (omega arith) unused_once (omega arith) unused_room
      (omega arith)

greedy_run : greedy greater (negsuc 0) counting 3 (5 ∷ 6 ∷ 7 ∷ []) ≡ 1 ∷ 0 ∷ 0 ∷ []
unfolding greedy argmax is_eos
greedy_run = refl
