-- ===== src/Kv/Faults.antt =====
-- With a block size, no operation on a sequence panics or changes it.
use kllm.Base.{
  Bool, true, false, ℕ, zero, suc, ◌<◌, ◌==◌, ◌≡◌, ◌≢◌, refl, List, [], ◌∷◌, ◌++◌, arith, length,
  ltb, if_cases, ok, err, panic, out_of_blocks,
}
use kllm.Kv.{Allocator, Sequence, Reservation, alloc, grow, reserve, need_blocks}

-- The call did not panic, and left the block size as it was.
abbrev pub IsSafe : ℕ → Reservation → Type 0
IsSafe size r = (r.result ≢ panic) × (r.alloc.block_size ≡ size)

either_way :
    {A : Type 0} (P : A → Type 0) (b : Bool) (x y : A)
    → P x
    → P y
    → P (elim b [ false ↦ x | true ↦ y ])
either_way P false x y p q = p
either_way P true x y p q = q

grow-IsSafe :
    (fuel need size num : ℕ) (free : List ℕ) (s : Sequence)
    → IsSafe size (grow fuel need (record { block_size = size; num_blocks = num; free = free }) s)
unfolding grow alloc
grow-IsSafe zero need size num free s = (λ e. cc e, refl)
grow-IsSafe (suc fuel) need size num [] s =
    let a : Allocator = record { block_size = size; num_blocks = num; free = [] } in
    either_way (IsSafe size) (ltb (length s.table) need)
      (record { alloc = a; seq = s; result = ok tt })
      (record { alloc = a; seq = s; result = err (out_of_blocks num) }) (λ e. cc e, refl)
      (λ e. cc e, refl)
grow-IsSafe (suc fuel) need size num (id ∷ free) s =
    let a : Allocator = record { block_size = size; num_blocks = num; free = id ∷ free } in
    let s' : Sequence = record s { table = s.table ++ id ∷ [] } in
    either_way (IsSafe size) (ltb (length s.table) need)
      (record { alloc = a; seq = s; result = ok tt }) (grow fuel need (record a { free = free }) s')
      (λ e. cc e, refl) (grow-IsSafe fuel need size num free s')

pub reserve-IsSafe :
    (a : Allocator) (s : Sequence) (n : ℕ) → 0 < a.block_size → IsSafe a.block_size (reserve a s n)
unfolding reserve
reserve-IsSafe a s n some_size =
    if_cases (IsSafe a.block_size) (a.block_size == 0) _ _ (λ e. absurd (ground arith))
      (λ _.
        grow-IsSafe (need_blocks s.len n a.block_size) (need_blocks s.len n a.block_size)
          a.block_size a.num_blocks a.free s)
