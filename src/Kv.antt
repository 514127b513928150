-- ===== src/Kv.antt =====
-- engine/kv/kv.go: the block allocator and the block table of one sequence.
--
-- A sequence's pointer to its allocator is an argument and a result of each method. The slice
-- `free` is a list whose head is the slice's back, where `alloc` takes and `release` puts blocks.
-- Lengths and sizes are `int`; block ids are `int32` bit patterns.
pub mod Faults
pub mod Growth
pub mod Blocks
pub mod Store
pub mod Sizes
mod Examples
use kllm.Base.{
  ℕ, zero, suc, ◌+◌, ◌-◌, ◌/◌, List, [], ◌∷◌, ◌++◌, reverse, Bool, true, false, length, ltb, ◌==◌,
  if◌then◌else◌, int_limit, to_int32, add_int, Result, ok, err, panic, out_of_blocks,
}

pub record Allocator : Type 0 where
  pub block_size : ℕ
  pub num_blocks : ℕ
  pub free : List ℕ

-- The loop `for i := range a.free`, with the rounds that are left.
fill_free : ℕ → ℕ → ℕ → List ℕ → List ℕ
fill_free zero n i free = free
fill_free (suc rounds) n i free = fill_free rounds n (i + 1) (to_int32 (n - 1 - i) ∷ free)

unfoldable pub new_allocator : ℕ → ℕ → Allocator
unfolding fill_free
new_allocator num_blocks block_size = record {
  block_size = block_size;
  num_blocks = num_blocks;
  free = fill_free num_blocks num_blocks 0 [];
}

pub free_blocks : Allocator → ℕ
free_blocks a = length a.free

pub alloc : Allocator → Result (ℕ × Allocator)
alloc a = elim a.free [
  | [] ↦ err (out_of_blocks a.num_blocks)
  | id ∷ rest ↦ ok (id, record a { free = rest })
]

unfoldable pub give_back : Allocator → List ℕ → Allocator
give_back a ids = record a { free = reverse ids ++ a.free }

pub record Sequence : Type 0 where
  pub table : List ℕ
  pub len : ℕ

abbrev pub new_sequence : Sequence
new_sequence = record { table = []; len = 0 }

-- What `Reserve` leaves: the allocator, the sequence, and the error it returns.
pub record Reservation : Type 0 where
  pub alloc : Allocator
  pub seq : Sequence
  pub result : Result (Unit {0})

-- `(s.Len + n + blockSize - 1) / blockSize`. A sum that wraps round to a negative `int` gives a
-- quotient of at most 0, for which the loop of `Reserve` makes no round.
unfoldable pub need_blocks : ℕ → ℕ → ℕ → ℕ
need_blocks len n block_size =
    let top : ℕ = add_int (add_int len n) (block_size - 1) in
    if ltb top int_limit then top / block_size else 0

-- The loop of `Reserve`. It ends by its test within `need` rounds.
grow : ℕ → ℕ → Allocator → Sequence → Reservation
unfolding alloc
grow zero need a s = record { alloc = a; seq = s; result = ok tt }
grow (suc fuel) need a s = elim (ltb (length s.table) need) [
  | false ↦ record { alloc = a; seq = s; result = ok tt }
  | true ↦ elim (alloc a) [
    | ok (id, a') ↦ grow fuel need a' (record s { table = s.table ++ id ∷ [] })
    | err e ↦ record { alloc = a; seq = s; result = err e }
    | panic ↦ record { alloc = a; seq = s; result = panic }
  ]
]

unfoldable pub reserve : Allocator → Sequence → ℕ → Reservation
unfolding grow need_blocks
reserve a s n =
    let need : ℕ = need_blocks s.len n a.block_size in
    if a.block_size == 0 then record { alloc = a; seq = s; result = panic } else grow need need a s

unfoldable pub commit : Sequence → ℕ → Sequence
commit s n = record s { len = add_int s.len n }

unfoldable pub release : Allocator → Sequence → Allocator × Sequence
unfolding give_back
release a s = (give_back a s.table, record { table = []; len = 0 })
