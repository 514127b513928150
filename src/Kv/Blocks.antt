-- ===== src/Kv/Blocks.antt =====
-- Where the blocks are, before and after each method of kv.go.
use native.Mathlib.Decide.{dec_lt}
use kllm.Base.{
  ℕ, zero, suc, ◌+◌, ◌-◌, ◌*◌, ◌≤◌, ◌<◌, max, ◌≡◌, refl, List, [], ◌∷◌, ◌++◌, reverse, arith,
  length, length-append, length-take, take, drop, count, count-append, count-reverse,
  count-take-drop, ltb, if◌then◌else◌, ok, panic, int_limit, int32_mod, to_int32,
}
use kllm.Kv.{
  Allocator, Sequence, fill_free, new_allocator, need_blocks, reserve, release, give_back,
}
use kllm.Kv.Growth.{taken, missing, reserve-eq-taken, need_blocks_ceil}

-- With no block size the division of `Reserve` panics before anything changes.
pub reserve_panics :
    (a : Allocator) (s : Sequence) (n : ℕ)
    → a.block_size ≡ 0
    → reserve a s n ≡ record { alloc = a; seq = s; result = panic }
unfolding reserve
reserve_panics a s n h = ground arith

-- `Reserve` moves blocks from the free list to the table and neither loses nor makes up any,
-- whether it succeeds or fails.
pub count-reserve :
    (x : ℕ) (a : Allocator) (s : Sequence) (n : ℕ)
    → let r = reserve a s n in
      count x r.alloc.free + count x r.seq.table ≡ count x a.free + count x s.table
count-reserve x a s n = elim (dec_lt 0 a.block_size) [
  | yes h ↦ rw (reserve-eq-taken a s n h) (
      omega (
        arith,
        count-append x s.table (take (missing a s n) a.free),
        count-take-drop x (missing a s n) a.free,
      ))
  | no h ↦ rw (reserve_panics a s n (omega arith)) refl
]

taken_ok : (k : ℕ) (a : Allocator) (s : Sequence) → (taken k a s).result ≡ ok tt → k ≤ length a.free
taken_ok k a s e = ground arith

length-grown :
    (k : ℕ) (a : Allocator) (s : Sequence)
    → k ≤ length a.free
    → length (s.table ++ take k a.free) ≡ length s.table + k
length-grown k a s h = omega (arith, length-append s.table (take k a.free), length-take k a.free)

reserve_covers_pos :
    (a : Allocator) (s : Sequence) (n : ℕ)
    → 0 < a.block_size
    → s.len + n + a.block_size ≤ int_limit
    → (reserve a s n).result ≡ ok tt
    → let s' = (reserve a s n).seq in
      (s.len + n ≤ length s'.table * a.block_size)
      × (length s'.table ≡ max (length s.table) (need_blocks s.len n a.block_size))
      × (s'.table ≡ s.table ++ take (missing a s n) a.free)
      × (s'.len ≡ s.len)
      × ((reserve a s n).alloc ≡ record a { free = drop (missing a s n) a.free })
reserve_covers_pos a s n h f e =
    let enough = taken_ok (missing a s n) a s (rw (reserve-eq-taken a s n h) at e) in
    let size = length-grown (missing a s n) a s enough in
    rw (reserve-eq-taken a s n h) (
      grind (arith, need_blocks_ceil s.len n a.block_size h f, size),
      omega (arith, size),
      refl,
      refl,
      refl,
    )

-- After a `Reserve` that succeeds, the table covers the tokens, it has grown at its end by the blocks
-- that were missing and no more, those blocks have left the front of the free list, and the length
-- and the rest of the allocator are unchanged. The condition: the length, the new tokens and a block
-- size together do not overflow an `int`.
pub reserve_covers :
    (a : Allocator) (s : Sequence) (n : ℕ)
    → s.len + n + a.block_size ≤ int_limit
    → (reserve a s n).result ≡ ok tt
    → let s' = (reserve a s n).seq in
      (s.len + n ≤ length s'.table * a.block_size)
      × (length s'.table ≡ max (length s.table) (need_blocks s.len n a.block_size))
      × (s'.table ≡ s.table ++ take (missing a s n) a.free)
      × (s'.len ≡ s.len)
      × ((reserve a s n).alloc ≡ record a { free = drop (missing a s n) a.free })
reserve_covers a s n f e = elim (dec_lt 0 a.block_size) [
  | yes h ↦ reserve_covers_pos a s n h f e
  | no h ↦ absurd (ground (arith, reserve_panics a s n))
]

-- `Release` puts every block of the table on the free list.
pub count-release :
    (x : ℕ) (a : Allocator) (s : Sequence)
    → count x (release a s).0.free ≡ count x a.free + count x s.table
unfolding release give_back
count-release x a s =
    omega (arith, count-append x (reverse s.table) a.free, count-reverse x s.table)

pub count-released : (x : ℕ) (a : Allocator) (s : Sequence) → count x (release a s).1.table ≡ 0
unfolding release
count-released x a s = refl

count-fill_free :
    (x rounds n i : ℕ) (free : List ℕ)
    → i + rounds ≡ n
    → n ≤ int32_mod
    → count x (fill_free rounds n i free) ≡ (if ltb x rounds then 1 else 0) + count x free
unfolding fill_free
count-fill_free x zero n i free e h = ground arith
count-fill_free x (suc rounds) n i free e h =
    ground (arith, count-fill_free x rounds n (i + 1) (to_int32 (n - 1 - i) ∷ free))

-- A new allocator has each id below the number of blocks once, and no other.
pub count-new_allocator :
    (x n bs : ℕ) → n ≤ int32_mod → count x (new_allocator n bs).free ≡ (if ltb x n then 1 else 0)
unfolding new_allocator
count-new_allocator x n bs h = omega (arith, count-fill_free x n n 0 [] (omega arith) h)
