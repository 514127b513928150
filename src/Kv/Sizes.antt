-- ===== src/Kv/Sizes.antt =====
-- What the methods of kv.go keep: the size of a block, the length of a sequence while its table
-- grows, and the number of blocks.
use native.Mathlib.Decide.{dec_lt}
use kllm.Base.{
  ℕ, zero, suc, ◌+◌, ◌-◌, ◌<◌, ◌≤◌, max, ◌≡◌, ok, refl, List, ◌∷◌, reverse, arith, length,
  length-append, length-take, length-drop, take, to_int32, ap, [],
}
use mathlib.Core.List.{reverse-cons}
use kllm.Kv.{
  Allocator, Sequence, fill_free, new_allocator, need_blocks, reserve, release, give_back,
}
use kllm.Kv.Growth.{missing, reserve-eq-taken}
use kllm.Kv.Blocks.{reserve_panics}

pub record Keeps (a a' : Allocator) (s s' : Sequence) : Type 0 where
  pub size : a'.block_size ≡ a.block_size
  pub len : s'.len ≡ s.len
  pub number : length a'.free + length s'.table ≡ length a.free + length s.table

pub reserve-Keeps :
    (a : Allocator) (s : Sequence) (n : ℕ) → let r = reserve a s n in Keeps a r.alloc s r.seq
reserve-Keeps a s n = elim (dec_lt 0 a.block_size) [
  | yes h ↦ rw (reserve-eq-taken a s n h) (record {
    size = refl;
    len = refl;
    number = omega (
      arith,
      length-append s.table (take (missing a s n) a.free),
      length-take (missing a s n) a.free,
      length-drop (missing a s n) a.free,
    );
  })
  | no h ↦
      rw (reserve_panics a s n (omega arith)) (record { size = refl; len = refl; number = refl })
]

length-reverse : {A : Type 0} (xs : List A) → length (reverse xs) ≡ length xs
length-reverse [] = refl
length-reverse (x ∷ xs) =
    omega
      (arith, ap length (reverse-cons x xs), length-append (reverse xs) (x ∷ []), length-reverse xs)

pub length-release :
    (a : Allocator) (s : Sequence)
    → let (a', s') = release a s in
      length a'.free + length s'.table ≡ length a.free + length s.table
unfolding release give_back
length-release a s = omega (arith, length-append (reverse s.table) a.free, length-reverse s.table)

length-fill_free :
    (rounds n i : ℕ) (free : List ℕ) → length (fill_free rounds n i free) ≡ rounds + length free
unfolding fill_free
length-fill_free zero n i free = omega arith
length-fill_free (suc rounds) n i free =
    omega (arith, length-fill_free rounds n (i + 1) (to_int32 (n - 1 - i) ∷ free))

pub length-new_allocator : (n bs : ℕ) → length (new_allocator n bs).free ≡ n
unfolding new_allocator
length-new_allocator n bs = omega (arith, length-fill_free n n 0 [])

pub new_allocator-size : (n bs : ℕ) → (new_allocator n bs).block_size ≡ bs
unfolding new_allocator
new_allocator-size n bs = refl

-- With as many blocks as it takes, `Reserve` succeeds.
pub reserve-enough :
    (a : Allocator) (s : Sequence) (n : ℕ)
    → 0 < a.block_size
    → need_blocks s.len n a.block_size ≤ length a.free + length s.table
    → (reserve a s n).result ≡ ok tt
reserve-enough a s n some_size few = rw (reserve-eq-taken a s n some_size) (ground arith)

-- Whether it succeeds or not, the table gets no longer than it has to be.
pub reserve-few :
    (a : Allocator) (s : Sequence) (n : ℕ)
    → 0 < a.block_size
    → length (reserve a s n).seq.table ≤ max (length s.table) (need_blocks s.len n a.block_size)
reserve-few a s n some_size = rw (reserve-eq-taken a s n some_size) (
    omega (
      arith,
      length-append s.table (take (missing a s n) a.free),
      length-take (missing a s n) a.free,
    ))
