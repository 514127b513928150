-- ===== src/Kv/Growth.antt =====
-- What the loop of `Reserve` does, in closed form.
use native.Mathlib.Decide.{dec_le}
use native.Mathlib.Nat.{div-add-mod, mod-lt}
use kllm.Base.{
  int_limit, ◌*◌, ◌/◌, sym, ◌∙◌, ◌<◌, ℕ, zero, suc, ◌+◌, ◌-◌, ◌≤◌, ◌≡◌, refl, List, [], ◌∷◌, ◌++◌,
  arith, length, length-append, take, drop, leb, if◌then◌else◌, ok, err, out_of_blocks,
}
use mathlib.Core.List.{append-nil, append_assoc}
use kllm.Kv.{Allocator, Sequence, Reservation, grow, need_blocks, reserve}

-- `k` blocks off the back of the free list; where it has fewer, all of them and an error.
abbrev pub taken : ℕ → Allocator → Sequence → Reservation
taken k a s = record {
  alloc = record a { free = drop k a.free };
  seq = record s { table = s.table ++ take k a.free };
  result = if leb k (length a.free) then ok tt else err (out_of_blocks a.num_blocks);
}

grow_none :
    (fuel need : ℕ) (a : Allocator) (s : Sequence)
    → need ≤ length s.table
    → grow fuel need a s ≡ record { alloc = a; seq = s; result = ok tt }
unfolding grow
grow_none zero need a s h = refl
grow_none (suc fuel) need a s h = ground arith

taken_zero :
    (a : Allocator) (s : Sequence) → taken 0 a s ≡ record { alloc = a; seq = s; result = ok tt }
taken_zero a s = rw append-nil (ground arith)

grow_from :
    (k fuel need bs nb : ℕ) (free table : List ℕ) (len : ℕ)
    → length table + k ≡ need
    → k ≤ fuel
    → let a : Allocator = record { block_size = bs; num_blocks = nb; free = free } in
      let s : Sequence = record { table = table; len = len } in grow fuel need a s ≡ taken k a s
unfolding grow
grow_from zero fuel need bs nb free table len e h =
    grow_none fuel need _ _ (omega arith) ∙ sym (taken_zero _ _)
grow_from (suc k) zero need bs nb free table len e h = absurd (omega arith)
grow_from (suc k) (suc fuel) need bs nb [] table len e h = ground (arith, append-nil table)
grow_from (suc k) (suc fuel) need bs nb (x ∷ free) table len e h = ground (
  arith,
  grow_from k fuel need bs nb free (table ++ x ∷ []) len,
  length-append table (x ∷ []),
  append_assoc table (x ∷ []) (take k free),
)

grow-eq-taken :
    (need : ℕ) (a : Allocator) (s : Sequence)
    → grow need need a s ≡ taken (need - length s.table) a s
grow-eq-taken need a s = elim (dec_le (length s.table) need) [
  | yes h ↦
      grow_from (need - length s.table) need need a.block_size a.num_blocks a.free s.table s.len
        (omega arith) (omega arith)
  | no h ↦
      let e : need - length s.table ≡ 0 = omega arith in
      rw e (grow_none need need a s (omega arith) ∙ sym (taken_zero a s))
]

-- The blocks that `Reserve` has still to find.
abbrev pub missing : Allocator → Sequence → ℕ → ℕ
missing a s n = need_blocks s.len n a.block_size - length s.table

-- `Reserve` takes exactly the missing blocks.
pub reserve-eq-taken :
    (a : Allocator) (s : Sequence) (n : ℕ)
    → 0 < a.block_size
    → reserve a s n ≡ taken (missing a s n) a s
unfolding reserve
reserve-eq-taken a s n h = ground (arith, grow-eq-taken (need_blocks s.len n a.block_size) a s)

need_blocks-eq-div :
    (len n bs : ℕ)
    → 0 < bs
    → len + n + bs ≤ int_limit
    → need_blocks len n bs ≡ (len + n + (bs - 1)) / bs
unfolding need_blocks
need_blocks-eq-div len n bs h f = ground arith

-- Without overflow the quotient is the least number of blocks that hold the tokens.
pub need_blocks_ceil :
    (len n bs : ℕ)
    → 0 < bs
    → len + n + bs ≤ int_limit
    → (len + n ≤ need_blocks len n bs * bs) × (need_blocks len n bs * bs < len + n + bs)
need_blocks_ceil len n bs h f =
    rw (need_blocks-eq-div len n bs h f) (grind (arith, div-add-mod, mod-lt))
