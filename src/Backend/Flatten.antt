-- ===== src/Backend/Flatten.antt =====
-- What `flattenBatch` hands to the C library.
use mathlib.Core.List.{append-nil, append_assoc}
use kllm.Base.{
  ℕ, zero, suc, ◌+◌, ◌*◌, ◌-◌, ◌≤◌, max, ◌≡◌, refl, sym, List, [], ◌∷◌, ◌++◌, map, some, arith,
  length, length-append, length-replicate, take, drop, replicate, get_elem?, to_int32,
}
use kllm.Backend.{SeqForward, minus_one, copy, copy_at, gather, fill_tables, flatten_batch}
use kllm.Backend.Rows.{drop-append-past, take-length-append, drop-length-append, replicate-add}

copy-padding :
    (k v : ℕ) (src rest : List ℕ)
    → length src ≤ k
    → copy (replicate k v ++ rest) src ≡ src ++ replicate (k - length src) v ++ rest
unfolding copy
copy-padding zero v [] [] h = refl
copy-padding zero v [] (r ∷ rest) h = refl
copy-padding zero v (s ∷ src) rest h = absurd (omega arith)
copy-padding (suc k) v [] rest h = ground arith
copy-padding (suc k) v (s ∷ src) rest h = ground (arith, copy-padding k v src rest)

-- The tokens of a batch, one sequence after the other.
abbrev pub all_tokens : List SeqForward → List ℕ
all_tokens [] = []
all_tokens (s ∷ seqs) = s.tokens ++ all_tokens seqs

-- The length of the longest block table.
abbrev pub widest : List SeqForward → ℕ
widest [] = 0
widest (s ∷ seqs) = max (length s.block_table) (widest seqs)

abbrev pub pad : ℕ → List ℕ → List ℕ
pad width table = table ++ replicate (width - length table) minus_one

abbrev pub padded : ℕ → List SeqForward → List ℕ
padded width [] = []
padded width (s ∷ seqs) = pad width s.block_table ++ padded width seqs

abbrev Fit : ℕ → List SeqForward → Type 0
Fit width [] = Unit {0}
Fit width (s ∷ seqs) = (length s.block_table ≤ width) × Fit width seqs

gather-eq :
    (ts ns ps tables : List ℕ) (m : ℕ) (seqs : List SeqForward)
    → gather (record { tokens = ts; n_tokens = ns; pos = ps; tables = tables; mbps = m }) seqs
      ≡ record {
        tokens = ts ++ all_tokens seqs;
        n_tokens = ns ++ map (λ s. to_int32 (length s.tokens)) seqs;
        pos = ps ++ map (λ s. to_int32 s.pos) seqs;
        tables = tables;
        mbps = max m (widest seqs);
      }
unfolding gather
gather-eq ts ns ps tables m [] = ground (arith, append-nil ts, append-nil ns, append-nil ps)
gather-eq ts ns ps tables m (s ∷ seqs) = ground (
  arith,
  gather-eq (ts ++ s.tokens) (ns ++ to_int32 (length s.tokens) ∷ []) (ps ++ to_int32 s.pos ∷ [])
      tables (max m (length s.block_table)) seqs,
  append_assoc ts s.tokens (all_tokens seqs),
  append_assoc ns (to_int32 (length s.tokens) ∷ [])
      (map (λ (r : SeqForward). to_int32 (length r.tokens)) seqs),
  append_assoc ps (to_int32 s.pos ∷ []) (map (λ (r : SeqForward). to_int32 r.pos) seqs),
)

Fit-mono : (m n : ℕ) (seqs : List SeqForward) → m ≤ n → Fit m seqs → Fit n seqs
Fit-mono m n [] h f = tt
Fit-mono m n (s ∷ seqs) h f = (omega arith, Fit-mono m n seqs h f.1)

widest-Fit : (seqs : List SeqForward) → Fit (widest seqs) seqs
widest-Fit [] = tt
widest-Fit (s ∷ seqs) =
    (omega arith, Fit-mono (widest seqs) (widest (s ∷ seqs)) seqs (omega arith) (widest-Fit seqs))

length-pad : (m : ℕ) (table : List ℕ) → length table ≤ m → length (pad m table) ≡ m
length-pad m table h = omega (
  arith,
  length-append table (replicate (m - length table) minus_one),
  length-replicate (m - length table) minus_one,
)

copy_at-row :
    (i m v rest : ℕ) (front table : List ℕ)
    → length front ≡ i * m
    → length table ≤ m
    → copy_at (i * m) table (front ++ replicate (m + rest) v)
      ≡ front ++ (table ++ replicate (m - length table) v) ++ replicate rest v
unfolding copy_at
copy_at-row i m v rest front table e h =
    rw
      (
        take-length-append (i * m) front (replicate (m + rest) v) e,
        drop-length-append (i * m) front (replicate (m + rest) v) e,
        ← replicate-add m rest (m + rest) v refl,
        copy-padding m v table (replicate rest v) h,
      )
      (sym (append_assoc front (table ++ replicate (m - length table) v) (replicate rest v)))

fill_tables-eq :
    (i m : ℕ) (seqs : List SeqForward) (front : List ℕ)
    → length front ≡ i * m
    → Fit m seqs
    → fill_tables i m seqs (front ++ replicate (length seqs * m) minus_one) ≡ front ++ padded m seqs
unfolding fill_tables
fill_tables-eq i m [] front e f = let none_left : 0 * m ≡ 0 = omega arith in rw none_left
fill_tables-eq i m (s ∷ seqs) front e f =
    let step : suc (length seqs) * m ≡ m + length seqs * m = omega arith in
    rw
      (
        step,
        copy_at-row i m minus_one (length seqs * m) front s.block_table e f.0,
        fill_tables-eq (i + 1) m seqs (front ++ pad m s.block_table)
            (omega
              (arith, length-append front (pad m s.block_table), length-pad m s.block_table f.0))
            f.1,
      )
      (append_assoc front (pad m s.block_table) (padded m seqs))

-- The arrays hold the tokens of the sequences one after the other, their numbers and positions in
-- order, and one row for each block table, as wide as the longest and padded with -1.
pub flatten_batch_lem :
    (seqs : List SeqForward)
    → flatten_batch seqs ≡ record {
      tokens = all_tokens seqs;
      n_tokens = map (λ s. to_int32 (length s.tokens)) seqs;
      pos = map (λ s. to_int32 s.pos) seqs;
      tables = padded (widest seqs) seqs;
      mbps = widest seqs;
    }
unfolding flatten_batch
flatten_batch_lem seqs =
    let from_zero : max 0 (widest seqs) ≡ widest seqs = omega arith in
    rw (
      gather-eq [] [] [] [] 0 seqs,
      from_zero,
      fill_tables-eq 0 (widest seqs) seqs [] (omega arith) (widest-Fit seqs),
    )

padded-row :
    (m i : ℕ) (seqs : List SeqForward) (s : SeqForward)
    → Fit m seqs
    → get_elem? seqs i ≡ some s
    → take m (drop (i * m) (padded m seqs)) ≡ pad m s.block_table
padded-row m i [] s f e = cc
padded-row m zero (t ∷ seqs) s f e =
    let same : t ≡ s = ground arith in
    let start : 0 * m ≡ 0 = omega arith in
    rw (start, ← same)
      (take-length-append m (pad m t.block_table) (padded m seqs) (length-pad m t.block_table f.0))
padded-row m (suc i) (t ∷ seqs) s f e =
    rw
      (drop-append-past m (i * m) (suc i * m) (pad m t.block_table) (padded m seqs)
        (length-pad m t.block_table f.0) (omega arith))
      (padded-row m i seqs s f.1 e)

-- Row `i` of `tables` is the block table of sequence `i`, then -1.
pub flatten_batch_row :
    (seqs : List SeqForward) (i : ℕ) (s : SeqForward)
    → get_elem? seqs i ≡ some s
    → let f = flatten_batch seqs in
      take f.mbps (drop (i * f.mbps) f.tables)
      ≡ s.block_table ++ replicate (f.mbps - length s.block_table) minus_one
flatten_batch_row seqs i s e =
    rw (flatten_batch_lem seqs) (padded-row (widest seqs) i seqs s (widest-Fit seqs) e)
