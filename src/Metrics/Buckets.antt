-- ===== src/Metrics/Buckets.antt =====
-- A histogram's buckets: what `Observe` counts and what the Prometheus text shows of it.
use Prim.Native.String.{String}
use kllm.Base.{
  ℕ, zero, suc, ◌+◌, ◌≤◌, ◌<◌, ◌≡◌, refl, ap, ◌∙◌, List, [], ◌∷◌, ◌++◌, length, length-replicate,
  replicate, add_int, int_mod, ◌%◌, subst, arith, sym, Bool, true, false, if◌then◌else◌, if_cases,
}
use mathlib.Core.List.{append_assoc, append-nil}
use kllm.Platform.{Platform}
use kllm.Metrics.{
  Histogram, Line, histogram_header, bucket_line, infinity_line, sum_count_line, inc, bump, bucket,
  new_histogram, observe, bucket_lines, hist_lines,
}

-- The cumulative count after the last bucket.
abbrev cumulated : ℕ → List ℕ → ℕ
cumulated cum [] = cum
cumulated cum (c ∷ cs) = cumulated (add_int cum c) cs

add_int-right : (x c : ℕ) → add_int (add_int x 1) c ≡ add_int (add_int x c) 1
add_int-right x c = omega arith

add_int-inc : (x c : ℕ) → add_int x (inc c) ≡ add_int (add_int x c) 1
add_int-inc x c = omega arith

cumulated-add : (x : ℕ) (cs : List ℕ) → cumulated (add_int x 1) cs ≡ add_int (cumulated x cs) 1
cumulated-add x [] = refl
cumulated-add x (c ∷ cs) =
    ap (λ y. cumulated y cs) (add_int-right x c) ∙ cumulated-add (add_int x c) cs

cumulated-bump :
    (i x : ℕ) (cs : List ℕ) → i < length cs → cumulated x (bump i cs) ≡ add_int (cumulated x cs) 1
unfolding bump
cumulated-bump i x [] h = absurd (omega arith)
cumulated-bump zero x (c ∷ cs) h =
    ap (λ y. cumulated y cs) (add_int-inc x c) ∙ cumulated-add (add_int x c) cs
cumulated-bump (suc i) x (c ∷ cs) h = cumulated-bump i (add_int x c) cs (omega arith)

length-bump : (i : ℕ) (cs : List ℕ) → length (bump i cs) ≡ length cs
unfolding bump
length-bump i [] = refl
length-bump zero (c ∷ cs) = refl
length-bump (suc i) (c ∷ cs) = ap suc (length-bump i cs)

module _ (p : Platform) where
  open p use {Float, gt_f, add_f}

  bucket_le : (v : Float) (bounds : List Float) → bucket p v bounds ≤ length bounds
  unfolding bucket
  bucket_le v [] = omega arith
  bucket_le v (b ∷ bounds) = let le = bucket_le v bounds in ground arith

  -- There is a bucket for each bound and one more, and they sum up to the number of observations.
  pub record IsCounted (h : Histogram Float) : Type 0 where
    pub buckets : length h.counts ≡ length h.bounds + 1
    pub counted : cumulated 0 h.counts ≡ h.total

  cumulated-replicate : (n : ℕ) → cumulated 0 (replicate n 0) ≡ 0
  cumulated-replicate zero = refl
  cumulated-replicate (suc n) = cumulated-replicate n

  new_histogram-IsCounted : (bounds : List Float) → IsCounted (new_histogram p bounds)
  unfolding new_histogram
  new_histogram-IsCounted bounds = record {
    buckets = length-replicate (length bounds + 1) 0;
    counted = cumulated-replicate (length bounds + 1);
  }

  observe-IsCounted : (h : Histogram Float) (v : Float) → IsCounted h → IsCounted (observe p h v)
  unfolding observe
  observe-IsCounted h v k =
      let le = bucket_le v h.bounds in
      record {
        buckets = length-bump (bucket p v h.bounds) h.counts ∙ k.buckets;
        counted =
            cumulated-bump (bucket p v h.bounds) 0 h.counts (rw k.buckets (omega arith))
            ∙ ap (λ n. add_int n 1) k.counted;
      }

  abbrev pub observe_all : Histogram Float → List Float → Histogram Float
  observe_all h [] = h
  observe_all h (v ∷ vs) = observe_all (observe p h v) vs

  observe_all-IsCounted :
      (h : Histogram Float) (vs : List Float) → IsCounted h → IsCounted (observe_all h vs)
  observe_all-IsCounted h [] k = k
  observe_all-IsCounted h (v ∷ vs) k =
      observe_all-IsCounted (observe p h v) vs (observe-IsCounted h v k)

  -- A value that at least one of these bounds is not below.
  abbrev fits : Float → List Float → Bool
  fits v [] = false
  fits v (b ∷ bounds) = if gt_f v b then fits v bounds else true

  fits-append :
      (v b : Float) (bounds : List Float)
      → fits v (bounds ++ b ∷ [])
        ≡ (if fits v bounds then true else (if gt_f v b then false else true))
  fits-append v b [] = refl
  fits-append v b (a ∷ bounds) = let rest = fits-append v b bounds in ground arith

  -- How many of these values lie within a bound of the list.
  abbrev pub number : List Float → List Float → ℕ
  number bounds [] = 0
  number bounds (v ∷ vs) = (if fits v bounds then 1 else 0) + number bounds vs

  number-append :
      (bounds : List Float) (vs : List Float) (v : Float)
      → number bounds (vs ++ v ∷ []) ≡ number bounds vs + (if fits v bounds then 1 else 0)
  number-append bounds [] v = omega arith
  number-append bounds (w ∷ vs) v = omega (arith, number-append bounds vs v)

  -- From the bounds `back` on, behind `front`: the count up to each of them is the number of the values
  -- within it or a bound before it.
  IsTallied : List Float → ℕ → List ℕ → List Float → List Float → Type 0
  IsTallied vs cum counts front [] = Unit
  IsTallied vs cum [] front (b ∷ back) = Unit
  IsTallied vs cum (c ∷ counts) front (b ∷ back) =
      (add_int cum c ≡ number (front ++ b ∷ []) vs % int_mod)
      × IsTallied vs (add_int cum c) counts (front ++ b ∷ []) back

  -- A value within a bound of `front` counts at each bound behind it.
  later-IsTallied :
      (v : Float) (vs : List Float) (cum : ℕ) (counts : List ℕ) (front back : List Float)
      → fits v front ≡ true
      → IsTallied vs cum counts front back
      → IsTallied (vs ++ v ∷ []) (add_int cum 1) counts front back
  unfolding IsTallied
  later-IsTallied v vs cum counts front [] within h = tt
  later-IsTallied v vs cum [] front (b ∷ back) within h = tt
  later-IsTallied v vs cum (c ∷ counts) front (b ∷ back) within h =
      let within' : fits v (front ++ b ∷ []) ≡ true =
        fits-append v b front
        ∙ ap (λ t. if t then true else (if gt_f v b then false else true)) within in
      let more : number (front ++ b ∷ []) (vs ++ v ∷ []) ≡ number (front ++ b ∷ []) vs + 1 =
        number-append (front ++ b ∷ []) vs v
        ∙ ap (λ t. number (front ++ b ∷ []) vs + (if t then 1 else 0)) within' in
      (
        omega (arith, h.0, more),
        subst (λ k. IsTallied (vs ++ v ∷ []) k counts (front ++ b ∷ []) back)
            (sym (add_int-right cum c))
            (later-IsTallied v vs (add_int cum c) counts (front ++ b ∷ []) back within' h.1),
      )

  bump-IsTallied :
      (v : Float) (vs : List Float) (cum : ℕ) (counts : List ℕ) (front back : List Float)
      → fits v front ≡ false
      → IsTallied vs cum counts front back
      → IsTallied (vs ++ v ∷ []) cum (bump (bucket p v back) counts) front back
  unfolding IsTallied bump bucket
  bump-IsTallied v vs cum counts front [] beyond h = tt
  bump-IsTallied v vs cum [] front (b ∷ back) beyond h = tt
  bump-IsTallied v vs cum (c ∷ counts) front (b ∷ back) beyond h =
      let bounds = front ++ b ∷ [] in
      let beyond' : fits v bounds ≡ (if gt_f v b then false else true) =
        fits-append v b front
        ∙ ap (λ t. if t then true else (if gt_f v b then false else true)) beyond in
      let more : number bounds (vs ++ v ∷ [])
          ≡ number bounds vs + (if (if gt_f v b then false else true) then 1 else 0) =
        number-append bounds vs v ∙ ap (λ t. number bounds vs + (if t then 1 else 0)) beyond' in
      if_cases (λ k. IsTallied (vs ++ v ∷ []) cum (bump k (c ∷ counts)) front (b ∷ back)) (gt_f v b)
        (suc (bucket p v back)) 0
        (λ above.
          let same : number bounds (vs ++ v ∷ []) ≡ number bounds vs =
            more
            ∙ ap (λ t. number bounds vs + (if (if t then false else true) then 1 else 0)) above
            ∙ omega arith in
          (
            omega (arith, h.0, same),
            bump-IsTallied v vs (add_int cum c) counts bounds back
                (beyond' ∙ ap (λ t. if t then false else true) above) h.1,
          ))
        (λ within.
          let one : number bounds (vs ++ v ∷ []) ≡ number bounds vs + 1 =
            more
            ∙ ap (λ t. number bounds vs + (if (if t then false else true) then 1 else 0)) within in
          (
            omega (arith, h.0, one, add_int-inc cum c),
            subst (λ k. IsTallied (vs ++ v ∷ []) k counts bounds back) (sym (add_int-inc cum c))
                (later-IsTallied v vs (add_int cum c) counts bounds back
                  (beyond' ∙ ap (λ t. if t then false else true) within) h.1),
          ))

  observe_all-IsTallied :
      (h : Histogram Float) (seen vs : List Float)
      → IsTallied seen 0 h.counts [] h.bounds
      → IsTallied (seen ++ vs) 0 (observe_all h vs).counts [] h.bounds
  unfolding observe
  observe_all-IsTallied h seen [] t =
      subst (λ l. IsTallied l 0 h.counts [] h.bounds) (sym (append-nil seen)) t
  observe_all-IsTallied h seen (v ∷ vs) t =
      subst (λ l. IsTallied l 0 (observe_all (observe p h v) vs).counts [] h.bounds)
        (append_assoc seen (v ∷ []) vs)
        (observe_all-IsTallied (observe p h v) (seen ++ v ∷ []) vs
          (bump-IsTallied v seen 0 h.counts [] h.bounds refl t))

  new-IsTallied : (n : ℕ) (front back : List Float) → IsTallied [] 0 (replicate n 0) front back
  unfolding IsTallied
  new-IsTallied n front [] = tt
  new-IsTallied zero front (b ∷ back) = tt
  new-IsTallied (suc n) front (b ∷ back) = (refl, new-IsTallied n (front ++ b ∷ []) back)

  -- For each bound, behind those of `front`: a line with the number of the values within it or one
  -- before it.
  unfoldable pub bounded_lines : String → List Float → List Float → List Float → List (Line Float)
  bounded_lines name vs front [] = []
  bounded_lines name vs front (b ∷ back) =
      bucket_line name b (number (front ++ b ∷ []) vs % int_mod)
      ∷ bounded_lines name vs (front ++ b ∷ []) back

  bucket_lines-bounded :
      (name : String) (vs front back : List Float) (counts : List ℕ) (cum : ℕ)
      → length counts ≡ length back + 1
      → IsTallied vs cum counts front back
      → bucket_lines p name back counts cum
        ≡ bounded_lines name vs front back ++ infinity_line name (cumulated cum counts) ∷ []
  unfolding bucket_lines bounded_lines IsTallied
  bucket_lines-bounded name vs front [] [] cum e t = absurd (omega arith)
  bucket_lines-bounded name vs front [] (c ∷ []) cum e t = refl
  bucket_lines-bounded name vs front [] (c ∷ d ∷ counts) cum e t = absurd (omega arith)
  bucket_lines-bounded name vs front (b ∷ back) [] cum e t = absurd (omega arith)
  bucket_lines-bounded name vs front (b ∷ back) (c ∷ counts) cum e t =
      ap (λ k. bucket_line name b k ∷ bucket_lines p name back counts (add_int cum c)) t.0
      ∙ ap (λ l. bucket_line name b (number (front ++ b ∷ []) vs % int_mod) ∷ l)
          (bucket_lines-bounded name vs (front ++ b ∷ []) back counts (add_int cum c) (omega arith)
            t.1)

  -- The sum of the values, in their order.
  abbrev pub summed : Float → List Float → Float
  summed sum [] = sum
  summed sum (v ∷ vs) = summed (add_f sum v) vs

  observe_all-sum :
      (h : Histogram Float) (vs : List Float) → (observe_all h vs).sum ≡ summed h.sum vs
  unfolding observe
  observe_all-sum h [] = refl
  observe_all-sum h (v ∷ vs) = observe_all-sum (observe p h v) vs

  observe_all-bounds :
      (h : Histogram Float) (vs : List Float) → (observe_all h vs).bounds ≡ h.bounds
  unfolding observe
  observe_all-bounds h [] = refl
  observe_all-bounds h (v ∷ vs) = observe_all-bounds (observe p h v) vs

  hist_lines-bounded :
      (name : String) (h : Histogram Float) (vs : List Float)
      → IsCounted h
      → IsTallied vs 0 h.counts [] h.bounds
      → hist_lines p name h
        ≡ histogram_header name
          ∷ (bounded_lines name vs [] h.bounds
              ++ infinity_line name h.total ∷ sum_count_line name h.sum h.total ∷ [])
  unfolding hist_lines
  hist_lines-bounded name h vs k t =
      let lines = bounded_lines name vs [] h.bounds in
      ap (λ l. histogram_header name ∷ (l ++ sum_count_line name h.sum h.total ∷ []))
        (bucket_lines-bounded name vs [] h.bounds h.counts 0 k.buckets t
          ∙ ap (λ n. lines ++ infinity_line name n ∷ []) k.counted)
      ∙ ap (λ l. histogram_header name ∷ l) (append_assoc lines (infinity_line name h.total ∷ []) _)

  observe_all-total :
      (h : Histogram Float) (vs : List Float)
      → h.total < int_mod
      → (observe_all h vs).total ≡ (h.total + length vs) % int_mod
  unfolding observe
  observe_all-total h [] small = omega arith
  observe_all-total h (v ∷ vs) small =
      observe_all-total (observe p h v) vs (omega arith) ∙ omega arith

zero_more : (n : ℕ) → (0 + n) % int_mod ≡ n % int_mod
zero_more n = omega arith

-- The Prometheus text of a histogram after any list of observations, in full: for each bound, in
-- order, a line with the number of the observations that do not exceed it or a bound before it; the
-- number of all of them for `+Inf` and for `_count`; and their sum, added up in order. The numbers are
-- modulo 2 ^ 64.
pub observed_lines :
    (p : Platform) (name : String) (bounds vs : List p.Float)
    → hist_lines p name (observe_all p (new_histogram p bounds) vs)
      ≡ histogram_header name
        ∷ (bounded_lines p name vs [] bounds
            ++ infinity_line name (length vs % int_mod)
              ∷ sum_count_line name (summed p p.zero_f vs) (length vs % int_mod)
              ∷ [])
unfolding new_histogram
observed_lines p name bounds vs =
    let h0 = new_histogram p bounds in
    let h = observe_all p h0 vs in
    let same_bounds : h.bounds ≡ bounds = observe_all-bounds p h0 vs in
    let total : h.total ≡ length vs % int_mod =
      observe_all-total p h0 vs (omega arith) ∙ zero_more (length vs) in
    let tallied =
      observe_all-IsTallied p h0 [] vs (new-IsTallied p (length bounds + 1) [] bounds) in
    hist_lines-bounded p name h vs
      (observe_all-IsCounted p h0 vs (new_histogram-IsCounted p bounds))
      (subst (IsTallied p vs 0 h.counts []) (sym same_bounds) tallied)
    ∙ rw (same_bounds, observe_all-sum p h0 vs, total) refl
