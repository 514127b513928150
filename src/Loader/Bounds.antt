-- ===== src/Loader/Bounds.antt =====
-- What `parse` guarantees of the tensors that it accepts.
use Prim.Native.String.{String}
use kllm.Base.{
  OnOk, OnOk-equation, short_read, bad_header, ℕ, ◌+◌, ◌-◌, ◌*◌, ◌%◌, ◌≤◌, ◌≡◌, subst, List, [],
  ◌∷◌, false, not, ◌||◌, Option, none, some, ltb, if_cases, option_cases, int_mod, ℤ, pos, negsuc,
  equals, Result, ok, err, All, arith,
}
use kllm.Loader.{
  max_header_len, Entry, Tensor, Field, metadata, entry, dtype_size, num_bytes, count_elements,
  in_bounds, place, check_entry, check_fields, parse,
}

-- A tensor's bytes lie in the file from `data_start` on, and are as many as its shape and
-- type ask for, modulo 2 ^ 64.
pub record IsPlaced (data_start file_size : ℕ) (t : Tensor) : Type 0 where
  pub size : ℕ
  pub known : dtype_size t.dtype ≡ some size
  pub after_header : data_start ≤ t.first
  pub ordered : t.first ≤ t.last
  pub in_file : t.last ≤ file_size
  pub numel : ℕ
  pub counted : count_elements t.name 1 t.shape ≡ ok numel
  pub bytes : num_bytes t ≡ (numel * size) % int_mod

in_bounds-range :
    (n : ℕ) (first last : ℤ) (ends : ℕ × ℕ)
    → in_bounds n first last ≡ some ends
    → (ends.0 ≤ ends.1) × (ends.1 ≤ n)
unfolding in_bounds
in_bounds-range n (negsuc _) last ends e = cc
in_bounds-range n (pos first) (negsuc _) ends e = cc
in_bounds-range n (pos first) (pos last) (x, y) e = (ground arith, ground arith)

same_size : (m n : ℕ) → not (equals (pos m) (pos n)) ≡ false → m ≡ n
same_size m n e = ground arith

place-IsPlaced :
    (data_start data_len : ℕ) (name : String) (e : Entry) (size numel : ℕ)
    → dtype_size e.dtype ≡ some size
    → count_elements name 1 e.shape ≡ ok numel
    → OnOk
        (IsPlaced data_start (data_start + data_len))
        (place data_start data_len name e size numel)
unfolding place
place-IsPlaced data_start data_len name e size numel known counted =
    option_cases (OnOk (IsPlaced data_start (data_start + data_len)))
      (in_bounds data_len e.first e.last) _ _ (λ _. tt)
      (λ ends found.
        let (ordered, inside) = in_bounds-range data_len e.first e.last ends found in
        if_cases (OnOk (IsPlaced data_start (data_start + data_len)))
          (not (equals (pos (ends.1 - ends.0)) (pos ((numel * size) % int_mod)))) _ _ (λ _. tt)
          (λ fits. record {
            size = size;
            known = known;
            after_header = omega arith;
            ordered = omega arith;
            in_file = omega arith;
            numel = numel;
            counted = counted;
            bytes = omega (arith, same_size (ends.1 - ends.0) ((numel * size) % int_mod) fits);
          }))

check_entry-IsPlaced :
    (data_start data_len : ℕ) (name : String) (e : Entry)
    → OnOk (IsPlaced data_start (data_start + data_len)) (check_entry data_start data_len name e)
unfolding check_entry
check_entry-IsPlaced data_start data_len name e =
    option_cases (OnOk (IsPlaced data_start (data_start + data_len))) (dtype_size e.dtype) _ _
      (λ _. tt)
      (λ size known.
        OnOk-equation (IsPlaced data_start (data_start + data_len)) (count_elements name 1 e.shape)
          (λ numel. place data_start data_len name e size numel)
          (λ numel counted. place-IsPlaced data_start data_len name e size numel known counted))

check_fields-IsPlaced :
    (data_start data_len : ℕ) (fields : List (String × Field))
    → OnOk
        (All (IsPlaced data_start (data_start + data_len)))
        (check_fields data_start data_len fields)
unfolding check_fields
check_fields-IsPlaced data_start data_len [] = tt
check_fields-IsPlaced data_start data_len ((name, metadata good) ∷ fields) =
    if_cases (OnOk (All (IsPlaced data_start (data_start + data_len)))) good _ _
      (λ _. check_fields-IsPlaced data_start data_len fields) (λ _. tt)
check_fields-IsPlaced data_start data_len ((name, entry none) ∷ fields) = tt
check_fields-IsPlaced data_start data_len ((name, entry (some e)) ∷ fields) =
    OnOk-equation (All (IsPlaced data_start (data_start + data_len)))
      (check_entry data_start data_len name e) _
      (λ t first_is.
        OnOk-equation (All (IsPlaced data_start (data_start + data_len)))
          (check_fields data_start data_len fields) _
          (λ ts rest_is. (
            subst (OnOk (IsPlaced data_start (data_start + data_len))) first_is
                (check_entry-IsPlaced data_start data_len name e),
            subst (OnOk (All (IsPlaced data_start (data_start + data_len)))) rest_is
                (check_fields-IsPlaced data_start data_len fields),
          )))

parse-OnOk :
    (file_size : ℕ) (len : ℕ) (json : Option (Option (List (String × Field))))
    → OnOk (All (IsPlaced (8 + len) file_size)) (parse file_size (some len) json)
unfolding parse
parse-OnOk file_size len json =
    if_cases (OnOk (All (IsPlaced (8 + len) file_size)))
      (ltb max_header_len len || ltb file_size (len + 8)) _ _ (λ _. tt)
      (λ plausible.
        let whole : (8 + len) + (file_size - (8 + len)) ≡ file_size = ground arith in
        read_json (check_fields (8 + len) (file_size - (8 + len)))
          (λ fields.
            subst
              (λ n.
                OnOk (All (IsPlaced (8 + len) n))
                  (check_fields (8 + len) (file_size - (8 + len)) fields))
              whole (check_fields-IsPlaced (8 + len) (file_size - (8 + len)) fields))
          json)
  where
    read_json :
        (f : List (String × Field) → Result (List Tensor))
        → ((fields : List (String × Field)) → OnOk (All (IsPlaced (8 + len) file_size)) (f fields))
        → (json : Option (Option (List (String × Field))))
        → OnOk (All (IsPlaced (8 + len) file_size)) (elim json [
          | none ↦ err short_read
          | some none ↦ err bad_header
          | some (some fields) ↦ f fields
        ])
    read_json f h none = tt
    read_json f h (some none) = tt
    read_json f h (some (some fields)) = h fields

-- Every tensor of a file that `parse` accepts lies behind the header and inside the file,
-- its type is known, and its bytes are as many as its elements ask for, modulo 2 ^ 64.
pub parse-IsPlaced :
    (file_size : ℕ) (len : ℕ) (json : Option (Option (List (String × Field)))) (ts : List Tensor)
    → parse file_size (some len) json ≡ ok ts
    → All (IsPlaced (8 + len) file_size) ts
parse-IsPlaced file_size len json ts e =
    subst (OnOk (All (IsPlaced (8 + len) file_size))) e (parse-OnOk file_size len json)
