-- ===== src/Npy/Examples.antt =====
-- A file of two words.
use text.Mathlib.Text.{◌==◌}
use kllm.Base.{
  ℕ, ◌≡◌, refl, arith, List, [], ◌∷◌, ◌++◌, some, none, pos, ok, panic, if◌then◌else◌, ◌^◌,
}
use kllm.Npy.{Reader, magic, dims, read_f32, same_bytes, header_place, byte_at, word16, read_data}
use kllm.Npy.Decoding.{encode, read_f32-encode}

abbrev numbers : Reader ℕ
numbers = record {
  descr = λ h. some "<f4";
  order = λ h. some "False";
  shape = λ h. some ("2" ∷ "" ∷ []);
  atoi = λ s. if s == "2" then some (pos 2) else none;
  from_bits = λ w. w;
}

abbrev two_words : List ℕ
two_words = 1065353216 ∷ 3 ∷ []

abbrev header : List ℕ
header = 123 ∷ 125 ∷ 10 ∷ []

reads_shape : dims numbers ("2" ∷ "" ∷ []) [] (pos 1) ≡ ok (pos 2 ∷ [], pos 2)
unfolding dims
reads_shape = refl

read_f32-encode_example :
    read_f32 numbers (magic ++ 1 ∷ 0 ∷ 3 ∷ 0 ∷ header ++ encode two_words) []
    ≡ ok (pos 2 ∷ [], two_words)
read_f32-encode_example =
    read_f32-encode numbers 0 header [] ("2" ∷ "" ∷ []) (pos 2 ∷ []) two_words (omega arith) refl
      refl refl reads_shape (omega arith) (omega arith)

-- The bytes of 2 ^ 62 elements wrap round to 0, which an empty body has; `make` panics.
abbrev wrapping : Reader ℕ
wrapping = record numbers { shape = λ h. some ("n" ∷ []); atoi = λ s. some (pos (2 ^ 62)) }

wraps : read_f32 wrapping (magic ++ 1 ∷ 0 ∷ 3 ∷ 0 ∷ header) [] ≡ panic
unfolding read_f32 same_bytes header_place byte_at word16 read_data dims
wraps = refl
