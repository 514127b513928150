-- ===== src/Npy.antt =====
-- engine/npy/npy.go: `ReadF32`, from the file's bytes on. The regular expressions, `strconv.Atoi` and
-- `math.Float32frombits` are parameters; `F` stands for `float32`.
pub mod Decoding
mod Examples
use Prim.Native.String.{String}
use text.Mathlib.Text.{◌==◌}
use kllm.Base.{
  ℕ, zero, suc, ◌+◌, ◌-◌, ◌*◌, ◌^◌, List, [], ◌∷◌, ◌++◌, Bool, true, false, not, ◌&&◌, ◌||◌, Option,
  none, some, length, take, drop, ltb, if◌then◌else◌, ℤ, pos, negsuc, equals, mul_int, Result, ok,
  err, panic, ◌>>=◌, not_npy, truncated, bad_descr, bad_order, no_shape, bad_dim, bad_version,
  data_size,
}

-- What the three expressions find in a header; the shape's text is split at its commas, each part
-- trimmed.
pub record Reader (F : Type 0) : Type 0 where
  pub descr : List ℕ → Option String
  pub order : List ℕ → Option String
  pub shape : List ℕ → Option (List String)
  pub atoi : String → Option ℤ
  pub from_bits : ℕ → F

same_bytes : List ℕ → List ℕ → Bool
same_bytes [] [] = true
same_bytes [] (_ ∷ _) = false
same_bytes (_ ∷ _) [] = false
same_bytes (x ∷ xs) (y ∷ ys) = equals (pos x) (pos y) && same_bytes xs ys

-- The six bytes that a file begins with.
abbrev pub magic : List ℕ
magic = 147 ∷ 78 ∷ 85 ∷ 77 ∷ 80 ∷ 89 ∷ []

byte_at : ℕ → List ℕ → ℕ
byte_at i [] = 0
byte_at zero (b ∷ bs) = b
byte_at (suc i) (b ∷ bs) = byte_at i bs

-- `binary.LittleEndian.Uint16` and `Uint32`
word16 : List ℕ → ℕ
unfolding byte_at
word16 bs = byte_at 0 bs + byte_at 1 bs * 256

word32 : List ℕ → ℕ
unfolding byte_at
word32 bs = byte_at 0 bs + byte_at 1 bs * 256 + byte_at 2 bs * 65536 + byte_at 3 bs * 16777216

-- The header's length and where the data start, by the version. The slice up to 12 may reach past
-- the file's last byte, into `spare`, the rest of the buffer that `ReadFile` made.
header_place : List ℕ → List ℕ → Result (ℕ × ℕ)
unfolding byte_at word16 word32
header_place raw spare =
    let major = byte_at 6 raw in
    if equals (pos major) (pos 1)
    then ok (word16 (drop 8 raw), 10 + word16 (drop 8 raw))
    else if equals (pos major) (pos 2) || equals (pos major) (pos 3)
    then ok (word32 (drop 8 (raw ++ spare)), 12 + word32 (drop 8 (raw ++ spare)))
    else err (bad_version major)

module _ {F : Type 0} (reader : Reader F) where
  open reader use {descr, order, shape, atoi, from_bits}

  -- The loop over the parts of the shape, with the shape and the product so far.
  pub dims : List String → List ℤ → ℤ → Result (List ℤ × ℤ)
  dims [] found numel = ok (found, numel)
  dims (part ∷ parts) found numel = elim (part == "") [
    | true ↦ dims parts found numel
    | false ↦ elim (atoi part) [
      | none ↦ err bad_dim
      | some d ↦ dims parts (found ++ d ∷ []) (mul_int numel d)
    ]
  ]

  -- The loop over the elements.
  floats : ℕ → List ℕ → List F
  unfolding word32
  floats zero body = []
  floats (suc n) body = from_bits (word32 body) ∷ floats n (drop 4 body)

  -- The checks on the header, and the data. `make` panics on a length below 0, or one whose bytes
  -- no memory holds.
  read_data : List ℕ → List ℕ → Result (List ℤ × List F)
  unfolding dims floats
  read_data header body = elim (descr header) [
    | none ↦ err bad_descr
    | some d ↦ if not (d == "<f4") then err bad_descr else elim (order header) [
      | none ↦ err bad_order
      | some o ↦ if not (o == "False") then err bad_order else elim (shape header) [
        | none ↦ err no_shape
        | some parts ↦ dims parts [] (pos 1) >>= λ (found, numel).
            if not (equals (pos (length body)) (mul_int numel (pos 4)))
            then err (data_size (length body) numel)
            else elim numel [
              | negsuc _ ↦ panic
              | pos n ↦ if ltb n (2 ^ 62) then ok (found, floats n body) else panic
            ]
      ]
    ]
  ]

  -- `ReadF32`, after the file is read.
  pub read_f32 : List ℕ → List ℕ → Result (List ℤ × List F)
  unfolding same_bytes header_place read_data
  read_f32 raw spare =
      if ltb (length raw) 10 || not (same_bytes (take 6 raw) magic)
      then err not_npy
      else header_place raw spare >>= λ (header_len, data_start).
          if ltb (length raw) data_start
          then err truncated
          else read_data (take header_len (drop (data_start - header_len) raw))
              (drop data_start raw)
