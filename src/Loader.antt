-- ===== src/Loader.antt =====
-- engine/loader/safetensors.go: the checks that `parse` makes of a checkpoint's header. The file and
-- `encoding/json` are parameters: what the reads and `Unmarshal` return is given.
pub mod Bounds
pub mod Products
pub mod Shards
mod Examples
use Prim.Native.String.{String}
use text.Mathlib.Text.{◌==◌}
use kllm.Base.{
  ℕ, zero, suc, ◌+◌, ◌-◌, ◌*◌, ◌/◌, ◌%◌, ◌^◌, List, [], ◌∷◌, Bool, true, false, not, ◌||◌, ◌&&◌,
  Option, none, some, ltb, if◌then◌else◌, int_mod, int_limit, ℤ, pos, negsuc, is_pos, is_zero,
  equals, Result, ok, err, panic, ◌>>=◌, short_read, bad_header, header_length, bad_entry,
  unknown_dtype, negative_dim, shape_overflow, out_of_bounds, wrong_size, no_tensor,
}

-- `headerEntry`; the two offsets are `DataOffsets`.
pub record Entry : Type 0 where
  pub dtype : String
  pub shape : List ℤ
  pub first : ℤ
  pub last : ℤ

-- `Tensor`, with `begin` and `end` as `first` and `last`.
pub record Tensor : Type 0 where
  pub name : String
  pub dtype : String
  pub shape : List ℤ
  pub first : ℕ
  pub last : ℕ

-- What the header's JSON holds under a name: `__metadata__`, which decodes or not, or an entry.
pub data Field : Type 0 where
  metadata : Bool → Field
  entry : Option Entry → Field

-- `Dtype.Size`, over the table `dtypeSize`.
unfoldable pub dtype_size : String → Option ℕ
dtype_size d =
    if d == "F64" || d == "I64"
    then some 8
    else if d == "F32" || d == "I32"
    then some 4
    else if d == "F16" || d == "BF16" || d == "I16"
    then some 2
    else if d == "I8" || d == "U8" || d == "BOOL"
    then some 1
    else none

-- `Tensor.NumBytes`
abbrev pub num_bytes : Tensor → ℕ
num_bytes t = t.last - t.first

-- The loop over the shape, from `numel` on.
unfoldable pub count_elements : String → ℕ → List ℤ → Result ℕ
count_elements name numel [] = ok numel
count_elements name numel (negsuc _ ∷ shape) = err (negative_dim name)
count_elements name numel (pos d ∷ shape) =
    let rest = count_elements name (numel * d) shape in
    if ltb 0 d && ltb ((int_limit - 1) / d) numel then err (shape_overflow name) else rest

-- `begin < 0 || begin > end || end > dataLen`, with the offsets that pass.
in_bounds : ℕ → ℤ → ℤ → Option (ℕ × ℕ)
in_bounds data_len (negsuc _) last = none
in_bounds data_len (pos first) (negsuc _) = none
in_bounds data_len (pos first) (pos last) =
    if ltb last first || ltb data_len last then none else some (first, last)

-- The rest of an entry's checks. `numel * elemSize` is an `int64` product, which wraps round.
place : ℕ → ℕ → String → Entry → ℕ → ℕ → Result Tensor
unfolding in_bounds
place data_start data_len name e size numel = elim (in_bounds data_len e.first e.last) [
  | none ↦ err (out_of_bounds name)
  | some (first, last) ↦
      if not (equals (pos (last - first)) (pos ((numel * size) % int_mod)))
      then err (wrong_size name)
      else ok (record {
        name = name;
        dtype = e.dtype;
        shape = e.shape;
        first = data_start + first;
        last = data_start + last;
      })
]

pub check_entry : ℕ → ℕ → String → Entry → Result Tensor
unfolding place
check_entry data_start data_len name e = elim (dtype_size e.dtype) [
  | none ↦ err (unknown_dtype name)
  | some size ↦
      count_elements name 1 e.shape >>= λ numel. place data_start data_len name e size numel
]

-- The loop over the header's fields, in the order in which the map gives them.
pub check_fields : ℕ → ℕ → List (String × Field) → Result (List Tensor)
check_fields data_start data_len [] = ok []
check_fields data_start data_len ((name, metadata good) ∷ fields) =
    if good then check_fields data_start data_len fields else err bad_header
check_fields data_start data_len ((name, entry none) ∷ fields) = err (bad_entry name)
check_fields data_start data_len ((name, entry (some e)) ∷ fields) =
    check_entry data_start data_len name e >>= λ t.
    check_fields data_start data_len fields >>= λ ts. ok (t ∷ ts)

-- `maxHeaderLen`
abbrev pub max_header_len : ℕ
max_header_len = 512 * 2 ^ 20

-- `parse`: `len` is the number in the first 8 bytes, if they are there, and `json` what the header
-- decodes to, if it is read and decodes. A file of fewer than 8 bytes has no `len`.
pub parse : ℕ → Option ℕ → Option (Option (List (String × Field))) → Result (List Tensor)
parse file_size none json = err short_read
parse file_size (some len) json =
    if ltb max_header_len len || ltb file_size (len + 8)
    then err (header_length len file_size)
    else elim json [
      | none ↦ err short_read
      | some none ↦ err bad_header
      | some (some fields) ↦ check_fields (8 + len) (file_size - (8 + len)) fields
    ]

-- `File.Tensor`
unfoldable pub find_tensor : List Tensor → String → Option Tensor
find_tensor [] name = none
find_tensor (t ∷ ts) name = if t.name == name then some t else find_tensor ts name

-- `File.ReadTensor`: the offset and the length of the read that it makes.
unfoldable pub read_tensor : List Tensor → String → Result (ℕ × ℕ)
read_tensor ts name = elim (find_tensor ts name) [
  | none ↦ err (no_tensor name)
  | some t ↦ ok (t.first, num_bytes t)
]
