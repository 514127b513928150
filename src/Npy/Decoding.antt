-- ===== src/Npy/Decoding.antt =====
-- `ReadF32` on a file of version 1.
use Prim.Native.String.{String}
use kllm.Base.{
  ℕ, ◌+◌, ◌-◌, ◌*◌, ◌/◌, ◌%◌, ◌^◌, ◌<◌, ◌≡◌, refl, sym, ◌∙◌, arith, List, [], ◌∷◌, ◌++◌, map, some,
  true, false, not, ◌||◌, length, length-append, take, drop, drop-drop, ltb, equals, ℤ, pos,
  mul_int, ok,
}
use kllm.Backend.Rows.{take-length-append, drop-length-append}
use kllm.Upload.Sizes.{mul_int_small}
use kllm.Npy.{
  Reader, same_bytes, magic, byte_at, word16, word32, header_place, dims, floats, read_data,
  read_f32,
}

-- The little-endian bytes of words, as `numpy.save` writes them.
abbrev pub encode : List ℕ → List ℕ
encode [] = []
encode (w ∷ ws) = w % 256 ∷ w / 256 % 256 ∷ w / 65536 % 256 ∷ w / 16777216 ∷ encode ws

length-encode : (ws : List ℕ) → length (encode ws) ≡ length ws * 4
length-encode [] = refl
length-encode (w ∷ ws) = omega (arith, length-encode ws)

module _ {F : Type 0} (reader : Reader F) where
  open reader use {descr, order, shape, atoi, from_bits}

  floats-encode : (ws : List ℕ) → floats reader (length ws) (encode ws) ≡ map from_bits ws
  unfolding floats word32 byte_at
  floats-encode [] = refl
  floats-encode (w ∷ ws) =
      let whole : w % 256 + w / 256 % 256 * 256 + w / 65536 % 256 * 65536 + w / 16777216 * 16777216
          ≡ w =
        omega arith in
      rw (whole, floats-encode ws) refl

  read_data-encode :
      (header : List ℕ) (parts : List String) (found : List ℤ) (ws : List ℕ)
      → descr header ≡ some "<f4"
      → order header ≡ some "False"
      → shape header ≡ some parts
      → dims reader parts [] (pos 1) ≡ ok (found, pos (length ws))
      → 0 < length ws
      → length ws < 2 ^ 61
      → read_data reader header (encode ws) ≡ ok (found, map from_bits ws)
  unfolding read_data
  read_data-encode header parts found ws has_descr has_order has_shape has_dims some_word few =
      let size : mul_int (pos (length ws)) (pos 4) ≡ pos (length ws * 4) =
        mul_int_small (length ws) 4 some_word (omega arith) (omega arith) in
      let fits : not (equals (pos (length (encode ws))) (pos (length ws * 4))) ≡ false =
        rw (length-encode ws) (ground arith) in
      let fits' : not (equals (pos (length (encode ws))) (mul_int (pos (length ws)) (pos 4)))
          ≡ false =
        rw size fits in
      let small : ltb (length ws) (2 ^ 62) ≡ true = ground arith in
      rw (read_data, has_descr, has_order, has_shape, has_dims, fits', small, floats-encode ws) refl

  -- Reading back what `numpy.save` writes: the magic, version 1, the header's length in two bytes, the
  -- header, and the words' bytes. If the header says `<f4`, C order and a shape of as many elements,
  -- `ReadF32` returns that shape and those words as floats, in order, whatever lies behind the file
  -- in the buffer.
  pub read_f32-encode :
      (minor : ℕ) (header spare : List ℕ) (parts : List String) (found : List ℤ) (ws : List ℕ)
      → length header < 65536
      → descr header ≡ some "<f4"
      → order header ≡ some "False"
      → shape header ≡ some parts
      → dims reader parts [] (pos 1) ≡ ok (found, pos (length ws))
      → 0 < length ws
      → length ws < 2 ^ 61
      → let raw =
          magic ++ 1 ∷ minor ∷ length header % 256 ∷ length header / 256 ∷ header ++ encode ws in
        read_f32 reader raw spare ≡ ok (found, map from_bits ws)
  unfolding read_f32 header_place same_bytes word16 byte_at
  read_f32-encode minor header spare parts found ws short has_descr has_order has_shape has_dims
        some_word few =
      let tail = header ++ encode ws in
      let raw : List ℕ = magic ++ 1 ∷ minor ∷ length header % 256 ∷ length header / 256 ∷ tail in
      let len : length header % 256 + length header / 256 * 256 ≡ length header = omega arith in
      let start : 10 + length header - length header ≡ 10 = omega arith in
      let head : take (length header) tail ≡ header =
        take-length-append (length header) header (encode ws) refl in
      let rest : drop (10 + length header) raw ≡ encode ws =
        sym (drop-drop 10 (length header) (10 + length header) raw refl)
        ∙ drop-length-append (length header) header (encode ws) refl in
      let decoded =
        read_data-encode header parts found ws has_descr has_order has_shape has_dims some_word
          few in
      let long : (ltb (length raw) 10 || not (same_bytes (take 6 raw) magic)) ≡ false =
        ground arith in
      let fits : ltb (length raw) (10 + length header) ≡ false =
        ground (arith, length-append {0} header (encode ws)) in
      rw (read_f32, long) (rw (len, fits) (rw (start, head, rest) decoded))
