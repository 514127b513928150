-- ===== src/Loader/Examples.antt =====
-- The checks of the loader at concrete headers.
use Prim.Native.String.{String}
use kllm.Base.{◌≡◌, refl, ◌^◌, List, [], ◌∷◌, Option, some, true, pos, ok, All}
use kllm.Loader.{
  Field, metadata, entry, parse, check_fields, check_entry, count_elements, dtype_size,
}
use kllm.Loader.Bounds.{IsPlaced, parse-IsPlaced}

abbrev one_tensor : Option (Option (List (String × Field)))
one_tensor = some (
    some (
      ("__metadata__", metadata true)
      ∷ (
        "w",
        entry (
            some
              (record { dtype = "F32"; shape = pos 2 ∷ pos 3 ∷ []; first = pos 0; last = pos 24 })),
      )
      ∷ []))

accepts :
    parse 132 (some 100) one_tensor
    ≡ ok (
        record { name = "w"; dtype = "F32"; shape = pos 2 ∷ pos 3 ∷ []; first = 108; last = 132 }
        ∷ [])
unfolding parse check_fields check_entry count_elements dtype_size
accepts = refl

parse-IsPlaced_example :
    All (IsPlaced 108 132) (
      record { name = "w"; dtype = "F32"; shape = pos 2 ∷ pos 3 ∷ []; first = 108; last = 132 }
      ∷ [])
parse-IsPlaced_example = parse-IsPlaced 132 100 one_tensor _ accepts

-- The product of 2 ^ 61 elements and 8 bytes wraps round to 0: an empty tensor passes for them.
accepts_wrapped :
    parse 108 (some 100) (
      some (
        some (
          (
            "w",
            entry (
                some (record {
                  dtype = "F64";
                  shape = pos (2 ^ 61) ∷ [];
                  first = pos 0;
                  last = pos 0;
                })),
          )
          ∷ [])))
    ≡ ok (
        record { name = "w"; dtype = "F64"; shape = pos (2 ^ 61) ∷ []; first = 108; last = 108 }
        ∷ [])
unfolding parse check_fields check_entry count_elements dtype_size
accepts_wrapped = refl
