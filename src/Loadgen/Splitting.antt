-- ===== src/Loadgen/Splitting.antt =====
-- A scanner for the tests: it splits a text at every line break.
use Prim.Native.String.{String, ◌++◌, [], ◌∷◌}
use text.Mathlib.TextLemmas.{nil-append, cons-append}
use kllm.Base.{◌≡◌, ap, ◌∙◌, true, false, if◌then◌else◌, if_cases, List, prepend, map_first}
use kllm.Loadgen.Lines.{is_break, has_break}

abbrev pub split : String → List String → List String
split [] none_left = none_left
split (c ∷ s) none_left =
    let rest = split s none_left in
    if is_break c then prepend "" rest else map_first (λ l. c ∷ l) "" rest

module _ (none_left : List String) where
  pub split-line :
      (line rest : String)
      → has_break line ≡ false
      → split (line ++ ("\n" ++ rest)) none_left ≡ prepend line (split rest none_left)
  split-line [] rest whole =
      ap (λ s. split s none_left)
        (nil-append ("\n" ++ rest)
          ∙ cons-append "\n" "" rest
          ∙ ap (λ s. "\n" ∷ s) (nil-append rest))
  split-line (c ∷ line) rest whole_line =
      let tail = ap (λ s. split s none_left) (cons-append c line ("\n" ++ rest)) in
      if_cases
        (λ b.
          b ≡ false
          → split (c ∷ line ++ ("\n" ++ rest)) none_left
            ≡ prepend (c ∷ line) (split rest none_left))
        (is_break c) true (has_break line) (λ _ e. cc e)
        (λ inside whole.
          tail
          ∙ ap
              (λ b.
                if b
                then prepend "" (split (line ++ ("\n" ++ rest)) none_left)
                else map_first (λ l. c ∷ l) "" (split (line ++ ("\n" ++ rest)) none_left))
              inside
          ∙ ap (map_first (λ l. c ∷ l) "") (split-line line rest whole))
        whole_line
