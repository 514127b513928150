-- ===== src/Base/Text.antt =====
-- Go's tests on texts, character by character.
use Prim.Native.String.{String, [], ◌∷◌, slice, len}
use mathlib.Core.Bool.{Bool, true, false}
use mathlib.Core.Option.{Option, none, some}
use text.Mathlib.Text.{◌==◌, starts_with}
use kllm.Base.Tests.{if◌then◌else◌}

-- What stands before a suffix: `strings.HasSuffix` and `TrimSuffix`.
abbrev pub strip_suffix : String → String → Option String
strip_suffix [] suffix = if [] == suffix then some [] else none
strip_suffix (c ∷ s) suffix =
    let rest : Option String = elim (strip_suffix s suffix) [
      | none ↦ none
      | some t ↦ some (c ∷ t)
    ] in
    if c ∷ s == suffix then some [] else rest

abbrev pub ends_with : String → String → Bool
ends_with s suffix = elim (strip_suffix s suffix) [ none ↦ false | some _ ↦ true ]

-- `strings.Contains`
abbrev pub contains : String → String → Bool
contains [] part = [] == part
contains (c ∷ s) part =
    let rest = contains s part in if starts_with (c ∷ s) part then true else rest

-- `strings.TrimPrefix`
abbrev pub trim_prefix : String → String → String
trim_prefix s prefix = if starts_with s prefix then slice s (len prefix) (len s) else s
