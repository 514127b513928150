-- ===== src/Loadgen/Lines.antt =====
-- Lines of a text, as `bufio.ScanLines` finds them.
use Prim.Native.String.{String, [], ◌∷◌, len}
use Prim.Native.Char.{Char, code}
use kllm.Base.{◌<◌, ◌≡◌, Bool, true, false, ◌||◌, ◌==◌, if◌then◌else◌}

abbrev pub is_break : Char → Bool
is_break c = code c == 10 || code c == 13

abbrev pub has_break : String → Bool
has_break [] = false
has_break (c ∷ s) = let rest = has_break s in if is_break c then true else rest

-- A line that the scanner gives whole: without a break, and shorter than its buffer.
abbrev pub IsLine : String → Type 0
IsLine s = (has_break s ≡ false) × (len s < 65536)
