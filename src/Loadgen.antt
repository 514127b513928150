-- ===== src/Loadgen.antt =====
-- cmd/loadgen/main.go: `one`, a client of the stream. `bufio.Scanner` and the clock are parameters.
pub mod Lines
pub mod Scanning
pub mod Splitting
pub mod Stream
pub mod Table
mod Examples
use Prim.Native.String.{String, ◌++◌}
use text.Mathlib.Text.{◌==◌, starts_with}
use kllm.Base.{
  ℕ, zero, suc, true, false, ◌+◌, List, [], ◌∷◌, Bool, not, Option, none, some, if◌then◌else◌,
  Result, ok, err, panic, Error, server_error, bad_status,
}
use kllm.Base.Text.{trim_prefix, contains}
use kllm.Server.{Reply, refused, streamed}

-- `result`, with durations in `D`; a result with an error is the error.
pub record Tally (D : Type 0) : Type 0 where
  pub tokens : ℕ
  pub ttft : D
  pub total : D

abbrev pub is_first : ℕ → Bool
is_first zero = true
is_first (suc n) = false

module _ {D : Type 0} (zero_d : D) (elapsed : ℕ → D) (total : D)
    (scan : String → List String × Option Error) where
  -- The loop over the lines; `elapsed i` is `time.Since(start)` at line `i`.
  unfoldable pub read_lines : ℕ → List String → Tally D → Result (Tally D)
  read_lines i [] r = ok r
  read_lines i (line ∷ lines) r =
      let next : Tally D → Result (Tally D) = read_lines (suc i) lines in
      let payload = trim_prefix line "data: " in
      if not (starts_with line "data: ")
      then next r
      else if payload == "[DONE]"
      then ok r
      else if contains payload "\"error\""
      then err (server_error payload)
      else next (record r {
        tokens = r.tokens + 1;
        ttft = if is_first r.tokens then elapsed i else r.ttft;
      })

  -- The body of a stream.
  abbrev pub body : List String → String
  body [] = ""
  body (text ∷ texts) = text ++ body texts

  -- What follows the loop: the scanner's error, or the time.
  abbrev pub timed : Option Error → Result (Tally D) → Result (Tally D)
  timed failed (err e) = err e
  timed failed panic = panic
  timed (some e) (ok r) = err e
  timed none (ok r) = ok (record r { total = total })

  -- `one`, from the reply to its request on.
  unfoldable pub one : Result Reply → Result (Tally D)
  unfolding read_lines
  one (err e) = err e
  one panic = panic
  one (ok (refused status e)) = err (bad_status status)
  one (ok (streamed texts)) =
      let scanned = scan (body texts) in
      timed scanned.1
        (read_lines 0 scanned.0 (record { tokens = 0; ttft = zero_d; total = zero_d }))
