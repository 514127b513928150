-- ===== src/Loadgen/Scanning.antt =====
-- One emission of the server as the client reads it.
use Prim.Native.String.{String, ◌++◌, len, slice}
use text.Mathlib.Text.{◌==◌}
use text.Mathlib.TextLemmas.{append_assoc, nil-append}
use text.Mathlib.TextPositions.{starts_with-append, slice-append_right, len-append}
use kllm.Base.{
  ℕ, suc, ◌+◌, ◌≡◌, refl, sym, ap, ◌∙◌, arith, List, [], ◌∷◌, true, false, Option, none,
  if◌then◌else◌, ok, err, Error, server_error,
}
use kllm.Base.Text.{contains}
use kllm.Server.{Codec, emit}
use kllm.Loadgen.Lines.{IsLine}
use kllm.Loadgen.{Tally, read_lines, is_first}

-- What `bufio.Scanner` does on lines.
pub record IsScanner (scan : String → List String × Option Error) : Type 0 where
  pub at_end : scan "" ≡ ([], none)
  pub at_line :
      (line rest : String)
      → IsLine line
      → scan (line ++ ("\n" ++ rest)) ≡ (line ∷ (scan rest).0, (scan rest).1)

-- What `json.Marshal` does on a token: an object in one short line, its number and nothing more.
pub record IsCodec (codec : Codec) : Type 0 where
  pub token_line : (n : ℕ) → IsLine ("data: " ++ codec.marshal_token n)
  pub token_object : (n : ℕ) → (codec.marshal_token n == "[DONE]") ≡ false
  pub token_plain : (n : ℕ) → contains (codec.marshal_token n) "\"error\"" ≡ false

-- What it does on an error whose text is not too long: an object in one line that is shorter than
-- the scanner's buffer, with the field of its struct's tag.
pub record IsShown (codec : Codec) (e : Error) : Type 0 where
  pub line : IsLine ("data: " ++ codec.marshal_error e)
  pub object : (codec.marshal_error e == "[DONE]") ≡ false
  pub named : contains (codec.marshal_error e) "\"error\"" ≡ true

payload_lem : (p s : String) → slice (p ++ s) (len p) (len (p ++ s)) ≡ s
payload_lem p s = rw (len-append p s) (slice-append_right p s)

-- One emission and the rest of the body, line by line.
emit-append :
    (raw rest : String) → emit raw ++ rest ≡ ("data: " ++ raw) ++ ("\n" ++ ("" ++ ("\n" ++ rest)))
emit-append raw rest =
    append_assoc "data: " (raw ++ "\n\n") rest
    ∙ ap (λ s. "data: " ++ s)
        (append_assoc raw "\n\n" rest ∙ ap (λ s. raw ++ s) (append_assoc "\n" "\n" rest))
    ∙ ap (λ s. "data: " ++ (raw ++ ("\n" ++ s))) (sym (nil-append ("\n" ++ rest)))
    ∙ sym (append_assoc "data: " raw ("\n" ++ ("" ++ ("\n" ++ rest))))

module _ {D : Type 0} (zero_d : D) (elapsed : ℕ → D) (total : D)
    (scan : String → List String × Option Error) (sc : IsScanner scan) where
  pub scan-emit :
      (raw rest : String)
      → IsLine ("data: " ++ raw)
      → scan (emit raw ++ rest) ≡ (("data: " ++ raw) ∷ "" ∷ (scan rest).0, (scan rest).1)
  scan-emit raw rest line =
      let e1 = sc.at_line ("data: " ++ raw) ("" ++ ("\n" ++ rest)) line in
      let e2 = sc.at_line "" rest (refl, omega arith) in
      ap scan (emit-append raw rest)
      ∙ e1
      ∙ ap (λ (r : List String × Option Error). (("data: " ++ raw) ∷ r.0, r.1)) e2

  -- A line that is not the last one and carries no error is a token.
  pub read_lines-token :
      (i : ℕ) (raw : String) (lines : List String) (r : Tally D)
      → (raw == "[DONE]") ≡ false
      → contains raw "\"error\"" ≡ false
      → read_lines zero_d elapsed total scan i (("data: " ++ raw) ∷ "" ∷ lines) r
        ≡ read_lines zero_d elapsed total scan (suc (suc i)) lines (record r {
          tokens = r.tokens + 1;
          ttft = if is_first r.tokens then elapsed i else r.ttft;
        })
  unfolding read_lines
  read_lines-token i raw lines r other plain =
      rw (starts_with-append "data: " raw) (rw (payload_lem "data: " raw) (rw (other, plain) refl))

  pub read_lines-error :
      (i : ℕ) (raw : String) (lines : List String) (r : Tally D)
      → (raw == "[DONE]") ≡ false
      → contains raw "\"error\"" ≡ true
      → read_lines zero_d elapsed total scan i (("data: " ++ raw) ∷ lines) r
        ≡ err (server_error raw)
  unfolding read_lines
  read_lines-error i raw lines r other named =
      rw (starts_with-append "data: " raw) (rw (payload_lem "data: " raw) (rw (other, named) refl))

  pub read_lines-end :
      (i : ℕ) (lines : List String) (r : Tally D)
      → read_lines zero_d elapsed total scan i ("data: [DONE]" ∷ lines) r ≡ ok r
  unfolding read_lines
  read_lines-end i lines r = refl
