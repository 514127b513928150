-- ===== src/Loadgen/Examples.antt =====
-- A stream of two tokens, read by a scanner that splits at every line break.
use Prim.Native.String.{String}
use kllm.Base.{ℕ, refl, ap, arith, List, [], ◌∷◌, Option, none, Error, true, ok}
use kllm.Scheduler.{Request, token_event, done_event}
use kllm.Scheduler.Streams.{IsComplete}
use kllm.Server.{Codec, streamed, relay}
use kllm.Loadgen.{one}
use kllm.Loadgen.Scanning.{IsScanner, IsCodec, IsShown}
use kllm.Loadgen.Splitting.{split, split-line}
use kllm.Loadgen.Stream.{IsAnswered, one-IsAnswered}

abbrev splitter : String → List String × Option Error
splitter s = (split s [], none)

splitter-IsScanner : IsScanner splitter
splitter-IsScanner = record {
  at_end = refl;
  at_line = λ line rest h. ap (λ lines. (lines, none)) (split-line [] line rest h.0);
}

-- Each token prints as 7.
abbrev sevens : Codec
sevens = record {
  marshal_token = λ n. "{\"token\":7}";
  marshal_error = λ e. "{\"error\":\"stopped\"}";
}

sevens-IsCodec : IsCodec sevens
sevens-IsCodec = record {
  token_line = λ n. (refl, omega arith);
  token_object = λ n. refl;
  token_plain = λ n. refl;
}

sevens-IsShown : (e : Error) → IsShown sevens e
sevens-IsShown e = record { line = (refl, omega arith); object = refl; named = refl }

abbrev two_tokens : Request ℕ
two_tokens = record {
  ref = 0;
  prompt = 5 ∷ [];
  max_new = 2;
  out = token_event 7 ∷ token_event 7 ∷ done_event ∷ [];
  closed = true;
  seq = none;
  prefilled = true;
  next = 7;
  generated = 2;
  submit_at = 0;
  last_tok_at = 3;
}

two_tokens-IsComplete : IsComplete two_tokens
two_tokens-IsComplete = record {
  shut = refl;
  sent = token_event 7 ∷ token_event 7 ∷ [];
  last = done_event;
  shape = refl;
  tokens = ((refl, refl), ((refl, refl), tt));
  few = omega arith;
  ends = refl;
  some_token = λ _. omega arith;
}

one-IsAnswered_example :
    IsAnswered 0
      (λ i. i)
      9
      splitter
      splitter-IsScanner
      sevens
      sevens-IsCodec
      two_tokens
      (one 0 (λ i. i) 9 splitter (ok (streamed (relay sevens two_tokens.out))))
one-IsAnswered_example =
    one-IsAnswered 0 (λ i. i) 9 splitter splitter-IsScanner sevens sevens-IsCodec two_tokens
      two_tokens-IsComplete (λ e _. sevens-IsShown e)
