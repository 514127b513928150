-- ===== src/Loadgen/Stream.antt =====
-- A request's stream from the scheduler's channel through the server to the client.
use Prim.Native.String.{String}
use kllm.Base.{
  ℕ, zero, suc, ◌+◌, ◌<◌, ◌≤◌, ◌≡◌, refl, sym, ap, subst, ◌∙◌, arith, List, [], ◌∷◌, ◌++◌, map,
  true, false, Option, none, some, length, if◌then◌else◌, option_cases, Result, ok, err, Error,
  server_error, All,
}
use kllm.Scheduler.{GenEvent, Request}
use kllm.Scheduler.Streams.{IsToken, IsComplete}
use kllm.Server.{Codec, streamed, emit, relay}
use kllm.Loadgen.{Tally, body, read_lines, one, timed, is_first}
use kllm.Loadgen.Scanning.{
  IsScanner, IsCodec, IsShown, scan-emit, read_lines-token, read_lines-error, read_lines-end,
}

-- The client's tally after `n` more tokens, the first of them on line `i`.
abbrev pub add_tokens : {D : Type 0} → (ℕ → D) → ℕ → ℕ → Tally D → Tally D
add_tokens elapsed i zero r = r
add_tokens elapsed i (suc n) r = record r {
  tokens = r.tokens + suc n;
  ttft = if is_first r.tokens then elapsed i else r.ttft;
}

add_tokens_one :
    {D : Type 0} (elapsed : ℕ → D) (i n : ℕ) (r : Tally D)
    → add_tokens elapsed
        (suc (suc i))
        n
        (record r { tokens = r.tokens + 1; ttft = if is_first r.tokens then elapsed i else r.ttft })
      ≡ add_tokens elapsed i (suc n) r
add_tokens_one elapsed i zero r = refl
add_tokens_one elapsed i (suc n) r =
    let started : is_first (r.tokens + 1) ≡ false =
      let e : r.tokens + 1 ≡ suc r.tokens = omega arith in ap is_first e in
    let first = if is_first r.tokens then elapsed i else r.ttft in
    let sum : r.tokens + 1 + suc n ≡ r.tokens + suc (suc n) = omega arith in
    ap
      (λ b. record r {
        tokens = r.tokens + 1 + suc n;
        ttft = if b then elapsed (suc (suc i)) else first;
      })
      started
    ∙ ap (λ k. record r { tokens = k; ttft = first }) sum

-- What the server sends for the last event.
abbrev pub end_text : Codec → GenEvent → String
end_text codec last = elim last.error [
  | none ↦ "data: [DONE]\n\n"
  | some e ↦ emit (codec.marshal_error e)
]

-- What the client makes of the last event.
abbrev pub outcome : {D : Type 0} → Codec → GenEvent → Tally D → Result (Tally D)
outcome codec last r = elim last.error [
  | none ↦ ok r
  | some e ↦ err (server_error (codec.marshal_error e))
]

module _ (codec : Codec) where
  relay-token :
      (ev : GenEvent) (events : List GenEvent)
      → IsToken ev
      → relay codec (ev ∷ events) ≡ emit (codec.marshal_token ev.token) ∷ relay codec events
  unfolding relay
  relay-token ev events (no_error, goes_on) = rw (no_error, goes_on) refl

  relay-done :
      (last : GenEvent)
      → last.error ≡ none
      → last.done ≡ true
      → relay codec (last ∷ []) ≡ "data: [DONE]\n\n" ∷ []
  unfolding relay
  relay-done last no_error ends = rw (no_error, ends) refl

  relay-error :
      (last : GenEvent) (e : Error)
      → last.error ≡ some e
      → relay codec (last ∷ []) ≡ emit (codec.marshal_error e) ∷ []
  unfolding relay
  relay-error last e has_error = rw has_error refl

  -- The texts of a stream.
  relay-stream :
      (sent : List GenEvent) (last : GenEvent)
      → All IsToken sent
      → last.done ≡ true
      → relay codec (sent ++ last ∷ [])
        ≡ map (λ ev. emit (codec.marshal_token ev.token)) sent ++ end_text codec last ∷ []
  relay-stream [] last tokens ends =
      option_cases (λ text. relay codec (last ∷ []) ≡ text ∷ []) last.error "data: [DONE]\n\n"
        (λ e. emit (codec.marshal_error e)) (λ no_error. relay-done last no_error ends)
        (λ e has_error. relay-error last e has_error)
  relay-stream (ev ∷ sent) last (token, tokens) ends =
      relay-token ev (sent ++ last ∷ []) token
      ∙ ap (λ texts. emit (codec.marshal_token ev.token) ∷ texts)
          (relay-stream sent last tokens ends)

module _ {D : Type 0} (zero_d : D) (elapsed : ℕ → D) (total : D)
    (scan : String → List String × Option Error) (sc : IsScanner scan) (codec : Codec)
    (cd : IsCodec codec) where
  -- The client reads these texts from line `i` on with this result, and the scanner ends without an
  -- error.
  abbrev Reads : ℕ → Tally D → Result (Tally D) → List String → Type 0
  Reads i r result texts =
      let scanned = scan (body zero_d elapsed total scan texts) in
      (read_lines zero_d elapsed total scan i scanned.0 r ≡ result) × (scanned.1 ≡ none)

  read_token :
      (i : ℕ) (r : Tally D) (n : ℕ) (texts : List String) (result : Result (Tally D))
      → Reads
          (suc (suc i))
          (record r {
            tokens = r.tokens + 1;
            ttft = if is_first r.tokens then elapsed i else r.ttft;
          })
          result
          texts
      → Reads i r result (emit (codec.marshal_token n) ∷ texts)
  read_token i r n texts result (rest, good) =
      let raw = codec.marshal_token n in
      rw
        (scan-emit zero_d elapsed total scan sc raw (body zero_d elapsed total scan texts)
          (cd.token_line n))
        (
          read_lines-token zero_d elapsed total scan sc i raw
                (scan (body zero_d elapsed total scan texts)).0 r (cd.token_object n)
                (cd.token_plain n)
              ∙ rest,
          good,
        )

  read_error :
      (i : ℕ) (r : Tally D) (e : Error)
      → IsShown codec e
      → Reads i r (err (server_error (codec.marshal_error e))) (emit (codec.marshal_error e) ∷ [])
  read_error i r e shown =
      let raw = codec.marshal_error e in
      rw (scan-emit zero_d elapsed total scan sc raw "" shown.line) (
        read_lines-error zero_d elapsed total scan sc i raw ("" ∷ (scan "").0) r shown.object
            shown.named,
        ap (λ (s : List String × Option Error). s.1) sc.at_end,
      )

  read_done : (i : ℕ) (r : Tally D) → Reads i r (ok r) ("data: [DONE]\n\n" ∷ [])
  read_done i r = rw (scan-emit zero_d elapsed total scan sc "[DONE]" "" (refl, omega arith)) (
    read_lines-end zero_d elapsed total scan sc i ("" ∷ (scan "").0) r,
    ap (λ (s : List String × Option Error). s.1) sc.at_end,
  )

  read_last :
      (i : ℕ) (r : Tally D) (last : GenEvent)
      → last.done ≡ true
      → ((e : Error) → last.error ≡ some e → IsShown codec e)
      → Reads i r (outcome codec last r) (relay codec (last ∷ []))
  read_last i r last ends shown =
      option_cases (λ (result : Result (Tally D)). Reads i r result (relay codec (last ∷ [])))
        last.error (ok r) (λ e. err (server_error (codec.marshal_error e)))
        (λ no_error.
          subst (Reads i r (ok r)) (sym (relay-done codec last no_error ends)) (read_done i r))
        (λ e has_error.
          subst (Reads i r (err (server_error (codec.marshal_error e))))
            (sym (relay-error codec last e has_error)) (read_error i r e (shown e has_error)))

  read_stream :
      (i : ℕ) (r : Tally D) (sent : List GenEvent) (last : GenEvent)
      → All IsToken sent
      → last.done ≡ true
      → ((e : Error) → last.error ≡ some e → IsShown codec e)
      → Reads i r
          (outcome codec last (add_tokens elapsed i (length sent) r))
          (relay codec (sent ++ last ∷ []))
  read_stream i r [] last tokens ends shown = read_last i r last ends shown
  read_stream i r (ev ∷ sent) last (token, tokens) ends shown =
      let r' : Tally D = record r {
        tokens = r.tokens + 1;
        ttft = if is_first r.tokens then elapsed i else r.ttft;
      } in
      let result = outcome codec last (add_tokens elapsed i (suc (length sent)) r) in
      let rest = read_stream (suc (suc i)) r' sent last tokens ends shown in
      subst (Reads i r result) (sym (relay-token codec ev (sent ++ last ∷ []) token)) (
        read_token i r ev.token (relay codec (sent ++ last ∷ [])) result (
          subst
            (λ t. Reads (suc (suc i)) r' (outcome codec last t) (relay codec (sent ++ last ∷ [])))
            (add_tokens_one elapsed i (length sent) r) rest))

  abbrev start : Tally D
  start = record { tokens = 0; ttft = zero_d; total = zero_d }

  -- The tally at the end of a stream of `n` tokens.
  abbrev pub answer_of : ℕ → Tally D
  answer_of n = record {
    tokens = n;
    ttft = if is_first n then zero_d else elapsed 0;
    total = total;
  }

  one-Reads :
      (texts : List String) (last : GenEvent) (t : Tally D)
      → Reads 0 start (outcome codec last t) texts
      → one zero_d elapsed total scan (ok (streamed texts))
        ≡ outcome codec last (record t { total = total })
  unfolding one
  one-Reads texts last t (read, good) =
      let scanned = scan (body zero_d elapsed total scan texts) in
      let end = timed zero_d elapsed total scan in
      ap (end scanned.1) read ∙ ap (λ f. end f (outcome codec last t)) good ∙ go last.error
    where
      go :
          (o : Option Error)
          → (let a : Result (Tally D) = elim o [
            | none ↦ ok t
            | some e ↦ err (server_error (codec.marshal_error e))
          ] in
              let c : Result (Tally D) = elim o [
                | none ↦ ok (record t { total = total })
                | some e ↦ err (server_error (codec.marshal_error e))
              ] in
              timed zero_d elapsed total scan none a ≡ c)
      go none = refl
      go (some e) = refl

  answer_of_tokens : (n : ℕ) → record (add_tokens elapsed 0 n start) { total = total } ≡ answer_of n
  answer_of_tokens zero = refl
  answer_of_tokens (suc n) =
      let sum : 0 + suc n ≡ suc n = omega arith in
      ap (λ k. record { tokens = k; ttft = elapsed 0; total = total }) sum

  -- What the server sends and the client returns for a request that is over. The server sends one
  -- text for each token of the channel, in order and with that token, and then the end or the
  -- scheduler's error. The client returns as many tokens, at least one and at most `maxNew`, with
  -- the time of the first line, if there is no error; otherwise the error, and no tokens.
  pub record IsAnswered {T : Type 0} (r : Request T) (answer : Result (Tally D)) : Type 0 where
    pub sent : List GenEvent
    pub last : GenEvent
    pub shape : r.out ≡ sent ++ last ∷ []
    pub tokens : All IsToken sent
    pub texts :
        relay codec r.out
        ≡ map (λ ev. emit (codec.marshal_token ev.token)) sent ++ end_text codec last ∷ []
    pub few : length sent ≤ r.max_new
    pub some_token : last.error ≡ none → 0 < length sent
    pub same : answer ≡ outcome codec last (answer_of (length sent))

  -- For each request that is over, the server sends its tokens, one text each and in their order,
  -- and then the end or the scheduler's error; and the load generator that reads these texts returns
  -- the number of those tokens, or that error. The conditions: `json.Marshal` writes each token, and
  -- the error that ended this request if there is one, as one line that is shorter than the scanner's
  -- buffer, and the scanner gives the lines back.
  pub one-IsAnswered :
      {T : Type 0} (r : Request T)
      → (h : IsComplete r) → ((e : Error) → h.last.error ≡ some e → IsShown codec e)
      → IsAnswered r (one zero_d elapsed total scan (ok (streamed (relay codec r.out))))
  unfolding one
  one-IsAnswered r h shown = record {
    sent = h.sent;
    last = h.last;
    shape = h.shape;
    tokens = h.tokens;
    texts = ap (relay codec) h.shape ∙ relay-stream codec h.sent h.last h.tokens h.ends;
    few = h.few;
    some_token = h.some_token;
    same =
        ap (λ events. one zero_d elapsed total scan (ok (streamed (relay codec events)))) h.shape
        ∙ one-Reads (relay codec (h.sent ++ h.last ∷ [])) h.last
            (add_tokens elapsed 0 (length h.sent) start)
            (read_stream 0 start h.sent h.last h.tokens h.ends shown)
        ∙ ap (outcome codec h.last) (answer_of_tokens (length h.sent));
  }
