-- ===== src/Server.antt =====
-- server/server.go: the handler of `POST /v1/generate`. `encoding/json` is a parameter.
use Prim.Native.String.{String, ◌++◌}
use kllm.Base.{
  ℕ, ℤ, pos, is_pos, List, [], ◌∷◌, Bool, Option, none, some, if◌then◌else◌, Result, ok, err, panic,
  Error, bad_request, no_streaming,
}
use kllm.Scheduler.{GenEvent}

-- `json.Marshal` of a `tokenEvent`, and of an `errorEvent` with an error's text.
pub record Codec : Type 0 where
  pub marshal_token : ℕ → String
  pub marshal_error : Error → String

-- What a client gets: `http.Error` with a status, or the texts that are written to the stream.
pub data Reply : Type 0 where
  refused : ℕ → Error → Reply
  streamed : List String → Reply

-- `if req.MaxNewTokens <= 0 { … }`
pub default_tokens : ℤ → ℤ
default_tokens n = if is_pos n then n else pos 64

-- `emit`, from the JSON on.
abbrev pub emit : String → String
emit raw = "data: " ++ (raw ++ "\n\n")

module _ (codec : Codec) where
  open codec use {marshal_token, marshal_error}

  -- The loop over the channel, which ends when the channel is closed, and what follows it.
  unfoldable pub relay : List GenEvent → List String
  relay [] = "data: [DONE]\n\n" ∷ []
  relay (ev ∷ events) =
      let rest = relay events in
      elim ev.error [
        | some e ↦ emit (marshal_error e) ∷ []
        | none ↦ if ev.done then rest else emit (marshal_token ev.token) ∷ rest
      ]

  -- The handler: the decoded body, `Submit` with the events that its channel will carry, and whether
  -- the writer is a `Flusher`.
  pub generate_handler :
      Option (List ℕ × ℤ) → (List ℕ → ℤ → Result (List GenEvent)) → Bool → Result Reply
  unfolding default_tokens
  generate_handler none submit can_flush = ok (refused 400 bad_request)
  generate_handler (some (ids, max_new)) submit can_flush =
      elim (submit ids (default_tokens max_new)) [
        | err e ↦ ok (refused 503 e)
        | panic ↦ panic
        | ok events ↦
            if can_flush then ok (streamed (relay events)) else ok (refused 500 no_streaming)
      ]
