-- ===== src/Scheduler/Greedy.antt =====
-- The tokens of a request and greedy decoding: what a live request and one that is over have in
-- common with `greedy` (Engine/Greedy.antt), and what a running one has on the device.
pub mod Forming
pub mod Batch
pub mod Delivery
pub mod Pass
pub mod Rounds
pub mod Histories
pub mod Agreement
use kllm.Base.{
  ℕ, zero, suc, ◌+◌, ◌-◌, ◌*◌, ◌≤◌, ◌<◌, ◌≡◌, refl, sym, ap, subst, ◌∙◌, List, [], ◌∷◌, ◌++◌, Bool,
  true, false, ◌||◌, Option, none, some, arith, length, length-append, take, Error, if◌then◌else◌,
  if_cases, leb, ok,
}
use mathlib.Core.List.{append-nil, append_assoc}
use kllm.Platform.{Platform}
use kllm.Kv.{Sequence, new_sequence}
use kllm.Backend.{Device}
use kllm.Backend.Paged.{Paged}
use kllm.Engine.{argmax, is_eos}
use kllm.Engine.Greedy.{greedy, greedy-some}
use kllm.Scheduler.{
  Request, Config, GenEvent, token_event, done_event, error_event, with_seq, tokens_of, advance,
}
use kllm.Scheduler.Loop.{new_request, new_request-IsAccepted}
use kllm.Scheduler.Every.{closed_with}
use kllm.Scheduler.Results.{ended}
use kllm.Scheduler.Blocks.{table_of}

-- The tokens on a channel, and whether an error is among its events.
abbrev pub sent_tokens : List GenEvent → List ℕ
sent_tokens [] = []
sent_tokens (ev ∷ out) = if ev.done then sent_tokens out else ev.token ∷ sent_tokens out

abbrev pub has_error : List GenEvent → Bool
has_error [] = false
has_error (ev ∷ out) = elim ev.error [ none ↦ has_error out | some _ ↦ true ]

sent_tokens-append :
    (xs ys : List GenEvent) → sent_tokens (xs ++ ys) ≡ sent_tokens xs ++ sent_tokens ys
sent_tokens-append [] ys = refl
sent_tokens-append (ev ∷ xs) ys = ground (arith, sent_tokens-append xs ys)

has_error-append : (xs : List GenEvent) (e : Error) → has_error (xs ++ error_event e ∷ []) ≡ true
has_error-append [] e = refl
has_error-append (ev ∷ xs) e = ground (arith, has_error-append xs e)

-- The prompt and the tokens that followed it.
abbrev pub told : {T : Type 0} → Request T → List ℕ
told r = r.prompt ++ sent_tokens r.out

abbrev pub len_of : Option Sequence → ℕ
len_of none = 0
len_of (some s) = s.len

-- What the device was fed.
abbrev pub history : {T : Type 0} → Request T → List ℕ
history r = take (len_of r.seq) (told r)

-- A request that no forward pass has been made for.
pub record IsFresh {T : Type 0} (r : Request T) : Type 0 where
  pub not_started : r.prefilled ≡ false
  pub silent : r.out ≡ []
  pub none_made : r.generated ≡ 0
  pub no_len : len_of r.seq ≡ 0
  pub some_max : 0 < r.max_new

pub with_seq-IsFresh : {T : Type 0} (r : Request T) → IsFresh r → IsFresh (with_seq r)
unfolding with_seq
with_seq-IsFresh r h = record {
  not_started = h.not_started;
  silent = h.silent;
  none_made = h.none_made;
  no_len = ground (arith, h.no_len);
  some_max = h.some_max;
}

pub new_request-IsFresh :
    {T : Type 0} (cfg : Config) (no_time now : T) (ref : ℕ) (prompt : List ℕ) (max_new : ℕ)
    (r : Request T)
    → new_request cfg no_time now ref prompt max_new ≡ ok r
    → IsFresh r
new_request-IsFresh cfg no_time now ref prompt max_new r made =
    let a = new_request-IsAccepted cfg no_time now ref prompt max_new r made in
    subst IsFresh (sym a.made) (record {
      not_started = refl;
      silent = refl;
      none_made = refl;
      no_len = refl;
      some_max = a.some_max;
    })

module _ (p : Platform) {V : Type 0} (gt : V → V → Bool) (cfg : Config)
    (model : List ℕ → List V) where
  open p use {Time}

  abbrev goal : Request Time → List ℕ
  goal r = greedy gt cfg.eos model r.max_new r.prompt

  -- A live request: what greedy decoding gives is what the client has, and what it gives from there.
  pub record IsOnTrack (r : Request Time) : Type 0 where
    pub so_far :
        goal r ≡ sent_tokens r.out ++ greedy gt cfg.eos model (r.max_new - r.generated) (told r)
    pub more : r.generated < r.max_new

  -- A request that is over: the client has a prefix of what greedy decoding gives, and all of it if
  -- there was no error.
  pub record IsGreedy (r : Request Time) : Type 0 where
    pub rest : List ℕ
    pub begins : goal r ≡ sent_tokens r.out ++ rest
    pub whole : has_error r.out ≡ false → sent_tokens r.out ≡ goal r

  pub IsFresh-IsOnTrack : (r : Request Time) → IsFresh r → IsOnTrack r
  IsFresh-IsOnTrack r h = record {
    so_far =
        let all_left : r.max_new - 0 ≡ r.max_new = omega arith in
        rw (h.silent, h.none_made, append-nil, all_left) refl;
    more = omega (arith, h.none_made, h.some_max);
  }

  pub IsOnTrack-error :
      (r : Request Time) (e : Error) (o : Option Sequence)
      → IsOnTrack r
      → IsGreedy (closed_with r (error_event e) o)
  IsOnTrack-error r e o h =
      let same : sent_tokens (r.out ++ error_event e ∷ []) ≡ sent_tokens r.out =
        sent_tokens-append r.out (error_event e ∷ []) ∙ append-nil (sent_tokens r.out) in
      record {
        rest = greedy gt cfg.eos model (r.max_new - r.generated) (told r);
        begins =
            h.so_far
            ∙ ap (λ ts. ts ++ greedy gt cfg.eos model (r.max_new - r.generated) (told r))
                (sym same);
        whole = λ fine. let bad = has_error-append r.out e in absurd (cc (bad, fine));
      }

  -- One more token, and whether it is the last.
  abbrev choice : Request Time → ℕ → List ℕ
  choice r tok =
      if is_eos cfg.eos tok
      then []
      else greedy gt cfg.eos model (r.max_new - (r.generated + 1)) (told r ++ tok ∷ [])

  goal-choice :
      (r : Request Time) (tok : ℕ)
      → IsOnTrack r
      → argmax gt (model (told r)) ≡ some tok
      → goal r ≡ (sent_tokens r.out ++ tok ∷ []) ++ choice r tok
  goal-choice r tok h picked =
      let n = r.max_new - (r.generated + 1) in
      let left : r.max_new - r.generated ≡ suc n = omega (arith, h.more) in
      h.so_far
      ∙ ap (λ k. sent_tokens r.out ++ greedy gt cfg.eos model k (told r)) left
      ∙ ap (◌++◌ (sent_tokens r.out)) (greedy-some gt cfg.eos model n tok (told r) picked)
      ∙ sym (append_assoc (sent_tokens r.out) (tok ∷ []) (choice r tok))

  module _ (r : Request Time) (fed tok : ℕ) (now : Time) where
    abbrev moved : Request Time
    moved = advance p gt cfg r fed tok now

    pub told-advance : told moved ≡ told r ++ tok ∷ []
    unfolding advance
    told-advance =
        ap (◌++◌ r.prompt) (sent_tokens-append r.out (token_event tok ∷ []))
        ∙ sym (append_assoc r.prompt (sent_tokens r.out) (tok ∷ []))

    pub advance-IsOnTrack :
        IsOnTrack r
        → argmax gt (model (told r)) ≡ some tok
        → ended p gt cfg moved tok ≡ false
        → IsOnTrack moved
    unfolding advance
    advance-IsOnTrack h picked goes_on = record {
      so_far =
          let on : is_eos cfg.eos tok ≡ false = ground (arith, goes_on) in
          let n = r.max_new - (r.generated + 1) in
          let step : choice r tok ≡ greedy gt cfg.eos model n (told moved) =
            rw on (ap (greedy gt cfg.eos model n) (sym told-advance)) in
          goal-choice r tok h picked
          ∙ ap (λ ts. ts ++ choice r tok) (sym (sent_tokens-append r.out (token_event tok ∷ [])))
          ∙ ap (◌++◌ (sent_tokens moved.out)) step;
      more = ground (arith, goes_on);
    }

    pub advance-IsGreedy :
        (o : Option Sequence)
        → IsOnTrack r
        → argmax gt (model (told r)) ≡ some tok
        → ended p gt cfg moved tok ≡ true
        → IsGreedy (closed_with moved done_event o)
    unfolding advance greedy
    advance-IsGreedy o h picked over = record {
      rest = [];
      begins = all ∙ sym (append-nil _);
      whole = λ _. sym all;
    }
      where
        nothing_left : choice r tok ≡ []
        nothing_left =
            if_cases (λ (ts : List ℕ). ts ≡ []) (is_eos cfg.eos tok) _ _ (λ _. refl)
              (λ on.
                let none_left : r.max_new - (r.generated + 1) ≡ 0 = ground (arith, over) in
                rw none_left refl)

        all : goal r ≡ sent_tokens (moved.out ++ done_event ∷ [])
        all =
            goal-choice r tok h picked
            ∙ ap (◌++◌ (sent_tokens r.out ++ tok ∷ [])) nothing_left
            ∙ ap (λ ts. ts ++ []) (sym (sent_tokens-append r.out (token_event tok ∷ [])))
            ∙ sym (sent_tokens-append moved.out (done_event ∷ []))
