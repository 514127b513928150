-- ===== src/Scheduler/Streams.antt =====
-- What a client sees on the channel of a request.
use kllm.Base.{
  ◌≤◌, ◌<◌, ◌≡◌, refl, sym, subst, List, [], ◌∷◌, ◌++◌, Bool, true, false, none, arith, length,
  length-append, All, All-append,
}
use kllm.Platform.{Platform}
use kllm.Kv.{Allocator}
use kllm.Backend.{Device}
use kllm.Scheduler.{Request, Config, GenEvent, token_event, done_event, error_event, advance}
use kllm.Scheduler.Loop.{State, new_request, new_request-IsAccepted, init, Reach}
use kllm.Scheduler.Every.{Kept}
use kllm.Scheduler.Every.Histories.{AllKept, reach-Kept}

-- An event that carries a token and no end.
abbrev pub IsToken : GenEvent → Type 0
IsToken ev = (ev.error ≡ none) × (ev.done ≡ false)

-- The stream of a live request: open, a token for each one generated, and room for more.
pub record IsOpen {T : Type 0} (r : Request T) : Type 0 where
  pub still_open : r.closed ≡ false
  pub tokens : All IsToken r.out
  pub counted : length r.out ≡ r.generated
  pub more : r.generated < r.max_new

-- The stream of a request that is over: closed, at most `max_new` tokens, then one last event with
-- `done`, which follows at least one token if it carries no error.
pub record IsComplete {T : Type 0} (r : Request T) : Type 0 where
  pub shut : r.closed ≡ true
  pub sent : List GenEvent
  pub last : GenEvent
  pub shape : r.out ≡ sent ++ last ∷ []
  pub tokens : All IsToken sent
  pub few : length sent ≤ r.max_new
  pub ends : last.done ≡ true
  pub some_token : last.error ≡ none → 0 < length sent

module _ (p : Platform) {V : Type 0} (gt : V → V → Bool) (cfg : Config) where
  open p use {Time}

  pub streams : Kept p gt cfg IsOpen IsComplete
  unfolding new_request advance
  streams = record {
    on_seq = λ r o h. record {
      still_open = h.still_open;
      tokens = h.tokens;
      counted = h.counted;
      more = h.more;
    };
    on_error = λ r e o h _. record {
      shut = refl;
      sent = r.out;
      last = error_event e;
      shape = refl;
      tokens = h.tokens;
      few = omega (arith, h.counted, h.more);
      ends = refl;
      some_token = λ none_is. cc;
    };
    on_end = λ r fed tok now o h _. record {
      shut = refl;
      sent = r.out ++ token_event tok ∷ [];
      last = done_event;
      shape = refl;
      tokens = All-append IsToken r.out _ h.tokens ((refl, refl), tt);
      few = omega (arith, h.counted, h.more, length-append r.out (token_event tok ∷ []));
      ends = refl;
      some_token = λ _. omega (arith, length-append r.out (token_event tok ∷ []));
    };
    on_token = λ r fed tok now h goes_on. record {
      still_open = h.still_open;
      tokens = All-append IsToken r.out _ h.tokens ((refl, refl), tt);
      counted = omega (arith, h.counted, length-append r.out (token_event tok ∷ []));
      more = ground arith;
    };
    on_request = λ no_time now ref prompt max_new r made.
        (let a = new_request-IsAccepted cfg no_time now ref prompt max_new r made in
          subst IsOpen (sym a.made)
            (record { still_open = refl; tokens = tt; counted = refl; more = a.some_max }));
  }

-- In every state that a new scheduler reaches, until a panic, the stream of every request is well
-- formed: while it is live, one token event for each token generated and fewer than `maxNew`; once
-- it is over, the channel is closed after at most `maxNew` tokens and exactly one last event.
pub reach_streams :
    (p : Platform) {V : Type 0} (gt : V → V → Bool) (cfg : Config) (dev : Device V)
    (device : dev.State) (a : Allocator) {v : State dev.State p.Float p.Time}
    → Reach p gt cfg dev (init p gt cfg dev device a) v
    → v.crashed ≡ false
    → AllKept IsOpen IsComplete v
unfolding init
reach_streams p gt cfg dev device a reach good =
    reach-Kept p gt cfg dev (streams p gt cfg) reach good
      (record { over = tt; queue = tt; running = tt; waiting = tt })
