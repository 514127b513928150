-- ===== src/Scheduler/Draining/Ready.antt =====
-- When the loop that forms a batch can serve its first request.
use kllm.Base.{
  ℕ, ◌+◌, ◌≤◌, ◌<◌, ◌≡◌, ◌≢◌, refl, sym, ap, subst, ◌∙◌, List, [], ◌∷◌, ◌++◌, Bool, false, none,
  some, Option, arith, length, All,
}
use kllm.Platform.{Platform}
use kllm.Kv.{Sequence}
use kllm.Scheduler.{Request, Config, Forming, tokens_of, form, advance}
use kllm.Scheduler.Weight.{weigh}
use kllm.Scheduler.Blocks.{table_of}
use kllm.Scheduler.Capacity.{held}
use kllm.Scheduler.Every.{Kept}
use kllm.Scheduler.Streams.{IsOpen}
use kllm.Scheduler.Faults.{HasSeq}
use kllm.Scheduler.Loop.{new_request-IsAccepted}
use kllm.Scheduler.Greedy.{len_of}
use kllm.Scheduler.Draining.{left, claim, live}
use kllm.Scheduler.Draining.Shape.{IsStarted, IsPending, weigh-claim}
use kllm.Scheduler.Draining.Progress.{Moves, form-Moves}

-- A prompt that a round can take.
pub record IsFitting {T : Type 0} (cfg : Config) (r : Request T) : Type 0 where
  pub some_prompt : 0 < length r.prompt
  pub fits : length r.prompt ≤ cfg.max_step_tokens

abbrev pub IsReleased : {T : Type 0} → Request T → Type 0
IsReleased r = held r ≡ 0

pub fitting :
    (p : Platform) {V : Type 0} (gt : V → V → Bool) (cfg : Config)
    → Kept p gt cfg (IsFitting cfg) IsReleased
unfolding advance
fitting p gt cfg = record {
  on_seq = λ r o h. record { some_prompt = h.some_prompt; fits = h.fits };
  on_error = λ r e o h done. ap length done;
  on_end = λ r fed tok now o h done. ap length done;
  on_token = λ r fed tok now h goes_on. record { some_prompt = h.some_prompt; fits = h.fits };
  on_request = λ no_time now ref prompt max_new r made.
      let a = new_request-IsAccepted cfg no_time now ref prompt max_new r made in
      subst (IsFitting cfg) (sym a.made) (record { some_prompt = a.some_prompt; fits = a.fits });
}

pub weigh-released : {T : Type 0} (rs : List (Request T)) → All IsReleased rs → weigh held rs ≡ 0
weigh-released [] h = refl
weigh-released (r ∷ rs) h = omega (arith, h.0, weigh-released rs h.1)

seq_of-has : {T : Type 0} (r : Request T) → HasSeq r → (s : Sequence) × (r.seq ≡ some s)
seq_of-has r h = got r.seq refl
  where
    got : (o : Option Sequence) → r.seq ≡ o → (s : Sequence) × (r.seq ≡ some s)
    got none e = absurd (h e)
    got (some s) e = (s, e)

module _ (cfg : Config) {F T : Type 0} (block_size : ℕ) where
  -- The requests of the loop that forms a batch, `running` first.
  pub record IsReady (f : Forming F T) (running more : List (Request T)) : Type 0 where
    pub started : All IsStarted running
    pub pending : All (IsPending block_size) more
    pub seqs : All HasSeq (running ++ more)
    pub fitting : All (IsFitting cfg) (running ++ more)
    pub opened : All IsOpen (running ++ more)
    pub budget : f.budget ≡ cfg.max_step_tokens
    pub size : f.world.alloc.block_size ≡ block_size
    pub some_size : 0 < block_size
    pub enough :
        weigh (claim block_size) (running ++ more)
        ≤ length f.world.alloc.free + weigh held (running ++ more)

  pub ready-Moves :
      (f : Forming F T) (running more : List (Request T))
      → IsReady f running more
      → running ++ more ≢ []
      → f.crashed ≡ false
      → (form f (running ++ more)).crashed ≡ false
      → Moves (form f (running ++ more)) [] (live left (λ _ _. refl) f (running ++ more))
  ready-Moves f [] [] h busy = absurd (busy refl)
  ready-Moves f (r ∷ running) more h busy =
      let (s, has) = seq_of-has r h.seqs.0 in
      form-Moves f r (running ++ more) (record {
        seq = s;
        has = has;
        fits =
            let one : length (tokens_of r) ≡ 1 = rw h.started.0 refl in
            omega (arith, one, h.budget, h.fitting.0.some_prompt, h.fitting.0.fits);
        some_size = omega (arith, h.size, h.some_size);
        enough = λ off. cc (off, h.started.0);
        more = omega (arith, h.opened.0.more);
      })
  ready-Moves f [] (r ∷ more) h busy =
      let (s, has) = seq_of-has r h.seqs.0 in
      let k = h.pending.0 in
      form-Moves f r more (record {
        seq = s;
        has = has;
        fits =
            let prompt : length (tokens_of r) ≡ length r.prompt = rw k.not_started refl in
            omega (arith, prompt, h.budget, h.fitting.0.fits);
        some_size = omega (arith, h.size, h.some_size);
        enough = λ off. (
          ap len_of (sym has) ∙ k.no_len,
          omega (
            arith,
            h.enough,
            weigh-claim block_size more h.pending.1,
            ap (λ (o : Option Sequence). length (table_of o)) has,
            ap (λ b. claim b r) h.size,
          ),
        );
        more = omega (arith, h.opened.0.more);
      })
