-- ===== src/Scheduler/Loop/Rounds.antt =====
-- How a round of the main loop ends: the cases that every property of a round goes through.
use kllm.Base.{
  ◌≡◌, ◌≢◌, refl, List, [], ◌∷◌, ◌++◌, Bool, true, false, map, Result, ok, err, panic, Error,
  if_cases, result_cases,
}
use kllm.Platform.{Platform}
use kllm.Backend.{SeqForward, Device, forward_batch}
use kllm.Scheduler.{Request, Config, Slot, Forming, fail_all}
use kllm.Scheduler.Loop.{State, give_rows, run_batch, after_form, formed, cycle}

module _ (p : Platform) {V : Type 0} (gt : V → V → Bool) (cfg : Config) (dev : Device V) where
  open p use {Float, Time}

  abbrev batch_of : Forming Float Time → List SeqForward
  batch_of f = map (λ s. s.sf) f.slots

  abbrev requests_of : Forming Float Time → List (Request Time)
  requests_of f = map (λ s. s.req) f.slots

  -- The forward pass of a round.
  abbrev pub pass :
      State dev.State Float Time → Forming Float Time → dev.State × Result (List (List V))
  pass st f = forward_batch dev cfg.vocab st.device (batch_of f)

  -- The ends of a round, by the batch `f` that was formed.
  pub record Ends {ℓ} (P : State dev.State Float Time → Type ℓ) (start now : Time)
      (st : State dev.State Float Time) (f : Forming Float Time) : Type ℓ where
    pub crashes : f.crashed ≡ true → P (record st { crashed = true })
    pub idles :
        f.crashed ≡ false
        → f.slots ≡ []
        → P (record st { world = f.world; running = f.skipped; waiting = f.waiting })
    pub answers :
        (rows : List (List V))
        → f.crashed ≡ false
        → f.slots ≢ []
        → (pass st f).1 ≡ ok rows
        → P (give_rows p gt cfg dev start now (record st { device = (pass st f).0 }) f rows)
    pub fails :
        (e : Error)
        → f.crashed ≡ false
        → f.slots ≢ []
        → (pass st f).1 ≡ err e
        → P (record st {
          device = (pass st f).0;
          world = fail_all f.world (requests_of f ++ f.skipped) e;
          running = [];
          waiting = f.waiting;
        })
    pub faults :
        f.crashed ≡ false
        → f.slots ≢ []
        → (pass st f).1 ≡ panic
        → P (record st { device = (pass st f).0; crashed = true })

  run_batch_cases {ℓ} :
      (P : State dev.State Float Time → Type ℓ) (start now : Time) (st : State dev.State Float Time)
      (f : Forming Float Time)
      → f.crashed ≡ false
      → f.slots ≢ []
      → Ends P start now st f
      → P (run_batch p gt cfg dev start now st f)
  unfolding run_batch
  run_batch_cases P start now st f good some_slot ends =
      result_cases P (pass st f).1 _ _ _ (λ rows q. ends.answers rows good some_slot q)
        (λ e q. ends.fails e good some_slot q) (λ q. ends.faults good some_slot q)

  slot_cases {ℓ κ} :
      {A : Type κ} (P : A → Type ℓ) (slots : List (Slot Time)) (x y : A)
      → (slots ≡ [] → P x)
      → (slots ≢ [] → P y)
      → P (elim slots [ [] ↦ x | _ ∷ _ ↦ y ])
  slot_cases P [] x y f g = f refl
  slot_cases P (s ∷ slots) x y f g = g (λ e. cc)

  pub cycle_cases {ℓ} :
      (P : State dev.State Float Time → Type ℓ) (start now : Time) (st : State dev.State Float Time)
      → Ends P start now st (formed p gt cfg dev st)
      → P (cycle p gt cfg dev start now st)
  unfolding cycle after_form
  cycle_cases P start now st ends =
      let f = formed p gt cfg dev st in
      if_cases P f.crashed _ _ ends.crashes (λ good.
        slot_cases P f.slots _ _ (ends.idles good)
          (λ some_slot. run_batch_cases P start now st f good some_slot ends))
