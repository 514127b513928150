-- ===== src/Scheduler/Results.antt =====
-- How one round of the loop over the results ends.
use kllm.Base.{
  ℕ, ◌≡◌, List, [], ◌∷◌, ◌++◌, Bool, true, false, ◌||◌, none, some, length, leb, if_cases,
  option_cases,
}
use kllm.Platform.{Platform}
use kllm.Engine.{argmax, is_eos}
use kllm.Scheduler.{
  Request, World, Config, Slot, Delivery, finish, advance, count_token, deliver_one, deliver,
}

module _ (p : Platform) {V : Type 0} (gt : V → V → Bool) (cfg : Config) where
  open p use {Float, Time}

  -- The request once it has its token, and the world once the token is counted.
  abbrev pub advanced : Slot Time → ℕ → Time → Request Time
  advanced slot tok now = advance p gt cfg slot.req (length slot.sf.tokens) tok now

  abbrev pub counted : Delivery Float Time → Slot Time → Time → World Float Time
  counted d slot now = record d.world {
    metrics = count_token p gt cfg d.world.metrics slot.req now;
  }

  -- Whether the token is the last.
  abbrev pub ended : Request Time → ℕ → Bool
  ended r tok = is_eos cfg.eos tok || leb r.max_new r.generated

  pub deliver_one_cases {ℓ} :
      (P : Delivery Float Time → Type ℓ) (now : Time) (d : Delivery Float Time) (slot : Slot Time)
      (row : List V)
      → (argmax gt row ≡ none → P (record d { crashed = true }))
      → ((tok : ℕ)
          → argmax gt row ≡ some tok
          → ended (advanced slot tok now) tok ≡ true
          → P (record d { world = finish (counted d slot now) (advanced slot tok now) }))
      → ((tok : ℕ)
          → argmax gt row ≡ some tok
          → ended (advanced slot tok now) tok ≡ false
          → P (record d {
            world = counted d slot now;
            next = d.next ++ advanced slot tok now ∷ [];
          }))
      → P (deliver_one p gt cfg now d slot row)
  unfolding deliver_one
  deliver_one_cases P now d slot row faults ends goes_on =
      option_cases P (argmax gt row) _ _ faults
        (λ tok q. if_cases P (ended (advanced slot tok now) tok) _ _ (ends tok q) (goes_on tok q))

  -- Nothing runs after a panic; the rule of the loop.
  pub deliver_inv {ℓ} :
      (P : Delivery Float Time → List (Slot Time) → Type ℓ) (now : Time)
      → ((d : Delivery Float Time) (slot : Slot Time) (slots : List (Slot Time)) (row : List V)
          → P d (slot ∷ slots)
          → d.crashed ≡ false
          → P (deliver_one p gt cfg now d slot row) slots)
      → (d : Delivery Float Time) (slots : List (Slot Time)) (rows : List (List V)) → P d slots
      → (deliver p gt cfg now d slots rows).crashed ≡ false
      → P (deliver p gt cfg now d slots rows) []
  unfolding deliver
  deliver_inv P now keep d [] rows h = λ _. h
  deliver_inv P now keep d (slot ∷ slots) [] h = λ good. cc
  deliver_inv P now keep d (slot ∷ slots) (row ∷ rows) h =
      if_cases (λ e. e.crashed ≡ false → P e []) d.crashed d
        (deliver p gt cfg now (deliver_one p gt cfg now d slot row) slots rows) (λ bad good. cc)
        (λ good.
          deliver_inv P now keep (deliver_one p gt cfg now d slot row) slots rows
            (keep d slot slots row h good))
