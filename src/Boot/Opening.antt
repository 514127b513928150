-- ===== src/Boot/Opening.antt =====
-- What the steps of `New` leave open: the library, the checkpoint's files.
use Prim.Native.String.{String}
use kllm.Base.{ℕ, suc, ◌+◌, ◌-◌, ◌≡◌, ◌∙◌, arith, List, length, ℤ, Result, ok, err, panic}
use kllm.Base.Actions.{Act}
use kllm.Base.Triples.{Triple, Ends}
use kllm.Handle.{Impl}
use kllm.Loader.Shards.{Model, Files, close_model}
use kllm.Loader.Shards.Closing.{IsBalanced}
use kllm.Upload.Effects.{Keeps}
use kllm.Boot.{Machine, on_lib, on_files, closing}

-- How a binding changes the number of libraries that are open: only by opening and closing.
pub record Counts {S V G C : Type 0} (im : Impl S V G C) (open_lib : Act S (Unit {0}))
    (live : S → ℕ) : Type 0 where
  pub opens : (n : ℕ) → Triple (λ l. live l ≡ n) open_lib (λ _ l. live l ≡ suc n) (λ l. live l ≡ n)
  pub closes : (s : S) → live (im.close s).0 ≡ live s - 1
  pub init : (device : ℤ) → Keeps live (im.init device)
  pub model_create : (cfg : C) → Keeps live (im.model_create cfg)
  pub set_layer_sliding : (flags : List ℕ) → Keeps live (im.set_layer_sliding flags)
  pub load_tensor : (name : String) (raw : List ℕ) → Keeps live (im.load_tensor name raw)
  pub load_tensor_w4 :
      (name : String) (q sc : List ℕ) (n k g : ℤ) → Keeps live (im.load_tensor_w4 name q sc n k g)
  pub finalize : Keeps live im.finalize

module _ {S : Type 0} (live : S → ℕ) where
  -- `n` libraries and `k` files are open.
  abbrev pub IsOpen : (n k : ℕ) → Machine S → Type 0
  IsOpen n k s = (live s.lib ≡ n) × (s.files.opened ≡ s.files.closed + k)

  -- The library has `n` handles.
  abbrev pub HasLive : ℕ → S → Type 0
  HasLive n l = live l ≡ n

  pub kept :
      {A : Type 0} (n : ℕ) (m : Act S A)
      → Keeps live m
      → Triple (HasLive n) m (λ _. HasLive n) (HasLive n)
  kept {A} n m h l e = go (m l) (h l ∙ e)
    where
      go : (r : S × Result A) → live r.0 ≡ n → Ends (λ _. HasLive n) (HasLive n) r
      go (l', ok a) k = k
      go (l', err x) k = k
      go (l', panic) k = tt

  pub on_lib-triple :
      {A : Type 0} (n a b k : ℕ) (m : Act S A)
      → Triple (HasLive n) m (λ _. HasLive a) (HasLive b)
      → Triple (IsOpen n k) (on_lib m) (λ _. IsOpen a k) (IsOpen b k)
  unfolding on_lib
  on_lib-triple {A} n a b k m h s (libs, files) = go (m s.lib) (h s.lib libs)
    where
      go :
          (r : S × Result A)
          → Ends (λ _. HasLive a) (HasLive b) r
          → Ends (λ _. IsOpen a k) (IsOpen b k) (record s { lib = r.0 }, r.1)
      go (lib, ok a) e = (e, files)
      go (lib, err x) e = (e, files)
      go (lib, panic) e = tt

  pub on_files-triple :
      (n : ℕ) (m : Act Files Model)
      → ((s : Files) → s.opened ≡ s.closed → IsBalanced (m s))
      → Triple (IsOpen n 0) (on_files m) (λ x. IsOpen n (length x.files)) (IsOpen n 0)
  unfolding on_files
  on_files-triple n m h s (libs, files) = go (m s.files) (h s.files (omega arith))
    where
      go :
          (r : Files × Result Model)
          → IsBalanced r
          → Ends
              (λ (x : Model). IsOpen n (length x.files))
              (IsOpen n 0)
              (record s { files = r.0 }, r.1)
      go (fs, ok a) e = (libs, e)
      go (fs, err x) e = (libs, omega arith)
      go (fs, panic) e = tt

  pub closing-triple :
      {A : Type 0} (n a b : ℕ) (m : Model) (body : Act (Machine S) A)
      → Triple
          (IsOpen n (length m.files))
          body
          (λ _. IsOpen a (length m.files))
          (IsOpen b (length m.files))
      → Triple (IsOpen n (length m.files)) (closing m body) (λ _. IsOpen a 0) (IsOpen b 0)
  unfolding closing close_model
  closing-triple {A} n a b m body h s p = go (body s) (h s p)
    where
      go :
          (r : Machine S × Result A)
          → Ends (λ _. IsOpen a (length m.files)) (IsOpen b (length m.files)) r
          → Ends
              (λ _. IsOpen a 0)
              (IsOpen b 0)
              (record r.0 { files = close_model m r.0.files }, r.1)
      go (s', ok a) (libs, files) = (libs, omega arith)
      go (s', err x) (libs, files) = (libs, omega arith)
      go (s', panic) e = tt
