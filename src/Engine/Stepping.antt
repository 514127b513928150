-- ===== src/Engine/Stepping.antt =====
-- What `Sequence.Step` hands to the batch.
use kllm.Base.{ℕ, ◌≡◌, List, arith, length, ok}
use kllm.Kv.{Allocator, Sequence, reserve}
use kllm.Backend.{SeqForward}
use kllm.Engine.{step}

-- The descriptor of a step: the tokens, at the sequence's length, over its table.
abbrev pub descriptor : Sequence → List ℕ → SeqForward
descriptor s tokens = record { tokens = tokens; pos = s.len; block_table = s.table }

-- A step that succeeds has reserved its blocks and describes the sequence as it then is.
pub step-ok :
    (a : Allocator) (s : Sequence) (tokens : List ℕ) (sf : SeqForward)
    → (step a s tokens).result ≡ ok sf
    → ((reserve a s (length tokens)).result ≡ ok tt)
      × (sf ≡ descriptor (step a s tokens).seq tokens)
unfolding step
step-ok a s tokens sf = ground arith
