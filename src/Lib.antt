-- ===== src/Lib.antt =====
-- KLLM, an inference engine for language models: continuous batching over a paged KV cache. This
-- library models its Go code: scheduling and cache blocks, sampling, loading a model and uploading its
-- weights, the bindings of the C library, the instruments, and the stream to a client.
--
-- The parts, and the files that model them (paths from the repository's root):
--   * engine/kv/kv.go: Kv.antt. `Allocator` and `Sequence` are records, and each method is a function
--     from the values before to the values after. Kv/Store.antt adds many sequences over one
--     allocator.
--   * engine/backend/backend.go: Backend.antt. `ForwardBatch`, its guards, and `flattenBatch`. The C
--     library behind it is the parameter `Device`: a state, and a forward pass that fills a buffer
--     or fails.
--     Handle.antt holds the interface `impl` and the other methods of `Handle` that check something.
--   * engine/backend/backend_cgo.go and backend_windows.go: Bindings/Cgo.antt and
--     Bindings/Windows.antt, each an `impl` over the same C library, which is the parameter `CLib`.
--     Bindings/Running.antt and Bindings/Answering.antt give them as devices to the properties that
--     have a hypothesis on the device.
--   * engine/engine.go: Engine.antt. `Options.fill`, `Sequence.Step` and `Forward`, `Generate` and
--     `Argmax`. The logits' type and its `>` are parameters.
--   * engine/scheduler.go: Scheduler.antt has one function for each part of `run`; Scheduler/Loop.antt
--     composes them to `cycle`, one round of the main loop, and adds `Submit`, `Stop` and the two
--     channels as the step relation `Step`, with `Reach` for its histories.
--   * engine/engine.go, `New` and `uploadWeights`: Boot.antt and Upload.antt, over the binding, the
--     files and the configuration. `Machine` is what they change: the library and the files.
--   * server/server.go: Server.antt, the handler of `POST /v1/generate`; cmd/loadgen/main.go:
--     Loadgen.antt, `one`, a client of its stream, and Loadgen/Table.antt, the
--     end of `runLevel`. Loadgen/Splitting.antt is a scanner for the tests.
--   * engine/npy/npy.go: Npy.antt, `ReadF32`; engine/oracle/oracle.go: Oracle.antt, `MaxAbsDiff`,
--     and Oracle/Prompt.antt, the subtest of `Run` for one prompt.
--   * engine/metrics/metrics.go: Metrics.antt. The Prometheus text is a list of lines, each the
--     arguments of a call of `Fprintf`.
--   * models/config.go: Models.antt. `HFConfig` after JSON decoding: its defaults, the backend's
--     configuration, validation and the layer flags.
--   * engine/loader/safetensors.go: Loader.antt. The checks of a checkpoint's header; what the file
--     and the JSON decoder give is an argument. Loader/Shards.antt: a checkpoint of several files. The
--     names in one file are distinct, as the keys of a map are.
--   * Platform.antt holds what Go's run time gives them: `float64` and the clock.
--
-- What the parts are held against: Engine/Greedy.antt is greedy decoding over a model that maps a
-- context to its logits, without a cache. Backend/Paged.antt says as laws what backend/shim.h promises
-- of a batched pass: the blocks of a sequence keep its context, a pass answers with the model's logits
-- after the whole context, and leaves the blocks of other sequences alone. `Paged` is a hypothesis of
-- the properties on answers, and Backend/Paged/Sample.antt is a small device that satisfies it.
-- Scheduler/Greedy.antt and its children compare the scheduler with greedy decoding;
-- Scheduler/Draining.antt and its children measure what is left to do.
--
-- They interact as in the code: a round of the scheduler reserves blocks (`Engine.step` on
-- `Kv.reserve`), calls `Backend.forward_batch` on the batch, samples with `Engine.argmax`, commits
-- and releases sequences, and updates the instruments.
--
-- Numbers: `int` and `uint64` are native numbers below 2 ^ 64 with the wrap-around written out where
-- a sum can reach it; token and block ids are bit patterns of `int32`. `Options.fill` works on signed
-- sizes with their wrap-around. `ForwardBatch` is modelled for buffers that Go can make, of at most
-- 2 ^ 46 floats; a theorem that excludes panics assumes it. The fuel of `Reserve`'s loop: it makes
-- at most as many rounds as blocks are needed, and its closed form shows that this is enough.
-- The rounds of `Scheduler.Draining.Ending.rounds` are the main loop without clients; the number of
-- tokens that the live requests may still get is enough of them. `check_layers` has one round for each
-- layer.
--
-- Concurrency: the scheduler's goroutine owns the sequences, the allocator and the two lists of
-- `run`, so a round is one step between two choices of a `select`; clients and `Stop` take steps
-- between the rounds. A send on a request's channel never blocks, since the channel has room for
-- `maxNew + 1` events. A panic ends the scheduler: `crashed` marks it, and nothing runs after it.
-- `new_request` shows where `Submit` panics on a channel that Go can not make; a history has only
-- requests that `Submit` accepts, and at most one `Stop`, since a second one panics in its caller.
-- `Config.max_batch` is the field after the bound that `NewScheduler` sets, `batch_bound`.
--
-- Not modelled: the CUDA code, which `Device` and `CLib` stand for; the server's handlers that write
-- a fixed text, the metrics or the page; the paths and the JSON files of the oracle; the other commands;
-- the Python tools; locks and atomics.
pub mod Backend
pub mod Base
pub mod Bindings
pub mod Boot
pub mod Engine
pub mod Handle
pub mod Kv
pub mod Loader
pub mod Loadgen
pub mod Metrics
pub mod Models
pub mod Npy
pub mod Oracle
pub mod Platform
pub mod Samples
pub mod Scheduler
pub mod Server
pub mod Upload
