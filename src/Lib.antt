-- ===== src/Lib.antt =====
-- A verification library for pancakes-harness: a local context and egress kernel.
--
-- The program keeps a session as an append-only log of events. From the log it rebuilds the branches
-- of the session, selects what may leave for a model, and assembles a packet of at most 14336 bytes;
-- boundary requests are validated, fingerprinted and coalesced, and stores keep events, blobs and
-- consult manifests.
--
-- Parts and files (paths from the repository's root):
--   Eventlog/Event      internal/eventlog/event.go, kinds.go: events and `Validate`
--   Eventlog/Store      internal/eventlog/memory_store.go: `Append`, `GetByID`, `ListBySession`; the
--                       log that it refines is in Eventlog/Store/Log
--   Branchdag           internal/branchdag: branches, the graph and its operations; the invariant
--                       and the frame of each operation in Branchdag/Laws, the dirty range in
--                       Branchdag/Ranges
--   Replay/Session      internal/replay/replay.go: `RebuildSession`
--   Replay/Graph        the same: `RebuildBranchStateFromEvents`, one function per part of its loop
--   Replay/Checkpoint   internal/summaries, and the rebuild of a branch from a checkpoint
--   Assembler           internal/assembler: the packet and its JSON in Packet, `normalizeRequest` in
--                       Normalize, `applyCompactionStage` in Compaction, `Assemble` in Assemble
--   Egress              internal/egress: kinds, classification of a candidate, explanation
--   Consult             internal/consult/types.go: the records that the stores hold
--   Consult/Generate    internal/consult/manifest.go: `Generate`
--   Consult/Meta        internal/consult/types.go: the meta of an event summary
--   Replay/Consults     internal/replay/replay.go: `ListConsultEvents` and its readers of meta; their
--                       agreement with Consult/Meta in Replay/Consults/RoundTrip
--   Backend             internal/backend/memory.go: every method; its paging in Backend/Paging
--   Compactor/Scheduler internal/compactor/scheduler.go: when a compaction pass is due
--   Ingress/Inflight    internal/ingress/inflight.go: coalescing, as steps of any callers
--   Ingress/Request     internal/ingress/request.go, fingerprint.go
--   Review              internal/review/memory_store.go: the review service's store
--   Preflight           internal/preflight: the validation of boundary input
--   Audit               internal/audit/audit.go: the tracker and the decision to end a consult
--   Consultloop         internal/consultloop/loop.go: `Execute`, its attempts and its fallbacks
--   Tools               internal/tools: types.go and events.go; the capped buffer in Tools/Buffer, the
--                       decoding of a response in Tools/Decode, `Run` in Tools/Run
--   Tooling             internal/tooling: the registry; the index of paths in Tooling/Paths, the gate in
--                       Tooling/Gate, with `Fits` in Support and Requests, `Check` and `CheckAll` in Checks, the
--                       rules on arguments in Arguments, which calls are admitted in Admission, and
--                       what is recorded of that in Trail
--   Model               internal/model: types.go, validation.go and service.go
--   Runtime             internal/runtime/session.go: the environment and the state of a session; its
--                       reads and writes in Monad, `assembleForBranch` in Selection and Assembly,
--                       `executeToolCalls` in ToolCalls, `runCompaction` in Compaction, the loop of
--                       `handleUserTurn` in Turn, and `StartSession`, `HandleUserTurn`, `ForkBranch`
--                       and `ReplaySession` in Session. Trace and Sending tell what a round sends,
--                       Texts and Items which events the items of a packet show, Growth, Kept, Log and
--                       Course what stays in the log; Invariant is the induction over the rounds, and Budget and Contents
--                       have the theorems on a turn
--   Prelude, Bytes, Dict, Sort, Json: shared types and lemmas, and what the source uses of Go's
--                       strings, maps, sort and encoding/json
--   Examples            concrete runs
--
-- Conventions. A Go string is its list of bytes. A map is an association list, and statements do
-- not depend on its order but where they say so. A method that changes state takes the state and
-- returns it with its result; a context is `none` while it is live. Slices and maps that the source
-- copies defensively are values, so that a copy is the identity. Integers that a caller may set are
-- signed; their sums and products wrap around on 64 bits where they may leave them (Prelude/Machine: the
-- end of a page, the tokens of an audit, a time limit). Lengths and counters stay far below that. What a session reads from outside (the clock, the state of a context, the
-- answer of the adapter, of a process and of the compactor) is a function of a tick, which each such
-- reading raises. The requests that the adapter is handed are kept in the state, the latest first.
--
-- Fuel. `Assemble` runs its eight stages by recursion on the stages left, 7 at the start. The decimal
-- digits of `n` take fuel `n + 1`, trimming takes the length of the string, and the exchange sort of
-- ids takes their number: each round makes that much progress at least, so that the fuel suffices.
-- The loop of a turn runs by recursion on the rounds left, which are the rounds that the session allows,
-- and the attempts with a model by recursion on the attempts left, one more than the retries: both are
-- the bounds of the source's loops.
--
-- Parameters. The digest of a fingerprint (SHA-256 in hexadecimal), the encoders (json.Marshal), the
-- decoders of encoding/json, strconv.Atoi, the floating-point ratio of the scheduler with its
-- comparisons, the costs of the audit, the turn function of the recovery loop, the model adapter, the
-- processes of the tools, the quoting of a text (strconv.Quote), the compactor and the search of the
-- memory index are arguments of the definitions.
--
-- Not modelled: the HTTP server, the HTTP clients of the models, commands, metrics, the xs backend and
-- the dream daemon, which do input and output; locks, since each method runs under one; nor the walk
-- over a file system and the built-in tools of internal/tooling, the compactor's token tree, the memory
-- index, the preprocessing and the review handlers.
pub mod Assembler
pub mod Audit
pub mod Backend
pub mod Branchdag
pub mod Bytes
pub mod Compactor
pub mod Consult
pub mod Consultloop
pub mod Dict
pub mod Egress
pub mod Eventlog
pub mod Examples
pub mod Ingress
pub mod Json
pub mod Model
pub mod Preflight
pub mod Prelude
pub mod Replay
pub mod Review
pub mod Runtime
pub mod Sort
pub mod Tooling
pub mod Tools
