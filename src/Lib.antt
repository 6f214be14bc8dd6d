-- ===== src/Lib.antt =====
-- Verification library of grokcli2api-go, a proxy that serves OpenAI and Anthropic requests with the
-- accounts of a pool of credentials.
--
-- The parts of the program and how they meet: a request is parsed and planned (internal/inference,
-- internal/openai, internal/anthropic), the server (internal/server) takes an account for it from the
-- pool (internal/auth), sends it upstream (internal/grok), and binds the session or the response to the
-- account that served it, in the pool's affinity cache and in the continuity store
-- (internal/server/continuity.go). The catalog (internal/modelcatalog) says which account serves which
-- model over which backend.
--
-- Files and code:
--   Prelude: tests on native numbers, lists, Go maps as association lists, sorting, text, int64, JSON.
--   Catalog: internal/modelcatalog/model.go. Catalog/Normalize is ModelDescriptor.Normalize,
--     Catalog/Effort is NormalizeReasoningEffort, Catalog/Aggregate is Aggregate.
--   Pool: the types of internal/auth/pool.go. Pool/Eligibility has the predicates of account and
--     credential (usable and needsRefresh of internal/auth/auth.go), Pool/AffinityKeys affinityModelKey,
--     Pool/Shard affinityCache, Pool/Heap tryAcquire, Release and newLease, Pool/Snapshot rebuildActive,
--     Pool/Cooldown MarkCooldown, MarkModelCooldown, Disable and unavailable, Pool/Refresh
--     refreshCredential and its callers, Pool/Acquire one turn of the loop of Acquire and acquireID,
--     Pool/Acquire/Waiting the loop, Pool/Acquire/Pinned AcquireAccount, AcquireAccountForModel,
--     AcquireAccountForMetadata, Bind and Unbind, Pool/Backends AcquireForBackends, and Pool/Steps the
--     sequences of operations.
--   Continuity: internal/server/continuity.go.
--   ToolReplay: the cache of internal/openai/tool_replay.go and its normalizeReplayItems.
--   Anthropic: internal/anthropic. Anthropic/Stops is streamStopFilter and Anthropic/Stream the
--     StreamTranslator of stream.go: Stream has its state and the operations on blocks, Stream/Kinds the
--     switches, Stream/Cases the longer cases and Stream/Handle Handle itself. Anthropic/Values has the
--     helpers of converter.go and stream.go that read decoded JSON. Anthropic/Client is no code of the
--     program: it says what a client of the Messages protocol accepts, and its child modules show that
--     the translator implements it.
--   Server: Server/MessagesStream is the part of internal/server/backend_stream.go that serves a
--     Messages client from a Responses upstream, over the translator. Server/Execution is
--     internal/server/inference_execution.go: Execution has its types and the handles that a request
--     carries, Execution/Lookups and Execution/Prepare are prepareInferenceExecution and
--     prepareBoundExecution over the continuity store, Execution/Commit is what a response binds, and
--     Execution/Collector is streamStateCollector.
--   The Tests modules run the definitions on small examples.
--
-- How state is modelled: the pool is a record, and the accounts are on a heap that maps a number, the
-- pointer, to an account, since leases and snapshots keep pointers. Each operation is a function from
-- the pool to the pool. Operations are atomic: the program's locks and atomic counters order them, and a
-- turn of Acquire is one step with one reading of the clock. Counts of requests in flight are natural
-- numbers; their decrement is exact for open leases (Pool/Steps/Accounting). A time is a natural number
-- of nanoseconds, and 0 is Go's zero time; durations given to marks are not negative. Generations, the
-- cursor and turns wrap around at 2^64, and the cursor's conversion to int is not modelled beyond 2^63.
--
-- Parameters: the digest (crypto/sha256) as a record of functions, the answer of the identity provider
-- to an exchange as a function of the credential, the length of an encoding (encoding/json), lower case
-- outside ASCII as a function on characters, the wakes of a waiting request as a list, the printing of
-- a number (fmt) as a function, the request's plan and the pool's descriptors as a record of operations
-- (Planner of Server/Execution, with what the comment on WithoutOpaqueState says as the hypothesis Cleans
-- of Server/Execution/Cleaned), strings.EqualFold as one of them, and the ids that grok.NewID draws as values of each event. No fuel is
-- used: every loop is a recursion on a list, and the waits of Acquire end with their list.
--
-- A stream is a list of events that are decoded already: an event is blank, or a JSON object, or no JSON
-- object. JSON numbers are integers. The fields of an object are walked in the order of their list, where
-- the program walks a map in any order. A pointer to a block of the translator is the key of its map entry.
--
-- Not modelled: HTTP, JSON's syntax, files and their locks, logging, metrics, the reading of credential
-- files, the maintenance of the catalog by the pool, the inference plan, the handlers
-- around an execution (executeNonStreaming and executeStreaming), the conversions of requests, the
-- streams of other pairs of protocols, and the use that requests make of the tool replay cache.
mod Prelude
pub mod Catalog
pub mod Pool
pub mod Continuity
pub mod ToolReplay
pub mod Anthropic
pub mod Server
