-- ===== src/Lib.antt =====
-- webpprof: a profiler for Go programs that records requests, queries, logs and other entities, keeps
-- a bounded window of them, and shows and analyses it.
--
-- The parts and how they interact. The options (options.go) make a configuration, from which a profiler
-- gets its store. The Log functions (profiler.go, context.go, request.go), the spans (task.go, measure.go,
-- query_span.go) and the HTTP middleware (profiler/http) take an entity, add what the context knows, and
-- either buffer it in the capture of the context's request or record it: the entity is marshalled, redacted
-- (redact.go) and handed to the store. The store (store.go) keeps the entries in a map and their order in a
-- deque (store_order.go); it evicts what is expired or exceeds its limits, sends each change to its
-- subscribers, and writes each change to its storage, in the order of the changes, from which it starts
-- again. The HTTP handlers (http.go) let a client log in, list the entries, read one, clear them and read
-- the dashboard (dashboard.go). The analysis (analysis.go, query_plan.go) reads the entries of an execution
-- and reports findings.
--
-- Files and the code that they model, with paths from the root of the repository:
--   Prelude        lists, texts, maps, integers and tests that the others share
--   Order          store_order.go: entryOrder; Order/Fifo is the queue that it refines
--   Entry          contracts.go: Kind, Entry; store.go: entrySize
--   Contracts      contracts.go: the entities that a program logs
--   Store          store.go: entryStore, put, clear and the eviction loops; Store/Window is the window
--                  that they maintain; Store/Holds relates the two
--   Store/Reads    store.go: get, requestEntries
--   Store/Query    store.go: filters, listBeforeFiltered, scopeIDsLocked, scopeEntries
--   Store/Streams  store.go: subscribe, close; websocket.go: how a reader receives from its channel
--   Store/Replay   store.go: replayRecord, openExternalStorage, openJournalStorage, compactJournal
--   Store/Persist  store.go: persist, persistRecord with an external storage, setStorageError and the
--                  wait of close
--   Store/Journal  store.go: persistRecord with a journal, appendJournal and the files of compactJournal
--   Redact         redact.go: redact, redactedValue, isSensitiveKey
--   Capture        profiler.go: record, the Log methods, LogRequest; request.go: RequestCapture;
--                  context.go: contexts, tags, the Log methods with a context; query_callsite.go
--   Capture/Spans, Capture/TaskSpan, Capture/EventSpan
--                  task.go, measure.go, query_span.go: spans and the functions that measure
--   Analysis       analysis.go: sqlShareFinding, queryFingerprint, the time of an execution, the cache
--                  operations and their rate of misses; Analysis/Repeats and Analysis/Bursts
--                  nPlusOneFindings and cacheMissQueryFindings; Analysis/Failures failed and slow operations;
--                  Analysis/Hierarchy newAnalysisEntryHierarchy; Analysis/Bottleneck
--                  executionBottleneckFinding and slowMiddlewareFindings; Analysis/Sequential
--                  sequentialHTTPFindings; Analysis/Execution analyzeExecution; Analysis/Stored
--                  AnalyzeRequest and its like
--   Analysis/Plans query_plan.go: DetectQueryPlanIssues
--   Http           http.go: sessions and the limit of failed logins, authorize, the routes, listEvents,
--                  getEvent, clearEvents, checkOrigin
--   Dashboard      dashboard.go: the options of a dashboard and its snapshot
--   Options        options.go, capture_rules.go: the options, ShouldCaptureRequest and
--                  takeRequestCaptureSlot; profiler.go: configFromOptions; store.go: newEntryStore
--   Middleware     profiler/http/middleware.go: workSpans, responseObserver, MiddlewareWith,
--                  ProfileMiddlewareWith, what is recorded of a request; profiler/http/body.go: BodyRecorder
--
-- A function keeps the name of its Go function in snake case, a nested one that of what it does; the handler
-- that MiddlewareWith returns is `capture_request`, and that of ProfileMiddlewareWith `invoke`. What a method
-- does under `mu` is one function of the state; it returns its results and the new state, and for a method of
-- the store also the storage batch that it hands to `persist`. The time of `time.Now()` is an argument. Code that
-- runs concurrently, `persist`, `takeRequestCaptureSlot` and the two critical sections of a login, is a sequence
-- of atomic steps of its callers, in any order that the schedule says; the readers of the streams receive between the
-- messages. A file operation is its outcome, an argument; a write that fails may leave a part of a record. A panic is
-- a value. A callback of the dashboard gets the number of the calls before it, on which its state may depend.
--
-- Loops that are not structural run on fuel. The eviction loops of the store get the number of ids in
-- the order, one of which goes in each round; that this is enough is part of the theorems on them,
-- which say what is left. The loop over sequential calls gets the number of the calls, and the loop
-- over a scope one more than the number of the entries, which is enough to empty its stack. The search
-- of subtreeMaximum gets the number of the entries, one of which it marks in each call that goes deeper.
--
-- Integers: byte counts are bit patterns of `int64` and counters are `uint64`, both with wrap-around;
-- the theorems on the store assume limits whose sums are no larger than an `int64`. Indices of the deque,
-- lengths, and the sizes of responses are unbounded. A time is a number of nanoseconds, 0 the zero time. Floats
-- are a parameter type, with the operations that the code uses.
--
-- Not modelled: the servers and the WebSocket pump, the statistics of the process, of the queues and of the
-- store; the adapters of third-party libraries under profiler/, the client, the MCP server, the SQLite
-- storage; static assets, headers and the JSON of responses; the texts and float percentages of findings.
-- Go's `encoding/json`, `regexp`, clocks, random ids and stack traces are arguments where a definition needs
-- them.
pub mod Prelude
pub mod Order
pub mod Entry
pub mod Contracts
pub mod Store
pub mod Redact
pub mod Capture
pub mod Analysis
pub mod Http
pub mod Dashboard
pub mod Options
pub mod Middleware
