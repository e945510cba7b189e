-- ===== src/Lib.antt =====
-- merm8 is a service that parses Mermaid diagrams and lints them. A parser process, one of a pool,
-- turns a text into a diagram; the result is kept in a cache. The engine runs the lint rules of the
-- diagram's family on it, takes away the findings that comments or the configuration suppress, and
-- reports the rest in a fixed order.
--
-- The files and the code that each models:
--   Prelude      shared names; sorting, total orders, texts, integers
--   Model        internal/model/diagram.go: diagrams, findings, families
--   Strings      the functions of Go's package strings that the code uses, for texts of Unicode
--   Rules        internal/rules
--     Config, Settings, Normalize   rule.go: the configuration, its validation and normalization
--     RuleId                        rule_id_namespace.go: the names of rules
--     Selector                      selector.go: suppression selectors
--     Keys                          what the rules share: counts, the nodes of an id, limits
--     Flowchart                     max_fanout.go, no_disconnected_nodes.go, no_duplicate_node_ids.go
--     Sequence, Class, Loops        the rules on actors, classes, and edges to the element itself
--     State                         state_no_unreachable.go
--     Cycles                        no_cycles.go
--     Chains                        er_no_circular_chain.go, class_no_circular_inheritance.go
--     Depth                         class_max_inheritance_depth.go
--   Parser       internal/parser
--     Cache                         cache.go: lruTTLCache with Get, SetWeighted, Set, Delete
--     ParseCache                    cache.go: parseCache; cache_config.go
--     Pool                          worker_pool.go: borrow, release, close, and the pool's clients
--     Source                        ast_enhancer.go: the names of nodes in the source
--   Engine       internal/engine/engine.go
--     Suppress, Selectors, Order    applySuppressions, applyConfigSelectors, sortIssues, dedupeIssues
--     Run                           NewWithRules, RunWithInstrumentation, fingerprints
--     Fresh                         what the engine relies on of the findings of the rules
--   Api          internal/api
--     RateLimit, Proxies            middleware.go: the rate limiter, and which client it counts
--     Origins, Headers              middleware.go: the origins of CORS, decisions on headers
--     Buffer                        middleware.go: the buffered response, its compression
--     AnalysisCache                 analysis_cache.go: Get, Set
--     Slots, Outcomes               handler.go: the limit on parser invocations, counters
--   Cli          cmd/merm8-cli/main.go: the run over its inputs, the exit code
--
-- Go's names are kept in snake case: `evictExpiredLocked` is `evict_expired`, `RuleEnabled` is
-- `rule_enabled`. A Go map is an association list or a list of its keys; where the code iterates over a
-- map, the order is the list's, or a function `order` that gives the keys in any order. A pointer that
-- may be nil is an `Option`, an `int` an integer without bounds, a time a natural number. What `int` makes
-- of a `float64` that no `int` of 64 bits holds stands beside the number in the configuration. The clock is
-- an argument, a mutex makes an operation, or a section of it, one step. Quoted strings, the decimal
-- text of a number, SHA-256, JSON, and the packages net and net/netip are parameters.
--
-- Loops. Most are structural. The loops that trim the two caches, the queue of
-- state_no_unreachable.go, and the searches of no_cycles.go, er_no_circular_chain.go,
-- class_no_circular_inheritance.go and class_max_inheritance_depth.go run on fuel. The fuel of the first
-- is the number of entries, one of which each round removes. The fuel of the queue is its length and the number of edges: a round takes
-- one state off the queue, and a state is put on it only when it is marked as reachable, which leaves
-- fewer edges to states that are not. The fuel of a search is the number of names at nodes and edges: a
-- call marks a name as visited that was not; that of class_max_inheritance_depth.go is one more, for a
-- call on a visited class.
--
-- Not modelled: the rule on paths of max_depth.go, the documentation data of registry.go and schema.go,
-- the protocol of the parser process, the handlers of the HTTP API with their wrappers and the OpenAPI
-- text, telemetry, SARIF, the flags and reports of the command line, the server, and the TypeScript parts.
-- The sink of the engine's metrics is what a run returns, without durations. The rate limiter and the cache
-- of analyses are not nil.
mod Prelude
pub mod Model
pub mod Strings
pub mod Rules
pub mod Parser
pub mod Engine
pub mod Api
pub mod Cli
