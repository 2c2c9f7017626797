-- ===== src/Lib.antt =====
-- AgentGate, a gateway between coding agents and model vendors: its pipelines, its policy engine, its
-- routing, its budget, its costs, its conversions between wire formats and its streams.
--
-- The local proxy (internal/lp/server) sends an agent's request to the gateway, which admits it by its key
-- (internal/gw/auth). There the ingress pipeline
-- (internal/gw/server/ingress_pipeline.go) asks the policy engine (internal/gw/policy), which merges the
-- decisions of the rules that match. The decision names a pool; the selector (internal/gw/routing) turns
-- the pool into an ordered chain of members that the decision's constraints admit; the egress pipeline
-- (egress_pipeline.go) calls the first of them through an adapter (internal/gw/provider), which converts
-- the request (internal/shared/transformer), and the answer is relayed and accounted
-- (stream_accounting.go). The budget service (internal/gw/budget), in memory or in Postgres, holds
-- the estimated cost of the request until its actual cost is known, and the settler takes back what was
-- never settled. Pools, prices and rules come from YAML files (internal/gw/config).
--
--   Auth      internal/gw/auth: AuthMiddleware, RequireRole and RegisterRoutes of auth.go (Middleware),
--             PgKeyStore (Keys), PgInviteStore (Invites) and PgSetupTokenStore (SetupTokens)
--   Base      the shared types: Go's maps as lists of entries, 64-bit arithmetic, results with errors
--   External  the libraries that the repository calls, as interfaces: CEL, sort.Slice, math/rand/v2,
--             SHA-256, float64, io.Writer, and the maps and values of encoding/json
--   Config    internal/gw/config: the records of types.go (Types, Loaded), Lookup, Validate and
--             DefaultCurrencies of pricing.go (Pricing), PoolsConfig.Validate of pools.go (Pools),
--             Validate and ValidatePolicyAgainstPools of policy.go (Policy), and Validate of identity.go
--             (Identity)
--   Policy    internal/gw/policy: decision.go (Decision) and engine.go (Engine: SetPolicy is set_policy,
--             NewEngine new_engine, Decide decide, evalSafely eval_safely), capability_detect.go
--             (Capability)
--   Routing   internal/gw/routing: SeedBytes and Chacha8SeedFromStored (Seed), the shuffle of BuildChain
--             (Shuffle), satisfiesConstraints and memberSupports (Constraints), BuildChain, Replay and the
--             reloads (Selector)
--   Budget    internal/gw/budget: the reservation (Reservation) and the methods (Service) of service.go,
--             pg_service.go (Postgres), and settler.go (Settler)
--   Cost      internal/gw/cost/cost.go: Calculate and BuildEvent
--   Streaming internal/gw/server/stream_accounting.go: the lines of a stream (Lines), its usage (Usage),
--             forwardFrames (Forward) and run (Accounting), with the settlement that
--             internal/gw/server/ingress_pipeline.go passes to it
--   Classify  internal/gw/classifier/server_reclassifier.go (Server) and internal/lp/tagger/v0.go (Client)
--   Transformer
--             internal/shared/ir/types.go (Ir), and internal/shared/transformer: anthropic.go (Anthropic
--             the wire records, ToIr AnthropicToIR, FromIr the functions IRToAnthropic...), degraded.go
--             (Degraded), openai.go (OpenAi the wire records, OpenAiBody IRToOpenAI)
--   Provider  internal/gw/provider: adapter.go and what anthropicShapedDo sends and makes of an answer
--             (Request), OpenAICompatAdapter (OpenAi)
--   Pipeline  Run and tryStream of egress_pipeline.go (Egress, EgressRun), Run of ingress_pipeline.go
--             (Ingress, IngressRun)
--   Proxy     relayStream of internal/lp/server/anthropic.go (Relay) and its sseReader (Frames)
--   Tests     concrete runs, over stand-ins for the libraries (Tests/Doubles)
--
-- A method that takes a lock for its whole body is one function of the state. A run of the ingress
-- pipeline reads the live state at five moments, and a reload may come between any two of them: the five
-- values are the record Reads. Where Go's `int` is used for money or for counts of lines its wrap-around at
-- 64 bits is kept; where the code only compares, it is an integer. A Go panic is a result of its own. The order in which Go visits
-- the entries of a map is the order of the list, which is arbitrary. Clocks and random identifiers are
-- arguments, and so are the answers of the providers. An SQL statement is a function of the rows of its
-- table, with an argument that tells whether the database runs it, and a call of a store is one step.
--
-- Fuel: the printing of a 64-bit number has at most 20 digits. The relay of the proxy takes one unit for a
-- turn of its loop; a frame takes at least one byte from the stream, so that one unit more than the bytes
-- of the stream is enough.
--
-- Not modelled: HTTP, files and YAML, and the components that are only these; the rows that are only
-- logged to Postgres; repository
-- bindings; the reload itself, of which the pipelines see only the values they read; the client of the gateway and the ledger of the local proxy; the rendering of the
-- events that the gateway adds to a stream, since they are built by encoding/json.
pub mod Auth
pub mod Base
pub mod External
pub mod Config
pub mod Policy
pub mod Routing
pub mod Budget
pub mod Cost
pub mod Streaming
pub mod Classify
pub mod Transformer
pub mod Provider
pub mod Pipeline
pub mod Proxy
pub mod Tests
