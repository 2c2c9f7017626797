-- ===== src/Pipeline/Sent.antt =====
-- Where the calls of EgressPipeline.Run, internal/gw/server/egress_pipeline.go, go.
use agentgate.Base.{
  ℕ, ◌≤◌, ◌≡◌, refl, String, Option, none, some, List, [], ◌∷◌, Dict, lookup, length, All,
  Bool-cases, Option-cases, Result-cases, inl, inr, ◌⊎◌, Result, ok, err, ℤ, arith,
}
use agentgate.External.{Random, Sha256, JsonMaps}
use agentgate.Policy.Decision.{Decision}
use agentgate.Provider.Request.{ProviderRequest, Answer, is_upstream_error, Adapter}
use agentgate.Routing.Constraints.{Member}
use agentgate.Routing.Selector.{Selector, build_chain}
use agentgate.Transformer.Anthropic.{AnthropicRequest}
use agentgate.Pipeline.Egress.{
  EgressError, routing_error, panicked, EgressResult, EgressRun, Attempt, try_stream,
  provider_request, degraded_for,
}
use agentgate.Pipeline.EgressRun.{finish, call_provider, with_adapter, egress_run}
use agentgate.Pipeline.Calls.{IsFor, calls_again, try_stream_lem, provider_request-IsFor}

module _ {Body : Type 0} (m : Member) (ms : List Member) (api_key : String) where
  abbrev pub Names : Result EgressError (EgressResult Body) → Type 0
  Names (err e) = Unit {0}
  Names (ok r) = (r.member ≡ m) × (r.chain ≡ m ∷ ms) × (r.api_key ≡ api_key)

module _ {F Raw Map Body : Type 0} (m : Member) (ms : List Member) (api_key : String) where
  -- At most two calls, all for the member with the key, and a result that names them.
  abbrev pub IsSent : EgressRun (ProviderRequest F Raw Map) Body → Type 0
  IsSent run =
      All (IsFor m api_key) run.calls × (length run.calls ≤ 2) × Names m ms api_key run.result

  tried :
      (adapter : Adapter) (answers : ℕ → ProviderRequest F Raw Map → Answer Body)
      (req : ProviderRequest F Raw Map)
      → IsFor m api_key req
      → All (IsFor m api_key) (try_stream adapter answers req).calls
        × (length (try_stream adapter answers req).calls ≤ 2)
  tried adapter answers req h =
      rw (try_stream_lem adapter answers req)
        (elim (Bool-cases (calls_again adapter (answers 0 req))) [
          | inl e ↦ rw e ((h, (h, tt)), omega arith)
          | inr e ↦ rw e ((h, tt), omega arith)
        ])

  finish-IsSent :
      (partial : EgressResult (Unit {0})) (attempt : Attempt (ProviderRequest F Raw Map) Body)
      → (partial.member ≡ m) × (partial.chain ≡ m ∷ ms) × (partial.api_key ≡ api_key)
      → All (IsFor m api_key) attempt.calls
      → length attempt.calls ≤ 2
      → IsSent (finish m partial attempt)
  finish-IsSent partial attempt named calls few = elim (Result-cases attempt.result) [
    | inl (e, p) ↦ elim (Bool-cases (is_upstream_error e)) [
      | inl u ↦ rw (p, finish) (rw u (calls, few, tt))
      | inr u ↦ rw (p, finish) (rw u (calls, few, tt))
    ]
    | inr (body, p) ↦ rw (p, finish) (calls, few, named)
  ]

module _ (json : JsonMaps) (random : Random) (sha : Sha256) {F Body : Type 0}
    (adapters : Dict Adapter) (trace_id pool_name : String) (attempt_no : ℤ)
    (body : Option (AnthropicRequest F json.Raw json.Map)) (api_key : String)
    (answers : ℕ → ProviderRequest F json.Raw json.Map → Answer Body) where
  with_adapter-IsSent :
      (m : Member) (ms : List Member) (found : Option Adapter)
      → IsSent m ms api_key (
          with_adapter json random sha adapters trace_id pool_name attempt_no body api_key answers m
            (m ∷ ms)
            found)
  with_adapter-IsSent m ms none = (tt, omega arith, tt)
  with_adapter-IsSent m ms (some adapter) = elim (Option-cases body) [
    | inl e ↦ rw (e, with_adapter) (tt, omega arith, tt)
    | inr (raw, e) ↦
        elim (Result-cases (provider_request json m api_key (degraded_for json m raw).1)) [
          | inl (x, p) ↦ rw (e, with_adapter) (rw (p, call_provider) (tt, omega arith, tt))
          | inr (req, p) ↦
              let (calls, few) =
                tried m ms api_key adapter answers req
                  (provider_request-IsFor json m api_key (degraded_for json m raw).1 p) in
              rw (e, with_adapter)
                (rw (p, call_provider)
                  (finish-IsSent m ms api_key _ (try_stream adapter answers req) (refl, refl, refl)
                    calls few))
        ]
  ]

  -- Without a chain no provider is called, and the run fails. With one, at most two calls are made, and
  -- each goes to the URL of its first member, with the given key and the member's model; a result names
  -- this member, the whole chain and the key.
  pub egress_run-IsSent :
      (sel : Selector F) (dec : Option Decision)
      → let run =
          egress_run json random sha adapters trace_id pool_name attempt_no body api_key answers sel
            dec in
        ((run.calls ≡ []) × ((e : EgressError) × (run.result ≡ err e)))
        ⊎ ((m : Member) × (ms : List Member) × (build_chain random sha sel pool_name dec trace_id
                attempt_no
              ≡ ok (m ∷ ms))
            × IsSent m ms api_key run)
  unfolding egress_run
  egress_run-IsSent sel dec =
      elim (Result-cases (build_chain random sha sel pool_name dec trace_id attempt_no)) [
        | inl (e, p) ↦ inl (rw (p, egress_run) refl, (routing_error e, rw (p, egress_run) refl))
        | inr ([], p) ↦ inl (rw (p, egress_run) refl, (panicked, rw (p, egress_run) refl))
        | inr (m ∷ ms, p) ↦
            inr (m, ms, p, rw (p, egress_run) (with_adapter-IsSent m ms (lookup m.wire adapters)))
      ]
