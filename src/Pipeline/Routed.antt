-- ===== src/Pipeline/Routed.antt =====
-- Where a request goes through Run of internal/gw/server/ingress_pipeline.go and Run of
-- internal/gw/server/egress_pipeline.go.
use agentgate.Base.{
  ℕ, pos, ◌≤◌, ◌≡◌, refl, sym, subst, ◌∙◌, String, Bool, Option, none, some, List, [], ◌∷◌, Dict,
  length, All, Result-cases, inl, inr, ◌⊎◌, Result, ok, err, ok-injective,
}
use agentgate.Config.Loaded.{GatewayConfig}
use agentgate.External.{Random, Sha256, JsonMaps}
use agentgate.Policy.Decision.{Decision}
use agentgate.Provider.Request.{ProviderRequest, Answer, Adapter}
use agentgate.Routing.Constraints.{Member}
use agentgate.Routing.Selector.{Selector, build_chain}
use agentgate.Transformer.Anthropic.{AnthropicRequest}
use agentgate.Pipeline.Egress.{EgressError, EgressRun}
use agentgate.Pipeline.EgressRun.{egress_run}
use agentgate.Pipeline.Calls.{IsFor}
use agentgate.Pipeline.Sent.{egress_run-IsSent}
use agentgate.Pipeline.Ingress.{
  PipelineError, routing_build_chain, panicked, egress, PipelineResult, IngressRun, key_of,
  pool_or_standard, respond,
}
use agentgate.Pipeline.IngressRun.{run_egress, route}

-- A failed run that called no provider.
abbrev pub IsRefused : {Request Body : Type 0} → IngressRun Request Body → Type 0
IsRefused run = (run.calls ≡ []) × ((e : PipelineError) × (run.result ≡ err e))

-- A result, where there is one, names the member.
abbrev pub RoutedTo : {Body : Type 0} → Member → Result PipelineError (PipelineResult Body) → Type 0
RoutedTo m (err e) = Unit {0}
RoutedTo m (ok r) = r.routed_to ≡ m

module _ {F Raw Map Body : Type 0} where
  respond-RoutedTo :
      (has_cost_writer reserved : Bool) (m : Member) (pool : String) (dec : Decision)
      (run : EgressRun (ProviderRequest F Raw Map) Body)
      → RoutedTo m (respond has_cost_writer reserved m pool dec run).result
        × ((respond has_cost_writer reserved m pool dec run).calls ≡ run.calls)
  respond-RoutedTo has_cost_writer reserved m pool dec run = elim (Result-cases run.result) [
    | inl (e, p) ↦ rw (p, respond) (tt, refl)
    | inr (r, p) ↦ rw (p, respond) (refl, refl)
  ]

  respond-IsRefused :
      (has_cost_writer reserved : Bool) (m : Member) (pool : String) (dec : Decision)
      (run : EgressRun (ProviderRequest F Raw Map) Body) {e : EgressError}
      → run.calls ≡ []
      → run.result ≡ err e
      → IsRefused (respond has_cost_writer reserved m pool dec run)
  respond-IsRefused has_cost_writer reserved m pool dec run {e} none_made p =
      rw (p, respond) (none_made, (egress e, refl))

module _ (random : Random) (sha : Sha256) {F : Type 0} (trace_id : String) where
  -- The head of the chain for a decision.
  abbrev pub IsHead : Selector F → Decision → Member → Type 0
  IsHead s dec m =
      (ms : List Member) × (build_chain random sha s (pool_or_standard dec.model_pool) (some dec)
          trace_id (pos 1)
        ≡ ok (m ∷ ms))

  pub head_unique :
      (s : Selector F) (dec : Decision) (m m' : Member) → IsHead s dec m → IsHead s dec m' → m' ≡ m
  head_unique s dec m m' (ms, p) (ms', q) = cc (ok-injective (sym q ∙ p))

module _ (json : JsonMaps) (random : Random) (sha : Sha256) {F Body : Type 0}
    (adapters : Dict Adapter) (answers : ℕ → ProviderRequest F json.Raw json.Map → Answer Body)
    (trace_id : String) (has_cost_writer reserved : Bool)
    (body : Option (AnthropicRequest F json.Raw json.Map))
    (selector egress_selector : Selector F) where
  abbrev pub IsRouted :
      Option (GatewayConfig F)
      → Decision
      → IngressRun (ProviderRequest F json.Raw json.Map) Body
      → Type 0
  IsRouted key_config dec run =
      (m m' : Member) × (cfg : GatewayConfig F) × IsHead random sha trace_id selector dec m
      × IsHead random sha trace_id egress_selector dec m'
      × (key_config ≡ some cfg)
      × All (IsFor m' (key_of cfg m)) run.calls
      × (length run.calls ≤ 2)
      × RoutedTo m run.result

  run_egress-IsRouted :
      (key_config : Option (GatewayConfig F)) (dec : Decision) (m : Member) (ms : List Member)
      → build_chain random sha selector
          (pool_or_standard dec.model_pool)
          (some dec)
          trace_id
          (pos 1)
        ≡ ok (m ∷ ms)
      → let run =
          run_egress json random sha adapters answers trace_id has_cost_writer reserved body
            egress_selector dec m key_config in
        IsRefused run ⊎ IsRouted key_config dec run
  run_egress-IsRouted none dec m ms p = inl (refl, (panicked, refl))
  run_egress-IsRouted (some cfg) dec m ms p =
      let pool = pool_or_standard dec.model_pool in
      let run =
        egress_run json random sha adapters trace_id pool (pos 1) body (key_of cfg m) answers
          egress_selector (some dec) in
      elim (egress_run-IsSent json random sha adapters trace_id pool (pos 1) body (key_of cfg m)
        answers egress_selector (some dec)) [
          | inl (none_made, (e, q)) ↦
              inl (respond-IsRefused has_cost_writer reserved m pool dec run none_made q)
          | inr (m', ms', q, sent) ↦
              let (named, same) = respond-RoutedTo has_cost_writer reserved m pool dec run in
              inr (m, m', cfg, (ms, p), (ms', q), refl, rw same sent.0, rw same sent.1, named)
        ]

  route-head :
      (key_config : Option (GatewayConfig F)) (dec : Decision) (m : Member) (ms : List Member)
      → build_chain random sha selector
          (pool_or_standard dec.model_pool)
          (some dec)
          trace_id
          (pos 1)
        ≡ ok (m ∷ ms)
      → route json random sha adapters answers trace_id has_cost_writer reserved body selector
          egress_selector key_config dec
        ≡ run_egress json random sha adapters answers trace_id has_cost_writer reserved body
            egress_selector dec m key_config
  unfolding route
  route-head key_config dec m ms p = rw p

  pub route-IsRouted :
      (key_config : Option (GatewayConfig F)) (dec : Decision)
      → let run =
          route json random sha adapters answers trace_id has_cost_writer reserved body selector
            egress_selector key_config dec in
        IsRefused run ⊎ IsRouted key_config dec run
  unfolding route
  route-IsRouted key_config dec =
      elim (Result-cases (
        build_chain random sha selector (pool_or_standard dec.model_pool) (some dec) trace_id
          (pos 1))) [
            | inl (e, p) ↦ inl (rw (p, route) refl, (routing_build_chain e, rw (p, route) refl))
            | inr ([], p) ↦ inl (rw (p, route) refl, (panicked, rw (p, route) refl))
            | inr (m ∷ ms, p) ↦
                subst (λ run. IsRefused run ⊎ IsRouted key_config dec run)
                  (sym (route-head key_config dec m ms p))
                  (run_egress-IsRouted key_config dec m ms p)
          ]
