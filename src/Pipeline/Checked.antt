-- ===== src/Pipeline/Checked.antt =====
-- A gateway whose configuration passes the checks of internal/gw/config, under Run of
-- internal/gw/server/ingress_pipeline.go.
use agentgate.Base.{
  ℕ, pos, ◌≤◌, ◌≡◌, refl, sym, subst, ◌∙◌, String, Bool, Option, some, List, [], ◌∷◌, Dict, lookup,
  length, All, Result-cases, inl, inr, ◌⊎◌, Result, ok, err, ok-injective, arith,
}
use agentgate.Config.Loaded.{GatewayConfig}
use agentgate.Config.Policy.{validate_policy, validate_policy_against_pools}
use agentgate.Config.Pools.{validate_pools}
use agentgate.Config.Types.{Pool}
use agentgate.External.{Cel, Random, Sha256, JsonMaps}
use agentgate.Policy.Decision.{Decision}
use agentgate.Policy.Declared.{IsDeclared}
use agentgate.Provider.Request.{ProviderRequest, Answer, Adapter}
use agentgate.Routing.Build.{IsServable}
use agentgate.Routing.Constraints.{Member}
use agentgate.Routing.Selector.{Selector, no_candidate_error, build_chain, eligible}
use agentgate.Transformer.Anthropic.{AnthropicRequest}
use agentgate.Pipeline.Egress.{EgressRun}
use agentgate.Pipeline.EgressRun.{egress_run}
use agentgate.Pipeline.Calls.{IsFor}
use agentgate.Pipeline.Sent.{egress_run-IsSent}
use agentgate.Pipeline.Ingress.{
  PipelineError, routing_build_chain, egress, PipelineResult, IngressRun, key_of, pool_or_standard,
  respond,
}
use agentgate.Pipeline.IngressRun.{route}

-- A response that names the member, or the failure of its provider.
abbrev pub EndsAt : {Body : Type 0} → Member → Result PipelineError (PipelineResult Body) → Type 0
EndsAt m (ok r) = r.routed_to ≡ m
EndsAt m (err (egress e)) = Unit {0}
EndsAt m (err _) = ⊥

pub pool_or_standard-declared :
    (pools : Dict Pool) (d : Decision) {standard : Pool}
    → lookup "standard" pools ≡ some standard
    → IsDeclared pools d
    → (pool : Pool) × (lookup (pool_or_standard d.model_pool) pools ≡ some pool)
pool_or_standard-declared pools d {standard} h (inl (_, empty)) = (standard, rw empty h)
pool_or_standard-declared pools d h (inr (_, (pool, found), named)) = (pool, rw named found)

module _ (json : JsonMaps) (random : Random) (sha : Sha256) {F Body : Type 0}
    (adapters : Dict Adapter) (answers : ℕ → ProviderRequest F json.Raw json.Map → Answer Body)
    (trace_id : String) (has_cost_writer reserved : Bool)
    (body : Option (AnthropicRequest F json.Raw json.Map)) (s : Selector F) (cfg : GatewayConfig F)
    (dec : Decision) where
  respond-EndsAt :
      (m : Member) (pool : String) (run : EgressRun (ProviderRequest F json.Raw json.Map) Body)
      → EndsAt m (respond has_cost_writer reserved m pool dec run).result
        × ((respond has_cost_writer reserved m pool dec run).calls ≡ run.calls)
  respond-EndsAt m pool run = elim (Result-cases run.result) [
    | inl (e, p) ↦ rw (p, respond) (tt, refl)
    | inr (r, p) ↦ rw (p, respond) (refl, refl)
  ]

  abbrev pub IsServed : Pool → IngressRun (ProviderRequest F json.Raw json.Map) Body → Type 0
  IsServed pool run =
      ((run.calls ≡ [])
        × (run.result
            ≡ err (
                routing_build_chain
                  (no_candidate_error (pool_or_standard dec.model_pool) (some dec))))
        × (eligible s pool (some dec) ≡ []))
      ⊎ ((m : Member) × IsServable random sha s pool (some dec) m
          × All (IsFor m (key_of cfg m)) run.calls
          × (length run.calls ≤ 2)
          × EndsAt m run.result)

  abbrev egress_at : Member → EgressRun (ProviderRequest F json.Raw json.Map) Body
  egress_at m =
      egress_run json random sha adapters trace_id (pool_or_standard dec.model_pool) (pos 1) body
        (key_of cfg m) answers s (some dec)

  head_calls :
      (m : Member) (ms : List Member)
      → build_chain random sha s (pool_or_standard dec.model_pool) (some dec) trace_id (pos 1)
        ≡ ok (m ∷ ms)
      → All (IsFor m (key_of cfg m)) (egress_at m).calls × (length (egress_at m).calls ≤ 2)
  head_calls m ms p =
      elim (egress_run-IsSent json random sha adapters trace_id (pool_or_standard dec.model_pool)
        (pos 1) body (key_of cfg m) answers s (some dec)) [
          | inl (none_made, failed) ↦ rw none_made (tt, omega arith)
          | inr (m', ms', q, sent) ↦
              let one : m' ≡ m = cc (ok-injective (sym q ∙ p)) in
              (subst (λ x. All (IsFor x (key_of cfg m)) (egress_at m).calls) one sent.0, sent.1)
        ]

  -- The run once the first chain is known.
  abbrev routed_at : Member → IngressRun (ProviderRequest F json.Raw json.Map) Body
  routed_at m =
      respond has_cost_writer reserved m (pool_or_standard dec.model_pool) dec (egress_at m)

  abbrev pub routed : IngressRun (ProviderRequest F json.Raw json.Map) Body
  routed =
      route json random sha adapters answers trace_id has_cost_writer reserved body s s (some cfg)
        dec

  pub routed_at-IsServed :
      (pool : Pool) (m : Member) (ms : List Member)
      → build_chain random sha s (pool_or_standard dec.model_pool) (some dec) trace_id (pos 1)
        ≡ ok (m ∷ ms)
      → IsServable random sha s pool (some dec) m
      → IsServed pool routed
  unfolding route
  routed_at-IsServed pool m ms p servable =
      let same : routed ≡ routed_at m = rw (p, route) in
      let (calls, few) = head_calls m ms p in
      let (ends, made) = respond-EndsAt m (pool_or_standard dec.model_pool) (egress_at m) in
      inr (m, servable, rw same (rw made calls), rw same (rw made few), rw same ends)

  pub refused-IsServed :
      (pool : Pool)
      → build_chain random sha s (pool_or_standard dec.model_pool) (some dec) trace_id (pos 1)
        ≡ err (no_candidate_error (pool_or_standard dec.model_pool) (some dec))
      → eligible s pool (some dec) ≡ []
      → IsServed pool routed
  unfolding route
  refused-IsServed pool p empty = inl (rw (p, route) refl, rw (p, route) refl, empty)

-- A configuration that has passed the checks of Load, with the pool that is used by default.
pub record IsChecked {F : Type 0} (cel : Cel) (sort_strings : List String → List String)
    (cfg : GatewayConfig F) : Type 0 where
  pub policy_valid : validate_policy cel cfg.policy ≡ ok tt
  pub pools_valid : validate_pools cfg.pools ≡ ok tt
  pub declared : validate_policy_against_pools sort_strings cfg.policy cfg.pools ≡ ok tt
  pub standard : Pool
  pub has_standard : lookup "standard" cfg.pools.pools ≡ some standard
