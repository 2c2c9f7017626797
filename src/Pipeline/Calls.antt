-- ===== src/Pipeline/Calls.antt =====
-- The calls of a provider that EgressPipeline.Run of internal/gw/server/egress_pipeline.go makes.
use agentgate.Base.{
  ℕ, ◌≡◌, refl, String, Bool, true, false, [], ◌∷◌, ◌==◌, ◌||◌, leb, ltb, Bool-cases, Option-cases,
  inl, inr, if◌then◌else◌, Result, ok, err, ok-injective, arith,
}
use agentgate.External.{JsonMaps}
use agentgate.Provider.Request.{
  ProviderRequest, Answer, no_request, unreachable, response, StreamError, Adapter, anthropic,
  anthropic_compat, openai_compat, anthropic_shaped_result, openai_compat_result, stream_result,
}
use agentgate.Routing.Constraints.{Member}
use agentgate.Transformer.Ir.{IrRequest}
use agentgate.Transformer.OpenAi.{ir_to_openai}
use agentgate.Pipeline.Egress.{Attempt, wrap_retry, retried, try_stream, provider_request}

-- Whether an answer makes tryStream call again.
abbrev pub calls_again : {Body : Type 0} → Adapter → Answer Body → Bool
calls_again adapter no_request = true
calls_again adapter unreachable = true
calls_again anthropic (response status body) = leb 500 status
calls_again anthropic_compat (response status body) = leb 500 status
calls_again openai_compat (response status body) = leb 400 status

module _ {Request Body : Type 0} where
  abbrev tried : Adapter → Answer Body → Result StreamError Body → Request → Attempt Request Body
  tried adapter answer second req = elim (stream_result adapter answer) [
    | ok body ↦ record { calls = req ∷ []; result = ok body }
    | err e ↦ retried req second e
  ]

  abbrev TriedIs : Adapter → Answer Body → Result StreamError Body → Request → Type 0
  TriedIs adapter answer second req = tried adapter answer second req ≡ (
      if calls_again adapter answer
      then record { calls = req ∷ req ∷ []; result = wrap_retry second }
      else record { calls = req ∷ []; result = stream_result adapter answer })

  shaped_answered :
      (status : ℕ) (body : Body) (second : Result StreamError Body) (req : Request)
      → TriedIs anthropic (response status body) second req
  unfolding stream_result anthropic_shaped_result
  shaped_answered status body second req = elim (Bool-cases (leb 400 status)) [
    | inl e ↦ elim (Bool-cases (ltb status 500)) [
      | inl f ↦ rw (e, f, tried) (rw (below f))
      | inr f ↦ rw (e, f, tried) (rw (above f))
    ]
    | inr e ↦ rw (e, tried) (rw (early e))
  ]
    where
      below : ltb status 500 ≡ true → leb 500 status ≡ false
      below f = ground arith

      above : ltb status 500 ≡ false → leb 500 status ≡ true
      above f = ground arith

      early : leb 400 status ≡ false → leb 500 status ≡ false
      early f = ground arith

  answered :
      (adapter : Adapter) (answer : Answer Body) (second : Result StreamError Body) (req : Request)
      → TriedIs adapter answer second req
  unfolding stream_result anthropic_shaped_result openai_compat_result
  answered anthropic no_request second req = refl
  answered anthropic unreachable second req = refl
  answered anthropic (response status body) second req = shaped_answered status body second req
  answered anthropic_compat no_request second req = refl
  answered anthropic_compat unreachable second req = refl
  answered anthropic_compat (response status body) second req =
      shaped_answered status body second req
  answered openai_compat no_request second req = refl
  answered openai_compat unreachable second req = refl
  answered openai_compat (response status body) second req = elim (Bool-cases (leb 400 status)) [
    | inl e ↦ rw (e, tried)
    | inr e ↦ rw (e, tried)
  ]

  -- A provider is called a second time exactly if the first call got no answer, an answer of status 500
  -- or more, or, from an OpenAI-compatible provider, of status 400 or more; then the result is that of
  -- the second call, with its error wrapped, and otherwise that of the first. Both calls carry the
  -- same request.
  pub try_stream_lem :
      (adapter : Adapter) (answers : ℕ → Request → Answer Body) (req : Request)
      → try_stream adapter answers req ≡ (
          if calls_again adapter (answers 0 req)
          then record {
            calls = req ∷ req ∷ [];
            result = wrap_retry (stream_result adapter (answers 1 req));
          }
          else record { calls = req ∷ []; result = stream_result adapter (answers 0 req) })
  unfolding try_stream
  try_stream_lem adapter answers req =
      answered adapter (answers 0 req) (stream_result adapter (answers 1 req)) req

-- A request for the member with the key.
abbrev pub IsFor : {F Raw Map : Type 0} → Member → String → ProviderRequest F Raw Map → Type 0
IsFor m api_key req = (req.url ≡ m.url) × (req.api_key ≡ api_key) × (req.model ≡ m.model)

module _ (json : JsonMaps) {F : Type 0} (m : Member) (api_key : String) where
  open json use {Raw, Map}

  pub provider_request-IsFor :
      (ir : IrRequest F Map) {req : ProviderRequest F Raw Map}
      → provider_request json m api_key ir ≡ ok req
      → IsFor m api_key req
  unfolding provider_request
  provider_request-IsFor ir h =
      elim (Bool-cases ((m.wire == "openai") || (m.wire == "openai_compat"))) [
        | inl e ↦ elim (Option-cases (ir_to_openai json ir)) [
          | inl f ↦ cc (rw f at (rw e at h))
          | inr (body, f) ↦ rw (← ok-injective (rw f at (rw e at h))) (refl, refl, refl)
        ]
        | inr e ↦ elim (Bool-cases ((m.wire == "anthropic") || (m.wire == "anthropic_compat"))) [
          | inl f ↦ rw (← ok-injective (rw f at (rw e at h))) (refl, refl, refl)
          | inr f ↦ cc (rw f at (rw e at h))
        ]
      ]
