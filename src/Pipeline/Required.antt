-- ===== src/Pipeline/Required.antt =====
-- The capabilities that Run of internal/gw/server/ingress_pipeline.go adds to the engine's decision.
use agentgate.Base.{
  ◌≡◌, refl, String, not, ◌&&◌, ◌||◌, List, contains, ◌==◌, Bool-cases, inl, inr, arith,
}
use agentgate.Policy.Capability.{Parser, detect_capabilities}
use agentgate.Policy.Decision.{Decision}
use agentgate.Policy.Merge.{contains-append_unique}
use agentgate.Policy.Required.{filter_degradable_lem}
use agentgate.Pipeline.Ingress.{ForwardRequest, require_capabilities}

-- The second decision is the first, but for its capabilities: these are the first one's and, where the
-- request is of Anthropic's protocol, those that its body needs and the policy does not let degrade.
abbrev pub Requires :
    {Body : Type 0} (parser : Parser)
    → ForwardRequest parser.Raw Body
    → List String
    → Decision
    → Decision
    → Type 0
Requires parser req allowed made dec =
    (dec ≡ record made { required_capabilities = dec.required_capabilities })
    × ((cap : String)
        → contains dec.required_capabilities cap ≡ (
            contains made.required_capabilities cap
            || ((req.protocol == "anthropic_messages")
                && (contains (detect_capabilities parser req.raw) cap
                    && not (contains allowed cap)))))

pub require_capabilities-Requires :
    {Body : Type 0} (parser : Parser) (req : ForwardRequest parser.Raw Body) (allowed : List String)
    (made : Decision)
    → Requires parser req allowed made (require_capabilities parser req allowed made)
unfolding require_capabilities
require_capabilities-Requires parser req allowed made =
    elim (Bool-cases (req.protocol == "anthropic_messages")) [
      | inl e ↦ rw e (
        refl,
        λ cap.
            rw (← filter_degradable_lem (detect_capabilities parser req.raw) allowed cap)
              (contains-append_unique made.required_capabilities _ cap),
      )
      | inr e ↦ rw e (refl, λ cap. ground arith)
    ]
