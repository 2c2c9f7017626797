-- ===== src/Tests/Identity.antt =====
-- One user, one team and one repo, and the capabilities of one request:
-- internal/gw/config/identity.go and internal/gw/policy/capability_detect.go.
use agentgate.Base.{
  ◌⊎◌, ◌≡◌, ◌↔◌, refl, true, false, [], ◌∷◌, pos, contains, All, ok, none, some, ℕ, nat_eq,
  if◌then◌else◌,
}
use agentgate.Config.Types.{IdentityConfig, PolicyConfig}
use agentgate.Config.Identity.{IsValidUser, IsNamedRepo, validate_identity, validate_identity_lem}
use agentgate.Config.Policy.{
  validate_policy, validate_p0_action, validate_model_pool_required,
  validate_rule_model_pool_required, validate_degradation, check_capabilities, check_rules,
  compile_cel,
}
use agentgate.Policy.Capability.{Parser, filter_degradable, detect_capabilities, MessagesBody}
use agentgate.Policy.Blocks.{AnyOf, IsImage, IsCached, HasBlock, InSystem}
use agentgate.Policy.Required.{filter_degradable-validate_policy, detect_capabilities_lem}
use agentgate.Tests.Doubles.{test_cel}
use agentgate.Tests.Policy.{eu, policy}

abbrev pub identity : IdentityConfig
identity = record {
  users = record { user_id = "u1"; team_id = "core"; role = "developer"; api_key_hash = "" } ∷ [];
  teams = record { team_id = "core"; name = "Core"; budget_monthly_cap_cents = pos 100 } ∷ [];
  repos =
      record { repo_id = "r1"; remote_url = ""; default_team_id = "core"; restricted = false } ∷ [];
}

validate_identity_lem_example :
    (validate_identity identity ≡ ok tt)
    ↔ (All (IsValidUser ("core" ∷ [])) identity.users × All IsNamedRepo identity.repos)
validate_identity_lem_example = validate_identity_lem identity

abbrev degrading : PolicyConfig
degrading = record (policy (eu ∷ [])) {
  degradation = record { allowed_capabilities = "extended_thinking" ∷ "cache_control" ∷ [] };
}

degrading_valid : validate_policy test_cel degrading ≡ ok tt
unfolding validate_policy validate_p0_action validate_model_pool_required
    validate_rule_model_pool_required validate_degradation check_capabilities check_rules
    compile_cel
degrading_valid = refl

filter_degradable-validate_policy_example :
    contains
      (filter_degradable
        ("cache_control" ∷ "vision" ∷ [])
        degrading.degradation.allowed_capabilities)
      "vision"
    ≡ contains ("cache_control" ∷ "vision" ∷ []) "vision"
filter_degradable-validate_policy_example =
    filter_degradable-validate_policy test_cel degrading ("cache_control" ∷ "vision" ∷ [])
      degrading_valid

-- Raw JSON 0 is a body with the system prompt 1 and the message 2.
abbrev numbered : Parser
numbered = record {
  Raw = ℕ;
  blocks = λ n.
      if nat_eq n 1
      then some (record { type_ = "text"; cache_control = true } ∷ [])
      else if nat_eq n 2
      then some (record { type_ = "image"; cache_control = false } ∷ [])
      else none;
  block = λ _. none;
  body = λ n.
      if nat_eq n 0
      then some (record { messages = 2 ∷ []; system = some 1; thinking = false })
      else none;
}

detect_capabilities_lem_example :
    ((numbered.body 0 ≡ none) × (detect_capabilities numbered 0 ≡ []))
    ⊎ ((mb : MessagesBody ℕ) × (numbered.body 0 ≡ some mb)
        × ((contains (detect_capabilities numbered 0) "cache_control" ≡ true) ↔ (
            InSystem (HasBlock numbered IsCached) mb.system
            ⊎ AnyOf (HasBlock numbered IsCached) mb.messages))
        × (contains (detect_capabilities numbered 0) "extended_thinking" ≡ mb.thinking)
        × ((contains (detect_capabilities numbered 0) "vision" ≡ true)
            ↔ AnyOf (HasBlock numbered IsImage) mb.messages))
detect_capabilities_lem_example = detect_capabilities_lem numbered 0
