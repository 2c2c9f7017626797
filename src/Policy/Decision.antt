-- ===== src/Policy/Decision.antt =====
-- The three-slot decision and its merge: internal/gw/policy/decision.go. The Go types
-- PrimaryAction, Modifier and SideEffect are strings, and so they are here; the three copies of the
-- append helper, one for each of these types, are one definition.
use agentgate.Base.{
  ℕ, String, List, [], ◌∷◌, ◌++◌, Option, none, some, Dict, lookup, or_zero, contains, ◌==◌, leb,
  if◌then◌else◌,
}

pub record Decision : Type 0 where
  pub primary_action : String
  pub modifiers : List String
  pub side_effects : List String
  pub model_pool : String
  pub shadow_pool : String
  pub redactions : List String
  pub reasons : List String
  pub required_trust_tier : String
  pub required_data_residency : List String
  pub required_capabilities : List String
  pub degraded_features : List String

abbrev pub action_allow : String
action_allow = "allow"

abbrev pub action_route : String
action_route = "route"

-- The zero value of the struct, to which a literal adds its fields.
abbrev pub zero_decision : Decision
zero_decision = record {
  primary_action = "";
  modifiers = [];
  side_effects = [];
  model_pool = "";
  shadow_pool = "";
  redactions = [];
  reasons = [];
  required_trust_tier = "";
  required_data_residency = [];
  required_capabilities = [];
  degraded_features = [];
}

unfoldable pub allow_decision : List String → Decision
allow_decision reasons = record zero_decision { primary_action = action_allow; reasons = reasons }

unfoldable pub route_decision : String → List String → Decision
route_decision pool reasons = record zero_decision {
  primary_action = action_route;
  model_pool = pool;
  reasons = reasons;
}

-- The map literal of `mergePrimary`. An action that it lacks has rank 0, Go's zero value.
abbrev ranks : Dict ℕ
ranks = ("block", 5) ∷ ("require_approval", 4) ∷ ("route", 3) ∷ ("allow", 2) ∷ ("", 1) ∷ []

unfoldable pub rank : String → ℕ
rank a = or_zero (lookup a ranks)

unfoldable pub merge_primary : String → String → String
merge_primary a b = if leb (rank b) (rank a) then a else b

-- The second loop: `seen` and `slice` grow together.
unfoldable pub append_unseen : List String → List String → List String → List String
append_unseen seen slice [] = slice
append_unseen seen slice (s ∷ items) =
    append_unseen (if contains seen s then seen else s ∷ seen)
      (if contains seen s then slice else slice ++ s ∷ []) items

-- The first loop marks what the slice holds.
unfoldable pub mark_seen : List String → List String → List String
mark_seen seen [] = seen
mark_seen seen (s ∷ slice) = mark_seen (s ∷ seen) slice

unfoldable pub append_unique : List String → List String → List String
append_unique slice items = append_unseen (mark_seen [] slice) slice items

-- `if b != "" { out = b }`
unfoldable pub override : String → String → String
override a b = if b == "" then a else b

-- `if len(b) > 0 { out = append_unique(out, b) }`
unfoldable pub append_nonempty : List String → List String → List String
append_nonempty a [] = a
append_nonempty a (x ∷ b) = append_unique a (x ∷ b)

unfoldable pub merge_both : Decision → Decision → Decision
merge_both a b = record {
  primary_action = merge_primary a.primary_action b.primary_action;
  modifiers = append_unique a.modifiers b.modifiers;
  side_effects = append_unique a.side_effects b.side_effects;
  model_pool = override a.model_pool b.model_pool;
  shadow_pool = override a.shadow_pool b.shadow_pool;
  redactions = append_unique a.redactions b.redactions;
  reasons = append_unique a.reasons b.reasons;
  required_trust_tier = override a.required_trust_tier b.required_trust_tier;
  required_data_residency = append_nonempty a.required_data_residency b.required_data_residency;
  required_capabilities = append_nonempty a.required_capabilities b.required_capabilities;
  degraded_features = append_unique a.degraded_features b.degraded_features;
}

-- `Merge`; a nil decision is `none`.
unfoldable pub merge : Option Decision → Option Decision → Option Decision
merge none b = b
merge (some a) none = some a
merge (some a) (some b) = some (merge_both a b)
