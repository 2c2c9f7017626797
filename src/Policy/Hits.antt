-- ===== src/Policy/Hits.antt =====
-- The rules that match, in the order of the engine, and the merge of their decisions: the reading
-- of the loop of Decide in internal/gw/policy/engine.go that the theorems use.
use agentgate.Base.{
  String, Bool, true, false, ◌||◌, List, [], ◌∷◌, ◌++◌, Option, none, some, ◌≡◌, refl, ap, ◌∙◌, inl,
  inr, contains, ◌==◌, Bool-cases, if◌then◌else◌, arith, All, ℤ, ◌≤ℤ◌,
}
use agentgate.Config.Types.{PolicyRule}
use agentgate.External.{Cel, Descending}
use agentgate.Policy.Decision.{
  Decision, rank, override, merge_primary, allow_decision, route_decision, merge_both, merge,
}
use agentgate.Policy.Merge.{merge-union}
use agentgate.Policy.Engine.{CompiledRule, EvalInput, rule_to_decision, fires, decide_loop}

abbrev pub is_route : PolicyRule → Bool
is_route r = r.action == "route"

abbrev pub any_route : List PolicyRule → Bool
any_route [] = false
any_route (r ∷ rs) = is_route r || any_route rs

abbrev pub any_reason : List PolicyRule → String → Bool
any_reason [] x = false
any_reason (r ∷ rs) x = contains r.reasons x || any_reason rs x

-- The decision of a first match, merged with those of the later matches.
unfoldable pub merge_rules : Decision → List PolicyRule → Decision
merge_rules d [] = d
merge_rules d (r ∷ rs) = merge_rules (merge_both d (rule_to_decision r)) rs

unfoldable pub merged : List PolicyRule → Option Decision
unfolding merge_rules
merged [] = none
merged (r ∷ rs) = some (merge_rules (rule_to_decision r) rs)

module _ (cel : Cel) (env : cel.Env) (input : EvalInput cel) where
  unfoldable pub hits : List (CompiledRule cel) → List PolicyRule
  hits [] = []
  hits (cr ∷ rules) =
      let rest = hits rules in if fires cel env input cr then cr.rule ∷ rest else rest

  decide_loop-some :
      (rules : List (CompiledRule cel)) (d : Decision)
      → decide_loop cel env input rules (some d) ≡ some (merge_rules d (hits rules))
  unfolding decide_loop hits merge_rules merge
  decide_loop-some [] d = refl
  decide_loop-some (cr ∷ rules) d = elim (Bool-cases (fires cel env input cr)) [
    | inl e ↦ rw e (decide_loop-some rules (merge_both d (rule_to_decision cr.rule)))
    | inr e ↦ rw e (decide_loop-some rules d)
  ]

  pub decide_loop-hits :
      (rules : List (CompiledRule cel)) → decide_loop cel env input rules none ≡ merged (hits rules)
  unfolding decide_loop hits merged merge
  decide_loop-hits [] = refl
  decide_loop-hits (cr ∷ rules) = elim (Bool-cases (fires cel env input cr)) [
    | inl e ↦ rw e (decide_loop-some rules (rule_to_decision cr.rule))
    | inr e ↦ rw e (decide_loop-hits rules)
  ]

  hits-All :
      (P : PolicyRule → Type 0) (rules : List (CompiledRule cel))
      → All (λ c. P c.rule) rules
      → All P (hits rules)
  unfolding hits
  hits-All P [] h = tt
  hits-All P (cr ∷ rules) h = elim (Bool-cases (fires cel env input cr)) [
    | inl e ↦ rw e (h.0, hits-All P rules h.1)
    | inr e ↦ rw e (hits-All P rules h.1)
  ]

  -- The matches keep the engine's order of priorities.
  pub hits-Descending :
      (rules : List (CompiledRule cel))
      → Descending (λ c. c.rule.priority) rules
      → Descending (λ r. r.priority) (hits rules)
  unfolding hits
  hits-Descending [] h = tt
  hits-Descending (cr ∷ rules) h = elim (Bool-cases (fires cel env input cr)) [
    | inl e ↦
        rw e (hits-All (λ r. r.priority ≤ℤ cr.rule.priority) rules h.0, hits-Descending rules h.1)
    | inr e ↦ rw e (hits-Descending rules h.1)
  ]

pub rule_reasons : (r : PolicyRule) → (rule_to_decision r).reasons ≡ r.reasons
unfolding rule_to_decision allow_decision route_decision
rule_reasons r = ground arith

pub reasons-merge_rules :
    (d : Decision) (rs : List PolicyRule) (x : String)
    → contains (merge_rules d rs).reasons x ≡ (contains d.reasons x || any_reason rs x)
unfolding merge_rules
reasons-merge_rules d [] x = ground arith
reasons-merge_rules d (r ∷ rs) x =
    reasons-merge_rules (merge_both d (rule_to_decision r)) rs x
    ∙ rw (merge-union d (rule_to_decision r) x).3 (rw (rule_reasons r) (ground arith))

pub merge_rules-append :
    (d : Decision) (xs ys : List PolicyRule)
    → merge_rules d (xs ++ ys) ≡ merge_rules (merge_rules d xs) ys
unfolding merge_rules
merge_rules-append d [] ys = refl
merge_rules-append d (x ∷ xs) ys = merge_rules-append (merge_both d (rule_to_decision x)) xs ys

abbrev pub NotRoute : PolicyRule → Type 0
NotRoute r = is_route r ≡ false

pub NotRoute-decision :
    (r : PolicyRule) → NotRoute r → rule_to_decision r ≡ allow_decision r.reasons
unfolding rule_to_decision
NotRoute-decision r h = elim (Bool-cases (r.action == "allow")) [
  | inl e ↦ rw (h, e)
  | inr e ↦ rw (h, e)
]

NotRoute-pool :
    (d : Decision) (r : PolicyRule)
    → NotRoute r
    → (merge_both d (rule_to_decision r)).model_pool ≡ d.model_pool
unfolding merge_both allow_decision override
NotRoute-pool d r h = rw (NotRoute-decision r h)

-- Matches that are no routes leave the pool.
pub pool-merge_rules :
    (d : Decision) (rs : List PolicyRule)
    → All NotRoute rs
    → (merge_rules d rs).model_pool ≡ d.model_pool
unfolding merge_rules
pool-merge_rules d [] h = refl
pool-merge_rules d (r ∷ rs) h =
    pool-merge_rules (merge_both d (rule_to_decision r)) rs h.1 ∙ NotRoute-pool d r h.0

pub route_pool :
    (d : Decision) (r : PolicyRule)
    → is_route r ≡ true
    → (r.model_pool == "") ≡ false
    → (merge_both d (rule_to_decision r)).model_pool ≡ r.model_pool
unfolding rule_to_decision merge_both route_decision override
route_pool d r h p = ground arith

abbrev pub route_or_allow : Bool → String
route_or_allow b = if b then "route" else "allow"

pub rule_primary :
    (r : PolicyRule) → (rule_to_decision r).primary_action ≡ route_or_allow (is_route r)
unfolding rule_to_decision allow_decision route_decision
rule_primary r = ground arith

primary_step :
    (b c : Bool) → merge_primary (route_or_allow b) (route_or_allow c) ≡ route_or_allow (b || c)
unfolding merge_primary rank
primary_step true true = refl
primary_step true false = refl
primary_step false true = refl
primary_step false false = refl

pub primary-merge_rules :
    (d : Decision) (rs : List PolicyRule) (b : Bool)
    → d.primary_action ≡ route_or_allow b
    → (merge_rules d rs).primary_action ≡ route_or_allow (b || any_route rs)
unfolding merge_rules merge_both
primary-merge_rules d [] b h = h ∙ ap route_or_allow (ground arith)
primary-merge_rules d (r ∷ rs) b h =
    primary-merge_rules (merge_both d (rule_to_decision r)) rs (b || is_route r)
      (rw h (rw (rule_primary r) (primary_step b (is_route r))))
    ∙ ap route_or_allow (ground arith)

route_rule_pool :
    (r : PolicyRule) → is_route r ≡ true → (rule_to_decision r).model_pool ≡ r.model_pool
unfolding rule_to_decision route_decision
route_rule_pool r h = rw h

-- The merge of matches whose last route has a pool has that pool.
pub merged_pool :
    (before after : List PolicyRule) (r : PolicyRule)
    → is_route r ≡ true
    → (r.model_pool == "") ≡ false
    → All NotRoute after
    → (d : Decision) × (merged (before ++ r ∷ after) ≡ some d) × (d.model_pool ≡ r.model_pool)
unfolding merged
merged_pool [] after r route pool rest = (
  merge_rules (rule_to_decision r) after,
  refl,
  pool-merge_rules (rule_to_decision r) after rest ∙ route_rule_pool r route,
)
merged_pool (b ∷ bs) after r route pool rest = (
  merge_rules (rule_to_decision b) (bs ++ r ∷ after),
  refl,
  rw (merge_rules-append (rule_to_decision b) bs (r ∷ after)) (
      pool-merge_rules (merge_both (merge_rules (rule_to_decision b) bs) (rule_to_decision r)) after
        rest
      ∙ route_pool (merge_rules (rule_to_decision b) bs) r route pool),
)

All-middle {ℓ} :
    {A : Type 0} (P : A → Type ℓ) (xs : List A) (y : A) (ys : List A) → All P (xs ++ y ∷ ys) → P y
All-middle P [] y ys h = h.0
All-middle P (x ∷ xs) y ys h = All-middle P xs y ys h.1

-- What stands before an entry of a descending list has no smaller key.
pub Descending-before :
    {A : Type 0} (key : A → ℤ) (xs : List A) (y : A) (ys : List A)
    → Descending key (xs ++ y ∷ ys)
    → All (λ x. key y ≤ℤ key x) xs
Descending-before key [] y ys h = tt
Descending-before key (x ∷ xs) y ys h =
    (All-middle (λ z. key z ≤ℤ key x) xs y ys h.0, Descending-before key xs y ys h.1)
