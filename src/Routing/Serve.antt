-- ===== src/Routing/Serve.antt =====
-- Why the first member of a chain can be read: internal/gw/server/ingress_pipeline.go indexes
-- `members[0]` after BuildChain of internal/gw/routing/selector.go returned no error.
use agentgate.Base.{
  ◌<◌, ◌≡◌, refl, subst, ap, ◌∙◌, inl, inr, ◌⊎◌, String, true, List, [], ◌∷◌, Option, some, eq_refl,
  contains, All, lookup, Dict, ℤ, pos_part, lt→ltb, Option-cases, ok, err, arith,
}
use agentgate.Config.Types.{ProviderEndpoint, PoolMember, Pool, PoolsConfig, PricingConfig}
use agentgate.Config.Pools.{validate_pools}
use agentgate.Config.Pools.Valid.{IsUsable, validate_pools-IsValidPool}
use agentgate.External.{Random, Sha256}
use agentgate.Policy.Decision.{Decision}
use agentgate.Routing.Constraints.{Member, satisfies_constraints}
use agentgate.Routing.Selector.{
  member_of, candidates, eligible, no_candidate_error, build_chain, new_selector,
}
use agentgate.Routing.Chain.{ids, any_weighted}
use agentgate.Routing.Build.{IsServable, List-cases, filter-All, build_chain_cases}

abbrev HasWeight : Member → Type 0
HasWeight c = 0 < pos_part c.original_weight

usable_weights :
    (registry : Dict ProviderEndpoint) (members : List PoolMember)
    → All (IsUsable registry) members
    → All HasWeight (candidates registry members)
unfolding candidates member_of
usable_weights registry [] h = tt
usable_weights registry (m ∷ members) h = elim (Option-cases (lookup m.endpoint_id registry)) [
  | inl e ↦ rw (e, candidates) (usable_weights registry members h.1)
  | inr (ep, e) ↦ rw (e, candidates) (omega arith, usable_weights registry members h.1)
]

first_weighted :
    (c : Member) (cs : List Member) → HasWeight c → any_weighted (c ∷ cs) c.endpoint_id ≡ true
first_weighted c cs h = rw (lt→ltb 0 (pos_part c.original_weight) h) (rw (eq_refl c.endpoint_id))

ids_nonempty :
    (chain : List Member) (x : String)
    → contains (ids chain) x ≡ true
    → (m : Member) × (ms : List Member) × (chain ≡ m ∷ ms)
ids_nonempty [] x h = cc
ids_nonempty (m ∷ ms) x h = (m, ms, refl)

-- With a pools.yaml that passes its check, a request for a declared pool finds a first member, which
-- satisfies the constraints of the decision, or is told that no candidate is eligible, and then none is.
pub build_chain-serves :
    {F : Type 0} (random : Random) (sha : Sha256) (cfg : PoolsConfig)
    (pricing : Option (PricingConfig F)) (name : String) (dec : Option Decision) (trace_id : String)
    (attempt_no : ℤ) {pool : Pool}
    → validate_pools cfg ≡ ok tt
    → lookup name cfg.pools ≡ some pool
    → let s = new_selector cfg pricing in
      ((m : Member) × (ms : List Member) × (build_chain random sha s name dec trace_id attempt_no
          ≡ ok (m ∷ ms))
        × IsServable random sha s pool dec m)
      ⊎ ((build_chain random sha s name dec trace_id attempt_no ≡ err (no_candidate_error name dec))
          × (eligible s pool dec ≡ []))
unfolding new_selector eligible
build_chain-serves random sha cfg pricing name dec trace_id attempt_no {pool} valid found =
    let s = new_selector cfg pricing in
    let weights =
      usable_weights cfg.provider_endpoints pool.members
        (validate_pools-IsValidPool cfg name valid found).usable in
    elim (build_chain_cases random sha s name dec trace_id attempt_no found) [
      | inl (none_left, e) ↦ inr (e, none_left)
      | inr (chain, some_left, run, _, ends, all) ↦ elim (List-cases (eligible s pool dec)) [
        | inl e ↦ absurd (some_left e)
        | inr (c, cs, e) ↦
            let weight =
              (subst (All _) e (
                filter-All HasWeight (λ c. satisfies_constraints c dec pricing)
                  (candidates cfg.provider_endpoints pool.members) weights)).0.1 in
            let (m, ms, same) =
              ids_nonempty chain c.endpoint_id
                (ends c.endpoint_id ∙ rw e (first_weighted c cs weight)) in
            inl
              (m, ms, run ∙ ap ok same, (subst (All (IsServable random sha s pool dec)) same all).0)
      ]
    ]
