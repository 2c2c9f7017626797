-- ===== src/Routing/Build.antt =====
-- What BuildChain of internal/gw/routing/selector.go returns, on every branch.
use agentgate.Base.{
  ◌≡◌, ◌≢◌, refl, ◌∙◌, subst, inl, inr, ◌⊎◌, String, Bool, true, List, [], ◌∷◌, Option, none, some,
  contains, All, filter, lookup, Dict, ℤ, Bool-cases, Option-cases, ok, err, arith,
}
use agentgate.Config.Types.{ProviderEndpoint, PoolMember, Pool}
use agentgate.External.{Random, Sha256}
use agentgate.Policy.Decision.{Decision}
use agentgate.Routing.Constraints.{Member, satisfies_constraints}
use agentgate.Routing.Seed.{seed_bytes}
use agentgate.Routing.Expand.{length-seed_bytes}
use agentgate.Routing.Selector.{
  Selector, RoutingError, panicked, no_candidate, member_of, candidates, eligible,
  no_candidate_error, chain_or_error, build_chain,
}
use agentgate.Routing.Chain.{ids, Distinct, any_weighted, chain_from_seed_lem}

-- The member stands for an entry of the pool whose endpoint is registered.
abbrev pub Drawn : Dict ProviderEndpoint → List PoolMember → Member → Type 0
Drawn registry [] c = ⊥
Drawn registry (m ∷ members) c =
    ((ep : ProviderEndpoint) × (lookup m.endpoint_id registry ≡ some ep) × (c ≡ member_of m ep))
    ⊎ Drawn registry members c

All-map :
    (P Q : Member → Type 0) → ((c : Member) → P c → Q c) → (cs : List Member) → All P cs → All Q cs
All-map P Q f [] h = tt
All-map P Q f (c ∷ cs) h = (f c h.0, All-map P Q f cs h.1)

candidates-Drawn :
    (registry : Dict ProviderEndpoint) (members : List PoolMember)
    → All (Drawn registry members) (candidates registry members)
unfolding candidates
candidates-Drawn registry [] = tt
candidates-Drawn registry (m ∷ members) =
    let rest =
      All-map (Drawn registry members) (Drawn registry (m ∷ members)) (λ c d. inr d)
        (candidates registry members) (candidates-Drawn registry members) in
    elim (Option-cases (lookup m.endpoint_id registry)) [
      | inl e ↦ rw (e, candidates) rest
      | inr (ep, e) ↦ rw (e, candidates) (inl (ep, e, refl), rest)
    ]

pub filter-All :
    (P : Member → Type 0) (test : Member → Bool) (cs : List Member)
    → All P cs
    → All (λ c. (test c ≡ true) × P c) (filter test cs)
filter-All P test [] h = tt
filter-All P test (c ∷ cs) h = elim (Bool-cases (test c)) [
  | inl e ↦ rw e ((e, h.0), filter-All P test cs h.1)
  | inr e ↦ rw e (filter-All P test cs h.1)
]

pub List-cases : {A : Type 0} (xs : List A) → (xs ≡ []) ⊎ ((y : A) × (ys : List A) × (xs ≡ y ∷ ys))
List-cases [] = inl refl
List-cases (x ∷ xs) = inr (x, xs, refl)

-- The error where no candidate is eligible.
abbrev pub IsRefusal : String → Option Decision → RoutingError → Type 0
IsRefusal name none e = e ≡ panicked
IsRefusal name (some dec) e =
    e
    ≡ no_candidate name dec.required_trust_tier dec.required_data_residency
        dec.required_capabilities

no_candidate_error-IsRefusal :
    (name : String) (dec : Option Decision) → IsRefusal name dec (no_candidate_error name dec)
unfolding no_candidate_error
no_candidate_error-IsRefusal name none = refl
no_candidate_error-IsRefusal name (some dec) = refl

module _ {F : Type 0} (random : Random) (sha : Sha256) (s : Selector F) where
  -- A member of a chain satisfies the constraints, and stands for a registered entry of the pool.
  abbrev pub IsServable : Pool → Option Decision → Member → Type 0
  IsServable pool dec m =
      (satisfies_constraints m dec s.pricing ≡ true) × Drawn s.registry pool.members m

  eligible-IsServable :
      (pool : Pool) (dec : Option Decision) → All (IsServable pool dec) (eligible s pool dec)
  unfolding eligible
  eligible-IsServable pool dec =
      filter-All (Drawn s.registry pool.members) (λ c. satisfies_constraints c dec s.pricing)
        (candidates s.registry pool.members) (candidates-Drawn s.registry pool.members)

  pub build_chain_cases :
      (name : String) (dec : Option Decision) (trace_id : String) (attempt_no : ℤ) {pool : Pool}
      → lookup name s.pools ≡ some pool
      → ((eligible s pool dec ≡ [])
          × (build_chain random sha s name dec trace_id attempt_no
              ≡ err (no_candidate_error name dec)))
        ⊎ ((chain : List Member) × (eligible s pool dec ≢ [])
            × (build_chain random sha s name dec trace_id attempt_no ≡ ok chain)
            × Distinct (ids chain)
            × ((x : String) → contains (ids chain) x ≡ any_weighted (eligible s pool dec) x)
            × All (IsServable pool dec) chain)
  unfolding build_chain chain_or_error
  build_chain_cases name dec trace_id attempt_no {pool} found =
      elim (List-cases (eligible s pool dec)) [
        | inl e ↦ inl (e, rw (found, build_chain) (rw e))
        | inr (c, cs, e) ↦
            let sixteen = length-seed_bytes sha trace_id name attempt_no in
            let stored = seed_bytes sha trace_id name attempt_no in
            let (chain, run, distinct, ends, all) =
              chain_from_seed_lem random stored (c ∷ cs) (omega (arith, sixteen))
                (omega (arith, sixteen)) in
            inr (
              chain,
              λ none_left. cc,
              rw (found, build_chain) (rw e run),
              distinct,
              λ x. ends x ∙ rw e,
              all (IsServable pool dec)
                  (subst (All (IsServable pool dec)) e (eligible-IsServable pool dec)),
            )
      ]

  -- For a declared pool: if no candidate is eligible, the call fails, with an error that names the pool and
  -- the decision's constraints, and where there is no decision, by a panic, since it reads the nil
  -- decision for that error; otherwise there is a chain, no endpoint stands in it twice, its endpoints
  -- are those of the eligible candidates of positive weight, and each member satisfies the constraints
  -- of the decision and stands for a registered entry of the pool.
  pub build_chain_lem :
      (name : String) (dec : Option Decision) (trace_id : String) (attempt_no : ℤ) {pool : Pool}
      → lookup name s.pools ≡ some pool
      → ((eligible s pool dec ≡ [])
          × ((e : RoutingError) × (build_chain random sha s name dec trace_id attempt_no ≡ err e)
              × IsRefusal name dec e))
        ⊎ ((chain : List Member) × (eligible s pool dec ≢ [])
            × (build_chain random sha s name dec trace_id attempt_no ≡ ok chain)
            × Distinct (ids chain)
            × ((x : String) → contains (ids chain) x ≡ any_weighted (eligible s pool dec) x)
            × All (IsServable pool dec) chain)
  build_chain_lem name dec trace_id attempt_no {pool} found =
      elim (build_chain_cases name dec trace_id attempt_no found) [
        | inl (empty, failed) ↦
            inl
              (empty, (no_candidate_error name dec, failed, no_candidate_error-IsRefusal name dec))
        | inr chain ↦ inr chain
      ]
