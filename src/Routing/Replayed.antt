-- ===== src/Routing/Replayed.antt =====
-- How Replay of internal/gw/routing/execute.go compares with the chain that BuildChain of
-- internal/gw/routing/selector.go made: Replay does not filter by constraints.
use mathlib.Core.Bool.{false≢true}
use agentgate.Base.{
  ℕ, ◌≡◌, ◌≢◌, refl, sym, ap, ◌∙◌, inl, inr, String, true, false, List, [], ◌∷◌, Option, some,
  contains, All, filter, lookup, ℤ, Bool, ok, ok-injective, arith,
}
use agentgate.Config.Types.{Pool}
use agentgate.External.{Random, Sha256}
use agentgate.Policy.Decision.{Decision}
use agentgate.Routing.Constraints.{Member, satisfies_constraints}
use agentgate.Routing.Seed.{seed_bytes}
use agentgate.Routing.Expand.{length-seed_bytes}
use agentgate.Routing.Selector.{
  RoutingError, no_members, no_candidate_error, Selector, candidates, eligible, chain_or_error,
  build_chain, RoutingEventRow, replay,
}
use agentgate.Routing.Chain.{ids, any_weighted, chain_from_seed_lem}
use agentgate.Routing.Build.{List-cases, build_chain_cases}

filter_keeps :
    (test : Member → Bool) (cs : List Member) → All (λ c. test c ≡ true) cs → filter test cs ≡ cs
filter_keeps test [] h = refl
filter_keeps test (c ∷ cs) h = rw h.0 (ap (λ r. c ∷ r) (filter_keeps test cs h.1))

-- The error for no candidates is all that depends on the caller.
chain_or_error_any :
    (random : Random) (e e' : RoutingError) (stored : List ℕ) (cs : List Member)
    {chain : List Member}
    → chain_or_error random e stored cs ≡ ok chain
    → chain_or_error random e' stored cs ≡ ok chain
unfolding chain_or_error
chain_or_error_any random e e' stored [] h = cc
chain_or_error_any random e e' stored (c ∷ cs) h = h

module _ {F : Type 0} (random : Random) (sha : Sha256) (s : Selector F) where
  -- The row that is stored with a routing event of the request.
  abbrev pub event_row : String → String → ℤ → RoutingEventRow
  event_row name trace_id attempt_no = record {
    trace_id = trace_id;
    attempt_no = attempt_no;
    pool_selected = name;
    seed = seed_bytes sha trace_id name attempt_no;
  }

  -- Where all candidates of the pool satisfy the constraints, replaying the stored row over the same
  -- pools gives the chain that was built.
  pub replay-build_chain :
      (name : String) (dec : Option Decision) (trace_id : String) (attempt_no : ℤ) {pool : Pool}
      {chain : List Member}
      → lookup name s.pools ≡ some pool
      → All (λ c. satisfies_constraints c dec s.pricing ≡ true) (candidates s.registry pool.members)
      → build_chain random sha s name dec trace_id attempt_no ≡ ok chain
      → replay random (event_row name trace_id attempt_no) s.registry s.pools ≡ ok chain
  unfolding build_chain replay eligible
  replay-build_chain name dec trace_id attempt_no {pool} {chain} found all run =
      let cs = candidates s.registry pool.members in
      let same = filter_keeps (λ c. satisfies_constraints c dec s.pricing) cs all in
      let stored = seed_bytes sha trace_id name attempt_no in
      let built : chain_or_error random (no_candidate_error name dec) stored cs ≡ ok chain =
        rw (found, same, build_chain) at run in
      rw (found, replay)
        (chain_or_error_any random (no_candidate_error name dec) (no_members name) stored cs built)

  -- The replayed chain has the endpoint of every candidate of positive weight, whether or not the
  -- decision admitted it.
  pub contains-replay :
      (name trace_id : String) (attempt_no : ℤ) {pool : Pool} (c : Member) (cs : List Member)
      → lookup name s.pools ≡ some pool
      → candidates s.registry pool.members ≡ c ∷ cs
      → (chain : List Member) × (replay random
            (event_row name trace_id attempt_no)
            s.registry
            s.pools
          ≡ ok chain)
        × ((x : String) → contains (ids chain) x ≡ any_weighted (c ∷ cs) x)
  unfolding replay chain_or_error
  contains-replay name trace_id attempt_no {pool} c cs found e =
      let sixteen = length-seed_bytes sha trace_id name attempt_no in
      let (chain, run, _, ends, _) =
        chain_from_seed_lem random (seed_bytes sha trace_id name attempt_no) (c ∷ cs)
          (omega (arith, sixteen)) (omega (arith, sixteen)) in
      (chain, rw (found, replay) (rw e run), ends)

  build_chain-ends :
      (name : String) (dec : Option Decision) (trace_id : String) (attempt_no : ℤ) {pool : Pool}
      {chain : List Member} (x : String)
      → lookup name s.pools ≡ some pool
      → build_chain random sha s name dec trace_id attempt_no ≡ ok chain
      → contains (ids chain) x ≡ any_weighted (eligible s pool dec) x
  build_chain-ends name dec trace_id attempt_no {chain = chain} x found run =
      elim (build_chain_cases random sha s name dec trace_id attempt_no found) [
        | inl (_, e) ↦ cc (sym run, e)
        | inr (built, _, run', _, ends, _) ↦ rw (ok-injective (sym run ∙ run')) (ends x)
      ]

  -- Where the constraints exclude an endpoint that a candidate of positive weight has, the replayed
  -- chain is not the chain that was built.
  pub replay-ne-build_chain :
      (name : String) (dec : Option Decision) (trace_id : String) (attempt_no : ℤ) {pool : Pool}
      {chain replayed : List Member} (x : String)
      → lookup name s.pools ≡ some pool
      → any_weighted (candidates s.registry pool.members) x ≡ true
      → any_weighted (eligible s pool dec) x ≡ false
      → build_chain random sha s name dec trace_id attempt_no ≡ ok chain
      → replay random (event_row name trace_id attempt_no) s.registry s.pools ≡ ok replayed
      → chain ≢ replayed
  replay-ne-build_chain name dec trace_id attempt_no {pool} {chain} {replayed} x found in_pool left
        run again same =
      elim (List-cases (candidates s.registry pool.members)) [
        | inl e ↦ false≢true (rw e at in_pool)
        | inr (c, cs, e) ↦
            let (out, run', ends) = contains-replay name trace_id attempt_no c cs found e in
            false≢true (
              sym left
              ∙ sym (build_chain-ends name dec trace_id attempt_no x found run)
              ∙ ap (λ m. contains (ids m) x) (same ∙ ok-injective (sym again ∙ run'))
              ∙ ends x
              ∙ (rw e at in_pool))
      ]
