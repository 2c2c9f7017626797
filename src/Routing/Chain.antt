-- ===== src/Routing/Chain.antt =====
-- What every chain of candidates holds, whatever the seed: BuildChain of
-- internal/gw/routing/selector.go and Replay of internal/gw/routing/execute.go.
use mathlib.Core.List.{Perm, Permᴰ}
use mathlib.Core.Logic.{∥∥₁_elim}
use mathlib.Core.Bool.{Bool-set}
use agentgate.Base.{
  ℕ, zero, suc, ◌≤◌, ◌<◌, ◌≡◌, refl, ap, ap₂, ◌∙◌, inl, inr, String, Bool, true, false, ◌||◌, ◌&&◌,
  ltb, List, [], ◌∷◌, ◌++◌, ◌==◌, eq_iff, contains, replicate, length, All, pos_part, Bool-cases,
  ok, arith,
}
use agentgate.External.{Random}
use agentgate.Routing.Constraints.{Member}
use agentgate.Routing.Expand.{chacha8_seed-repeats}
use agentgate.Routing.Mixing.{shuffle-perm, shuffle-All}
use agentgate.Routing.Selector.{weighted, dedup, dedup_shuffled, chain_from_seed}

abbrev pub ids : List Member → List String
ids [] = []
ids (m ∷ ms) = m.endpoint_id ∷ ids ms

abbrev pub Distinct : List String → Type 0
Distinct [] = Unit
Distinct (x ∷ xs) = (contains xs x ≡ false) × Distinct xs

dedup-All :
    (P : Member → Type 0) (seen : List String) (ms : List Member) → All P ms → All P (dedup seen ms)
unfolding dedup
dedup-All P seen [] h = tt
dedup-All P seen (m ∷ ms) h = elim (Bool-cases (contains seen m.endpoint_id)) [
  | inl e ↦ rw e (dedup-All P seen ms h.1)
  | inr e ↦ rw e (h.0, dedup-All P (m.endpoint_id ∷ seen) ms h.1)
]

-- What was seen is left out.
dedup-seen :
    (seen : List String) (ms : List Member) (x : String)
    → contains seen x ≡ true
    → contains (ids (dedup seen ms)) x ≡ false
unfolding dedup
dedup-seen seen [] x h = refl
dedup-seen seen (m ∷ ms) x h = elim (Bool-cases (contains seen m.endpoint_id)) [
  | inl e ↦ rw e (dedup-seen seen ms x h)
  | inr e ↦ rw e (
      ground (arith, eq_iff m.endpoint_id x, dedup-seen (m.endpoint_id ∷ seen) ms x (ground arith)))
]

dedup-Distinct : (seen : List String) (ms : List Member) → Distinct (ids (dedup seen ms))
unfolding dedup
dedup-Distinct seen [] = tt
dedup-Distinct seen (m ∷ ms) = elim (Bool-cases (contains seen m.endpoint_id)) [
  | inl e ↦ rw e (dedup-Distinct seen ms)
  | inr e ↦ rw e (
    dedup-seen (m.endpoint_id ∷ seen) ms m.endpoint_id
        (ground (arith, eq_iff m.endpoint_id m.endpoint_id)),
    dedup-Distinct (m.endpoint_id ∷ seen) ms,
  )
]

-- Every endpoint is seen already or kept.
contains-dedup :
    (seen : List String) (ms : List Member) (x : String)
    → (contains seen x || contains (ids (dedup seen ms)) x)
      ≡ (contains seen x || contains (ids ms) x)
unfolding dedup
contains-dedup seen [] x = refl
contains-dedup seen (m ∷ ms) x = elim (Bool-cases (contains seen m.endpoint_id)) [
  | inl e ↦ rw e (ground (arith, eq_iff m.endpoint_id x, contains-dedup seen ms x))
  | inr e ↦ rw e (ground (arith, contains-dedup (m.endpoint_id ∷ seen) ms x))
]

replicate-All : (P : Member → Type 0) (n : ℕ) (c : Member) → P c → All P (replicate n c)
replicate-All P zero c p = tt
replicate-All P (suc n) c p = (p, replicate-All P n c p)

All-append :
    (P : Member → Type 0) (front back : List Member)
    → All P back
    → All P front
    → All P (front ++ back)
All-append P [] back last first = last
All-append P (m ∷ front) back last first = (first.0, All-append P front back last first.1)

weighted-All : (P : Member → Type 0) (cs : List Member) → All P cs → All P (weighted cs)
unfolding weighted
weighted-All P [] h = tt
weighted-All P (c ∷ cs) h =
    All-append P (replicate (pos_part c.original_weight) c) (weighted cs) (weighted-All P cs h.1)
      (replicate-All P (pos_part c.original_weight) c h.0)

or_swap : (p q r : Bool) → (p || (q || r)) ≡ (q || (p || r))
or_swap p q r = ground arith

-- Of two orders of one multiset of members, both have the same endpoints.
contains-Permᴰ :
    {xs ys : List Member} (x : String) → Permᴰ xs ys → contains (ids xs) x ≡ contains (ids ys) x
contains-Permᴰ x Permᴰ.nil = refl
contains-Permᴰ x (Permᴰ.cons {a = a} {b = b} e p) =
    rw e (ap (λ r. (b.endpoint_id == x) || r) (contains-Permᴰ x p))
contains-Permᴰ x (Permᴰ.swap {a' = a'} {b' = b'} {l = l} e f) =
    rw e (rw f (or_swap (b'.endpoint_id == x) (a'.endpoint_id == x) (contains (ids l) x)))
contains-Permᴰ x (Permᴰ.trans p q) = contains-Permᴰ x p ∙ contains-Permᴰ x q

contains-Perm :
    {xs ys : List Member} (x : String) → Perm xs ys → contains (ids xs) x ≡ contains (ids ys) x
contains-Perm x p = ∥∥₁_elim p (Bool-set _ _) (contains-Permᴰ x)

-- The multiset that is shuffled has an endpoint exactly if a candidate of positive weight has it.
contains-ids-append :
    (xs ys : List Member) (x : String)
    → contains (ids (xs ++ ys)) x ≡ (contains (ids xs) x || contains (ids ys) x)
contains-ids-append [] ys x = refl
contains-ids-append (m ∷ xs) ys x = ground (arith, contains-ids-append xs ys x)

contains-replicate :
    (n : ℕ) (c : Member) (x : String)
    → contains (ids (replicate n c)) x ≡ (ltb 0 n && (c.endpoint_id == x))
contains-replicate zero c x = refl
contains-replicate (suc n) c x = ground (arith, contains-replicate n c x)

-- Whether a candidate of positive weight has the endpoint.
abbrev pub any_weighted : List Member → String → Bool
any_weighted [] x = false
any_weighted (c ∷ cs) x =
    (ltb 0 (pos_part c.original_weight) && (c.endpoint_id == x)) || any_weighted cs x

contains-weighted :
    (cs : List Member) (x : String) → contains (ids (weighted cs)) x ≡ any_weighted cs x
unfolding weighted
contains-weighted [] x = refl
contains-weighted (c ∷ cs) x =
    contains-ids-append (replicate (pos_part c.original_weight) c) (weighted cs) x
    ∙ ap₂ (λ p q. p || q) (contains-replicate (pos_part c.original_weight) c x)
        (contains-weighted cs x)

-- From a stored seed of 1 to 32 bytes there is a chain, without a panic. No endpoint stands in it
-- twice; an endpoint stands in it exactly if a candidate of positive weight has it; and what holds of
-- all candidates holds of all members of the chain.
pub chain_from_seed_lem :
    (random : Random) (stored : List ℕ) (cs : List Member)
    → 0 < length stored
    → length stored ≤ 32
    → (chain : List Member) × (chain_from_seed random stored cs ≡ ok chain)
      × Distinct (ids chain)
      × ((x : String) → contains (ids chain) x ≡ any_weighted cs x)
      × ((P : Member → Type 0) → All P cs → All P chain)
unfolding chain_from_seed
chain_from_seed_lem random stored cs some_bytes small =
    let (seed, made, _, _) = chacha8_seed-repeats stored some_bytes small in
    let rng = random.new_chacha8 seed in
    let (ms, mixed, same) = shuffle-perm random rng (weighted cs) in
    (
      dedup [] ms,
      rw (made, chain_from_seed) (ap (dedup_shuffled) mixed),
      dedup-Distinct [] ms,
      λ x. contains-dedup [] ms x ∙ contains-Perm x same ∙ contains-weighted cs x,
      λ P h. dedup-All P [] ms (shuffle-All random P rng (weighted cs) mixed (weighted-All P cs h)),
    )
