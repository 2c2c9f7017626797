-- ===== src/Routing/Shuffle.antt =====
-- The Fisher-Yates loop of BuildChain in internal/gw/routing/selector.go, which Replay in
-- internal/gw/routing/execute.go repeats. An index out of range, a Go panic, is `none`.
use agentgate.Base.{
  ℕ, zero, suc, ◌+◌, ◌-◌, List, Option, none, some, leb, if◌then◌else◌, length, get_elem?, set,
}
use agentgate.External.{Random}

-- `xs[i], xs[j] = xs[j], xs[i]`
unfoldable pub swap {ℓ} : {A : Type ℓ} → ℕ → ℕ → List A → Option (List A)
swap i j xs = elim (get_elem? xs i) [
  | none ↦ none
  | some a ↦ elim (get_elem? xs j) [ none ↦ none | some b ↦ some (set (set xs i b) j a) ]
]

module _ (random : Random) where
  open random use {Rng, int_n}

  -- The method IntN of ChaCha8RNG.
  unfoldable pub rng_int_n : Rng → ℕ → ℕ × Rng
  rng_int_n r n = if leb n 0 then (0, r) else int_n r n

  -- The loop from `i` down to 1.
  unfoldable pub shuffle_from {ℓ} : {A : Type ℓ} → ℕ → Rng → List A → Option (List A)
  shuffle_from zero r xs = some xs
  shuffle_from (suc i) r xs =
      let (j, r') = rng_int_n r (suc i + 1) in
      elim (swap (suc i) j xs) [ none ↦ none | some ys ↦ shuffle_from i r' ys ]

  unfoldable pub shuffle {ℓ} : {A : Type ℓ} → Rng → List A → Option (List A)
  shuffle r xs = shuffle_from (length xs - 1) r xs
