-- ===== src/Routing/Mixing.antt =====
-- The shuffle of internal/gw/routing/selector.go is a permutation, and reads no index out of range.
use mathlib.Core.List.{Perm}
use mathlib.Core.List.Perm
use agentgate.Base.{
  ℕ, zero, suc, ◌+◌, ◌-◌, ◌≤◌, ◌<◌, ◌≡◌, refl, ◌∙◌, subst, List, [], ◌∷◌, some, length, length-set,
  get_elem?, get_elem?-some, get_elem?-set_same, set, All, All-get_elem?, All-set, arith, leb,
  false, Option-cases, none≢some, some-injective, inl, inr,
}
use agentgate.External.{Random}
use agentgate.Routing.Shuffle.{swap, rng_int_n, shuffle_from, shuffle}

module _ {ℓ} {A : Type ℓ} where
  -- A write takes one entry out and puts one in.
  set-perm :
      (xs : List A) (i : ℕ) (v a : A) → get_elem? xs i ≡ some a → Perm (v ∷ xs) (a ∷ set xs i v)
  set-perm [] i v a e = cc
  set-perm (x ∷ xs) zero v a e =
      subst (λ (y : A). Perm (v ∷ x ∷ xs) (y ∷ v ∷ xs)) (some-injective x a e) (Perm.swap x v xs)
  set-perm (x ∷ xs) (suc i) v a e =
      Perm.trans (Perm.swap x v xs)
        (Perm.trans (Perm.cons x (set-perm xs i v a e)) (Perm.swap a x (set xs i v)))

  pub swap-perm :
      (i j : ℕ) (xs : List A)
      → i < length xs
      → j < length xs
      → (ys : List A) × (swap i j xs ≡ some ys) × (length ys ≡ length xs) × Perm ys xs
  unfolding swap
  swap-perm i j xs hi hj =
      let (a, ea) = get_elem?-some xs i hi in
      let (b, eb) = get_elem?-some xs j hj in
      let once = set-perm xs i b a ea in
      let twice = set-perm (set xs i b) j a b (get_elem?-set_same xs i j b eb) in
      (
        set (set xs i b) j a,
        rw (ea, eb, swap),
        length-set (set xs i b) j a ∙ length-set xs i b,
        Perm.symm (Perm.cons_inv (Perm.trans once twice)),
      )

  swap-All {κ} :
      (P : A → Type κ) (i j : ℕ) (xs : List A) {ys : List A}
      → swap i j xs ≡ some ys
      → All P xs
      → All P ys
  unfolding swap
  swap-All P i j xs {ys} h all = elim (Option-cases (get_elem? xs i)) [
    | inl e ↦ absurd (none≢some (rw (e, swap) at h))
    | inr (a, ea) ↦ elim (Option-cases (get_elem? xs j)) [
      | inl e ↦ absurd (none≢some (rw (ea, e, swap) at h))
      | inr (b, eb) ↦ subst (All P) (some-injective _ ys (rw (ea, eb, swap) at h)) (
          All-set P (set xs i b) j (All-set P xs i all (All-get_elem? P xs j all eb))
            (All-get_elem? P xs i all ea))
    ]
  ]

module _ (random : Random) where
  open random use {Rng, int_n, int_n-lt}

  rng_int_n-lt : (r : Rng) (n : ℕ) → (rng_int_n random r (suc n + 1)).0 < suc n + 1
  unfolding rng_int_n
  rng_int_n-lt r n =
      let more : leb (suc n + 1) 0 ≡ false = ground arith in
      rw more (int_n-lt r (suc n + 1) (omega arith))

  module _ {ℓ} {A : Type ℓ} where
    shuffle_from-perm :
        (i : ℕ) (r : Rng) (xs : List A)
        → i ≤ length xs - 1
        → (ys : List A) × (shuffle_from random i r xs ≡ some ys) × Perm ys xs
    unfolding shuffle_from
    shuffle_from-perm zero r xs h = (xs, refl, Perm.refl xs)
    shuffle_from-perm (suc i) r xs h =
        let j = (rng_int_n random r (suc i + 1)).0 in
        let below = rng_int_n-lt r i in
        let (ys, run, same, mixed) = swap-perm (suc i) j xs (omega arith) (omega arith) in
        let (zs, run', mixed') =
          shuffle_from-perm i (rng_int_n random r (suc i + 1)).1 ys (omega (arith, same)) in
        (zs, rw (run, shuffle_from) run', Perm.trans mixed' mixed)

    -- The shuffle reads no index out of range, and its result is a permutation of its input.
    pub shuffle-perm :
        (r : Rng) (xs : List A) → (ys : List A) × (shuffle random r xs ≡ some ys) × Perm ys xs
    unfolding shuffle
    shuffle-perm r xs = shuffle_from-perm (length xs - 1) r xs (omega arith)

    shuffle_from-All {κ} :
        (P : A → Type κ) (i : ℕ) (r : Rng) (xs : List A) {ys : List A}
        → shuffle_from random i r xs ≡ some ys
        → All P xs
        → All P ys
    unfolding shuffle_from
    shuffle_from-All P zero r xs {ys} h all = subst (All P) (some-injective xs ys h) all
    shuffle_from-All P (suc i) r xs {ys} h all =
        elim (Option-cases (swap (suc i) (rng_int_n random r (suc i + 1)).0 xs)) [
          | inl e ↦ absurd (none≢some (rw (e, shuffle_from) at h))
          | inr (zs, e) ↦
              shuffle_from-All P i (rng_int_n random r (suc i + 1)).1 zs (rw (e, shuffle_from) at h)
                (swap-All P (suc i) (rng_int_n random r (suc i + 1)).0 xs e all)
        ]

    -- Whatever holds of all entries holds of all entries of the shuffle.
    pub shuffle-All {κ} :
        (P : A → Type κ) (r : Rng) (xs : List A) {ys : List A}
        → shuffle random r xs ≡ some ys
        → All P xs
        → All P ys
    unfolding shuffle
    shuffle-All P r xs h all = shuffle_from-All P (length xs - 1) r xs h all
