-- ===== src/Routing/Expand.antt =====
-- What the expanded ChaCha8 seed holds: Chacha8SeedFromStored of internal/gw/routing/selector.go.
use native.Mathlib.Nat.{mod-lt, mod-eq_of_lt, mod-mod}
use native.Mathlib.Decide.{ℕ_discrete}
use agentgate.Base.{
  ℕ, zero, suc, ℤ, String, ◌+◌, ◌-◌, ◌%◌, ◌≤◌, ◌<◌, ◌≡◌, refl, sym, ◌∙◌, List, ◌++◌, some, false,
  nat_eq, length, length-append, length-set, get_elem?, get_elem?-some, get_elem?-set_self,
  get_elem?-set_ne, get_elem?-append_left, take_all, length-take, length-drop, set, take, drop,
  arith,
}
use agentgate.External.{Sha256}
use agentgate.Routing.Seed.{expand, chacha8_seed, zeroed, seed_input, seed_bytes}

-- The first `i` bytes of `seed` repeat those of `stored`.
abbrev Repeats : List ℕ → ℕ → List ℕ → Type 0
Repeats stored i seed = (k : ℕ) → k < i → get_elem? seed k ≡ get_elem? stored (k % length stored)

module _ (stored : List ℕ) (some_bytes : 0 < length stored) where
  Repeats-set :
      (i : ℕ) (seed : List ℕ) (b : ℕ)
      → i < length seed
      → Repeats stored i seed
      → get_elem? stored (i % length stored) ≡ some b
      → Repeats stored (suc i) (set seed i b)
  Repeats-set i seed b lt rep e k h = elim (ℕ_discrete k i) [
    | yes p ↦ rw p (get_elem?-set_self seed i b lt ∙ sym e)
    | no q ↦ get_elem?-set_ne seed i k b (λ p. q (sym p)) ∙ rep k (omega arith)
  ]

  -- The loop fills the array, and reads no byte that is not there.
  expand-Repeats :
      (rounds i : ℕ) (seed : List ℕ)
      → length stored ≤ i
      → i + rounds ≡ length seed
      → Repeats stored i seed
      → (out : List ℕ) × (expand (length stored) rounds i seed ≡ some out)
        × (length out ≡ length seed)
        × Repeats stored (length seed) out
  unfolding expand
  expand-Repeats zero i seed le total rep = (seed, refl, refl, λ k h. rep k (omega arith))
  expand-Repeats (suc rounds) i seed le total rep =
      let n = length stored in
      let not_empty : nat_eq n 0 ≡ false = ground arith in
      let below = mod-lt i some_bytes in
      let (b, e) = get_elem?-some stored (i % n) below in
      let read : get_elem? seed (i % n) ≡ some b = rep (i % n) (omega arith) ∙ rw (mod-mod i n) e in
      let room : i < length seed = omega arith in
      let (out, run, same, full) =
        expand-Repeats rounds (suc i) (set seed i b) (omega arith)
          (omega (arith, length-set seed i b)) (Repeats-set i seed b room rep e) in
      (
        out,
        rw (not_empty, read, expand) run,
        same ∙ length-set seed i b,
        λ k h. full k (omega (arith, length-set seed i b)),
      )

start_bytes :
    (stored : List ℕ)
    → length stored ≤ 32
    → (take 32 stored ++ drop (length stored) zeroed) ≡ stored ++ drop (length stored) zeroed
start_bytes stored h = rw (take_all 32 stored h)

-- From 1 to 32 stored bytes, the expansion does not panic and gives 32 bytes; byte k is the stored
-- byte k mod n, where n is the number of stored bytes.
pub chacha8_seed-repeats :
    (stored : List ℕ)
    → 0 < length stored
    → length stored ≤ 32
    → (out : List ℕ) × (chacha8_seed stored ≡ some out)
      × (length out ≡ 32)
      × ((k : ℕ) → k < 32 → get_elem? out k ≡ get_elem? stored (k % length stored))
unfolding chacha8_seed
chacha8_seed-repeats stored pos_len small =
    let rest = drop (length stored) zeroed in
    let whole : length (stored ++ rest) ≡ 32 =
      omega (arith, length-append stored rest, length-drop (length stored) zeroed) in
    let (out, run, same, full) =
      expand-Repeats stored pos_len (32 - length stored) (length stored) (stored ++ rest)
        (omega arith) (omega (arith, whole))
        (λ k h. get_elem?-append_left stored rest k h ∙ rw (mod-eq_of_lt h)) in
    (out, rw (start_bytes stored small) run, same ∙ whole, λ k h. full k (omega (arith, whole)))

-- The seed that is stored with a routing event has 16 bytes.
pub length-seed_bytes :
    (sha : Sha256) (trace_id pool : String) (attempt_no : ℤ)
    → length (seed_bytes sha trace_id pool attempt_no) ≡ 16
unfolding seed_bytes
length-seed_bytes sha trace_id pool attempt_no =
    length-take 16 (sha.sum256 (seed_input trace_id pool attempt_no))
      (omega (arith, sha.length-sum256 (seed_input trace_id pool attempt_no)))
