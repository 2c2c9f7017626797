-- ===== src/Routing/Seed.antt =====
-- The routing seed: SeedBytes and Chacha8SeedFromStored of internal/gw/routing/selector.go.
-- A byte is a number below 256. A Go panic is `none`.
use Prim.Native.String.{◌++◌ as str_append}
use agentgate.Base.{
  ℕ, zero, suc, ◌-◌, ◌/◌, ◌%◌, String, List, [], ◌∷◌, ◌++◌, Option, none, some, ltb, nat_eq,
  if◌then◌else◌, ℤ, pos, negsuc, length, get_elem?, set, replicate, take, drop,
}
use agentgate.External.{Sha256}

digit : ℕ → String
digit d =
    elim (get_elem? {A = String} ("0" ∷ "1" ∷ "2" ∷ "3" ∷ "4" ∷ "5" ∷ "6" ∷ "7" ∷ "8" ∷ "9" ∷ [])
      d) [ none ↦ "" | some s ↦ s ]

decimal_digits : ℕ → ℕ → String
unfolding digit
decimal_digits zero n = ""
decimal_digits (suc fuel) n =
    let high = decimal_digits fuel (n / 10) in
    if ltb n 10 then digit n else str_append high (digit (n % 10))

-- The verb %d; a 64-bit number has at most 20 digits.
unfoldable pub decimal : ℤ → String
unfolding decimal_digits
decimal (pos n) = decimal_digits 20 n
decimal (negsuc n) = str_append "-" (decimal_digits 20 (suc n))

-- The verbs %s:%s:%d.
unfoldable pub seed_input : String → String → ℤ → String
seed_input trace_id pool attempt_no =
    str_append trace_id (str_append ":" (str_append pool (str_append ":" (decimal attempt_no))))

unfoldable pub seed_bytes : Sha256 → String → String → ℤ → List ℕ
seed_bytes sha trace_id pool attempt_no = take 16 (sha.sum256 (seed_input trace_id pool attempt_no))

-- `for i := len(stored); i < 32; i++`, `rounds` of them from `i` on; `n` is len(stored).
unfoldable pub expand : ℕ → ℕ → ℕ → List ℕ → Option (List ℕ)
expand n zero i seed = some seed
expand n (suc rounds) i seed = if nat_eq n 0 then none else elim (get_elem? seed (i % n)) [
  | none ↦ none
  | some b ↦ expand n rounds (suc i) (set seed i b)
]

-- `var seed [32]byte`
abbrev pub zeroed : List ℕ
zeroed = replicate 32 0

-- copy into the zeroed array of 32 bytes, then the loop.
unfoldable pub chacha8_seed : List ℕ → Option (List ℕ)
unfolding expand
chacha8_seed stored =
    expand (length stored) (32 - length stored) (length stored)
      (take 32 stored ++ drop (length stored) zeroed)
