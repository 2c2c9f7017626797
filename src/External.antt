-- ===== src/External.antt =====
-- What the gateway calls and the repository does not hold, as interfaces: CEL, the sort of Go's library,
-- whose order among equal keys is not specified, random numbers, digests, floats and writers.
use mathlib.Core.List.{Perm}
use agentgate.Base.{
  ℕ, ◌<◌, ◌≡◌, String, Bool, Option, List, [], ◌∷◌, ◌++◌, true, false, length, ℤ, ◌≤ℤ◌, ltb_ℤ, Dict,
  All,
}

-- What `prog.Eval` does: it may panic, return an error, or return a value, which is a Bool or not.
pub data Outcome : Type 0 where
  panicked failed not_bool : Outcome
  value : Bool → Outcome

-- github.com/google/cel-go/cel. `Any` is a dynamic value.
pub record Cel : Type 1 where
  pub Env : Type 0
  pub Ast : Type 0
  pub Program : Type 0
  pub Any : Type 0
  pub new_env : Option Env
  pub compile : Env → String → Option Ast
  pub program : Env → Ast → Option Program
  pub eval : Program → Dict (Dict Any) → Outcome

-- Each entry's key is at least the keys behind it.
abbrev pub Descending {ℓ} : {A : Type ℓ} → (A → ℤ) → List A → Type 0
Descending key [] = Unit
Descending key (x ∷ xs) = All (λ y. key y ≤ℤ key x) xs × Descending key xs

-- sort.Slice: a permutation, ordered by `less`, here for a comparison of keys.
pub record SliceSort (A : Type 0) : Type 0 where
  pub sort : (A → A → Bool) → List A → List A
  pub sort-perm : (less : A → A → Bool) (xs : List A) → Perm (sort less xs) xs
  pub sort-Descending :
      (key : A → ℤ) (xs : List A) → Descending key (sort (λ a b. ltb_ℤ (key b) (key a)) xs)

-- math/rand/v2 over a ChaCha8 source: `IntN n` lies in [0, n).
pub record Random : Type 1 where
  pub Rng : Type 0
  pub new_chacha8 : List ℕ → Rng
  pub int_n : Rng → ℕ → ℕ × Rng
  pub int_n-lt : (r : Rng) (n : ℕ) → 0 < n → (int_n r n).0 < n

-- crypto/sha256: the digest of a text, 32 bytes.
pub record Sha256 : Type 0 where
  pub sum256 : String → List ℕ
  pub length-sum256 : (s : String) → length (sum256 s) ≡ 32

-- Go's float64, as far as prices use it: `negative x` is `x < 0`, and `to_int` is `int(x)`.
pub record Float64 : Type 1 where
  pub F : Type 0
  pub of_int : ℤ → F
  pub to_int : F → ℤ
  pub plus : F → F → F
  pub times : F → F → F
  pub divide : F → F → F
  pub negative : F → Bool

-- An io.Writer: a write that returns no error has taken all its bytes.
pub record Writer : Type 1 where
  pub Sink : Type 0
  pub write : Sink → List ℕ → Sink × Bool
  pub received : Sink → List ℕ
  pub write-received :
      (s : Sink) (bytes : List ℕ)
      → (write s bytes).1 ≡ true
      → received (write s bytes).0 ≡ received s ++ bytes

-- encoding/json on `map[string]any`. `Raw` is the text of a value, `marshal` gives the empty text with
-- an error, and `unmarshal` is what a nil map holds after json.Unmarshal, which stays nil with an error.
-- A map that came from JSON can be written, and reads back the same.
pub record JsonMaps : Type 1 where
  pub Raw : Type 0
  pub Map : Type 0
  pub empty : Raw
  pub null : Raw
  pub is_empty : Raw → Bool
  pub nil : Map
  pub marshal : Map → Raw
  pub unmarshal : Raw → Map
  pub is_empty-empty : is_empty empty ≡ true
  pub unmarshal-null : unmarshal null ≡ nil
  pub is_empty-marshal : (r : Raw) → is_empty (marshal (unmarshal r)) ≡ false
  pub unmarshal-marshal : (r : Raw) → unmarshal (marshal (unmarshal r)) ≡ unmarshal r
