-- ===== src/Base/Texts.antt =====
-- Texts that the program only compares, sets of texts, and Go maps keyed by texts.
use Prim.Native.String.{String}
use Prim.Native.Nat.{ℕ}
use mathlib.Core.Path.{◌≡◌, refl}
use mathlib.Core.Bool.{Bool, false, ◌||◌}
use mathlib.Core.List.{List, [], ◌∷◌, ◌++◌}
use mathlib.Core.Option.{Option, none, some}
use native.Mathlib.Omega.{arith}
use agentgate.Base.Tests.{if◌then◌else◌}
pub use text.Mathlib.Text.{◌==◌}
pub use text.Mathlib.TextEquality.{eq_iff}
pub use text.Mathlib.TextPositions.{eq_refl}

-- `map[string]bool`, and the slices that are searched: what `seen[s]` answers.
abbrev pub contains : List String → String → Bool
contains [] s = false
contains (x ∷ xs) s = (x == s) || contains xs s

-- A `map[string]T`: its entries in the order in which a loop over it meets them.
abbrev pub Dict {ℓ} : Type ℓ → Type ℓ
Dict V = List (String × V)

abbrev pub lookup {ℓ} : {V : Type ℓ} → String → Dict V → Option V
lookup key [] = none
lookup key ((name, val) ∷ rest) = if name == key then some val else lookup key rest

-- The read of a missing number is Go's zero value.
abbrev pub or_zero : Option ℕ → ℕ
or_zero none = 0
or_zero (some n) = n

pub contains-append :
    (xs ys : List String) (s : String) → contains (xs ++ ys) s ≡ (contains xs s || contains ys s)
contains-append [] ys s = refl
contains-append (x ∷ xs) ys s = ground (arith, contains-append xs ys s)

-- `m[key] = val`
abbrev pub insert {ℓ} : {V : Type ℓ} → String → V → Dict V → Dict V
insert key val [] = (key, val) ∷ []
insert key val ((name, old) ∷ rest) =
    let later = (name, old) ∷ insert key val rest in
    if name == key then (key, val) ∷ rest else later

pub lookup-insert {ℓ} :
    {V : Type ℓ} (key other : String) (val : V) (m : Dict V)
    → lookup other (insert key val m) ≡ (if key == other then some val else lookup other m)
lookup-insert key other val ((name, old) ∷ rest) =
    ground (
      arith,
      lookup-insert key other val rest,
      eq_iff name key,
      eq_iff name other,
      eq_iff key other,
    )
lookup-insert key other val [] = refl
