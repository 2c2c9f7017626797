-- ===== src/Tests/Doubles.antt =====
-- Stand-ins for the libraries that the gateway calls, for the tests: a CEL whose programs are texts, an
-- insertion sort, a random source that reads its seed, and a constant digest.
use mathlib.Core.List.{Perm}
use mathlib.Core.List.Perm
use native.Mathlib.Nat.{mod-lt}
use agentgate.Base.{
  ℕ, ◌%◌, ◌<◌, refl, inl, inr, String, Bool, true, false, List, [], ◌∷◌, Option, none, some, ◌==◌,
  if◌then◌else◌, All, ℤ, ◌≤ℤ◌, ltb_ℤ, replicate, Bool-cases, arith,
}
use agentgate.External.{
  Outcome, failed, not_bool, value, Cel, Descending, SliceSort, Random, Sha256,
}

abbrev compile_text : String → Option String
compile_text s = if s == "" then none else some s

abbrev eval_text : String → Outcome
eval_text p =
    if p == "true"
    then value true
    else if p == "missing.field"
    then failed
    else if p == "team"
    then not_bool
    else value false

abbrev pub test_cel : Cel
test_cel = record {
  Env = Unit {0};
  Ast = String;
  Program = String;
  Any = Unit {0};
  new_env = some tt;
  compile = λ _. compile_text;
  program = λ _ a. some a;
  eval = λ p _. eval_text p;
}

-- The first number of the source, cut to the range.
abbrev draw : List ℕ → ℕ → ℕ × List ℕ
draw [] n = (0, [])
draw (k ∷ r) n = (k % n, r)

pub draw-lt : (r : List ℕ) (n : ℕ) → 0 < n → (draw r n).0 < n
draw-lt [] n h = h
draw-lt (k ∷ r) n h = mod-lt k h

abbrev pub test_random : Random
test_random = record { Rng = List ℕ; new_chacha8 = λ seed. seed; int_n = draw; int_n-lt = draw-lt }

abbrev pub test_sha : Sha256
test_sha = record { sum256 = λ _. 3 ∷ 1 ∷ 4 ∷ 1 ∷ 5 ∷ replicate 27 9; length-sum256 = λ _. refl }

module _ {A : Type 0} where
  abbrev place : (A → A → Bool) → A → List A → List A
  place less x [] = x ∷ []
  place less x (y ∷ ys) = let rest = place less x ys in if less y x then y ∷ rest else x ∷ y ∷ ys

  abbrev sorted : (A → A → Bool) → List A → List A
  sorted less [] = []
  sorted less (x ∷ xs) = place less x (sorted less xs)

  place-perm : (less : A → A → Bool) (x : A) (xs : List A) → Perm (place less x xs) (x ∷ xs)
  place-perm less x [] = Perm.refl (x ∷ [])
  place-perm less x (y ∷ ys) = elim (Bool-cases (less y x)) [
    | inl e ↦ rw e (Perm.trans (Perm.cons y (place-perm less x ys)) (Perm.swap x y ys))
    | inr e ↦ rw e (Perm.refl (x ∷ y ∷ ys))
  ]

  pub sorted-perm : (less : A → A → Bool) (xs : List A) → Perm (sorted less xs) xs
  sorted-perm less [] = Perm.refl []
  sorted-perm less (x ∷ xs) =
      Perm.trans (place-perm less x (sorted less xs)) (Perm.cons x (sorted-perm less xs))

  module _ (key : A → ℤ) where
    abbrev above : A → A → Bool
    above a b = ltb_ℤ (key b) (key a)

    place-All : (P : A → Type 0) (x : A) (xs : List A) → P x → All P xs → All P (place above x xs)
    place-All P x [] p h = (p, tt)
    place-All P x (y ∷ ys) p h = elim (Bool-cases (above y x)) [
      | inl e ↦ rw e (h.0, place-All P x ys p h.1)
      | inr e ↦ rw e (p, (h.0, h.1))
    ]

    above_below :
        (x y : A) (ys : List A)
        → key y ≤ℤ key x
        → All (λ z. key z ≤ℤ key y) ys
        → All (λ z. key z ≤ℤ key x) ys
    above_below x y [] h all = tt
    above_below x y (z ∷ ys) h all = (omega (arith, all.0), above_below x y ys h all.1)

    place-Descending : (x : A) (xs : List A) → Descending key xs → Descending key (place above x xs)
    place-Descending x [] h = (tt, tt)
    place-Descending x (y ∷ ys) h = elim (Bool-cases (above y x)) [
      | inl e ↦
          rw e (place-All (λ z. key z ≤ℤ key y) x ys (ground arith) h.0, place-Descending x ys h.1)
      | inr e ↦
          let le : key y ≤ℤ key x = ground arith in
          rw e ((le, above_below x y ys le h.0), (h.0, h.1))
    ]

    pub sorted-Descending : (xs : List A) → Descending key (sorted above xs)
    sorted-Descending [] = tt
    sorted-Descending (x ∷ xs) = place-Descending x (sorted above xs) (sorted-Descending xs)

abbrev pub test_sort : (A : Type 0) → SliceSort A
test_sort A = record { sort = sorted; sort-perm = sorted-perm; sort-Descending = sorted-Descending }
