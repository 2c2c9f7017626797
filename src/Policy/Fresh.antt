-- ===== src/Policy/Fresh.antt =====
-- The items that an append without repeats adds: the list that the loops of the append helper of
-- internal/gw/policy/decision.go compute.
use agentgate.Base.{
  String, true, ◌||◌, List, [], ◌∷◌, ◌++◌, ◌≡◌, refl, sym, ap, ◌∙◌, inl, inr, contains,
  contains-append, eq_iff, ◌==◌, Bool-cases, if◌then◌else◌, arith, append-nil, append_assoc,
}
use agentgate.Policy.Decision.{append_unseen, mark_seen, append_unique}

-- The items that `seen` lacks, each once.
unfoldable pub fresh : List String → List String → List String
fresh seen [] = []
fresh seen (s ∷ items) =
    let old = fresh seen items in
    let new = s ∷ fresh (s ∷ seen) items in if contains seen s then old else new

abbrev pub SameSet : List String → List String → Type 0
SameSet s t = (x : String) → contains s x ≡ contains t x

abbrev pub Within : List String → List String → Type 0
Within s t = (x : String) → contains s x ≡ true → contains t x ≡ true

-- A member is already there, whatever equal text is asked for.
contains-cons_mem :
    (s : List String) (x y : String) → contains s x ≡ true → contains (x ∷ s) y ≡ contains s y
contains-cons_mem s x y h = elim (Bool-cases (x == y)) [
  | inl e ↦ rw e (sym (rw ((eq_iff x y).0 e) at h))
  | inr e ↦ rw e
]

SameSet-cons : (s t : List String) (y : String) → SameSet s t → SameSet (y ∷ s) (y ∷ t)
SameSet-cons s t y h x = rw (h x)

pub fresh_cong : (s t items : List String) → SameSet s t → fresh s items ≡ fresh t items
unfolding fresh
fresh_cong s t [] h = refl
fresh_cong s t (y ∷ items) h = elim (Bool-cases (contains t y)) [
  | inl e ↦ rw (h y, e) (fresh_cong s t items h)
  | inr e ↦ rw (h y, e) (ap (λ r. y ∷ r) (fresh_cong (y ∷ s) (y ∷ t) items (SameSet-cons s t y h)))
]

pub append_unseen-eq :
    (s slice items : List String) → append_unseen s slice items ≡ slice ++ fresh s items
unfolding append_unseen fresh
append_unseen-eq s slice [] = sym (append-nil slice)
append_unseen-eq s slice (y ∷ items) = elim (Bool-cases (contains s y)) [
  | inl e ↦ rw e (append_unseen-eq s slice items)
  | inr e ↦ rw e (
      append_unseen-eq (y ∷ s) (slice ++ y ∷ []) items
      ∙ append_assoc slice (y ∷ []) (fresh (y ∷ s) items))
]

contains-mark_seen :
    (s slice : List String) (x : String)
    → contains (mark_seen s slice) x ≡ (contains s x || contains slice x)
unfolding mark_seen
contains-mark_seen s [] x = ground arith
contains-mark_seen s (y ∷ slice) x = ground (arith, contains-mark_seen (y ∷ s) slice x)

pub append_unique-eq :
    (slice items : List String) → append_unique slice items ≡ slice ++ fresh slice items
unfolding append_unique
append_unique-eq slice items =
    append_unseen-eq (mark_seen [] slice) slice items
    ∙ ap (λ r. slice ++ r)
        (fresh_cong (mark_seen [] slice) slice items (contains-mark_seen [] slice))

-- What is there after the append is what was there or was given.
pub contains-fresh :
    (s items : List String) (x : String)
    → (contains s x || contains (fresh s items) x) ≡ (contains s x || contains items x)
unfolding fresh
contains-fresh s [] x = refl
contains-fresh s (y ∷ items) x = elim (Bool-cases (contains s y)) [
  | inl e ↦ rw e (ground (arith, contains-fresh s items x, contains-cons_mem s y x))
  | inr e ↦ rw e (ground (arith, contains-fresh (y ∷ s) items x))
]

pub fresh-append : (s l m : List String) → fresh s (l ++ m) ≡ fresh s l ++ fresh (s ++ l) m
unfolding fresh
fresh-append s [] m = rw append-nil
fresh-append s (y ∷ l) m = elim (Bool-cases (contains s y)) [
  | inl e ↦ rw e (
      fresh-append s l m
      ∙ ap (λ r. fresh s l ++ r)
          (fresh_cong (s ++ l) (s ++ y ∷ l) m (λ x. ground (
            arith,
            contains-append s l x,
            contains-append s (y ∷ l) x,
            contains-cons_mem s y x e,
          ))))
  | inr e ↦ rw e (
      ap (λ r. y ∷ r)
        (fresh-append (y ∷ s) l m
          ∙ ap (λ r. fresh (y ∷ s) l ++ r)
              (fresh_cong (y ∷ s ++ l) (s ++ y ∷ l) m
                (λ x. ground (arith, contains-append s l x, contains-append s (y ∷ l) x)))))
]

-- What a smaller set already filtered can be left unfiltered.
pub fresh-fresh : (s t l : List String) → Within t s → fresh s (fresh t l) ≡ fresh s l
unfolding fresh
fresh-fresh s t [] h = refl
fresh-fresh s t (y ∷ l) h = elim (Bool-cases (contains t y)) [
  | inl e ↦ rw (e, h y e) (fresh-fresh s t l h)
  | inr e ↦ elim (Bool-cases (contains s y)) [
    | inl d ↦
        rw (e, d) (fresh-fresh s (y ∷ t) l (λ x m. ground (arith, h x, contains-cons_mem s y x d)))
    | inr d ↦
        rw (e, d) (ap (λ r. y ∷ r) (fresh-fresh (y ∷ s) (y ∷ t) l (λ x m. ground (arith, h x))))
  ]
]
