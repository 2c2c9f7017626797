-- ===== src/Policy/Admitted.antt =====
-- The rules that a policy's checks in internal/gw/config/policy.go admit, as a test, which a sort of the
-- rules keeps.
use mathlib.Core.List.{Perm, Permᴰ}
use mathlib.Core.Logic.{∥∥₁_elim}
use mathlib.Core.Bool.{Bool-set}
use agentgate.Base.{
  ◌≡◌, refl, ap, ◌∙◌, String, Bool, true, false, not, ◌&&◌, List, [], ◌∷◌, ◌==◌, Dict, contains,
  All, map, Bool-cases, inl, inr, arith, if◌then◌else◌,
}
use agentgate.Config.Types.{PolicyRule, Pool}
use agentgate.Config.Policy.{names}
use agentgate.Config.Policy.Valid.{IsAllowed, IsValidRule, Names}
use agentgate.External.{Cel}
use agentgate.Policy.Engine.{CompiledRule}

-- Whether an action is no route, or a route to one of the names.
abbrev pub admitted : List String → String → String → Bool
admitted pool_names action model_pool =
    if action == "route" then not (model_pool == "") && contains pool_names model_pool else true

pub is_admitted :
    (pool_names : List String) (action model_pool : String)
    → IsAllowed action model_pool
    → Names pool_names action model_pool
    → admitted pool_names action model_pool ≡ true
is_admitted pool_names action model_pool (_, named) among = elim (Bool-cases (action == "route")) [
  | inl e ↦ elim (Bool-cases (model_pool == "")) [
    | inl f ↦ ground arith
    | inr f ↦ rw e (rw f (among e f))
  ]
  | inr e ↦ rw e
]

pub not_empty_pool :
    (x : String) (c : Bool) → (not (x == "") && c) ≡ true → ((x == "") ≡ false) × (c ≡ true)
not_empty_pool x c h = ground arith

abbrev pub every : {A : Type 0} → (A → Bool) → List A → Bool
every test [] = true
every test (x ∷ xs) = test x && every test xs

and_swap : (p q r : Bool) → (p && (q && r)) ≡ (q && (p && r))
and_swap p q r = ground arith

every-Permᴰ :
    {A : Type 0} (test : A → Bool) {xs ys : List A} → Permᴰ xs ys → every test xs ≡ every test ys
every-Permᴰ test Permᴰ.nil = refl
every-Permᴰ test (Permᴰ.cons {b = b} e p) = rw e (ap (λ r. test b && r) (every-Permᴰ test p))
every-Permᴰ test (Permᴰ.swap {a' = a'} {b' = b'} {l = l} e f) =
    rw e (rw f (and_swap (test b') (test a') (every test l)))
every-Permᴰ test (Permᴰ.trans p q) = every-Permᴰ test p ∙ every-Permᴰ test q

pub every-Perm :
    {A : Type 0} (test : A → Bool) {xs ys : List A} → Perm xs ys → every test xs ≡ every test ys
every-Perm test p = ∥∥₁_elim p (Bool-set _ _) (every-Permᴰ test)

pub every-All :
    {A : Type 0} (test : A → Bool) (xs : List A)
    → All (λ x. test x ≡ true) xs
    → every test xs ≡ true
every-All test [] h = refl
every-All test (x ∷ xs) h = rw h.0 (every-All test xs h.1)

pub All-every :
    {A : Type 0} (test : A → Bool) (xs : List A)
    → every test xs ≡ true
    → All (λ x. test x ≡ true) xs
All-every test [] h = tt
All-every test (x ∷ xs) h = (ground arith, All-every test xs (ground arith))

-- What holds of all rules of the policy holds of all rules of its engine.
pub every-map :
    (cel : Cel) (test : PolicyRule → Bool) (cs : List (CompiledRule cel))
    → every test (map (λ c. c.rule) cs) ≡ every (λ c. test c.rule) cs
every-map cel test [] = refl
every-map cel test (c ∷ cs) = ap (λ r. test c.rule && r) (every-map cel test cs)

abbrev pub Admits : Dict Pool → PolicyRule → Type 0
Admits pools r = admitted (names pools) r.action r.model_pool ≡ true

pub policy-Admits :
    (pools : Dict Pool) (cel : Cel) (rules : List PolicyRule)
    → All (IsValidRule cel) rules
    → All (λ r. Names (names pools) r.action r.model_pool) rules
    → All (Admits pools) rules
policy-Admits pools cel [] h k = tt
policy-Admits pools cel (r ∷ rules) h k = (
  is_admitted (names pools) r.action r.model_pool h.0.0 k.0,
  policy-Admits pools cel rules h.1 k.1,
)
