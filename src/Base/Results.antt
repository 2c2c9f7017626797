-- ===== src/Base/Results.antt =====
-- A value or an error, the two results of a Go function, and its `if err != nil { return }`.
use mathlib.Core.Path.{◌≡◌, refl}
use mathlib.Core.Logic.{◌⊎◌, inl, inr}
use mathlib.Core.Bool.{Bool, true, false}

pub data Result {ℓ} (E A : Type ℓ) : Type ℓ where
  ok : A → Result E A
  err : E → Result E A

infixl 5 ◌>>=◌ ◌>>◌
abbrev pub ◌>>=◌ {ℓ} : {E A B : Type ℓ} → Result E A → (A → Result E B) → Result E B
ok a >>= f = f a
err e >>= f = err e

abbrev pub ◌>>◌ {ℓ} : {E B : Type ℓ} → Result E (Unit {ℓ}) → Result E B → Result E B
m >> k = m >>= λ _. k

-- `if test { return e }`
abbrev pub reject {ℓ} : {E : Type ℓ} → Bool → E → Result E (Unit {ℓ})
reject true e = err e
reject false e = ok tt

-- A chain of calls succeeds only if each of them does.
pub >>=-eq-ok {ℓ} :
    {E A B : Type ℓ} (call : Result E A) (next : A → Result E B) {out : B}
    → (call >>= next) ≡ ok out
    → (val : A) × (call ≡ ok val) × (next val ≡ ok out)
>>=-eq-ok (err e) next run = cc
>>=-eq-ok (ok val) next run = (val, refl, run)

-- A check passed only if its test failed.
pub reject-eq-ok {ℓ} :
    {E B : Type ℓ} (t : Bool) (e : E) (k : Result E B) {b : B}
    → (reject t e >> k) ≡ ok b
    → (t ≡ false) × (k ≡ ok b)
reject-eq-ok true e k h = cc
reject-eq-ok false e k h = (refl, h)

pub ok-injective {ℓ} : {E A : Type ℓ} {a b : A} → ◌≡◌ {A = Result E A} (ok a) (ok b) → a ≡ b
ok-injective h = cc

pub Result-cases {ℓ} :
    {E A : Type ℓ} (r : Result E A) → ((e : E) × (r ≡ err e)) ⊎ ((a : A) × (r ≡ ok a))
Result-cases (ok a) = inr (a, refl)
Result-cases (err e) = inl (e, refl)

-- `if err := m; err != nil { return f(err) }`
abbrev pub wrap {ℓ} : {E E' A : Type ℓ} → (E → E') → Result E A → Result E' A
wrap f (ok a) = ok a
wrap f (err e) = err (f e)

-- A wrapped check passed only if the check itself did.
pub wrap-eq-ok {ℓ} :
    {E E' B : Type ℓ} (f : E → E') (check : Result E (Unit {ℓ})) (rest : Result E' B) {out : B}
    → (wrap f check >> rest) ≡ ok out
    → (check ≡ ok tt) × (rest ≡ ok out)
wrap-eq-ok f (err e) rest run = cc
wrap-eq-ok f (ok tt) rest run = (refl, run)
