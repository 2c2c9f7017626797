-- ===== src/Budget/Table.antt =====
-- The rows of budget_reservation beside the map of internal/gw/budget/service.go: what an UPDATE by id does
-- to the entries.
use agentgate.Base.{
  ℕ, ◌≡◌, refl, sym, ap, ap₂, subst, ◌∙◌, inl, inr, String, Bool, true, false, ◌&&◌, List, [], ◌∷◌,
  ◌++◌, Option, none, some, some-injective, Dict, lookup, insert, lookup-insert, ◌==◌,
  if◌then◌else◌, eq_iff, eq_refl, Bool-cases, arith,
}
use agentgate.Budget.Reservation.{State, reserved, committed, released, expired, Reservation}
use agentgate.Budget.Postgres.{update_where, has_id, sum_rows, cost_or_estimate, is_counted}
use agentgate.Budget.Accounting.{held, share, total}

-- A reservation without an actual cost until it is committed, and with one from then on.
abbrev pub IsCosted : State → Option ℕ → Type 0
IsCosted reserved cost = cost ≡ none
IsCosted committed cost = (cents : ℕ) × (cost ≡ some cents)
IsCosted _ cost = Unit {0}

-- A map of reservations by their ids, each id once.
abbrev pub IsKeyed : Dict Reservation → Type 0
IsKeyed [] = Unit {0}
IsKeyed ((key, r) ∷ rs) =
    (r.id ≡ key) × (lookup key rs ≡ none) × IsCosted r.state r.actual_cents × IsKeyed rs

abbrev pub values : Dict Reservation → List Reservation
values [] = []
values ((_, r) ∷ rs) = r ∷ values rs

pub update_where-missing :
    (rs : Dict Reservation) (id : String) (cond : Reservation → Bool)
    (set : Reservation → Reservation)
    → IsKeyed rs
    → lookup id rs ≡ none
    → update_where (λ r. r.id == id && cond r) set (values rs) ≡ (values rs, [])
unfolding update_where
update_where-missing [] id cond set keyed h = refl
update_where-missing ((key, r) ∷ rs) id cond set keyed h = elim (Bool-cases (key == id)) [
  | inl e ↦ cc (rw e at h)
  | inr e ↦
      let same : (r.id == id) ≡ false = ap (λ k. k == id) keyed.0 ∙ e in
      rw same (rw (update_where-missing rs id cond set keyed.3 (rw e at h)) refl)
]

pub update_where-lookup :
    (rs : Dict Reservation) (id : String) (cond : Reservation → Bool)
    (set : Reservation → Reservation) (r : Reservation)
    → IsKeyed rs
    → lookup id rs ≡ some r
    → update_where (λ q. q.id == id && cond q) set (values rs)
      ≡ (if cond r then (values (insert id (set r) rs), id ∷ []) else (values rs, []))
unfolding update_where
update_where-lookup [] id cond set r keyed h = cc
update_where-lookup ((key, q) ∷ rs) id cond set r keyed h = elim (Bool-cases (key == id)) [
  | inl e ↦
      let same : (q.id == id) ≡ true = ap (λ k. k == id) keyed.0 ∙ e in
      let found : q ≡ r = some-injective q r (rw e at h) in
      let last = subst (λ k. lookup k rs ≡ none) ((eq_iff key id).0 e) keyed.1 in
      rw same (
        rw (update_where-missing rs id cond set keyed.3 last) (
          rw e (elim (Bool-cases (cond r)) [
            | inl holds ↦ rw holds (
                rw (ap cond found ∙ holds)
                  (ap₂ (λ x i. (set x ∷ values rs, i ∷ [])) found (keyed.0 ∙ (eq_iff key id).0 e)))
            | inr fails ↦ rw fails (rw (ap cond found ∙ fails) refl)
          ])))
  | inr e ↦
      let same : (q.id == id) ≡ false = ap (λ k. k == id) keyed.0 ∙ e in
      rw same (
        rw (update_where-lookup rs id cond set r keyed.3 (rw e at h)) (
          rw e
            (elim (Bool-cases (cond r)) [ inl holds ↦ rw holds refl | inr fails ↦ rw fails refl ])))
]

pub has_id-values :
    (rs : Dict Reservation) (id : String)
    → IsKeyed rs
    → lookup id rs ≡ none
    → has_id id (values rs) ≡ false
unfolding has_id
has_id-values [] id keyed h = refl
has_id-values ((key, r) ∷ rs) id keyed h = elim (Bool-cases (key == id)) [
  | inl e ↦ cc (rw e at h)
  | inr e ↦
      let same : (r.id == id) ≡ false = ap (λ k. k == id) keyed.0 ∙ e in
      rw same (has_id-values rs id keyed.3 (rw e at h))
]

pub values-insert :
    (rs : Dict Reservation) (id : String) (r : Reservation)
    → lookup id rs ≡ none
    → values (insert id r rs) ≡ values rs ++ r ∷ []
values-insert [] id r h = refl
values-insert ((key, q) ∷ rs) id r h = elim (Bool-cases (key == id)) [
  | inl e ↦ cc (rw e at h)
  | inr e ↦ rw e (ap (λ l. q ∷ l) (values-insert rs id r (rw e at h)))
]

counted_held :
    (b : Bool) (st : State) (r : Reservation)
    → IsCosted st r.actual_cents
    → ◌≡◌ {A = ℕ}
        (if b && is_counted st then cost_or_estimate r else 0)
        (if b then held st r else 0)
counted_held true reserved r costed = rw costed refl
counted_held true committed r (cents, paid) = rw paid refl
counted_held true released r costed = refl
counted_held true expired r costed = refl
counted_held false st r costed = refl

-- What a row adds to the sum is what the reservation holds.
counted_share :
    (team : String) (r : Reservation)
    → IsCosted r.state r.actual_cents
    → (if r.team_id == team && is_counted r.state then cost_or_estimate r else 0) ≡ share team r
counted_share team r costed = counted_held (r.team_id == team) r.state r costed

pub sum_rows-total :
    (team : String) (rs : Dict Reservation) → IsKeyed rs → sum_rows team (values rs) ≡ total team rs
unfolding sum_rows
sum_rows-total team [] keyed = refl
sum_rows-total team ((key, r) ∷ rs) keyed =
    ground (arith, counted_share team r keyed.2, sum_rows-total team rs keyed.3)

IsKeyed-insert_key :
    (rs : Dict Reservation) (key id : String) (r : Reservation)
    → (key == id) ≡ false
    → lookup key rs ≡ none
    → lookup key (insert id r rs) ≡ none
IsKeyed-insert_key rs key id r h k = rw (lookup-insert id key r rs) (elim (Bool-cases (id == key)) [
  | inl e ↦ cc (subst (λ x. (key == x) ≡ false) ((eq_iff id key).0 e) h, eq_refl key)
  | inr e ↦ rw e k
])

-- An entry that is written under its id keeps the map keyed.
pub IsKeyed-insert :
    (rs : Dict Reservation) (id : String) (r : Reservation)
    → r.id ≡ id
    → IsCosted r.state r.actual_cents
    → IsKeyed rs
    → IsKeyed (insert id r rs)
IsKeyed-insert [] id r named costed keyed = (named, refl, costed, tt)
IsKeyed-insert ((key, q) ∷ rs) id r named costed keyed = elim (Bool-cases (key == id)) [
  | inl e ↦
      rw e (named, subst (λ k. lookup k rs ≡ none) ((eq_iff key id).0 e) keyed.1, costed, keyed.3)
  | inr e ↦ rw e (
    keyed.0,
    IsKeyed-insert_key rs key id r e keyed.1,
    keyed.2,
    IsKeyed-insert rs id r named costed keyed.3,
  )
]

pub lookup-id :
    (rs : Dict Reservation) (id : String) (r : Reservation)
    → IsKeyed rs
    → lookup id rs ≡ some r
    → r.id ≡ id
lookup-id [] id r keyed h = cc
lookup-id ((key, q) ∷ rs) id r keyed h = elim (Bool-cases (key == id)) [
  | inl e ↦ ap (λ x. x.id) (sym (some-injective q r (rw e at h))) ∙ keyed.0 ∙ (eq_iff key id).0 e
  | inr e ↦ lookup-id rs id r keyed.3 (rw e at h)
]
