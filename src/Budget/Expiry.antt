-- ===== src/Budget/Expiry.antt =====
-- The settler's sweep: ReleaseExpired of internal/gw/budget/service.go, which
-- internal/gw/budget/settler.go calls on every tick.
use agentgate.Base.{
  ℕ, ◌+◌, ◌%◌, ◌≡◌, refl, ap, ◌∙◌, inl, inr, String, true, [], ◌∷◌, map, Dict, or_zero, lookup,
  insert, word, sub64, ◌==◌, eq_iff, Bool-cases, arith,
}
use agentgate.Budget.Reservation.{Reservation}
use agentgate.Budget.Service.{
  Service, team_used, is_expirable, expire, expired_reservations, expire_loop, release_expired,
}
use agentgate.Budget.Accounting.{share, total, IsAccurate, held, reserved_held, remove, used-insert}

-- The accounts of a map of which a part, summed up in `base`, is behind the loop.
abbrev Accounts : (String → ℕ) → Dict Reservation → Dict ℕ → Type 0
Accounts base rs used =
    (team : String) → or_zero (lookup team used) ≡ (base team + total team rs) % word

expirable_held :
    (now max_age : ℕ) (r : Reservation)
    → is_expirable now max_age r ≡ true
    → held r.state r ≡ r.estimated_cents
expirable_held now max_age r h = reserved_held r.state r (ground arith)

expired_share : (team : String) (now : ℕ) (r : Reservation) → share team (expire now r) ≡ 0
expired_share team now r = ground arith

insert-Accounts :
    (base : String → ℕ) (now max_age : ℕ) (id : String) (r : Reservation) (rs : Dict Reservation)
    (used : Dict ℕ)
    → is_expirable now max_age r ≡ true
    → Accounts base ((id, r) ∷ rs) used
    → Accounts base rs
        (insert r.team_id (sub64 (or_zero (lookup r.team_id used)) r.estimated_cents) used)
insert-Accounts base now max_age id r rs used stale h team =
    let k = r.team_id in
    let v = sub64 (or_zero (lookup k used)) r.estimated_cents in
    elim (Bool-cases (k == team)) [
      | inl e ↦
          let same = (eq_iff k team).0 e in
          let account = rw (e, expirable_held now max_age r stale) at (h team) in
          rw (used-insert k team v used) (
            rw e (
              remove (or_zero (lookup k used)) (base team + (r.estimated_cents + total team rs)) _
                r.estimated_cents (rw same account) (omega arith)))
      | inr e ↦
          rw (used-insert k team v used)
            (rw e (rw e at (h team) ∙ ap (λ n. n % word) (omega arith)))
    ]

expire_loop-Accounts :
    (base : String → ℕ) (now max_age : ℕ) (rs : Dict Reservation) (used : Dict ℕ)
    → Accounts base rs used
    → Accounts base (expire_loop now max_age rs used).0 (expire_loop now max_age rs used).1
unfolding expire_loop
expire_loop-Accounts base now max_age [] used h team = h team
expire_loop-Accounts base now max_age ((id, r) ∷ rs) used h team =
    let less = insert r.team_id (sub64 (or_zero (lookup r.team_id used)) r.estimated_cents) used in
    elim (Bool-cases (is_expirable now max_age r)) [
      | inl e ↦ rw e (
          expire_loop-Accounts base now max_age rs less
            (insert-Accounts base now max_age id r rs used e h) team
          ∙ ap (λ n. n % word) (omega (arith, expired_share team now r)))
      | inr e ↦ rw e (
          expire_loop-Accounts (λ t. base t + share t r) now max_age rs used
            (λ t. h t ∙ ap (λ n. n % word) (omega arith)) team
          ∙ ap (λ n. n % word) (omega arith))
    ]

-- A sweep keeps the accounts: where `used` is the sum of what the reservations hold before it, it is
-- their sum after it.
pub release_expired-IsAccurate :
    (s : Service) (now max_age : ℕ) → IsAccurate s → IsAccurate (release_expired s now max_age).0
unfolding release_expired team_used
release_expired-IsAccurate s now max_age h team =
    expire_loop-Accounts (λ _. 0) now max_age s.reservations s.used
      (λ t. h t ∙ ap (λ n. n % word) (omega arith)) team
    ∙ ap (λ n. n % word) (omega arith)

expire_loop_ids :
    (now max_age : ℕ) (rs : Dict Reservation) (used : Dict ℕ)
    → (expire_loop now max_age rs used).2 ≡ map (λ r. r.id) (expired_reservations now max_age rs)
unfolding expire_loop expired_reservations
expire_loop_ids now max_age [] used = refl
expire_loop_ids now max_age ((id, r) ∷ rs) used =
    let less = insert r.team_id (sub64 (or_zero (lookup r.team_id used)) r.estimated_cents) used in
    elim (Bool-cases (is_expirable now max_age r)) [
      | inl e ↦ rw (e, map) (ap (λ l. r.id ∷ l) (expire_loop_ids now max_age rs less))
      | inr e ↦ rw (e, map) (expire_loop_ids now max_age rs used)
    ]

expire_loop_none_left :
    (now max_age : ℕ) (rs : Dict Reservation) (used : Dict ℕ)
    → expired_reservations now max_age (expire_loop now max_age rs used).0 ≡ []
unfolding expire_loop expired_reservations
expire_loop_none_left now max_age [] used = refl
expire_loop_none_left now max_age ((id, r) ∷ rs) used =
    let less = insert r.team_id (sub64 (or_zero (lookup r.team_id used)) r.estimated_cents) used in
    elim (Bool-cases (is_expirable now max_age r)) [
      | inl e ↦ rw e (expire_loop_none_left now max_age rs less)
      | inr e ↦ rw e (rw e (expire_loop_none_left now max_age rs used))
    ]

-- A sweep returns the ids of exactly the reservations that a scan before it lists, in that order, and
-- a scan after it with the same cutoff lists nothing.
pub release_expired-expired_reservations :
    (s : Service) (now max_age : ℕ)
    → ((release_expired s now max_age).1
        ≡ map (λ r. r.id) (expired_reservations now max_age s.reservations))
      × (expired_reservations now max_age (release_expired s now max_age).0.reservations ≡ [])
unfolding release_expired
release_expired-expired_reservations s now max_age = (
  expire_loop_ids now max_age s.reservations s.used,
  expire_loop_none_left now max_age s.reservations s.used,
)
