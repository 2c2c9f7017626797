-- ===== src/Budget/Settling.antt =====
-- The settler of internal/gw/budget/settler.go over the in-memory service of internal/gw/budget/service.go.
use agentgate.Base.{
  ℕ, ◌≡◌, refl, inl, inr, Bool, List, [], ◌∷◌, ◌++◌, map, Dict, lookup, insert, or_zero, sub64,
  Bool-cases,
}
use agentgate.Budget.Reservation.{Reservation}
use agentgate.Budget.Service.{
  Service, release_expired, expired_reservations, is_expirable, expire_loop,
}
use agentgate.Budget.Settler.{Settlable, tick, settle_loop}

abbrev pub memory_settlable : Settlable
memory_settlable = record { Svc = Service; release_expired = release_expired }

expire_loop-expired_reservations :
    (now max_age : ℕ) (rs : Dict Reservation) (used : Dict ℕ)
    → expired_reservations now max_age (expire_loop now max_age rs used).0 ≡ []
unfolding expire_loop expired_reservations
expire_loop-expired_reservations now max_age [] used = refl
expire_loop-expired_reservations now max_age ((id, r) ∷ rs) used =
    let less = insert r.team_id (sub64 (or_zero (lookup r.team_id used)) r.estimated_cents) used in
    elim (Bool-cases (is_expirable now max_age r)) [
      | inl e ↦ rw e (expire_loop-expired_reservations now max_age rs less)
      | inr e ↦ rw e (rw e (expire_loop-expired_reservations now max_age rs used))
    ]

-- After a tick of the settler no reservation that is older than the limit at that time is left, whatever
-- ticks came before it: ExpiredReservations is empty.
pub settle_loop-expired_reservations :
    (has_audit : Bool) (max_age : ℕ) (times : List ℕ) (now : ℕ) (s : Service)
    → expired_reservations now max_age
        (settle_loop memory_settlable has_audit max_age
          (map tick times ++ tick now ∷ [])
          s).0.reservations
      ≡ []
unfolding settle_loop release_expired
settle_loop-expired_reservations has_audit max_age [] now s =
    expire_loop-expired_reservations now max_age s.reservations s.used
settle_loop-expired_reservations has_audit max_age (t ∷ times) now s =
    settle_loop-expired_reservations has_audit max_age times now (release_expired s t max_age).0
