-- ===== src/Budget/Service.antt =====
-- The in-memory service: internal/gw/budget/service.go. Each method runs under the mutex, so it is one
-- function of the state. A reservation that the map points to is updated in place. The new UUID and
-- the time of the call are arguments, and the alert that a call raises is a result.
use agentgate.Base.{
  ℕ, ◌/◌, String, Bool, true, false, ◌&&◌, List, [], ◌∷◌, Option, none, some, ltb, leb, Dict,
  lookup, or_zero, insert, sign, add64, sub64, mul64, is_positive, if◌then◌else◌, Result, ok, err,
}
use agentgate.Budget.Reservation.{
  State, committed, released, expired, Reservation, is_reserved, is_settled_free, is_stale,
  new_reservation,
}

pub data BudgetError : Type 0 where
  not_found : String → BudgetError
  cannot_commit : String → State → BudgetError

-- The arguments of a call of the alert function.
pub record Alert : Type 0 where
  pub team_id : String
  pub used_cents : ℕ
  pub cap_cents : ℕ

pub record Service : Type 0 where
  pub reservations : Dict Reservation
  pub teams : Dict ℕ
  pub used : Dict ℕ
  pub has_alert : Bool

abbrev pub new_service : Service
new_service = record { reservations = []; teams = []; used = []; has_alert = false }

unfoldable pub set_team_cap : Service → String → ℕ → Service
set_team_cap s team_id cents = record s { teams = insert team_id cents s.teams }

unfoldable pub on_alert : Service → Service
on_alert s = record s { has_alert = true }

-- `s.used[teamID]`
unfoldable pub team_used : Service → String → ℕ
team_used s team_id = or_zero (lookup team_id s.used)

-- `used*100/cap >= 80` for signed numbers and a positive cap: a product with the sign bit is negative,
-- and so is its quotient.
unfoldable pub over_threshold : ℕ → ℕ → Bool
over_threshold used cap = let p = mul64 used 100 in ltb p sign && leb 80 (p / cap)

unfoldable pub soft_warn : Bool → Dict ℕ → String → ℕ → Option Alert
soft_warn has_alert teams team_id used = elim (lookup team_id teams) [
  | none ↦ none
  | some cap ↦
      if is_positive cap && (over_threshold used cap && has_alert)
      then some (record { team_id = team_id; used_cents = used; cap_cents = cap })
      else none
]

unfoldable pub reserve :
    Service
    → String
    → String
    → String
    → String
    → String
    → ℕ
    → ℕ
    → Service × Reservation × Option Alert
reserve s id trace_id tenant_id user_id team_id cents now =
    let r = new_reservation id trace_id tenant_id user_id team_id cents now in
    let used = add64 (team_used s team_id) cents in
    (
      record s { reservations = insert id r s.reservations; used = insert team_id used s.used },
      r,
      soft_warn s.has_alert s.teams team_id used,
    )

unfoldable pub commit_found : Service → String → ℕ → ℕ → Reservation → Service × Option BudgetError
commit_found s id cents now r =
    if is_reserved r.state
    then (
      record s {
        used =
            insert r.team_id (add64 (sub64 (team_used s r.team_id) r.estimated_cents) cents) s.used;
        reservations =
            insert id
              (record r { actual_cents = some cents; state = committed; settled_at = some now })
              s.reservations;
      },
      none,
    )
    else (s, some (cannot_commit id r.state))

unfoldable pub commit : Service → String → ℕ → ℕ → Service × Option BudgetError
commit s id cents now = elim (lookup id s.reservations) [
  | none ↦ (s, some (not_found id))
  | some r ↦ commit_found s id cents now r
]

unfoldable pub release_found : Service → String → ℕ → Reservation → Service × Option BudgetError
release_found s id now r = if is_settled_free r.state then (s, none) else (
  record s {
    used = insert r.team_id (sub64 (team_used s r.team_id) r.estimated_cents) s.used;
    reservations = insert id (record r { state = released; settled_at = some now }) s.reservations;
  },
  none,
)

unfoldable pub release : Service → String → ℕ → Service × Option BudgetError
release s id now = elim (lookup id s.reservations) [
  | none ↦ (s, some (not_found id))
  | some r ↦ release_found s id now r
]

unfoldable pub get_reservation : Service → String → Result BudgetError Reservation
get_reservation s id = elim (lookup id s.reservations) [ none ↦ err (not_found id) | some r ↦ ok r ]

abbrev pub is_expirable : ℕ → ℕ → Reservation → Bool
is_expirable now max_age r = is_reserved r.state && is_stale now max_age r

unfoldable pub expired_reservations : ℕ → ℕ → Dict Reservation → List Reservation
expired_reservations now max_age [] = []
expired_reservations now max_age ((id, r) ∷ rs) =
    let rest = expired_reservations now max_age rs in
    if is_expirable now max_age r then r ∷ rest else rest

abbrev pub expire : ℕ → Reservation → Reservation
expire now r = record r { state = expired; settled_at = some now }

-- The loop of ReleaseExpired over the entries of the map: the entries, `used`, and the released ids.
unfoldable pub expire_loop :
    ℕ → ℕ → Dict Reservation → Dict ℕ → Dict Reservation × Dict ℕ × List String
expire_loop now max_age [] used = ([], used, [])
expire_loop now max_age ((id, r) ∷ rs) used =
    let stale = is_expirable now max_age r in
    let less = insert r.team_id (sub64 (or_zero (lookup r.team_id used)) r.estimated_cents) used in
    let (rs', used', ids) = expire_loop now max_age rs (if stale then less else used) in
    if stale then ((id, expire now r) ∷ rs', used', r.id ∷ ids) else ((id, r) ∷ rs', used', ids)

unfoldable pub release_expired : Service → ℕ → ℕ → Service × List String
release_expired s now max_age =
    let (rs, used, ids) = expire_loop now max_age s.reservations s.used in
    (record s { reservations = rs; used = used }, ids)
