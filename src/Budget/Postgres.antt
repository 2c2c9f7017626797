-- ===== src/Budget/Postgres.antt =====
-- The service over Postgres: internal/gw/budget/pg_service.go. A statement is a function of the rows of
-- budget_reservation, and a Boolean argument tells whether the database runs it.
use agentgate.Base.{
  ℕ, ◌+◌, ◌%◌, String, Bool, true, false, ◌&&◌, not, List, [], ◌∷◌, ◌++◌, Option, none, some, Dict,
  insert, word, ◌==◌, if◌then◌else◌, Result, ok, err,
}
use agentgate.Budget.Reservation.{
  State, reserved, committed, released, Reservation, is_reserved, is_settled_free, new_reservation,
}
use agentgate.Budget.Service.{Alert, soft_warn, is_expirable, expire}

pub record PgService : Type 0 where
  pub rows : List Reservation
  pub teams : Dict ℕ
  pub has_alert : Bool

pub data PgError : Type 0 where
  database : PgError
  not_reserved : String → PgError
  not_found : String → PgError

abbrev pub new_pg_service : List Reservation → PgService
new_pg_service rows = record { rows = rows; teams = []; has_alert = false }

unfoldable pub pg_set_team_cap : PgService → String → ℕ → PgService
pg_set_team_cap s team_id cents = record s { teams = insert team_id cents s.teams }

unfoldable pub pg_on_alert : PgService → PgService
pg_on_alert s = record s { has_alert = true }

-- UPDATE with a condition: the rows, and the ids of those that it changed.
unfoldable pub update_where :
    (Reservation → Bool)
    → (Reservation → Reservation)
    → List Reservation
    → List Reservation × List String
update_where cond set [] = ([], [])
update_where cond set (r ∷ rs) =
    let (rs', ids) = update_where cond set rs in
    if cond r then (set r ∷ rs', r.id ∷ ids) else (r ∷ rs', ids)

-- The primary key.
unfoldable pub has_id : String → List Reservation → Bool
has_id id [] = false
has_id id (r ∷ rs) = let later = has_id id rs in if r.id == id then true else later

-- COALESCE(actual_cents, estimated_cents)
abbrev pub cost_or_estimate : Reservation → ℕ
cost_or_estimate r = elim r.actual_cents [ none ↦ r.estimated_cents | some cents ↦ cents ]

-- The state is 'reserved' or 'committed'.
abbrev pub is_counted : State → Bool
is_counted reserved = true
is_counted committed = true
is_counted _ = false

unfoldable pub sum_rows : String → List Reservation → ℕ
sum_rows team [] = 0
sum_rows team (r ∷ rs) =
    let rest = sum_rows team rs in
    if r.team_id == team && is_counted r.state then cost_or_estimate r + rest else rest

-- A query that fails leaves the zero of `var used int`. The columns are 32 bits wide, so that the sum stays
-- far below 64 bits.
unfoldable pub pg_team_used : Bool → PgService → String → ℕ
pg_team_used answered s team = if answered then sum_rows team s.rows % word else 0

unfoldable pub pg_reserve :
    Bool
    → Bool
    → PgService
    → String
    → String
    → String
    → String
    → String
    → ℕ
    → ℕ
    → PgService × Result PgError (Reservation × Option Alert)
pg_reserve inserted answered s id trace_id tenant_id user_id team_id cents now =
    let r = new_reservation id trace_id tenant_id user_id team_id cents now in
    let s' = record s { rows = s.rows ++ r ∷ [] } in
    if inserted && not (has_id id s.rows)
    then (s', ok (r, soft_warn s.has_alert s.teams team_id (pg_team_used answered s' team_id)))
    else (s, err database)

-- SET state, actual_cents, settled_at
abbrev pub pay : ℕ → ℕ → Reservation → Reservation
pay cents now r = record r { actual_cents = some cents; state = committed; settled_at = some now }

abbrev pub none_affected : String → List String → Option PgError
none_affected id [] = some (not_reserved id)
none_affected id (_ ∷ _) = none

unfoldable pub pg_commit : Bool → PgService → String → ℕ → ℕ → PgService × Option PgError
pg_commit updated s id cents now =
    let (rows, ids) =
      update_where (λ r. r.id == id && is_reserved r.state) (pay cents now) s.rows in
    if updated then (record s { rows = rows }, none_affected id ids) else (s, some database)

abbrev pub free : ℕ → Reservation → Reservation
free now r = record r { state = released; settled_at = some now }

unfoldable pub pg_release : Bool → PgService → String → ℕ → PgService × Option PgError
pg_release updated s id now =
    let rows =
      (update_where (λ r. r.id == id && not (is_settled_free r.state)) (free now) s.rows).0 in
    if updated then (record s { rows = rows }, none) else (s, some database)

abbrev pub first_row : String → List Reservation → Option Reservation
first_row id [] = none
first_row id (r ∷ rs) = if r.id == id then some r else first_row id rs

abbrev pub row_or_error : String → Option Reservation → Result PgError Reservation
row_or_error id none = err (not_found id)
row_or_error id (some r) = ok r

unfoldable pub pg_get_reservation : Bool → PgService → String → Result PgError Reservation
pg_get_reservation answered s id =
    if answered then row_or_error id (first_row id s.rows) else err (not_found id)

abbrev pub select_expirable : ℕ → ℕ → List Reservation → List Reservation
select_expirable now max_age [] = []
select_expirable now max_age (r ∷ rs) =
    let rest = select_expirable now max_age rs in
    if is_expirable now max_age r
    then record r { actual_cents = none; settled_at = none } ∷ rest
    else rest

-- The columns actual_cents and settled_at are not selected.
unfoldable pub pg_expired_reservations : Bool → PgService → ℕ → ℕ → List Reservation
pg_expired_reservations answered s now max_age =
    let rows = select_expirable now max_age s.rows in if answered then rows else []

unfoldable pub pg_release_expired : Bool → PgService → ℕ → ℕ → PgService × List String
pg_release_expired updated s now max_age =
    let (rows, ids) = update_where (is_expirable now max_age) (expire now) s.rows in
    if updated then (record s { rows = rows }, ids) else (s, [])
