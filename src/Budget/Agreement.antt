-- ===== src/Budget/Agreement.antt =====
-- PgService of internal/gw/budget/pg_service.go beside the in-memory service of service.go: call by call, on
-- a database that runs every statement.
use agentgate.Base.{
  ℕ, ◌%◌, ◌≡◌, ◌≢◌, refl, sym, ap, ◌∙◌, inl, inr, String, Bool, true, false, List, Option, none,
  some, lookup, word, add64, Bool-cases, Option-cases, Result, ok, err,
}
use agentgate.Budget.Reservation.{committed, Reservation, is_reserved, new_reservation}
use agentgate.Budget.Service.{
  Service, Alert, team_used, reserve, commit, commit_found, release, release_expired,
}
use agentgate.Budget.Postgres.{
  PgService, PgError, pg_team_used, pg_reserve, pg_commit, pg_release, pg_release_expired, pay,
}
use agentgate.Budget.Accounting.{
  IsAccurate, reserve-IsAccurate, commit-IsAccurate, used-insert_self,
}
use agentgate.Budget.Table.{
  IsKeyed, values, update_where-missing, update_where-lookup, has_id-values, values-insert,
  sum_rows-total, IsKeyed-insert, lookup-id,
}

-- The calls that change a service, with the new id and the time as arguments.
pub data Call : Type 0 where
  reserving : String → String → String → String → String → ℕ → ℕ → Call
  committing : String → ℕ → ℕ → Call
  releasing : String → ℕ → Call
  expiring : ℕ → ℕ → Call

-- What the caller learns: the alert, whether there was an error, or the ids.
pub data Outcome : Type 0 where
  alerted : Option Alert → Outcome
  succeeded : Bool → Outcome
  swept : List String → Outcome

abbrev pub is_fine : {E : Type 0} → Option E → Outcome
is_fine none = succeeded true
is_fine (some e) = succeeded false

abbrev pub memory_step : Service → Call → Service × Outcome
memory_step s (reserving id trace_id tenant_id user_id team_id cents now) =
    let (s', _, alert) = reserve s id trace_id tenant_id user_id team_id cents now in
    (s', alerted alert)
memory_step s (committing id cents now) = let (s', e) = commit s id cents now in (s', is_fine e)
memory_step s (releasing id now) = let (s', e) = release s id now in (s', is_fine e)
memory_step s (expiring now max_age) =
    let (s', ids) = release_expired s now max_age in (s', swept ids)

abbrev pub reserved_outcome : Result PgError (Reservation × Option Alert) → Outcome
reserved_outcome (err e) = succeeded false
reserved_outcome (ok (_, alert)) = alerted alert

abbrev pub pg_step : PgService → Call → PgService × Outcome
pg_step t (reserving id trace_id tenant_id user_id team_id cents now) =
    let (t', made) = pg_reserve true true t id trace_id tenant_id user_id team_id cents now in
    (t', reserved_outcome made)
pg_step t (committing id cents now) = let (t', e) = pg_commit true t id cents now in (t', is_fine e)
pg_step t (releasing id now) = let (t', e) = pg_release true t id now in (t', is_fine e)
pg_step t (expiring now max_age) =
    let (t', ids) = pg_release_expired true t now max_age in (t', swept ids)

-- The Postgres service that holds what the in-memory one holds.
abbrev pub table_of : Service → PgService
table_of s = record { rows = values s.reservations; teams = s.teams; has_alert = s.has_alert }

abbrev pub IsSound : Service → Type 0
IsSound s = IsKeyed s.reservations × IsAccurate s

abbrev pub BothStep : Service → Call → Type 0
BothStep s c =
    let (s', outcome) = memory_step s c in
    IsSound s' × (pg_step (table_of s) c ≡ (table_of s', outcome))

-- A release is of a reservation that exists and is not committed.
abbrev pub Releasable : Option Reservation → Type 0
Releasable none = ⊥
Releasable (some r) = r.state ≢ committed

-- New ids are new.
abbrev pub Allowed : Service → Call → Type 0
Allowed s (reserving id _ _ _ _ _ _) = lookup id s.reservations ≡ none
Allowed s (releasing id _) = Releasable (lookup id s.reservations)
Allowed s _ = Unit {0}

pub pg_team_used-table_of :
    (s : Service) (team : String)
    → IsSound s
    → pg_team_used true (table_of s) team ≡ team_used s team
unfolding pg_team_used
pg_team_used-table_of s team (keyed, exact) =
    ap (λ n. n % word) (sum_rows-total team s.reservations keyed) ∙ sym (exact team)

pub reserve-BothStep :
    (s : Service) (id trace_id tenant_id user_id team_id : String) (cents now : ℕ)
    → lookup id s.reservations ≡ none
    → IsSound s
    → BothStep s (reserving id trace_id tenant_id user_id team_id cents now)
unfolding reserve pg_reserve team_used
reserve-BothStep s id trace_id tenant_id user_id team_id cents now new (keyed, exact) =
    let r = new_reservation id trace_id tenant_id user_id team_id cents now in
    let c = reserving id trace_id tenant_id user_id team_id cents now in
    let s' = (memory_step s c).0 in
    let sound : IsSound s' = (
      IsKeyed-insert s.reservations id r refl refl keyed,
      reserve-IsAccurate s id trace_id tenant_id user_id team_id cents now new exact,
    ) in
    let spent =
      pg_team_used-table_of s' team_id sound
      ∙ used-insert_self team_id (add64 (team_used s team_id) cents) s.used in
    (
      sound,
      rw (has_id-values s.reservations id keyed new, pg_reserve)
          (rw (sym (values-insert s.reservations id r new)) (rw spent refl)),
    )

pub commit-BothStep :
    (s : Service) (id : String) (cents now : ℕ) → IsSound s → BothStep s (committing id cents now)
unfolding commit commit_found pg_commit
commit-BothStep s id cents now (keyed, exact) = elim (Option-cases (lookup id s.reservations)) [
  | inl e ↦ (
    (rw (e, commit) keyed, commit-IsAccurate s id cents now exact),
    rw
        (
          update_where-missing s.reservations id (λ q. is_reserved q.state) (pay cents now) keyed e,
          e,
          commit,
        )
        refl,
  )
  | inr (r, e) ↦
      let both =
        update_where-lookup s.reservations id (λ q. is_reserved q.state) (pay cents now) r keyed
          e in
      elim (Bool-cases (is_reserved r.state)) [
        | inl open_ ↦ (
          (
            rw (e, commit)
                (rw (open_, commit_found)
                  (IsKeyed-insert s.reservations id (pay cents now r)
                    (lookup-id s.reservations id r keyed e) (cents, refl) keyed)),
            commit-IsAccurate s id cents now exact,
          ),
          rw (both, e, commit) (rw (open_, commit_found) refl),
        )
        | inr closed ↦ (
          (
            rw (e, commit) (rw (closed, commit_found) keyed),
            commit-IsAccurate s id cents now exact,
          ),
          rw (both, e, commit) (rw (closed, commit_found) refl),
        )
      ]
]
