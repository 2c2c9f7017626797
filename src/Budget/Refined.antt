-- ===== src/Budget/Refined.antt =====
-- Runs of the in-memory service of internal/gw/budget/service.go and of PgService of pg_service.go.
use agentgate.Base.{
  ℕ, ◌≡◌, ◌≢◌, refl, sym, ap, ◌∙◌, inl, inr, String, true, not, List, [], ◌∷◌, Option, none, some,
  some-injective, Dict, lookup, insert, or_zero, sub64, ◌==◌, Bool-cases,
}
use agentgate.Budget.Reservation.{committed, Reservation, is_settled_free}
use agentgate.Budget.Service.{
  Service, team_used, release, release_found, release_expired, is_expirable, expire, expire_loop,
}
use agentgate.Budget.Postgres.{
  PgService, update_where, pg_team_used, pg_release, pg_release_expired, free,
}
use agentgate.Budget.Accounting.{release-IsAccurate}
use agentgate.Budget.Expiry.{release_expired-IsAccurate}
use agentgate.Budget.Table.{IsKeyed, values, update_where-lookup, IsKeyed-insert, lookup-id}
use agentgate.Budget.Agreement.{
  Call, reserving, committing, releasing, expiring, Outcome, memory_step, pg_step, table_of,
  IsSound, BothStep, Releasable, Allowed, reserve-BothStep, commit-BothStep, pg_team_used-table_of,
}

Releasable-some :
    (o : Option Reservation)
    → Releasable o
    → (r : Reservation) × (o ≡ some r) × (r.state ≢ committed)
Releasable-some none h = absurd h
Releasable-some (some r) h = (r, refl, h)

release-BothStep :
    (s : Service) (id : String) (now : ℕ)
    → Releasable (lookup id s.reservations)
    → IsSound s
    → BothStep s (releasing id now)
unfolding release release_found pg_release
release-BothStep s id now allowed (keyed, exact) =
    let (r, e, n) = Releasable-some (lookup id s.reservations) allowed in
    let both =
      update_where-lookup s.reservations id (λ q. not (is_settled_free q.state)) (free now) r keyed
        e in
    let exact' =
      release-IsAccurate s id now
        (λ q f paid. n (ap (λ x. x.state) (some-injective r q (sym e ∙ f)) ∙ paid)) exact in
    elim (Bool-cases (is_settled_free r.state)) [
      | inl settled ↦ (
        (rw (e, release) (rw (settled, release_found) keyed), exact'),
        rw (both, e, release) (rw (settled, release_found) refl),
      )
      | inr busy ↦ (
        (
          rw (e, release)
              (rw (busy, release_found)
                (IsKeyed-insert s.reservations id (free now r)
                  (lookup-id s.reservations id r keyed e) tt keyed)),
          exact',
        ),
        rw (both, e, release) (rw (busy, release_found) refl),
      )
    ]

lookup-expire_loop :
    (now max_age : ℕ) (rs : Dict Reservation) (used : Dict ℕ) (key : String)
    → lookup key rs ≡ none
    → lookup key (expire_loop now max_age rs used).0 ≡ none
unfolding expire_loop
lookup-expire_loop now max_age [] used key h = h
lookup-expire_loop now max_age ((id, r) ∷ rs) used key h =
    let less = insert r.team_id (sub64 (or_zero (lookup r.team_id used)) r.estimated_cents) used in
    elim (Bool-cases (id == key)) [
      | inl e ↦ cc (rw e at h)
      | inr e ↦
          let rest = rw e at h in
          elim (Bool-cases (is_expirable now max_age r)) [
            | inl stale ↦ rw stale (rw e (lookup-expire_loop now max_age rs less key rest))
            | inr live ↦ rw live (rw e (lookup-expire_loop now max_age rs used key rest))
          ]
    ]

expire_loop-IsKeyed :
    (now max_age : ℕ) (rs : Dict Reservation) (used : Dict ℕ)
    → IsKeyed rs
    → IsKeyed (expire_loop now max_age rs used).0
unfolding expire_loop
expire_loop-IsKeyed now max_age [] used keyed = tt
expire_loop-IsKeyed now max_age ((id, r) ∷ rs) used (named, new, costed, keyed) =
    let less = insert r.team_id (sub64 (or_zero (lookup r.team_id used)) r.estimated_cents) used in
    elim (Bool-cases (is_expirable now max_age r)) [
      | inl e ↦ rw e (
        named,
        lookup-expire_loop now max_age rs less id new,
        tt,
        expire_loop-IsKeyed now max_age rs less keyed,
      )
      | inr e ↦ rw e (
        named,
        lookup-expire_loop now max_age rs used id new,
        costed,
        expire_loop-IsKeyed now max_age rs used keyed,
      )
    ]

update_where-expire_loop :
    (now max_age : ℕ) (rs : Dict Reservation) (used : Dict ℕ)
    → update_where (is_expirable now max_age) (expire now) (values rs)
      ≡ (values (expire_loop now max_age rs used).0, (expire_loop now max_age rs used).2)
unfolding expire_loop update_where
update_where-expire_loop now max_age [] used = refl
update_where-expire_loop now max_age ((id, r) ∷ rs) used =
    let less = insert r.team_id (sub64 (or_zero (lookup r.team_id used)) r.estimated_cents) used in
    elim (Bool-cases (is_expirable now max_age r)) [
      | inl e ↦ rw (update_where-expire_loop now max_age rs less) (rw e refl)
      | inr e ↦ rw (update_where-expire_loop now max_age rs used) (rw e refl)
    ]

pub expire-BothStep :
    (s : Service) (now max_age : ℕ) → IsSound s → BothStep s (expiring now max_age)
unfolding release_expired pg_release_expired
expire-BothStep s now max_age (keyed, exact) = (
  (
    expire_loop-IsKeyed now max_age s.reservations s.used keyed,
    release_expired-IsAccurate s now max_age exact,
  ),
  rw (update_where-expire_loop now max_age s.reservations s.used) refl,
)

pub step-BothStep : (s : Service) (c : Call) → Allowed s c → IsSound s → BothStep s c
step-BothStep s (reserving id trace_id tenant_id user_id team_id cents now) allowed sound =
    reserve-BothStep s id trace_id tenant_id user_id team_id cents now allowed sound
step-BothStep s (committing id cents now) allowed sound = commit-BothStep s id cents now sound
step-BothStep s (releasing id now) allowed sound = release-BothStep s id now allowed sound
step-BothStep s (expiring now max_age) allowed sound = expire-BothStep s now max_age sound

abbrev pub memory_run : List Call → Service → Service × List Outcome
memory_run [] s = (s, [])
memory_run (c ∷ cs) s =
    let (s', outcome) = memory_step s c in
    let (last, outcomes) = memory_run cs s' in (last, outcome ∷ outcomes)

abbrev pub pg_run : List Call → PgService → PgService × List Outcome
pg_run [] t = (t, [])
pg_run (c ∷ cs) t =
    let (t', outcome) = pg_step t c in
    let (last, outcomes) = pg_run cs t' in (last, outcome ∷ outcomes)

abbrev pub AllAllowed : List Call → Service → Type 0
AllAllowed [] s = Unit {0}
AllAllowed (c ∷ cs) s = Allowed s c × AllAllowed cs (memory_step s c).0

pg_run_lem :
    (cs : List Call) (s : Service)
    → AllAllowed cs s
    → IsSound s
    → IsSound (memory_run cs s).0
      × (pg_run cs (table_of s) ≡ (table_of (memory_run cs s).0, (memory_run cs s).1))
pg_run_lem [] s allowed sound = (sound, refl)
pg_run_lem (c ∷ cs) s (allowed, later) sound =
    let (sound', step) = step-BothStep s c allowed sound in
    let (last, run) = pg_run_lem cs (memory_step s c).0 later sound' in
    (last, rw step (rw run refl))

-- Over a database that runs every statement, PgService does what the in-memory service does: after any
-- sequence of calls, in which new ids are new and a release is of a reservation that exists and is not
-- committed, the callers have got the same alerts, errors and expired ids, the rows are the reservations,
-- and TeamUsed answers the same for every team. The first state is one whose `used` is the sum of its
-- reservations.
pub pg_run-memory_run :
    (cs : List Call) (s : Service)
    → AllAllowed cs s
    → IsSound s
    → (pg_run cs (table_of s) ≡ (table_of (memory_run cs s).0, (memory_run cs s).1))
      × ((team : String)
          → pg_team_used true (pg_run cs (table_of s)).0 team ≡ team_used (memory_run cs s).0 team)
pg_run-memory_run cs s allowed sound =
    let (last, run) = pg_run_lem cs s allowed sound in
    (run, λ team. rw run (pg_team_used-table_of (memory_run cs s).0 team last))
