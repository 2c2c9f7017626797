-- ===== src/Tests/Budget.antt =====
-- The budget service over one team with two reservations: internal/gw/budget.
use agentgate.Base.{String, List, true, false, ◌≡◌, refl, [], ◌∷◌, none, some, arith}
use agentgate.Budget.Reservation.{Reservation, reserved, committed}
use agentgate.Budget.Service.{
  Service, team_used, reserve, commit, release, release_expired, expired_reservations, soft_warn,
  over_threshold, commit_found, release_found, expire_loop,
}
use agentgate.Budget.Accounting.{IsAccurate, commit-IsAccurate, release-committed_drifts}
use agentgate.Budget.Expiry.{release_expired-IsAccurate}
use agentgate.Budget.Postgres.{pg_team_used}
use agentgate.Budget.Settler.{Event, tick, stopped, settle_loop}
use agentgate.Budget.Agreement.{
  Call, reserving, committing, releasing, expiring, alerted, succeeded, swept, table_of, IsSound,
}
use agentgate.Budget.Refined.{memory_run, pg_run, AllAllowed, pg_run-memory_run}
use agentgate.Budget.Settling.{memory_settlable, settle_loop-expired_reservations}

abbrev open_one : Reservation
open_one = record {
  id = "r1";
  trace_id = "t1";
  tenant_id = "acme";
  user_id = "u1";
  team_id = "core";
  estimated_cents = 40;
  actual_cents = none;
  state = reserved;
  created_at = 100;
  settled_at = none;
}

abbrev paid : Reservation
paid = record open_one {
  id = "r2";
  actual_cents = some 25;
  state = committed;
  settled_at = some 120;
}

abbrev service : Service
service = record {
  reservations = ("r1", open_one) ∷ ("r2", paid) ∷ [];
  teams = ("core", 1000) ∷ [];
  used = ("core", 65) ∷ [];
  has_alert = true;
}

service-IsAccurate : IsAccurate service
unfolding team_used
service-IsAccurate team = ground arith

commit-IsAccurate_example : IsAccurate (commit service "r1" 52 200).0
commit-IsAccurate_example = commit-IsAccurate service "r1" 52 200 service-IsAccurate

release-committed_drifts_example : ¬ IsAccurate (release service "r2" 200).0
release-committed_drifts_example =
    release-committed_drifts service "r2" 200 25 paid refl refl refl (λ e. omega arith)
      service-IsAccurate

release_expired-IsAccurate_example : IsAccurate (release_expired service 1000 600).0
release_expired-IsAccurate_example = release_expired-IsAccurate service 1000 600 service-IsAccurate

service-IsSound : IsSound service
service-IsSound = ((refl, refl, refl, (refl, refl, (25, refl), tt)), service-IsAccurate)

-- A new reservation, a commit, a release, and a sweep.
abbrev calls : List Call
calls =
    reserving "r3" "t3" "acme" "u1" "core" 900 200
    ∷ committing "r1" 52 210
    ∷ releasing "r3" 220
    ∷ committing "r3" 9 230
    ∷ reserving "r4" "t4" "acme" "u1" "core" 5 240
    ∷ expiring 900 600
    ∷ []

calls_warn :
    (memory_run calls service).1
    ≡ alerted (some (record { team_id = "core"; used_cents = 965; cap_cents = 1000 }))
      ∷ succeeded true
      ∷ succeeded true
      ∷ succeeded false
      ∷ alerted none
      ∷ swept ("r4" ∷ [])
      ∷ []
unfolding reserve team_used soft_warn over_threshold commit commit_found release release_found
    release_expired expire_loop
calls_warn = refl

calls-AllAllowed : AllAllowed calls service
unfolding reserve team_used soft_warn over_threshold commit commit_found release release_found
    release_expired expire_loop
calls-AllAllowed = (refl, (tt, ((λ e. cc), (tt, (refl, (tt, tt))))))

pg_run-memory_run_example :
    (pg_run calls (table_of service)
      ≡ (table_of (memory_run calls service).0, (memory_run calls service).1))
    × ((team : String)
        → pg_team_used true (pg_run calls (table_of service)).0 team
          ≡ team_used (memory_run calls service).0 team)
pg_run-memory_run_example = pg_run-memory_run calls service calls-AllAllowed service-IsSound

abbrev two_ticks : List Event
two_ticks = tick 600 ∷ tick 900 ∷ stopped ∷ tick 950 ∷ []

settle_loop-expired_reservations_example :
    expired_reservations 900 600
      (settle_loop memory_settlable true 600 (tick 600 ∷ tick 900 ∷ []) service).0.reservations
    ≡ []
settle_loop-expired_reservations_example =
    settle_loop-expired_reservations true 600 (600 ∷ []) 900 service

abbrev ticks : List Event
ticks = tick 600 ∷ tick 900 ∷ stopped ∷ tick 950 ∷ []

-- The first reservation is reported at 900, and only once.
reported : (settle_loop memory_settlable true 600 ticks service).1 ≡ ("r1" ∷ []) ∷ []
unfolding settle_loop release_expired expire_loop
reported = refl
