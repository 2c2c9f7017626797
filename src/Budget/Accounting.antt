-- ===== src/Budget/Accounting.antt =====
-- The `used` map of internal/gw/budget/service.go counts what is outstanding and committed: the
-- accounts that its methods keep, and the one call that breaks them.
use agentgate.Base.{
  ℕ, ◌+◌, ◌%◌, ◌≡◌, ◌≢◌, refl, sym, ap, ◌∙◌, inl, inr, String, Bool, true, false, [], ◌∷◌, none,
  some, Dict, or_zero, lookup, insert, lookup-insert, word, add64, sub64, if◌then◌else◌, ◌==◌,
  eq_iff, eq_refl, Bool-cases, Option-cases, some-injective, arith,
}
use agentgate.Budget.Reservation.{
  State, reserved, committed, released, Reservation, is_reserved, is_settled_free, new_reservation,
}
use agentgate.Budget.Service.{
  Service, team_used, reserve, commit_found, commit, release_found, release,
}

-- What a reservation holds of its team's budget: its estimate, then its actual cost, then nothing.
abbrev pub held : State → Reservation → ℕ
held reserved r = r.estimated_cents
held committed r = or_zero r.actual_cents
held _ r = 0

abbrev pub share : String → Reservation → ℕ
share team r = if r.team_id == team then held r.state r else 0

abbrev pub total : String → Dict Reservation → ℕ
total team [] = 0
total team ((id, r) ∷ rs) = share team r + total team rs

-- For every team, `used` is the sum of what its reservations hold, as a 64-bit number.
abbrev pub IsAccurate : Service → Type 0
IsAccurate s = (team : String) → team_used s team ≡ total team s.reservations % word

total-insert :
    (team id : String) (rs : Dict Reservation) (r r' : Reservation)
    → lookup id rs ≡ some r
    → total team (insert id r' rs) + share team r ≡ total team rs + share team r'
total-insert team id [] r r' h = cc
total-insert team id ((j, q) ∷ rs) r r' h = elim (Bool-cases (j == id)) [
  | inl e ↦ rw e (rw (some-injective q r (rw e at h)) (omega arith))
  | inr e ↦ rw e (omega (arith, total-insert team id rs r r' (rw e at h)))
]

total-insert_new :
    (team id : String) (rs : Dict Reservation) (r : Reservation)
    → lookup id rs ≡ none
    → total team (insert id r rs) ≡ total team rs + share team r
total-insert_new team id [] r h = omega arith
total-insert_new team id ((j, q) ∷ rs) r h = elim (Bool-cases (j == id)) [
  | inl e ↦ cc (rw e at h)
  | inr e ↦ rw e (omega (arith, total-insert_new team id rs r (rw e at h)))
]

if_zero : (b : Bool) → ◌≡◌ {A = ℕ} (if b then 0 else 0) 0
if_zero b = ground arith

-- The arithmetic of the four updates.
add_one : (u s s' c : ℕ) → u ≡ s % word → s' ≡ s + c → add64 u c ≡ s' % word
add_one u s s' c h e = omega arith

exchange : (u s s' c d : ℕ) → u ≡ s % word → s' + c ≡ s + d → add64 (sub64 u c) d ≡ s' % word
exchange u s s' c d h e = omega arith

pub remove : (u s s' c : ℕ) → u ≡ s % word → s' + c ≡ s → sub64 u c ≡ s' % word
remove u s s' c h e = omega arith

pub used-insert :
    (k t : String) (v : ℕ) (m : Dict ℕ)
    → or_zero (lookup t (insert k v m)) ≡ (if k == t then v else or_zero (lookup t m))
used-insert k t v m = ground (arith, lookup-insert k t v m)

pub used-insert_self : (k : String) (v : ℕ) (m : Dict ℕ) → or_zero (lookup k (insert k v m)) ≡ v
used-insert_self k v m = rw (used-insert k k v m) (rw (eq_refl k))

-- A method that replaces what one reservation of team `k` holds, `c`, by `d`, and writes the right sum
-- for `k`, keeps the account of every team.
transfer :
    (k team : String) (c d v : ℕ) (used : Dict ℕ) (m m' : Dict Reservation)
    → or_zero (lookup team used) ≡ total team m % word
    → total team m' + (if k == team then c else 0) ≡ total team m + (if k == team then d else 0)
    → ((s s' : ℕ) → or_zero (lookup k used) ≡ s % word → s' + c ≡ s + d → v ≡ s' % word)
    → or_zero (lookup team (insert k v used)) ≡ total team m' % word
transfer k team c d v used m m' h sum write = elim (Bool-cases (k == team)) [
  | inl e ↦
      rw (used-insert k team v used)
        (rw e (write (total team m) (total team m') (rw ((eq_iff k team).0 e) h) (rw e at sum)))
  | inr e ↦
      rw (used-insert k team v used) (rw e (h ∙ ap (λ n. n % word) (omega (arith, (rw e at sum)))))
]

-- A new reservation under an unused id keeps the accounts.
pub reserve-IsAccurate :
    (s : Service) (id trace_id tenant_id user_id team_id : String) (cents now : ℕ)
    → lookup id s.reservations ≡ none
    → IsAccurate s
    → IsAccurate (reserve s id trace_id tenant_id user_id team_id cents now).0
unfolding reserve team_used
reserve-IsAccurate s id trace_id tenant_id user_id team_id cents now new h team =
    let r = new_reservation id trace_id tenant_id user_id team_id cents now in
    transfer team_id team 0 cents _ s.used s.reservations (insert id r s.reservations) (h team)
      (omega (arith, total-insert_new team id s.reservations r new, if_zero (team_id == team)))
      (λ x y u e. omega arith)

pub reserved_held :
    (st : State) (r : Reservation) → is_reserved st ≡ true → held st r ≡ r.estimated_cents
reserved_held st r h = ground arith

-- A commit keeps the accounts, whether it succeeds or fails.
pub commit-IsAccurate :
    (s : Service) (id : String) (cents now : ℕ)
    → IsAccurate s
    → IsAccurate (commit s id cents now).0
unfolding commit commit_found team_used
commit-IsAccurate s id cents now h team = elim (Option-cases (lookup id s.reservations)) [
  | inl e ↦ rw (e, commit) (h team)
  | inr (r, e) ↦ elim (Bool-cases (is_reserved r.state)) [
    | inl open_ ↦
        let r' = record r { actual_cents = some cents; state = committed; settled_at = some now } in
        let sum =
          rw (reserved_held r.state r open_) at (total-insert team id s.reservations r r' e) in
        rw (e, commit)
          (rw (open_, commit_found)
            (transfer r.team_id team r.estimated_cents cents _ s.used s.reservations
              (insert id r' s.reservations) (h team) sum
              (λ x y u f.
                exchange (or_zero (lookup r.team_id s.used)) x y r.estimated_cents cents u f)))
    | inr closed ↦ rw (e, commit) (rw (closed, commit_found) (h team))
  ]
]

uncommitted_held :
    (st : State) (r : Reservation)
    → is_settled_free st ≡ false
    → st ≢ committed
    → held st r ≡ r.estimated_cents
uncommitted_held reserved r h n = refl
uncommitted_held committed r h n = absurd (n refl)
uncommitted_held _ r h n = cc

-- A release keeps the accounts, unless the reservation is committed.
pub release-IsAccurate :
    (s : Service) (id : String) (now : ℕ)
    → ((r : Reservation) → lookup id s.reservations ≡ some r → r.state ≢ committed)
    → IsAccurate s
    → IsAccurate (release s id now).0
unfolding release release_found team_used
release-IsAccurate s id now open_ h team = elim (Option-cases (lookup id s.reservations)) [
  | inl e ↦ rw (e, release) (h team)
  | inr (r, e) ↦ elim (Bool-cases (is_settled_free r.state)) [
    | inl free ↦ rw (e, release) (rw (free, release_found) (h team))
    | inr busy ↦
        let r' = record r { state = released; settled_at = some now } in
        let sum =
          rw (uncommitted_held r.state r busy (open_ r e)) at
            (total-insert team id s.reservations r r' e) in
        rw (e, release)
          (rw (busy, release_found)
            (transfer r.team_id team r.estimated_cents 0 _ s.used s.reservations
              (insert id r' s.reservations) (h team) sum
              (λ x y u f.
                remove (or_zero (lookup r.team_id s.used)) x y r.estimated_cents u (omega arith))))
  ]
]

committed_held :
    (st : State) (r : Reservation) {actual : ℕ}
    → st ≡ committed
    → r.actual_cents ≡ some actual
    → held st r ≡ actual
committed_held st r e h = rw (e, held) (rw h)

-- Where a committed reservation's actual cost differs from its estimate, as 64-bit numbers, a release
-- of it subtracts the estimate, and the accounts no longer hold.
pub release-committed_drifts :
    (s : Service) (id : String) (now actual : ℕ) (r : Reservation)
    → lookup id s.reservations ≡ some r
    → r.state ≡ committed
    → r.actual_cents ≡ some actual
    → actual % word ≢ r.estimated_cents % word
    → IsAccurate s
    → ¬ IsAccurate (release s id now).0
unfolding release release_found team_used
release-committed_drifts s id now actual r found st cost differs h after =
    let team = r.team_id in
    let r' = record r { state = released; settled_at = some now } in
    let busy : is_settled_free r.state ≡ false = rw st in
    let written =
      sym (used-insert_self team (sub64 (team_used s team) r.estimated_cents) s.used)
      ∙ (rw (busy, release_found) at (rw (found, release) at (after team))) in
    let spent : share team r ≡ actual = rw (eq_refl team) (committed_held r.state r st cost) in
    let gone : share team r' ≡ 0 = rw (eq_refl team) in
    differs
      (omega (arith, written, h team, spent, gone, total-insert team id s.reservations r r' found))
