-- ===== src/Budget/Settler.antt =====
-- internal/gw/budget/settler.go: the settler over a service that releases what has expired. The clock is
-- an argument; a run is the sequence of the channel events that its loop selects.
use agentgate.Base.{ℕ, String, Bool, true, List, [], ◌∷◌}

-- Settlable, with the state that the service keeps.
pub record Settlable : Type 1 where
  pub Svc : Type 0
  pub release_expired : Svc → ℕ → ℕ → Svc × List String

-- A tick at a time, or the closed channel `done`.
pub data Event : Type 0 where
  tick : ℕ → Event
  stopped : Event

module _ (settlable : Settlable) where
  open settlable use {Svc, release_expired}

  -- The calls of onAudit: only for a tick that released something.
  abbrev pub audited : Bool → List String → List (List String) → List (List String)
  audited true (id ∷ ids) later = (id ∷ ids) ∷ later
  audited _ _ later = later

  -- The loop of Start: the service behind it, and the calls of onAudit.
  unfoldable pub settle_loop : Bool → ℕ → List Event → Svc → Svc × List (List String)
  settle_loop has_audit max_age [] s = (s, [])
  settle_loop has_audit max_age (stopped ∷ events) s = (s, [])
  settle_loop has_audit max_age (tick now ∷ events) s =
      let (s', ids) = release_expired s now max_age in
      let (last, calls) = settle_loop has_audit max_age events s' in
      (last, audited has_audit ids calls)

  unfoldable pub run_once : Svc → ℕ → ℕ → Svc × List String
  run_once s now max_age = release_expired s now max_age
