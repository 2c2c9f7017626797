-- ===== src/Budget/Reservation.antt =====
-- A reservation and its states: internal/gw/budget/service.go. A UUID is a text, an instant a number,
-- and an amount of cents a 64-bit pattern.
use agentgate.Base.{ℕ, ◌+◌, String, Bool, true, false, Option, none, ltb}

pub data State : Type 0 where
  reserved committed released expired : State

pub record Reservation : Type 0 where
  pub id : String
  pub trace_id : String
  pub tenant_id : String
  pub user_id : String
  pub team_id : String
  pub estimated_cents : ℕ
  pub actual_cents : Option ℕ
  pub state : State
  pub created_at : ℕ
  pub settled_at : Option ℕ

abbrev pub is_reserved : State → Bool
is_reserved reserved = true
is_reserved _ = false

-- `r.State == StateReleased || r.State == StateExpired`
abbrev pub is_settled_free : State → Bool
is_settled_free released = true
is_settled_free expired = true
is_settled_free _ = false

-- `created_at < now - max_age`
abbrev pub is_stale : ℕ → ℕ → Reservation → Bool
is_stale now max_age r = ltb (r.created_at + max_age) now

abbrev pub new_reservation : String → String → String → String → String → ℕ → ℕ → Reservation
new_reservation id trace_id tenant_id user_id team_id cents now = record {
  id = id;
  trace_id = trace_id;
  tenant_id = tenant_id;
  user_id = user_id;
  team_id = team_id;
  estimated_cents = cents;
  actual_cents = none;
  state = reserved;
  created_at = now;
  settled_at = none;
}
