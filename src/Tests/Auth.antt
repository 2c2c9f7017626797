-- ===== src/Tests/Auth.antt =====
-- A key that is stored, used, deleted, and used once more from the cache: internal/gw/auth.
use agentgate.Base.{ℕ, String, Bool, true, false, ◌≤◌, ◌≡◌, refl, List, [], ◌∷◌, none, ◌==◌, arith}
use agentgate.Auth.Keys.{
  ApiKey, new_pg_key_store, store_api_key, delete_api_key, lookup_api_key, find_key, has_hash,
}
use agentgate.Auth.Middleware.{
  handler_called, auth_middleware, is_exempt, require_role, authenticated, unauthorized,
}
use agentgate.Auth.Guarded.{
  KeyEvent, storing, looking, deleting, key_run, access_at, IsEntitled, handler_called-key_run,
}
use agentgate.Auth.Invites.{Invite, create, redeem_rows, consume_and_issue_key}
use agentgate.Auth.OneShot.{InviteEvent, creating, redeeming, redeemed, redeemed_once}

abbrev alice : ApiKey
alice = record { user_id = "alice"; team_id = "core"; role = "developer"; hash = "0123456789" }

-- A stand-in for bcrypt: a hash is its cleartext.
abbrev same : String → String → Bool
same hash cleartext = hash == cleartext

abbrev events : List (ℕ × KeyEvent)
events =
    (100, storing true alice)
    ∷ (110, looking true "0123456789")
    ∷ (120, deleting true "0123456789")
    ∷ []

abbrev roles : List String
roles = "team_admin" ∷ "developer" ∷ []

-- At 409 the key is still accepted, and at 410 it is not.
still_cached :
    access_at same
      (key_run same events (new_pg_key_store []))
      true
      409
      "/v1/messages"
      "Bearer 0123456789"
    ≡ authenticated alice
unfolding store_api_key delete_api_key lookup_api_key find_key has_hash auth_middleware is_exempt
still_cached = refl

gone :
    access_at same
      (key_run same events (new_pg_key_store []))
      true
      410
      "/v1/messages"
      "Bearer 0123456789"
    ≡ unauthorized "invalid API key"
unfolding store_api_key delete_api_key lookup_api_key find_key has_hash auth_middleware is_exempt
gone = refl

called :
    handler_called roles (
      access_at same
        (key_run same events (new_pg_key_store []))
        true
        409
        "/v1/messages"
        "Bearer 0123456789")
    ≡ true
unfolding store_api_key delete_api_key lookup_api_key find_key has_hash auth_middleware is_exempt
    handler_called require_role
called = refl

handler_called-key_run_example :
    IsEntitled same roles
      (key_run same events (new_pg_key_store [])).rows
      409
      "/v1/messages"
      "Bearer 0123456789"
      (access_at same
        (key_run same events (new_pg_key_store []))
        true
        409
        "/v1/messages"
        "Bearer 0123456789")
handler_called-key_run_example =
    handler_called-key_run same events [] 100 409 true roles "/v1/messages" "Bearer 0123456789"
      ((omega arith), ((omega arith), ((omega arith), (omega arith)))) called

abbrev invite : Invite
invite = record {
  token_hash = "t0";
  role = "developer";
  team_id = "core";
  user_id = "bob";
  created_by = "alice";
  created_at = 0;
  expires_at = 500;
  used_at = none;
  used_by = none;
  machine_id = none;
}

-- The first exchange fails at its commit, the second succeeds, and the third comes too late.
abbrev exchanges : List (ℕ × InviteEvent)
exchanges =
    (100, creating true invite)
    ∷ (110, redeeming true false "t0" "m1" "h1")
    ∷ (120, redeeming true true "t0" "m1" "h1")
    ∷ (130, redeeming true true "t0" "m2" "h2")
    ∷ []

one_exchange : redeemed "t0" exchanges (record { invites = []; api_keys = [] }) ≡ 1
unfolding create consume_and_issue_key redeem_rows has_hash
one_exchange = refl

redeemed_once_example : redeemed "t0" exchanges (record { invites = []; api_keys = [] }) ≤ 1
redeemed_once_example = redeemed_once "t0" exchanges []
