-- ===== src/Auth/Middleware.antt =====
-- AuthMiddleware and RequireRole of internal/gw/auth/auth.go, over any key store. What the next handler
-- does is left to the caller.
use Prim.Native.String.{len, slice}
use agentgate.Base.{
  String, Bool, true, false, not, ◌||◌, List, [], ◌∷◌, contains, Option, none, some, ◌==◌,
  if◌then◌else◌,
}
use agentgate.Auth.Keys.{ApiKey}

abbrev pub has_prefix : String → String → Bool
has_prefix s prefix = slice s 0 (len prefix) == prefix

-- strings.TrimPrefix of a text that has the prefix
abbrev pub trim_prefix : String → String → String
trim_prefix s prefix = slice s (len prefix) (len s)

unfoldable pub is_exempt : String → Bool
is_exempt path =
    path == "/healthz"
    || (path == "/metrics"
        || (path == "/api/v1/lp/exchange-setup" || path == "/api/v1/lp/exchange-invite"))

-- Passed on without a key, passed on with one, or answered with 401.
pub data Access : Type 0 where
  exempt : Access
  authenticated : ApiKey → Access
  unauthorized : String → Access

abbrev pub key_or_error : Option ApiKey → Access
key_or_error none = unauthorized "invalid API key"
key_or_error (some k) = authenticated k

module _ (lookup_key : String → Option ApiKey) where
  unfoldable pub auth_middleware : String → String → Access
  auth_middleware path header =
      let token = trim_prefix header "Bearer " in
      if is_exempt path
      then exempt
      else if not (has_prefix header "Bearer ")
      then unauthorized "missing Authorization header"
      else if has_prefix token "setup_"
      then unauthorized "setup tokens are only valid at /api/v1/lp/exchange-setup"
      else key_or_error (lookup_key token)

-- RequireRole: whether the next handler is called.
unfoldable pub require_role : List String → String → Bool
require_role roles role = contains roles role

-- The role in the context of the request, which an exempt path leaves empty.
abbrev pub role_of : Access → String
role_of (authenticated k) = k.role
role_of _ = ""

-- RegisterRoutes: a handler with roles stands behind RequireRole.
unfoldable pub handler_called : List String → Access → Bool
handler_called roles (unauthorized message) = false
handler_called [] access = true
handler_called (role ∷ roles) access = require_role (role ∷ roles) (role_of access)
