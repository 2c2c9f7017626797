-- ===== src/Auth/Invites.antt =====
-- Invites in Postgres: PgInviteStore of internal/gw/auth/pg_invitestore.go, with the rows of invites and of
-- api_keys. Boolean arguments tell which statements of a transaction the database runs; a transaction
-- that fails leaves both tables as they were. The numbering of the rows is left out.
use agentgate.Base.{
  ℕ, String, Bool, true, false, ◌&&◌, not, ltb, List, [], ◌∷◌, ◌++◌, Option, none, some, ◌==◌,
  if◌then◌else◌, Result, ok, err,
}
use agentgate.Auth.Keys.{KeyRow, is_live, has_hash}

pub record Invite : Type 0 where
  pub token_hash : String
  pub role : String
  pub team_id : String
  pub user_id : String
  pub created_by : String
  pub created_at : ℕ
  pub expires_at : ℕ
  pub used_at : Option ℕ
  pub used_by : Option String
  pub machine_id : Option String

pub data InviteError : Type 0 where
  not_found consumed expired database : InviteError

pub record InviteTables : Type 0 where
  pub invites : List Invite
  pub api_keys : List KeyRow

abbrev pub first_invite : String → List Invite → Option Invite
first_invite token [] = none
first_invite token (inv ∷ invites) =
    if inv.token_hash == token then some inv else first_invite token invites

-- The row of a new invite.
abbrev pub new_invite : Invite → ℕ → Invite
new_invite inv now = record inv {
  created_at = now;
  used_at = none;
  used_by = none;
  machine_id = none;
}

abbrev pub created : Bool → InviteTables → Invite → Option Invite → InviteTables × Bool
created true t new none = (record t { invites = t.invites ++ new ∷ [] }, true)
created _ t new _ = (t, false)

-- INSERT, which the unique token_hash refuses for a second row.
unfoldable pub create : Bool → InviteTables → Invite → ℕ → InviteTables × Bool
create ran t inv now = created ran t (new_invite inv now) (first_invite inv.token_hash t.invites)

-- `used_at IS NULL AND expires_at > now()`
abbrev pub is_redeemable : ℕ → Invite → Bool
is_redeemable now inv = is_live inv.used_at && ltb now inv.expires_at

abbrev pub redeem : ℕ → String → Invite → Invite
redeem now machine inv = record inv {
  used_at = some now;
  used_by = some inv.user_id;
  machine_id = some machine;
}

-- The UPDATE, and the row that it returns.
unfoldable pub redeem_rows : String → ℕ → String → List Invite → List Invite × Option Invite
redeem_rows token now machine [] = ([], none)
redeem_rows token now machine (inv ∷ invites) =
    let (rest, found) = redeem_rows token now machine invites in
    if inv.token_hash == token && is_redeemable now inv
    then (redeem now machine inv ∷ rest, some (redeem now machine inv))
    else (inv ∷ rest, found)

-- Why the UPDATE matched no row.
abbrev pub refusal : ℕ → Option Invite → InviteError
refusal now none = not_found
refusal now (some inv) =
    if not (is_live inv.used_at)
    then consumed
    else if not (ltb now inv.expires_at)
    then expired
    else consumed

-- The row for api_keys, with ON CONFLICT (key_hash) DO NOTHING.
abbrev pub issue : Invite → String → List KeyRow → List KeyRow
issue inv hash rows =
    if has_hash hash rows
    then rows
    else rows
      ++ record {
        key = record { user_id = inv.user_id; team_id = inv.team_id; role = inv.role; hash = hash };
        deleted_at = none;
      }
        ∷ []

abbrev pub issued :
    Bool
    → InviteTables
    → ℕ
    → String
    → String
    → List Invite
    → Option Invite
    → InviteTables × Result InviteError Invite
issued committed t now token hash invites none =
    (t, err (refusal now (first_invite token t.invites)))
issued committed t now token hash invites (some inv) =
    if committed
    then (record { invites = invites; api_keys = issue inv hash t.api_keys }, ok inv)
    else (t, err database)

-- `ran` is whether the transaction begins and its query is answered, and `committed` whether the insert
-- and the commit succeed.
unfoldable pub consume_and_issue_key :
    Bool
    → Bool
    → InviteTables
    → ℕ
    → String
    → String
    → String
    → InviteTables × Result InviteError Invite
consume_and_issue_key ran committed t now token machine hash =
    let (invites, found) = redeem_rows token now machine t.invites in
    let done = issued committed t now token hash invites found in
    if ran then done else (t, err database)
