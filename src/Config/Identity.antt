-- ===== src/Config/Identity.antt =====
-- The check of the identity files: internal/gw/config/identity.go. Reading the files and parsing YAML
-- are left to the caller.
use agentgate.Base.{
  String, Bool, true, false, not, ◌&&◌, ◌||◌, List, [], ◌∷◌, ◌==◌, contains, Result, ok, ◌>>◌,
  reject, ◌≡◌, ◌↔◌, refl, All, reject-eq-ok, >>=-eq-ok, arith,
}
use agentgate.Config.Types.{UserIdentity, TeamIdentity, RepoIdentity, IdentityConfig}

pub data IdentityError : Type 0 where
  user_id_missing repo_id_missing : IdentityError
  role_missing : String → IdentityError
  unknown_team : String → String → IdentityError

-- The keys of `teamIDs`.
abbrev pub team_ids : List TeamIdentity → List String
team_ids [] = []
team_ids (t ∷ teams) = t.team_id ∷ team_ids teams

unfoldable pub check_users : List String → List UserIdentity → Result IdentityError (Unit {0})
check_users ids [] = ok tt
check_users ids (u ∷ users) = do
  reject (u.user_id == "") user_id_missing
  reject (u.role == "") (role_missing u.user_id)
  reject (not (u.team_id == "") && not (contains ids u.team_id)) (unknown_team u.user_id u.team_id)
  check_users ids users

unfoldable pub check_repos : List RepoIdentity → Result IdentityError (Unit {0})
check_repos [] = ok tt
check_repos (r ∷ repos) = do reject (r.repo_id == "") repo_id_missing; check_repos repos

unfoldable pub validate_identity : IdentityConfig → Result IdentityError (Unit {0})
validate_identity c = do check_users (team_ids c.teams) c.users; check_repos c.repos

-- A user has an id and a role, and a team that is named is one of the teams.
abbrev pub IsValidUser : List String → UserIdentity → Type 0
IsValidUser ids u =
    ((u.user_id == "") ≡ false)
    × ((u.role == "") ≡ false)
    × (((u.team_id == "") || contains ids u.team_id) ≡ true)

abbrev pub IsNamedRepo : RepoIdentity → Type 0
IsNamedRepo r = (r.repo_id == "") ≡ false

named_team : (p q : Bool) → (not p && not q) ≡ false → (p || q) ≡ true
named_team p q h = ground arith

unknown : (p q : Bool) → (p || q) ≡ true → (not p && not q) ≡ false
unknown p q h = ground arith

check_users-IsValidUser :
    (ids : List String) (users : List UserIdentity)
    → check_users ids users ≡ ok tt
    → All (IsValidUser ids) users
unfolding check_users
check_users-IsValidUser ids [] h = tt
check_users-IsValidUser ids (u ∷ users) h =
    let (id, h₁) = reject-eq-ok (u.user_id == "") user_id_missing _ h in
    let (role, h₂) = reject-eq-ok (u.role == "") (role_missing u.user_id) _ h₁ in
    let (team, h₃) =
      reject-eq-ok (not (u.team_id == "") && not (contains ids u.team_id))
        (unknown_team u.user_id u.team_id) _ h₂ in
    ((id, role, named_team _ _ team), check_users-IsValidUser ids users h₃)

users_pass :
    (ids : List String) (users : List UserIdentity)
    → All (IsValidUser ids) users
    → check_users ids users ≡ ok tt
unfolding check_users
users_pass ids [] h = refl
users_pass ids (u ∷ users) h =
    rw h.0.0 (rw h.0.1 (rw (unknown _ _ h.0.2) (users_pass ids users h.1)))

check_repos-IsNamedRepo :
    (repos : List RepoIdentity) → check_repos repos ≡ ok tt → All IsNamedRepo repos
unfolding check_repos
check_repos-IsNamedRepo [] h = tt
check_repos-IsNamedRepo (r ∷ repos) h =
    let (id, h₁) = reject-eq-ok (r.repo_id == "") repo_id_missing _ h in
    (id, check_repos-IsNamedRepo repos h₁)

repos_pass : (repos : List RepoIdentity) → All IsNamedRepo repos → check_repos repos ≡ ok tt
unfolding check_repos
repos_pass [] h = refl
repos_pass (r ∷ repos) h = rw h.0 (repos_pass repos h.1)

-- The identity files pass their check exactly if every user has an id, a role, and no team or a team of
-- the teams file, and every repo has an id.
pub validate_identity_lem :
    (c : IdentityConfig)
    → (validate_identity c ≡ ok tt)
      ↔ (All (IsValidUser (team_ids c.teams)) c.users × All IsNamedRepo c.repos)
unfolding validate_identity
validate_identity_lem c = (
  λ h.
      let (done, users, repos) =
        >>=-eq-ok (check_users (team_ids c.teams) c.users) (λ _. check_repos c.repos) h in
      (
        check_users-IsValidUser (team_ids c.teams) c.users users,
        check_repos-IsNamedRepo c.repos repos,
      ),
  λ v. rw (users_pass (team_ids c.teams) c.users v.0) (repos_pass c.repos v.1),
)
