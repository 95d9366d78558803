-- ===== src/Auth/MagicLink.antt =====
-- The magic link of packages/auth/src/service.ts.
use structure.Prelude.{
  String, Bool, Option, ok, err, some, none, true, false, if◌then◌else◌, not, Result,
}
use structure.Auth.Model.{
  AuthError, AuthUser, AuthSession, magic_link, invalid_auth_token, identity_conflict,
}
use structure.Auth.Store.{AuthState, create_magic_link_user, find_user_by_email, set_email_verified}
use structure.Auth.Ports.{
  Ports, M, pure, lift, asks, takes, present, clock, ◌>>=◌, ◌>>◌, random_token,
}
use structure.Auth.Config.{normalize_email}
use structure.Auth.Sessions.{
  config_for, limit, open_session, issue_email_token, consume_token, audit_user,
}
use structure.Auth.Password.{new_user}

-- `user?.id`
abbrev pub id_of : Option AuthUser → Option String
id_of none = none
id_of (some user) = some user.id

-- True if the user was created, false on a conflict of identities; any other error stays.
abbrev pub inserted : Result AuthError Unit × AuthState → Result AuthError Bool × AuthState
inserted (ok done, s) = (ok true, s)
inserted (err (identity_conflict tenant_id identity), s) = (ok false, s)
inserted (err e, s) = (err e, s)

-- A user whose address is not verified becomes verified.
unfoldable pub verified : String → Option AuthUser → M (Option AuthUser)
verified tenant_id none = pure none
verified tenant_id (some user) =
    if not user.email_verified
    then (clock >>= λ now. takes (set_email_verified tenant_id user.id now))
    else pure (some user)

unfoldable pub try_create : AuthUser → M Bool
try_create user w =
    let (r, s) = inserted (create_magic_link_user user w.auth) in (r, record w { auth = s })

module _ (p : Ports) where
  unfoldable pub request_magic_link : String → String → M (Unit {0})
  request_magic_link tenant_id input_email = do
    config ← config_for p tenant_id
    email ← lift (normalize_email p.lower_case input_email)
    limit p tenant_id "magic-link-request" email
    known ← asks (find_user_by_email tenant_id email)
    issue_email_token p tenant_id config magic_link email (id_of known)

  -- The user of the address: the known one, or a new one, verified either way.
  unfoldable pub user_of_link : String → String → Option AuthUser → M (Option AuthUser)
  unfolding verified try_create
  user_of_link tenant_id email (some user) = verified tenant_id (some user)
  user_of_link tenant_id email none = do
    now ← clock
    id ← random_token p 18
    let created = new_user id tenant_id (some email) true none now
    fresh ← try_create created
    user ← if fresh then pure (some created) else asks (find_user_by_email tenant_id email)
    verified tenant_id user

  unfoldable pub consume_magic_link : String → String → M AuthSession
  consume_magic_link tenant_id token = do
    config ← config_for p tenant_id
    limit p tenant_id "magic-link-consume" token
    issued ← consume_token p tenant_id magic_link token
    known ← asks (find_user_by_email tenant_id issued.email)
    found ← user_of_link tenant_id issued.email known
    user ← present found (invalid_auth_token "magic-link")
    session ← open_session p tenant_id user config
    audit_user tenant_id "magic-link-consume" (some user.id)
    pure session
