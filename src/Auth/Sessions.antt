-- ===== src/Auth/Sessions.antt =====
-- makeAuth of packages/auth/src/service.ts: the walls, the session, and the emailed token that its
-- operations share.
use structure.Prelude.{
  String, ℕ, Bool, Option, some, none, false, if◌then◌else◌, or_else, ◌+◌, is_none, ◌&&◌, is_some,
  Result,
}
use structure.Auth.Model.{
  AuthUser, AuthSession, SessionRecord, OneTimeTokenRecord, OneTimeTokenPurpose, email_verification,
  magic_link, password_reset, invalid_auth_token, invalid_credentials, second_factor_required,
  purpose_text, AuthError,
}
use structure.Auth.Store.{
  create_session, put_one_time_token, consume_one_time_token, find_session, find_user_by_id,
  revoke_session, revoke_user_sessions, AuthState,
}
use structure.Auth.Ports.{
  Ports, Limiter, inspect, TenantAuthConfig, M, pure, fail, lift, asks, takes, tries, writes,
  present, clock, ◌>>=◌, ◌>>◌, record_audit, hash_token, random_token, charge, deliver,
}
use structure.Auth.Config.{validate_tenant_config}

abbrev pub default_session_ttl : ℕ
default_session_ttl = 2592000000

abbrev pub default_verify_ttl : ℕ
default_verify_ttl = 86400000

abbrev pub default_magic_ttl : ℕ
default_magic_ttl = 900000

abbrev pub default_reset_ttl : ℕ
default_reset_ttl = 3600000

abbrev pub session_ttl : TenantAuthConfig → ℕ
session_ttl config = or_else config.session_ttl_millis default_session_ttl

abbrev pub token_ttl : TenantAuthConfig → OneTimeTokenPurpose → ℕ
token_ttl config email_verification =
    or_else config.email_verification_ttl_millis default_verify_ttl
token_ttl config magic_link = or_else config.magic_link_ttl_millis default_magic_ttl
token_ttl config password_reset = or_else config.password_reset_ttl_millis default_reset_ttl

abbrev pub token_path : TenantAuthConfig → OneTimeTokenPurpose → String
token_path config email_verification = or_else config.email_verification_link "/auth/verify-email"
token_path config magic_link = or_else config.magic_link_link "/auth/magic-link"
token_path config password_reset = or_else config.password_reset_link "/auth/reset-password"

-- `recordAudit(tenantId, action, "succeeded", { userId })`
abbrev pub audit_user : String → String → Option String → M (Unit {0})
audit_user tenant_id action user_id = record_audit (record {
  tenant_id = tenant_id;
  action = action;
  user_id = user_id;
  provider = none;
  actor = none;
})

-- What resolveSession answers: the session, and when it was elevated.
pub record ResolvedSession : Type 0 where
  pub session : AuthSession
  pub elevated_at : Option ℕ

abbrev pub session_record : String → AuthUser → String → String → ℕ → ℕ → Bool → SessionRecord
session_record tenant_id user id hash now ttl pending = record {
  id = id;
  tenant_id = tenant_id;
  user_id = user.id;
  token_hash = hash;
  created_at = now;
  expires_at = now + ttl;
  elevated_at = if pending then none else some now;
}

-- Whether the session is born waiting for its second factor.
unfoldable pub pending_second_factor :
    Option (AuthState → String → String → Result AuthError Bool) → String → String → M Bool
pending_second_factor none tenant_id user_id = pure false
pending_second_factor (some is_enrolled) tenant_id user_id =
    asks (λ s. is_enrolled s tenant_id user_id) >>= λ r. lift r

module _ (p : Ports) where
  unfoldable pub config_for : String → M TenantAuthConfig
  config_for tenant_id = lift (p.resolve_tenant tenant_id) >>= λ config.
      lift (validate_tenant_config p.parse_url config)

  unfoldable pub limit : String → String → String → M (Unit {0})
  limit tenant_id action key = do
    key_hash ← hash_token p key
    charge p (record { tenant_id = tenant_id; action = action; key_hash = key_hash })

  unfoldable pub peek_wall : Option Limiter → String → String → String → M (Unit {0})
  unfolding limit
  peek_wall none tenant_id action key = limit tenant_id action key
  peek_wall (some peek) tenant_id action key = do
    key_hash ← hash_token p key
    inspect peek (record { tenant_id = tenant_id; action = action; key_hash = key_hash })

  -- `failureWall(...).before`: refuses without a charge where the limiter can peek.
  unfoldable pub wall_before : String → String → String → M (Unit {0})
  unfolding peek_wall
  wall_before tenant_id action key = peek_wall p.peek tenant_id action key

  -- `failureWall(...).onFailure`
  unfoldable pub wall_on_failure : String → String → String → M (Unit {0})
  unfolding limit
  wall_on_failure tenant_id action key =
      if is_none p.peek then pure tt else limit tenant_id action key

  unfoldable pub open_session : String → AuthUser → TenantAuthConfig → M AuthSession
  open_session tenant_id user config = do
    raw ← random_token p 32
    hash ← hash_token p raw
    now ← clock
    pending ← pending_second_factor p.second_factor tenant_id user.id
    id ← random_token p 18
    tries (create_session (session_record tenant_id user id hash now (session_ttl config) pending))
    pure (record { token = raw; user = user; expires_at = now + session_ttl config })

  unfoldable pub issue_email_token :
      String → TenantAuthConfig → OneTimeTokenPurpose → String → Option String → M (Unit {0})
  issue_email_token tenant_id config purpose email user_id = do
    raw ← random_token p 32
    token_hash ← hash_token p raw
    now ← clock
    writes (
        put_one_time_token (record {
          tenant_id = tenant_id;
          purpose = purpose;
          token_hash = token_hash;
          email = email;
          user_id = user_id;
          expires_at = now + token_ttl config purpose;
        }))
    deliver p (record {
      kind = purpose;
      tenant_id = tenant_id;
      recipient = email;
      url = p.token_url (token_path config purpose) config.base_url raw;
      token = raw;
      expires_at = now + token_ttl config purpose;
    })

  unfoldable pub consume_token : String → OneTimeTokenPurpose → String → M OneTimeTokenRecord
  consume_token tenant_id purpose token = do
    hash ← hash_token p token
    now ← clock
    found ← takes (consume_one_time_token tenant_id purpose hash now)
    present found (invalid_auth_token (purpose_text purpose))

  unfoldable pub resolve_session : String → String → M ResolvedSession
  resolve_session tenant_id token = do
    hash ← hash_token p token
    now ← clock
    found ← takes (find_session tenant_id hash now)
    session ← present found (invalid_credentials "session")
    known ← asks (find_user_by_id tenant_id session.user_id)
    user ← present known (invalid_credentials "session-user")
    pure (record {
      session = record { token = token; user = user; expires_at = session.expires_at };
      elevated_at = session.elevated_at;
    })

  unfoldable pub get_session : String → String → M AuthSession
  unfolding resolve_session
  get_session tenant_id token = resolve_session tenant_id token >>= λ r. pure r.session

  unfoldable pub require_elevated_session : String → String → M AuthSession
  unfolding resolve_session
  require_elevated_session tenant_id token = resolve_session tenant_id token >>= λ r.
      if is_some p.second_factor && is_none r.elevated_at
      then fail (second_factor_required r.session.user.id)
      else pure r.session

  unfoldable pub sign_out : String → String → M (Unit {0})
  unfolding config_for
  sign_out tenant_id token = do
    config_for tenant_id
    hash ← hash_token p token
    writes (revoke_session tenant_id hash)
    audit_user tenant_id "session-sign-out" none

  unfoldable pub revoke_all_sessions : String → String → M (Unit {0})
  unfolding config_for
  revoke_all_sessions tenant_id user_id = do
    config_for tenant_id
    writes (revoke_user_sessions tenant_id user_id)
    audit_user tenant_id "sessions-revoked" (some user_id)
