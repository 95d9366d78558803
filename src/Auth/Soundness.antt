-- ===== src/Auth/Soundness.antt =====
-- Every call of packages/auth/src/service.ts keeps the store sound.
pub mod Passwords
pub mod Identities
pub mod Passkeys
pub mod Factors
use structure.Prelude.{
  String, ℕ, Bool, Option, List, [], ◌∷◌, Result, ok, err, some, none, true, false, if◌then◌else◌,
  ◌++◌, ◌≡◌,
}
use structure.Auth.Model.{AuthError, AuthUser, OneTimeTokenPurpose}
use structure.Auth.Store.{AuthState}
use structure.Auth.Ports.{Ports, Limiter, TenantAuthConfig}
use structure.Auth.Keeps.{Keeps, keeps}
use structure.Auth.Invariant.{IsSound}
use structure.Auth.Invariant.Users.{
  consume_one_time_token-IsSound, find_session-IsSound, revoke_session-IsSound,
  revoke_user_sessions-IsSound, create_session-IsSound, put_one_time_token-IsSound,
}
use structure.Auth.Sessions.{
  consume_token, resolve_session, get_session, require_elevated_session, sign_out,
  revoke_all_sessions, wall_before, wall_on_failure, peek_wall, config_for, limit,
  pending_second_factor, open_session, issue_email_token, wall_before, wall_on_failure,
}

pending-IsSound :
    (is_enrolled : Option (AuthState → String → String → Result AuthError Bool))
    (tenant_id user_id : String)
    → Keeps IsSound (pending_second_factor is_enrolled tenant_id user_id)
unfolding pending_second_factor
pending-IsSound none tenant_id user_id = search keeps
pending-IsSound (some is_enrolled) tenant_id user_id = search keeps

module _ (p : Ports) where
  pub config_for-IsSound : (tenant_id : String) → Keeps IsSound (config_for p tenant_id)
  unfolding config_for
  config_for-IsSound tenant_id = search keeps

  pub limit-IsSound : (tenant_id action key : String) → Keeps IsSound (limit p tenant_id action key)
  unfolding limit
  limit-IsSound tenant_id action key = search keeps

  peek_wall-IsSound :
      (peek : Option Limiter) (tenant_id action key : String)
      → Keeps IsSound (peek_wall p peek tenant_id action key)
  unfolding peek_wall
  peek_wall-IsSound none tenant_id action key = search keeps
  peek_wall-IsSound (some peek) tenant_id action key = search keeps

  pub wall_before-IsSound :
      (tenant_id action key : String) → Keeps IsSound (wall_before p tenant_id action key)
  unfolding wall_before
  wall_before-IsSound tenant_id action key = peek_wall-IsSound p.peek tenant_id action key

  pub wall_on_failure-IsSound :
      (tenant_id action key : String) → Keeps IsSound (wall_on_failure p tenant_id action key)
  unfolding wall_on_failure
  wall_on_failure-IsSound tenant_id action key = search keeps

  pub open_session-IsSound :
      (tenant_id : String) (user : AuthUser) (config : TenantAuthConfig)
      → Keeps IsSound (open_session p tenant_id user config)
  unfolding open_session
  open_session-IsSound tenant_id user config =
      search (keeps, create_session-IsSound, pending-IsSound) depth 20

  pub issue_email_token-IsSound :
      (tenant_id : String) (config : TenantAuthConfig) (purpose : OneTimeTokenPurpose)
      (email : String) (user_id : Option String)
      → Keeps IsSound (issue_email_token p tenant_id config purpose email user_id)
  unfolding issue_email_token
  issue_email_token-IsSound tenant_id config purpose email user_id =
      search (keeps, put_one_time_token-IsSound) depth 20

  pub consume_token-IsSound :
      (tenant_id : String) (purpose : OneTimeTokenPurpose) (token : String)
      → Keeps IsSound (consume_token p tenant_id purpose token)
  unfolding consume_token
  consume_token-IsSound tenant_id purpose token =
      search (keeps, consume_one_time_token-IsSound) depth 40

  pub resolve_session-IsSound :
      (tenant_id token : String) → Keeps IsSound (resolve_session p tenant_id token)
  unfolding resolve_session
  resolve_session-IsSound tenant_id token = search (keeps, find_session-IsSound) depth 40

  pub get_session-IsSound :
      (tenant_id token : String) → Keeps IsSound (get_session p tenant_id token)
  unfolding get_session
  get_session-IsSound tenant_id token = search (keeps, resolve_session-IsSound) depth 40

  pub require_elevated_session-IsSound :
      (tenant_id token : String) → Keeps IsSound (require_elevated_session p tenant_id token)
  unfolding require_elevated_session
  require_elevated_session-IsSound tenant_id token =
      search (keeps, resolve_session-IsSound) depth 40

  pub sign_out-IsSound : (tenant_id token : String) → Keeps IsSound (sign_out p tenant_id token)
  unfolding sign_out
  sign_out-IsSound tenant_id token =
      search (keeps, config_for-IsSound, limit-IsSound, revoke_session-IsSound) depth 40

  pub revoke_all_sessions-IsSound :
      (tenant_id user_id : String) → Keeps IsSound (revoke_all_sessions p tenant_id user_id)
  unfolding revoke_all_sessions
  revoke_all_sessions-IsSound tenant_id user_id =
      search (keeps, config_for-IsSound, limit-IsSound, revoke_user_sessions-IsSound) depth 40
