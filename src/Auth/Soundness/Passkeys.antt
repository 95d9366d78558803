-- ===== src/Auth/Soundness/Passkeys.antt =====
-- Every passkey call of packages/auth/src/service.ts keeps the store sound.
use structure.Prelude.{String, Option, some, none}
use structure.Auth.Model.{AuthUser, PasskeyChallengePurpose}
use structure.Auth.Ports.{Ports, TenantAuthConfig}
use structure.Auth.Keeps.{Keeps, keeps}
use structure.Auth.Invariant.{IsSound}
use structure.Auth.Invariant.Factors.{
  put_passkey_challenge-IsSound, consume_passkey_challenge-IsSound, add_passkey-IsSound,
  rename_passkey-IsSound, remove_passkey-IsSound, update_passkey_counter-IsSound,
}
use structure.Auth.Soundness.{
  config_for-IsSound, limit-IsSound, open_session-IsSound, require_elevated_session-IsSound,
}
use structure.Auth.Passkey.{
  PasskeyPorts, PasskeyResponse, issue_challenge, begin_passkey_registration, find_named,
  passkeys_of, limit_wall, begin_passkey_authentication, rename_own_passkey, remove_own_passkey,
  finish_passkey_registration, finish_passkey_authentication,
}

module _ (p : Ports) where
  issue_challenge-IsSound :
      (tenant_id : String) (config : TenantAuthConfig) (purpose : PasskeyChallengePurpose)
      (user_id : Option String)
      → Keeps IsSound (issue_challenge p tenant_id config purpose user_id)
  unfolding issue_challenge
  issue_challenge-IsSound tenant_id config purpose user_id =
      search (keeps, put_passkey_challenge-IsSound) depth 20

  find_named-IsSound :
      (tenant_id : String) (email : Option String) → Keeps IsSound (find_named p tenant_id email)
  find_named-IsSound tenant_id none = search keeps
  find_named-IsSound tenant_id (some email) = search keeps

  passkeys_of-IsSound :
      (tenant_id : String) (user : Option AuthUser) → Keeps IsSound (passkeys_of p tenant_id user)
  passkeys_of-IsSound tenant_id none = search keeps
  passkeys_of-IsSound tenant_id (some user) = search keeps

  limit_wall-IsSound :
      (tenant_id : String) (email caller : Option String)
      → Keeps IsSound (limit_wall p tenant_id email caller)
  limit_wall-IsSound tenant_id (some email) caller = search limit-IsSound
  limit_wall-IsSound tenant_id none (some subject) = search limit-IsSound
  limit_wall-IsSound tenant_id none none = search keeps

  pub begin_passkey_registration-IsSound :
      (tenant_id token : String) → Keeps IsSound (begin_passkey_registration p tenant_id token)
  unfolding begin_passkey_registration
  begin_passkey_registration-IsSound tenant_id token =
      search
        (
          keeps, config_for-IsSound, limit-IsSound, issue_challenge-IsSound,
          require_elevated_session-IsSound,
        )
        depth 60

  pub begin_passkey_authentication-IsSound :
      (tenant_id : String) (email caller : Option String)
      → Keeps IsSound (begin_passkey_authentication p tenant_id email caller)
  unfolding begin_passkey_authentication
  begin_passkey_authentication-IsSound tenant_id email caller =
      search
        (
          keeps, config_for-IsSound, limit-IsSound, issue_challenge-IsSound, limit_wall-IsSound,
          find_named-IsSound, passkeys_of-IsSound,
        )
        depth 60

  pub rename_own_passkey-IsSound :
      (tenant_id token credential_id : String) (label : Option String)
      → Keeps IsSound (rename_own_passkey p tenant_id token credential_id label)
  unfolding rename_own_passkey
  rename_own_passkey-IsSound tenant_id token credential_id label =
      search
        (
          keeps, config_for-IsSound, limit-IsSound, rename_passkey-IsSound,
          require_elevated_session-IsSound,
        )
        depth 60

  pub remove_own_passkey-IsSound :
      (tenant_id token credential_id : String)
      → Keeps IsSound (remove_own_passkey p tenant_id token credential_id)
  unfolding remove_own_passkey
  remove_own_passkey-IsSound tenant_id token credential_id =
      search
        (
          keeps, config_for-IsSound, limit-IsSound, remove_passkey-IsSound,
          require_elevated_session-IsSound,
        )
        depth 60

module _ (p : Ports) (k : PasskeyPorts) where
  pub finish_passkey_registration-IsSound :
      (tenant_id token : String) (response : PasskeyResponse) (label : Option String)
      → Keeps IsSound (finish_passkey_registration p k tenant_id token response label)
  unfolding finish_passkey_registration
  finish_passkey_registration-IsSound tenant_id token response label =
      search
        (
          keeps, config_for-IsSound, limit-IsSound, consume_passkey_challenge-IsSound,
          add_passkey-IsSound, require_elevated_session-IsSound,
        )
        depth 60

  pub finish_passkey_authentication-IsSound :
      (tenant_id : String) (response : PasskeyResponse) (caller : Option String)
      → Keeps IsSound (finish_passkey_authentication p k tenant_id response caller)
  unfolding finish_passkey_authentication
  finish_passkey_authentication-IsSound tenant_id response caller =
      search
        (
          keeps, config_for-IsSound, limit-IsSound, consume_passkey_challenge-IsSound,
          update_passkey_counter-IsSound, open_session-IsSound,
        )
        depth 60
