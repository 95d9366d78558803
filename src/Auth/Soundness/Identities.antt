-- ===== src/Auth/Soundness/Identities.antt =====
-- Every call of packages/auth/src/service.ts about external identities keeps the store sound.
use structure.Prelude.{String, Option, some, none}
use structure.Auth.Model.{AuthUser, AuthSession, OauthIdentity, OauthStateRecord}
use structure.Auth.Ports.{Ports, TenantAuthConfig}
use structure.Auth.Keeps.{Keeps, keeps}
use structure.Auth.Invariant.{IsSound}
use structure.Auth.Invariant.Users.{create_oauth_user-IsSound, set_email_verified-IsSound}
use structure.Auth.Invariant.Factors.{
  put_oauth_state-IsSound, consume_oauth_state-IsSound, add_oauth_identity-IsSound,
  remove_oauth_identity-IsSound,
}
use structure.Auth.Soundness.{
  config_for-IsSound, limit-IsSound, open_session-IsSound, get_session-IsSound,
  require_elevated_session-IsSound,
}
use structure.Auth.Oauth.{
  OauthPorts, CompleteOauthInput, BeginOauthOptions, provider_for, limit_caller, begin_oauth,
  current_session, known_identity, match_user, link_identity, provision_user, link_or_provision,
  settle_identity, complete_oauth, unlink_oauth_identity,
}
use structure.Auth.Profile.{OauthProfile}

module _ (p : Ports) (o : OauthPorts) where
  provider_for-IsSound :
      (tenant_id provider : String) (config : TenantAuthConfig)
      → Keeps IsSound (provider_for p o tenant_id provider config)
  unfolding provider_for
  provider_for-IsSound tenant_id provider config = search keeps depth 20

  limit_caller-IsSound :
      (tenant_id action : String) (caller : Option String)
      → Keeps IsSound (limit_caller p o tenant_id action caller)
  limit_caller-IsSound tenant_id action none = search keeps
  limit_caller-IsSound tenant_id action (some subject) = limit-IsSound p tenant_id action subject

  current_session-IsSound :
      (tenant_id : String) (token : Option String)
      → Keeps IsSound (current_session p o tenant_id token)
  current_session-IsSound tenant_id none = search keeps
  current_session-IsSound tenant_id (some token) = search (keeps, get_session-IsSound)

  match_user-IsSound :
      (input : CompleteOauthInput) (profile : OauthProfile) (email : Option String)
      → Keeps IsSound (match_user p o input profile email)
  match_user-IsSound input profile none = search keeps
  match_user-IsSound input profile (some email) = search keeps

  pub begin_oauth-IsSound :
      (tenant_id provider : String) (options : BeginOauthOptions) (caller : Option String)
      → Keeps IsSound (begin_oauth p o tenant_id provider options caller)
  unfolding begin_oauth
  begin_oauth-IsSound tenant_id provider options caller =
      search
        (
          keeps, config_for-IsSound, limit-IsSound, limit_caller-IsSound, provider_for-IsSound,
          put_oauth_state-IsSound,
        )
        depth 60

  known_identity-IsSound :
      (input : CompleteOauthInput) (config : TenantAuthConfig) (state : OauthStateRecord)
      (requested_by : Option AuthSession) (identity : OauthIdentity)
      → Keeps IsSound (known_identity p o input config state requested_by identity)
  unfolding known_identity
  known_identity-IsSound input config state requested_by identity =
      search (keeps, open_session-IsSound) depth 60

  link_identity-IsSound :
      (input : CompleteOauthInput) (profile : OauthProfile) (requested_by : Option AuthSession)
      (target : AuthUser)
      → Keeps IsSound (link_identity p o input profile requested_by target)
  unfolding link_identity
  link_identity-IsSound input profile requested_by target =
      search (keeps, add_oauth_identity-IsSound, set_email_verified-IsSound) depth 60

  provision_user-IsSound :
      (input : CompleteOauthInput) (profile : OauthProfile)
      → Keeps IsSound (provision_user p o input profile)
  unfolding provision_user
  provision_user-IsSound input profile = search (keeps, create_oauth_user-IsSound) depth 60

  link_or_provision-IsSound :
      (input : CompleteOauthInput) (profile : OauthProfile) (requested_by : Option AuthSession)
      (target : Option AuthUser)
      → Keeps IsSound (link_or_provision p o input profile requested_by target)
  unfolding link_or_provision
  link_or_provision-IsSound input profile requested_by none = provision_user-IsSound input profile
  link_or_provision-IsSound input profile requested_by (some target) =
      link_identity-IsSound input profile requested_by target

  settle_identity-IsSound :
      (input : CompleteOauthInput) (config : TenantAuthConfig) (state : OauthStateRecord)
      (profile : OauthProfile) (requested_by : Option AuthSession) (identity : Option OauthIdentity)
      → Keeps IsSound (settle_identity p o input config state profile requested_by identity)
  unfolding settle_identity
  settle_identity-IsSound input config state profile requested_by (some identity) =
      known_identity-IsSound input config state requested_by identity
  settle_identity-IsSound input config state profile requested_by none =
      search (keeps, match_user-IsSound, link_or_provision-IsSound, open_session-IsSound) depth 40

  pub complete_oauth-IsSound :
      (input : CompleteOauthInput) → Keeps IsSound (complete_oauth p o input)
  unfolding complete_oauth
  complete_oauth-IsSound input =
      search
        (
          keeps, config_for-IsSound, limit-IsSound, consume_oauth_state-IsSound,
          provider_for-IsSound, current_session-IsSound, settle_identity-IsSound,
        )
        depth 60

  pub unlink_oauth_identity-IsSound :
      (tenant_id token provider : String)
      → Keeps IsSound (unlink_oauth_identity p o tenant_id token provider)
  unfolding unlink_oauth_identity
  unlink_oauth_identity-IsSound tenant_id token provider =
      search
        (
          keeps, config_for-IsSound, limit-IsSound, require_elevated_session-IsSound,
          remove_oauth_identity-IsSound,
        )
        depth 60
