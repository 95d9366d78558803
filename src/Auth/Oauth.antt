-- ===== src/Auth/Oauth.antt =====
-- Signing in with an external provider: beginOAuth, completeOAuth, and unlinkOAuthIdentity of
-- packages/auth/src/service.ts. The exchange of a code for a profile is a parameter.
use structure.Prelude.{
  String, ℕ, Bool, Option, List, Result, [], ◌∷◌, ok, err, some, none, true, false, if◌then◌else◌,
  ◌==◌, ◌&&◌, ◌||◌, not, or_else, ◌+◌, append_text, trim, is_some, text_equality, nat_same,
  option_equality,
}
use Prim.Native.Char.{code}
use structure.Auth.Model.{
  AuthError, AuthUser, AuthSession, OauthIdentity, OauthStateRecord, validation_error,
  invalid_auth_token, invalid_credentials, account_link_denied,
}
use structure.Auth.Store.{
  create_oauth_user, find_user_by_email, find_user_by_id, set_email_verified,
}
use structure.Auth.Factors.{
  put_oauth_state, consume_oauth_state, find_oauth_identity, add_oauth_identity,
  remove_oauth_identity,
}
use structure.Auth.Ports.{
  Ports, TenantAuthConfig, Url, M, pure, lift, asks, takes, tries, writes, present, clock,
  fail_when, ◌>>=◌, ◌>>◌, hash_token, random_token, record_audit,
}
use structure.Auth.Sessions.{config_for, limit, open_session, get_session, require_elevated_session}
use structure.Auth.Password.{new_user}
use structure.Auth.Profile.{OauthProfile, validate_oauth_profile}

pub record OauthProvider : Type 0 where
  pub id : String
  pub client_id : String
  pub client_secret : String
  pub authorization_endpoint : String
  pub scopes : String

pub record AccountLinkRequest : Type 0 where
  pub tenant_id : String
  pub provider : String
  pub profile : OauthProfile
  pub existing_user_id : String
  pub requested_by_user_id : Option String

pub record IdentityProvisionRequest : Type 0 where
  pub tenant_id : String
  pub provider : String
  pub subject : String
  pub email : Option String

-- A URL that was resolved against a base: its origin, and its text.
pub record Resolved : Type 0 where
  pub origin : String
  pub text : String

-- The ports of the external sign-in: the providers, the policies, the exchange, and URLs.
pub record OauthPorts : Type 0 where
  pub resolve : String → String → TenantAuthConfig → Result AuthError (Option OauthProvider)
  pub exchange : OauthProvider → String → String → String → Result AuthError OauthProfile
  pub authorize : AccountLinkRequest → Result AuthError Bool
  pub allow : Option (IdentityProvisionRequest → Bool)
  pub challenge : String → Result AuthError String
  pub resolve_url : String → Url → Option Resolved
  pub encode_component : String → String
  pub set_params : String → List (String × String) → String

pub record BeginOauthOptions : Type 0 where
  pub return_to : Option String
  pub callback_path : Option String

abbrev starts_with_one_slash : String → Bool
starts_with_one_slash (String.◌∷◌ c (String.◌∷◌ d s)) =
    nat_same (code c) 0x2f && not (nat_same (code d) 0x2f)
starts_with_one_slash (String.◌∷◌ c String.[]) = nat_same (code c) 0x2f
starts_with_one_slash String.[] = false

-- A URL on the tenant's own origin.
abbrev same_origin : Url → AuthError → Option Resolved → Result AuthError String
same_origin base e none = err e
same_origin base e (some url) = if url.origin == base.origin then ok url.text else err e

pub record OauthCompletion : Type 0 where
  pub session : AuthSession
  pub return_to : Option String

pub record CompleteOauthInput : Type 0 where
  pub tenant_id : String
  pub provider : String
  pub state : String
  pub code : String
  pub current_session_token : Option String

abbrev pub audit_provider : String → String → String → String → M (Unit {0})
audit_provider tenant_id action user_id provider = record_audit (record {
  tenant_id = tenant_id;
  action = action;
  user_id = some user_id;
  provider = some provider;
  actor = none;
})

abbrev new_identity : CompleteOauthInput → OauthProfile → String → ℕ → OauthIdentity
new_identity input profile user_id now = record {
  tenant_id = input.tenant_id;
  user_id = user_id;
  provider = input.provider;
  subject = profile.subject;
  email = profile.email;
  created_at = now;
}

-- `updated ?? user`
abbrev verified_or : AuthUser → Option AuthUser → M AuthUser
verified_or user updated = pure (or_else updated user)

abbrev user_id_of : Option AuthSession → Option String
user_id_of none = none
user_id_of (some session) = some session.user.id

-- `requestedBy?.user ?? matchedUser`
abbrev pub link_target : Option AuthSession → Option AuthUser → Option AuthUser
link_target none matched = matched
link_target (some session) matched = some session.user

module _ (p : Ports) (o : OauthPorts) where
  unfoldable pub redirect_uri : TenantAuthConfig → String → Option String → Result AuthError String
  redirect_uri config provider callback_path =
      let bad : AuthError =
        validation_error "oauth.callbackPath"
          "must be an absolute path on the tenant base URL origin" in
      let path =
        or_else callback_path
          (append_text "/auth/oauth/" (append_text (o.encode_component provider) "/callback")) in
      if starts_with_one_slash path
      then same_origin config.base_url bad (o.resolve_url path config.base_url)
      else err bad

  unfoldable pub validate_return_to :
      TenantAuthConfig → Option String → Result AuthError (Option String)
  validate_return_to config none = ok none
  validate_return_to config (some return_to) =
      elim (same_origin config.base_url
        (validation_error "returnTo" "must resolve to the tenant base URL origin")
        (o.resolve_url return_to config.base_url)) [ ok text ↦ ok (some text) | err e ↦ err e ]

  unfoldable pub provider_for : String → String → TenantAuthConfig → M OauthProvider
  provider_for tenant_id provider_id config = do
    found ← lift (o.resolve tenant_id provider_id config)
    provider ← present found (validation_error "provider" "is not configured for this tenant")
    fail_when
        (not (provider.id == provider_id)
          || trim provider.client_id == ""
          || provider.client_secret == "")
        (validation_error "oauth.credentials"
          "must match the requested provider and contain a client ID and redacted secret")
    pure provider

  abbrev pub limit_caller : String → String → Option String → M (Unit {0})
  limit_caller tenant_id action none = pure tt
  limit_caller tenant_id action (some subject) = limit p tenant_id action subject

  unfoldable pub begin_oauth : String → String → BeginOauthOptions → Option String → M String
  unfolding provider_for redirect_uri validate_return_to
  begin_oauth tenant_id provider_id options caller = do
    config ← config_for p tenant_id
    limit_caller tenant_id "oauth-start" caller
    provider ← provider_for tenant_id provider_id config
    safe_return_to ← lift (validate_return_to config options.return_to)
    state ← random_token p 32
    verifier ← random_token p 48
    challenge ← lift (o.challenge verifier)
    state_hash ← hash_token p state
    redirect ← lift (redirect_uri config provider.id options.callback_path)
    now ← clock
    writes (
        put_oauth_state (record {
          tenant_id = tenant_id;
          provider = provider.id;
          state_hash = state_hash;
          code_verifier = verifier;
          redirect_uri = redirect;
          return_to = safe_return_to;
          expires_at = now + or_else config.oauth_state_ttl_millis 600000;
        }))
    pure (
        o.set_params provider.authorization_endpoint (
          ("response_type", "code")
          ∷ ("client_id", provider.client_id)
          ∷ ("redirect_uri", redirect)
          ∷ ("scope", provider.scopes)
          ∷ ("state", state)
          ∷ ("code_challenge", challenge)
          ∷ ("code_challenge_method", "S256")
          ∷ []))

  abbrev pub current_session : String → Option String → M (Option AuthSession)
  current_session tenant_id none = pure none
  current_session tenant_id (some token) =
      get_session p tenant_id token >>= λ session. pure (some session)

  abbrev pub finish :
      CompleteOauthInput → TenantAuthConfig → OauthStateRecord → AuthUser → M OauthCompletion
  finish input config state user = do
    session ← open_session p input.tenant_id user config
    audit_provider input.tenant_id "oauth-complete" user.id input.provider
    pure (record { session = session; return_to = state.return_to })

  -- A known identity signs its own user in.
  unfoldable pub known_identity :
      CompleteOauthInput
      → TenantAuthConfig
      → OauthStateRecord
      → Option AuthSession
      → OauthIdentity
      → M OauthCompletion
  known_identity input config state requested_by identity = do
    fail_when (is_some requested_by && not (user_id_of requested_by == some identity.user_id))
        (account_link_denied input.provider (some "identity-belongs-to-another-user"))
    found ← asks (find_user_by_id input.tenant_id identity.user_id)
    user ← present found (invalid_credentials "oauth-user")
    finish input config state user

  abbrev pub match_user : CompleteOauthInput → OauthProfile → Option String → M (Option AuthUser)
  match_user input profile none = pure none
  match_user input profile (some email) =
      if profile.email_verified
      then asks (find_user_by_email input.tenant_id (p.lower_case (trim email)))
      else pure none

  -- The address that the provider vouches for verifies the user's own.
  abbrev pub verify_linked : CompleteOauthInput → OauthProfile → AuthUser → M AuthUser
  verify_linked input profile user =
      if not user.email_verified
        && profile.email_verified
        && is_some profile.email
        && user.email == profile.email
      then (do
        now ← clock
        updated ← takes (set_email_verified input.tenant_id user.id now)
        verified_or user updated)
      else pure user

  unfoldable pub link_identity :
      CompleteOauthInput → OauthProfile → Option AuthSession → AuthUser → M AuthUser
  link_identity input profile requested_by target = do
    allowed ← lift (
        o.authorize (record {
          tenant_id = input.tenant_id;
          provider = input.provider;
          profile = profile;
          existing_user_id = target.id;
          requested_by_user_id = user_id_of requested_by;
        }))
    fail_when (not allowed) (account_link_denied input.provider none)
    now ← clock
    tries (add_oauth_identity (new_identity input profile target.id now))
    verify_linked input profile target

  abbrev provisioned : CompleteOauthInput → OauthProfile → Bool
  provisioned input profile = elim o.allow [
    | none ↦ true
    | some allow ↦ allow (record {
      tenant_id = input.tenant_id;
      provider = input.provider;
      subject = profile.subject;
      email = profile.email;
    })
  ]

  abbrev vouched_email : OauthProfile → Option String
  vouched_email profile = elim profile.email [
    | none ↦ none
    | some email ↦ if profile.email_verified then some (p.lower_case (trim email)) else none
  ]

  unfoldable pub provision_user : CompleteOauthInput → OauthProfile → M AuthUser
  provision_user input profile = do
    fail_when (not (provisioned input profile)) (invalid_credentials "oauth-identity")
    now ← clock
    id ← random_token p 18
    let verified = is_some profile.email && profile.email_verified
    let user = new_user id input.tenant_id (vouched_email profile) verified profile.display_name now
    tries (create_oauth_user user (new_identity input profile id now))
    pure user

  unfoldable pub link_or_provision :
      CompleteOauthInput → OauthProfile → Option AuthSession → Option AuthUser → M AuthUser
  unfolding link_identity provision_user
  link_or_provision input profile requested_by (some target) =
      link_identity input profile requested_by target
  link_or_provision input profile requested_by none = provision_user input profile

  unfoldable pub settle_identity :
      CompleteOauthInput
      → TenantAuthConfig
      → OauthStateRecord
      → OauthProfile
      → Option AuthSession
      → Option OauthIdentity
      → M OauthCompletion
  unfolding known_identity link_or_provision
  settle_identity input config state profile requested_by (some identity) =
      known_identity input config state requested_by identity
  settle_identity input config state profile requested_by none = do
    matched ← match_user input profile profile.email
    user ← link_or_provision input profile requested_by (link_target requested_by matched)
    finish input config state user

  unfoldable pub complete_oauth : CompleteOauthInput → M OauthCompletion
  unfolding provider_for settle_identity
  complete_oauth input = do
    config ← config_for p input.tenant_id
    limit p input.tenant_id "oauth-complete" input.state
    state_hash ← hash_token p input.state
    now ← clock
    found ← takes (consume_oauth_state input.tenant_id state_hash now)
    state ← present found (invalid_auth_token "oauth-state")
    fail_when (not (state.provider == input.provider)) (invalid_auth_token "oauth-state")
    provider ← provider_for input.tenant_id input.provider config
    exchanged ← lift (o.exchange provider input.code state.code_verifier state.redirect_uri)
    profile ← lift (validate_oauth_profile p.lower_case exchanged)
    identity ← asks (find_oauth_identity input.tenant_id input.provider profile.subject)
    requested_by ← current_session input.tenant_id input.current_session_token
    settle_identity input config state profile requested_by identity

  unfoldable pub unlink_oauth_identity : String → String → String → M (Unit {0})
  unlink_oauth_identity tenant_id session_token provider = do
    config_for p tenant_id
    limit p tenant_id "oauth-complete" session_token
    session ← require_elevated_session p tenant_id session_token
    writes (remove_oauth_identity tenant_id session.user.id provider)
    audit_provider tenant_id "oauth-unlink" session.user.id provider
