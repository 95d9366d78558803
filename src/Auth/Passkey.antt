-- ===== src/Auth/Passkey.antt =====
-- Passkeys: the registration and authentication calls of packages/auth/src/service.ts. The checks
-- of packages/auth/src/webauthn.ts on a response are parameters.
use structure.Prelude.{
  String, ℕ, Bool, Option, List, Result, [], some, none, true, if◌then◌else◌, ◌==◌, ◌&&◌, not,
  or_else, ◌+◌, is_some, text_equality, option_equality, map,
}
use structure.Auth.Model.{
  AuthError, AuthUser, AuthSession, PasskeyRecord, PasskeyAlgorithm, validation_error,
  invalid_auth_token, invalid_credentials, registration, authentication, PasskeyChallengePurpose,
}
use structure.Auth.Store.{find_user_by_email, find_user_by_id}
use structure.Auth.Factors.{
  put_passkey_challenge, consume_passkey_challenge, add_passkey, find_passkey, list_passkeys,
  rename_passkey, remove_passkey, update_passkey_counter,
}
use structure.Auth.Ports.{
  Ports, TenantAuthConfig, PasskeyTenantConfig, M, pure, lift, asks, takes, tries, writes, present,
  clock, fail_when, ◌>>=◌, ◌>>◌, hash_token, random_token,
}
use structure.Auth.Config.{normalize_email}
use structure.Auth.Sessions.{config_for, limit, open_session, require_elevated_session, audit_user}

-- What a registration proves of its authenticator.
pub record VerifiedRegistration : Type 0 where
  pub credential_id : String
  pub public_key : String
  pub algorithm : PasskeyAlgorithm
  pub counter : ℕ
  pub transports : List String
  pub aaguid : Option String

-- A response: the credential it names, its client data, and the rest.
pub record PasskeyResponse : Type 0 where
  pub credential_id : String
  pub client_data : String
  pub payload : String

-- The checks of webauthn.ts.
pub record PasskeyPorts : Type 0 where
  pub challenge_of : String → Result AuthError String
  pub verify_registration :
      PasskeyTenantConfig → PasskeyResponse → Result AuthError VerifiedRegistration
  pub verify_authentication :
      PasskeyTenantConfig → PasskeyRecord → PasskeyResponse → Result AuthError ℕ

pub record RegistrationOptions : Type 0 where
  pub challenge : String
  pub user_id : String
  pub user_name : String
  pub display_name : String
  pub timeout : ℕ
  pub verification_required : Bool
  pub exclude : List String

pub record AuthenticationOptions : Type 0 where
  pub challenge : String
  pub rp_id : String
  pub timeout : ℕ
  pub verification_required : Bool
  pub allow : Option (List String)

abbrev challenge_ttl : TenantAuthConfig → ℕ
challenge_ttl config = or_else config.passkey_challenge_ttl_millis 300000

abbrev not_configured : AuthError
not_configured = validation_error "passkey" "is not configured for this tenant"

abbrev credential_ids : List PasskeyRecord → List String
credential_ids = map (λ passkey. passkey.credential_id)

abbrev new_passkey : String → String → VerifiedRegistration → Option String → ℕ → PasskeyRecord
new_passkey tenant_id user_id verified label now = record {
  tenant_id = tenant_id;
  user_id = user_id;
  credential_id = verified.credential_id;
  public_key = verified.public_key;
  algorithm = verified.algorithm;
  counter = verified.counter;
  transports = verified.transports;
  label = label;
  aaguid = verified.aaguid;
  created_at = now;
}

-- The user of an address, if one was given.
abbrev named_user : Option AuthUser → Option String
named_user none = none
named_user (some user) = some user.id

module _ (p : Ports) where
  unfoldable pub issue_challenge :
      String → TenantAuthConfig → PasskeyChallengePurpose → Option String → M String
  issue_challenge tenant_id config purpose user_id = do
    challenge ← random_token p 32
    challenge_hash ← hash_token p challenge
    now ← clock
    writes (
        put_passkey_challenge (record {
          tenant_id = tenant_id;
          purpose = purpose;
          challenge_hash = challenge_hash;
          user_id = user_id;
          expires_at = now + challenge_ttl config;
        }))
    pure challenge

  unfoldable pub begin_passkey_registration : String → String → M RegistrationOptions
  unfolding issue_challenge
  begin_passkey_registration tenant_id session_token = do
    config ← config_for p tenant_id
    limit p tenant_id "passkey-register" session_token
    passkey ← present config.passkey not_configured
    session ← require_elevated_session p tenant_id session_token
    challenge ← issue_challenge tenant_id config registration (some session.user.id)
    existing ← asks (list_passkeys tenant_id session.user.id)
    let name = or_else session.user.email session.user.id
    pure (record {
      challenge = challenge;
      user_id = session.user.id;
      user_name = name;
      display_name = or_else session.user.display_name name;
      timeout = challenge_ttl config;
      verification_required = or_else passkey.require_user_verification true;
      exclude = credential_ids existing;
    })

  abbrev pub find_named : String → Option String → M (Option AuthUser)
  find_named tenant_id none = pure none
  find_named tenant_id (some input_email) =
      lift (normalize_email p.lower_case input_email) >>= λ email.
      asks (find_user_by_email tenant_id email)

  abbrev pub passkeys_of : String → Option AuthUser → M (List PasskeyRecord)
  passkeys_of tenant_id none = pure []
  passkeys_of tenant_id (some user) = asks (list_passkeys tenant_id user.id)

  -- `inputEmail ?? caller?.subject`
  abbrev pub limit_wall : String → Option String → Option String → M (Unit {0})
  limit_wall tenant_id (some email) caller = limit p tenant_id "passkey-authenticate" email
  limit_wall tenant_id none (some subject) = limit p tenant_id "passkey-authenticate" subject
  limit_wall tenant_id none none = pure tt

  unfoldable pub begin_passkey_authentication :
      String → Option String → Option String → M AuthenticationOptions
  unfolding issue_challenge
  begin_passkey_authentication tenant_id input_email caller = do
    config ← config_for p tenant_id
    limit_wall tenant_id input_email caller
    passkey ← present config.passkey not_configured
    user ← find_named tenant_id input_email
    passkeys ← passkeys_of tenant_id user
    challenge ← issue_challenge tenant_id config authentication (named_user user)
    pure (record {
      challenge = challenge;
      rp_id = passkey.rp_id;
      timeout = challenge_ttl config;
      verification_required = or_else passkey.require_user_verification true;
      allow = if is_some input_email then some (credential_ids passkeys) else none;
    })

  unfoldable pub rename_own_passkey : String → String → String → Option String → M Bool
  rename_own_passkey tenant_id session_token credential_id label = do
    config_for p tenant_id
    limit p tenant_id "passkey-rename" session_token
    session ← require_elevated_session p tenant_id session_token
    renamed ← takes (rename_passkey tenant_id session.user.id credential_id label)
    if renamed then audit_user tenant_id "passkey-rename" (some session.user.id) else pure tt
    pure renamed

  unfoldable pub remove_own_passkey : String → String → String → M Bool
  remove_own_passkey tenant_id session_token credential_id = do
    config_for p tenant_id
    limit p tenant_id "passkey-remove" session_token
    session ← require_elevated_session p tenant_id session_token
    removed ← takes (remove_passkey tenant_id session.user.id credential_id)
    if removed then audit_user tenant_id "passkey-remove" (some session.user.id) else pure tt
    pure removed

module _ (p : Ports) (k : PasskeyPorts) where
  unfoldable pub finish_passkey_registration :
      String → String → PasskeyResponse → Option String → M (Unit {0})
  finish_passkey_registration tenant_id session_token response label = do
    config ← config_for p tenant_id
    limit p tenant_id "passkey-register" session_token
    passkey ← present config.passkey not_configured
    session ← require_elevated_session p tenant_id session_token
    client_challenge ← lift (k.challenge_of response.client_data)
    challenge_hash ← hash_token p client_challenge
    now ← clock
    found ← takes (consume_passkey_challenge tenant_id registration challenge_hash now)
    challenge ← present found (invalid_auth_token "passkey-registration-challenge")
    fail_when (not (challenge.user_id == some session.user.id))
        (invalid_auth_token "passkey-registration-challenge")
    verified ← lift (k.verify_registration passkey response)
    tries (add_passkey (new_passkey tenant_id session.user.id verified label now))
    audit_user tenant_id "passkey-register" (some session.user.id)

  unfoldable pub finish_passkey_authentication :
      String → PasskeyResponse → Option String → M AuthSession
  finish_passkey_authentication tenant_id response caller = do
    config ← config_for p tenant_id
    limit p tenant_id "passkey-authenticate" (or_else caller response.credential_id)
    passkey ← present config.passkey not_configured
    client_challenge ← lift (k.challenge_of response.client_data)
    challenge_hash ← hash_token p client_challenge
    now ← clock
    found ← takes (consume_passkey_challenge tenant_id authentication challenge_hash now)
    challenge ← present found (invalid_auth_token "passkey-authentication-challenge")
    known ← asks (find_passkey tenant_id response.credential_id)
    credential ← present known (invalid_credentials "passkey")
    fail_when (is_some challenge.user_id && not (challenge.user_id == some credential.user_id))
        (invalid_credentials "passkey")
    counter ← lift (k.verify_authentication passkey credential response)
    tries (update_passkey_counter tenant_id credential.credential_id credential.counter counter)
    holder ← asks (find_user_by_id tenant_id credential.user_id)
    user ← present holder (invalid_credentials "passkey-user")
    session ← open_session p tenant_id user config
    audit_user tenant_id "passkey-authenticate" (some user.id)
    pure session
