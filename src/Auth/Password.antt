-- ===== src/Auth/Password.antt =====
-- The password operations of packages/auth/src/service.ts, and the verification of an address.
use structure.Prelude.{
  String, ℕ, Bool, Option, List, some, none, ◌∷◌, [], false, if◌then◌else◌, or_else, append_text,
  not, ◌||◌, ltb, utf16_length, ◌==◌, text_equality,
}
use structure.Auth.Model.{
  AuthError, AuthUser, AuthSession, OneTimeTokenRecord, PasswordCredential, email_verification,
  password_reset, invalid_auth_token, invalid_credentials, email_not_verified,
}
use structure.Auth.Store.{
  create_password_user, find_user_by_email, find_user_by_id, find_password, set_email_verified,
  replace_password,
}
use structure.Auth.Ports.{
  Ports, TenantAuthConfig, M, pure, fail, lift, asks, takes, tries, writes, present, clock,
  fail_when, ◌>>=◌, ◌>>◌, random_token,
}
use structure.Auth.Config.{normalize_email, validate_password}
use structure.Auth.Sessions.{
  config_for, limit, wall_before, wall_on_failure, open_session, issue_email_token, consume_token,
  require_elevated_session, audit_user,
}

pub record RegisterPasswordInput : Type 0 where
  pub tenant_id : String
  pub email : String
  pub password : String
  pub display_name : Option String

abbrev pub new_user : String → String → Option String → Bool → Option String → ℕ → AuthUser
new_user id tenant_id email verified display_name now = record {
  id = id;
  tenant_id = tenant_id;
  email = email;
  email_verified = verified;
  display_name = display_name;
  created_at = now;
  updated_at = now;
}

abbrev new_credential : String → String → String → String → ℕ → PasswordCredential
new_credential tenant_id user_id email password_hash now = record {
  tenant_id = tenant_id;
  user_id = user_id;
  email = email;
  password_hash = password_hash;
  updated_at = now;
}

-- The keys of the walls of a sign-in.
abbrev pub sign_in_walls : String → Option String → List String
sign_in_walls email none = email ∷ []
sign_in_walls email (some subject) = append_text email (append_text "\0" subject) ∷ subject ∷ []

abbrev pub for_each : (String → M (Unit {0})) → List String → M (Unit {0})
for_each f [] = pure tt
for_each f (x ∷ xs) = f x >> for_each f xs

module _ (p : Ports) where
  unfoldable pub register_password : RegisterPasswordInput → M AuthUser
  register_password input = do
    config ← config_for p input.tenant_id
    email ← lift (normalize_email p.lower_case input.email)
    limit p input.tenant_id "password-register" email
    lift (validate_password input.password config)
    password_hash ← lift (p.hash_password input.password)
    now ← clock
    id ← random_token p 18
    let user = new_user id input.tenant_id (some email) false input.display_name now
    tries (create_password_user user (new_credential input.tenant_id id email password_hash now))
    issue_email_token p input.tenant_id config email_verification email (some id)
    audit_user input.tenant_id "password-register" (some id)
    pure user

  abbrev pub verify_again : String → TenantAuthConfig → String → Option AuthUser → M (Unit {0})
  verify_again tenant_id config email none = pure tt
  verify_again tenant_id config email (some user) =
      if not user.email_verified
      then issue_email_token p tenant_id config email_verification email (some user.id)
      else pure tt

  unfoldable pub request_email_verification : String → String → M (Unit {0})
  request_email_verification tenant_id input_email = do
    config ← config_for p tenant_id
    email ← lift (normalize_email p.lower_case input_email)
    limit p tenant_id "email-verify" email
    known ← asks (find_user_by_email tenant_id email)
    verify_again tenant_id config email known

  unfoldable pub verify_email : String → String → M AuthUser
  verify_email tenant_id token = do
    config_for p tenant_id
    limit p tenant_id "email-verify" token
    issued ← consume_token p tenant_id email_verification token
    user_id ← present issued.user_id (invalid_auth_token "email-verification")
    now ← clock
    updated ← takes (set_email_verified tenant_id user_id now)
    user ← present updated (invalid_auth_token "email-verification")
    audit_user tenant_id "email-verify" (some user.id)
    pure user

  -- A rejected sign-in is charged before it fails.
  abbrev pub refused : String → List String → AuthError → M AuthSession
  refused tenant_id walls e =
      for_each (wall_on_failure p tenant_id "password-sign-in") walls >>= λ _. fail e

  -- Past the credential: its user, and the user's session.
  unfoldable pub admit_user :
      String → TenantAuthConfig → List String → Option AuthUser → M AuthSession
  admit_user tenant_id config walls none =
      refused tenant_id walls (invalid_credentials "password-user")
  admit_user tenant_id config walls (some user) =
      if not user.email_verified then refused tenant_id walls (email_not_verified user.id) else do
        session ← open_session p tenant_id user config
        audit_user tenant_id "password-sign-in" (some user.id)
        pure session

  unfoldable pub check_credential :
      String → TenantAuthConfig → List String → String → Option PasswordCredential → M AuthSession
  check_credential tenant_id config walls password none = do
    lift (p.hash_password "structure-auth-dummy-password")
    refused tenant_id walls (invalid_credentials "password")
  check_credential tenant_id config walls password (some credential) = do
    matches ← lift (p.verify_password password credential.password_hash)
    if not matches
        then refused tenant_id walls (invalid_credentials "password")
        else (asks (find_user_by_id tenant_id credential.user_id)
            >>= admit_user tenant_id config walls)

  unfoldable pub sign_in_password : String → String → String → Option String → M AuthSession
  sign_in_password tenant_id input_email password caller = do
    config ← config_for p tenant_id
    email ← lift (normalize_email p.lower_case input_email)
    let walls = sign_in_walls email caller
    for_each (wall_before p tenant_id "password-sign-in") walls
    if password == "" || ltb (or_else config.max_length 256) (utf16_length password)
        then refused tenant_id walls (invalid_credentials "password")
        else (asks (find_password tenant_id email)
            >>= check_credential tenant_id config walls password)

  abbrev pub reset_link :
      String → TenantAuthConfig → String → Option PasswordCredential → M (Unit {0})
  reset_link tenant_id config email none = pure tt
  reset_link tenant_id config email (some credential) =
      issue_email_token p tenant_id config password_reset email (some credential.user_id)

  unfoldable pub request_password_reset : String → String → M (Unit {0})
  request_password_reset tenant_id input_email = do
    config ← config_for p tenant_id
    email ← lift (normalize_email p.lower_case input_email)
    limit p tenant_id "password-reset-request" email
    credential ← asks (find_password tenant_id email)
    reset_link tenant_id config email credential

  -- A session for the user, and the record of it.
  unfoldable pub resume : String → TenantAuthConfig → String → AuthUser → M AuthSession
  resume tenant_id config action user = do
    session ← open_session p tenant_id user config
    audit_user tenant_id action (some user.id)
    pure session

  unfoldable pub finish_reset : String → TenantAuthConfig → String → String → M AuthSession
  finish_reset tenant_id config user_id password_hash = do
    now ← clock
    writes (replace_password tenant_id user_id password_hash now)
    known ← asks (find_user_by_id tenant_id user_id)
    user ← present known (invalid_auth_token "password-reset")
    resume tenant_id config "password-reset-complete" user

  -- Past the token.
  unfoldable pub apply_reset :
      String → TenantAuthConfig → String → OneTimeTokenRecord → M AuthSession
  apply_reset tenant_id config new_password issued = do
    user_id ← present issued.user_id (invalid_auth_token "password-reset")
    password_hash ← lift (p.hash_password new_password)
    finish_reset tenant_id config user_id password_hash

  unfoldable pub reset_password : String → String → String → M AuthSession
  reset_password tenant_id token new_password = do
    config ← config_for p tenant_id
    limit p tenant_id "password-reset-complete" token
    lift (validate_password new_password config)
    issued ← consume_token p tenant_id password_reset token
    apply_reset tenant_id config new_password issued

  unfoldable pub change_password : String → String → String → String → M AuthSession
  change_password tenant_id session_token current_password new_password = do
    config ← config_for p tenant_id
    limit p tenant_id "password-change" session_token
    session ← require_elevated_session p tenant_id session_token
    lift (validate_password new_password config)
    email ← present session.user.email (invalid_credentials "password-identity")
    found ← asks (find_password tenant_id email)
    credential ← present found (invalid_credentials "password-identity")
    matches ← lift (p.verify_password current_password credential.password_hash)
    fail_when (not matches) (invalid_credentials "password")
    password_hash ← lift (p.hash_password new_password)
    now ← clock
    writes (replace_password tenant_id session.user.id password_hash now)
    changed ← open_session p tenant_id session.user config
    audit_user tenant_id "password-change" (some session.user.id)
    pure changed
