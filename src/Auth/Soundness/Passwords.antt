-- ===== src/Auth/Soundness/Passwords.antt =====
-- Every password and magic-link call of packages/auth/src/service.ts keeps the store sound.
use structure.Prelude.{
  String, Option, List, [], ◌∷◌, Result, ◌≡◌, refl, subst, sym, ok, err, some, none,
}
use structure.Auth.Model.{
  AuthError, AuthUser, OneTimeTokenRecord, PasswordCredential, identity_conflict,
}
use structure.Auth.Store.{AuthState, create_magic_link_user}
use structure.Auth.Ports.{Ports, TenantAuthConfig, M}
use structure.Auth.Keeps.{Keeps, keeps, >>=-Keeps}
use structure.Auth.Invariant.{IsSound}
use structure.Auth.Invariant.Users.{
  create_password_user-IsSound, create_magic_link_user-IsSound, set_email_verified-IsSound,
  replace_password-IsSound,
}
use structure.Auth.Soundness.{
  config_for-IsSound, limit-IsSound, wall_before-IsSound, wall_on_failure-IsSound,
  open_session-IsSound, issue_email_token-IsSound, consume_token-IsSound,
  require_elevated_session-IsSound,
}
use structure.Auth.Password.{
  resume, finish_reset, apply_reset, RegisterPasswordInput, for_each, register_password,
  request_email_verification, verify_email, refused, admit_user, check_credential, sign_in_password,
  request_password_reset, reset_password, change_password, verify_again, reset_link,
}
use structure.Auth.MagicLink.{
  inserted, verified, request_magic_link, try_create, user_of_link, consume_magic_link,
}

for_each-IsSound :
    (f : String → M (Unit {0})) (xs : List String)
    → ((x : String) → Keeps IsSound (f x))
    → Keeps IsSound (for_each f xs)
for_each-IsSound f [] h = search keeps
for_each-IsSound f (x ∷ xs) h =
    >>=-Keeps IsSound (f x) (λ _. for_each f xs) (h x) (λ _. for_each-IsSound f xs h)

inserted-state : (r : Result AuthError Unit × AuthState) → (inserted r).1 ≡ r.1
inserted-state (ok done, s) = refl
inserted-state (err (identity_conflict tenant_id identity), s) = refl
inserted-state (err e, s) = refl

try_create-IsSound : (user : AuthUser) → Keeps IsSound (try_create user)
unfolding try_create
try_create-IsSound user = record {
  keep = λ w h.
      subst IsSound (sym (inserted-state (create_magic_link_user user w.auth)))
        (create_magic_link_user-IsSound user h);
}

module _ (p : Ports) where
  pub register_password-IsSound :
      (input : RegisterPasswordInput) → Keeps IsSound (register_password p input)
  unfolding register_password
  register_password-IsSound input =
      search
        (
          keeps, config_for-IsSound, limit-IsSound, issue_email_token-IsSound,
          create_password_user-IsSound,
        )
        depth 40

  verify_again-IsSound :
      (tenant_id : String) (config : TenantAuthConfig) (email : String) (known : Option AuthUser)
      → Keeps IsSound (verify_again p tenant_id config email known)
  verify_again-IsSound tenant_id config email none = search keeps
  verify_again-IsSound tenant_id config email (some user) =
      search (keeps, issue_email_token-IsSound)

  reset_link-IsSound :
      (tenant_id : String) (config : TenantAuthConfig) (email : String)
      (known : Option PasswordCredential)
      → Keeps IsSound (reset_link p tenant_id config email known)
  reset_link-IsSound tenant_id config email none = search keeps
  reset_link-IsSound tenant_id config email (some credential) =
      search (keeps, issue_email_token-IsSound)

  refused-IsSound :
      (tenant_id : String) (walls : List String) (e : AuthError)
      → Keeps IsSound (refused p tenant_id walls e)
  refused-IsSound tenant_id walls e = search (keeps, for_each-IsSound, wall_on_failure-IsSound)

  admit_user-IsSound :
      (tenant_id : String) (config : TenantAuthConfig) (walls : List String)
      (known : Option AuthUser)
      → Keeps IsSound (admit_user p tenant_id config walls known)
  unfolding admit_user
  admit_user-IsSound tenant_id config walls none = search (keeps, refused-IsSound)
  admit_user-IsSound tenant_id config walls (some user) =
      search (keeps, refused-IsSound, open_session-IsSound)

  check_credential-IsSound :
      (tenant_id : String) (config : TenantAuthConfig) (walls : List String) (password : String)
      (found : Option PasswordCredential)
      → Keeps IsSound (check_credential p tenant_id config walls password found)
  unfolding check_credential
  check_credential-IsSound tenant_id config walls password none = search (keeps, refused-IsSound)
  check_credential-IsSound tenant_id config walls password (some credential) =
      search (keeps, refused-IsSound, admit_user-IsSound) depth 20

  pub request_email_verification-IsSound :
      (tenant_id email : String) → Keeps IsSound (request_email_verification p tenant_id email)
  unfolding request_email_verification
  request_email_verification-IsSound tenant_id email =
      search (keeps, config_for-IsSound, limit-IsSound, verify_again-IsSound) depth 40

  pub verify_email-IsSound :
      (tenant_id token : String) → Keeps IsSound (verify_email p tenant_id token)
  unfolding verify_email
  verify_email-IsSound tenant_id token =
      search
        (
          keeps, config_for-IsSound, limit-IsSound, consume_token-IsSound,
          set_email_verified-IsSound,
        )
        depth 40

  pub sign_in_password-IsSound :
      (tenant_id email password : String) (caller : Option String)
      → Keeps IsSound (sign_in_password p tenant_id email password caller)
  unfolding sign_in_password
  sign_in_password-IsSound tenant_id email password caller =
      search
        (
          keeps, config_for-IsSound, limit-IsSound, for_each-IsSound, wall_before-IsSound,
          refused-IsSound, check_credential-IsSound,
        )
        depth 40

  pub request_password_reset-IsSound :
      (tenant_id email : String) → Keeps IsSound (request_password_reset p tenant_id email)
  unfolding request_password_reset
  request_password_reset-IsSound tenant_id email =
      search (keeps, config_for-IsSound, limit-IsSound, reset_link-IsSound) depth 40

  resume-IsSound :
      (tenant_id : String) (config : TenantAuthConfig) (action : String) (user : AuthUser)
      → Keeps IsSound (resume p tenant_id config action user)
  unfolding resume
  resume-IsSound tenant_id config action user = search (keeps, open_session-IsSound) depth 20

  finish_reset-IsSound :
      (tenant_id : String) (config : TenantAuthConfig) (user_id hash : String)
      → Keeps IsSound (finish_reset p tenant_id config user_id hash)
  unfolding finish_reset
  finish_reset-IsSound tenant_id config user_id hash =
      search (keeps, replace_password-IsSound, resume-IsSound) depth 30

  apply_reset-IsSound :
      (tenant_id : String) (config : TenantAuthConfig) (password : String)
      (issued : OneTimeTokenRecord)
      → Keeps IsSound (apply_reset p tenant_id config password issued)
  unfolding apply_reset
  apply_reset-IsSound tenant_id config password issued =
      search (keeps, finish_reset-IsSound) depth 30

  pub reset_password-IsSound :
      (tenant_id token password : String)
      → Keeps IsSound (reset_password p tenant_id token password)
  unfolding reset_password
  reset_password-IsSound tenant_id token password =
      search (keeps, config_for-IsSound, limit-IsSound, consume_token-IsSound, apply_reset-IsSound)
        depth 60

  pub change_password-IsSound :
      (tenant_id token current next : String)
      → Keeps IsSound (change_password p tenant_id token current next)
  unfolding change_password
  change_password-IsSound tenant_id token current next =
      search
        (
          keeps, config_for-IsSound, limit-IsSound, require_elevated_session-IsSound,
          replace_password-IsSound, open_session-IsSound,
        )
        depth 40

  pub request_magic_link-IsSound :
      (tenant_id email : String) → Keeps IsSound (request_magic_link p tenant_id email)
  unfolding request_magic_link
  request_magic_link-IsSound tenant_id email =
      search (keeps, config_for-IsSound, limit-IsSound, issue_email_token-IsSound) depth 40

  verified-IsSound :
      (tenant_id : String) (known : Option AuthUser) → Keeps IsSound (verified tenant_id known)
  unfolding verified
  verified-IsSound tenant_id none = search keeps
  verified-IsSound tenant_id (some user) = search (keeps, set_email_verified-IsSound)

  user_of_link-IsSound :
      (tenant_id email : String) (known : Option AuthUser)
      → Keeps IsSound (user_of_link p tenant_id email known)
  unfolding user_of_link
  user_of_link-IsSound tenant_id email none =
      search (keeps, try_create-IsSound, verified-IsSound) depth 20
  user_of_link-IsSound tenant_id email (some user) = verified-IsSound tenant_id (some user)

  pub consume_magic_link-IsSound :
      (tenant_id token : String) → Keeps IsSound (consume_magic_link p tenant_id token)
  unfolding consume_magic_link
  consume_magic_link-IsSound tenant_id token =
      search
        (
          keeps, config_for-IsSound, limit-IsSound, consume_token-IsSound, user_of_link-IsSound,
          open_session-IsSound,
        )
        depth 40
