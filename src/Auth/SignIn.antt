-- ===== src/Auth/SignIn.antt =====
-- A sign-in by password succeeds only on a matching password of a verified user, and the session it
-- answers with is the one that the store then holds.
use structure.Prelude.{
  String, Option, List, [], ◌∷◌, ok, some, none, true, ◌≡◌, refl, sym, subst, ap, ◌∙◌, not,
  text_equality, arith, ltb, ◌==◌, ◌||◌, or_else, utf16_length,
}
use structure.Auth.Model.{
  AuthError, AuthUser, AuthSession, PasswordCredential, invalid_credentials, email_not_verified,
}
use structure.Auth.Store.{AuthState, find_password, find_user_by_id}
use structure.Auth.Ports.{Ports, TenantAuthConfig, World, M, fail, Limiter}
use structure.Auth.Config.{normalize_email}
use structure.Auth.Keeps.{Keeps, keeps, >>=-Keeps, lift-Keeps}
use structure.Auth.Inversion.{>>=-ok}
use structure.Auth.Leads.{
  Leads, Leads-skip, Leads-then, Leads-lift, Leads-bind, Leads-pure, Leads-asks_at, Leads-if,
}
use structure.Auth.Opened.{
  Opened, config_for-Keeps, limit-Keeps, audit_user-Keeps, open_session-Opened,
}
use structure.Auth.Sessions.{wall_before, wall_on_failure, peek_wall}
use structure.Auth.Password.{
  for_each, refused, admit_user, check_credential, sign_in_password, sign_in_walls,
}

module _ (P : AuthState → Type 0) where
  for_each-Keeps :
      (f : String → M (Unit {0})) (xs : List String)
      → ((x : String) → Keeps P (f x))
      → Keeps P (for_each f xs)
  for_each-Keeps f [] h = search keeps
  for_each-Keeps f (x ∷ xs) h =
      >>=-Keeps P (f x) (λ _. for_each f xs) (h x) (λ _. for_each-Keeps f xs h)

  module _ (p : Ports) where
    peek_wall-Keeps :
        (peek : Option Limiter) (tenant_id action key : String)
        → Keeps P (peek_wall p peek tenant_id action key)
    unfolding peek_wall
    peek_wall-Keeps none tenant_id action key = limit-Keeps P p tenant_id action key
    peek_wall-Keeps (some peek) tenant_id action key = search keeps

    wall_before-Keeps :
        (tenant_id action key : String) → Keeps P (wall_before p tenant_id action key)
    unfolding wall_before
    wall_before-Keeps tenant_id action key = peek_wall-Keeps p.peek tenant_id action key

-- What a sign-in that succeeded found in the store before it, and what it left there.
pub record IsSignedIn (p : Ports) (tenant_id input_email password : String) (start : AuthState)
    (session : AuthSession) (s : AuthState) : Type 0 where
  pub config : TenantAuthConfig
  pub email : String
  pub credential : PasswordCredential
  pub normal : normalize_email p.lower_case input_email ≡ ok email
  pub found : find_password tenant_id email start ≡ some credential
  pub matches : p.verify_password password credential.password_hash ≡ ok true
  pub user : find_user_by_id tenant_id credential.user_id start ≡ some session.user
  pub verified : session.user.email_verified ≡ true
  pub opened : Opened p tenant_id session.user config (λ x. x ≡ start) session s

module _ (p : Ports) (tenant_id input_email password : String) (start : AuthState)
    (config : TenantAuthConfig) (walls : List String) where
  abbrev AtStart : AuthState → Type 0
  AtStart s = s ≡ start

  -- A refusal never succeeds.
  refused-Leads :
      {P : AuthState → Type 0} {R : AuthSession → AuthState → Type 0} (e : AuthError)
      → Leads P (refused p tenant_id walls e) R
  refused-Leads {P} {R} e = record {
    leads = λ w a v h done.
        let (x, u, first, ended) =
          >>=-ok (for_each (wall_on_failure p tenant_id "password-sign-in") walls) (λ _. fail e) w
            done in
        absurd (cc);
  }

  module _ (email : String) (normal : normalize_email p.lower_case input_email ≡ ok email)
      (credential : PasswordCredential)
      (found : find_password tenant_id email start ≡ some credential)
      (matches : p.verify_password password credential.password_hash ≡ ok true) where
    admit_user-Leads :
        (known : Option AuthUser)
        → find_user_by_id tenant_id credential.user_id start ≡ known
        → Leads AtStart
            (admit_user p tenant_id config walls known)
            (IsSignedIn p tenant_id input_email password start)
    unfolding admit_user
    admit_user-Leads none is = refused-Leads (invalid_credentials "password-user")
    admit_user-Leads (some user) is =
        Leads-if (not user.email_verified) _ _
          (λ unverified. refused-Leads (email_not_verified user.id))
          (λ verified. Leads-bind _ _ (open_session-Opened p tenant_id user config) λ session.
            Leads-then _ _ (audit_user-Keeps _ tenant_id "password-sign-in" (some user.id)) (
              Leads-pure session λ s opened. record {
                config = config;
                email = email;
                credential = credential;
                normal = normal;
                found = found;
                matches = matches;
                user = is ∙ ap some (sym opened.holder);
                verified = rw (opened.holder) (ground arith);
                opened =
                    subst (λ u. Opened p tenant_id u config AtStart session s) (sym opened.holder)
                      opened;
              }))

  check_credential-Leads :
      (email : String)
      → normalize_email p.lower_case input_email ≡ ok email
      → (held : Option PasswordCredential) → find_password tenant_id email start ≡ held
      → Leads AtStart
          (check_credential p tenant_id config walls password held)
          (IsSignedIn p tenant_id input_email password start)
  unfolding check_credential
  check_credential-Leads email normal none found =
      Leads-skip _ _ (lift-Keeps AtStart (p.hash_password "structure-auth-dummy-password"))
        λ _. refused-Leads (invalid_credentials "password")
  check_credential-Leads email normal (some credential) found =
      Leads-lift (p.verify_password password credential.password_hash) _ λ matches verified.
        Leads-if (not matches) _ _ (λ wrong. refused-Leads (invalid_credentials "password"))
          (λ right. Leads-asks_at start (find_user_by_id tenant_id credential.user_id) _ λ known is.
            admit_user-Leads email normal credential found (rw verified (ap ok (ground arith)))
              known is)

module _ (p : Ports) (tenant_id input_email password : String) (start : AuthState) where
  abbrev Begun : AuthState → Type 0
  Begun s = s ≡ start

  sign_in-Leads :
      (caller : Option String)
      → Leads Begun
          (sign_in_password p tenant_id input_email password caller)
          (IsSignedIn p tenant_id input_email password start)
  unfolding sign_in_password
  sign_in-Leads caller = Leads-skip _ _ (config_for-Keeps Begun p tenant_id) λ config.
      Leads-lift (normalize_email p.lower_case input_email) _ λ email normal.
        let walls : List String = sign_in_walls email caller in
        Leads-then _ _
          (for_each-Keeps Begun (wall_before p tenant_id "password-sign-in") walls
            (wall_before-Keeps Begun p tenant_id "password-sign-in"))
          (Leads-if (password == "" || ltb (or_else config.max_length 256) (utf16_length password))
            _ _
            (λ bad.
              refused-Leads p tenant_id input_email password start config walls
                (invalid_credentials "password"))
            (λ good. Leads-asks_at start (find_password tenant_id email) _ λ held found.
              check_credential-Leads p tenant_id input_email password start config walls email
                normal held found))

-- A sign-in by password that succeeds: the store held a credential under the normalised address, the
-- password matches its hash, its user is in the store with a verified address and is the session's,
-- and all that changed of the store is one session of that user, under the hash of the token, which
-- no session had, until the answered expiry.
pub sign_in_password-IsSignedIn :
    (p : Ports) (tenant_id input_email password : String) (caller : Option String) (w v : World)
    (session : AuthSession)
    → sign_in_password p tenant_id input_email password caller w ≡ (ok session, v)
    → IsSignedIn p tenant_id input_email password w.auth session v.auth
sign_in_password-IsSignedIn p tenant_id input_email password caller w v session done =
    (sign_in-Leads p tenant_id input_email password w.auth caller).leads w session v refl done
