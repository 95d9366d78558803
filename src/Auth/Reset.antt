-- ===== src/Auth/Reset.antt =====
-- A password reset spends its token, replaces the password, and revokes the sessions.
use structure.Prelude.{
  String, ℕ, Option, ok, some, none, ◌≡◌, refl, sym, subst, ap, ◌∙◌, lookup, insert, delete,
  text_equality, arith, lookup-insert, lookup-delete, same_refl,
}
use structure.Auth.Model.{
  AuthUser, AuthSession, SessionRecord, OneTimeTokenRecord, password_reset, purpose_text,
  invalid_auth_token,
}
use structure.Auth.Store.{
  AuthState, scoped, token_key, consume_one_time_token, replace_password, find_user_by_id,
}
use structure.Auth.Ports.{Ports, TenantAuthConfig, World}
use structure.Auth.Config.{validate_password}
use structure.Auth.Keeps.{clock-Keeps}
use structure.Auth.Invariant.{IsSound}
use structure.Auth.Invariant.Users.{consume_one_time_token-IsSound}
use structure.Auth.Leads.{
  Leads, Leads-skip, Leads-then, Leads-check, Leads-bind, Leads-lift, Leads-pure, Leads-present,
  Leads-writes, Leads-asks,
}
use structure.Auth.Opened.{
  audit_user-Keeps, Opened, config_for-Keeps, limit-Keeps, open_session-Opened,
}
use structure.Auth.Sessions.{session_record, session_ttl}
use structure.Auth.Password.{resume, finish_reset, apply_reset, reset_password}
use structure.Auth.Spent.{
  Consumed, consume_token-Consumed, IsReset, replaced, no_session, all_rehashed,
}

-- The store past the password's replacement, and past the session that was opened.
module _ (p : Ports) (tenant_id token new_password password_hash user_id : String) (now : ℕ)
    (issued : OneTimeTokenRecord) (user : AuthUser) (config : TenantAuthConfig) (start : AuthState)
    (known : Option AuthUser) (is : known ≡ some user) where
  abbrev AtStart : AuthState → Type 0
  AtStart s = (s ≡ start) × IsSound s

  abbrev AtReplaced : AuthState → Type 0
  AtReplaced s =
      (before : AuthState) × Consumed p tenant_id password_reset token AtStart issued before
      × (replace_password tenant_id user_id password_hash now before ≡ s)

  abbrev AtUser : AuthState → Type 0
  AtUser s = AtReplaced s × (find_user_by_id tenant_id user_id s ≡ known)

  IsReset-outcome :
      (session : AuthSession) (s : AuthState)
      → p.hash_password new_password ≡ ok password_hash
      → issued.user_id ≡ some user_id
      → Opened p tenant_id user config AtUser session s
      → IsReset p tenant_id token new_password start session s
  unfolding replace_password find_user_by_id consume_one_time_token
  IsReset-outcome session s hashed owner opened =
      let ((consumed_state, consumed, replacing), found_user) = opened.earlier in
      let sound : IsSound consumed_state = subst IsSound (sym consumed.after) (
        unfold consume_one_time_token in
        consume_one_time_token-IsSound tenant_id password_reset consumed.hash consumed.now
          consumed.earlier.1) in
      let made : SessionRecord =
        session_record tenant_id user opened.id opened.hash opened.now (session_ttl config)
          opened.pending in
      let key_of : String = token_key tenant_id (purpose_text password_reset) consumed.hash in
      let place : String = scoped tenant_id opened.hash in
      let sessions_are : s.sessions ≡ insert place made opened.before.sessions =
        ap (λ x. x.sessions) opened.after in
      let passwords_are : s.passwords
          ≡ (replaced tenant_id user_id password_hash now consumed_state sound).passwords =
        ap (λ x. x.passwords) opened.after ∙ sym (ap (λ x. x.passwords) replacing) in
      let tokens_are : s.tokens ≡ delete key_of consumed.before.tokens =
        ap (λ x. x.tokens) opened.after
        ∙ sym (ap (λ x. x.tokens) replacing)
        ∙ ap (λ x. x.tokens) consumed.after in
      let users_are : s.users ≡ opened.before.users = ap (λ x. x.users) opened.after in
      record {
        hash = consumed.hash;
        issued = issued;
        user_id = user_id;
        hashed = consumed.hashed;
        found = subst (λ x. lookup key_of x.tokens ≡ some issued) consumed.earlier.0 consumed.found;
        owner = owner;
        user = rw (users_are, opened.holder) (found_user ∙ is);
        only_session = λ key other held t u.
            let was : lookup key (insert place made opened.before.sessions) ≡ some other =
              subst (λ x. lookup key x ≡ some other) sessions_are held in
            let none_left =
              no_session tenant_id user_id password_hash now consumed_state sound key other in
            let earlier_sessions = ap (λ x. lookup key x.sessions) replacing in
            ground (
              arith,
              lookup-insert place key made opened.before.sessions,
              opened.hashed,
              earlier_sessions,
              none_left,
            );
        new_hash = λ key credential held t u.
            let was = subst (λ x. lookup key x ≡ some credential) passwords_are held in
            hashed
            ∙ ap ok (
                sym (
                  all_rehashed tenant_id user_id password_hash now consumed_state sound key
                    credential was t u));
        spent =
            subst (λ x. lookup key_of x ≡ none) (sym tokens_are)
              (lookup-delete key_of key_of consumed.before.tokens
                ∙ rw (same_refl text_equality key_of) refl);
      }

module _ (p : Ports) (tenant_id token new_password : String) (start : AuthState) where
  abbrev Begun : AuthState → Type 0
  Begun s = (s ≡ start) × IsSound s

  module _ (config : TenantAuthConfig) (issued : OneTimeTokenRecord) where
    abbrev AtToken : AuthState → Type 0
    AtToken = Consumed p tenant_id password_reset token Begun issued

    finish_reset-Leads :
        (user_id password_hash : String)
        → p.hash_password new_password ≡ ok password_hash
        → issued.user_id ≡ some user_id
        → Leads AtToken
            (finish_reset p tenant_id config user_id password_hash)
            (IsReset p tenant_id token new_password start)
    unfolding finish_reset resume
    finish_reset-Leads user_id password_hash hashed owner =
        Leads-skip _ _ (clock-Keeps AtToken) λ now.
          Leads-writes (replace_password tenant_id user_id password_hash now) _ (
            Leads-asks (find_user_by_id tenant_id user_id) _ λ known.
              Leads-present known (invalid_auth_token "password-reset") _ λ user is.
                Leads-bind _ _ (open_session-Opened p tenant_id user config) λ session.
                  Leads-then _ _
                    (audit_user-Keeps _ tenant_id "password-reset-complete" (some user.id))
                    (Leads-pure session λ s opened.
                      IsReset-outcome p tenant_id token new_password password_hash user_id now
                        issued user config start known is session s hashed owner opened))

    apply_reset-Leads :
        Leads AtToken
          (apply_reset p tenant_id config new_password issued)
          (IsReset p tenant_id token new_password start)
    unfolding apply_reset
    apply_reset-Leads =
        Leads-present issued.user_id (invalid_auth_token "password-reset") _ λ user_id owner.
          Leads-lift (p.hash_password new_password) _
            λ password_hash hashed. finish_reset-Leads user_id password_hash hashed owner

  reset_password-Leads :
      Leads Begun
        (reset_password p tenant_id token new_password)
        (IsReset p tenant_id token new_password start)
  unfolding reset_password
  reset_password-Leads = Leads-skip _ _ (config_for-Keeps Begun p tenant_id) λ config.
      Leads-then _ _ (limit-Keeps Begun p tenant_id "password-reset-complete" token) (
        Leads-check (validate_password new_password config) _ λ fits.
          Leads-bind _ _ (consume_token-Consumed p tenant_id password_reset token)
            λ issued. apply_reset-Leads config issued)

-- A reset that succeeds, from a sound store: the token stood in the store under its hash and names a
-- user, the answer is a session of that user, no other session of the user is left, every password
-- of the user is the hash of the new one, and the token is no longer in the store.
pub reset_password-IsReset :
    (p : Ports) (tenant_id token new_password : String) (w v : World) (session : AuthSession)
    → IsSound w.auth
    → reset_password p tenant_id token new_password w ≡ (ok session, v)
    → IsReset p tenant_id token new_password w.auth session v.auth
reset_password-IsReset p tenant_id token new_password w v session sound done =
    (reset_password-Leads p tenant_id token new_password w.auth).leads w session v (refl, sound)
      done
