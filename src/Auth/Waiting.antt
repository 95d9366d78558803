-- ===== src/Auth/Waiting.antt =====
-- The session of a sign-in acts at once, or waits for the second factor.
use structure.Prelude.{
  String, Option, ok, err, some, if◌then◌else◌, ◌≡◌, refl, sym, subst, ap, ◌∙◌, is_some, is_none,
  ◌&&◌, lookup, ◌<◌, Bool-cases, inl, inr, text_equality,
}
use structure.Auth.Model.{AuthSession, second_factor_required}
use structure.Auth.Store.{scoped, find_user_by_id}
use structure.Auth.Ports.{Ports, World, fail, pure}
use structure.Auth.Inversion.{>>=-step}
use structure.Auth.Invariant.{IsSound}
use structure.Auth.Opened.{Opened, resolve_session-opened}
use structure.Auth.Sessions.{require_elevated_session, get_session, resolve_session}
use structure.Auth.Password.{sign_in_password}
use structure.Auth.SignIn.{IsSignedIn, sign_in_password-IsSignedIn}
use structure.Auth.TwoFactor.{is_enrolled, confirmed_enrollment}

module _ (p : Ports) (tenant_id email password : String) (caller : Option String) (w v u : World)
    (session : AuthSession) (sound : IsSound w.auth)
    (done : sign_in_password p tenant_id email password caller w ≡ (ok session, v))
    (own : session.user.tenant_id ≡ tenant_id) (later : u.auth ≡ v.auth)
    (soon : u.now < session.expires_at) where
  abbrev signed : IsSignedIn p tenant_id email password w.auth session v.auth
  signed = sign_in_password-IsSignedIn p tenant_id email password caller w v session done

  opened_later : Opened p tenant_id session.user signed.config (λ x. x ≡ w.auth) session u.auth
  opened_later =
      subst (Opened p tenant_id session.user signed.config (λ x. x ≡ w.auth) session) (sym later)
        signed.opened

  -- The user of the session is found by its own id.
  user_found : find_user_by_id tenant_id session.user.id u.auth ≡ some session.user
  unfolding find_user_by_id
  user_found =
      let opened = opened_later in
      let named =
        sound.users.named (scoped tenant_id signed.credential.user_id) session.user signed.user in
      let users : u.auth.users ≡ w.auth.users =
        ap (λ s. s.users) opened.after ∙ ap (λ s. s.users) opened.earlier in
      let key : scoped tenant_id signed.credential.user_id ≡ scoped tenant_id session.user.id =
        named ∙ ap (λ t. scoped t session.user.id) own in
      rw users (subst (λ k. lookup k w.auth.users ≡ some session.user) key signed.user)

  -- The session that a sign-in answered with is what getSession gives for its token, until it expires,
  -- while the store does not change; the user is one of the tenant's.
  pub get_session-signed_in : get_session p tenant_id session.token u ≡ (ok session, u)
  unfolding get_session
  get_session-signed_in =
      >>=-step (resolve_session p tenant_id session.token) (λ r. pure r.session) u
        (resolve_session-opened p tenant_id session.user signed.config (λ x. x ≡ w.auth) session u
          opened_later user_found soon)

  module _ (hooked : p.second_factor ≡ some is_enrolled) where
    pending-eq :
        opened_later.pending ≡ is_some (confirmed_enrollment tenant_id session.user.id w.auth)
    unfolding is_enrolled
    pending-eq =
        let opened = opened_later in
        let said : is_enrolled opened.before tenant_id session.user.id ≡ ok opened.pending =
          opened.factor is_enrolled hooked in
        let same : opened.before ≡ w.auth = opened.earlier in
        let told : is_enrolled w.auth tenant_id session.user.id ≡ ok opened.pending =
          subst (λ s. is_enrolled s tenant_id session.user.id ≡ ok opened.pending) same said in
        cc

    -- With TotpService.isEnrolled as the hook, a session that a sign-in answered with is refused for
    -- the want of a second factor exactly if its user had a confirmed enrollment at the sign-in, and
    -- may act otherwise: until it expires, while the store does not change.
    pub require_elevated-signed_in : require_elevated_session p tenant_id session.token u ≡ (
      if is_some (confirmed_enrollment tenant_id session.user.id w.auth)
          then err (second_factor_required session.user.id)
          else ok session,
      u,
    )
    unfolding require_elevated_session
    require_elevated-signed_in =
        >>=-step (resolve_session p tenant_id session.token)
          (λ r.
            if is_some p.second_factor && is_none r.elevated_at
            then fail (second_factor_required r.session.user.id)
            else pure r.session)
          u
          (resolve_session-opened p tenant_id session.user signed.config (λ x. x ≡ w.auth) session u
            opened_later user_found soon)
        ∙ elim (Bool-cases opened_later.pending) [
          | inl waits ↦ rw (hooked, ← pending-eq, waits) refl
          | inr acts ↦ rw (hooked, ← pending-eq, acts) refl
        ]
