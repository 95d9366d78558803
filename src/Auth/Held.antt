-- ===== src/Auth/Held.antt =====
-- What session_user and open_enrollment of packages/auth/src/twofactor.ts have read where they succeed,
-- and what the limit leaves.
use structure.Prelude.{
  String, ℕ, Option, Result, ok, err, some, none, ◌≡◌, sym, subst, ap, ◌∙◌, lookup, arith, ◌<◌,
  ◌++◌, [], ◌∷◌, text_equality,
}
use structure.Auth.Model.{
  AuthError, AuthUser, SessionRecord, TotpRecord, invalid_auth_token, invalid_credentials,
}
use structure.Auth.Store.{AuthState, scoped, find_session, find_user_by_id}
use structure.Auth.Ports.{Ports, World, pure, lift, RateLimitRequest, charge}
use structure.Auth.Inversion.{>>=-ok}
use structure.Auth.Sessions.{limit, resolve_session, get_session, ResolvedSession}
use structure.Auth.TwoFactor.{TotpPorts, session_user, confirmed_enrollment, open_enrollment}
use structure.Auth.Reads.{
  Reads, Reads-bind, Reads-lift, Reads-present, Reads-asks, Reads-takes, Reads-clock, Reads-pure,
  Reads-fail_locked,
}

-- A charge that is let through changes neither the store nor the clock.
charge_same :
    (o : Option AuthError) (w v : World) (a : Unit {0})
    → (elim o as (λ _. Result AuthError (Unit {0}) × World) [
      | none ↦ (ok tt, w)
      | some e ↦ (err e, w)
    ])
      ≡ (ok a, v)
    → w ≡ v
charge_same none w v a e = ap (λ x. x.1) e
charge_same (some x) w v a e = ap (λ x. x.1) e

pub limit_same :
    (p : Ports) (tenant_id action key : String) (w v : World) (a : Unit {0})
    → limit p tenant_id action key w ≡ (ok a, v)
    → (v.auth ≡ w.auth) × (v.now ≡ w.now)
unfolding limit
limit_same p tenant_id action key w v a e =
    let (hash, u, hashed, charged) =
      >>=-ok (lift (p.hash_token key))
        (λ hash. charge p (record { tenant_id = tenant_id; action = action; key_hash = hash })) w
        e in
    let request : RateLimitRequest = record {
      tenant_id = tenant_id;
      action = action;
      key_hash = hash;
    } in
    let begun : w ≡ u = ap (λ x. x.1) hashed in
    let ended =
      charge_same (p.check u.charged request) (record u { charged = u.charged ++ request ∷ [] }) v a
        charged in
    (
      sym (ap (λ (x : World). x.auth) begun ∙ ap (λ (x : World). x.auth) ended),
      sym (ap (λ (x : World). x.now) begun ∙ ap (λ (x : World). x.now) ended),
    )

-- The session that the token stands for is the user's, and live.
pub record IsHeld (p : Ports) (tenant_id token : String) (w : World) (user : AuthUser)
    : Type 0 where
  pub hash : String
  pub session : SessionRecord
  pub hashed : p.hash_token token ≡ ok hash
  pub found : lookup (scoped tenant_id hash) w.auth.sessions ≡ some session
  pub live : w.now < session.expires_at
  pub holder : find_user_by_id tenant_id session.user_id w.auth ≡ some user

found_live :
    (tenant_id hash : String) (now : ℕ) (before s : AuthState) (session : SessionRecord)
    → find_session tenant_id hash now before ≡ (some session, s)
    → (s ≡ before)
      × ((lookup (scoped tenant_id hash) before.sessions ≡ some session)
          × (now < session.expires_at))
unfolding find_session
found_live tenant_id hash now before s session e = ground arith

module _ (p : Ports) (tenant_id token : String) (w : World) where
  resolve_session-IsHeld :
      Reads w w (resolve_session p tenant_id token) (λ r. IsHeld p tenant_id token w r.session.user)
  unfolding resolve_session
  resolve_session-IsHeld = Reads-lift w (p.hash_token token) _ λ hash hashed.
      Reads-clock w _ λ now at. Reads-takes w (find_session tenant_id hash now) _ λ found s taken.
        Reads-present w found (invalid_credentials "session") _ λ session is.
          let (same, (stored, live)) =
            found_live tenant_id hash now w.auth s session (taken ∙ ap (λ o. (o, s)) is) in
          Reads-asks w (find_user_by_id tenant_id session.user_id) _ λ known known_is.
            Reads-present w known (invalid_credentials "session-user") _ λ user is_user.
              ends s same
                (record {
                  session = record { token = token; user = user; expires_at = session.expires_at };
                  elevated_at = session.elevated_at;
                })
                (record {
                  hash = hash;
                  session = session;
                  hashed = hashed;
                  found = stored;
                  live = subst (λ n. n < session.expires_at) (sym at) live;
                  holder =
                      ap (find_user_by_id tenant_id session.user_id) (sym same)
                      ∙ known_is
                      ∙ is_user;
                })
    where
      ends :
          (s : AuthState)
          → s ≡ w.auth
          → (r : ResolvedSession) → IsHeld p tenant_id token w r.session.user
          → Reads w
              (record w { auth = s })
              (pure r)
              (λ r. IsHeld p tenant_id token w r.session.user)
      ends s same r held =
          subst
            (λ x.
              Reads w (record w { auth = x }) (pure r)
                (λ r. IsHeld p tenant_id token w r.session.user))
            (sym same) (Reads-pure w r held)

  session_user-Reads :
      (t : TotpPorts) → Reads w w (session_user p t tenant_id token) (IsHeld p tenant_id token w)
  unfolding session_user get_session
  session_user-Reads t =
      Reads-bind w _ _
        (Reads-bind w _ _ resolve_session-IsHeld λ r held. Reads-pure w r.session held)
        λ session held. Reads-pure w session.user held

  pub session_user-IsHeld :
      (t : TotpPorts) (user : AuthUser) (v : World)
      → session_user p t tenant_id token w ≡ (ok user, v)
      → (v ≡ w) × IsHeld p tenant_id token w user
  session_user-IsHeld t user v e = (session_user-Reads t).reads user v e

-- The enrollment that a code is checked against is the user's, confirmed, and the step is the one
-- that the code has at the clock.
pub record IsOpen (t : TotpPorts) (tenant_id user_id code : String) (w : World)
    (opened : TotpRecord × Option ℕ) : Type 0 where
  pub secret : String
  pub enrolled : confirmed_enrollment tenant_id user_id w.auth ≡ some opened.0
  pub unsealed : t.unseal opened.0.secret_base32 ≡ ok secret
  pub matched : t.match_code secret code w.now ≡ ok opened.1

open_enrollment-Reads :
    (p : Ports) (t : TotpPorts) (tenant_id user_id code : String) (w : World)
    → Reads w w (open_enrollment p t tenant_id user_id code) (IsOpen t tenant_id user_id code w)
unfolding open_enrollment
open_enrollment-Reads p t tenant_id user_id code w =
    Reads-asks w (confirmed_enrollment tenant_id user_id) _ λ found is.
      Reads-present w found (invalid_auth_token "totp-enrollment") _ λ enrollment enrolled.
        Reads-fail_locked w enrollment.locked_until _ (
          Reads-lift w (t.unseal enrollment.secret_base32) _ λ secret unsealed.
            Reads-clock w _ λ now at. Reads-lift w (t.match_code secret code now) _ λ step matched.
              Reads-pure w (enrollment, step)
                (record {
                  secret = secret;
                  enrolled = is ∙ enrolled;
                  unsealed = unsealed;
                  matched = ap (t.match_code secret code) at ∙ matched;
                }))

pub open_enrollment-IsOpen :
    (p : Ports) (t : TotpPorts) (tenant_id user_id code : String) (w v : World)
    (opened : TotpRecord × Option ℕ)
    → open_enrollment p t tenant_id user_id code w ≡ (ok opened, v)
    → (v ≡ w) × IsOpen t tenant_id user_id code w opened
open_enrollment-IsOpen p t tenant_id user_id code w v opened e =
    (open_enrollment-Reads p t tenant_id user_id code w).reads opened v e
