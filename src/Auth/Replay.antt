-- ===== src/Auth/Replay.antt =====
-- What a code of the second factor that is accepted has gone through.
pub mod Twice
use structure.Prelude.{
  sym, ◌<◌, ◌==◌, ◌⊎◌, String, ℕ, Bool, Option, Result, ok, some, none, true, false, ◌≡◌, refl,
  subst, ap, ◌∙◌, lookup, insert, lookup-insert_self, arith, Bool-cases, inl, inr, Option-cases,
  text_equality, ◌≢◌,
}
use structure.Auth.Model.{AuthUser, AuthError, TotpRecord, invalid_credentials}
use structure.Auth.Store.{find_user_by_id, AuthState, scoped}
use structure.Auth.Factors.{find_totp, mark_totp_step_used, is_replay, record_totp_failure}
use structure.Auth.Ports.{M, ◌>>◌, ◌>>=◌, lift, Ports, World}
use structure.Auth.Keeps.{clock-Keeps}
use structure.Auth.Leads.{Leads, Leads-skip, Leads-then, Leads-takes, Leads-fail}
use structure.Auth.Opened.{audit_user-Keeps}
use structure.Auth.TwoFactor.{
  session_user, open_enrollment, TotpPorts, confirmed_enrollment, settle_verify, claim_step,
  after_step, claim_recovery, after_recovery, reject_code, report_failure, verify, lockout_error,
}
use structure.Auth.Used.{IsUsed, accept-IsUsed}
use structure.Auth.Held.{IsHeld, IsOpen, session_user-IsHeld, open_enrollment-IsOpen, limit_same}
use structure.Auth.Inversion.{>>=-ok}
use structure.Auth.Sessions.{limit}

-- A code that was accepted in the world w: the token stands for a live session of a user, the code is
-- that of a step at w's clock, by the user's confirmed enrollment, the step is later than the last one
-- that was used, and it is now the last.
pub record IsAccepted (p : Ports) (t : TotpPorts) (tenant_id token code : String) (w : World)
    (s : AuthState) : Type 0 where
  pub user : AuthUser
  pub held : IsHeld p tenant_id token w user
  pub enrollment : TotpRecord
  pub secret : String
  pub step : ℕ
  pub enrolled : confirmed_enrollment tenant_id user.id w.auth ≡ some enrollment
  pub unsealed : t.unseal enrollment.secret_base32 ≡ ok secret
  pub matched : t.match_code secret code w.now ≡ ok (some step)
  pub fresh : is_replay enrollment.last_used_step step ≡ false
  pub after : IsUsed tenant_id user.id step s

-- A step that was claimed was no replay, and is the last one now.
claimed :
    (tenant_id user_id : String) (step : ℕ) (before s : AuthState) (enrollment : TotpRecord)
    → confirmed_enrollment tenant_id user_id before ≡ some enrollment
    → mark_totp_step_used tenant_id user_id step before ≡ (true, s)
    → (is_replay enrollment.last_used_step step ≡ false) × IsUsed tenant_id user_id step s
unfolding mark_totp_step_used confirmed_enrollment find_totp
claimed tenant_id user_id step before s enrollment enrolled marked =
    elim (Option-cases (lookup (scoped tenant_id user_id) before.totp)) [
      | inl missing ↦ absurd (ground arith)
      | inr (current, found) ↦ elim (Bool-cases (is_replay current.last_used_step step)) [
        | inl replayed ↦ absurd (ground arith)
        | inr fresh ↦
            let same : current ≡ enrollment = ground arith in
            let changed : TotpRecord = record current { last_used_step = some step } in
            let there : s
                ≡ record before { totp = insert (scoped tenant_id user_id) changed before.totp } =
              ground arith in
            (
              subst (λ (e : TotpRecord). is_replay e.last_used_step step ≡ false) same fresh,
              record {
                enrollment = changed;
                found =
                    rw there (lookup-insert_self (scoped tenant_id user_id) changed before.totp);
                used = refl;
              },
            )
      ]
    ]

module _ (p : Ports) (t : TotpPorts) (tenant_id token code : String)
    (plain : t.is_recovery_code code ≡ false) where
  report_failure-never :
      (P : AuthState → Type 0) (R : Unit {0} → AuthState → Type 0) (user_id : String) (now : ℕ)
      (locked : Option ℕ)
      → Leads P (report_failure p t tenant_id user_id now locked) R
  unfolding report_failure
  report_failure-never P R user_id now none = Leads-fail (invalid_credentials "totp")
  report_failure-never P R user_id now (some until) =
      Leads-then _ _ (audit_user-Keeps P tenant_id "totp-locked" (some user_id))
        (Leads-fail (lockout_error until now))

  reject_code-never :
      (P : AuthState → Type 0) (R : Unit {0} → AuthState → Type 0) (user_id : String)
      → Leads P (reject_code p t tenant_id user_id) R
  unfolding reject_code
  reject_code-never P R user_id = Leads-skip _ _ (clock-Keeps P) λ now.
      Leads-takes (record_totp_failure tenant_id user_id t.threshold t.cooldown now) _
        λ locked. report_failure-never _ R user_id now locked

  -- A code that is not a recovery code is accepted for its step only.
  no_step-never :
      (P : AuthState → Type 0) (R : Unit {0} → AuthState → Type 0) (user_id : String)
      (enrollment : TotpRecord)
      → Leads P (after_step p t tenant_id token user_id code enrollment false) R
  unfolding after_step claim_recovery after_recovery
  no_step-never P R user_id enrollment = rw plain (reject_code-never P R user_id)

  module _ (start : World) (user : AuthUser) (held : IsHeld p tenant_id token start user)
      (enrollment : TotpRecord) where
    after_step-Leads :
        (step : ℕ) (fresh : Bool)
        → IsOpen t tenant_id user.id code start (enrollment, some step)
        → Leads
            (λ s.
              (before : AuthState) × (before ≡ start.auth)
              × (mark_totp_step_used tenant_id user.id step before ≡ (fresh, s)))
            (after_step p t tenant_id token user.id code enrollment fresh)
            (λ _ s. IsAccepted p t tenant_id token code start s)
    unfolding after_step
    after_step-Leads step true opened = record {
      leads = λ w a v (before, is, marked) e.
          let (fresh, used) =
            claimed tenant_id user.id step before w.auth enrollment
              (ap (confirmed_enrollment tenant_id user.id) is ∙ opened.enrolled) marked in
          record {
            user = user;
            held = held;
            enrollment = enrollment;
            secret = opened.secret;
            step = step;
            enrolled = opened.enrolled;
            unsealed = opened.unsealed;
            matched = opened.matched;
            fresh = fresh;
            after =
                subst
                  (λ (x : Result AuthError (Unit {0}) × World).
                    IsUsed tenant_id user.id step x.1.auth)
                  e ((accept-IsUsed tenant_id user.id step p t token enrollment).keep w used);
          };
    }
    after_step-Leads step false opened = no_step-never _ _ user.id enrollment

    settle_verify-Leads :
        (step : Option ℕ)
        → IsOpen t tenant_id user.id code start (enrollment, step)
        → Leads
            (λ s. s ≡ start.auth)
            (settle_verify p t tenant_id token user.id code (enrollment, step))
            (λ _ s. IsAccepted p t tenant_id token code start s)
    unfolding settle_verify claim_step
    settle_verify-Leads none opened = no_step-never _ _ user.id enrollment
    settle_verify-Leads (some step) opened =
        Leads-takes (mark_totp_step_used tenant_id user.id step) _
          λ fresh. after_step-Leads step fresh opened

  -- What verify does once it has the user, and once the limit has let it through.
  abbrev with_user : AuthUser → M (Unit {0})
  with_user user =
      open_enrollment p t tenant_id user.id code >>= settle_verify p t tenant_id token user.id code

  abbrev let_through : M (Unit {0})
  let_through = session_user p t tenant_id token >>= with_user

  checked :
      (u v : World) (a : Unit {0})
      → let_through u ≡ (ok a, v)
      → IsAccepted p t tenant_id token code u v.auth
  checked u v a e =
      let (user, u1, e1, k1) = >>=-ok (session_user p t tenant_id token) with_user u e in
      let (same1, held) = session_user-IsHeld p tenant_id token u t user u1 e1 in
      let (opened, u2, e2, k2) =
        >>=-ok (open_enrollment p t tenant_id user.id code)
          (settle_verify p t tenant_id token user.id code) u1 k1 in
      let (same2, is_open) =
        open_enrollment-IsOpen p t tenant_id user.id code u u2 opened
          (ap (open_enrollment p t tenant_id user.id code) (sym same1) ∙ e2) in
      (settle_verify-Leads u user held opened.0 opened.1 is_open).leads u2 a v
        (ap (λ (x : World). x.auth) same2) k2

-- The charge of the limit is not looked at.
IsAccepted-same :
    (p : Ports) (t : TotpPorts) (tenant_id token code : String) (w u : World) (s : AuthState)
    → u.auth ≡ w.auth
    → u.now ≡ w.now
    → IsAccepted p t tenant_id token code u s
    → IsAccepted p t tenant_id token code w s
IsAccepted-same p t tenant_id token code w u s same_auth same_now h = record {
  user = h.user;
  held = record {
    hash = h.held.hash;
    session = h.held.session;
    hashed = h.held.hashed;
    found =
        ap (λ (x : AuthState). lookup (scoped tenant_id h.held.hash) x.sessions) (sym same_auth)
        ∙ h.held.found;
    live = subst (λ n. n < h.held.session.expires_at) same_now h.held.live;
    holder = ap (find_user_by_id tenant_id h.held.session.user_id) (sym same_auth) ∙ h.held.holder;
  };
  enrollment = h.enrollment;
  secret = h.secret;
  step = h.step;
  enrolled = ap (confirmed_enrollment tenant_id h.user.id) (sym same_auth) ∙ h.enrolled;
  unsealed = h.unsealed;
  matched = ap (t.match_code h.secret code) (sym same_now) ∙ h.matched;
  fresh = h.fresh;
  after = h.after;
}

-- A code that is not a recovery code and that verify accepts is the code of a step at that instant, by
-- the confirmed enrollment of the user whose live session the token stands for; the step is later
-- than the last one that was used, or none was, and it is the last one that was used afterwards.
pub verify-IsAccepted :
    (p : Ports) (t : TotpPorts) (tenant_id token code : String) (w v : World) (a : Unit {0})
    → t.is_recovery_code code ≡ false
    → verify p t tenant_id token code w ≡ (ok a, v)
    → IsAccepted p t tenant_id token code w v.auth
unfolding verify
verify-IsAccepted p t tenant_id token code w v a plain e =
    let limited : M (Unit {0}) =
      limit p tenant_id "totp-verify" token >> let_through p t tenant_id token code plain in
    let (config, u, e1, k1) = >>=-ok (lift (p.resolve_tenant tenant_id)) (λ _. limited) w e in
    let begun : w ≡ u = ap (λ x. x.1) e1 in
    let (done, u2, e2, k2) =
      >>=-ok (limit p tenant_id "totp-verify" token)
        (λ _. let_through p t tenant_id token code plain) u k1 in
    let (same_auth, same_now) = limit_same p tenant_id "totp-verify" token u u2 done e2 in
    IsAccepted-same p t tenant_id token code w u2 v.auth
      (same_auth ∙ ap (λ (x : World). x.auth) (sym begun))
      (same_now ∙ ap (λ (x : World). x.now) (sym begun))
      (checked p t tenant_id token code plain u2 v a k2)
