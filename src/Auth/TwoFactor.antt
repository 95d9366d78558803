-- ===== src/Auth/TwoFactor.antt =====
-- makeTotp of packages/auth/src/twofactor.ts over the in-memory store. The sealer of
-- packages/auth/src/sealing.ts, the secrets drawn, and the limiter are parameters.
use structure.Prelude.{
  String, ℕ, Bool, Option, List, Result, [], ◌∷◌, ok, err, some, none, true, false, if◌then◌else◌,
  or_else, ◌+◌, ◌-◌, ◌/◌, max, is_some, text_equality, includes, ltb, suc, zero,
}
use structure.Auth.Model.{
  AuthError, AuthUser, TotpRecord, validation_error, invalid_auth_token, invalid_credentials,
  rate_limit_exceeded,
}
use structure.Auth.Store.{AuthState, find_session, elevate_session}
use structure.Auth.Factors.{
  put_totp_secret, find_totp, confirm_totp, remove_totp, replace_totp_secret, record_totp_failure,
  reset_totp_failures, mark_totp_step_used, consume_recovery_code,
}
use structure.Auth.Ports.{
  Ports, M, pure, fail, lift, asks, takes, writes, present, clock, fail_when, ◌>>=◌, ◌>>◌,
  hash_token, record_audit,
}
use structure.Auth.Sessions.{limit, get_session, audit_user}

-- `match_code` is matchTotpCode, `qr_payload` is totpQrPayload; the n-th secret and the n-th list of
-- recovery codes are those of the n-th draw.
pub record TotpPorts : Type 0 where
  pub threshold : ℕ
  pub cooldown : ℕ
  pub is_sealed : String → Bool
  pub seal : String → Result AuthError String
  pub unseal : String → Result AuthError String
  pub hash_code : String → Result AuthError String
  pub match_entry : String → String → Result AuthError Bool
  pub match_code : String → String → ℕ → Result AuthError (Option ℕ)
  pub is_recovery_code : String → Bool
  pub new_secret : ℕ → String
  pub new_codes : ℕ → List String
  pub qr_payload : String → String → String → String

pub record EnrollmentSecret : Type 0 where
  pub secret_base32 : String
  pub otpauth_url : String

abbrev new_enrollment : String → String → String → ℕ → TotpRecord
new_enrollment tenant_id user_id sealed now = record {
  tenant_id = tenant_id;
  user_id = user_id;
  secret_base32 = sealed;
  confirmed = false;
  recovery_code_hashes = [];
  failed_attempts = 0;
  locked_until = none;
  last_used_step = none;
  enrolled_at = now;
}

abbrev pub confirmed_only : Option TotpRecord → Option TotpRecord
confirmed_only none = none
confirmed_only (some enrollment) = if enrollment.confirmed then some enrollment else none

unfoldable pub confirmed_enrollment : String → String → AuthState → Option TotpRecord
confirmed_enrollment tenant_id user_id s = confirmed_only (find_totp tenant_id user_id s)

-- `Math.max(1, Math.ceil((lockedUntil - now) / 1_000))`
abbrev pub lockout_error : ℕ → ℕ → AuthError
lockout_error locked_until now =
    rate_limit_exceeded "totp-verify" (some (max 1 ((locked_until - now + 999) / 1000)))

-- Fails while the factor is locked.
abbrev pub fail_locked : Option ℕ → M (Unit {0})
fail_locked none = pure tt
fail_locked (some locked_until) =
    clock >>= λ now. fail_when (ltb now locked_until) (lockout_error locked_until now)

abbrev traverse : (String → Result AuthError String) → List String → Result AuthError (List String)
traverse f [] = ok []
traverse f (x ∷ xs) = elim (f x) [
  | err e ↦ err e
  | ok y ↦ elim (traverse f xs) [ err e ↦ err e | ok ys ↦ ok (y ∷ ys) ]
]

-- The draws of a call: how often one was made, which numbers the next.
abbrev pub draws : M ℕ
draws w = (ok w.drawn, record w { drawn = w.drawn + 1 })

module _ (p : Ports) (t : TotpPorts) where
  -- The first stored entry that the code matches; every entry is compared.
  unfoldable pub recovery_entry : String → List String → Result AuthError (Option String)
  recovery_entry code [] = ok none
  recovery_entry code (entry ∷ entries) = elim (t.match_entry code entry) [
    | err e ↦ err e
    | ok matches ↦ elim (recovery_entry code entries) [
      | err e ↦ err e
      | ok later ↦ ok (if matches then some entry else later)
    ]
  ]

  -- The entry is tried again if it is still there: another code was spent meanwhile.
  unfoldable pub after_race : (List String → M Bool) → String → Option TotpRecord → M Bool
  after_race again entry none = pure false
  after_race again entry (some current) =
      if includes entry current.recovery_code_hashes
      then again current.recovery_code_hashes
      else pure false

  unfoldable pub after_consume : (List String → M Bool) → String → String → String → Bool → M Bool
  after_consume again tenant_id user_id entry true = pure true
  after_consume again tenant_id user_id entry false =
      asks (find_totp tenant_id user_id) >>= after_race again entry

  unfoldable pub spend_entry : (List String → M Bool) → String → String → Option String → M Bool
  spend_entry again tenant_id user_id none = pure false
  spend_entry again tenant_id user_id (some entry) =
      takes (consume_recovery_code tenant_id user_id entry)
      >>= after_consume again tenant_id user_id entry

  -- consumeRecoveryCode with the attempts left: 3 at first.
  unfoldable pub consume_code : ℕ → String → String → String → List String → M Bool
  consume_code zero tenant_id user_id code entries = pure false
  consume_code (suc attempts) tenant_id user_id code entries =
      lift (recovery_entry code entries)
      >>= spend_entry (consume_code attempts tenant_id user_id code) tenant_id user_id

  -- A secret stored in the clear is sealed in place.
  unfoldable pub seal_legacy_secret : String → String → String → M (Unit {0})
  seal_legacy_secret tenant_id user_id stored =
      if t.is_sealed stored
      then pure tt
      else (lift (t.seal stored) >>= λ sealed.
          writes (replace_totp_secret tenant_id user_id sealed))

  unfoldable pub session_user : String → String → M AuthUser
  session_user tenant_id session_token =
      get_session p tenant_id session_token >>= λ session. pure session.user

  unfoldable pub begin_enrollment : String → String → M EnrollmentSecret
  unfolding session_user
  begin_enrollment tenant_id session_token = do
    config ← lift (p.resolve_tenant tenant_id)
    limit p tenant_id "totp-enroll" session_token
    user ← session_user tenant_id session_token
    existing ← asks (confirmed_enrollment tenant_id user.id)
    fail_when (is_some existing)
        (validation_error "totp" "is already enrolled; unenroll first to re-enroll")
    n ← draws
    let secret = t.new_secret n
    sealed ← lift (t.seal secret)
    now ← clock
    writes (put_totp_secret (new_enrollment tenant_id user.id sealed now))
    pure (record {
      secret_base32 = secret;
      otpauth_url = t.qr_payload secret (or_else user.email user.id) config.base_url.hostname;
    })

  unfoldable pub confirm_enrollment : String → String → String → M (List String)
  unfolding session_user
  confirm_enrollment tenant_id session_token code = do
    lift (p.resolve_tenant tenant_id)
    limit p tenant_id "totp-confirm" session_token
    user ← session_user tenant_id session_token
    found ← asks (find_totp tenant_id user.id)
    pending ← present found (invalid_auth_token "totp-enrollment")
    fail_when pending.confirmed (invalid_auth_token "totp-enrollment")
    secret ← lift (t.unseal pending.secret_base32)
    now ← clock
    matched ← lift (t.match_code secret code now)
    step ← present matched (invalid_credentials "totp")
    n ← draws
    hashes ← lift (traverse t.hash_code (t.new_codes n))
    takes (confirm_totp tenant_id user.id hashes now)
    takes (mark_totp_step_used tenant_id user.id step)
    audit_user tenant_id "totp-confirm" (some user.id)
    pure (t.new_codes n)

  unfoldable pub elevate : String → String → String → M (Unit {0})
  elevate tenant_id session_token user_id = do
    token_hash ← hash_token p session_token
    now ← clock
    writes (elevate_session tenant_id token_hash now)
    audit_user tenant_id "totp-verify" (some user_id)

  unfoldable pub report_failure : String → String → ℕ → Option ℕ → M (Unit {0})
  report_failure tenant_id user_id now none = fail (invalid_credentials "totp")
  report_failure tenant_id user_id now (some until) =
      audit_user tenant_id "totp-locked" (some user_id) >> fail (lockout_error until now)

  -- A rejected code: one failure more, and the lock once the threshold is reached.
  unfoldable pub reject_code : String → String → M (Unit {0})
  reject_code tenant_id user_id = do
    now ← clock
    locked ← takes (record_totp_failure tenant_id user_id t.threshold t.cooldown now)
    report_failure tenant_id user_id now locked

  -- Whether the step is a code's, and is now marked.
  unfoldable pub claim_step : String → String → Option ℕ → M Bool
  claim_step tenant_id user_id none = pure false
  claim_step tenant_id user_id (some step) = takes (mark_totp_step_used tenant_id user_id step)

  unfoldable pub claim_recovery : String → String → List String → String → M Bool
  claim_recovery tenant_id user_id entries code =
      if t.is_recovery_code code then consume_code 3 tenant_id user_id code entries else pure false

  unfoldable pub accept : String → String → TotpRecord → String → M (Unit {0})
  accept tenant_id session_token enrollment user_id = do
    seal_legacy_secret tenant_id user_id enrollment.secret_base32
    writes (reset_totp_failures tenant_id user_id)
    elevate tenant_id session_token user_id

  -- The enrollment that a code is checked against, past the lock, and the code's step.
  unfoldable pub open_enrollment : String → String → String → M (TotpRecord × Option ℕ)
  open_enrollment tenant_id user_id code = do
    found ← asks (confirmed_enrollment tenant_id user_id)
    enrollment ← present found (invalid_auth_token "totp-enrollment")
    fail_locked enrollment.locked_until
    secret ← lift (t.unseal enrollment.secret_base32)
    now ← clock
    step ← lift (t.match_code secret code now)
    pure (enrollment, step)

  unfoldable pub after_recovery : String → String → String → TotpRecord → Bool → M (Unit {0})
  after_recovery tenant_id session_token user_id enrollment true =
      accept tenant_id session_token enrollment user_id
  after_recovery tenant_id session_token user_id enrollment false = reject_code tenant_id user_id

  unfoldable pub after_step : String → String → String → String → TotpRecord → Bool → M (Unit {0})
  after_step tenant_id session_token user_id code enrollment true =
      accept tenant_id session_token enrollment user_id
  after_step tenant_id session_token user_id code enrollment false =
      claim_recovery tenant_id user_id enrollment.recovery_code_hashes code
      >>= after_recovery tenant_id session_token user_id enrollment

  unfoldable pub settle_verify :
      String → String → String → String → TotpRecord × Option ℕ → M (Unit {0})
  settle_verify tenant_id session_token user_id code (enrollment, step) =
      claim_step tenant_id user_id step
      >>= after_step tenant_id session_token user_id code enrollment

  unfoldable pub verify : String → String → String → M (Unit {0})
  unfolding session_user
  verify tenant_id session_token code = do
    lift (p.resolve_tenant tenant_id)
    limit p tenant_id "totp-verify" session_token
    user ← session_user tenant_id session_token
    opened ← open_enrollment tenant_id user.id code
    settle_verify tenant_id session_token user.id code opened

  -- A step decides alone where the code has one.
  abbrev pub accepted : String → String → String → TotpRecord × Option ℕ → M Bool
  accepted tenant_id user_id code (enrollment, some step) = claim_step tenant_id user_id (some step)
  accepted tenant_id user_id code (enrollment, none) =
      claim_recovery tenant_id user_id enrollment.recovery_code_hashes code

  unfoldable pub unenroll : String → String → String → M (Unit {0})
  unfolding session_user
  unenroll tenant_id session_token code = do
    lift (p.resolve_tenant tenant_id)
    limit p tenant_id "totp-unenroll" session_token
    user ← session_user tenant_id session_token
    opened ← open_enrollment tenant_id user.id code
    passed ← accepted tenant_id user.id code opened
    if passed then pure tt else reject_code tenant_id user.id
    writes (remove_totp tenant_id user.id)
    audit_user tenant_id "totp-unenroll" (some user.id)

  abbrev pub drop_factor : String → String → String → Option TotpRecord → M (Unit {0})
  drop_factor tenant_id user_id actor none = pure tt
  drop_factor tenant_id user_id actor (some enrollment) =
      writes (remove_totp tenant_id user_id)
      >> record_audit (record {
        tenant_id = tenant_id;
        action = "totp-reset";
        user_id = some user_id;
        provider = none;
        actor = some actor;
      })

  unfoldable pub reset_second_factor : String → String → String → M (Unit {0})
  reset_second_factor tenant_id user_id actor = do
    lift (p.resolve_tenant tenant_id)
    found ← asks (find_totp tenant_id user_id)
    drop_factor tenant_id user_id actor found

  unfoldable pub session_requires_elevation : String → String → M Bool
  session_requires_elevation tenant_id session_token = do
    lift (p.resolve_tenant tenant_id)
    token_hash ← hash_token p session_token
    now ← clock
    found ← takes (find_session tenant_id token_hash now)
    session ← present found (invalid_credentials "session")
    enrollment ← asks (confirmed_enrollment tenant_id session.user_id)
    if is_some session.elevated_at then pure false else pure (is_some enrollment)

-- TotpService.isEnrolled, as the second-factor hook of makeAuth
unfoldable pub is_enrolled : AuthState → String → String → Result AuthError Bool
is_enrolled s tenant_id user_id = ok (is_some (confirmed_enrollment tenant_id user_id s))
