-- ===== src/Auth/Soundness/Factors.antt =====
-- Every call of packages/auth/src/twofactor.ts keeps the store sound.
use structure.Prelude.{String, ℕ, Bool, Option, List, some, none, true, false, suc, zero}
use structure.Auth.Model.{TotpRecord}
use structure.Auth.Ports.{Ports, M}
use structure.Auth.Keeps.{Keeps, keeps}
use structure.Auth.Invariant.{IsSound}
use structure.Auth.Invariant.Users.{find_session-IsSound, elevate_session-IsSound}
use structure.Auth.Invariant.Factors.{
  put_totp_secret-IsSound, confirm_totp-IsSound, remove_totp-IsSound, replace_totp_secret-IsSound,
  record_totp_failure-IsSound, reset_totp_failures-IsSound, mark_totp_step_used-IsSound,
  consume_recovery_code-IsSound,
}
use structure.Auth.Soundness.{limit-IsSound, get_session-IsSound}
use structure.Auth.TwoFactor.{
  TotpPorts, after_race, after_consume, spend_entry, consume_code, seal_legacy_secret, session_user,
  begin_enrollment, confirm_enrollment, elevate, report_failure, reject_code, claim_step,
  claim_recovery, accept, open_enrollment, after_recovery, after_step, settle_verify, verify,
  accepted, unenroll, drop_factor, reset_second_factor, session_requires_elevation, fail_locked,
  draws,
}

fail_locked-IsSound : (o : Option ℕ) → Keeps IsSound (fail_locked o)
fail_locked-IsSound none = search keeps
fail_locked-IsSound (some until) = search keeps

draws-IsSound : Keeps IsSound draws
draws-IsSound = record { keep = λ w h. h }

module _ (p : Ports) (t : TotpPorts) where
  module _ (again : List String → M Bool)
      (kept : (entries : List String) → Keeps IsSound (again entries)) where
    after_race-IsSound :
        (entry : String) (current : Option TotpRecord)
        → Keeps IsSound (after_race p t again entry current)
    unfolding after_race
    after_race-IsSound entry none = search keeps
    after_race-IsSound entry (some current) = search keeps

    after_consume-IsSound :
        (tenant_id user_id entry : String) (done : Bool)
        → Keeps IsSound (after_consume p t again tenant_id user_id entry done)
    unfolding after_consume
    after_consume-IsSound tenant_id user_id entry true = search keeps
    after_consume-IsSound tenant_id user_id entry false = search (keeps, after_race-IsSound)

    spend_entry-IsSound :
        (tenant_id user_id : String) (entry : Option String)
        → Keeps IsSound (spend_entry p t again tenant_id user_id entry)
    unfolding spend_entry
    spend_entry-IsSound tenant_id user_id none = search keeps
    spend_entry-IsSound tenant_id user_id (some entry) =
        search (keeps, consume_recovery_code-IsSound, after_consume-IsSound)

  consume_code-IsSound :
      (attempts : ℕ) (tenant_id user_id code : String) (entries : List String)
      → Keeps IsSound (consume_code p t attempts tenant_id user_id code entries)
  unfolding consume_code
  consume_code-IsSound zero tenant_id user_id code entries = search keeps
  consume_code-IsSound (suc attempts) tenant_id user_id code entries =
      let kept = consume_code-IsSound attempts tenant_id user_id code in
      search (keeps, spend_entry-IsSound (consume_code p t attempts tenant_id user_id code) kept)

  report_failure-IsSound :
      (tenant_id user_id : String) (now : ℕ) (locked : Option ℕ)
      → Keeps IsSound (report_failure p t tenant_id user_id now locked)
  unfolding report_failure
  report_failure-IsSound tenant_id user_id now none = search keeps
  report_failure-IsSound tenant_id user_id now (some until) = search keeps

  claim_step-IsSound :
      (tenant_id user_id : String) (step : Option ℕ)
      → Keeps IsSound (claim_step p t tenant_id user_id step)
  unfolding claim_step
  claim_step-IsSound tenant_id user_id none = search keeps
  claim_step-IsSound tenant_id user_id (some step) = search (keeps, mark_totp_step_used-IsSound)

  claim_recovery-IsSound :
      (tenant_id user_id : String) (entries : List String) (code : String)
      → Keeps IsSound (claim_recovery p t tenant_id user_id entries code)
  unfolding claim_recovery
  claim_recovery-IsSound tenant_id user_id entries code =
      search (keeps, consume_code-IsSound) depth 60

  seal_legacy_secret-IsSound :
      (tenant_id user_id held : String)
      → Keeps IsSound (seal_legacy_secret p t tenant_id user_id held)
  unfolding seal_legacy_secret
  seal_legacy_secret-IsSound tenant_id user_id held =
      search (keeps, replace_totp_secret-IsSound) depth 60

  session_user-IsSound :
      (tenant_id token : String) → Keeps IsSound (session_user p t tenant_id token)
  unfolding session_user
  session_user-IsSound tenant_id token = search (keeps, get_session-IsSound) depth 60

  elevate-IsSound :
      (tenant_id token user_id : String) → Keeps IsSound (elevate p t tenant_id token user_id)
  unfolding elevate
  elevate-IsSound tenant_id token user_id = search (keeps, elevate_session-IsSound) depth 60

  reject_code-IsSound :
      (tenant_id user_id : String) → Keeps IsSound (reject_code p t tenant_id user_id)
  unfolding reject_code
  reject_code-IsSound tenant_id user_id =
      search (keeps, record_totp_failure-IsSound, report_failure-IsSound) depth 60

  accept-IsSound :
      (tenant_id token : String) (enrollment : TotpRecord) (user_id : String)
      → Keeps IsSound (accept p t tenant_id token enrollment user_id)
  unfolding accept
  accept-IsSound tenant_id token enrollment user_id =
      search (keeps, seal_legacy_secret-IsSound, reset_totp_failures-IsSound, elevate-IsSound) depth
        60

  open_enrollment-IsSound :
      (tenant_id user_id code : String) → Keeps IsSound (open_enrollment p t tenant_id user_id code)
  unfolding open_enrollment
  open_enrollment-IsSound tenant_id user_id code = search (keeps, fail_locked-IsSound) depth 60

  after_recovery-IsSound :
      (tenant_id token user_id : String) (enrollment : TotpRecord) (done : Bool)
      → Keeps IsSound (after_recovery p t tenant_id token user_id enrollment done)
  unfolding after_recovery
  after_recovery-IsSound tenant_id token user_id enrollment true = search accept-IsSound
  after_recovery-IsSound tenant_id token user_id enrollment false = search reject_code-IsSound

  after_step-IsSound :
      (tenant_id token user_id code : String) (enrollment : TotpRecord) (done : Bool)
      → Keeps IsSound (after_step p t tenant_id token user_id code enrollment done)
  unfolding after_step
  after_step-IsSound tenant_id token user_id code enrollment true = search accept-IsSound
  after_step-IsSound tenant_id token user_id code enrollment false =
      search (keeps, claim_recovery-IsSound, after_recovery-IsSound)

  settle_verify-IsSound :
      (tenant_id token user_id code : String) (opened : TotpRecord × Option ℕ)
      → Keeps IsSound (settle_verify p t tenant_id token user_id code opened)
  unfolding settle_verify
  settle_verify-IsSound tenant_id token user_id code (enrollment, step) =
      search (keeps, claim_step-IsSound, after_step-IsSound)

  accepted-IsSound :
      (tenant_id user_id code : String) (opened : TotpRecord × Option ℕ)
      → Keeps IsSound (accepted p t tenant_id user_id code opened)
  accepted-IsSound tenant_id user_id code (enrollment, none) = search claim_recovery-IsSound
  accepted-IsSound tenant_id user_id code (enrollment, some step) = search claim_step-IsSound

  drop_factor-IsSound :
      (tenant_id user_id actor : String) (found : Option TotpRecord)
      → Keeps IsSound (drop_factor p t tenant_id user_id actor found)
  drop_factor-IsSound tenant_id user_id actor none = search keeps
  drop_factor-IsSound tenant_id user_id actor (some enrollment) =
      search (keeps, remove_totp-IsSound)

  pub begin_enrollment-IsSound :
      (tenant_id token : String) → Keeps IsSound (begin_enrollment p t tenant_id token)
  unfolding begin_enrollment
  begin_enrollment-IsSound tenant_id token =
      search (keeps, limit-IsSound, session_user-IsSound, draws-IsSound, put_totp_secret-IsSound)
        depth 60

  pub confirm_enrollment-IsSound :
      (tenant_id token code : String) → Keeps IsSound (confirm_enrollment p t tenant_id token code)
  unfolding confirm_enrollment
  confirm_enrollment-IsSound tenant_id token code =
      search
        (
          keeps, limit-IsSound, session_user-IsSound, draws-IsSound, confirm_totp-IsSound,
          mark_totp_step_used-IsSound,
        )
        depth 60

  pub verify-IsSound :
      (tenant_id token code : String) → Keeps IsSound (verify p t tenant_id token code)
  unfolding verify
  verify-IsSound tenant_id token code =
      search
        (keeps, limit-IsSound, session_user-IsSound, open_enrollment-IsSound, settle_verify-IsSound)
        depth 60

  pub unenroll-IsSound :
      (tenant_id token code : String) → Keeps IsSound (unenroll p t tenant_id token code)
  unfolding unenroll
  unenroll-IsSound tenant_id token code =
      search
        (
          keeps, limit-IsSound, session_user-IsSound, open_enrollment-IsSound, accepted-IsSound,
          reject_code-IsSound, remove_totp-IsSound,
        )
        depth 60

  pub reset_second_factor-IsSound :
      (tenant_id user_id actor : String)
      → Keeps IsSound (reset_second_factor p t tenant_id user_id actor)
  unfolding reset_second_factor
  reset_second_factor-IsSound tenant_id user_id actor = search (keeps, drop_factor-IsSound) depth 60

  pub session_requires_elevation-IsSound :
      (tenant_id token : String) → Keeps IsSound (session_requires_elevation p t tenant_id token)
  unfolding session_requires_elevation
  session_requires_elevation-IsSound tenant_id token = search (keeps, find_session-IsSound) depth 60
