-- ===== src/Auth/Reach.antt =====
-- What holds in every store that calls of packages/auth/src lead to.
use structure.Prelude.{
  Bool, true, ◌==◌, ◌&&◌, filter, length, ◌≤◌, ◌∙◌, arith, String, ℕ, Option, some, lookup, ◌≡◌,
  sym, subst, text_equality, subst, text_equality,
}
use structure.Auth.Named.{filter-single}
use structure.Auth.Model.{OneTimeTokenPurpose, AuthUser, OneTimeTokenRecord, purpose_text}
use structure.Auth.Ports.{Ports, World}
use structure.Auth.Store.{new_state, find_user_by_email}
use structure.Auth.Invariant.{IsSound, new_state-IsSound}
use structure.Auth.Sessions
use structure.Auth.Password
use structure.Auth.Password.{RegisterPasswordInput}
use structure.Auth.MagicLink
use structure.Auth.Oauth
use structure.Auth.Oauth.{OauthPorts, BeginOauthOptions, CompleteOauthInput}
use structure.Auth.Passkey
use structure.Auth.Passkey.{PasskeyPorts, PasskeyResponse}
use structure.Auth.TwoFactor
use structure.Auth.TwoFactor.{TotpPorts}
use structure.Auth.Soundness
use structure.Auth.Soundness.Passwords
use structure.Auth.Soundness.Identities
use structure.Auth.Soundness.Passkeys
use structure.Auth.Soundness.Factors

-- A call of the service: every operation of makeAuth and of makeTotp.
pub data Call : Type 0 where
  register_password : RegisterPasswordInput → Call
  request_email_verification : String → String → Call
  verify_email : String → String → Call
  sign_in_password : String → String → String → Option String → Call
  request_password_reset : String → String → Call
  reset_password : String → String → String → Call
  change_password : String → String → String → String → Call
  request_magic_link : String → String → Call
  consume_magic_link : String → String → Call
  get_session : String → String → Call
  sign_out : String → String → Call
  revoke_all_sessions : String → String → Call
  begin_oauth : String → String → BeginOauthOptions → Option String → Call
  complete_oauth : CompleteOauthInput → Call
  unlink_oauth_identity : String → String → String → Call
  begin_passkey_registration : String → String → Call
  finish_passkey_registration : String → String → PasskeyResponse → Option String → Call
  begin_passkey_authentication : String → Option String → Option String → Call
  finish_passkey_authentication : String → PasskeyResponse → Option String → Call
  rename_passkey : String → String → String → Option String → Call
  remove_passkey : String → String → String → Call
  begin_enrollment : String → String → Call
  confirm_enrollment : String → String → String → Call
  verify : String → String → String → Call
  unenroll : String → String → String → Call
  reset_second_factor : String → String → String → Call
  session_requires_elevation : String → String → Call

-- Whether a token is one for the tenant, the purpose, and the address.
abbrev pub is_token_for : String → OneTimeTokenPurpose → String → OneTimeTokenRecord → Bool
is_token_for tenant_id purpose email token =
    token.tenant_id == tenant_id
    && (purpose_text token.purpose == purpose_text purpose && token.email == email)

is_token_for-facts :
    (tenant_id : String) (purpose : OneTimeTokenPurpose) (email : String)
    (token : OneTimeTokenRecord)
    → is_token_for tenant_id purpose email token ≡ true
    → (token.tenant_id ≡ tenant_id)
      × ((purpose_text token.purpose ≡ purpose_text purpose) × (token.email ≡ email))
is_token_for-facts tenant_id purpose email token h = ground (
  arith,
  text_equality.same_iff token.tenant_id tenant_id,
  text_equality.same_iff (purpose_text token.purpose) (purpose_text purpose),
  text_equality.same_iff token.email email,
)

module _ (p : Ports) (o : OauthPorts) (k : PasskeyPorts) (t : TotpPorts) where
  -- The world after a call, whatever it answers.
  unfoldable pub serve : Call → World → World
  serve (Call.register_password a) w = (Password.register_password p a w).1
  serve (Call.request_email_verification a b) w = (Password.request_email_verification p a b w).1
  serve (Call.verify_email a b) w = (Password.verify_email p a b w).1
  serve (Call.sign_in_password a b c d) w = (Password.sign_in_password p a b c d w).1
  serve (Call.request_password_reset a b) w = (Password.request_password_reset p a b w).1
  serve (Call.reset_password a b c) w = (Password.reset_password p a b c w).1
  serve (Call.change_password a b c d) w = (Password.change_password p a b c d w).1
  serve (Call.request_magic_link a b) w = (MagicLink.request_magic_link p a b w).1
  serve (Call.consume_magic_link a b) w = (MagicLink.consume_magic_link p a b w).1
  serve (Call.get_session a b) w = (Sessions.get_session p a b w).1
  serve (Call.sign_out a b) w = (Sessions.sign_out p a b w).1
  serve (Call.revoke_all_sessions a b) w = (Sessions.revoke_all_sessions p a b w).1
  serve (Call.begin_oauth a b c d) w = (Oauth.begin_oauth p o a b c d w).1
  serve (Call.complete_oauth a) w = (Oauth.complete_oauth p o a w).1
  serve (Call.unlink_oauth_identity a b c) w = (Oauth.unlink_oauth_identity p o a b c w).1
  serve (Call.begin_passkey_registration a b) w = (Passkey.begin_passkey_registration p a b w).1
  serve (Call.finish_passkey_registration a b c d) w =
      (Passkey.finish_passkey_registration p k a b c d w).1
  serve (Call.begin_passkey_authentication a b c) w =
      (Passkey.begin_passkey_authentication p a b c w).1
  serve (Call.finish_passkey_authentication a b c) w =
      (Passkey.finish_passkey_authentication p k a b c w).1
  serve (Call.rename_passkey a b c d) w = (Passkey.rename_own_passkey p a b c d w).1
  serve (Call.remove_passkey a b c) w = (Passkey.remove_own_passkey p a b c w).1
  serve (Call.begin_enrollment a b) w = (TwoFactor.begin_enrollment p t a b w).1
  serve (Call.confirm_enrollment a b c) w = (TwoFactor.confirm_enrollment p t a b c w).1
  serve (Call.verify a b c) w = (TwoFactor.verify p t a b c w).1
  serve (Call.unenroll a b c) w = (TwoFactor.unenroll p t a b c w).1
  serve (Call.reset_second_factor a b c) w = (TwoFactor.reset_second_factor p t a b c w).1
  serve (Call.session_requires_elevation a b) w = (TwoFactor.session_requires_elevation p t a b w).1

  serve-IsSound : (call : Call) (w : World) → IsSound w.auth → IsSound (serve call w).auth
  unfolding serve
  serve-IsSound (Call.register_password a) w h = (Passwords.register_password-IsSound p a).keep w h
  serve-IsSound (Call.request_email_verification a b) w h =
      (Passwords.request_email_verification-IsSound p a b).keep w h
  serve-IsSound (Call.verify_email a b) w h = (Passwords.verify_email-IsSound p a b).keep w h
  serve-IsSound (Call.sign_in_password a b c d) w h =
      (Passwords.sign_in_password-IsSound p a b c d).keep w h
  serve-IsSound (Call.request_password_reset a b) w h =
      (Passwords.request_password_reset-IsSound p a b).keep w h
  serve-IsSound (Call.reset_password a b c) w h =
      (Passwords.reset_password-IsSound p a b c).keep w h
  serve-IsSound (Call.change_password a b c d) w h =
      (Passwords.change_password-IsSound p a b c d).keep w h
  serve-IsSound (Call.request_magic_link a b) w h =
      (Passwords.request_magic_link-IsSound p a b).keep w h
  serve-IsSound (Call.consume_magic_link a b) w h =
      (Passwords.consume_magic_link-IsSound p a b).keep w h
  serve-IsSound (Call.get_session a b) w h = (Soundness.get_session-IsSound p a b).keep w h
  serve-IsSound (Call.sign_out a b) w h = (Soundness.sign_out-IsSound p a b).keep w h
  serve-IsSound (Call.revoke_all_sessions a b) w h =
      (Soundness.revoke_all_sessions-IsSound p a b).keep w h
  serve-IsSound (Call.begin_oauth a b c d) w h =
      (Identities.begin_oauth-IsSound p o a b c d).keep w h
  serve-IsSound (Call.complete_oauth a) w h = (Identities.complete_oauth-IsSound p o a).keep w h
  serve-IsSound (Call.unlink_oauth_identity a b c) w h =
      (Identities.unlink_oauth_identity-IsSound p o a b c).keep w h
  serve-IsSound (Call.begin_passkey_registration a b) w h =
      (Passkeys.begin_passkey_registration-IsSound p a b).keep w h
  serve-IsSound (Call.finish_passkey_registration a b c d) w h =
      (Passkeys.finish_passkey_registration-IsSound p k a b c d).keep w h
  serve-IsSound (Call.begin_passkey_authentication a b c) w h =
      (Passkeys.begin_passkey_authentication-IsSound p a b c).keep w h
  serve-IsSound (Call.finish_passkey_authentication a b c) w h =
      (Passkeys.finish_passkey_authentication-IsSound p k a b c).keep w h
  serve-IsSound (Call.rename_passkey a b c d) w h =
      (Passkeys.rename_own_passkey-IsSound p a b c d).keep w h
  serve-IsSound (Call.remove_passkey a b c) w h =
      (Passkeys.remove_own_passkey-IsSound p a b c).keep w h
  serve-IsSound (Call.begin_enrollment a b) w h =
      (Factors.begin_enrollment-IsSound p t a b).keep w h
  serve-IsSound (Call.confirm_enrollment a b c) w h =
      (Factors.confirm_enrollment-IsSound p t a b c).keep w h
  serve-IsSound (Call.verify a b c) w h = (Factors.verify-IsSound p t a b c).keep w h
  serve-IsSound (Call.unenroll a b c) w h = (Factors.unenroll-IsSound p t a b c).keep w h
  serve-IsSound (Call.reset_second_factor a b c) w h =
      (Factors.reset_second_factor-IsSound p t a b c).keep w h
  serve-IsSound (Call.session_requires_elevation a b) w h =
      (Factors.session_requires_elevation-IsSound p t a b).keep w h

  -- The worlds that calls lead to from an empty store, at any instants.
  pub data Reach : World → Type 0 where
    begin : (w : World) → w.auth ≡ new_state → Reach w
    called : {w : World} (call : Call) → Reach w → Reach (serve call w)
    waited : {w : World} (now : ℕ) → Reach w → Reach (record w { now = now })

  pub Reach-IsSound : {w : World} → Reach w → IsSound w.auth
  Reach-IsSound (begin w e) = subst IsSound (sym e) new_state-IsSound
  Reach-IsSound (called {w} call r) = serve-IsSound call w (Reach-IsSound r)
  Reach-IsSound (waited now r) = Reach-IsSound r

  -- In every store that calls lead to, by whatever ways users came in, findUserByEmail gives every
  -- user that has an address for it: so a tenant has one user at most with an address.
  pub found_by_address :
      {w : World} (reached : Reach w) (key : String) (user : AuthUser) (email : String)
      → lookup key w.auth.users ≡ some user
      → user.email ≡ some email
      → find_user_by_email user.tenant_id email w.auth ≡ some user
  unfolding find_user_by_email
  found_by_address {w} reached key user email found e =
      let h = Reach-IsSound reached in
      rw (h.indexed key user email found e, find_user_by_email)
        (subst (λ x. lookup x w.auth.users ≡ some user) (h.users.named key user found) found)

  -- In every store that calls lead to, one token at most is stored for a tenant, a purpose, and an
  -- address.
  pub token_single :
      {w : World} (reached : Reach w) (tenant_id : String) (purpose : OneTimeTokenPurpose)
      (email : String)
      → length (filter (λ e. is_token_for tenant_id purpose email e.1) w.auth.tokens) ≤ 1
  token_single {w} reached tenant_id purpose email =
      let h = Reach-IsSound reached in
      filter-single (is_token_for tenant_id purpose email) w.auth.tokens h.tokens.map
        λ one other a b left right for_a for_b.
          let (tenant_a, (purpose_a, email_a)) =
            is_token_for-facts tenant_id purpose email a for_a in
          let (tenant_b, (purpose_b, email_b)) =
            is_token_for-facts tenant_id purpose email b for_b in
          h.single one other a b left right (tenant_a ∙ sym tenant_b) (purpose_a ∙ sym purpose_b)
            (email_a ∙ sym email_b)
