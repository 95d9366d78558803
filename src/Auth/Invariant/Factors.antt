-- ===== src/Auth/Invariant/Factors.antt =====
-- The operations on external identities, passkeys, and the second factor keep the store sound.
use structure.Prelude.{
  ◌≡◌, refl, String, ℕ, Option, List, some, none, lookup, has, Option-cases, Bool-cases, inl, inr,
  leb, not, ◌==◌, ◌+◌, if◌then◌else◌, includes, filter, text_equality, nat_equality, insert, true,
  ◌∙◌, sym,
}
use structure.Auth.Model.{
  OauthIdentity, TotpRecord, OauthStateRecord, PasskeyChallengeRecord, PasskeyRecord,
  PasskeyChallengePurpose, challenge_text,
}
use structure.Auth.Store.{AuthState, scoped, token_key}
use structure.Auth.Factors.{
  put_oauth_state, consume_oauth_state, add_oauth_identity, linked, remove_oauth_identity,
  put_passkey_challenge, consume_passkey_challenge, add_passkey, rename_passkey, remove_passkey,
  update_passkey_counter, put_totp_secret, confirm_totp, remove_totp, replace_totp_secret,
  record_totp_failure, reset_totp_failures, mark_totp_step_used, consume_recovery_code, is_replay,
}
use structure.Auth.Named.{insert-IsNamed, delete-IsNamed, filter-IsNamed}
use structure.Auth.Invariant.{
  IsSound, state_name, identity_name, challenge_name, passkey_name, totp_name,
}

-- A change of one table, written at the key of the value that stood there.
module _ {s : AuthState} (h : IsSound s) where
  pub passkey_change-IsSound :
      (key : String) (current changed : PasskeyRecord)
      → lookup key s.passkeys ≡ some current
      → passkey_name changed ≡ passkey_name current
      → IsSound (record s { passkeys = insert key changed s.passkeys })
  passkey_change-IsSound key current changed found e =
      let named : key ≡ passkey_name changed = h.passkeys.named key current found ∙ sym e in
      search (insert-IsNamed passkey_name key changed s.passkeys named h.passkeys)

  pub totp_change-IsSound :
      (key : String) (current changed : TotpRecord)
      → lookup key s.totp ≡ some current
      → totp_name changed ≡ totp_name current
      → IsSound (record s { totp = insert key changed s.totp })
  totp_change-IsSound key current changed found e =
      let named : key ≡ totp_name changed = h.totp.named key current found ∙ sym e in
      search (insert-IsNamed totp_name key changed s.totp named h.totp)

pub put_oauth_state-IsSound :
    (fresh : OauthStateRecord) {s : AuthState} → IsSound s → IsSound (put_oauth_state fresh s)
unfolding put_oauth_state
put_oauth_state-IsSound fresh {s} h =
    search (insert-IsNamed state_name (state_name fresh) fresh s.oauth_states refl h.oauth_states)

pub put_passkey_challenge-IsSound :
    (fresh : PasskeyChallengeRecord) {s : AuthState}
    → IsSound s
    → IsSound (put_passkey_challenge fresh s)
unfolding put_passkey_challenge
put_passkey_challenge-IsSound fresh {s} h = search (
    insert-IsNamed challenge_name (challenge_name fresh) fresh s.passkey_challenges refl
      h.passkey_challenges)

pub put_totp_secret-IsSound :
    (fresh : TotpRecord) {s : AuthState} → IsSound s → IsSound (put_totp_secret fresh s)
unfolding put_totp_secret
put_totp_secret-IsSound fresh {s} h =
    search (insert-IsNamed totp_name (totp_name fresh) fresh s.totp refl h.totp)

pub add_oauth_identity-IsSound :
    (fresh : OauthIdentity) {s : AuthState} → IsSound s → IsSound (add_oauth_identity fresh s).1
unfolding add_oauth_identity
add_oauth_identity-IsSound fresh {s} h =
    elim (Bool-cases (has (identity_name fresh) s.oauth_identities)) [
      | inl taken ↦ rw (taken, add_oauth_identity) h
      | inr free ↦
          rw (free, add_oauth_identity)
            (search (
              insert-IsNamed identity_name (identity_name fresh) fresh s.oauth_identities refl
                h.oauth_identities))
    ]

pub add_passkey-IsSound :
    (fresh : PasskeyRecord) {s : AuthState} → IsSound s → IsSound (add_passkey fresh s).1
unfolding add_passkey
add_passkey-IsSound fresh {s} h = elim (Bool-cases (has (passkey_name fresh) s.passkeys)) [
  | inl taken ↦ rw (taken, add_passkey) h
  | inr free ↦
      rw (free, add_passkey)
        (search (insert-IsNamed passkey_name (passkey_name fresh) fresh s.passkeys refl h.passkeys))
]

pub consume_oauth_state-IsSound :
    (tenant_id hash : String) (now : ℕ) {s : AuthState}
    → IsSound s
    → IsSound (consume_oauth_state tenant_id hash now s).1
unfolding consume_oauth_state
consume_oauth_state-IsSound tenant_id hash now {s} h =
    search (delete-IsNamed state_name (scoped tenant_id hash) s.oauth_states)

pub consume_passkey_challenge-IsSound :
    (tenant_id : String) (purpose : PasskeyChallengePurpose) (hash : String) (now : ℕ)
    {s : AuthState}
    → IsSound s
    → IsSound (consume_passkey_challenge tenant_id purpose hash now s).1
unfolding consume_passkey_challenge
consume_passkey_challenge-IsSound tenant_id purpose hash now {s} h = search (
    delete-IsNamed challenge_name (token_key tenant_id (challenge_text purpose) hash)
      s.passkey_challenges)

pub remove_oauth_identity-IsSound :
    (tenant_id user_id provider : String) {s : AuthState}
    → IsSound s
    → IsSound (remove_oauth_identity tenant_id user_id provider s)
unfolding remove_oauth_identity
remove_oauth_identity-IsSound tenant_id user_id provider {s} h = search (
    filter-IsNamed identity_name (λ i. not (linked tenant_id user_id provider i))
      s.oauth_identities)

pub remove_totp-IsSound :
    (tenant_id user_id : String) {s : AuthState}
    → IsSound s
    → IsSound (remove_totp tenant_id user_id s)
unfolding remove_totp
remove_totp-IsSound tenant_id user_id {s} h =
    search (delete-IsNamed totp_name (scoped tenant_id user_id) s.totp)

pub confirm_totp-IsSound :
    (tenant_id user_id : String) (hashes : List String) (now : ℕ) {s : AuthState}
    → IsSound s
    → IsSound (confirm_totp tenant_id user_id hashes now s).1
unfolding confirm_totp
confirm_totp-IsSound tenant_id user_id hashes now {s} h =
    elim (Option-cases (lookup (scoped tenant_id user_id) s.totp)) [
      | inl missing ↦ rw (missing, confirm_totp) h
      | inr (current, found) ↦ elim (Bool-cases (current.confirmed)) [
        | inl b ↦ rw (found, b, confirm_totp) h
        | inr b ↦
            rw (found, b, confirm_totp)
              (totp_change-IsSound h (scoped tenant_id user_id) current
                (record current {
                  confirmed = true;
                  recovery_code_hashes = hashes;
                  failed_attempts = 0;
                  enrolled_at = now;
                })
                found refl)
      ]
    ]

pub replace_totp_secret-IsSound :
    (tenant_id user_id secret : String) {s : AuthState}
    → IsSound s
    → IsSound (replace_totp_secret tenant_id user_id secret s)
unfolding replace_totp_secret
replace_totp_secret-IsSound tenant_id user_id secret {s} h =
    elim (Option-cases (lookup (scoped tenant_id user_id) s.totp)) [
      | inl missing ↦ rw (missing, replace_totp_secret) h
      | inr (current, found) ↦
          rw (found, replace_totp_secret)
            (totp_change-IsSound h (scoped tenant_id user_id) current
              (record current { secret_base32 = secret }) found refl)
    ]

pub reset_totp_failures-IsSound :
    (tenant_id user_id : String) {s : AuthState}
    → IsSound s
    → IsSound (reset_totp_failures tenant_id user_id s)
unfolding reset_totp_failures
reset_totp_failures-IsSound tenant_id user_id {s} h =
    elim (Option-cases (lookup (scoped tenant_id user_id) s.totp)) [
      | inl missing ↦ rw (missing, reset_totp_failures) h
      | inr (current, found) ↦
          rw (found, reset_totp_failures)
            (totp_change-IsSound h (scoped tenant_id user_id) current
              (record current { failed_attempts = 0; locked_until = none }) found refl)
    ]

pub record_totp_failure-IsSound :
    (tenant_id user_id : String) (threshold cooldown now : ℕ) {s : AuthState}
    → IsSound s
    → IsSound (record_totp_failure tenant_id user_id threshold cooldown now s).1
unfolding record_totp_failure
record_totp_failure-IsSound tenant_id user_id threshold cooldown now {s} h =
    elim (Option-cases (lookup (scoped tenant_id user_id) s.totp)) [
      | inl missing ↦ rw (missing, record_totp_failure) h
      | inr (current, found) ↦
          rw (found, record_totp_failure)
            (totp_change-IsSound h (scoped tenant_id user_id) current
              (record current {
                failed_attempts = current.failed_attempts + 1;
                locked_until =
                    if leb threshold (current.failed_attempts + 1)
                    then some (now + cooldown)
                    else current.locked_until;
              })
              found refl)
    ]

pub mark_totp_step_used-IsSound :
    (tenant_id user_id : String) (step : ℕ) {s : AuthState}
    → IsSound s
    → IsSound (mark_totp_step_used tenant_id user_id step s).1
unfolding mark_totp_step_used
mark_totp_step_used-IsSound tenant_id user_id step {s} h =
    elim (Option-cases (lookup (scoped tenant_id user_id) s.totp)) [
      | inl missing ↦ rw (missing, mark_totp_step_used) h
      | inr (current, found) ↦ elim (Bool-cases (is_replay current.last_used_step step)) [
        | inl b ↦ rw (found, b, mark_totp_step_used) h
        | inr b ↦
            rw (found, b, mark_totp_step_used)
              (totp_change-IsSound h (scoped tenant_id user_id) current
                (record current { last_used_step = some step }) found refl)
      ]
    ]

pub consume_recovery_code-IsSound :
    (tenant_id user_id hash : String) {s : AuthState}
    → IsSound s
    → IsSound (consume_recovery_code tenant_id user_id hash s).1
unfolding consume_recovery_code
consume_recovery_code-IsSound tenant_id user_id hash {s} h =
    elim (Option-cases (lookup (scoped tenant_id user_id) s.totp)) [
      | inl missing ↦ rw (missing, consume_recovery_code) h
      | inr (current, found) ↦ elim (Bool-cases (includes hash current.recovery_code_hashes)) [
        | inr b ↦ rw (found, b, consume_recovery_code) h
        | inl b ↦
            rw (found, b, consume_recovery_code)
              (totp_change-IsSound h (scoped tenant_id user_id) current
                (record current {
                  recovery_code_hashes = filter (λ x. not (x == hash)) current.recovery_code_hashes;
                })
                found refl)
      ]
    ]

pub rename_passkey-IsSound :
    (tenant_id user_id credential_id : String) (label : Option String) {s : AuthState}
    → IsSound s
    → IsSound (rename_passkey tenant_id user_id credential_id label s).1
unfolding rename_passkey
rename_passkey-IsSound tenant_id user_id credential_id label {s} h =
    elim (Option-cases (lookup (scoped tenant_id credential_id) s.passkeys)) [
      | inl missing ↦ rw (missing, rename_passkey) h
      | inr (current, found) ↦ elim (Bool-cases (current.user_id == user_id)) [
        | inr b ↦ rw (found, b, rename_passkey) h
        | inl b ↦
            rw (found, b, rename_passkey)
              (passkey_change-IsSound h (scoped tenant_id credential_id) current
                (record current { label = label }) found refl)
      ]
    ]

pub update_passkey_counter-IsSound :
    (tenant_id credential_id : String) (expected counter : ℕ) {s : AuthState}
    → IsSound s
    → IsSound (update_passkey_counter tenant_id credential_id expected counter s).1
unfolding update_passkey_counter
update_passkey_counter-IsSound tenant_id credential_id expected counter {s} h =
    elim (Option-cases (lookup (scoped tenant_id credential_id) s.passkeys)) [
      | inl missing ↦ rw (missing, update_passkey_counter) h
      | inr (current, found) ↦ elim (Bool-cases (current.counter == expected)) [
        | inr b ↦ rw (found, b, update_passkey_counter) h
        | inl b ↦
            rw (found, b, update_passkey_counter)
              (passkey_change-IsSound h (scoped tenant_id credential_id) current
                (record current { counter = counter }) found refl)
      ]
    ]

pub remove_passkey-IsSound :
    (tenant_id user_id credential_id : String) {s : AuthState}
    → IsSound s
    → IsSound (remove_passkey tenant_id user_id credential_id s).1
unfolding remove_passkey
remove_passkey-IsSound tenant_id user_id credential_id {s} h =
    elim (Option-cases (lookup (scoped tenant_id credential_id) s.passkeys)) [
      | inl missing ↦ rw (missing, remove_passkey) h
      | inr (current, found) ↦ elim (Bool-cases (current.user_id == user_id)) [
        | inl own ↦
            rw (found, own, remove_passkey)
              (search (delete-IsNamed passkey_name (scoped tenant_id credential_id) s.passkeys))
        | inr other ↦ rw (found, other, remove_passkey) h
      ]
    ]
