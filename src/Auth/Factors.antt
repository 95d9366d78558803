-- ===== src/Auth/Factors.antt =====
-- inMemoryAuthStore of packages/auth/src/store.ts: external identities, passkeys, and the second
-- factor.
use structure.Prelude.{
  String, ℕ, Bool, Option, List, lookup, insert, delete, has, filter, map, includes, none, some, ok,
  err, true, false, not, leb, if◌then◌else◌, ◌==◌, ◌&&◌, text_equality, ◌+◌, nat_equality,
}
use structure.Auth.Model.{
  OauthIdentity, TotpRecord, OauthStateRecord, PasskeyChallengeRecord, PasskeyRecord,
  identity_conflict, PasskeyChallengePurpose, challenge_text,
}
use structure.Auth.Store.{AuthState, Reply, scoped, token_key, oauth_key}

unfoldable pub put_oauth_state : OauthStateRecord → AuthState → AuthState
put_oauth_state fresh s = record s {
  oauth_states = insert (scoped fresh.tenant_id fresh.state_hash) fresh s.oauth_states;
}

abbrev live_state : ℕ → Option OauthStateRecord → Option OauthStateRecord
live_state now none = none
live_state now (some found) = if leb found.expires_at now then none else some found

unfoldable pub consume_oauth_state :
    String → String → ℕ → AuthState → Option OauthStateRecord × AuthState
consume_oauth_state tenant_id hash now s =
    let key = scoped tenant_id hash in
    (
      live_state now (lookup key s.oauth_states),
      record s { oauth_states = delete key s.oauth_states },
    )

unfoldable pub find_oauth_identity : String → String → String → AuthState → Option OauthIdentity
find_oauth_identity tenant_id provider subject s =
    lookup (oauth_key tenant_id provider subject) s.oauth_identities

unfoldable pub add_oauth_identity : OauthIdentity → AuthState → Reply Unit
add_oauth_identity identity s =
    let key = oauth_key identity.tenant_id identity.provider identity.subject in
    if has key s.oauth_identities
    then (err (identity_conflict identity.tenant_id "oauth"), s)
    else (ok tt, record s { oauth_identities = insert key identity s.oauth_identities })

abbrev pub linked : String → String → String → OauthIdentity → Bool
linked tenant_id user_id provider identity =
    identity.tenant_id == tenant_id && identity.user_id == user_id && identity.provider == provider

unfoldable pub remove_oauth_identity : String → String → String → AuthState → AuthState
remove_oauth_identity tenant_id user_id provider s = record s {
  oauth_identities = filter (λ e. not (linked tenant_id user_id provider e.1)) s.oauth_identities;
}

unfoldable pub put_passkey_challenge : PasskeyChallengeRecord → AuthState → AuthState
put_passkey_challenge fresh s = record s {
  passkey_challenges =
      insert (token_key fresh.tenant_id (challenge_text fresh.purpose) fresh.challenge_hash) fresh
        s.passkey_challenges;
}

abbrev live_challenge : ℕ → Option PasskeyChallengeRecord → Option PasskeyChallengeRecord
live_challenge now none = none
live_challenge now (some found) = if leb found.expires_at now then none else some found

unfoldable pub consume_passkey_challenge :
    String
    → PasskeyChallengePurpose
    → String
    → ℕ
    → AuthState
    → Option PasskeyChallengeRecord × AuthState
consume_passkey_challenge tenant_id purpose hash now s =
    let key = token_key tenant_id (challenge_text purpose) hash in
    (
      live_challenge now (lookup key s.passkey_challenges),
      record s { passkey_challenges = delete key s.passkey_challenges },
    )

unfoldable pub add_passkey : PasskeyRecord → AuthState → Reply Unit
add_passkey passkey s =
    let key = scoped passkey.tenant_id passkey.credential_id in
    if has key s.passkeys
    then (err (identity_conflict passkey.tenant_id "passkey"), s)
    else (ok tt, record s { passkeys = insert key passkey s.passkeys })

unfoldable pub find_passkey : String → String → AuthState → Option PasskeyRecord
find_passkey tenant_id credential_id s = lookup (scoped tenant_id credential_id) s.passkeys

unfoldable pub list_passkeys : String → String → AuthState → List PasskeyRecord
list_passkeys tenant_id user_id s =
    filter
      (λ (passkey : PasskeyRecord). passkey.tenant_id == tenant_id && passkey.user_id == user_id)
      (map (λ e. e.1) s.passkeys)

unfoldable pub rename_passkey :
    String → String → String → Option String → AuthState → Bool × AuthState
rename_passkey tenant_id user_id credential_id label s =
    let key = scoped tenant_id credential_id in
    elim (lookup key s.passkeys) [
      | none ↦ (false, s)
      | some current ↦ if not (current.user_id == user_id) then (false, s) else (
        true,
        record s { passkeys = insert key (record current { label = label }) s.passkeys },
      )
    ]

unfoldable pub remove_passkey : String → String → String → AuthState → Bool × AuthState
remove_passkey tenant_id user_id credential_id s =
    let key = scoped tenant_id credential_id in
    elim (lookup key s.passkeys) [
      | none ↦ (false, s)
      | some current ↦
          if current.user_id == user_id
          then (true, record s { passkeys = delete key s.passkeys })
          else (false, s)
    ]

unfoldable pub update_passkey_counter : String → String → ℕ → ℕ → AuthState → Reply Unit
update_passkey_counter tenant_id credential_id expected_counter counter s =
    let key = scoped tenant_id credential_id in
    elim (lookup key s.passkeys) [
      | none ↦ (err (identity_conflict tenant_id "passkey-counter"), s)
      | some current ↦
          if not (current.counter == expected_counter)
          then (err (identity_conflict tenant_id "passkey-counter"), s)
          else (
            ok tt,
            record s { passkeys = insert key (record current { counter = counter }) s.passkeys },
          )
    ]

unfoldable pub put_totp_secret : TotpRecord → AuthState → AuthState
put_totp_secret fresh s = record s {
  totp = insert (scoped fresh.tenant_id fresh.user_id) fresh s.totp;
}

unfoldable pub find_totp : String → String → AuthState → Option TotpRecord
find_totp tenant_id user_id s = lookup (scoped tenant_id user_id) s.totp

unfoldable pub confirm_totp :
    String → String → List String → ℕ → AuthState → Option TotpRecord × AuthState
confirm_totp tenant_id user_id recovery_code_hashes now s =
    let key = scoped tenant_id user_id in
    elim (lookup key s.totp) [
      | none ↦ (none, s)
      | some current ↦
          let updated : TotpRecord = record current {
            confirmed = true;
            recovery_code_hashes = recovery_code_hashes;
            failed_attempts = 0;
            enrolled_at = now;
          } in
          if current.confirmed
          then (none, s)
          else (some updated, record s { totp = insert key updated s.totp })
    ]

unfoldable pub remove_totp : String → String → AuthState → AuthState
remove_totp tenant_id user_id s = record s { totp = delete (scoped tenant_id user_id) s.totp }

unfoldable pub replace_totp_secret : String → String → String → AuthState → AuthState
replace_totp_secret tenant_id user_id secret_base32 s =
    let key = scoped tenant_id user_id in
    elim (lookup key s.totp) [
      | none ↦ s
      | some current ↦ record s {
        totp = insert key (record current { secret_base32 = secret_base32 }) s.totp;
      }
    ]

-- The instant until which the failure locks the factor, if it does.
unfoldable pub record_totp_failure : String → String → ℕ → ℕ → ℕ → AuthState → Option ℕ × AuthState
record_totp_failure tenant_id user_id threshold cooldown_millis now s =
    let key = scoped tenant_id user_id in
    elim (lookup key s.totp) [
      | none ↦ (none, s)
      | some current ↦
          let locked : Bool = leb threshold (current.failed_attempts + 1) in
          (
            if locked then some (now + cooldown_millis) else none,
            record s {
              totp =
                  insert key
                    (record current {
                      failed_attempts = current.failed_attempts + 1;
                      locked_until =
                          if locked then some (now + cooldown_millis) else current.locked_until;
                    })
                    s.totp;
            },
          )
    ]

unfoldable pub reset_totp_failures : String → String → AuthState → AuthState
reset_totp_failures tenant_id user_id s =
    let key = scoped tenant_id user_id in
    elim (lookup key s.totp) [
      | none ↦ s
      | some current ↦ record s {
        totp = insert key (record current { failed_attempts = 0; locked_until = none }) s.totp;
      }
    ]

-- `lastUsedStep !== undefined && lastUsedStep >= step`
abbrev pub is_replay : Option ℕ → ℕ → Bool
is_replay none step = false
is_replay (some used) step = leb step used

unfoldable pub mark_totp_step_used : String → String → ℕ → AuthState → Bool × AuthState
mark_totp_step_used tenant_id user_id step s =
    let key = scoped tenant_id user_id in
    elim (lookup key s.totp) [
      | none ↦ (false, s)
      | some current ↦ if is_replay current.last_used_step step then (false, s) else (
        true,
        record s { totp = insert key (record current { last_used_step = some step }) s.totp },
      )
    ]

unfoldable pub consume_recovery_code : String → String → String → AuthState → Bool × AuthState
consume_recovery_code tenant_id user_id code_hash s =
    let key = scoped tenant_id user_id in
    elim (lookup key s.totp) [
      | none ↦ (false, s)
      | some current ↦
          if not (includes code_hash current.recovery_code_hashes) then (false, s) else (
            true,
            record s {
              totp =
                  insert key
                    (record current {
                      recovery_code_hashes =
                          filter (λ hash. not (hash == code_hash)) current.recovery_code_hashes;
                    })
                    s.totp;
            },
          )
    ]
