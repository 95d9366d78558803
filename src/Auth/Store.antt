-- ===== src/Auth/Store.antt =====
-- inMemoryAuthStore of packages/auth/src/store.ts: users, passwords, tokens, and sessions. An
-- operation returns its answer and the new state.
use structure.Prelude.{
  String, ℕ, Bool, Option, Dict, Result, append_text, lookup, insert, delete, has, filter, map,
  none, some, ok, err, true, false, not, leb, if◌then◌else◌, ◌==◌, ◌&&◌, [], text_equality,
  option_equality,
}
use structure.Auth.Model.{
  AuthUser, PasswordCredential, OauthIdentity, SessionRecord, TotpRecord, OneTimeTokenRecord,
  OauthStateRecord, PasskeyChallengeRecord, PasskeyRecord, AuthError, identity_conflict,
  OneTimeTokenPurpose, purpose_text,
}

pub record AuthState : Type 0 where
  pub users : Dict String AuthUser
  pub users_by_email : Dict String String
  pub passwords : Dict String PasswordCredential
  pub tokens : Dict String OneTimeTokenRecord
  pub sessions : Dict String SessionRecord
  pub oauth_states : Dict String OauthStateRecord
  pub oauth_identities : Dict String OauthIdentity
  pub passkey_challenges : Dict String PasskeyChallengeRecord
  pub passkeys : Dict String PasskeyRecord
  pub totp : Dict String TotpRecord

abbrev pub new_state : AuthState
new_state = record {
  users = [];
  users_by_email = [];
  passwords = [];
  tokens = [];
  sessions = [];
  oauth_states = [];
  oauth_identities = [];
  passkey_challenges = [];
  passkeys = [];
  totp = [];
}

-- The parts of a key are joined by the character zero.
unfoldable pub scoped : String → String → String
scoped tenant_id value = append_text tenant_id (append_text "\0" value)

unfoldable pub token_key : String → String → String → String
token_key tenant_id purpose hash =
    append_text tenant_id (append_text "\0" (append_text purpose (append_text "\0" hash)))

unfoldable pub oauth_key : String → String → String → String
oauth_key tenant_id provider subject =
    append_text tenant_id (append_text "\0" (append_text provider (append_text "\0" subject)))

-- A reply and the state after it.
abbrev pub Reply : Type 0 → Type 0
Reply A = Result AuthError A × AuthState

unfoldable pub email_taken : AuthUser → AuthState → Bool
email_taken user s = elim user.email [
  | none ↦ false
  | some email ↦ has (scoped user.tenant_id email) s.users_by_email
]

unfoldable pub assert_user_unique : AuthUser → AuthState → Option AuthError
assert_user_unique user s =
    if has (scoped user.tenant_id user.id) s.users
    then some (identity_conflict user.tenant_id (append_text "user:" user.id))
    else if email_taken user s
    then some (identity_conflict user.tenant_id "email")
    else none

abbrev with_email : AuthUser → Dict String String → Dict String String
with_email user index = elim user.email [
  | none ↦ index
  | some email ↦ insert (scoped user.tenant_id email) user.id index
]

unfoldable pub insert_user : AuthUser → AuthState → AuthState
insert_user user s = record s {
  users = insert (scoped user.tenant_id user.id) user s.users;
  users_by_email = with_email user s.users_by_email;
}

unfoldable pub create_password_user : AuthUser → PasswordCredential → AuthState → Reply Unit
create_password_user user credential s = elim (assert_user_unique user s) [
  | some conflict ↦ (err conflict, s)
  | none ↦
      let password_key = scoped credential.tenant_id credential.email in
      if has password_key s.passwords
      then (err (identity_conflict credential.tenant_id "password-email"), s)
      else (
        ok tt,
        record (insert_user user s) { passwords = insert password_key credential s.passwords },
      )
]

unfoldable pub create_oauth_user : AuthUser → OauthIdentity → AuthState → Reply Unit
create_oauth_user user identity s = elim (assert_user_unique user s) [
  | some conflict ↦ (err conflict, s)
  | none ↦
      let identity_key = oauth_key identity.tenant_id identity.provider identity.subject in
      if has identity_key s.oauth_identities
      then (err (identity_conflict identity.tenant_id "oauth"), s)
      else (
        ok tt,
        record (insert_user user s) {
          oauth_identities = insert identity_key identity s.oauth_identities;
        },
      )
]

unfoldable pub create_magic_link_user : AuthUser → AuthState → Reply Unit
create_magic_link_user user s = elim (assert_user_unique user s) [
  | some conflict ↦ (err conflict, s)
  | none ↦ (ok tt, insert_user user s)
]

unfoldable pub find_user_by_id : String → String → AuthState → Option AuthUser
find_user_by_id tenant_id user_id s = lookup (scoped tenant_id user_id) s.users

unfoldable pub find_user_by_email : String → String → AuthState → Option AuthUser
find_user_by_email tenant_id email s = elim (lookup (scoped tenant_id email) s.users_by_email) [
  | none ↦ none
  | some user_id ↦ lookup (scoped tenant_id user_id) s.users
]

unfoldable pub find_password : String → String → AuthState → Option PasswordCredential
find_password tenant_id email s = lookup (scoped tenant_id email) s.passwords

unfoldable pub set_email_verified : String → String → ℕ → AuthState → Option AuthUser × AuthState
set_email_verified tenant_id user_id now s =
    let key = scoped tenant_id user_id in
    elim (lookup key s.users) [
      | none ↦ (none, s)
      | some current ↦
          let updated : AuthUser = record current { email_verified = true; updated_at = now } in
          (some updated, record s { users = insert key updated s.users })
    ]

abbrev pub of_user : String → String → SessionRecord → Bool
of_user tenant_id user_id session = session.tenant_id == tenant_id && session.user_id == user_id

unfoldable pub revoke_user_sessions : String → String → AuthState → AuthState
revoke_user_sessions tenant_id user_id s = record s {
  sessions = filter (λ e. not (of_user tenant_id user_id e.1)) s.sessions;
}

unfoldable pub rehash : String → String → String → ℕ → PasswordCredential → PasswordCredential
rehash tenant_id user_id password_hash now credential =
    if credential.tenant_id == tenant_id && credential.user_id == user_id
    then record credential { password_hash = password_hash; updated_at = now }
    else credential

unfoldable pub replace_password : String → String → String → ℕ → AuthState → AuthState
replace_password tenant_id user_id password_hash now s = record s {
  passwords = map (λ e. (e.0, rehash tenant_id user_id password_hash now e.1)) s.passwords;
  sessions = filter (λ e. not (of_user tenant_id user_id e.1)) s.sessions;
}

-- The same tenant, purpose, and address: the token that a new one replaces.
abbrev pub replaced_by : OneTimeTokenRecord → OneTimeTokenRecord → Bool
replaced_by fresh existing =
    existing.tenant_id == fresh.tenant_id
    && purpose_text existing.purpose == purpose_text fresh.purpose
    && existing.email == fresh.email

unfoldable pub put_one_time_token : OneTimeTokenRecord → AuthState → AuthState
put_one_time_token fresh s = record s {
  tokens =
      insert (token_key fresh.tenant_id (purpose_text fresh.purpose) fresh.token_hash) fresh
        (filter (λ e. not (replaced_by fresh e.1)) s.tokens);
}

abbrev live_token : ℕ → Option OneTimeTokenRecord → Option OneTimeTokenRecord
live_token now none = none
live_token now (some found) = if leb found.expires_at now then none else some found

unfoldable pub consume_one_time_token :
    String → OneTimeTokenPurpose → String → ℕ → AuthState → Option OneTimeTokenRecord × AuthState
consume_one_time_token tenant_id purpose hash now s =
    let key = token_key tenant_id (purpose_text purpose) hash in
    (live_token now (lookup key s.tokens), record s { tokens = delete key s.tokens })

unfoldable pub create_session : SessionRecord → AuthState → Reply Unit
create_session session s =
    let key = scoped session.tenant_id session.token_hash in
    if has key s.sessions
    then (err (identity_conflict session.tenant_id "session-token"), s)
    else (ok tt, record s { sessions = insert key session s.sessions })

unfoldable pub find_session : String → String → ℕ → AuthState → Option SessionRecord × AuthState
find_session tenant_id hash now s =
    let key = scoped tenant_id hash in
    elim (lookup key s.sessions) [
      | none ↦ (none, s)
      | some session ↦
          if leb session.expires_at now
          then (none, record s { sessions = delete key s.sessions })
          else (some session, s)
    ]

unfoldable pub revoke_session : String → String → AuthState → AuthState
revoke_session tenant_id hash s = record s { sessions = delete (scoped tenant_id hash) s.sessions }

unfoldable pub elevate_session : String → String → ℕ → AuthState → AuthState
elevate_session tenant_id token_hash now s =
    let key = scoped tenant_id token_hash in
    elim (lookup key s.sessions) [
      | none ↦ s
      | some session ↦ record s {
        sessions = insert key (record session { elevated_at = some now }) s.sessions;
      }
    ]
