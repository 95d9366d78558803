-- ===== src/Auth/Invariant/Users.antt =====
-- The operations on users, credentials, tokens, and sessions keep the store sound.
use structure.Prelude.{
  ◌≡◌, refl, text_equality, String, has, refl, not, Bool-cases, inl, inr, text_equality, Dict, ℕ,
  Bool, filter, lookup, Option-cases, delete, insert, leb, some, arith, true, lookup-delete,
  lookup-insert, none, or_else,
}
use structure.Auth.Model.{SessionRecord, OneTimeTokenPurpose}
use structure.Auth.Store.{
  AuthState, scoped, revoke_user_sessions, create_session, revoke_session, of_user, find_session,
  elevate_session, consume_one_time_token, put_one_time_token, rehash, replace_password,
  set_email_verified, replaced_by, insert_user, assert_user_unique, email_taken,
  create_password_user, create_oauth_user, create_magic_link_user,
}
use structure.Auth.Named.{
  insert-IsNamed, delete-IsNamed, filter-IsNamed, lookup-filter-some, map_values-IsNamed,
}
use structure.Auth.Invariant.{
  IsSound, session_name, OneTimeTokenRecord, AuthUser, IsSingle, IsNamed, token_name, token_key,
  PasswordCredential, purpose_text, credential_name, user_name, IsIndexed, OauthIdentity,
  identity_name,
}

pub revoke_session-IsSound :
    (tenant_id hash : String) {s : AuthState}
    → IsSound s
    → IsSound (revoke_session tenant_id hash s)
unfolding revoke_session
revoke_session-IsSound tenant_id hash {s} h =
    search (delete-IsNamed session_name (scoped tenant_id hash) s.sessions)

pub revoke_user_sessions-IsSound :
    (tenant_id user_id : String) {s : AuthState}
    → IsSound s
    → IsSound (revoke_user_sessions tenant_id user_id s)
unfolding revoke_user_sessions
revoke_user_sessions-IsSound tenant_id user_id {s} h =
    search
      (filter-IsNamed session_name (λ session. not (of_user tenant_id user_id session)) s.sessions)

pub create_session-IsSound :
    (session : SessionRecord) {s : AuthState} → IsSound s → IsSound (create_session session s).1
unfolding create_session
create_session-IsSound session {s} h = elim (Bool-cases (has (session_name session) s.sessions)) [
  | inl taken ↦ rw taken h
  | inr free ↦
      rw free (search (insert-IsNamed session_name (session_name session) session s.sessions refl))
]

pub find_session-IsSound :
    (tenant_id hash : String) (now : ℕ) {s : AuthState}
    → IsSound s
    → IsSound (find_session tenant_id hash now s).1
unfolding find_session
find_session-IsSound tenant_id hash now {s} h =
    elim (Option-cases (lookup (scoped tenant_id hash) s.sessions)) [
      | inl missing ↦ rw (missing, find_session) h
      | inr (session, found) ↦ elim (Bool-cases (leb session.expires_at now)) [
        | inl over ↦
            rw (found, over, find_session)
              (search (delete-IsNamed session_name (scoped tenant_id hash) s.sessions))
        | inr live ↦ rw (found, live, find_session) h
      ]
    ]

pub elevate_session-IsSound :
    (tenant_id hash : String) (now : ℕ) {s : AuthState}
    → IsSound s
    → IsSound (elevate_session tenant_id hash now s)
unfolding elevate_session
elevate_session-IsSound tenant_id hash now {s} h =
    elim (Option-cases (lookup (scoped tenant_id hash) s.sessions)) [
      | inl missing ↦ rw (missing, elevate_session) h
      | inr (session, found) ↦
          rw (found, elevate_session)
            (search (
              insert-IsNamed session_name (scoped tenant_id hash)
                (record session { elevated_at = some now }) s.sessions
                (h.sessions.named (scoped tenant_id hash) session found)))
    ]

filter-IsSingle :
    (p : OneTimeTokenRecord → Bool) (tokens : Dict String OneTimeTokenRecord)
    → IsNamed token_name tokens
    → IsSingle tokens
    → IsSingle (filter (λ e. p e.1) tokens)
filter-IsSingle p tokens named single one other a b left right =
    single one other a b (lookup-filter-some token_name p one a tokens named.map left).0
      (lookup-filter-some token_name p other b tokens named.map right).0

delete-IsSingle :
    (key : String) (tokens : Dict String OneTimeTokenRecord)
    → IsSingle tokens
    → IsSingle (delete key tokens)
delete-IsSingle key tokens single one other a b left right =
    single one other a b (ground (arith, lookup-delete key one tokens))
      (ground (arith, lookup-delete key other tokens))

pub consume_one_time_token-IsSound :
    (tenant_id : String) (purpose : OneTimeTokenPurpose) (hash : String) (now : ℕ) {s : AuthState}
    → IsSound s
    → IsSound (consume_one_time_token tenant_id purpose hash now s).1
unfolding consume_one_time_token
consume_one_time_token-IsSound tenant_id purpose hash now {s} h =
    let key = token_key tenant_id (purpose_text purpose) hash in
    search (delete-IsNamed token_name key s.tokens, delete-IsSingle key s.tokens)

abbrev kept : OneTimeTokenRecord → Dict String OneTimeTokenRecord → Dict String OneTimeTokenRecord
kept fresh tokens = filter (λ e. not (replaced_by fresh e.1)) tokens

-- A token that the fresh one does not replace differs from it.
not_replaced :
    (fresh a : OneTimeTokenRecord) (key : String) (tokens : Dict String OneTimeTokenRecord)
    → IsNamed token_name tokens
    → lookup key (kept fresh tokens) ≡ some a
    → a.tenant_id ≡ fresh.tenant_id
    → purpose_text a.purpose ≡ purpose_text fresh.purpose
    → a.email ≡ fresh.email
    → ⊥
not_replaced fresh a key tokens named found t p e = ground (
  arith,
  (lookup-filter-some token_name (λ r. not (replaced_by fresh r)) key a tokens named.map found).1,
  text_equality.same_iff a.tenant_id fresh.tenant_id,
  text_equality.same_iff (purpose_text a.purpose) (purpose_text fresh.purpose),
  text_equality.same_iff a.email fresh.email,
)

put-IsSingle :
    (fresh : OneTimeTokenRecord) (tokens : Dict String OneTimeTokenRecord)
    → IsNamed token_name tokens
    → IsSingle tokens
    → IsSingle (insert (token_name fresh) fresh (kept fresh tokens))
put-IsSingle fresh tokens named single one other a b left right t p e = ground (
  arith,
  lookup-insert (token_name fresh) one fresh (kept fresh tokens),
  lookup-insert (token_name fresh) other fresh (kept fresh tokens),
  text_equality.same_iff (token_name fresh) one,
  text_equality.same_iff (token_name fresh) other,
  not_replaced fresh a one tokens named,
  not_replaced fresh b other tokens named,
  filter-IsSingle (λ r. not (replaced_by fresh r)) tokens named single one other a b,
)

pub put_one_time_token-IsSound :
    (fresh : OneTimeTokenRecord) {s : AuthState} → IsSound s → IsSound (put_one_time_token fresh s)
unfolding put_one_time_token
put_one_time_token-IsSound fresh {s} h = search (
  insert-IsNamed token_name (token_name fresh) fresh (kept fresh s.tokens) refl
      (filter-IsNamed token_name (λ r. not (replaced_by fresh r)) s.tokens h.tokens),
  put-IsSingle fresh s.tokens h.tokens h.single,
)

rehash-name :
    (tenant_id user_id hash : String) (now : ℕ) (credential : PasswordCredential)
    → credential_name (rehash tenant_id user_id hash now credential) ≡ credential_name credential
unfolding rehash
rehash-name tenant_id user_id hash now credential = ground arith

pub replace_password-IsSound :
    (tenant_id user_id hash : String) (now : ℕ) {s : AuthState}
    → IsSound s
    → IsSound (replace_password tenant_id user_id hash now s)
unfolding replace_password
replace_password-IsSound tenant_id user_id hash now {s} h = search (
  map_values-IsNamed (rehash tenant_id user_id hash now) credential_name
      (rehash-name tenant_id user_id hash now) s.passwords h.passwords,
  filter-IsNamed session_name (λ session. not (of_user tenant_id user_id session)) s.sessions,
)

verified-IsIndexed :
    (key : String) (user updated : AuthUser) (s : AuthState)
    → IsSound s
    → lookup key s.users ≡ some user
    → updated.tenant_id ≡ user.tenant_id
    → updated.id ≡ user.id
    → updated.email ≡ user.email
    → IsIndexed (insert key updated s.users) s.users_by_email
verified-IsIndexed key user updated s h found t i m here other email p e = ground (
  arith,
  lookup-insert key here updated s.users,
  h.indexed here other email,
  h.indexed key user email,
)

pub set_email_verified-IsSound :
    (tenant_id user_id : String) (now : ℕ) {s : AuthState}
    → IsSound s
    → IsSound (set_email_verified tenant_id user_id now s).1
unfolding set_email_verified
set_email_verified-IsSound tenant_id user_id now {s} h =
    let key = scoped tenant_id user_id in
    elim (Option-cases (lookup key s.users)) [
      | inl missing ↦ rw (missing, set_email_verified) h
      | inr (user, found) ↦
          let updated : AuthUser = record user { email_verified = true; updated_at = now } in
          rw (found, set_email_verified)
            (search (
              insert-IsNamed user_name key updated s.users (h.users.named key user found),
              verified-IsIndexed key user updated s h found refl refl refl,
            ))
    ]

-- An address that is not in the index belongs to no user of a sound store.
insert-IsIndexed :
    (user : AuthUser) (s : AuthState)
    → IsSound s
    → assert_user_unique user s ≡ none
    → IsIndexed (insert_user user s).users (insert_user user s).users_by_email
unfolding insert_user assert_user_unique email_taken
insert-IsIndexed user s h unique here other email found e = ground (
  arith,
  lookup-insert (user_name user) here user s.users,
  h.indexed here other email,
  lookup-insert (scoped user.tenant_id (or_else user.email "")) (scoped other.tenant_id email)
      user.id s.users_by_email,
  text_equality.same_iff (user_name user) here,
  text_equality.same_iff (scoped user.tenant_id (or_else user.email ""))
      (scoped other.tenant_id email),
)

pub insert_user-IsSound :
    (user : AuthUser) {s : AuthState}
    → IsSound s
    → assert_user_unique user s ≡ none
    → IsSound (insert_user user s)
unfolding insert_user
insert_user-IsSound user {s} h unique = search (
  insert-IsNamed user_name (user_name user) user s.users refl h.users,
  insert-IsIndexed user s h unique,
)

pub create_password_user-IsSound :
    (user : AuthUser) (credential : PasswordCredential) {s : AuthState}
    → IsSound s
    → IsSound (create_password_user user credential s).1
unfolding create_password_user
create_password_user-IsSound user credential {s} h =
    elim (Option-cases (assert_user_unique user s)) [
      | inr (conflict, found) ↦ rw (found, create_password_user) h
      | inl unique ↦ elim (Bool-cases (has (credential_name credential) s.passwords)) [
        | inl taken ↦ rw (unique, taken, create_password_user) h
        | inr free ↦
            let sound : IsSound (insert_user user s) = insert_user-IsSound user h unique in
            rw (unique, free, create_password_user)
              (search (
                insert-IsNamed credential_name (credential_name credential) credential s.passwords
                    refl h.passwords,
                sound,
              ))
      ]
    ]

pub create_oauth_user-IsSound :
    (user : AuthUser) (identity : OauthIdentity) {s : AuthState}
    → IsSound s
    → IsSound (create_oauth_user user identity s).1
unfolding create_oauth_user
create_oauth_user-IsSound user identity {s} h = elim (Option-cases (assert_user_unique user s)) [
  | inr (conflict, found) ↦ rw (found, create_oauth_user) h
  | inl unique ↦ elim (Bool-cases (has (identity_name identity) s.oauth_identities)) [
    | inl taken ↦ rw (unique, taken, create_oauth_user) h
    | inr free ↦
        let sound : IsSound (insert_user user s) = insert_user-IsSound user h unique in
        rw (unique, free, create_oauth_user)
          (search (
            insert-IsNamed identity_name (identity_name identity) identity s.oauth_identities refl
                h.oauth_identities,
            sound,
          ))
  ]
]

pub create_magic_link_user-IsSound :
    (user : AuthUser) {s : AuthState} → IsSound s → IsSound (create_magic_link_user user s).1
unfolding create_magic_link_user
create_magic_link_user-IsSound user {s} h = elim (Option-cases (assert_user_unique user s)) [
  | inr (conflict, found) ↦ rw (found, create_magic_link_user) h
  | inl unique ↦ rw (unique, create_magic_link_user) (insert_user-IsSound user h unique)
]
