-- ===== src/Auth/Spent.antt =====
-- A token that was taken from the store of packages/auth/src/store.ts, and a password that was
-- replaced in it.
use structure.Prelude.{
  String, ℕ, ok, some, none, false, ◌≡◌, subst, lookup, delete, not, text_equality, arith, leb,
  Option-cases, inl, inr,
}
use structure.Auth.Model.{
  AuthSession, SessionRecord, OneTimeTokenRecord, OneTimeTokenPurpose, PasswordCredential,
  password_reset, purpose_text, invalid_auth_token,
}
use structure.Auth.Store.{
  AuthState, token_key, consume_one_time_token, replace_password, rehash, find_user_by_id, of_user,
}
use structure.Auth.Ports.{Ports}
use structure.Auth.Keeps.{clock-Keeps}
use structure.Auth.Named.{lookup-filter-some, lookup-map_values}
use structure.Auth.Invariant.{IsSound, session_name}
use structure.Auth.Leads.{Leads, Leads-skip, Leads-lift, Leads-takes, Leads-present_last}
use structure.Auth.Sessions.{consume_token}

-- A token that was taken: it stood in the store under its hash, was not over, and is gone.
pub record Consumed (p : Ports) (tenant_id : String) (purpose : OneTimeTokenPurpose)
    (token : String) (P : AuthState → Type 0) (issued : OneTimeTokenRecord) (s : AuthState)
    : Type 0 where
  pub hash : String
  pub now : ℕ
  pub before : AuthState
  pub hashed : p.hash_token token ≡ ok hash
  pub earlier : P before
  pub found : lookup (token_key tenant_id (purpose_text purpose) hash) before.tokens ≡ some issued
  pub live : leb issued.expires_at now ≡ false
  pub after : s ≡ record before {
    tokens = delete (token_key tenant_id (purpose_text purpose) hash) before.tokens;
  }

consume-found :
    (tenant_id : String) (purpose : OneTimeTokenPurpose) (hash : String) (now : ℕ)
    (before s : AuthState) (issued : OneTimeTokenRecord)
    → consume_one_time_token tenant_id purpose hash now before ≡ (some issued, s)
    → (lookup (token_key tenant_id (purpose_text purpose) hash) before.tokens ≡ some issued)
      × (leb issued.expires_at now ≡ false)
      × (s ≡ record before {
        tokens = delete (token_key tenant_id (purpose_text purpose) hash) before.tokens;
      })
unfolding consume_one_time_token
consume-found tenant_id purpose hash now before s issued h = ground arith

pub consume_token-Consumed :
    {P : AuthState → Type 0} (p : Ports) (tenant_id : String) (purpose : OneTimeTokenPurpose)
    (token : String)
    → Leads P (consume_token p tenant_id purpose token) (Consumed p tenant_id purpose token P)
unfolding consume_token
consume_token-Consumed {P} p tenant_id purpose token =
    Leads-lift (p.hash_token token) _ λ hash hashed. Leads-skip _ _ (clock-Keeps P) λ now.
      Leads-takes (consume_one_time_token tenant_id purpose hash now) _ λ found.
        Leads-present_last found (invalid_auth_token (purpose_text purpose)) λ issued is s h.
          let (before, earlier, taken) = h in
          let parts = consume-found tenant_id purpose hash now before s issued (
            subst (λ x. consume_one_time_token tenant_id purpose hash now before ≡ (x, s)) is
              taken) in
          record {
            hash = hash;
            now = now;
            before = before;
            hashed = hashed;
            earlier = earlier;
            found = parts.0;
            live = parts.1;
            after = parts.2;
          }

-- What a reset leaves: the user that the token names is signed in, no other session of that user
-- stands, every password of the user is the new one, and the token is spent.
pub record IsReset (p : Ports) (tenant_id token new_password : String) (start : AuthState)
    (session : AuthSession) (s : AuthState) : Type 0 where
  pub hash : String
  pub issued : OneTimeTokenRecord
  pub user_id : String
  pub hashed : p.hash_token token ≡ ok hash
  pub found :
      lookup (token_key tenant_id (purpose_text password_reset) hash) start.tokens ≡ some issued
  pub owner : issued.user_id ≡ some user_id
  pub user : find_user_by_id tenant_id user_id s ≡ some session.user
  pub only_session :
      (key : String) (other : SessionRecord)
      → lookup key s.sessions ≡ some other
      → other.tenant_id ≡ tenant_id
      → other.user_id ≡ user_id
      → p.hash_token session.token ≡ ok other.token_hash
  pub new_hash :
      (key : String) (credential : PasswordCredential)
      → lookup key s.passwords ≡ some credential
      → credential.tenant_id ≡ tenant_id
      → credential.user_id ≡ user_id
      → p.hash_password new_password ≡ ok credential.password_hash
  pub spent : lookup (token_key tenant_id (purpose_text password_reset) hash) s.tokens ≡ none

module _ (tenant_id user_id password_hash : String) (now : ℕ) (before : AuthState)
    (sound : IsSound before) where
  abbrev pub replaced : AuthState
  replaced = replace_password tenant_id user_id password_hash now before

  -- No session of the user is left.
  pub no_session :
      (key : String) (other : SessionRecord)
      → lookup key replaced.sessions ≡ some other
      → other.tenant_id ≡ tenant_id
      → other.user_id ≡ user_id
      → ⊥
  unfolding replace_password
  no_session key other found t u = ground (
    arith,
    (lookup-filter-some session_name (λ session. not (of_user tenant_id user_id session)) key other
        before.sessions sound.sessions.map found).1,
    text_equality.same_iff other.tenant_id tenant_id,
    text_equality.same_iff other.user_id user_id,
  )

  rehash-hash :
      (credential : PasswordCredential)
      → (rehash tenant_id user_id password_hash now credential).tenant_id ≡ tenant_id
      → (rehash tenant_id user_id password_hash now credential).user_id ≡ user_id
      → (rehash tenant_id user_id password_hash now credential).password_hash ≡ password_hash
  unfolding rehash
  rehash-hash credential t u = ground (
    arith,
    text_equality.same_iff credential.tenant_id tenant_id,
    text_equality.same_iff credential.user_id user_id,
  )

  -- Every password of the user is the new one.
  pub all_rehashed :
      (key : String) (credential : PasswordCredential)
      → lookup key replaced.passwords ≡ some credential
      → credential.tenant_id ≡ tenant_id
      → credential.user_id ≡ user_id
      → credential.password_hash ≡ password_hash
  unfolding replace_password
  all_rehashed key credential found t u = elim (Option-cases (lookup key before.passwords)) [
    | inl missing ↦ absurd (
        ground (
          arith,
          lookup-map_values (rehash tenant_id user_id password_hash now) key before.passwords,
        ))
    | inr (old, known) ↦
        let same : credential ≡ rehash tenant_id user_id password_hash now old = ground (
          arith,
          lookup-map_values (rehash tenant_id user_id password_hash now) key before.passwords,
        ) in
        ground (arith, rehash-hash old)
  ]
