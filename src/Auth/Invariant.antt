-- ===== src/Auth/Invariant.antt =====
-- The well-formedness of the store of packages/auth/src/store.ts.
pub mod Users
pub mod Factors
use structure.Prelude.{
  String, ℕ, Option, some, none, List, [], Dict, lookup, ◌≡◌, append_text, arith, lookup-empty,
  text_equality,
}
use structure.Auth.Model.{
  AuthUser, PasswordCredential, OauthIdentity, SessionRecord, TotpRecord, OneTimeTokenRecord,
  OauthStateRecord, PasskeyChallengeRecord, PasskeyRecord, purpose_text, challenge_text,
}
use structure.Auth.Store.{AuthState, new_state, scoped, token_key, oauth_key}
use structure.Auth.Named.{IsNamed, empty-IsNamed}

abbrev pub user_name : AuthUser → String
user_name user = scoped user.tenant_id user.id

abbrev pub credential_name : PasswordCredential → String
credential_name credential = scoped credential.tenant_id credential.email

abbrev pub token_name : OneTimeTokenRecord → String
token_name token = token_key token.tenant_id (purpose_text token.purpose) token.token_hash

abbrev pub session_name : SessionRecord → String
session_name session = scoped session.tenant_id session.token_hash

abbrev pub state_name : OauthStateRecord → String
state_name state = scoped state.tenant_id state.state_hash

abbrev pub identity_name : OauthIdentity → String
identity_name identity = oauth_key identity.tenant_id identity.provider identity.subject

abbrev pub challenge_name : PasskeyChallengeRecord → String
challenge_name challenge =
    token_key challenge.tenant_id (challenge_text challenge.purpose) challenge.challenge_hash

abbrev pub passkey_name : PasskeyRecord → String
passkey_name passkey = scoped passkey.tenant_id passkey.credential_id

abbrev pub totp_name : TotpRecord → String
totp_name totp = scoped totp.tenant_id totp.user_id

-- A user with an address is the one that the index gives for it.
abbrev pub IsIndexed : Dict String AuthUser → Dict String String → Type 0
IsIndexed users index =
    (key : String) (user : AuthUser) (email : String)
    → lookup key users ≡ some user
    → user.email ≡ some email
    → lookup (scoped user.tenant_id email) index ≡ some user.id

-- One token at most for a tenant, a purpose, and an address.
abbrev pub IsSingle : Dict String OneTimeTokenRecord → Type 0
IsSingle tokens =
    (one other : String) (a b : OneTimeTokenRecord)
    → lookup one tokens ≡ some a
    → lookup other tokens ≡ some b
    → a.tenant_id ≡ b.tenant_id
    → purpose_text a.purpose ≡ purpose_text b.purpose
    → a.email ≡ b.email
    → one ≡ other

pub record IsSound (s : AuthState) : Type 0 where
  pub users : IsNamed user_name s.users
  pub indexed : IsIndexed s.users s.users_by_email
  pub passwords : IsNamed credential_name s.passwords
  pub tokens : IsNamed token_name s.tokens
  pub single : IsSingle s.tokens
  pub sessions : IsNamed session_name s.sessions
  pub oauth_states : IsNamed state_name s.oauth_states
  pub oauth_identities : IsNamed identity_name s.oauth_identities
  pub passkey_challenges : IsNamed challenge_name s.passkey_challenges
  pub passkeys : IsNamed passkey_name s.passkeys
  pub totp : IsNamed totp_name s.totp

pub new_state-IsSound : IsSound new_state
new_state-IsSound = record {
  users = empty-IsNamed user_name;
  indexed = λ key user email found e. absurd (cc (lookup-empty {V = AuthUser} key));
  passwords = empty-IsNamed credential_name;
  tokens = empty-IsNamed token_name;
  single = λ one other a b found e. absurd (cc (lookup-empty {V = OneTimeTokenRecord} one));
  sessions = empty-IsNamed session_name;
  oauth_states = empty-IsNamed state_name;
  oauth_identities = empty-IsNamed identity_name;
  passkey_challenges = empty-IsNamed challenge_name;
  passkeys = empty-IsNamed passkey_name;
  totp = empty-IsNamed totp_name;
}
