-- ===== src/Auth/Ports.antt =====
-- What a call of packages/auth/src/service.ts reads and changes: the tenant's configuration, the
-- ports of packages/auth/src/ports.ts, and a computation over them. The clock does not move during
-- a call.
use structure.Prelude.{
  String, ℕ, Bool, Option, List, Result, ok, err, some, none, ◌∷◌, [], ◌++◌, ◌+◌, true, false,
}
use structure.Auth.Model.{AuthError, OneTimeTokenPurpose}
use structure.Auth.Store.{AuthState, Reply}

-- The parts of a URL that the code reads.
pub record Url : Type 0 where
  pub protocol : String
  pub hostname : String
  pub origin : String
  pub username : String
  pub password : String

pub data SameSite : Type 0 where
  lax strict none_site : SameSite

pub record PasskeyTenantConfig : Type 0 where
  pub rp_id : String
  pub origins : List String
  pub require_user_verification : Option Bool

pub record TenantAuthConfig : Type 0 where
  pub base_url : Url
  pub email_verification_link : Option String
  pub magic_link_link : Option String
  pub password_reset_link : Option String
  pub min_length : Option ℕ
  pub max_length : Option ℕ
  pub session_ttl_millis : Option ℕ
  pub cookie_name : Option String
  pub cookie_domain : Option String
  pub cookie_path : Option String
  pub cookie_same_site : Option SameSite
  pub email_verification_ttl_millis : Option ℕ
  pub magic_link_ttl_millis : Option ℕ
  pub password_reset_ttl_millis : Option ℕ
  pub oauth_state_ttl_millis : Option ℕ
  pub passkey_challenge_ttl_millis : Option ℕ
  pub passkey : Option PasskeyTenantConfig

pub record AuthEmail : Type 0 where
  pub kind : OneTimeTokenPurpose
  pub tenant_id : String
  pub recipient : String
  pub url : String
  pub token : String
  pub expires_at : ℕ

pub record RateLimitRequest : Type 0 where
  pub tenant_id : String
  pub action : String
  pub key_hash : String

pub record AuthAuditEvent : Type 0 where
  pub tenant_id : String
  pub action : String
  pub user_id : Option String
  pub provider : Option String
  pub actor : Option String

-- A limiter answers from the requests charged so far: none lets the request pass.
abbrev pub Limiter : Type 0
Limiter = List RateLimitRequest → RateLimitRequest → Option AuthError

-- The options of makeAuth and its primitives. `random_token n` is the n-th token drawn, of a length
-- in bytes; `token_url` resolves a path against a base and sets the token's parameter.
pub record Ports : Type 0 where
  pub resolve_tenant : String → Result AuthError TenantAuthConfig
  pub parse_url : String → Option Url
  pub hash_token : String → Result AuthError String
  pub random_token : ℕ → ℕ → String
  pub hash_password : String → Result AuthError String
  pub verify_password : String → String → Result AuthError Bool
  pub lower_case : String → String
  pub token_url : String → Url → String → String
  pub send : AuthEmail → Option AuthError
  pub check : Limiter
  pub peek : Option Limiter
  pub second_factor : Option (AuthState → String → String → Result AuthError Bool)

pub record World : Type 0 where
  pub auth : AuthState
  pub now : ℕ
  pub drawn : ℕ
  pub charged : List RateLimitRequest
  pub mails : List AuthEmail
  pub audited : List AuthAuditEvent

-- What was written before an error stays written.
abbrev pub M : Type 0 → Type 0
M A = World → Result AuthError A × World

module _ {A : Type 0} where
  abbrev pub pure : A → M A
  pure a w = (ok a, w)

  abbrev pub fail : AuthError → M A
  fail e w = (err e, w)

  abbrev pub lift : Result AuthError A → M A
  lift r w = (r, w)

  -- The store's operations: a read, a write with an answer, and one that may fail.
  abbrev pub asks : (AuthState → A) → M A
  asks f w = (ok (f w.auth), w)

  abbrev pub takes : (AuthState → A × AuthState) → M A
  takes f w = let (a, s) = f w.auth in (ok a, record w { auth = s })

  abbrev pub tries : (AuthState → Reply A) → M A
  tries f w = let (r, s) = f w.auth in (r, record w { auth = s })

  abbrev pub present : Option A → AuthError → M A
  present none e = fail e
  present (some a) e = pure a

abbrev pub writes : (AuthState → AuthState) → M (Unit {0})
writes f w = (ok tt, record w { auth = f w.auth })

abbrev pub clock : M ℕ
clock w = (ok w.now, w)

abbrev pub fail_when : Bool → AuthError → M (Unit {0})
fail_when true e = fail e
fail_when false e = pure tt

infixl 5 ◌>>=◌ ◌>>◌
abbrev pub ◌>>=◌ : {A B : Type 0} → M A → (A → M B) → M B
◌>>=◌ m f w = let (r, w') = m w in elim r [ ok a ↦ f a w' | err e ↦ fail e w' ]

abbrev pub ◌>>◌ : {A B : Type 0} → M A → M B → M B
m >> k = m >>= λ _. k

abbrev pub record_audit : AuthAuditEvent → M (Unit {0})
record_audit event w = (ok tt, record w { audited = w.audited ++ event ∷ [] })

-- A limiter's answer, without a charge.
abbrev pub inspect : Limiter → RateLimitRequest → M (Unit {0})
inspect limiter request w = elim (limiter w.charged request) [
  | none ↦ (ok tt, w)
  | some e ↦ (err e, w)
]

module _ (p : Ports) where
  abbrev pub hash_token : String → M String
  hash_token token = lift (p.hash_token token)

  abbrev pub random_token : ℕ → M String
  random_token byte_length w =
      (ok (p.random_token w.drawn byte_length), record w { drawn = w.drawn + 1 })

  abbrev pub charge : RateLimitRequest → M (Unit {0})
  charge request w =
      let w' : World = record w { charged = w.charged ++ request ∷ [] } in
      elim (p.check w.charged request) [ none ↦ (ok tt, w') | some e ↦ (err e, w') ]

  abbrev pub deliver : AuthEmail → M (Unit {0})
  deliver email w = elim (p.send email) [
    | none ↦ (ok tt, record w { mails = w.mails ++ email ∷ [] })
    | some e ↦ (err e, w)
  ]
