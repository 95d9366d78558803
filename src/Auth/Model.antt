-- ===== src/Auth/Model.antt =====
-- The records of packages/auth/src/model.ts and the errors of packages/auth/src/errors.ts. Instants
-- are milliseconds.
use structure.Prelude.{String, ℕ, Bool, Option, List}

pub data OneTimeTokenPurpose : Type 0 where
  email_verification magic_link password_reset : OneTimeTokenPurpose

pub data PasskeyChallengePurpose : Type 0 where
  registration authentication : PasskeyChallengePurpose

pub record AuthUser : Type 0 where
  pub id : String
  pub tenant_id : String
  pub email : Option String
  pub email_verified : Bool
  pub display_name : Option String
  pub created_at : ℕ
  pub updated_at : ℕ

pub record PasswordCredential : Type 0 where
  pub tenant_id : String
  pub user_id : String
  pub email : String
  pub password_hash : String
  pub updated_at : ℕ

pub record OauthIdentity : Type 0 where
  pub tenant_id : String
  pub user_id : String
  pub provider : String
  pub subject : String
  pub email : Option String
  pub created_at : ℕ

-- `elevatedAt` is none while the session waits for its second factor.
pub record SessionRecord : Type 0 where
  pub id : String
  pub tenant_id : String
  pub user_id : String
  pub token_hash : String
  pub created_at : ℕ
  pub expires_at : ℕ
  pub elevated_at : Option ℕ

pub record TotpRecord : Type 0 where
  pub tenant_id : String
  pub user_id : String
  pub secret_base32 : String
  pub confirmed : Bool
  pub recovery_code_hashes : List String
  pub failed_attempts : ℕ
  pub locked_until : Option ℕ
  pub last_used_step : Option ℕ
  pub enrolled_at : ℕ

pub record AuthSession : Type 0 where
  pub token : String
  pub user : AuthUser
  pub expires_at : ℕ

pub record OneTimeTokenRecord : Type 0 where
  pub tenant_id : String
  pub purpose : OneTimeTokenPurpose
  pub token_hash : String
  pub email : String
  pub user_id : Option String
  pub expires_at : ℕ

pub record OauthStateRecord : Type 0 where
  pub tenant_id : String
  pub provider : String
  pub state_hash : String
  pub code_verifier : String
  pub redirect_uri : String
  pub return_to : Option String
  pub expires_at : ℕ

pub record PasskeyChallengeRecord : Type 0 where
  pub tenant_id : String
  pub purpose : PasskeyChallengePurpose
  pub challenge_hash : String
  pub user_id : Option String
  pub expires_at : ℕ

pub data PasskeyAlgorithm : Type 0 where
  es256 rs256 ed25519 : PasskeyAlgorithm

pub record PasskeyRecord : Type 0 where
  pub tenant_id : String
  pub user_id : String
  pub credential_id : String
  pub public_key : String
  pub algorithm : PasskeyAlgorithm
  pub counter : ℕ
  pub transports : List String
  pub label : Option String
  pub aaguid : Option String
  pub created_at : ℕ

pub data AuthError : Type 0 where
  account_link_denied : String → Option String → AuthError
  dependency_error : String → String → AuthError
  validation_error : String → String → AuthError
  email_not_verified : String → AuthError
  identity_conflict : String → String → AuthError
  invalid_auth_token : String → AuthError
  invalid_credentials : String → AuthError
  second_factor_required : String → AuthError
  rate_limit_exceeded : String → Option ℕ → AuthError
  unsupported_passkey : String → AuthError

abbrev pub purpose_text : OneTimeTokenPurpose → String
purpose_text email_verification = "email-verification"
purpose_text magic_link = "magic-link"
purpose_text password_reset = "password-reset"

abbrev pub challenge_text : PasskeyChallengePurpose → String
challenge_text registration = "registration"
challenge_text authentication = "authentication"
