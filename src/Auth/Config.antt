-- ===== src/Auth/Config.antt =====
-- What packages/auth/src/service.ts requires of an address, a password, a slot, and a tenant's
-- configuration.
use structure.Prelude.{
  String, ℕ, Bool, Option, List, Result, ok, err, some, none, ◌∷◌, [], true, false, if◌then◌else◌,
  ◌==◌, ◌&&◌, ◌||◌, not, leb, ltb, trim, utf16_length, split_at, some_char, strip_suffix, or_else,
  decimal, append_text, is_some, text_equality, fail_if, length, is_white, ◌>>◌, nat_equality,
  nat_same,
}
use Prim.Native.Char.{code}
use structure.Auth.Model.{AuthError, validation_error}
use structure.Auth.Ports.{TenantAuthConfig, Url, PasskeyTenantConfig, SameSite}

-- `code <= 32 || code === 127`
abbrev control_or_space : ℕ → Bool
control_or_space c = leb c 32 || nat_same c 127

-- The part before the first at sign, and the part after it.
abbrev is_address : String → String → Bool
is_address name domain =
    not (utf16_length name == 0)
    && not (some_char (λ c. nat_same c 0x40) domain)
    && leb (utf16_length name) 64
    && leb (utf16_length domain) 255
    && not (utf16_length domain == 0)

unfoldable pub normalize_email : (String → String) → String → Result AuthError String
normalize_email lower_case value =
    let email = lower_case (trim value) in
    elim (split_at 0x40 email) [
      | none ↦ err (validation_error "email" "must be valid")
      | some (name, domain) ↦
          if leb (utf16_length email) 320
            && is_address name domain
            && not (some_char control_or_space email)
          then ok email
          else err (validation_error "email" "must be valid")
    ]

unfoldable pub validate_password : String → TenantAuthConfig → Result AuthError Unit
validate_password password config =
    let min = or_else config.min_length 12 in
    let max = or_else config.max_length 256 in
    if ltb (utf16_length password) min
    then err (
        validation_error "password"
          (append_text "must contain at least " (append_text (decimal min) " characters")))
    else if ltb max (utf16_length password)
    then err (
        validation_error "password"
          (append_text "must contain at most " (append_text (decimal max) " characters")))
    else ok tt

unfoldable pub is_local_hostname : String → Bool
is_local_hostname hostname =
    let name = or_else (strip_suffix "." hostname) hostname in
    name == "localhost"
    || is_some (strip_suffix ".localhost" name)
    || name == "127.0.0.1"
    || name == "::1"
    || name == "[::1]"

abbrev pub letter_or_digit : ℕ → Bool
letter_or_digit c =
    (leb 0x30 c && leb c 0x39) || (leb 0x41 c && leb c 0x5a) || (leb 0x61 c && leb c 0x7a)

-- `[!#$%&'*+.^_`|~0-9A-Za-z-]`
unfoldable pub cookie_name_char : ℕ → Bool
cookie_name_char c =
    letter_or_digit c
    || nat_same c 0x21
    || (leb 0x23 c && leb c 0x27)
    || nat_same c 0x2a
    || nat_same c 0x2b
    || nat_same c 0x2d
    || nat_same c 0x2e
    || (leb 0x5e c && leb c 0x60)
    || nat_same c 0x7c
    || nat_same c 0x7e

-- `[A-Za-z0-9_-]{1,128}`
unfoldable pub slot_pattern : String → Bool
slot_pattern slot =
    not (slot == "")
    && leb (utf16_length slot) 128
    && not (some_char (λ c. not (letter_or_digit c || nat_same c 0x5f || nat_same c 0x2d)) slot)

unfoldable pub valid_slot : Option String → Result AuthError (Option String)
valid_slot none = ok none
valid_slot (some slot) =
    if slot_pattern slot
    then ok (some slot)
    else err (validation_error "slot" "is not a valid session slot")

-- HTTPS, or plain HTTP on a local name.
abbrev secure_or_local : Url → Bool
secure_or_local url =
    url.protocol == "https:" || (is_local_hostname url.hostname && url.protocol == "http:")

abbrev path_unsafe : ℕ → Bool
path_unsafe c = nat_same c 0x3b || nat_same c 13 || nat_same c 10

abbrev domain_unsafe : ℕ → Bool
domain_unsafe c = nat_same c 0x3b || is_white c

abbrev starts_with_slash : String → Bool
starts_with_slash String.[] = false
starts_with_slash (String.◌∷◌ c s) = nat_same (code c) 0x2f

abbrev pub cookie_name_of : TenantAuthConfig → String
cookie_name_of config = or_else config.cookie_name "structure_session"

abbrev pub cookie_path_of : TenantAuthConfig → String
cookie_path_of config = or_else config.cookie_path "/"

abbrev cookie_domain_ok : Option String → Bool
cookie_domain_ok none = true
cookie_domain_ok (some domain) = not (some_char domain_unsafe domain)

abbrev needs_https : Option SameSite → Bool
needs_https (some SameSite.none_site) = true
needs_https site = false

-- An origin is exact, secure, and the relying party's own or below it.
abbrev origin_within : String → String → Url → Bool
origin_within rp_id value url =
    url.origin == value
    && secure_or_local url
    && (url.hostname == rp_id || is_some (strip_suffix (append_text "." rp_id) url.hostname))

unfoldable pub check_origins : (String → Option Url) → String → List String → Result AuthError Unit
check_origins parse_url rp_id [] = ok tt
check_origins parse_url rp_id (value ∷ origins) = elim (parse_url value) [
  | none ↦ err (validation_error "passkey.origins" "must contain valid URLs")
  | some url ↦
      if origin_within rp_id value url
      then check_origins parse_url rp_id origins
      else err (validation_error "passkey.origins" "must be exact HTTPS origins within the RP ID")
]

unfoldable pub check_passkey :
    (String → Option Url) → Option PasskeyTenantConfig → Result AuthError Unit
check_passkey parse_url none = ok tt
check_passkey parse_url (some passkey) =
    if passkey.rp_id == "" || length passkey.origins == 0
    then err (validation_error "passkey" "requires an RP ID and origins")
    else check_origins parse_url passkey.rp_id passkey.origins

unfoldable pub cookie_name_ok : String → Bool
cookie_name_ok name = not (name == "") && not (some_char (λ c. not (cookie_name_char c)) name)

unfoldable pub validate_tenant_config :
    (String → Option Url) → TenantAuthConfig → Result AuthError TenantAuthConfig
validate_tenant_config parse_url config = do
  fail_if (not (secure_or_local config.base_url))
      (validation_error "baseUrl" "must use HTTPS except on localhost")
  fail_if (not (config.base_url.username == "") || not (config.base_url.password == ""))
      (validation_error "baseUrl" "must not contain credentials")
  fail_if (not (cookie_name_ok (cookie_name_of config)))
      (validation_error "session.cookieName" "is not a valid cookie name")
  fail_if
      (not (starts_with_slash (cookie_path_of config))
        || some_char path_unsafe (cookie_path_of config))
      (validation_error "session.cookiePath" "is not a safe path")
  fail_if (not (cookie_domain_ok config.cookie_domain))
      (validation_error "session.cookieDomain" "is not a safe domain")
  fail_if (needs_https config.cookie_same_site && not (config.base_url.protocol == "https:"))
      (validation_error "session.cookieSameSite" "None requires HTTPS")
  check_passkey parse_url config.passkey
  ok config
