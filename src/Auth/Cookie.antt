-- ===== src/Auth/Cookie.antt =====
-- The session cookie and its slots: sessionCookie and sessionTokenFromCookie of
-- packages/auth/src/service.ts, and packages/auth/src/session-slots.ts.
pub mod Texts
pub mod RoundTrip
pub mod Session
use structure.Prelude.{
  String, ℕ, Bool, Option, List, Dict, [], ◌∷◌, some, none, false, if◌then◌else◌, ◌==◌, ◌&&◌, not,
  or_else, ◌-◌, ◌/◌, append_text, utf16_length, split_at, split_on, trim, ltb, text_equality,
  is_some, filter, insert, decimal, has,
}
use Prim.Native.Char.{code}
use structure.Prelude.{nat_same}
use structure.Auth.Model.{AuthSession}
use structure.Auth.Ports.{Ports, TenantAuthConfig, SameSite, M, pure, lift, clock, ◌>>=◌}
use structure.Auth.Config.{cookie_name_of, cookie_path_of, valid_slot, slot_pattern}
use structure.Auth.Sessions.{config_for}

abbrev pub max_cookie_header_length : ℕ
max_cookie_header_length = 16384

unfoldable pub slot_cookie_name : String → String → String
slot_cookie_name cookie_name slot = append_text cookie_name (append_text "." slot)

-- The cookie's name: the usual one, or the slot's.
abbrev pub named_cookie : String → Option String → String
named_cookie cookie_name none = cookie_name
named_cookie cookie_name (some slot) = slot_cookie_name cookie_name slot

-- `name.slice(prefix.length)` if `name.startsWith(prefix)`
unfoldable pub strip_prefix : String → String → Option String
strip_prefix String.[] name = some name
strip_prefix (String.◌∷◌ c text) String.[] = none
strip_prefix (String.◌∷◌ c text) (String.◌∷◌ d name) =
    if nat_same (code c) (code d) then strip_prefix text name else none

unfoldable pub slot_of : String → String → Option String
slot_of cookie_name name = elim (strip_prefix (append_text cookie_name ".") name) [
  | none ↦ none
  | some slot ↦ if slot_pattern slot then some slot else none
]

unfoldable pub is_slot_cookie : String → String → Bool
is_slot_cookie cookie_name segment = elim (split_at 0x3d segment) [
  | none ↦ false
  | some (key, value) ↦ is_some (slot_of cookie_name (trim key))
]

-- `segments.join(";")`
unfoldable pub join_segments : List String → String
join_segments [] = ""
join_segments (segment ∷ []) = segment
join_segments (segment ∷ next ∷ segments) =
    append_text segment (append_text ";" (join_segments (next ∷ segments)))

unfoldable pub length_without_slot_cookies : String → String → ℕ
length_without_slot_cookies cookie_name header = utf16_length (
    join_segments
      (filter (λ segment. not (is_slot_cookie cookie_name segment)) (split_on 0x3b header)))

-- The first segment with the name and a value.
unfoldable pub token_in : String → List String → Option String
token_in name [] = none
token_in name (segment ∷ segments) = elim (split_at 0x3d segment) [
  | none ↦ token_in name segments
  | some (key, value) ↦
      if trim key == name && not (trim value == "")
      then some (trim value)
      else token_in name segments
]

unfoldable pub too_long : String → String → Bool
too_long cookie_name header =
    ltb max_cookie_header_length (utf16_length header)
    && ltb max_cookie_header_length (length_without_slot_cookies cookie_name header)

-- sessionTokenFromCookie past the tenant and the slot.
unfoldable pub read_cookie : String → Option String → String → Option String
read_cookie cookie_name slot header =
    if too_long cookie_name header
    then none
    else token_in (named_cookie cookie_name slot) (split_on 0x3b header)

unfoldable pub slot_cookies : String → List String → Dict String String → Dict String String
slot_cookies cookie_name [] found = found
slot_cookies cookie_name (segment ∷ segments) found =
    slot_cookies cookie_name segments (elim (split_at 0x3d segment) [
      | none ↦ found
      | some (key, value) ↦ elim (slot_of cookie_name (trim key)) [
        | none ↦ found
        | some slot ↦
            if trim value == ""
            then found
            else if has slot found
            then found
            else insert slot (trim value) found
      ]
    ])

unfoldable pub slot_cookies_of : String → Option String → Dict String String
slot_cookies_of cookie_name none = []
slot_cookies_of cookie_name (some header) = slot_cookies cookie_name (split_on 0x3b header) []

abbrev same_site_text : SameSite → String
same_site_text SameSite.lax = "Lax"
same_site_text SameSite.strict = "Strict"
same_site_text SameSite.none_site = "None"

abbrev texts : List String → String
texts [] = ""
texts (part ∷ parts) = append_text part (texts parts)

abbrev domain_text : Option String → String
domain_text none = ""
domain_text (some domain) = append_text "; Domain=" domain

-- What follows `name=value`, past the attribute's name, with the age in seconds.
unfoldable pub details : TenantAuthConfig → ℕ → String
details config max_age = texts (
    cookie_path_of config
    ∷ "; HttpOnly; SameSite="
    ∷ same_site_text (or_else config.cookie_same_site SameSite.lax)
    ∷ (if config.base_url.protocol == "https:" then "; Secure" else "")
    ∷ "; Max-Age="
    ∷ decimal max_age
    ∷ domain_text config.cookie_domain
    ∷ [])

unfoldable pub attributes : TenantAuthConfig → ℕ → String
unfolding details
attributes config max_age = append_text "; Path=" (details config max_age)

-- `name=value`
unfoldable pub pair : String → String → String
pair name value = append_text name (append_text "=" value)

abbrev set_cookie : TenantAuthConfig → Option String → ℕ → Option AuthSession → String
set_cookie config slot now none =
    append_text (pair (named_cookie (cookie_name_of config) slot) "") (attributes config 0)
set_cookie config slot now (some session) =
    append_text (pair (named_cookie (cookie_name_of config) slot) session.token)
      (attributes config ((session.expires_at - now) / 1000))

abbrev pub read_header : String → Option String → Option String → Option String
read_header cookie_name slot none = none
read_header cookie_name slot (some header) = read_cookie cookie_name slot header

module _ (p : Ports) where
  unfoldable pub session_cookie : String → Option AuthSession → Option String → M String
  session_cookie tenant_id session wanted = do
    config ← config_for p tenant_id
    slot ← lift (valid_slot wanted)
    now ← clock
    pure (set_cookie config slot now session)

  unfoldable pub session_token_from_cookie :
      String → Option String → Option String → M (Option String)
  session_token_from_cookie tenant_id header wanted = do
    config ← config_for p tenant_id
    slot ← lift (valid_slot wanted)
    pure (read_header (cookie_name_of config) slot header)
