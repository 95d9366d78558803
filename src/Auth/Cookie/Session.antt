-- ===== src/Auth/Cookie/Session.antt =====
-- The cookie of a session carries its token there and back.
use Prim.Native.Char.{code}
use structure.Prelude.{
  subst, ◌-◌, ◌/◌, String, ℕ, Option, List, [], ◌∷◌, ◌++◌, some, none, ok, true, false, ◌||◌, not,
  append_text, split_at, some_char, is_white, until_char, ◌≡◌, ◌≢◌, refl, sym, nat_same, arith, ap,
  ◌∙◌, text_equality, All, All-append, utf16_length, ◌≤◌, or_else, Result-cases, inl, inr,
}
use text.Mathlib.TextLemmas.{cons-append}
use structure.Auth.Model.{AuthSession}
use structure.Auth.Inversion.{>>=-ok, >>=-step}
use structure.Auth.Ports.{lift, clock, pure, ◌>>=◌, Ports, TenantAuthConfig, World, Url}
use structure.Auth.Config.{
  cookie_name_of, cookie_name_ok, cookie_name_char, letter_or_digit, slot_pattern, valid_slot,
  validate_tenant_config,
}
use structure.Auth.Sessions.{config_for}
use structure.Auth.Cookie.{
  pair, named_cookie, slot_cookie_name, attributes, details, set_cookie, session_cookie,
  session_token_from_cookie, read_header, max_cookie_header_length,
}
use structure.Auth.Cookie.Texts.{Free, Free-append, until_char-append}
use structure.Auth.Cookie.RoundTrip.{
  value_mark, name_mark, Clean, header_of, first_value, pair-cut, pair-Free, read_cookie-header,
}

-- What a browser keeps of a `Set-Cookie` text: the name and the value before the attributes.
unfoldable pub stored : String → String × String
stored text = or_else (split_at 0x3d (until_char 0x3b text)) ("", "")

cookie_name_char-mark : (c : ℕ) → cookie_name_char c ≡ true → name_mark c ≡ false
unfolding cookie_name_char is_white
cookie_name_char-mark c h = ground arith

name_Free : (s : String) → some_char (λ c. not (cookie_name_char c)) s ≡ false → Free name_mark s
unfolding some_char
name_Free String.[] h = refl
name_Free (String.◌∷◌ c s) h = ground (arith, cookie_name_char-mark (code c), name_Free s)

validate-checked :
    (parse_url : String → Option Url) (config checked : TenantAuthConfig)
    → validate_tenant_config parse_url config ≡ ok checked
    → cookie_name_ok (cookie_name_of checked) ≡ true
unfolding validate_tenant_config
validate-checked parse_url config checked h = ground arith

-- The tenant's configuration is read without a change, and its cookie's name is a valid one.
pub config_for-checked :
    (p : Ports) (tenant_id : String) (w v : World) {config : TenantAuthConfig}
    → config_for p tenant_id w ≡ (ok config, v)
    → (v ≡ w) × (cookie_name_ok (cookie_name_of config) ≡ true)
unfolding config_for
config_for-checked p tenant_id w v {config} h = elim (Result-cases (p.resolve_tenant tenant_id)) [
  | inr (e, failed) ↦ absurd (ground arith)
  | inl (given, found) ↦ elim (Result-cases (validate_tenant_config p.parse_url given)) [
    | inr (e, failed) ↦ absurd (ground arith)
    | inl (checked, valid) ↦
        let same : (config ≡ checked) × (v ≡ w) = ground arith in
        (same.1, rw same.0 (validate-checked p.parse_url given checked valid))
  ]
]

-- The configuration does not depend on the world.
config_for-world :
    (p : Ports) (tenant_id : String) (w u : World) {config : TenantAuthConfig}
    → config_for p tenant_id w ≡ (ok config, w)
    → config_for p tenant_id u ≡ (ok config, u)
unfolding config_for
config_for-world p tenant_id w u h = elim (Result-cases (p.resolve_tenant tenant_id)) [
  | inr (e, failed) ↦ absurd (ground arith)
  | inl (given, found) ↦ elim (Result-cases (validate_tenant_config p.parse_url given)) [
    | inr (e, failed) ↦ absurd (ground arith)
    | inl (checked, valid) ↦ ground arith
  ]
]

attributes-head :
    (config : TenantAuthConfig) (age : ℕ)
    → attributes config age ≡ String.◌∷◌ ";" (append_text " Path=" (details config age))
unfolding attributes
attributes-head config age = cons-append ";" " Path=" (details config age)

slot_pattern-char :
    (s : String)
    → some_char (λ c. not (letter_or_digit c || nat_same c 0x5f || nat_same c 0x2d)) s ≡ false
    → Free name_mark s
unfolding some_char is_white
slot_pattern-char String.[] h = refl
slot_pattern-char (String.◌∷◌ c s) h = ground (arith, slot_pattern-char s)

slot_Free : (slot : String) → slot_pattern slot ≡ true → Free name_mark slot
unfolding slot_pattern
slot_Free slot h = slot_pattern-char slot (ground arith)

named_Free :
    (name : String) (slot : Option String)
    → cookie_name_ok name ≡ true
    → valid_slot slot ≡ ok slot
    → Free name_mark (named_cookie name slot)
unfolding cookie_name_ok valid_slot slot_cookie_name
named_Free name none h k = name_Free name (ground arith)
named_Free name (some slot) h k =
    Free-append name_mark name (append_text "." slot) (name_Free name (ground arith)) (
      Free-append name_mark "." slot (unfold some_char is_white in refl)
        (slot_Free slot (ground arith)))

-- The browser keeps the name and the token.
stored-set_cookie :
    (config : TenantAuthConfig) (slot : Option String) (now : ℕ) (session : AuthSession)
    → Free name_mark (named_cookie (cookie_name_of config) slot)
    → Free value_mark session.token
    → stored (set_cookie config slot now (some session))
      ≡ (named_cookie (cookie_name_of config) slot, session.token)
unfolding stored
stored-set_cookie config slot now session name token =
    let age : ℕ = (session.expires_at - now) / 1000 in
    let key : String = named_cookie (cookie_name_of config) slot in
    rw
      (
        attributes-head config age,
        until_char-append 0x3b (pair key session.token) (append_text " Path=" (details config age))
            ";" (pair-Free key session.token (name, token)) refl,
        pair-cut key session.token (name, token),
      )
      refl

first_value-here :
    (name value : String) (before after : List (String × String))
    → first_value name before ≡ none
    → value ≢ ""
    → first_value name (before ++ (name, value) ∷ after) ≡ some value
unfolding first_value
first_value-here name value [] after h e =
    ground (arith, text_equality.same_iff name name, text_equality.same_iff value "")
first_value-here name value ((other, held) ∷ before) after h e =
    ground (arith, first_value-here name value before after)

-- What a slot's validation passes, it passes unchanged.
valid_slot-same :
    (wanted slot : Option String)
    → valid_slot wanted ≡ ok slot
    → (slot ≡ wanted) × (valid_slot slot ≡ ok slot)
unfolding valid_slot
valid_slot-same none slot h = ground arith
valid_slot-same (some wanted) slot h = ground arith

module _ (p : Ports) (tenant_id : String) (session : AuthSession) (wanted : Option String)
    (w v : World) (text : String)
    (written : session_cookie p tenant_id (some session) wanted w ≡ (ok text, v)) where
  -- What writing the cookie went through.
  written-parts :
      (config : TenantAuthConfig) × (config_for p tenant_id w ≡ (ok config, w))
      × (cookie_name_ok (cookie_name_of config) ≡ true)
      × (valid_slot wanted ≡ ok wanted)
      × (text ≡ set_cookie config wanted w.now (some session))
  unfolding session_cookie
  written-parts =
      let (config, u, found, rest) =
        >>=-ok (config_for p tenant_id)
          (λ config. lift (valid_slot wanted) >>= λ slot.
            clock >>= λ now. pure (set_cookie config slot now (some session)))
          w written in
      let (slot, u', passed, end) =
        >>=-ok (lift (valid_slot wanted))
          (λ slot. clock >>= λ now. pure (set_cookie config slot now (some session))) u rest in
      let checked = config_for-checked p tenant_id w u found in
      let valid : valid_slot wanted ≡ ok slot = cc in
      let same : slot ≡ wanted = (valid_slot-same wanted slot valid).0 in
      let there : u ≡ w = checked.0 in
      let here : u' ≡ u = cc in
      let written : text ≡ set_cookie config slot u'.now (some session) = cc in
      (
        config,
        subst (λ x. config_for p tenant_id w ≡ (ok config, x)) there found,
        checked.1,
        subst (λ x. valid_slot wanted ≡ ok x) same valid,
        cc,
      )

  -- A browser that keeps the cookie that sessionCookie wrote among other clean cookies, of which none
  -- before it has its name, sends a header from which sessionTokenFromCookie reads the session's token:
  -- for the usual cookie and for a slot's, if the token has no white space and no semicolon and is not
  -- empty, and the header is not longer than 16 KiB.
  pub cookie_round_trip :
      (u : World) (before after : List (String × String))
      → Free value_mark session.token
      → session.token ≢ ""
      → All Clean before
      → All Clean after
      → first_value (stored text).0 before ≡ none
      → utf16_length (header_of (before ++ stored text ∷ after)) ≤ max_cookie_header_length
      → session_token_from_cookie p tenant_id
          (some (header_of (before ++ stored text ∷ after)))
          wanted
          u
        ≡ (ok (some session.token), u)
  unfolding session_token_from_cookie
  cookie_round_trip u before after token some_token clean_before clean_after fresh short =
      let (config, found, named, valid, e) = written-parts in
      let key : String = named_cookie (cookie_name_of config) wanted in
      let name_free = named_Free (cookie_name_of config) wanted named valid in
      let kept : stored text ≡ (key, session.token) =
        ap stored e ∙ stored-set_cookie config wanted w.now session name_free token in
      let cookies = before ++ stored text ∷ after in
      let clean : All Clean cookies =
        All-append Clean before (stored text ∷ after) clean_before
          (subst Clean (sym kept) (name_free, token), clean_after) in
      let held : first_value key cookies ≡ some session.token =
        subst (λ x. first_value key (before ++ x ∷ after) ≡ some session.token) (sym kept)
          (first_value-here key session.token before after
            (subst (λ (x : String × String). first_value x.0 before ≡ none) kept fresh)
            some_token) in
      >>=-step (config_for p tenant_id)
        (λ c. lift (valid_slot wanted) >>= λ slot.
          pure (read_header (cookie_name_of c) slot (some (header_of cookies))))
        u (config_for-world p tenant_id w u found)
      ∙ >>=-step (lift (valid_slot wanted))
          (λ slot. pure (read_header (cookie_name_of config) slot (some (header_of cookies)))) u
          (ap (λ x. (x, u)) valid)
      ∙ ap (λ x. (ok x, u))
          (read_cookie-header (cookie_name_of config) wanted cookies clean short ∙ held)
