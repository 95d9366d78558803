-- ===== src/Auth/Cookie/RoundTrip.antt =====
-- The token of a session cookie is read back from the header that a browser sends.
use structure.Prelude.{
  String, ℕ, Bool, Option, List, [], ◌∷◌, some, none, if◌then◌else◌, ◌&&◌, ◌||◌, not, append_text,
  split_at, split_on, some_char, is_white, ◌≡◌, refl, nat_same, arith, ap, ◌∙◌, ◌==◌, text_equality,
  All, utf16_length, ◌≤◌,
}
use text.Mathlib.TextLemmas.{nil-append, cons-append}
use structure.Auth.Cookie.{
  token_in, pair, read_cookie, too_long, named_cookie, max_cookie_header_length,
}
use structure.Auth.Cookie.Texts.{
  Free, Free-append, split_at-append, split_on-append, split_on-Free, trim-Free, trim-space,
}

-- What a cookie's value may not hold, and what its name may not.
abbrev pub value_mark : ℕ → Bool
value_mark c = is_white c || nat_same c 0x3b

abbrev pub name_mark : ℕ → Bool
name_mark c = is_white c || nat_same c 0x3b || nat_same c 0x3d

abbrev pub Clean : String × String → Type 0
Clean (name, value) = Free name_mark name × Free value_mark value

-- The header of a browser that holds these cookies.
unfoldable pub header_of : List (String × String) → String
header_of [] = ""
header_of ((name, value) ∷ []) = pair name value
header_of ((name, value) ∷ next ∷ cookies) =
    append_text (pair name value) (String.◌∷◌ ";" (String.◌∷◌ " " (header_of (next ∷ cookies))))

-- The first cookie of the name that has a value.
unfoldable pub first_value : String → List (String × String) → Option String
first_value name [] = none
first_value name ((here, value) ∷ cookies) =
    if here == name && not (value == "") then some value else first_value name cookies

Free-white : (s : String) → Free value_mark s → Free is_white s
unfolding some_char
Free-white String.[] h = refl
Free-white (String.◌∷◌ c s) h = ground (arith, Free-white s)

pub Free-semicolon : (s : String) → Free value_mark s → Free (λ c. nat_same c 0x3b) s
unfolding some_char
Free-semicolon String.[] h = refl
Free-semicolon (String.◌∷◌ c s) h = ground (arith, Free-semicolon s)

Free-equals : (s : String) → Free name_mark s → Free (λ c. nat_same c 0x3d) s
unfolding some_char
Free-equals String.[] h = refl
Free-equals (String.◌∷◌ c s) h = ground (arith, Free-equals s)

Free-value : (s : String) → Free name_mark s → Free value_mark s
unfolding some_char
Free-value String.[] h = refl
Free-value (String.◌∷◌ c s) h = ground (arith, Free-value s)

pair-eq : (name value : String) → pair name value ≡ append_text name (String.◌∷◌ "=" value)
unfolding pair
pair-eq name value =
    ap (append_text name) (cons-append "=" String.[] value ∙ ap (String.◌∷◌ "=") (nil-append value))

module _ (name value : String) (clean : Clean (name, value)) where
  pub pair-cut : split_at 0x3d (pair name value) ≡ some (name, value)
  pair-cut =
      rw (pair-eq name value) (split_at-append 0x3d name value "=" (Free-equals name clean.0) refl)

  pub pair-Free : Free (λ c. nat_same c 0x3b) (pair name value)
  pair-Free = rw (pair-eq name value) (
      Free-append (λ c. nat_same c 0x3b) name (String.◌∷◌ "=" value)
        (Free-semicolon name (Free-value name clean.0)) behind)
    where
      behind : Free (λ c. nat_same c 0x3b) (String.◌∷◌ "=" value)
      behind = unfold some_char in Free-semicolon value clean.1

  -- One segment, with or without the space that joins it to the one before.
  token_in-pair :
      (wanted : String) (segments : List String)
      → token_in wanted (pair name value ∷ segments)
        ≡ (if name == wanted && not (value == "") then some value else token_in wanted segments)
  unfolding token_in
  token_in-pair wanted segments =
      rw
        (
          pair-cut,
          token_in,
          trim-Free name (Free-white name (Free-value name clean.0)),
          trim-Free value (Free-white value clean.1),
        )
        refl

  space_cut : split_at 0x3d (String.◌∷◌ " " (pair name value)) ≡ some (String.◌∷◌ " " name, value)
  unfolding split_at
  space_cut = rw pair-cut refl

  token_in-space :
      (wanted : String) (segments : List String)
      → token_in wanted (String.◌∷◌ " " (pair name value) ∷ segments)
        ≡ (if name == wanted && not (value == "") then some value else token_in wanted segments)
  unfolding token_in
  token_in-space wanted segments =
      rw
        (
          space_cut,
          token_in,
          trim-space name,
          trim-Free name (Free-white name (Free-value name clean.0)),
          trim-Free value (Free-white value clean.1),
        )
        refl

split_on-space :
    (s part : String) (parts : List String)
    → split_on 0x3b s ≡ part ∷ parts
    → split_on 0x3b (String.◌∷◌ " " s) ≡ String.◌∷◌ " " part ∷ parts
unfolding split_on
split_on-space s part parts e = rw e refl

header-cut :
    (name value : String) (next : String × String) (cookies : List (String × String))
    → Clean (name, value)
    → split_on 0x3b (header_of ((name, value) ∷ next ∷ cookies))
      ≡ pair name value ∷ split_on 0x3b (String.◌∷◌ " " (header_of (next ∷ cookies)))
unfolding header_of
header-cut name value next cookies clean =
    split_on-append 0x3b (pair name value) (String.◌∷◌ " " (header_of (next ∷ cookies))) ";"
      (pair-Free name value clean) refl

-- A cookie that follows another is read as the first one is, past the space.
after_space :
    (wanted name value : String) (cookies : List (String × String))
    → Clean (name, value)
    → All Clean cookies
    → token_in wanted (split_on 0x3b (String.◌∷◌ " " (header_of ((name, value) ∷ cookies))))
      ≡ first_value wanted ((name, value) ∷ cookies)
unfolding header_of first_value token_in
after_space wanted name value [] clean rest =
    rw
      (split_on-space (pair name value) (pair name value) []
        (split_on-Free 0x3b (pair name value) (pair-Free name value clean)))
      (token_in-space name value clean wanted [])
after_space wanted name value ((other, held) ∷ cookies) clean rest =
    rw
      (split_on-space (header_of ((name, value) ∷ (other, held) ∷ cookies)) (pair name value)
        (split_on 0x3b (String.◌∷◌ " " (header_of ((other, held) ∷ cookies))))
        (header-cut name value (other, held) cookies clean))
      (token_in-space name value clean wanted
          (split_on 0x3b (String.◌∷◌ " " (header_of ((other, held) ∷ cookies))))
        ∙ ap (λ (o : Option String). if name == wanted && not (value == "") then some value else o)
            (after_space wanted other held cookies rest.0 rest.1))

token_in-header :
    (wanted : String) (cookies : List (String × String))
    → All Clean cookies
    → token_in wanted (split_on 0x3b (header_of cookies)) ≡ first_value wanted cookies
unfolding header_of first_value token_in split_on split_at
token_in-header wanted [] clean = refl
token_in-header wanted ((name, value) ∷ []) clean =
    rw (split_on-Free 0x3b (pair name value) (pair-Free name value clean.0))
      (token_in-pair name value clean.0 wanted [])
token_in-header wanted ((name, value) ∷ (other, held) ∷ cookies) clean =
    rw (header-cut name value (other, held) cookies clean.0) (
      token_in-pair name value clean.0 wanted
        (split_on 0x3b (String.◌∷◌ " " (header_of ((other, held) ∷ cookies))))
      ∙ ap (λ (o : Option String). if name == wanted && not (value == "") then some value else o)
          (after_space wanted other held cookies clean.1.0 clean.1.1))

-- A header of clean cookies that is not too long is read as the cookies it holds: the first cookie
-- of the asked name that has a value gives the token, and no other cookie does.
pub read_cookie-header :
    (cookie_name : String) (slot : Option String) (cookies : List (String × String))
    → All Clean cookies
    → utf16_length (header_of cookies) ≤ max_cookie_header_length
    → read_cookie cookie_name slot (header_of cookies)
      ≡ first_value (named_cookie cookie_name slot) cookies
unfolding read_cookie too_long
read_cookie-header cookie_name slot cookies clean short =
    ground (arith, token_in-header (named_cookie cookie_name slot) cookies clean)
