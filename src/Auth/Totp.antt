-- ===== src/Auth/Totp.antt =====
-- packages/auth/src/totp.ts: base32 and the time-based code. The keyed hash is a parameter.
pub mod Texts
pub mod RoundTrip
use structure.Prelude.{
  ℕ, Option, List, [], ◌∷◌, ◌++◌, some, none, if◌then◌else◌, ◌&&◌, ◌+◌, ◌-◌, ◌*◌, ◌/◌, ◌%◌, ◌^◌,
  text_equality, leb, ltb, suc, zero, Result, or_else, Bool, last, true, length, filter, err, ◌==◌,
  ok, not, ◌||◌, false, every, is_white, nat_equality,
}
use structure.Auth.Model.{AuthError, validation_error}

-- The text whose characters have these codes is written as the list of the codes.
abbrev pub base32_char : ℕ → ℕ
base32_char index = if ltb index 26 then 65 + index else 24 + index

-- `BASE32_ALPHABET.indexOf(character)`
abbrev pub base32_index : ℕ → Option ℕ
base32_index c =
    if leb 65 c && leb c 90
    then some (c - 65)
    else if leb 50 c && leb c 55
    then some (c - 24)
    else none

-- The while loop of base32Encode, which takes five bits at a time: 12 bits are at most there.
unfoldable pub drain : ℕ → ℕ → ℕ → List ℕ → List ℕ × ℕ
drain zero bits value output = (output, bits)
drain (suc rounds) bits value output =
    let more =
      drain rounds (bits - 5) value (output ++ base32_char ((value / 2 ^ (bits - 5)) % 32) ∷ []) in
    if leb 5 bits then more else (output, bits)

-- `value` is a word of 32 bits.
unfoldable pub encode_bytes : List ℕ → ℕ → ℕ → List ℕ → List ℕ
encode_bytes [] bits value output =
    if ltb 0 bits then output ++ base32_char ((value * 2 ^ (5 - bits)) % 32) ∷ [] else output
encode_bytes (byte ∷ bytes) bits value output =
    let next : ℕ = (value * 256 + byte) % 2 ^ 32 in
    let (written, left) = drain 3 (bits + 8) next output in encode_bytes bytes left next written

unfoldable pub base32_encode : List ℕ → List ℕ
base32_encode bytes = encode_bytes bytes 0 0 []

unfoldable pub decode_chars : List ℕ → ℕ → ℕ → List ℕ → Option (List ℕ)
decode_chars [] bits value out = some out
decode_chars (c ∷ text) bits value out =
    let index = base32_index c in
    elim index [
      | none ↦ none
      | some i ↦
          let next : ℕ = (value * 32 + i) % 2 ^ 32 in
          if leb 8 (bits + 5)
          then decode_chars text (bits + 5 - 8) next
              (out ++ ((next / 2 ^ (bits + 5 - 8)) % 256) ∷ [])
          else decode_chars text (bits + 5) next out
    ]

-- `input.replace(/[=\s]/gu, "")`, then the language's upper case, a parameter.
unfoldable pub base32_decode : (List ℕ → List ℕ) → List ℕ → Result AuthError (List ℕ)
base32_decode upper_case input =
    elim (decode_chars (upper_case (filter (λ c. not (c == 61 || is_white c)) input)) 0 0 []) [
      | none ↦ err (validation_error "secret" "must be valid base32")
      | some bytes ↦ ok bytes
    ]

-- A number below 2 ^ 32 as four bytes, the highest first.
abbrev word_bytes : ℕ → List ℕ
word_bytes n = (n / 2 ^ 24) % 256 ∷ (n / 2 ^ 16) % 256 ∷ (n / 2 ^ 8) % 256 ∷ n % 256 ∷ []

unfoldable pub counter_bytes : ℕ → List ℕ
counter_bytes counter = word_bytes (counter / 2 ^ 32) ++ word_bytes (counter % 2 ^ 32)

-- `digest[i] ?? 0`
abbrev byte_at : List ℕ → ℕ → ℕ
byte_at [] i = 0
byte_at (b ∷ bytes) zero = b
byte_at (b ∷ bytes) (suc i) = byte_at bytes i

-- Dynamic truncation: 31 bits at an offset that the last byte gives.
unfoldable pub truncate : List ℕ → ℕ
truncate digest =
    let offset = or_else (last digest) 0 % 16 in
    (byte_at digest offset % 128) * 2 ^ 24
    + (byte_at digest (offset + 1) % 256) * 2 ^ 16
    + (byte_at digest (offset + 2) % 256) * 2 ^ 8
    + byte_at digest (offset + 3) % 256

abbrev digit_code : ℕ → ℕ
digit_code n = 48 + n % 10

-- `String(n % 1_000_000).padStart(6, "0")`
unfoldable pub six_digits : ℕ → List ℕ
six_digits n =
    digit_code (n / 100000)
    ∷ digit_code (n / 10000)
    ∷ digit_code (n / 1000)
    ∷ digit_code (n / 100)
    ∷ digit_code (n / 10)
    ∷ digit_code n
    ∷ []

abbrev pub Hmac : Type 0
Hmac = List ℕ → List ℕ → Result AuthError (List ℕ)

unfoldable pub hotp : Hmac → List ℕ → ℕ → Result AuthError (List ℕ)
hotp hmac secret counter = elim (hmac secret (counter_bytes counter)) [
  | err e ↦ err e
  | ok digest ↦ ok (six_digits (truncate digest))
]

abbrev pub totp_step_seconds : ℕ
totp_step_seconds = 30

abbrev pub time_counter : ℕ → ℕ
time_counter now = now / 1000 / totp_step_seconds

abbrev same_codes : List ℕ → List ℕ → Bool
same_codes [] [] = true
same_codes (a ∷ left) (b ∷ right) = a == b && same_codes left right
same_codes left right = false

-- The last of the steps whose candidate is the code.
unfoldable pub matched_step :
    Hmac → List ℕ → List ℕ → List ℕ → Option ℕ → Result AuthError (Option ℕ)
matched_step hmac secret code [] matched = ok matched
matched_step hmac secret code (step ∷ steps) matched = elim (hotp hmac secret step) [
  | err e ↦ err e
  | ok candidate ↦
      matched_step hmac secret code steps (if same_codes candidate code then some step else matched)
]

-- `/^\d{6}$/`
abbrev is_six_digits : List ℕ → Bool
is_six_digits code = length code == 6 && every (λ c. leb 48 c && leb c 57) code

-- The step whose code this is, of the previous, the current, and the next one.
unfoldable pub match_totp_code :
    Hmac → (List ℕ → List ℕ) → List ℕ → List ℕ → ℕ → Result AuthError (Option ℕ)
match_totp_code hmac upper_case secret_base32 code now =
    if not (is_six_digits code) then ok none else elim (base32_decode upper_case secret_base32) [
      | err e ↦ err e
      | ok secret ↦
          let current = time_counter now in
          matched_step hmac secret code ((current - 1) ∷ current ∷ (current + 1) ∷ []) none
    ]
