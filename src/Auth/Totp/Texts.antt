-- ===== src/Auth/Totp/Texts.antt =====
-- The texts that base32Encode of packages/auth/src/totp.ts writes, and what base32Decode makes of a
-- character.
use structure.Prelude.{
  ◌==◌, nat_equality, ◌&&◌, ◌||◌, All-append, filter, ℕ, List, [], ◌∷◌, ◌++◌, some, ◌+◌, ◌-◌, ◌*◌,
  ◌/◌, ◌%◌, ◌^◌, ◌<◌, ◌≤◌, ◌≡◌, refl, ap, ◌∙◌, sym, arith, leb, ltb, true, zero, suc, Bool,
  append-nil, Bool-cases, inl, append_assoc, inr, All, is_white, not,
}
use structure.Auth.Totp.{base32_char, base32_index, drain, encode_bytes, decode_chars}

base32_index-char : (i : ℕ) → i < 32 → base32_index (base32_char i) ≡ some i
base32_index-char i h = ground arith

-- A character that leaves less than a byte in hand.
pub decode_chars-keep :
    (i : ℕ) (text : List ℕ) (bits value : ℕ) (out : List ℕ)
    → i < 32
    → bits + 5 < 8
    → decode_chars (base32_char i ∷ text) bits value out
      ≡ decode_chars text (bits + 5) ((value * 32 + i) % 2 ^ 32) out
unfolding decode_chars
decode_chars-keep i text bits value out h k =
    rw (base32_index-char i h, decode_chars) (ground arith)

-- A character that completes a byte.
pub decode_chars-emit :
    (i : ℕ) (text : List ℕ) (bits value : ℕ) (out : List ℕ)
    → i < 32
    → 8 ≤ bits + 5
    → decode_chars (base32_char i ∷ text) bits value out
      ≡ decode_chars text
          (bits + 5 - 8)
          ((value * 32 + i) % 2 ^ 32)
          (out ++ (((value * 32 + i) % 2 ^ 32) / 2 ^ (bits + 5 - 8)) % 256 ∷ [])
unfolding decode_chars
decode_chars-emit i text bits value out h k =
    rw (base32_index-char i h, decode_chars) (ground arith)

drain-append :
    (rounds bits value : ℕ) (output : List ℕ)
    → drain rounds bits value output
      ≡ (output ++ (drain rounds bits value []).0, (drain rounds bits value []).1)
unfolding drain
drain-append zero bits value output = rw (append-nil output) refl
drain-append (suc rounds) bits value output = elim (Bool-cases (leb 5 bits)) [
  | inl more ↦
      let char : ℕ = base32_char ((value / 2 ^ (bits - 5)) % 32) in
      rw
        (
          more,
          drain-append rounds (bits - 5) value (output ++ char ∷ []),
          drain-append rounds (bits - 5) value (char ∷ []),
          append_assoc output (char ∷ []) (drain rounds (bits - 5) value []).0,
        )
        refl
  | inr less ↦ rw (less, append-nil output) refl
]

pub encode_bytes-append :
    (bytes : List ℕ) (bits value : ℕ) (output : List ℕ)
    → encode_bytes bytes bits value output ≡ output ++ encode_bytes bytes bits value []
unfolding encode_bytes
encode_bytes-append [] bits value output = elim (Bool-cases (ltb 0 bits)) [
  | inl some_left ↦ rw some_left refl
  | inr none_left ↦ rw (none_left, append-nil output) refl
]
encode_bytes-append (byte ∷ bytes) bits value output =
    let next : ℕ = (value * 256 + byte) % 2 ^ 32 in
    let (written, left) = drain 3 (bits + 8) next [] in
    rw (drain-append 3 (bits + 8) next output) (
      encode_bytes-append bytes left next (output ++ written)
      ∙ (append_assoc output written (encode_bytes bytes left next [])
          ∙ ap (λ t. output ++ t) (sym (encode_bytes-append bytes left next written))))

-- The characters that the encoder writes: capital letters, and the digits 2 to 7.
abbrev is_base32 : ℕ → Bool
is_base32 c = (leb 65 c && leb c 90) || (leb 50 c && leb c 55)

abbrev pub Written : List ℕ → Type 0
Written text = All (λ c. is_base32 c ≡ true) text

base32_char-is_base32 : (i : ℕ) → is_base32 (base32_char (i % 32)) ≡ true
base32_char-is_base32 i = ground arith

Written-char : (text : List ℕ) (i : ℕ) → Written text → Written (text ++ base32_char (i % 32) ∷ [])
Written-char text i written =
    All-append (λ c. is_base32 c ≡ true) text (base32_char (i % 32) ∷ []) written
      (base32_char-is_base32 i, tt)

drain-Written :
    (rounds bits value : ℕ) (output : List ℕ)
    → Written output
    → Written (drain rounds bits value output).0
unfolding drain
drain-Written zero bits value output written = written
drain-Written (suc rounds) bits value output written = elim (Bool-cases (leb 5 bits)) [
  | inl more ↦ rw more (
      drain-Written rounds (bits - 5) value
        (output ++ base32_char ((value / 2 ^ (bits - 5)) % 32) ∷ [])
        (Written-char output (value / 2 ^ (bits - 5)) written))
  | inr less ↦ rw less written
]

pub encode_bytes-Written :
    (bytes : List ℕ) (bits value : ℕ) (output : List ℕ)
    → Written output
    → Written (encode_bytes bytes bits value output)
unfolding encode_bytes
encode_bytes-Written [] bits value output written = elim (Bool-cases (ltb 0 bits)) [
  | inl some_left ↦ rw some_left (Written-char output (value * 2 ^ (5 - bits)) written)
  | inr none_left ↦ rw none_left written
]
encode_bytes-Written (byte ∷ bytes) bits value output written =
    let next : ℕ = (value * 256 + byte) % 2 ^ 32 in
    encode_bytes-Written bytes (drain 3 (bits + 8) next output).1 next
      (drain 3 (bits + 8) next output).0 (drain-Written 3 (bits + 8) next output written)

-- Neither padding nor white space is among them.
pub Written-clean :
    (text : List ℕ) → Written text → filter (λ c. not (c == 61 || is_white c)) text ≡ text
unfolding is_white
Written-clean [] written = refl
Written-clean (c ∷ text) written = ground (arith, Written-clean text written.1, written.0)
