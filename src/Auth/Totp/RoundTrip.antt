-- ===== src/Auth/Totp/RoundTrip.antt =====
-- base32Decode of packages/auth/src/totp.ts takes back what base32Encode wrote.
use structure.Prelude.{
  nat_equality, ℕ, List, [], ◌∷◌, ◌++◌, some, ◌+◌, ◌*◌, ◌/◌, ◌%◌, ◌^◌, ◌<◌, ◌≡◌, refl, ap, ◌∙◌, sym,
  arith, append-nil, append_assoc, All,
}
use structure.Auth.Totp.{
  base32_decode, base32_char, drain, encode_bytes, base32_encode, decode_chars, ok,
}
use structure.Auth.Totp.Texts.{
  decode_chars-emit, encode_bytes-append, Written, decode_chars-keep, encode_bytes-Written,
  Written-clean,
}

-- With b bits that the encoder has not written and d that the decoder has not, which make one byte
-- together, what is left to encode is decoded after that byte.
abbrev Trip : ℕ → ℕ → List ℕ → Type 0
Trip b d bytes =
    (value held byte : ℕ) (out : List ℕ)
    → byte < 256
    → (held % 2 ^ d) * 2 ^ b + value % 2 ^ b ≡ byte
    → decode_chars (encode_bytes bytes b value []) d held out ≡ some (out ++ byte ∷ bytes)

-- At the border of a byte nothing is in hand.
abbrev Start : List ℕ → Type 0
Start bytes =
    (value held : ℕ) (out : List ℕ)
    → decode_chars (encode_bytes bytes 0 value []) 0 held out ≡ some (out ++ bytes)

end_3 : Trip 3 5 []
unfolding encode_bytes decode_chars
end_3 value held byte out small e =
    decode_chars-emit ((value * 2 ^ 2) % 32) [] 5 held out omega arith omega arith
    ∙ ap (λ x. some (out ++ x ∷ [])) omega arith

one_char_0 : (byte : ℕ) (bytes : List ℕ) → byte < 256 → Trip 3 5 bytes → Start (byte ∷ bytes)
unfolding encode_bytes drain
one_char_0 byte bytes small trip value held out =
    let next : ℕ = (value * 256 + byte) % 2 ^ 32 in
    let first : ℕ = (next / 2 ^ 3) % 32 in
    ap (λ t. decode_chars t 0 held out) (encode_bytes-append bytes 3 next (base32_char first ∷ []))
    ∙ (decode_chars-keep first (encode_bytes bytes 3 next []) 0 held out omega arith omega arith
        ∙ trip next ((held * 32 + first) % 2 ^ 32) byte out small omega arith)

end_1 : Trip 1 7 []
unfolding encode_bytes decode_chars
end_1 value held byte out small e =
    decode_chars-emit ((value * 2 ^ 4) % 32) [] 7 held out omega arith omega arith
    ∙ ap (λ x. some (out ++ x ∷ [])) omega arith

end_4 : Trip 4 4 []
unfolding encode_bytes decode_chars
end_4 value held byte out small e =
    decode_chars-emit ((value * 2 ^ 1) % 32) [] 4 held out omega arith omega arith
    ∙ ap (λ x. some (out ++ x ∷ [])) omega arith

end_2 : Trip 2 6 []
unfolding encode_bytes decode_chars
end_2 value held byte out small e =
    decode_chars-emit ((value * 2 ^ 3) % 32) [] 6 held out omega arith omega arith
    ∙ ap (λ x. some (out ++ x ∷ [])) omega arith

two_chars_3 :
    (next_byte : ℕ) (bytes : List ℕ)
    → next_byte < 256
    → Trip 1 7 bytes
    → Trip 3 5 (next_byte ∷ bytes)
unfolding encode_bytes drain
two_chars_3 next_byte bytes small trip value held byte out fits e =
    let next : ℕ = (value * 256 + next_byte) % 2 ^ 32 in
    let first : ℕ = (next / 2 ^ 6) % 32 in
    let second : ℕ = (next / 2 ^ 1) % 32 in
    let taken : ℕ = (held * 32 + first) % 2 ^ 32 in
    let rest : List ℕ = encode_bytes bytes 1 next [] in
    ap (λ t. decode_chars t 5 held out)
      (encode_bytes-append bytes 1 next (base32_char first ∷ base32_char second ∷ []))
    ∙ (decode_chars-emit first (base32_char second ∷ rest) 5 held out omega arith omega arith
        ∙ (ap (λ x. decode_chars (base32_char second ∷ rest) 2 taken (out ++ x ∷ [])) omega arith
            ∙ (decode_chars-keep second rest 2 taken (out ++ byte ∷ []) omega arith omega arith
                ∙ (trip next ((taken * 32 + second) % 2 ^ 32) next_byte (out ++ byte ∷ []) small
                      omega arith
                    ∙ ap some (append_assoc out (byte ∷ []) (next_byte ∷ bytes))))))

two_chars_4 :
    (next_byte : ℕ) (bytes : List ℕ)
    → next_byte < 256
    → Trip 2 6 bytes
    → Trip 4 4 (next_byte ∷ bytes)
unfolding encode_bytes drain
two_chars_4 next_byte bytes small trip value held byte out fits e =
    let next : ℕ = (value * 256 + next_byte) % 2 ^ 32 in
    let first : ℕ = (next / 2 ^ 7) % 32 in
    let second : ℕ = (next / 2 ^ 2) % 32 in
    let taken : ℕ = (held * 32 + first) % 2 ^ 32 in
    let rest : List ℕ = encode_bytes bytes 2 next [] in
    ap (λ t. decode_chars t 4 held out)
      (encode_bytes-append bytes 2 next (base32_char first ∷ base32_char second ∷ []))
    ∙ (decode_chars-emit first (base32_char second ∷ rest) 4 held out omega arith omega arith
        ∙ (ap (λ x. decode_chars (base32_char second ∷ rest) 1 taken (out ++ x ∷ [])) omega arith
            ∙ (decode_chars-keep second rest 1 taken (out ++ byte ∷ []) omega arith omega arith
                ∙ (trip next ((taken * 32 + second) % 2 ^ 32) next_byte (out ++ byte ∷ []) small
                      omega arith
                    ∙ ap some (append_assoc out (byte ∷ []) (next_byte ∷ bytes))))))

one_char_1 :
    (next_byte : ℕ) (bytes : List ℕ)
    → next_byte < 256
    → Trip 4 4 bytes
    → Trip 1 7 (next_byte ∷ bytes)
unfolding encode_bytes drain
one_char_1 next_byte bytes small trip value held byte out fits e =
    let next : ℕ = (value * 256 + next_byte) % 2 ^ 32 in
    let first : ℕ = (next / 2 ^ 4) % 32 in
    let taken : ℕ = (held * 32 + first) % 2 ^ 32 in
    let rest : List ℕ = encode_bytes bytes 4 next [] in
    ap (λ t. decode_chars t 7 held out) (encode_bytes-append bytes 4 next (base32_char first ∷ []))
    ∙ (decode_chars-emit first rest 7 held out omega arith omega arith
        ∙ (ap (λ x. decode_chars rest 4 taken (out ++ x ∷ [])) omega arith
            ∙ (trip next taken next_byte (out ++ byte ∷ []) small omega arith
                ∙ ap some (append_assoc out (byte ∷ []) (next_byte ∷ bytes)))))

two_chars_2 :
    (next_byte : ℕ) (bytes : List ℕ) → next_byte < 256 → Start bytes → Trip 2 6 (next_byte ∷ bytes)
unfolding encode_bytes drain
two_chars_2 next_byte bytes small start value held byte out fits e =
    let next : ℕ = (value * 256 + next_byte) % 2 ^ 32 in
    let first : ℕ = (next / 2 ^ 5) % 32 in
    let second : ℕ = (next / 2 ^ 0) % 32 in
    let taken : ℕ = (held * 32 + first) % 2 ^ 32 in
    let ended : ℕ = (taken * 32 + second) % 2 ^ 32 in
    let rest : List ℕ = encode_bytes bytes 0 next [] in
    ap (λ t. decode_chars t 6 held out)
      (encode_bytes-append bytes 0 next (base32_char first ∷ base32_char second ∷ []))
    ∙ (decode_chars-emit first (base32_char second ∷ rest) 6 held out omega arith omega arith
        ∙ (ap (λ x. decode_chars (base32_char second ∷ rest) 3 taken (out ++ x ∷ [])) omega arith
            ∙ (decode_chars-emit second rest 3 taken (out ++ byte ∷ []) omega arith omega arith
                ∙ (ap (λ x. decode_chars rest 0 ended ((out ++ byte ∷ []) ++ x ∷ [])) omega arith
                    ∙ (start next ended ((out ++ byte ∷ []) ++ next_byte ∷ [])
                        ∙ ap some (
                            append_assoc (out ++ byte ∷ []) (next_byte ∷ []) bytes
                            ∙ append_assoc out (byte ∷ []) (next_byte ∷ bytes)))))))

abbrev Bytes : List ℕ → Type 0
Bytes bytes = All (λ (byte : ℕ). byte < 256) bytes

-- The five states that the two can be in, from byte to byte.
Trip-all :
    (bytes : List ℕ)
    → Bytes bytes
    → Start bytes × Trip 3 5 bytes × Trip 1 7 bytes × Trip 4 4 bytes × Trip 2 6 bytes
unfolding encode_bytes decode_chars
Trip-all [] small = (λ value held out. ap some (sym (append-nil out)), end_3, end_1, end_4, end_2)
Trip-all (byte ∷ bytes) small =
    let (start, at_3, at_1, at_4, at_2) = Trip-all bytes small.1 in
    (
      one_char_0 byte bytes small.0 at_3,
      two_chars_3 byte bytes small.0 at_1,
      one_char_1 byte bytes small.0 at_4,
      two_chars_4 byte bytes small.0 at_2,
      two_chars_2 byte bytes small.0 start,
    )

-- The text that base32Encode writes for bytes is decoded to these bytes, if the language's upper case
-- leaves a text of capital letters and of the digits 2 to 7 as it is.
pub base32_round_trip :
    (upper_case : List ℕ → List ℕ) (bytes : List ℕ)
    → ((text : List ℕ) → Written text → upper_case text ≡ text)
    → Bytes bytes
    → base32_decode upper_case (base32_encode bytes) ≡ ok bytes
unfolding base32_decode base32_encode
base32_round_trip upper_case bytes upper small =
    let written : Written (encode_bytes bytes 0 0 []) = encode_bytes-Written bytes 0 0 [] tt in
    rw
      (
        Written-clean (encode_bytes bytes 0 0 []) written,
        upper (encode_bytes bytes 0 0 []) written,
        (Trip-all bytes small).0 0 0 [],
        base32_decode,
      )
      refl
