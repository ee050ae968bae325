-- ===== src/Uri/RoundTrip.antt =====
-- Decoding after encoding.
use ydsh.Prelude.{
  All, Bool-cases, List, [], arith, false, if◌then◌else◌, inl, inr, ltb, refl, suc, true, ℕ, ◌%◌,
  ◌*◌, ◌++◌, ◌+◌, ◌-◌, ◌/◌, ◌<◌, ◌==◌, ◌^◌, ◌∙◌, ◌∷◌, ◌≡◌, ◌≢◌, ◌≤◌, ap,
}
use ydsh.Uri.{
  Byte, percent, is_escaped, as_unsigned, upper_hex, hex_digits, pad_two, format_02x, encode_char,
  encode, is_hex, hex_to_num, decode,
}

-- An ASCII character in two digits.
format-ascii :
    (c : Byte) → c < 128 → format_02x (as_unsigned c) ≡ upper_hex (c / 16) ∷ upper_hex (c % 16) ∷ []
unfolding format_02x
format-ascii c h = ground arith

decode_plain : (c : Byte) (cs : List Byte) → c ≢ percent → decode (c ∷ cs) ≡ c ∷ decode cs
unfolding decode
decode_plain c [] ne = refl
decode_plain c (d ∷ []) ne = refl
decode_plain c (d ∷ e ∷ cs) ne = let t : (c == percent) ≡ false = ground arith in rw t refl

upper_hex-is_hex : (d : ℕ) → d < 16 → is_hex (upper_hex d) ≡ true
unfolding is_hex
upper_hex-is_hex d h = ground arith

hex_to_num-upper_hex : (d : ℕ) → d < 16 → hex_to_num (upper_hex d) ≡ d
unfolding hex_to_num
hex_to_num-upper_hex d h = ground arith

decode_escape :
    (x y : ℕ) (cs : List Byte)
    → x < 16
    → y < 16
    → decode (percent ∷ upper_hex x ∷ upper_hex y ∷ cs) ≡ (16 * x + y) ∷ decode cs
unfolding decode
decode_escape x y cs hx hy =
    let value : (16 * x + y) % 256 ≡ 16 * x + y = omega arith in
    rw
      (
        upper_hex-is_hex x hx,
        upper_hex-is_hex y hy,
        hex_to_num-upper_hex x hx,
        hex_to_num-upper_hex y hy,
        value,
      )
      refl

percent-escaped : (c : Byte) → is_escaped c ≡ false → c ≢ percent
unfolding is_escaped
percent-escaped c h e = ground arith

decode-encode_char :
    (c : Byte) (cs : List Byte) → c < 128 → decode (encode_char c ++ cs) ≡ c ∷ decode cs
unfolding encode_char
decode-encode_char c cs h = elim (Bool-cases (is_escaped c)) [
  | inl e ↦
      rw (e, format-ascii c h)
        (decode_escape (c / 16) (c % 16) cs (omega arith) (omega arith)
          ∙ ap (λ x. x ∷ decode cs) (omega arith))
  | inr e ↦ rw e (decode_plain c cs (percent-escaped c e))
]

-- A text of ASCII characters is decoded from its encoding.
pub decode-encode : (cs : List Byte) → All (λ c. c < 128) cs → decode (encode cs) ≡ cs
unfolding encode
decode-encode [] h = unfold decode in refl
decode-encode (c ∷ cs) h =
    decode-encode_char c (encode cs) h.0 ∙ ap (λ x. c ∷ x) (decode-encode cs h.1)

hex_digits-suc :
    (fuel n : ℕ)
    → 0 < n
    → hex_digits (suc fuel) n ≡ hex_digits fuel (n / 16) ++ upper_hex (n % 16) ∷ []
hex_digits-suc fuel n h = let t : (n == 0) ≡ false = ground arith in rw t refl

-- A byte that is no ASCII character is printed as a negative number.
format_wide :
    (b : Byte)
    → 128 ≤ b
    → b < 256
    → format_02x (as_unsigned b)
      ≡ 70 ∷ 70 ∷ 70 ∷ 70 ∷ 70 ∷ 70 ∷ upper_hex (b / 16) ∷ upper_hex (b % 16) ∷ []
unfolding format_02x
format_wide b low high =
    let k : ℕ = b / 16 in
    let small : ltb b 128 ≡ false = ground arith in
    let lowest : (2 ^ 32 - 256 + b) % 16 ≡ b % 16 = omega arith in
    let rest : (2 ^ 32 - 256 + b) / 16 ≡ 268435440 + k = omega arith in
    let next : (268435440 + k) % 16 ≡ k = omega arith in
    let rest' : (268435440 + k) / 16 ≡ 16777215 = omega arith in
    ap (λ (n : ℕ). pad_two (hex_digits 8 n)) (ap (λ t. if t then b else 2 ^ 32 - 256 + b) small)
    ∙ ap pad_two (
        hex_digits-suc 7 (2 ^ 32 - 256 + b) (omega arith)
        ∙ ap (λ d. hex_digits 7 ((2 ^ 32 - 256 + b) / 16) ++ upper_hex d ∷ []) lowest
        ∙ ap (λ n. hex_digits 7 n ++ upper_hex (b % 16) ∷ []) rest
        ∙ ap (λ ds. ds ++ upper_hex (b % 16) ∷ [])
            (hex_digits-suc 6 (268435440 + k) (omega arith)
              ∙ ap (λ d. hex_digits 6 ((268435440 + k) / 16) ++ upper_hex d ∷ []) next
              ∙ ap (λ n. hex_digits 6 n ++ upper_hex k ∷ []) rest'))

wide_escaped : (b : Byte) → 128 ≤ b → is_escaped b ≡ true
unfolding is_escaped
wide_escaped b h = ground arith

-- The encoding of a byte that is no ASCII character has eight digits, and decoding it gives seven
-- bytes, not the one.
pub decode-encode_wide :
    (b : Byte)
    → 128 ≤ b
    → b < 256
    → decode (encode (b ∷ []))
      ≡ 255 ∷ 70 ∷ 70 ∷ 70 ∷ 70 ∷ upper_hex (b / 16) ∷ upper_hex (b % 16) ∷ []
unfolding encode encode_char decode
decode-encode_wide b low high = rw (wide_escaped b low, format_wide b low high) refl
