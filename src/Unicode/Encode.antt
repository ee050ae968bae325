-- ===== src/Unicode/Encode.antt =====
-- Decoding after encoding: `utf8ToCodePoint` of what `codePointToUtf8` writes.
use ydsh.Prelude.{
  List, arith, false, if◌then◌else◌, leb, length, refl, true, ℕ, ◌++◌, ◌∙◌, ◌≡◌, ◌≤◌,
}
use ydsh.Prelude.Int.{negsuc, pos}
use ydsh.Unicode.{
  utf8_to_code_point, code_point_to_utf8, encode, decode, utf8_validate_char, is_surrogate,
  is_valid_code_point, Byte,
}

-- The number of the bytes of a code point, 0 for a surrogate.
abbrev pub utf8_size : ℕ → ℕ
utf8_size c =
    if leb c 127
    then 1
    else if leb c 2047
    then 2
    else if leb c 65535
    then (if is_surrogate c then 0 else 3)
    else 4

pub validate-encode :
    (c : ℕ) (rest : List Byte) → c ≤ 1114111 → utf8_validate_char (encode c ++ rest) ≡ utf8_size c
unfolding utf8_validate_char is_surrogate
validate-encode c rest h = ground arith

pub decode-encode :
    (c : ℕ) (rest : List Byte)
    → c ≤ 1114111
    → is_surrogate c ≡ false
    → decode (encode c ++ rest) (utf8_size c) ≡ pos c
unfolding is_surrogate
decode-encode c rest h s = ground arith

length-encode : (c : ℕ) → c ≤ 1114111 → is_surrogate c ≡ false → length (encode c) ≡ utf8_size c
unfolding is_surrogate
length-encode c h s = ground arith

valid-le : (c : ℕ) → is_valid_code_point (pos c) ≡ true → c ≤ 1114111
unfolding is_valid_code_point
valid-le c v = ground arith

surrogate-IsValid : (c : ℕ) → is_surrogate c ≡ true → is_valid_code_point (pos c) ≡ true
unfolding is_valid_code_point is_surrogate
surrogate-IsValid c s = ground arith

utf8_size-surrogate : (c : ℕ) → is_surrogate c ≡ true → utf8_size c ≡ 0
unfolding is_surrogate
utf8_size-surrogate c s = ground arith

length-surrogate : (c : ℕ) → is_surrogate c ≡ true → length (encode c) ≡ 3
unfolding is_surrogate
length-surrogate c s = ground arith

pub utf8_roundtrip :
    (c : ℕ) (rest : List Byte)
    → is_valid_code_point (pos c) ≡ true
    → is_surrogate c ≡ false
    → utf8_to_code_point (code_point_to_utf8 (pos c) ++ rest)
      ≡ (length (code_point_to_utf8 (pos c)), pos c)
utf8_roundtrip c rest v s =
    let h = valid-le c v in
    unfold utf8_to_code_point code_point_to_utf8 in
    rw (v, validate-encode c rest h, decode-encode c rest h s, length-encode c h s)

-- A surrogate is encoded, in three bytes, but what is written is no valid character.
pub surrogate-invalid :
    (c : ℕ) (rest : List Byte)
    → is_surrogate c ≡ true
    → (length (code_point_to_utf8 (pos c)) ≡ 3)
      × (utf8_to_code_point (code_point_to_utf8 (pos c) ++ rest) ≡ (0, negsuc 0))
surrogate-invalid c rest s =
    let v = surrogate-IsValid c s in
    let e = validate-encode c rest (valid-le c v) ∙ utf8_size-surrogate c s in
    unfold code_point_to_utf8 utf8_to_code_point in rw (v, e) (length-surrogate c s, refl)
