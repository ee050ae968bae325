-- ===== src/Unicode/Decode.antt =====
-- Encoding after decoding: `codePointToUtf8` of what `utf8ToCodePoint` reads, and the sizes that
-- `utf8ByteSize` and `utf8ValidateChar` give.
use ydsh.Prelude.{
  List, [], arith, false, if◌then◌else◌, inl, inr, length, refl, sym, take, true, ℕ, ◌%◌, ◌*◌, ◌+◌,
  ◌/◌, ◌<◌, ◌∙◌, ◌∷◌, ◌≡◌, ◌≢◌, ◌≤◌, ◌⊎◌,
}
use ydsh.Prelude.Int.{pos}
use mathlib.Core.Path.{subst}
use ydsh.Unicode.{
  utf8_to_code_point, code_point_to_utf8, encode, decode, utf8_validate_char, is_surrogate,
  is_valid_code_point, Byte, utf8_byte_size, validate_2, validate_3, validate_4,
}

-- The check answers 0, or the size that the first byte tells, and there are as many bytes.
pub validate-byte_size :
    (b : Byte) (bs : List Byte)
    → (utf8_validate_char (b ∷ bs) ≡ 0)
      ⊎ ((utf8_validate_char (b ∷ bs) ≡ utf8_byte_size b)
          × (utf8_byte_size b ≤ length (b ∷ bs))
          × (0 < utf8_byte_size b))
validate-byte_size b [] = unfold utf8_validate_char utf8_byte_size in ground arith
validate-byte_size b (b₁ ∷ []) = unfold utf8_validate_char utf8_byte_size in ground arith
validate-byte_size b (b₁ ∷ b₂ ∷ []) = unfold utf8_validate_char utf8_byte_size in ground arith
validate-byte_size b (b₁ ∷ b₂ ∷ b₃ ∷ bs) = unfold utf8_validate_char utf8_byte_size in ground arith

-- What a character that passes the check decodes to: its encoding is the bytes of the character.
abbrev pub Decodes : List Byte → Type 0
Decodes bs =
    (c : ℕ) × (decode bs (utf8_validate_char bs) ≡ pos c)
    × (c ≤ 1114111)
    × (is_surrogate c ≡ false)
    × (encode c ≡ take (utf8_validate_char bs) bs)

decodes-1 : (b : Byte) (bs : List Byte) → b < 128 → Decodes (b ∷ bs)
unfolding utf8_validate_char is_surrogate
decodes-1 b bs h = (b, ground arith, omega arith, ground arith, ground arith)

decodes-2 :
    (b b₁ : Byte) (bs : List Byte) → b / 32 ≡ 6 → validate_2 b (b₁ ∷ bs) ≢ 0 → Decodes (b ∷ b₁ ∷ bs)
unfolding utf8_validate_char is_surrogate
decodes-2 b b₁ bs h k =
    (b % 32 * 64 + b₁ % 64, ground arith, ground arith, ground arith, ground arith)

decodes-3 :
    (b b₁ b₂ : Byte) (bs : List Byte)
    → b / 16 ≡ 14
    → validate_3 b (b₁ ∷ b₂ ∷ bs) ≢ 0
    → Decodes (b ∷ b₁ ∷ b₂ ∷ bs)
unfolding utf8_validate_char is_surrogate
decodes-3 b b₁ b₂ bs h k =
    (b % 16 * 4096 + b₁ % 64 * 64 + b₂ % 64, ground arith, ground arith, ground arith, ground arith)

decodes-4 :
    (b b₁ b₂ b₃ : Byte) (bs : List Byte)
    → b / 8 ≡ 30
    → validate_4 b (b₁ ∷ b₂ ∷ b₃ ∷ bs) ≢ 0
    → Decodes (b ∷ b₁ ∷ b₂ ∷ b₃ ∷ bs)
unfolding utf8_validate_char is_surrogate
decodes-4 b b₁ b₂ b₃ bs h k = (
  b % 8 * 262144 + b₁ % 64 * 4096 + b₂ % 64 * 64 + b₃ % 64,
  ground arith,
  ground arith,
  ground arith,
  ground arith,
)

-- The four shapes of a character.
Shape : Byte → List Byte → Type 0
Shape b bs =
    (b < 128)
    ⊎ ((b / 32 ≡ 6) × (validate_2 b bs ≢ 0))
    ⊎ ((b / 16 ≡ 14) × (validate_3 b bs ≢ 0))
    ⊎ ((b / 8 ≡ 30) × (validate_4 b bs ≢ 0))

Shape-of : (b : Byte) (bs : List Byte) → utf8_validate_char (b ∷ bs) ≢ 0 → Shape b bs
unfolding utf8_validate_char Shape
Shape-of b bs h = ground arith

two : (b : Byte) (bs : List Byte) → b / 32 ≡ 6 → validate_2 b bs ≢ 0 → Decodes (b ∷ bs)
two b [] h k = absurd (k refl)
two b (b₁ ∷ bs) h k = decodes-2 b b₁ bs h k

three : (b : Byte) (bs : List Byte) → b / 16 ≡ 14 → validate_3 b bs ≢ 0 → Decodes (b ∷ bs)
three b [] h k = absurd (k refl)
three b (b₁ ∷ []) h k = absurd (k refl)
three b (b₁ ∷ b₂ ∷ bs) h k = decodes-3 b b₁ b₂ bs h k

four : (b : Byte) (bs : List Byte) → b / 8 ≡ 30 → validate_4 b bs ≢ 0 → Decodes (b ∷ bs)
four b [] h k = absurd (k refl)
four b (b₁ ∷ []) h k = absurd (k refl)
four b (b₁ ∷ b₂ ∷ []) h k = absurd (k refl)
four b (b₁ ∷ b₂ ∷ b₃ ∷ bs) h k = decodes-4 b b₁ b₂ b₃ bs h k

decodes : (b : Byte) (bs : List Byte) → Shape b bs → Decodes (b ∷ bs)
unfolding Shape
decodes b bs (inl h) = decodes-1 b bs h
decodes b bs (inr (inl (h, k))) = two b bs h k
decodes b bs (inr (inr (inl (h, k)))) = three b bs h k
decodes b bs (inr (inr (inr (h, k)))) = four b bs h k

no_bytes : utf8_validate_char [] ≡ 0
unfolding utf8_validate_char
no_bytes = refl

not_zero-Decodes : (bs : List Byte) → utf8_validate_char bs ≢ 0 → Decodes bs
not_zero-Decodes [] h = absurd (h no_bytes)
not_zero-Decodes (b ∷ bs) h = decodes b bs (Shape-of b bs h)

pos-size : (bs : List Byte) (n c : ℕ) → decode bs n ≡ pos c → n ≢ 0
pos-size bs n c h e = ground arith

pos_inj : (a b : ℕ) → pos a ≡ pos b → a ≡ b
pos_inj a b h = ground arith

IsValid_of_le : (c : ℕ) → c ≤ 1114111 → is_valid_code_point (pos c) ≡ true
unfolding is_valid_code_point
IsValid_of_le c h = ground arith

-- If a character is read from the bytes, then its code point is valid and no surrogate, and
-- encoding it gives the bytes that were read.
pub utf8_to_code_point-roundtrip :
    (bs : List Byte) (c : ℕ)
    → (utf8_to_code_point bs).1 ≡ pos c
    → (is_valid_code_point (pos c) ≡ true)
      × (is_surrogate c ≡ false)
      × (code_point_to_utf8 (pos c) ≡ take (utf8_to_code_point bs).0 bs)
unfolding utf8_to_code_point code_point_to_utf8
utf8_to_code_point-roundtrip bs c h =
    let (d, e, le, s, k) = not_zero-Decodes bs (pos-size bs _ c h) in
    let same : d ≡ c = pos_inj d c (sym e ∙ h) in
    let valid = IsValid_of_le d le in
    subst
      (λ x.
        (is_valid_code_point (pos x) ≡ true)
        × (is_surrogate x ≡ false)
        × ((if is_valid_code_point (pos x) then encode x else [])
            ≡ take (utf8_validate_char bs) bs))
      same (valid, s, rw valid k)
