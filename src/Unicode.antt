-- ===== src/Unicode.antt =====
-- src/misc/unicode.hpp: `UnicodeUtil`. A byte is a number below 256. A mask is written as the
-- division or remainder that it is (`b & 0xC0 == 0x80` is `b / 64 == 2`), and an or of disjoint bits
-- as a sum. The width tables of the generated unicode_width.h are parameters.
use ydsh.Prelude.{
  Bool, List, [], false, get_or, if◌then◌else◌, leb, ltb, not, true, ℕ, ◌%◌, ◌&&◌, ◌*◌, ◌+◌, ◌-◌,
  ◌/◌, ◌==◌, ◌||◌, ◌∷◌,
}
use ydsh.Prelude.Int.{negsuc, ℤ, pos}
pub mod Decode
pub mod Encode
pub mod Utf16
mod Tests

abbrev pub Byte : Type 0
Byte = ℕ

-- The table of 256 entries, by its runs.
unfoldable pub utf8_byte_size : Byte → ℕ
utf8_byte_size b =
    if ltb b 128
    then 1
    else if ltb b 192
    then 0
    else if ltb b 224
    then 2
    else if ltb b 240
    then 3
    else if ltb b 248
    then 4
    else 0

unfoldable pub utf8_next_pos : ℕ → Byte → ℕ
utf8_next_pos at b = if ltb 0 (utf8_byte_size b) then at + utf8_byte_size b else at + 1

-- `(b & 0xC0) == 0x80`
abbrev pub is_tail : Byte → Bool
is_tail b = b / 64 == 2

abbrev pub validate_2 : Byte → List Byte → ℕ
validate_2 b₀ [] = 0
validate_2 b₀ (b₁ ∷ bs) = if not (is_tail b₁) || b₀ / 2 == 96 then 0 else 2

abbrev pub validate_3 : Byte → List Byte → ℕ
validate_3 b₀ [] = 0
validate_3 b₀ (b₁ ∷ []) = 0
validate_3 b₀ (b₁ ∷ b₂ ∷ bs) =
    if not (is_tail b₁)
      || not (is_tail b₂)
      || (b₀ == 224 && b₁ / 32 == 4)
      || (b₀ == 237 && b₁ / 32 == 5)
    then 0
    else 3

abbrev pub validate_4 : Byte → List Byte → ℕ
validate_4 b₀ [] = 0
validate_4 b₀ (b₁ ∷ []) = 0
validate_4 b₀ (b₁ ∷ b₂ ∷ []) = 0
validate_4 b₀ (b₁ ∷ b₂ ∷ b₃ ∷ bs) =
    if not (is_tail b₁)
      || not (is_tail b₂)
      || not (is_tail b₃)
      || (b₀ == 240 && b₁ / 16 == 8)
      || (b₀ == 244 && ltb 143 b₁)
      || ltb 244 b₀
    then 0
    else 4

unfoldable pub utf8_validate_char : List Byte → ℕ
utf8_validate_char [] = 0
utf8_validate_char (b₀ ∷ bs) =
    if ltb b₀ 128
    then 1
    else if b₀ / 32 == 6
    then validate_2 b₀ bs
    else if b₀ / 16 == 14
    then validate_3 b₀ bs
    else if b₀ / 8 == 30
    then validate_4 b₀ bs
    else 0

abbrev pub byte_at : List Byte → ℕ → ℕ
byte_at bs i = get_or bs i 0

-- The switch on the size: the code point, -1 for no valid character.
abbrev pub decode : List Byte → ℕ → ℤ
decode bs n =
    if n == 1
    then pos (byte_at bs 0)
    else if n == 2
    then pos (byte_at bs 0 % 32 * 64 + byte_at bs 1 % 64)
    else if n == 3
    then pos (byte_at bs 0 % 16 * 4096 + byte_at bs 1 % 64 * 64 + byte_at bs 2 % 64)
    else if n == 4
    then pos (
        byte_at bs 0 % 8 * 262144
        + byte_at bs 1 % 64 * 4096
        + byte_at bs 2 % 64 * 64
        + byte_at bs 3 % 64)
    else negsuc 0

unfoldable pub utf8_to_code_point : List Byte → ℕ × ℤ
utf8_to_code_point bs = (utf8_validate_char bs, decode bs (utf8_validate_char bs))

unfoldable pub is_valid_code_point : ℤ → Bool
is_valid_code_point (pos c) = leb c 1114111
is_valid_code_point (negsuc c) = false

abbrev pub encode : ℕ → List Byte
encode c =
    if leb c 127
    then c ∷ []
    else if leb c 2047
    then (192 + c / 64) ∷ (128 + c % 64) ∷ []
    else if leb c 65535
    then (224 + c / 4096) ∷ (128 + c / 64 % 64) ∷ (128 + c % 64) ∷ []
    else if leb c 1114111
    then (240 + c / 262144) ∷ (128 + c / 4096 % 64) ∷ (128 + c / 64 % 64) ∷ (128 + c % 64) ∷ []
    else []

-- The bytes that are written to `buf`; the result of the function is their count.
unfoldable pub code_point_to_utf8 : ℤ → List Byte
code_point_to_utf8 (pos c) = if is_valid_code_point (pos c) then encode c else []
code_point_to_utf8 (negsuc c) = []

unfoldable pub is_high_surrogate : ℕ → Bool
is_high_surrogate v = leb 55296 v && leb v 56319

unfoldable pub is_low_surrogate : ℕ → Bool
is_low_surrogate v = leb 56320 v && leb v 57343

unfoldable pub is_surrogate : ℕ → Bool
is_surrogate v = leb 55296 v && leb v 57343

unfoldable pub utf16_to_code_point : ℕ → ℕ → ℤ
utf16_to_code_point high low =
    if is_high_surrogate high && is_low_surrogate low
    then pos ((high - 55296) * 1024 + (low - 56320) + 65536)
    else negsuc 0

unfoldable pub is_bmp_code_point : ℤ → Bool
is_bmp_code_point (pos c) = leb c 65535
is_bmp_code_point (negsuc c) = false

unfoldable pub is_supplementary_code_point : ℤ → Bool
is_supplementary_code_point (pos c) = ltb 65535 c && leb c 1114111
is_supplementary_code_point (negsuc c) = false

pub data AmbiguousCharWidth : Type 0 where
  half_width : AmbiguousCharWidth
  full_width : AmbiguousCharWidth

abbrev pub is_full : AmbiguousCharWidth → Bool
is_full half_width = false
is_full full_width = true

-- `isCombiningChar`, `isAmbiguousChar` and `isWideChar`: the lookups in the generated tables.
pub record Tables : Type 0 where
  is_combining : ℕ → Bool
  is_ambiguous : ℕ → Bool
  is_wide : ℕ → Bool

unfoldable pub width : Tables → AmbiguousCharWidth → ℤ → ℤ
width t a (negsuc c) = negsuc 2
width t a (pos c) =
    if c == 0
    then pos 0
    else if leb 32 c && ltb c 127
    then pos 1
    else if ltb c 32 || (leb 127 c && ltb c 160)
    then negsuc 0
    else if t.is_combining c
    then negsuc 1
    else if is_full a && t.is_ambiguous c
    then pos 2
    else if ltb c 4352
    then pos 1
    else if t.is_wide c
    then pos 2
    else pos 1
