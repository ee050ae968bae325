-- ===== src/Unicode/Tests.antt =====
-- Tests of the UTF-8 and UTF-16 routines, and their theorems at concrete characters.
use ydsh.Prelude.{List, [], ap, false, length, refl, take, true, ◌++◌, ◌∷◌, ◌≡◌}
use ydsh.Prelude.Int.{negsuc, pos}
use ydsh.Unicode.{
  Byte, utf8_to_code_point, code_point_to_utf8, utf8_validate_char, is_surrogate,
  is_valid_code_point,
}
use ydsh.Unicode.Encode.{utf8_roundtrip}
use ydsh.Unicode.Decode.{utf8_to_code_point-roundtrip}

-- U+3042, in three bytes.
abbrev hiragana_a : List Byte
hiragana_a = 227 ∷ 129 ∷ 130 ∷ []

encodes : code_point_to_utf8 (pos 12354) ≡ hiragana_a
unfolding code_point_to_utf8 is_valid_code_point
encodes = refl

decodes : utf8_to_code_point hiragana_a ≡ (3, pos 12354)
unfolding utf8_to_code_point utf8_validate_char
decodes = refl

refuses_overlong : utf8_to_code_point (192 ∷ 128 ∷ []) ≡ (0, negsuc 0)
unfolding utf8_to_code_point utf8_validate_char
refuses_overlong = refl

utf8_roundtrip_example :
    utf8_to_code_point (code_point_to_utf8 (pos 128512) ++ 65 ∷ [])
    ≡ (length (code_point_to_utf8 (pos 128512)), pos 128512)
utf8_roundtrip_example =
    utf8_roundtrip 128512 (65 ∷ []) (unfold is_valid_code_point in refl)
      (unfold is_surrogate in refl)

utf8_to_code_point-roundtrip_example :
    (is_valid_code_point (pos 12354) ≡ true)
    × (is_surrogate 12354 ≡ false)
    × (code_point_to_utf8 (pos 12354) ≡ take (utf8_to_code_point hiragana_a).0 hiragana_a)
utf8_to_code_point-roundtrip_example =
    utf8_to_code_point-roundtrip hiragana_a 12354 (ap (λ r. r.1) decodes)
