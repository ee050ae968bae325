-- ===== src/Unicode/Utf16.antt =====
-- Surrogate pairs: what `utf16ToCodePoint` makes of them.
use ydsh.Prelude.{arith, true, ℕ, ◌%◌, ◌+◌, ◌-◌, ◌/◌, ◌↔◌, ◌≡◌, ◌⊎◌}
use ydsh.Prelude.Int.{negsuc, pos}
use ydsh.Unicode.{
  utf16_to_code_point, is_high_surrogate, is_low_surrogate, is_surrogate,
  is_supplementary_code_point,
}

-- The pair of a supplementary code point (Unicode 3.9, definition D91).
abbrev pub high_of : ℕ → ℕ
high_of c = 55296 + (c - 65536) / 1024

abbrev pub low_of : ℕ → ℕ
low_of c = 56320 + (c - 65536) % 1024

-- Every supplementary code point is read from its surrogate pair, and from no other pair.
pub utf16_to_code_point_iff :
    (high low c : ℕ)
    → is_supplementary_code_point (pos c) ≡ true
    → (utf16_to_code_point high low ≡ pos c) ↔ ((high ≡ high_of c) × (low ≡ low_of c))
unfolding utf16_to_code_point is_high_surrogate is_low_surrogate is_supplementary_code_point
utf16_to_code_point_iff high low c h = ground arith

-- Two units are a pair, and give a supplementary code point, or give -1; a pair is of surrogates.
pub utf16_to_code_point-cases :
    (high low : ℕ)
    → ((is_supplementary_code_point (utf16_to_code_point high low) ≡ true)
        × (is_surrogate high ≡ true)
        × (is_surrogate low ≡ true))
      ⊎ (utf16_to_code_point high low ≡ negsuc 0)
unfolding utf16_to_code_point is_high_surrogate is_low_surrogate is_supplementary_code_point
    is_surrogate
utf16_to_code_point-cases high low = ground arith
