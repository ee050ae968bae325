-- ===== src/Grapheme/Tests.antt =====
-- Tests of the grapheme scanner, and its theorems at concrete texts.
use ydsh.Prelude.{List, [], arith, false, none, refl, some, true, ◌∷◌, ◌≡◌, length}
use ydsh.Prelude.Int.{pos}
use ydsh.Unicode.{Byte, utf8_byte_size, utf8_next_pos, utf8_to_code_point, utf8_validate_char}
use ydsh.Grapheme.{
  sot, any, cr, lf, extend, zwj, regional_indicator, pictographic, Interval, new_scanner,
  no_cluster, next, string_count, string_chars, string_char_at, get_break_property, found,
  out_of_range,
}
use ydsh.Grapheme.Rules.{scan_all, boundaries, scan_all-boundaries}
use ydsh.Grapheme.Endless.{string_count-none, marked, next-marked}

-- Four lines of the generated table.
abbrev few : List Interval
few =
    record { first = pos 10; last = pos 10; property = lf }
    ∷ record { first = pos 13; last = pos 13; property = cr }
    ∷ record { first = pos 768; last = pos 879; property = extend }
    ∷ record { first = pos 127462; last = pos 127487; property = regional_indicator }
    ∷ []

-- A letter, a mark, a carriage return, a line feed.
abbrev short_text : List Byte
short_text = 97 ∷ 204 ∷ 128 ∷ 13 ∷ 10 ∷ []

two_chars : string_chars few 9 short_text ≡ some ((97 ∷ 204 ∷ 128 ∷ []) ∷ (13 ∷ 10 ∷ []) ∷ [])
unfolding string_chars utf8_next_pos utf8_byte_size utf8_to_code_point utf8_validate_char
two_chars = refl

counts_two : string_count few 9 short_text ≡ some 2
unfolding string_count utf8_next_pos utf8_byte_size utf8_to_code_point utf8_validate_char
counts_two = refl

second_char : string_char_at few 9 short_text (pos 1) ≡ some (found (13 ∷ 10 ∷ []))
unfolding string_char_at utf8_next_pos utf8_byte_size utf8_to_code_point utf8_validate_char
second_char = refl

no_third : string_char_at few 9 short_text (pos 2) ≡ some (out_of_range 2)
unfolding string_char_at utf8_next_pos utf8_byte_size utf8_to_code_point utf8_validate_char
no_third = refl

-- Three regional indicators, and a family joined by ZWJ.
flags :
    scan_all sot (regional_indicator ∷ regional_indicator ∷ regional_indicator ∷ [])
    ≡ false ∷ false ∷ true ∷ []
unfolding scan_all
flags = refl

family :
    scan_all sot (pictographic ∷ extend ∷ zwj ∷ pictographic ∷ any ∷ [])
    ≡ false ∷ false ∷ false ∷ false ∷ true ∷ []
unfolding scan_all
family = refl

scan_all-boundaries_example :
    scan_all sot (pictographic ∷ zwj ∷ pictographic ∷ [])
    ≡ boundaries [] (pictographic ∷ zwj ∷ pictographic ∷ [])
scan_all-boundaries_example =
    scan_all-boundaries (pictographic ∷ zwj ∷ pictographic ∷ []) (refl, (refl, (refl, tt)))

string_count-none_example : string_count few 1000 (227 ∷ []) ≡ none
string_count-none_example = string_count-none few 227 1000 (unfold utf8_byte_size in omega arith)

next-marked_example :
    (length (next few (marked 32) new_scanner no_cluster).1.code_points ≡ 33)
    × ((next few (marked 32) new_scanner no_cluster).1.overrun ≡ true)
next-marked_example =
    next-marked few 32 (unfold get_break_property in refl) (unfold get_break_property in refl)
