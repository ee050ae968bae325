-- ===== src/Num/Tests.antt =====
-- Tests of the number parsers, and their theorems at concrete texts.
use ydsh.Prelude.{List, [], arith, false, refl, some, true, ◌∷◌, ◌≡◌}
use ydsh.Prelude.Int.{negsuc, pos}
use ydsh.Num.{
  Char, convert_to_num, from_int_literal, parse_unsigned, parse_base, to_signed, digit_loop,
  decimal_digit, invalid, make_signed, parse_decimal, push_digit, mul_overflow, add_overflow,
  drop_sign, put_sign, parse_octal_or_hex, base_digit, hex_digit,
}
use ydsh.Num.Digits.{value_from}
use ydsh.Num.Convert.{ReadsSigned, number}
use ydsh.Num.Written.{integer_of, convert_to_num_lem}

-- "-128", "128", "0xff", "08" and "-0x80".
abbrev minus_128 : List Char
minus_128 = 45 ∷ 49 ∷ 50 ∷ 56 ∷ []

abbrev plain_128 : List Char
plain_128 = 49 ∷ 50 ∷ 56 ∷ []

abbrev hex_ff : List Char
hex_ff = 48 ∷ 120 ∷ 102 ∷ 102 ∷ []

abbrev bad_octal : List Char
bad_octal = 48 ∷ 56 ∷ []

abbrev minus_hex_80 : List Char
minus_hex_80 = 45 ∷ 48 ∷ 120 ∷ 56 ∷ 48 ∷ []

reads_least : convert_to_num 8 minus_128 (pos 0) ≡ (negsuc 127, true)
unfolding convert_to_num parse_unsigned parse_base parse_decimal digit_loop decimal_digit push_digit
    mul_overflow add_overflow make_signed drop_sign put_sign to_signed
reads_least = refl

refuses_one_more : (convert_to_num 8 plain_128 (pos 0)).1 ≡ false
unfolding convert_to_num parse_unsigned parse_base parse_decimal digit_loop decimal_digit push_digit
    mul_overflow add_overflow make_signed
refuses_one_more = refl

reads_hex_pattern : from_int_literal 8 hex_ff ≡ (negsuc 0, true)
unfolding from_int_literal parse_unsigned parse_base parse_octal_or_hex digit_loop base_digit
    hex_digit push_digit mul_overflow add_overflow to_signed
reads_hex_pattern = refl

refuses_bad_octal : (parse_unsigned 32 bad_octal (pos 0)).errno ≡ invalid
unfolding parse_unsigned parse_base parse_octal_or_hex digit_loop base_digit hex_digit
refuses_bad_octal = refl

convert_to_num_example :
    ReadsSigned 32 (integer_of minus_hex_80 (pos 0)) (convert_to_num 32 minus_hex_80 (pos 0))
convert_to_num_example = convert_to_num_lem 32 minus_hex_80 (pos 0) (omega arith)

number-hex_ff : number hex_ff (pos 0) ≡ some 255
unfolding parse_base base_digit hex_digit
number-hex_ff = refl

value-plain_128 : value_from decimal_digit 10 0 plain_128 ≡ some 128
unfolding decimal_digit
value-plain_128 = refl
