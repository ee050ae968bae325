-- ===== src/Num.antt =====
-- src/misc/num_util.hpp: text to integers. A `const char *&begin` with its `end` is the list of the
-- characters that are left; the position that the callee leaves is a result. The type `T` is its
-- width `w` in bits (32 or 64), and an unsigned value is a number below 2 ^ w.
use ydsh.Prelude.{
  Bool, List, Option, [], false, if◌then◌else◌, leb, ltb, none, not, some, true, ℕ, ◌%◌, ◌&&◌, ◌*◌,
  ◌+◌, ◌-◌, ◌==◌, ◌^◌, ◌||◌, ◌∷◌,
}
use ydsh.Prelude.Int.{eqb_ℤ, negsuc, pos, ℤ}
pub mod Overflow
pub mod Digits
pub mod Signed
pub mod Convert
pub mod DigitValues
pub mod Written
mod Tests

abbrev pub Char : Type 0
Char = ℕ

pub data Errno : Type 0 where
  no_error : Errno
  invalid : Errno
  out_of_range : Errno

-- `std::pair<T, bool>`, with what `begin` and `errno` are left at.
pub record Parsed : Type 0 where
  value : ℕ
  status : Bool
  errno : Errno
  rest : List Char

-- The character constants that the code compares with.
abbrev pub char_0 : Char
char_0 = 48

abbrev pub char_9 : Char
char_9 = 57

abbrev pub char_a : Char
char_a = 97

abbrev pub char_f : Char
char_f = 102

abbrev pub char_upper_a : Char
char_upper_a = 65

abbrev pub char_upper_f : Char
char_upper_f = 70

abbrev pub char_x : Char
char_x = 120

abbrev pub char_upper_x : Char
char_upper_x = 88

abbrev pub char_o : Char
char_o = 111

abbrev pub char_upper_o : Char
char_upper_o = 79

abbrev pub char_minus : Char
char_minus = 45

-- The switch on the character after a leading '0'.
abbrev pub parse_base_after_0 : List Char → ℤ × List Char
parse_base_after_0 [] = (pos 8, char_0 ∷ [])
parse_base_after_0 (c ∷ cs) =
    if c == char_x || c == char_upper_x
    then (pos 16, cs)
    else if c == char_o || c == char_upper_o
    then (pos 8, cs)
    else (pos 8, c ∷ cs)

unfoldable pub parse_base : List Char → ℤ × List Char
parse_base [] = (negsuc 0, [])
parse_base (c ∷ cs) = if c == char_0 then parse_base_after_0 cs else (pos 10, c ∷ cs)

-- The overflow builtins: the flag, and the result modulo 2 ^ w.
unfoldable pub mul_overflow : ℕ → ℕ → ℕ → Bool × ℕ
mul_overflow w x y = (leb (2 ^ w) (x * y), (x * y) % 2 ^ w)

unfoldable pub add_overflow : ℕ → ℕ → ℕ → Bool × ℕ
add_overflow w x y = (leb (2 ^ w) (x + y), (x + y) % 2 ^ w)

-- `mul_overflow(ret, base, ret) || add_overflow(ret, v, ret)`: the second is not called after the
-- first has overflowed.
abbrev pub then_add : ℕ → ℕ → Bool × ℕ → Bool × ℕ
then_add w v (true, ret) = (true, ret)
then_add w v (false, ret) = add_overflow w ret v

unfoldable pub push_digit : ℕ → ℕ → ℕ → ℕ → Bool × ℕ
push_digit w base ret v = then_add w v (mul_overflow w ret base)

unfoldable pub decimal_digit : Char → Option ℕ
decimal_digit ch = if leb char_0 ch && leb ch char_9 then some (ch - char_0) else none

unfoldable pub hex_digit : Char → Option ℕ
hex_digit ch =
    if leb char_0 ch && leb ch char_9
    then some (ch - char_0)
    else if leb char_a ch && leb ch char_f
    then some (10 + (ch - char_a))
    else if leb char_upper_a ch && leb ch char_upper_f
    then some (10 + (ch - char_upper_a))
    else none

abbrev pub below_base : ℕ → Option ℕ → Option ℕ
below_base base none = none
below_base base (some v) = if leb base v then none else some v

-- The digit test of `parseOctalOrHex`, and the test `v >= baseT` after it.
unfoldable pub base_digit : ℕ → Char → Option ℕ
base_digit base ch = below_base base (hex_digit ch)

abbrev pub after_push : List Char → Char → Bool × ℕ → (ℕ → Parsed) → Parsed
after_push cs c (true, r) next = record {
  value = r;
  status = false;
  errno = out_of_range;
  rest = c ∷ cs;
}
after_push cs c (false, r) next = next r

abbrev pub after_digit : ℕ → ℕ → ℕ → List Char → Char → Option ℕ → (ℕ → Parsed) → Parsed
after_digit w base ret cs c none next = record {
  value = ret;
  status = false;
  errno = invalid;
  rest = c ∷ cs;
}
after_digit w base ret cs c (some v) next = after_push cs c (push_digit w base ret v) next

-- The do-while loop of `parseDecimal` and of `parseOctalOrHex`, which differ in their digit test. It
-- is entered with a character left, and ends when none is.
unfoldable pub digit_loop : ℕ → ℕ → (Char → Option ℕ) → ℕ → List Char → Parsed
digit_loop w base digit ret [] = record { value = ret; status = true; errno = no_error; rest = [] }
digit_loop w base digit ret (c ∷ cs) =
    after_digit w base ret cs c (digit c) (λ r. digit_loop w base digit r cs)

abbrev nothing_left : Parsed
nothing_left = record { value = 0; status = false; errno = invalid; rest = [] }

abbrev pub lone_zero : List Char → Parsed
lone_zero [] = record { value = 0; status = true; errno = no_error; rest = [] }
lone_zero (c ∷ cs) = record { value = 0; status = false; errno = invalid; rest = c ∷ cs }

unfoldable pub parse_decimal : ℕ → List Char → Parsed
parse_decimal w [] = nothing_left
parse_decimal w (c ∷ cs) =
    if c == char_0 then lone_zero cs else digit_loop w 10 decimal_digit 0 (c ∷ cs)

unfoldable pub parse_octal_or_hex : ℕ → List Char → ℕ → Parsed
parse_octal_or_hex w [] base = nothing_left
parse_octal_or_hex w (c ∷ cs) base = digit_loop w base (base_digit base) 0 (c ∷ cs)

-- The switch on the base.
abbrev pub parse_with : ℕ → ℤ × List Char → Parsed
parse_with w (base, cs) =
    if eqb_ℤ base (pos 8)
    then parse_octal_or_hex w cs 8
    else if eqb_ℤ base (pos 16)
    then parse_octal_or_hex w cs 16
    else if eqb_ℤ base (pos 10)
    then parse_decimal w cs
    else record { value = 0; status = false; errno = invalid; rest = cs }

-- `parseInteger` of an unsigned type. The base 0 asks for the base that the text starts with.
unfoldable pub parse_unsigned : ℕ → List Char → ℤ → Parsed
parse_unsigned w cs base =
    if eqb_ℤ base (pos 0) then parse_with w (parse_base cs) else parse_with w (base, cs)

-- The cast of an unsigned value to the signed type of its width.
unfoldable pub to_signed : ℕ → ℕ → ℤ
to_signed w v = if ltb v (2 ^ (w - 1)) then pos v else negsuc (2 ^ w - v - 1)

-- `~v + 1`, cast to the signed type.
unfoldable pub put_sign : ℕ → ℕ → ℤ
put_sign w v = to_signed w ((2 ^ w - 1 - v + 1) % 2 ^ w)

-- `~static_cast<UT>(v) + 1`: the magnitude of a negative value.
unfoldable pub drop_sign : ℕ → ℤ → ℕ
drop_sign w (pos v) = (2 ^ w - 1 - v + 1) % 2 ^ w
drop_sign w (negsuc v) = (2 ^ w - 1 - (2 ^ w - (v + 1)) + 1) % 2 ^ w

abbrev pub min_signed : ℕ → ℤ
min_signed w = negsuc (2 ^ (w - 1) - 1)

unfoldable pub make_signed : ℕ → ℕ → Bool → ℤ × Bool
make_signed w v true =
    if leb v (drop_sign w (min_signed w)) then (put_sign w v, true) else (to_signed w v, false)
make_signed w v false =
    if leb v (2 ^ (w - 1) - 1) then (to_signed w v, true) else (to_signed w v, false)

-- `if (begin != end && *begin == '-') { ++begin; sign = true; }`
abbrev pub take_sign : List Char → Bool × List Char
take_sign [] = (false, [])
take_sign (c ∷ cs) = if c == char_minus then (true, cs) else (false, c ∷ cs)

abbrev pub signed_result : ℕ → Bool → Parsed → ℤ × Bool
signed_result w sign p =
    if p.status then make_signed w p.value sign else (to_signed w p.value, false)

-- `convertToNum<T>` of a signed type: `parseInteger` of it.
unfoldable pub convert_to_num : ℕ → List Char → ℤ → ℤ × Bool
convert_to_num w cs base =
    let (sign, ds) = take_sign cs in signed_result w sign (parse_unsigned w ds base)

abbrev pub starts_decimal : List Char → Bool
starts_decimal [] = false
starts_decimal (c ∷ cs) = not (c == char_0)

abbrev pub literal_result : ℕ → Bool → Bool → Parsed → ℤ × Bool
literal_result w decimal negate p =
    if p.status && decimal
    then make_signed w p.value negate
    else if p.status && not negate
    then (to_signed w p.value, true)
    else (to_signed w p.value, false)

unfoldable pub from_int_literal : ℕ → List Char → ℤ × Bool
from_int_literal w cs =
    let (negate, ds) = take_sign cs in
    literal_result w (starts_decimal ds) negate (parse_unsigned w ds (pos 0))
