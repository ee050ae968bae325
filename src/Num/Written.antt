-- ===== src/Num/Written.antt =====
-- The integer that a text is written for, from the digits and the prefixes themselves.
use ydsh.Prelude.{
  ==_iff, Bool-cases, List, Option, [], ap, false, if◌then◌else◌, inl, inr, none, refl, some, sym,
  true, ℕ, ◌<◌, ◌==◌, ◌||◌, ◌∷◌, ◌≡◌,
}
use ydsh.Prelude.Int.{eqb_ℤ, pos, ℤ}
use ydsh.Num.{Char, decimal_digit, parse_base, parse_base_after_0, convert_to_num}
use ydsh.Num.Digits.{value_from}
use ydsh.Num.DigitValues.{digit_in, base_digit-in, decimal_digit-in}
use ydsh.Num.Convert.{
  octal_or_hex_value, decimal_value, value_with, number, negated, written, ReadsSigned,
  convert_to_num-written,
}
use mathlib.Core.Path.{fun_ext, subst}

-- A numeral in a base is a digit or more; a decimal one has no further digit behind a 0.
abbrev pub numeral : ℕ → List Char → Option ℕ
numeral base [] = none
numeral base (c ∷ cs) = value_from (digit_in base) base 0 (c ∷ cs)

abbrev pub decimal_numeral : List Char → Option ℕ
decimal_numeral [] = none
decimal_numeral (c ∷ []) = numeral 10 (c ∷ [])
decimal_numeral (c ∷ d ∷ cs) = if c == 48 then none else numeral 10 (c ∷ d ∷ cs)

-- Behind a 0: `x` or `X` and a numeral in base 16, `o` or `O` and one in base 8, or one in base 8 with
-- the 0 as its first digit.
abbrev pub after_0 : List Char → Option ℕ
after_0 [] = some 0
after_0 (c ∷ cs) =
    if c == 120 || c == 88
    then numeral 16 cs
    else if c == 111 || c == 79
    then numeral 8 cs
    else numeral 8 (48 ∷ c ∷ cs)

abbrev pub prefixed_numeral : List Char → Option ℕ
prefixed_numeral [] = none
prefixed_numeral (c ∷ cs) = if c == 48 then after_0 cs else decimal_numeral (c ∷ cs)

-- The number that a text is written for, in base 8, 10 or 16, or in the base of its prefix.
abbrev pub number_of : List Char → ℤ → Option ℕ
number_of cs base =
    if eqb_ℤ base (pos 0)
    then prefixed_numeral cs
    else if eqb_ℤ base (pos 8)
    then numeral 8 cs
    else if eqb_ℤ base (pos 16)
    then numeral 16 cs
    else if eqb_ℤ base (pos 10)
    then decimal_numeral cs
    else none

-- With a hyphen in front, which negates it.
abbrev pub integer_of : List Char → ℤ → Option ℤ
integer_of [] base = negated false (number_of [] base)
integer_of (c ∷ cs) base =
    if c == 45 then negated true (number_of cs base) else negated false (number_of (c ∷ cs) base)

octal_or_hex-numeral : (base : ℕ) (cs : List Char) → octal_or_hex_value cs base ≡ numeral base cs
octal_or_hex-numeral base [] = refl
octal_or_hex-numeral base (c ∷ cs) =
    ap (λ f. value_from f base 0 (c ∷ cs)) (fun_ext (base_digit-in base))

value_from-decimal :
    (cs : List Char) → value_from decimal_digit 10 0 cs ≡ value_from (digit_in 10) 10 0 cs
value_from-decimal cs = ap (λ f. value_from f 10 0 cs) (fun_ext decimal_digit-in)

decimal-numeral : (cs : List Char) → decimal_value cs ≡ decimal_numeral cs
decimal-numeral [] = refl
decimal-numeral (c ∷ []) = elim (Bool-cases (c == 48)) [
  | inl e ↦
      let zero_char : c ≡ 48 = (==_iff c 48).0 e in
      rw e (sym (ap (λ x. numeral 10 (x ∷ [])) zero_char))
  | inr e ↦ rw e (value_from-decimal (c ∷ []))
]
decimal-numeral (c ∷ d ∷ cs) = elim (Bool-cases (c == 48)) [
  | inl e ↦ rw e refl
  | inr e ↦ rw e (value_from-decimal (c ∷ d ∷ cs))
]

after_0-eq : (cs : List Char) → value_with (parse_base_after_0 cs) ≡ after_0 cs
after_0-eq [] = octal_or_hex-numeral 8 (48 ∷ [])
after_0-eq (c ∷ cs) = elim (Bool-cases (c == 120 || c == 88)) [
  | inl e ↦ rw e (octal_or_hex-numeral 16 cs)
  | inr e ↦ elim (Bool-cases (c == 111 || c == 79)) [
    | inl f ↦ rw (e, f) (octal_or_hex-numeral 8 cs)
    | inr f ↦ rw (e, f) (octal_or_hex-numeral 8 (c ∷ cs))
  ]
]

prefixed-numeral : (cs : List Char) → value_with (parse_base cs) ≡ prefixed_numeral cs
unfolding parse_base
prefixed-numeral [] = refl
prefixed-numeral (c ∷ cs) = elim (Bool-cases (c == 48)) [
  | inl e ↦ rw e (after_0-eq cs)
  | inr e ↦ rw e (decimal-numeral (c ∷ cs))
]

number-of : (cs : List Char) (base : ℤ) → number cs base ≡ number_of cs base
number-of cs base = elim (Bool-cases (eqb_ℤ base (pos 0))) [
  | inl e ↦ rw e (prefixed-numeral cs)
  | inr e ↦ elim (Bool-cases (eqb_ℤ base (pos 8))) [
    | inl f ↦ rw (e, f) (octal_or_hex-numeral 8 cs)
    | inr f ↦ elim (Bool-cases (eqb_ℤ base (pos 16))) [
      | inl g ↦ rw (e, f, g) (octal_or_hex-numeral 16 cs)
      | inr g ↦ elim (Bool-cases (eqb_ℤ base (pos 10))) [
        | inl h ↦ rw (e, f, g, h) (decimal-numeral cs)
        | inr h ↦ rw (e, f, g, h) refl
      ]
    ]
  ]
]

written-integer_of : (cs : List Char) (base : ℤ) → written cs base ≡ integer_of cs base
written-integer_of [] base = ap (negated false) (number-of [] base)
written-integer_of (c ∷ cs) base = elim (Bool-cases (c == 45)) [
  | inl e ↦ rw e (ap (negated true) (number-of cs base))
  | inr e ↦ rw e (ap (negated false) (number-of (c ∷ cs) base))
]

-- `convertToNum` of a signed type gives the integer that the text is written for, by its sign, prefix
-- and digits, if it is one of w bits, and fails if it is not, or if the text is no integer.
pub convert_to_num_lem :
    (w : ℕ) (cs : List Char) (base : ℤ)
    → 0 < w
    → ReadsSigned w (integer_of cs base) (convert_to_num w cs base)
convert_to_num_lem w cs base p =
    subst (λ o. ReadsSigned w o (convert_to_num w cs base)) (written-integer_of cs base)
      (convert_to_num-written w cs base p)
