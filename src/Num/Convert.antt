-- ===== src/Num/Convert.antt =====
-- `convertToNum` and `fromIntLiteral` against the integer that a text is written for.
use ydsh.Prelude.{
  Bool, Bool-cases, List, Option, Option-cases, [], ap, arith, false, if◌then◌else◌, inr, lt_or_le,
  none, not, refl, some, true, ℕ, ◌<◌, ◌==◌, ◌^◌, ◌∷◌, ◌≡◌, ◌≤◌, ◌⊎◌, inl,
}
use ydsh.Prelude.Int.{eqb_ℤ, negsuc, pos, ℤ}
use mathlib.Core.Path.{subst}
use native.Mathlib.Nat.{one-le-pow}
use ydsh.Num.{
  lone_zero, Char, Parsed, parse_base, parse_decimal, parse_octal_or_hex, parse_unsigned,
  parse_with, base_digit, decimal_digit, digit_loop, char_0, take_sign, convert_to_num,
  from_int_literal, to_signed, signed_result, starts_decimal, lone_zero,
}
use ydsh.Num.Digits.{value_from, digit_loop-reads, digit_loop-over, digit_loop-none}
use ydsh.Num.Signed.{InRange, signed, InRange-lt, make_signed-InRange, make_signed-not-InRange}

-- The unbounded number that a text is written for, in a base.
abbrev pub octal_or_hex_value : List Char → ℕ → Option ℕ
octal_or_hex_value [] base = none
octal_or_hex_value (c ∷ cs) base = value_from (base_digit base) base 0 (c ∷ cs)

abbrev only_zero : List Char → Option ℕ
only_zero [] = some 0
only_zero (c ∷ cs) = none

abbrev pub decimal_value : List Char → Option ℕ
decimal_value [] = none
decimal_value (c ∷ cs) =
    if c == char_0 then only_zero cs else value_from decimal_digit 10 0 (c ∷ cs)

abbrev pub value_with : ℤ × List Char → Option ℕ
value_with (base, cs) =
    if eqb_ℤ base (pos 8)
    then octal_or_hex_value cs 8
    else if eqb_ℤ base (pos 16)
    then octal_or_hex_value cs 16
    else if eqb_ℤ base (pos 10)
    then decimal_value cs
    else none

abbrev pub number : List Char → ℤ → Option ℕ
number cs base = if eqb_ℤ base (pos 0) then value_with (parse_base cs) else value_with (base, cs)

-- What a parser of unsigned numbers of w bits must answer for a number, or for no number.
abbrev pub Reads : ℕ → Option ℕ → Parsed → Type 0
Reads w none p = p.status ≡ false
Reads w (some v) p =
    ((v < 2 ^ w) × (p.status ≡ true) × (p.value ≡ v)) ⊎ ((2 ^ w ≤ v) × (p.status ≡ false))

digit_loop-Reads :
    (w base : ℕ) (digit : Char → Option ℕ) (cs : List Char)
    → 0 < base
    → Reads w (value_from digit base 0 cs) (digit_loop w base digit 0 cs)
digit_loop-Reads w base digit cs p =
    let q = one-le-pow w 2 (omega arith) in
    elim (Option-cases (value_from digit base 0 cs)) [
      | inl e ↦ rw e (digit_loop-none w base digit 0 cs e q)
      | inr (v, e) ↦ rw e (elim (lt_or_le v (2 ^ w)) [
        | inl lt ↦
            let r = digit_loop-reads w base digit 0 v cs p e lt in
            inl (lt, ap (λ x. x.status) r, ap (λ x. x.value) r)
        | inr le ↦ inr (le, (digit_loop-over w base digit 0 v cs p e q le).0)
      ])
    ]

parse_octal_or_hex-Reads :
    (w base : ℕ) (cs : List Char)
    → 0 < base
    → Reads w (octal_or_hex_value cs base) (parse_octal_or_hex w cs base)
unfolding parse_octal_or_hex
parse_octal_or_hex-Reads w base [] p = refl
parse_octal_or_hex-Reads w base (c ∷ cs) p = digit_loop-Reads w base (base_digit base) (c ∷ cs) p

parse_decimal-Reads : (w : ℕ) (cs : List Char) → Reads w (decimal_value cs) (parse_decimal w cs)
unfolding parse_decimal
parse_decimal-Reads w [] = refl
parse_decimal-Reads w (c ∷ cs) = elim (Bool-cases (c == char_0)) [
  | inl e ↦ rw e (zero_Reads cs)
  | inr e ↦ rw e (digit_loop-Reads w 10 decimal_digit (c ∷ cs) (omega arith))
]
  where
    zero_Reads : (cs : List Char) → Reads w (only_zero cs) (lone_zero cs)
    zero_Reads [] = inl (one-le-pow w 2 (omega arith), refl, refl)
    zero_Reads (d ∷ ds) = refl

parse_with-Reads : (w : ℕ) (p : ℤ × List Char) → Reads w (value_with p) (parse_with w p)
parse_with-Reads w (base, cs) = elim (Bool-cases (eqb_ℤ base (pos 8))) [
  | inl e ↦ rw e (parse_octal_or_hex-Reads w 8 cs (omega arith))
  | inr e ↦ rw e (elim (Bool-cases (eqb_ℤ base (pos 16))) [
    | inl e' ↦ rw e' (parse_octal_or_hex-Reads w 16 cs (omega arith))
    | inr e' ↦ rw e' (elim (Bool-cases (eqb_ℤ base (pos 10))) [
      | inl d ↦ rw d (parse_decimal-Reads w cs)
      | inr d ↦ rw d refl
    ])
  ])
]

-- `parseInteger` of an unsigned type gives the number that the text is written for, if it is below
-- 2 ^ w, and fails if it is not, or if the text is no number.
pub parse_unsigned_lem :
    (w : ℕ) (cs : List Char) (base : ℤ) → Reads w (number cs base) (parse_unsigned w cs base)
unfolding parse_unsigned
parse_unsigned_lem w cs base = elim (Bool-cases (eqb_ℤ base (pos 0))) [
  | inl e ↦ rw e (parse_with-Reads w (parse_base cs))
  | inr e ↦ rw e (parse_with-Reads w (base, cs))
]

-- The integer that a text is written for: a '-' in front negates the number.
abbrev pub negated : Bool → Option ℕ → Option ℤ
negated sign none = none
negated sign (some v) = some (signed sign v)

abbrev pub written : List Char → ℤ → Option ℤ
written cs base = let (sign, ds) = take_sign cs in negated sign (number ds base)

-- What a parser of signed integers of w bits must answer.
abbrev pub ReadsSigned : ℕ → Option ℤ → ℤ × Bool → Type 0
ReadsSigned w none r = r.1 ≡ false
ReadsSigned w (some z) r = (InRange w z × (r ≡ (z, true))) ⊎ ((¬ InRange w z) × (r.1 ≡ false))

InRange-or : (w : ℕ) (z : ℤ) → InRange w z ⊎ (¬ InRange w z)
InRange-or w (pos n) = ground arith
InRange-or w (negsuc n) = ground arith

refused : (w : ℕ) (sign : Bool) (p : Parsed) → p.status ≡ false → (signed_result w sign p).1 ≡ false
refused w sign p h = rw h refl

signed_result-ReadsSigned :
    (w : ℕ) (sign : Bool) (o : Option ℕ) (p : Parsed)
    → 0 < w
    → Reads w o p
    → ReadsSigned w (negated sign o) (signed_result w sign p)
signed_result-ReadsSigned w sign none p pos_w h = refused w sign p h
signed_result-ReadsSigned w sign (some v) p pos_w (inl (lt, ok, e)) =
    elim (InRange-or w (signed sign v)) [
      | inl r ↦ inl (r, rw (ok, e) (make_signed-InRange w v sign pos_w r))
      | inr n ↦ inr (n, rw (ok, e) (make_signed-not-InRange w v sign pos_w n))
    ]
signed_result-ReadsSigned w sign (some v) p pos_w (inr (over, bad)) =
    inr (λ r. let lt = InRange-lt w v sign pos_w r in omega arith, refused w sign p bad)

-- `convertToNum` of a signed type gives the integer that the text is written for if it is one of w
-- bits, and fails if it is not, or if the text is no integer.
pub convert_to_num-written :
    (w : ℕ) (cs : List Char) (base : ℤ)
    → 0 < w
    → ReadsSigned w (written cs base) (convert_to_num w cs base)
unfolding convert_to_num
convert_to_num-written w cs base p =
    signed_result-ReadsSigned w (take_sign cs).0 (number (take_sign cs).1 base)
      (parse_unsigned w (take_sign cs).1 base) p (parse_unsigned_lem w (take_sign cs).1 base)

-- A literal that is no '0' and starts with none is read as `convertToNum` reads it, which gives the
-- same integer and the same status.
pub from_int_literal-decimal :
    (w : ℕ) (cs : List Char)
    → starts_decimal (take_sign cs).1 ≡ true
    → from_int_literal w cs ≡ convert_to_num w cs (pos 0)
unfolding from_int_literal convert_to_num
from_int_literal-decimal w cs h =
    elim (Bool-cases (parse_unsigned w (take_sign cs).1 (pos 0)).status) [
      | inl e ↦ rw (e, h)
      | inr e ↦ rw e
    ]

Reads-fits :
    (w v : ℕ) (p : Parsed) → v < 2 ^ w → Reads w (some v) p → (p.status ≡ true) × (p.value ≡ v)
Reads-fits w v p lt (inl (_, ok, e)) = (ok, e)
Reads-fits w v p lt (inr (le, _)) = absurd (omega arith)

-- A literal in octal or hexadecimal is the bit pattern of an integer of w bits: with no sign in
-- front it is read if its number is below 2 ^ w, in two's complement, and with a sign it is refused.
pub from_int_literal-bits :
    (w v : ℕ) (cs : List Char)
    → starts_decimal (take_sign cs).1 ≡ false
    → number (take_sign cs).1 (pos 0) ≡ some v
    → v < 2 ^ w
    → from_int_literal w cs ≡ (to_signed w v, not (take_sign cs).0)
unfolding from_int_literal
from_int_literal-bits w v cs h e lt =
    let (ok, same) = Reads-fits w v (parse_unsigned w (take_sign cs).1 (pos 0)) lt (
      subst (λ o. Reads w o (parse_unsigned w (take_sign cs).1 (pos 0))) e
        (parse_unsigned_lem w (take_sign cs).1 (pos 0))) in
    rw (ok, h, same) (elim (Bool-cases (take_sign cs).0) [ inl s ↦ rw s | inr s ↦ rw s ])
