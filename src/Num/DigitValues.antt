-- ===== src/Num/DigitValues.antt =====
-- The value of a digit, by its place among the digits, and the digit tests of the parsers.
use ydsh.Prelude.{
  Bool-cases, List, Option, [], ap, arith, false, if◌then◌else◌, inl, inr, leb, lt_or_le, ltb, none,
  refl, some, suc, sym, true, zero, ℕ, ◌&&◌, ◌+◌, ◌-◌, ◌<◌, ◌==◌, ◌∙◌, ◌∷◌, ◌≡◌, ◌≤◌, ◌⊎◌,
}
use ydsh.Num.{Char, hex_digit, base_digit, decimal_digit, below_base}

-- The place of a character in a text, counted from a number on.
abbrev pub place : ℕ → Char → List Char → Option ℕ
place v c [] = none
place v c (x ∷ xs) = if x == c then some v else place (suc v) c xs

-- "0123456789", "abcdef" and "ABCDEF".
abbrev pub decimal_digits : List Char
decimal_digits = 48 ∷ 49 ∷ 50 ∷ 51 ∷ 52 ∷ 53 ∷ 54 ∷ 55 ∷ 56 ∷ 57 ∷ []

abbrev pub lower_digits : List Char
lower_digits = 97 ∷ 98 ∷ 99 ∷ 100 ∷ 101 ∷ 102 ∷ []

abbrev pub upper_digits : List Char
upper_digits = 65 ∷ 66 ∷ 67 ∷ 68 ∷ 69 ∷ 70 ∷ []

abbrev pub or_else_digit : Option ℕ → Option ℕ → Option ℕ
or_else_digit none other = other
or_else_digit (some v) other = some v

-- The value of a digit, in any base up to 16.
abbrev pub digit_value : Char → Option ℕ
digit_value c =
    or_else_digit (place 0 c decimal_digits)
      (or_else_digit (place 10 c lower_digits) (place 10 c upper_digits))

abbrev pub if_below : ℕ → Option ℕ → Option ℕ
if_below base none = none
if_below base (some v) = if ltb v base then some v else none

abbrev pub digit_in : ℕ → Char → Option ℕ
digit_in base c = if_below base (digit_value c)

run : ℕ → ℕ → List Char
run x zero = []
run x (suc k) = x ∷ run (suc x) k

place-in : (k v c x : ℕ) → x ≤ c → c < x + k → place v c (run x k) ≡ some (v + (c - x))
unfolding run
place-in zero v c x h g = absurd (omega arith)
place-in (suc k) v c x h g = elim (Bool-cases (x == c)) [
  | inl e ↦ (let same : v ≡ v + (c - x) = ground arith in rw e (ap some same))
  | inr e ↦
      let further : suc v + (c - suc x) ≡ v + (c - x) = ground arith in
      rw e (place-in k (suc v) c (suc x) (ground arith) (omega arith) ∙ ap some further)
]

place-out : (k v c x : ℕ) → (c < x) ⊎ (x + k ≤ c) → place v c (run x k) ≡ none
unfolding run
place-out zero v c x h = refl
place-out (suc k) v c x h =
    let e : (x == c) ≡ false = ground arith in rw e (place-out k (suc v) c (suc x) (after h))
  where
    after : (c < x) ⊎ (x + suc k ≤ c) → (c < suc x) ⊎ (suc x + k ≤ c)
    after (inl lt) = inl (omega arith)
    after (inr le) = inr (omega arith)

in_run :
    (v c x k last : ℕ)
    → suc last ≡ x + k
    → (leb x c && leb c last) ≡ true
    → place v c (run x k) ≡ some (v + (c - x))
in_run v c x k last e h = place-in k v c x (ground arith) (ground arith)

out_of_run :
    (v c x k last : ℕ)
    → suc last ≡ x + k
    → (leb x c && leb c last) ≡ false
    → place v c (run x k) ≡ none
out_of_run v c x k last e h = elim (lt_or_le c x) [
  | inl lt ↦ place-out k v c x (inl lt)
  | inr le ↦ place-out k v c x (inr (ground arith))
]

zero_plus : (n : ℕ) → 0 + n ≡ n
zero_plus n = omega arith

hex_digit-value : (c : Char) → hex_digit c ≡ digit_value c
unfolding hex_digit run
hex_digit-value c = elim (Bool-cases (leb 48 c && leb c 57)) [
  | inl d ↦ rw d (
      sym (
        ap
          (λ o. or_else_digit o (or_else_digit (place 10 c lower_digits) (place 10 c upper_digits)))
          (in_run 0 c 48 10 57 (omega arith) d)
        ∙ ap some (zero_plus (c - 48))))
  | inr d ↦
      let none_here : place 0 c decimal_digits ≡ none = out_of_run 0 c 48 10 57 (omega arith) d in
      elim (Bool-cases (leb 97 c && leb c 102)) [
        | inl l ↦
            let here : place 10 c lower_digits ≡ some (10 + (c - 97)) =
              in_run 10 c 97 6 102 (omega arith) l in
            rw (d, l)
              (sym (
                ap
                  (λ o.
                    or_else_digit o
                      (or_else_digit (place 10 c lower_digits) (place 10 c upper_digits)))
                  none_here
                ∙ ap (λ o. or_else_digit o (place 10 c upper_digits)) here))
        | inr l ↦
            let not_lower : place 10 c lower_digits ≡ none =
              out_of_run 10 c 97 6 102 (omega arith) l in
            elim (Bool-cases (leb 65 c && leb c 70)) [
              | inl u ↦
                  let here : place 10 c upper_digits ≡ some (10 + (c - 65)) =
                    in_run 10 c 65 6 70 (omega arith) u in
                  rw (d, l, u)
                    (sym (
                      ap
                        (λ o.
                          or_else_digit o
                            (or_else_digit (place 10 c lower_digits) (place 10 c upper_digits)))
                        none_here
                      ∙ ap (λ o. or_else_digit o (place 10 c upper_digits)) not_lower
                      ∙ here))
              | inr u ↦
                  let here : place 10 c upper_digits ≡ none =
                    out_of_run 10 c 65 6 70 (omega arith) u in
                  rw (d, l, u)
                    (sym (
                      ap
                        (λ o.
                          or_else_digit o
                            (or_else_digit (place 10 c lower_digits) (place 10 c upper_digits)))
                        none_here
                      ∙ ap (λ o. or_else_digit o (place 10 c upper_digits)) not_lower
                      ∙ here))
            ]
      ]
]

if_below-eq : (base v : ℕ) → (if leb base v then none else some v) ≡ if_below base (some v)
if_below-eq base v = ground arith

base_digit-value : (base : ℕ) (o : Option ℕ) → below_base base o ≡ if_below base o
base_digit-value base none = refl
base_digit-value base (some v) = ground arith

pub base_digit-in : (base : ℕ) (c : Char) → base_digit base c ≡ digit_in base c
unfolding base_digit
base_digit-in base c = base_digit-value base (hex_digit c) ∙ ap (if_below base) (hex_digit-value c)

decimal_digit-hex : (c : Char) → decimal_digit c ≡ if_below 10 (hex_digit c)
unfolding decimal_digit hex_digit
decimal_digit-hex c = ground arith

pub decimal_digit-in : (c : Char) → decimal_digit c ≡ digit_in 10 c
decimal_digit-in c = decimal_digit-hex c ∙ ap (if_below 10) (hex_digit-value c)
