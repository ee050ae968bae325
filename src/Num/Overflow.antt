-- ===== src/Num/Overflow.antt =====
-- The overflow builtins and the push of one digit: when they overflow, and what they leave.
use ydsh.Prelude.{
  Bool, arith, false, inl, inr, leb, lt_or_le, refl, true, ℕ, ◌*◌, ◌+◌, ◌<◌, ◌^◌, ◌≡◌, ◌≤◌,
}
use native.Mathlib.Nat.{mod-eq_of_lt}
use ydsh.Num.{then_add, push_digit, mul_overflow, add_overflow}

mul_overflow-fits : (w x y : ℕ) → x * y < 2 ^ w → mul_overflow w x y ≡ (false, x * y)
unfolding mul_overflow
mul_overflow-fits w x y h =
    let no : leb (2 ^ w) (x * y) ≡ false = ground arith in rw (no, mod-eq_of_lt h)

mul_overflow-over : (w x y : ℕ) → 2 ^ w ≤ x * y → (mul_overflow w x y).0 ≡ true
unfolding mul_overflow
mul_overflow-over w x y h = ground arith

add_overflow-fits : (w x y : ℕ) → x + y < 2 ^ w → add_overflow w x y ≡ (false, x + y)
unfolding add_overflow
add_overflow-fits w x y h =
    let no : leb (2 ^ w) (x + y) ≡ false = ground arith in rw (no, mod-eq_of_lt h)

add_overflow-over : (w x y : ℕ) → 2 ^ w ≤ x + y → (add_overflow w x y).0 ≡ true
unfolding add_overflow
add_overflow-over w x y h = ground arith

-- One digit is pushed without overflow just when the value has room in w bits.
pub push_digit-fits :
    (w base ret v : ℕ) → ret * base + v < 2 ^ w → push_digit w base ret v ≡ (false, ret * base + v)
unfolding push_digit
push_digit-fits w base ret v h =
    let small : ret * base < 2 ^ w = omega arith in
    rw (mul_overflow-fits w ret base small, add_overflow-fits w (ret * base) v h)

then_add-over : (w v : ℕ) (p : Bool × ℕ) → p.0 ≡ true → (then_add w v p).0 ≡ true
then_add-over w v (true, r) h = refl
then_add-over w v (false, r) h = absurd (cc)

pub push_digit-over :
    (w base ret v : ℕ) → 2 ^ w ≤ ret * base + v → (push_digit w base ret v).0 ≡ true
unfolding push_digit
push_digit-over w base ret v h = elim (lt_or_le (ret * base) (2 ^ w)) [
  | inl small ↦ rw (mul_overflow-fits w ret base small, add_overflow-over w (ret * base) v h)
  | inr big ↦ then_add-over w v _ (mul_overflow-over w ret base big)
]
