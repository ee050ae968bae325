-- ===== src/Num/Signed.antt =====
-- The signed casts: `makeSigned`, `putSign` and `dropSign` in two's complement.
use ydsh.Prelude.{
  Bool, ap, arith, false, if◌then◌else◌, inl, inr, leb, lt_or_le, ltb, suc, true, zero, ℕ, ◌*◌, ◌+◌,
  ◌-◌, ◌<◌, ◌^◌, ◌↔◌, ◌≡◌, ◌≤◌,
}
use ydsh.Prelude.Int.{negsuc, pos, sub_ℕ, ℤ}
use native.Mathlib.Nat.{mod-eq_of_lt, mod_self, two-pow-succ, one-le-pow}
use ydsh.Num.{make_signed, put_sign, drop_sign, to_signed, min_signed}

-- The integers of w bits in two's complement.
abbrev pub InRange : ℕ → ℤ → Type 0
InRange w (pos n) = n < 2 ^ (w - 1)
InRange w (negsuc n) = n < 2 ^ (w - 1)

abbrev pub signed : Bool → ℕ → ℤ
signed true v = sub_ℕ 0 v
signed false v = pos v

pub half : (w : ℕ) → 0 < w → 2 ^ w ≡ 2 * 2 ^ (w - 1)
half zero p = absurd (omega arith)
half (suc k) p = let e : suc k - 1 ≡ k = omega arith in let d = two-pow-succ k in rw e (omega arith)

half_pos : (w : ℕ) → 0 < 2 ^ (w - 1)
half_pos w = one-le-pow (w - 1) 2 (omega arith)

drop_sign-min : (w : ℕ) → 0 < w → drop_sign w (min_signed w) ≡ 2 ^ (w - 1)
unfolding drop_sign
drop_sign-min w p =
    let h = half w p in
    let q = half_pos w in
    let e : 2 ^ w - 1 - (2 ^ w - (2 ^ (w - 1) - 1 + 1)) + 1 ≡ 2 ^ (w - 1) = omega arith in
    rw e (mod-eq_of_lt (omega arith))

put_sign-InRange : (w v : ℕ) → 0 < w → v ≤ 2 ^ (w - 1) → put_sign w v ≡ signed true v
unfolding put_sign to_signed
put_sign-InRange w zero p le =
    let q = half_pos w in
    let h = half w p in
    let e : 2 ^ w - 1 - 0 + 1 ≡ 2 ^ w = omega arith in rw (e, mod_self (2 ^ w)) (ground arith)
put_sign-InRange w (suc v) p le =
    let q = half_pos w in
    let h = half w p in
    let e : 2 ^ w - 1 - suc v + 1 ≡ 2 ^ w - suc v = omega arith in
    rw e (rw (mod-eq_of_lt {n = 2 ^ w - suc v} {m = 2 ^ w} (omega arith)) (ground arith))

make_signed-negate :
    (w v : ℕ) → 0 < w → v ≤ 2 ^ (w - 1) → make_signed w v true ≡ (signed true v, true)
unfolding make_signed
make_signed-negate w v p le =
    let yes : leb v (2 ^ (w - 1)) ≡ true = ground arith in
    rw (drop_sign-min w p, yes, put_sign-InRange w v p le)

make_signed-negate_over :
    (w v : ℕ) → 0 < w → 2 ^ (w - 1) < v → make_signed w v true ≡ (to_signed w v, false)
unfolding make_signed
make_signed-negate_over w v p lt =
    let no : leb v (2 ^ (w - 1)) ≡ false = ground arith in rw (drop_sign-min w p, no)

make_signed-keep : (w v : ℕ) → v < 2 ^ (w - 1) → make_signed w v false ≡ (pos v, true)
unfolding make_signed to_signed
make_signed-keep w v lt = ground arith

make_signed-keep_over : (w v : ℕ) → 2 ^ (w - 1) ≤ v → make_signed w v false ≡ (to_signed w v, false)
unfolding make_signed
make_signed-keep_over w v le = let q = half_pos w in ground arith

-- The range of `signed`, on the value that it is made of.
pub InRange-signed_iff :
    (w v : ℕ) (negate : Bool)
    → InRange w (signed negate v) ↔ ltb (2 ^ (w - 1)) (if negate then v else suc v) ≡ false
InRange-signed_iff w zero true = let q = half_pos w in ground arith
InRange-signed_iff w (suc v) true = ground arith
InRange-signed_iff w v false = ground arith

-- `makeSigned` succeeds with the integer that is meant, if that is one of w bits, and fails if not.
pub make_signed-InRange :
    (w v : ℕ) (negate : Bool)
    → 0 < w
    → InRange w (signed negate v)
    → make_signed w v negate ≡ (signed negate v, true)
make_signed-InRange w v true p h =
    let k = (InRange-signed_iff w v true).0 h in make_signed-negate w v p (ground arith)
make_signed-InRange w v false p h = make_signed-keep w v h

pub make_signed-not-InRange :
    (w v : ℕ) (negate : Bool)
    → 0 < w
    → ¬ InRange w (signed negate v)
    → (make_signed w v negate).1 ≡ false
make_signed-not-InRange w v true p h =
    let k : 2 ^ (w - 1) < v = elim (lt_or_le (2 ^ (w - 1)) v) [
      | inl lt ↦ lt
      | inr le ↦ absurd (h ((InRange-signed_iff w v true).1 (ground arith)))
    ] in
    ap (λ x. x.1) (make_signed-negate_over w v p k)
make_signed-not-InRange w v false p h =
    let k : 2 ^ (w - 1) ≤ v = ground arith in ap (λ x. x.1) (make_signed-keep_over w v k)

pub InRange-lt : (w v : ℕ) (negate : Bool) → 0 < w → InRange w (signed negate v) → v < 2 ^ w
InRange-lt w v true p h =
    let k = (InRange-signed_iff w v true).0 h in
    let d = half w p in let q = half_pos w in ground arith
InRange-lt w v false p h = let d = half w p in omega arith
