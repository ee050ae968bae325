-- ===== src/Num/Digits.antt =====
-- The digit loop of `parseDecimal` and `parseOctalOrHex` against the value of a text of digits.
use ydsh.Prelude.{
  Bool, List, Option, Option-cases, [], ap, arith, false, inl, lt_or_le, none, refl, some, sym,
  true, ℕ, ◌*◌, ◌+◌, ◌<◌, ◌^◌, ◌∙◌, ◌∷◌, ◌≡◌, ◌≤◌, inr,
}
use ydsh.Num.Overflow.{push_digit-fits, push_digit-over}
use mathlib.Core.Path.{subst}
use ydsh.Num.{
  Errno, digit_loop, Char, Parsed, no_error, out_of_range, after_digit, after_push, push_digit,
}

abbrev pub and_then : Option ℕ → (ℕ → Option ℕ) → Option ℕ
and_then none f = none
and_then (some v) f = f v

-- The value of a text of digits that continues the number n: Horner's rule, with no bound.
abbrev pub value_from : (Char → Option ℕ) → ℕ → ℕ → List Char → Option ℕ
value_from digit base n [] = some n
value_from digit base n (c ∷ cs) = and_then (digit c) (λ v. value_from digit base (n * base + v) cs)

some_inj_ℕ : (a b : ℕ) → some a ≡ some b → a ≡ b
some_inj_ℕ a b h = cc

digit_loop-cons :
    (w base : ℕ) (digit : Char → Option ℕ) (n : ℕ) (c : Char) (cs : List Char)
    → digit_loop w base digit n (c ∷ cs)
      ≡ after_digit w base n cs c (digit c) (λ r. digit_loop w base digit r cs)
unfolding digit_loop
digit_loop-cons w base digit n c cs = refl

-- A text that has a value starts with a digit.
and_then-some {ℓ} :
    {P : Type ℓ} (o : Option ℕ) (f : ℕ → Option ℕ) (v : ℕ)
    → ((d : ℕ) → o ≡ some d → f d ≡ some v → P)
    → and_then o f ≡ some v
    → P
and_then-some none f v next h = absurd (cc)
and_then-some (some d) f v next h = next d refl h

value_from-le :
    (digit : Char → Option ℕ) (base n : ℕ) (cs : List Char) (v : ℕ)
    → 0 < base
    → value_from digit base n cs ≡ some v
    → n ≤ v
value_from-le digit base n [] v p h = let e = some_inj_ℕ n v h in omega arith
value_from-le digit base n (c ∷ cs) v p h =
    and_then-some (digit c) _ v
      (λ d e step. let le = value_from-le digit base (n * base + d) cs v p step in grind arith) h

none_step :
    (o : Option ℕ) (d : ℕ) (f : ℕ → Option ℕ) → o ≡ some d → and_then o f ≡ none → f d ≡ none
none_step o d f e h = sym (ap (λ x. and_then x f) e) ∙ h

-- A text of digits whose value fits is read to its value, all of it.
pub digit_loop-reads :
    (w base : ℕ) (digit : Char → Option ℕ) (n v : ℕ) (cs : List Char)
    → 0 < base
    → value_from digit base n cs ≡ some v
    → v < 2 ^ w
    → digit_loop w base digit n cs
      ≡ record { value = v; status = true; errno = no_error; rest = [] }
digit_loop-reads w base digit n v [] p h fits = unfold digit_loop in rw (some_inj_ℕ n v h)
digit_loop-reads w base digit n v (c ∷ cs) p h fits =
    and_then-some (digit c) _ v
      (λ d e step.
        let le = value_from-le digit base (n * base + d) cs v p step in
        let push = push_digit-fits w base n d (omega arith) in
        digit_loop-cons w base digit n c cs
        ∙ rw (e, push) (digit_loop-reads w base digit (n * base + d) v cs p step fits))
      h

after_push-over :
    (cs : List Char) (c : Char) (p : Bool × ℕ) (next : ℕ → Parsed)
    → p.0 ≡ true
    → after_push cs c p next
      ≡ record { value = p.1; status = false; errno = out_of_range; rest = c ∷ cs }
after_push-over cs c (true, r) next h = refl
after_push-over cs c (false, r) next h = absurd (cc)

abbrev pub Refused : Errno → Parsed → Type 0
Refused e p = (p.status ≡ false) × (p.errno ≡ e)

-- A text whose value does not fit is refused, as out of range.
pub digit_loop-over :
    (w base : ℕ) (digit : Char → Option ℕ) (n v : ℕ) (cs : List Char)
    → 0 < base
    → value_from digit base n cs ≡ some v
    → n < 2 ^ w
    → 2 ^ w ≤ v
    → Refused out_of_range (digit_loop w base digit n cs)
digit_loop-over w base digit n v [] p h low over = let e = some_inj_ℕ n v h in absurd (omega arith)
digit_loop-over w base digit n v (c ∷ cs) p h low over =
    and_then-some (digit c) _ v
      (λ d e step. subst (Refused out_of_range) (sym (digit_loop-cons w base digit n c cs)) (
        rw e (elim (lt_or_le (n * base + d) (2 ^ w)) [
          | inl small ↦
              rw (push_digit-fits w base n d small)
                (digit_loop-over w base digit (n * base + d) v cs p step small over)
          | inr big ↦
              rw
                (after_push-over cs c (push_digit w base n d) (λ r. digit_loop w base digit r cs)
                  (push_digit-over w base n d big))
                (refl, refl)
        ])))
      h

-- A text that is no digits is refused.
pub digit_loop-none :
    (w base : ℕ) (digit : Char → Option ℕ) (n : ℕ) (cs : List Char)
    → value_from digit base n cs ≡ none
    → n < 2 ^ w
    → (digit_loop w base digit n cs).status ≡ false
digit_loop-none w base digit n [] h low = absurd (cc)
digit_loop-none w base digit n (c ∷ cs) h low =
    ap (λ (p : Parsed). p.status) (digit_loop-cons w base digit n c cs)
    ∙ elim (Option-cases (digit c)) [
      | inl e ↦ rw e refl
      | inr (d, e) ↦ rw e (elim (lt_or_le (n * base + d) (2 ^ w)) [
        | inl small ↦
            rw (push_digit-fits w base n d small)
              (digit_loop-none w base digit (n * base + d) cs (none_step (digit c) d _ e h) small)
        | inr big ↦
            ap (λ (p : Parsed). p.status)
              (after_push-over cs c (push_digit w base n d) (λ r. digit_loop w base digit r cs)
                (push_digit-over w base n d big))
      ])
    ]
