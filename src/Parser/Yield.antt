-- ===== src/Parser/Yield.antt =====
-- The tokens of a tree, and the rule for chains of results.
use ydsh.Prelude.{
  Bool, List, [], ap, append_assoc, arith, length, length-append, refl, true, ℕ, ◌++◌, ◌∙◌, ◌∷◌,
  ◌≡◌, ◌≢◌, ◌≤◌,
}
use ydsh.Parser.Tokens.{get_op_info}
use ydsh.Parser.{
  Token, out_of_fuel, Result, ok, err, and_then, Part, Node, part, prefix, type_op, with_redirs,
  ternary_if, background_fork, binary, cur_token, consume, goes_on,
}

abbrev pub part_tokens : List Part → List Token
part_tokens [] = []
part_tokens (q ∷ qs) = q.tokens ++ part_tokens qs

-- The tokens of a tree, in their order.
abbrev pub yield : Node → List Token
yield (part q) = q.tokens
yield (prefix k t n) = t ∷ yield n
yield (type_op n t q) = yield n ++ t ∷ q.tokens
yield (with_redirs n t qs) = yield n ++ t ∷ part_tokens qs
yield (ternary_if c t a colon b) = yield c ++ t ∷ (yield a ++ colon ∷ yield b)
yield (background_fork n t) = yield n ++ t ∷ []
yield (binary k l t r) = yield l ++ t ∷ yield r

-- A result satisfies the condition, or is an error of the parser.
abbrev pub Ensures : {A : Type 0} → (A → List Token → Type 0) → Result A → Type 0
Ensures P (ok a ts) = P a ts
Ensures P (err e) = e ≢ out_of_fuel

pub and_then-Ensures :
    {A B : Type 0} (P : A → List Token → Type 0) (Q : B → List Token → Type 0) (m : Result A)
    (f : A → List Token → Result B)
    → Ensures P m
    → ((a : A) (ts : List Token) → P a ts → Ensures Q (f a ts))
    → Ensures Q (and_then m f)
and_then-Ensures P Q (ok a ts) f h k = k a ts h
and_then-Ensures P Q (err e) f h k = h

-- The tokens of a part and those that are left are the tokens that were given.
abbrev pub Reads : List Token → Part → List Token → Type 0
Reads ts q rest = q.tokens ++ rest ≡ ts

pub length-Reads : (xs rest ts : List Token) → xs ++ rest ≡ ts → length rest ≤ length ts
length-Reads xs rest ts h = omega (arith, ap (length {A = Token}) h, length-append xs rest)

pub cur_consume :
    (skippable : Bool) (base : ℕ) (ts : List Token)
    → goes_on skippable base ts ≡ true
    → cur_token ts ∷ consume ts ≡ ts
unfolding goes_on get_op_info
cur_consume skippable base [] h = absurd (cc)
cur_consume skippable base (t ∷ ts) h = refl

-- A token and what follows it go on where the tokens so far end.
pub yield_after :
    (xs ys rest zs ts all : List Token) (t : Token)
    → xs ++ ts ≡ all
    → t ∷ zs ≡ ts
    → ys ++ rest ≡ zs
    → (xs ++ t ∷ ys) ++ rest ≡ all
yield_after xs ys rest zs ts all t h e r =
    append_assoc xs (t ∷ ys) rest ∙ ap (λ k. xs ++ t ∷ k) r ∙ ap (λ k. xs ++ k) e ∙ h
