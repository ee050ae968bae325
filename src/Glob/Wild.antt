-- ===== src/Glob/Wild.antt =====
-- What it means that a name matches a pattern up to its end or its next separator.
use ydsh.Prelude.{
  All, Bool, Bool-cases, List, [], arith, drop, false, inl, inr, length, not, refl, suc, true, zero,
  ℕ, ◌&&◌, ◌++◌, ◌==◌, ◌||◌, ◌∷◌, ◌≡◌, ◌≢◌, ◌≤◌,
}
use ydsh.Glob.{
  Char, Element, literal, any_char, zero_or_more, Pattern, is_zero_or_more, rest, is_end_or_sep,
  slash, eats, finish,
}

abbrev pub is_empty : List Char → Bool
is_empty [] = true
is_empty (n ∷ name) = false

-- A name matches when the elements match its characters in turn: `*` any number of them, `?` one.
abbrev pub star : (List Char → Bool) → List Char → Bool
star w [] = w []
star w (n ∷ name) = w (n ∷ name) || star w name

pub wild : Pattern → List Char → Bool
wild [] name = is_empty name
wild (literal c ∷ p) [] = c == slash
wild (literal c ∷ p) (n ∷ name) = not (c == slash) && (n == c && wild p name)
wild (any_char ∷ p) [] = false
wild (any_char ∷ p) (n ∷ name) = wild p name
wild (zero_or_more ∷ p) name = star (λ t. wild p t) name

-- The elements that the loops step over between two `*`.
abbrev pub is_plain : Element → Bool
is_plain (literal c) = not (c == slash)
is_plain any_char = true
is_plain zero_or_more = false

abbrev pub Plain : Element → Type 0
Plain e = is_plain e ≡ true

abbrev pub NotNull : Char → Type 0
NotNull n = n ≢ 0

pub wild-end :
    (p : Pattern) (name : List Char) → is_end_or_sep p ≡ true → wild p name ≡ is_empty name
unfolding wild is_end_or_sep
wild-end [] name h = refl
wild-end (literal c ∷ p) [] h = ground arith
wild-end (literal c ∷ p) (n ∷ name) h = ground arith
wild-end (any_char ∷ p) name h = absurd (cc)
wild-end (zero_or_more ∷ p) name h = absurd (cc)

pub wild-eats :
    (p : Pattern) (n : Char) (name : List Char)
    → is_end_or_sep p ≡ false
    → NotNull n
    → eats p n ≡ true
    → wild p (n ∷ name) ≡ wild (rest p) name
unfolding wild is_end_or_sep
wild-eats [] n name h nn e = absurd (cc)
wild-eats (literal c ∷ p) n name h nn e = ground arith
wild-eats (any_char ∷ p) n name h nn e = refl
wild-eats (zero_or_more ∷ p) n name h nn e = absurd (ground arith)

-- What is no `*` and does not match a character fails.
pub wild-ne :
    (p : Pattern) (n : Char) (name : List Char)
    → is_zero_or_more p ≡ false
    → eats p n ≡ false
    → wild p (n ∷ name) ≡ false
unfolding wild
wild-ne [] n name h e = refl
wild-ne (literal c ∷ p) n name h e = ground arith
wild-ne (any_char ∷ p) n name h e = absurd (ground arith)
wild-ne (zero_or_more ∷ p) n name h e = absurd (cc)

pub wild-star :
    (p : Pattern) (name : List Char)
    → is_zero_or_more p ≡ true
    → wild p name ≡ star (λ t. wild (rest p) t) name
unfolding wild
wild-star [] name h = absurd (cc)
wild-star (literal c ∷ p) name h = absurd (cc)
wild-star (any_char ∷ p) name h = absurd (cc)
wild-star (zero_or_more ∷ p) name h = refl

pub star_all : (w : List Char → Bool) (name : List Char) → w [] ≡ true → star w name ≡ true
star_all w [] h = h
star_all w (n ∷ name) h = rw (star_all w name h) (ground arith)

-- At the end of the name.
pub finish-wild : (p : Pattern) → (finish p).0 ≡ wild p []
unfolding finish wild
finish-wild [] = unfold is_end_or_sep in refl
finish-wild (literal c ∷ p) = unfold is_end_or_sep in refl
finish-wild (any_char ∷ p) = unfold is_end_or_sep in refl
finish-wild (zero_or_more ∷ p) = finish-wild p

-- A match after any number of characters is a match of `*`.
pub star-drop :
    (w : List Char → Bool) (k : ℕ) (name : List Char)
    → star w (drop k name) ≡ true
    → star w name ≡ true
star-drop w zero name h = h
star-drop w (suc k) [] h = h
star-drop w (suc k) (n ∷ name) h = rw (star-drop w k name h) (ground arith)

pub star-some :
    (w : List Char → Bool) (name : List Char)
    → star w name ≡ true
    → (k : ℕ) × (w (drop k name) ≡ true)
star-some w [] h = (0, h)
star-some w (n ∷ name) h = elim (Bool-cases (w (n ∷ name))) [
  | inl e ↦ (0, e)
  | inr e ↦ let later = star-some w name (ground arith) in (suc later.0, later.1)
]

star_here : (w : List Char → Bool) (name : List Char) → w name ≡ true → star w name ≡ true
star_here w [] h = h
star_here w (n ∷ name) h = rw h refl

boolean_clash : false ≢ true
boolean_clash e = cc

pub star-of_drop :
    (w : List Char → Bool) (k : ℕ) (name : List Char) → w (drop k name) ≡ true → star w name ≡ true
star-of_drop w k name h = star-drop w k name (star_here w (drop k name) h)

-- Plain elements match as many characters as they are, and the rest of the pattern what follows.
pub wild-plain :
    (lit q : Pattern) (name : List Char)
    → All Plain lit
    → wild (lit ++ q) name ≡ true
    → (length lit ≤ length name) × (wild q (drop (length lit) name) ≡ true)
unfolding wild
wild-plain [] q name pl h = (omega arith, h)
wild-plain (literal c ∷ lit) q [] pl h = absurd (ground (arith, pl.0))
wild-plain (literal c ∷ lit) q (n ∷ name) pl h =
    let more = wild-plain lit q name pl.1 (ground arith) in (omega (arith, more.0), more.1)
wild-plain (any_char ∷ lit) q [] pl h = absurd (cc)
wild-plain (any_char ∷ lit) q (n ∷ name) pl h =
    let more = wild-plain lit q name pl.1 h in (omega (arith, more.0), more.1)
wild-plain (zero_or_more ∷ lit) q name pl h = absurd (boolean_clash pl.0)
