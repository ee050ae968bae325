-- ===== src/Glob/Commit.antt =====
-- The second loop of the matcher: it goes back to the last `*` only, and that is enough.
use ydsh.Glob.Wild.{star-drop}
use ydsh.Prelude.{
  All, Bool, Bool-cases, List, Option, [], ap, arith, drop, drop-drop, false, inl, inr, length,
  length-drop, some, suc, sym, true, ℕ, ◌++◌, ◌+◌, ◌||◌, ◌∙◌, ◌∷◌, ◌≡◌, ◌≤◌,
}
use ydsh.Glob.{Char, Pattern, is_zero_or_more, rest, is_end_or_sep, Outcome}
use ydsh.Glob.Wild.{wild, star, Plain, wild-star, star-some, wild-plain, star-drop}
use mathlib.Core.Path.{subst}

-- A try that started at x, with `cp` behind it, at the elements `old`: the elements since then are
-- plain, and as many characters of the name were matched.
pub record Trying (name : List Char) (p : Pattern) (cp : List Char) (old : Pattern) : Type 0 where
  pub lit : Pattern
  pub start : Char
  pub plain : All Plain lit
  pub pattern_at : old ≡ lit ++ p
  pub name_at : name ≡ drop (length lit) (start ∷ cp)
  pub within : length lit ≤ suc (length cp)

-- An outcome with this answer; the iterator of a match stands where the part of the pattern ends.
abbrev pub Answers : Bool → Option Outcome → Type 0
Answers b o = (r : Outcome) × (o ≡ some r) × (r.0 ≡ b) × (r.0 ≡ true → is_end_or_sep r.1 ≡ true)

abbrev pub Settles : Bool → (ℕ → Option Outcome) → Type 0
Settles b loop = (bound : ℕ) × ((fuel : ℕ) → bound ≤ fuel → Answers b (loop fuel))

abbrev pub left_to_try : List Char → Pattern → List Char → Pattern → Bool
left_to_try name p cp old = wild p name || star (λ t. wild old t) cp

sum_swap : (k n : ℕ) → suc (k + n) ≡ n + suc k
sum_swap k n = omega arith

too_few : (n k : ℕ) (x : Char) (cp : List Char) → [] ≡ drop n (x ∷ cp) → ¬ (n ≤ length (drop k cp))
too_few n k x cp e le =
    omega (arith, ap (length {A = Char}) e, length-drop n (x ∷ cp), length-drop k cp)

-- `*` matches what any later match of it does.
star_further :
    (w v : List Char → Bool) (k : ℕ) (name : List Char)
    → ((xs : List Char) → w xs ≡ star v xs)
    → w (drop k name) ≡ true
    → w name ≡ true
star_further w v k name e h = e name ∙ star-drop v k name (sym (e (drop k name)) ∙ h)

module _ (name : List Char) (p : Pattern) (cp : List Char) (old : Pattern)
    (t : Trying name p cp old) where
  -- A match further on in the name gives a match of what is left of the pattern further on.
  pub further :
      star (λ u. wild old u) cp ≡ true
      → (k : ℕ) × (length t.lit ≤ length (drop k cp)) × (wild p (drop (suc k) name) ≡ true)
  further h =
      let (k, m) = star-some (λ u. wild old u) cp h in
      let split =
        wild-plain t.lit p (drop k cp) t.plain
          (subst (λ q. wild q (drop k cp) ≡ true) t.pattern_at m) in
      let same : drop (length t.lit) (drop k cp) ≡ drop (suc k) name =
        drop-drop k (length t.lit) cp
        ∙ ap (λ i. drop i (t.start ∷ cp)) (sum_swap k (length t.lit))
        ∙ sym (drop-drop (length t.lit) (suc k) (t.start ∷ cp))
        ∙ ap (drop (suc k)) (sym t.name_at) in
      (k, split.0, subst (λ xs. wild p xs ≡ true) same split.1)

  -- At a `*` no earlier choice matters any more.
  pub commit : is_zero_or_more p ≡ true → star (λ u. wild old u) cp ≡ true → wild p name ≡ true
  commit s h =
      let (k, le, m) = further h in
      star_further (λ u. wild p u) (λ u. wild (rest p) u) (suc k) name (λ xs. wild-star p xs s) m

  -- When the name is at its end, a later start has too few characters.
  pub no_later : name ≡ [] → star (λ u. wild old u) cp ≡ false
  no_later e = elim (Bool-cases (star (λ u. wild old u) cp)) [
    | inl h ↦
        let (k, le, m) = further h in
        absurd (too_few (length t.lit) k t.start cp (sym e ∙ t.name_at) le)
    | inr h ↦ h
  ]
