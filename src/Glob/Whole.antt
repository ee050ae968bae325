-- ===== src/Glob/Whole.antt =====
-- `WildCardMatcher::operator()` as a whole.
use ydsh.Prelude.{
  All, Bool, Bool-cases, List, Option, [], ap, arith, false, if◌then◌else◌, inl, inr, length, refl,
  some, suc, sym, true, ℕ, ◌&&◌, ◌+◌, ◌==◌, ◌||◌, ◌∙◌, ◌∷◌, ◌≡◌, not,
}
use ydsh.Glob.{
  Char, Pattern, deref, is_zero_or_more, rest, is_end_or_sep, eats, finish, retry_loop, first_loop,
  Outcome, WildMatchResult, failed, dot, dotdot, matched, result_of, match_dots, is_dots,
  starts_period, period, wild_match,
}
use ydsh.Glob.Wild.{
  wild, star, NotNull, wild-end, wild-eats, wild-ne, wild-star, star_all, finish-wild,
}
use ydsh.Glob.Commit.{Answers, Settles}
use ydsh.Glob.Loop.{
  tries, first_attempt, settle_next, settle_now, settle_eq, finish-end, star-end, star-eats,
  retry-at_star, retry-at_last,
}
use mathlib.Core.Path.{subst, fun_ext}

-- From the first `*` on.
from_star :
    (n : Char) (name : List Char) (p : Pattern)
    → NotNull n × All NotNull name
    → is_zero_or_more p ≡ true
    → Settles (wild p (n ∷ name)) (λ fuel. retry_loop fuel (n ∷ name) p [] [])
from_star n name p nn s =
    let inside = star-end p s in
    let e = star-eats p n nn.0 s in
    elim (Bool-cases (is_end_or_sep (rest p))) [
      | inl last ↦
          settle_now (wild p (n ∷ name)) (λ fuel. retry_loop fuel (n ∷ name) p [] []) (true, rest p)
            (λ fuel. retry-at_last fuel n name p [] [] inside e s last)
            (sym (
              wild-star p (n ∷ name) s
              ∙ star_all (λ u. wild (rest p) u) (n ∷ name) (wild-end (rest p) [] last)))
            (λ h. last)
      | inr more ↦
          settle_next (wild p (n ∷ name)) (λ fuel. retry_loop fuel (n ∷ name) p [] [])
            (λ fuel. retry_loop fuel (n ∷ name) (rest p) name (rest p))
            (λ fuel. retry-at_star fuel n name p [] [] inside e s more)
            (settle_eq (star (λ u. wild (rest p) u) (n ∷ name)) (wild p (n ∷ name)) _
              (sym (wild-star p (n ∷ name) s))
              (tries (length name) (suc (length name) + length (rest p)) (n ∷ name) (rest p) name
                (rest p) (omega arith) (omega arith) nn nn.1 (first_attempt n name (rest p))))
    ]

settle_same :
    (b : Bool) (loop loop' : ℕ → Option Outcome)
    → ((fuel : ℕ) → loop fuel ≡ loop' fuel)
    → Settles b loop'
    → Settles b loop
settle_same b loop loop' e h = subst (Settles b) (sym (fun_ext e)) h

settle_at_once :
    (b : Bool) (loop : ℕ → Option Outcome) (r : Outcome)
    → ((fuel : ℕ) → loop fuel ≡ some r)
    → r.0 ≡ b
    → (r.0 ≡ true → is_end_or_sep r.1 ≡ true)
    → Settles b loop
settle_at_once b loop r step e h = (0, λ fuel le. (r, step fuel, e, h))

module _ (n : Char) (name : List Char) (p : Pattern) where
  first-at_end :
      (fuel : ℕ) → is_end_or_sep p ≡ true → first_loop fuel (n ∷ name) p ≡ some (false, p)
  unfolding first_loop
  first-at_end fuel h = rw h refl

  first-at_star :
      (fuel : ℕ)
      → is_end_or_sep p ≡ false
      → is_zero_or_more p ≡ true
      → first_loop fuel (n ∷ name) p ≡ retry_loop fuel (n ∷ name) p [] []
  unfolding first_loop
  first-at_star fuel h s = rw (h, s) refl

  first-at_ne :
      (fuel : ℕ)
      → is_end_or_sep p ≡ false
      → is_zero_or_more p ≡ false
      → eats p n ≡ false
      → first_loop fuel (n ∷ name) p ≡ some (false, p)
  unfolding first_loop
  first-at_ne fuel h s e = rw (h, s, e) refl

  first-at_eats :
      (fuel : ℕ)
      → is_end_or_sep p ≡ false
      → is_zero_or_more p ≡ false
      → eats p n ≡ true
      → first_loop fuel (n ∷ name) p ≡ first_loop fuel name (rest p)
  unfolding first_loop
  first-at_eats fuel h s e = rw (h, s, e) refl

clash : {P : Type 0} → false ≡ true → P
clash e = absurd (cc)

first_lem :
    (name : List Char) (p : Pattern)
    → All NotNull name
    → Settles (wild p name) (λ fuel. first_loop fuel name p)
first_lem [] p nn =
    settle_at_once (wild p []) (λ fuel. first_loop fuel [] p) (finish p)
      (λ fuel. unfold first_loop in refl) (finish-wild p) (finish-end p)
first_lem (n ∷ name) p nn =
    let b : Bool = wild p (n ∷ name) in
    let loop : ℕ → Option Outcome = λ fuel. first_loop fuel (n ∷ name) p in
    elim (Bool-cases (is_end_or_sep p)) [
      | inl at_end ↦
          settle_at_once b loop (false, p) (λ fuel. first-at_end n name p fuel at_end)
            (sym (wild-end p (n ∷ name) at_end)) clash
      | inr inside ↦ elim (Bool-cases (is_zero_or_more p)) [
        | inl s ↦
            settle_same b loop (λ fuel. retry_loop fuel (n ∷ name) p [] [])
              (λ fuel. first-at_star n name p fuel inside s) (from_star n name p nn s)
        | inr s ↦ elim (Bool-cases (eats p n)) [
          | inl e ↦
              settle_same b loop (λ fuel. first_loop fuel name (rest p))
                (λ fuel. first-at_eats n name p fuel inside s e)
                (settle_eq (wild (rest p) name) b _ (sym (wild-eats p n name inside nn.0 e))
                  (first_lem name (rest p) nn.1))
          | inr e ↦
              settle_at_once b loop (false, p) (λ fuel. first-at_ne n name p fuel inside s e)
                (sym (wild-ne p n name s e)) clash
        ]
      ]
    ]

-- Whether the pattern may match a name for its first character.
abbrev pub period_allowed : Bool → List Char → Pattern → Bool
period_allowed dotglob name p =
    not (starts_period name) || is_end_or_sep p || deref p == period || dotglob

abbrev pub verdict : Bool → WildMatchResult
verdict true = matched
verdict false = failed

-- A match ends where the part of the pattern ends.
abbrev pub EndsPart : Bool → Pattern → Type 0
EndsPart true p = is_end_or_sep p ≡ true
EndsPart false p = Unit {0}

abbrev Verdict : Bool → Option (WildMatchResult × Pattern) → Type 0
Verdict b o = (q : Pattern) × (o ≡ some (verdict b, q)) × EndsPart b q

answers : (b : Bool) (o : Option Outcome) → Answers b o → Verdict b (result_of o)
answers b o ((true, q), e, same, ends) =
    subst (λ c. Verdict c (result_of o)) same (q, ap result_of e, ends refl)
answers b o ((false, q), e, same, ends) =
    subst (λ c. Verdict c (result_of o)) same (q, ap result_of e, tt)

all_four : (a b c d : Bool) → (not a || b || c || d) ≡ false → (a && not b && not c && not d) ≡ true
all_four a b c d h = ground arith

not_all : (a b c d : Bool) → (not a || b || c || d) ≡ true → (a && not b && not c && not d) ≡ false
not_all a b c d h = ground arith

wild_match-blocked :
    (fuel : ℕ) (dotglob : Bool) (name : List Char) (p : Pattern)
    → is_dots name ≡ false
    → period_allowed dotglob name p ≡ false
    → wild_match fuel dotglob name p ≡ some (failed, p)
unfolding wild_match
wild_match-blocked fuel dotglob name p d h =
    let blocked : (starts_period name
          && not (is_end_or_sep p)
          && not (deref p == period)
          && not dotglob)
        ≡ true =
      all_four (starts_period name) (is_end_or_sep p) (deref p == period) dotglob h in
    rw (d, blocked) refl

wild_match-open :
    (fuel : ℕ) (dotglob : Bool) (name : List Char) (p : Pattern)
    → is_dots name ≡ false
    → period_allowed dotglob name p ≡ true
    → wild_match fuel dotglob name p ≡ result_of (first_loop fuel name p)
unfolding wild_match
wild_match-open fuel dotglob name p d h =
    let blocked : (starts_period name
          && not (is_end_or_sep p)
          && not (deref p == period)
          && not dotglob)
        ≡ false =
      not_all (starts_period name) (is_end_or_sep p) (deref p == period) dotglob h in
    rw (d, blocked) refl

-- With enough fuel the matcher ends on every name but `.` and `..`: it answers that the name is
-- matched exactly when a period at its start is allowed and the name matches the part of the pattern
-- up to its end or next separator, and the iterator of a match stands there.
pub wild_match_lem :
    (dotglob : Bool) (name : List Char) (p : Pattern)
    → All NotNull name
    → is_dots name ≡ false
    → (bound : ℕ) × ((extra : ℕ)
        → (q : Pattern) × (wild_match (bound + extra) dotglob name p
            ≡ some (verdict (period_allowed dotglob name p && wild p name), q))
          × EndsPart (period_allowed dotglob name p && wild p name) q)
wild_match_lem dotglob name p nn d = elim (Bool-cases (period_allowed dotglob name p)) [
  | inl open_name ↦
      let (bound, h) = first_lem name p nn in
      (
        bound,
        λ extra.
            rw (open_name, wild_match-open (bound + extra) dotglob name p d open_name)
              (answers (wild p name) (first_loop (bound + extra) name p)
                (h (bound + extra) (omega arith))),
      )
  | inr blocked ↦
      (0, λ extra. rw blocked (p, wild_match-blocked (0 + extra) dotglob name p d blocked, tt))
]

-- The names `.` and `..` are matched by themselves only.
abbrev pub period_end : Pattern → Bool
period_end p = deref p == period && is_end_or_sep (rest p)

dot_name :
    (fuel : ℕ) (dotglob : Bool) (p : Pattern)
    → wild_match fuel dotglob (period ∷ []) p
      ≡ some (if period_end p then (dot, rest p) else (failed, p))
unfolding wild_match match_dots
dot_name fuel dotglob p = ground arith

dotdot_name :
    (fuel : ℕ) (dotglob : Bool) (p : Pattern)
    → wild_match fuel dotglob (period ∷ period ∷ []) p
      ≡ some (
          if deref p == period && period_end (rest p) then (dotdot, rest (rest p)) else (failed, p))
unfolding wild_match match_dots
dotdot_name fuel dotglob p = ground arith
