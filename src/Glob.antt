-- ===== src/Glob.antt =====
-- Matching a file name against a part of a glob pattern: `WildCardMatcher` of src/misc/glob.hpp. A
-- pattern is the list of its elements, an iterator what is left of it; a name is the list of its
-- characters, without the null at its end.
use ydsh.Prelude.{
  Bool, List, Option, [], drop, false, if◌then◌else◌, none, not, some, suc, true, zero, ℕ, ◌&&◌,
  ◌==◌, ◌||◌, ◌∷◌,
}
mod Wild
mod Commit
mod Loop
mod Base
mod Whole
mod Tests

abbrev pub Char : Type 0
Char = ℕ

-- What an iterator of a pattern points to: a character, or one of the two meta characters.
pub data Element : Type 0 where
  literal : Char → Element
  any_char : Element
  zero_or_more : Element

abbrev pub Pattern : Type 0
Pattern = List Element

pub data WildMatchResult : Type 0 where
  failed : WildMatchResult
  dot : WildMatchResult
  dotdot : WildMatchResult
  matched : WildMatchResult

-- `*iter`: the iterators of the program give a null character for a meta character, and where the
-- pattern has ended.
abbrev pub deref : Pattern → Char
deref [] = 0
deref (literal c ∷ p) = c
deref (any_char ∷ p) = 0
deref (zero_or_more ∷ p) = 0

abbrev pub is_any : Pattern → Bool
is_any [] = false
is_any (literal c ∷ p) = false
is_any (any_char ∷ p) = true
is_any (zero_or_more ∷ p) = false

abbrev pub is_zero_or_more : Pattern → Bool
is_zero_or_more [] = false
is_zero_or_more (literal c ∷ p) = false
is_zero_or_more (any_char ∷ p) = false
is_zero_or_more (zero_or_more ∷ p) = true

abbrev pub rest : Pattern → Pattern
rest [] = []
rest (e ∷ p) = p

abbrev pub is_end : Pattern → Bool
is_end [] = true
is_end (e ∷ p) = false

abbrev pub slash : Char
slash = 47

abbrev pub period : Char
period = 46

pub is_end_or_sep : Pattern → Bool
is_end_or_sep p = is_end p || deref p == slash

-- `consumeSeps`: the number of separators, and the iterator behind them.
pub consume_seps : Pattern → ℕ × Pattern
consume_seps [] = (0, [])
consume_seps (literal c ∷ p) =
    let next = consume_seps p in if c == slash then (suc next.0, next.1) else (0, literal c ∷ p)
consume_seps (any_char ∷ p) = (0, any_char ∷ p)
consume_seps (zero_or_more ∷ p) = (0, zero_or_more ∷ p)

-- `consumeDot`.
pub consume_dot : Pattern → Bool × Pattern
unfolding is_end_or_sep
consume_dot p =
    if not (is_end p) && deref p == period && is_end_or_sep (rest p)
    then (true, rest p)
    else (false, p)

-- `matchDots`, for the names `.` and `..`: 0, 1 or 2, and the iterator.
pub match_dots : List Char → Pattern → ℕ × Pattern
unfolding is_end_or_sep
match_dots [] p = (0, p)
match_dots (c ∷ []) p =
    if c == period && deref p == period && is_end_or_sep (rest p) then (1, rest p) else (0, p)
match_dots (c ∷ d ∷ []) p =
    if c == period
      && deref p == period
      && (d == period && deref (rest p) == period)
      && is_end_or_sep (rest (rest p))
    then (2, rest (rest p))
    else (0, p)
match_dots (c ∷ d ∷ e ∷ name) p = (0, p)

-- The loop behind the other two: the meta characters that are left match nothing.
abbrev pub skip_stars : Pattern → Pattern
skip_stars [] = []
skip_stars (literal c ∷ p) = literal c ∷ p
skip_stars (any_char ∷ p) = any_char ∷ p
skip_stars (zero_or_more ∷ p) = skip_stars p

abbrev pub Outcome : Type 0
Outcome = Bool × Pattern

pub finish : Pattern → Outcome
unfolding is_end_or_sep
finish p = (is_end_or_sep (skip_stars p), skip_stars p)

-- The test of the loops whether a character is matched by the element.
abbrev pub eats : Pattern → Char → Bool
eats p n = n == deref p || is_any p

-- The second loop: `cp` is where the next try starts in the name, `old` where it starts in the
-- pattern. The outcome is whether it matched, and the iterator.
pub retry_loop : ℕ → List Char → Pattern → List Char → Pattern → Option Outcome
unfolding finish is_end_or_sep
retry_loop zero name p cp old = none
retry_loop (suc fuel) [] p cp old = some (finish p)
retry_loop (suc fuel) (n ∷ name) p cp old =
    let again = retry_loop fuel cp old (drop 1 cp) old in
    if is_end_or_sep p
    then again
    else if eats p n
    then retry_loop fuel name (rest p) cp old
    else if is_zero_or_more p
    then (if is_end_or_sep (rest p)
        then some (true, rest p)
        else retry_loop fuel (n ∷ name) (rest p) name (rest p))
    else again

-- The first loop, up to the first `*`.
pub first_loop : ℕ → List Char → Pattern → Option Outcome
unfolding finish is_end_or_sep retry_loop
first_loop fuel [] p = some (finish p)
first_loop fuel (n ∷ name) p =
    let next = first_loop fuel name (rest p) in
    if is_end_or_sep p
    then some (false, p)
    else if is_zero_or_more p
    then retry_loop fuel (n ∷ name) p [] []
    else if not (eats p n)
    then some (false, p)
    else next

abbrev pub to_result : Outcome → WildMatchResult × Pattern
to_result (true, p) = (matched, p)
to_result (false, p) = (failed, p)

abbrev pub result_of : Option Outcome → Option (WildMatchResult × Pattern)
result_of none = none
result_of (some r) = some (to_result r)

abbrev pub dots_result : ℕ × Pattern → WildMatchResult × Pattern
dots_result (n, p) = if n == 1 then (dot, p) else if n == 2 then (dotdot, p) else (failed, p)

abbrev pub is_dots : List Char → Bool
is_dots [] = false
is_dots (c ∷ []) = c == period
is_dots (c ∷ d ∷ []) = c == period && d == period
is_dots (c ∷ d ∷ e ∷ name) = false

abbrev pub starts_period : List Char → Bool
starts_period [] = false
starts_period (c ∷ name) = c == period

-- `operator()`: the result and the iterator; `none` is a loop that did not end.
pub wild_match : ℕ → Bool → List Char → Pattern → Option (WildMatchResult × Pattern)
unfolding match_dots first_loop is_end_or_sep
wild_match fuel dotglob name p =
    if is_dots name
    then some (dots_result (match_dots name p))
    else if starts_period name && not (is_end_or_sep p) && not (deref p == period) && not dotglob
    then some (failed, p)
    else result_of (first_loop fuel name p)
