-- ===== src/Glob/Tests.antt =====
-- Tests of the matcher, and its theorem at one name.
use ydsh.Prelude.{List, [], arith, false, refl, some, true, ℕ, ◌&&◌, ◌+◌, ◌∷◌, ◌≡◌}
use ydsh.Glob.{
  Char, literal, any_char, zero_or_more, Pattern, failed, dotdot, matched, wild_match, consume_seps,
  consume_dot,
}
use ydsh.Glob.Wild.{wild}
use ydsh.Glob.Whole.{wild_match_lem, verdict, period_allowed, EndsPart}

-- `h*g*e`, then a separator.
abbrev some_pattern : Pattern
some_pattern =
    literal b'h' ∷ zero_or_more ∷ literal b'g' ∷ zero_or_more ∷ literal b'e' ∷ literal b'/' ∷ []

abbrev hoge : List Char
hoge = b'h' ∷ b'o' ∷ b'g' ∷ b'g' ∷ b'e' ∷ []

matches : wild_match 30 false hoge some_pattern ≡ some (matched, literal b'/' ∷ [])
unfolding wild_match
matches = refl

goes_back :
    wild_match 30 false
      (b'a' ∷ b'b' ∷ b'a' ∷ b'c' ∷ [])
      (zero_or_more ∷ literal b'a' ∷ literal b'c' ∷ [])
    ≡ some (matched, [])
unfolding wild_match
goes_back = refl

hidden :
    wild_match 30 false (b'.' ∷ b'a' ∷ []) (zero_or_more ∷ []) ≡ some (failed, zero_or_more ∷ [])
unfolding wild_match
hidden = refl

hidden_allowed : wild_match 30 true (b'.' ∷ b'a' ∷ []) (zero_or_more ∷ []) ≡ some (matched, [])
unfolding wild_match
hidden_allowed = refl

parent_only :
    wild_match 0 true (b'.' ∷ b'.' ∷ []) (literal b'.' ∷ literal b'.' ∷ []) ≡ some (dotdot, [])
unfolding wild_match
parent_only = refl

not_by_star :
    wild_match 0 true (b'.' ∷ b'.' ∷ []) (zero_or_more ∷ []) ≡ some (failed, zero_or_more ∷ [])
unfolding wild_match
not_by_star = refl

two_seps : consume_seps (literal b'/' ∷ literal b'/' ∷ any_char ∷ []) ≡ (2, any_char ∷ [])
unfolding consume_seps
two_seps = refl

one_dot : consume_dot (literal b'.' ∷ literal b'/' ∷ []) ≡ (true, literal b'/' ∷ [])
unfolding consume_dot
one_dot = refl

wild_match_lem_example :
    (bound : ℕ) × ((extra : ℕ)
      → (q : Pattern) × (wild_match (bound + extra) false hoge some_pattern
          ≡ some (verdict (period_allowed false hoge some_pattern && wild some_pattern hoge), q))
        × EndsPart (period_allowed false hoge some_pattern && wild some_pattern hoge) q)
wild_match_lem_example = wild_match_lem false hoge some_pattern (omega arith) refl
