-- ===== src/Grapheme/Chars.antt =====
-- The loops over `next`: the characters of a text, their count, and the one at a position.
use ydsh.Prelude.{
  ◌&&◌, Bool, not, List, Option, [], drop, get_elem?, length, none, some, suc, true, zero, ℕ, ◌++◌,
  ◌+◌, ◌∷◌, ◌≡◌, Bool, not,
}
use ydsh.Prelude.Int.{pos}
use ydsh.Unicode.{Byte}
use ydsh.Grapheme.{
  Interval, Scanner, ClusterResult, next, count_loop, chars_loop, CharAt, found, out_of_range,
  char_at_loop,
}

abbrev pub concat : List (List Byte) → List Byte
concat [] = []
concat (c ∷ cs) = c ++ concat cs

abbrev pub char_or : Option (List Byte) → ℕ → CharAt
char_or none n = out_of_range n
char_or (some c) n = found c

-- What the three loops answer, from a scanner on, by the characters that are left.
abbrev Answers : List Interval → List Byte → ℕ → Scanner → ClusterResult → List (List Byte) → Type 0
Answers table ref fuel s r cs =
    (concat cs ≡ drop s.prev_pos ref)
    × ((acc : List (List Byte)) → chars_loop table ref fuel acc s r ≡ some (acc ++ cs))
    × ((n : ℕ) → count_loop table ref fuel n s r ≡ some (n + length cs))
    × ((i n : ℕ)
        → char_at_loop table ref (pos (n + i)) fuel n s r
          ≡ some (char_or (get_elem? cs i) (n + length cs)))

-- No call of `next` writes behind the array of the result, as often as the fuel says.
abbrev pub in_array : List Interval → List Byte → ℕ → Scanner → ClusterResult → Bool
in_array table ref zero s r = true
in_array table ref (suc fuel) s r =
    let (s', r', more) = next table ref s r in not r'.overrun && in_array table ref fuel s' r'
