-- ===== src/Builtin/Tests.antt =====
-- Runs of the methods of strings and arrays.
use ydsh.Prelude.{◌++◌, All, List, [], arith, none, refl, some, true, ℕ, ◌∷◌, ◌≡◌, inr, take, drop}
use ydsh.Prelude.Int.{pos, negsuc}
use ydsh.Builtin.{
  Text, array_insert, array_remove, array_unshift, array_pop, array_shift, array_get, array_swap,
  slice, slice_to, slice_from, string_split, string_replace, resolve_index, text, index_of,
  last_index_of, text_ends_with,
}
use ydsh.Builtin.Slice.{slice_to-slice_from}
use ydsh.Builtin.Find.{NotFound}
use ydsh.Builtin.Split.{string_split-join, string_replace-split, join}
use ydsh.Builtin.Arrays.{array_insert-remove}

abbrev three : List ℕ
three = 10 ∷ 20 ∷ 30 ∷ []

-- "a::b:c" with the delimiter "::".
abbrev line : Text
line = 97 ∷ 58 ∷ 58 ∷ 98 ∷ 58 ∷ 99 ∷ []

abbrev line_parts : List Text
line_parts = (97 ∷ []) ∷ (98 ∷ 58 ∷ 99 ∷ []) ∷ []

test-push_pop : array_pop three ≡ some (30, 10 ∷ 20 ∷ [])
unfolding array_pop
test-push_pop = refl

test-shift : array_shift three ≡ some (10, 20 ∷ 30 ∷ [])
unfolding array_shift
test-shift = refl

test-unshift : array_unshift three 5 ≡ some (5 ∷ three)
unfolding array_unshift resolve_index
test-unshift = refl

test-get_last : array_get three (negsuc 0) ≡ some 30
unfolding array_get
test-get_last = refl

test-get_outside : array_get three (negsuc 3) ≡ none
unfolding array_get
test-get_outside = refl

test-swap : array_swap three (pos 1) 7 ≡ some (20, 10 ∷ 7 ∷ 30 ∷ [])
unfolding array_swap
test-swap = refl

test-slice : slice three (negsuc 1) (pos 3) ≡ some (20 ∷ 30 ∷ [])
unfolding slice
test-slice = refl

test-index : (index_of line (58 ∷ []) ≡ some 1) × (last_index_of line (58 ∷ []) ≡ some 4)
unfolding index_of last_index_of
test-index = (refl, refl)

test-ends : text_ends_with line (58 ∷ 99 ∷ []) ≡ true
unfolding text_ends_with
test-ends = refl

split_line : string_split 7 line (58 ∷ 58 ∷ []) ≡ some line_parts
unfolding string_split
split_line = refl

slice_to-slice_from_example :
    (slice_to three (negsuc 0) ≡ some (10 ∷ 20 ∷ []))
    × (slice_from three (negsuc 0) ≡ some (30 ∷ []))
slice_to-slice_from_example = slice_to-slice_from three (negsuc 0)

string_split-join_example :
    (first : Text) × (parts : List Text) × (string_split 7 line (58 ∷ 58 ∷ [])
      ≡ some (first ∷ parts))
    × (line ≡ join (58 ∷ 58 ∷ []) (first ∷ parts))
    × NotFound (58 ∷ 58 ∷ []) first
    × All (NotFound (58 ∷ 58 ∷ [])) parts
string_split-join_example = string_split-join line 58 (58 ∷ []) 7 (omega arith)

string_replace-split_example :
    string_replace 7 line (58 ∷ 58 ∷ []) (45 ∷ []) ≡ some (text (join (45 ∷ []) line_parts))
string_replace-split_example =
    string_replace-split line 58 (58 ∷ []) (45 ∷ []) 7 line_parts (omega arith) split_line
      (omega arith)

array_insert-remove_example :
    (ys : List ℕ) × (ys ≡ take 1 three ++ 25 ∷ drop 1 three)
    × (array_insert three (negsuc 1) 25 ≡ some ys)
    × (array_remove ys (pos 1) ≡ some (25, three))
array_insert-remove_example =
    array_insert-remove three (negsuc 1) 25 1 (inr (1, refl, refl)) (omega arith)
