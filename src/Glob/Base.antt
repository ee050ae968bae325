-- ===== src/Glob/Base.antt =====
-- Where a glob starts: `resolveBaseDir` of src/misc/glob.hpp.
use ydsh.Prelude.{
  Bool, List, Option, [], false, if◌then◌else◌, none, not, some, true, ◌&&◌, ◌++◌, ◌+◌, ◌==◌, ◌∷◌,
}
use ydsh.Glob.{Char, literal, any_char, zero_or_more, Pattern, slash, period}
mod Start
mod Tests

abbrev pub back_is : Char → List Char → Bool
back_is c [] = false
back_is c (x ∷ []) = x == c
back_is c (x ∷ y ∷ xs) = back_is c (y ∷ xs)

-- A character behind the directory so far; a separator that is redundant is left out.
pub push_char : List Char → Char → List Char
push_char dir c = if c == slash && back_is slash dir then dir else dir ++ c ∷ []

-- The loop up to a meta character: the directory so far, and the iterator behind the last separator.
pub base_loop : Pattern → List Char → Option Pattern → List Char × Option Pattern
unfolding push_char
base_loop [] dir sep = (dir, sep)
base_loop (literal c ∷ p) dir sep =
    base_loop p (push_char dir c) (if c == slash then some p else sep)
base_loop (any_char ∷ p) dir sep = (dir, sep)
base_loop (zero_or_more ∷ p) dir sep = (dir, sep)

-- The loop that takes the characters behind the last separator off.
abbrev pub trim_step : Char → List Char → List Char
trim_step c [] = if c == slash then c ∷ [] else []
trim_step c (x ∷ xs) = c ∷ x ∷ xs

pub trim_base : List Char → List Char
trim_base [] = []
trim_base (c ∷ cs) = trim_step c (trim_base cs)

abbrev pub front_is : Char → List Char → Bool
front_is c [] = false
front_is c (x ∷ xs) = x == c

-- A directory that is not absolute stands below an absolute base.
pub with_base : Option (List Char) → List Char → List Char
with_base none dir = dir
with_base (some base) dir =
    if front_is slash base && not (front_is slash dir) then base ++ slash ∷ dir else dir

abbrev pub base_of :
    (List Char → List Char)
    → Option (List Char)
    → Pattern
    → List Char × Option Pattern
    → List Char × Pattern
base_of expand base p (dir, none) = (with_base base (period ∷ []), p)
base_of expand base p (dir, some rest) = (with_base base (expand (trim_base dir)), rest)

-- `resolveBaseDir`: the directory and the iterator. `expand` is the expansion of a tilde, where the
-- options ask for it.
pub resolve_base_dir : (List Char → List Char) → Option (List Char) → Pattern → List Char × Pattern
unfolding base_loop trim_base with_base
resolve_base_dir expand base p = base_of expand base p (base_loop p [] none)

-- The part of a pattern up to its last separator before a meta character, and the part behind it.
abbrev pub cons_part : Char → Pattern → Option (List Char × Pattern) → Option (List Char × Pattern)
cons_part c p none = if c == slash then some (c ∷ [], p) else none
cons_part c p (some (dir, rest)) = some (c ∷ dir, rest)

pub last_sep : Pattern → Option (List Char × Pattern)
last_sep [] = none
last_sep (literal c ∷ p) = cons_part c p (last_sep p)
last_sep (any_char ∷ p) = none
last_sep (zero_or_more ∷ p) = none

-- A text without the separators behind separators; `b` says whether one stands before it.
pub squeeze : Bool → List Char → List Char
squeeze b [] = []
squeeze b (c ∷ cs) =
    let again = squeeze true cs in
    let more = squeeze (c == slash) cs in if c == slash && b then again else c ∷ more

pub literals : Pattern → List Char
literals [] = []
literals (literal c ∷ p) = c ∷ literals p
literals (any_char ∷ p) = []
literals (zero_or_more ∷ p) = []

abbrev pub sep_of : Option (List Char × Pattern) → Option Pattern → Option Pattern
sep_of none sep = sep
sep_of (some (dir, rest)) sep = some rest

abbrev pub dir_of : Option (List Char × Pattern) → List Char
dir_of none = []
dir_of (some (dir, rest)) = dir
