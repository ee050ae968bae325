-- ===== src/Opt.antt =====
-- The two parsers of options of src/misc/opt.hpp: `GetOptState` for options of one letter, and
-- `opt::Parser` for options with a name. A word is the list of its characters, an iterator over the
-- words is the list of those that are left. A reference that is null is empty, but for an argument,
-- where it is `none`; the answer -1 is `none`.
use ydsh.Prelude.{
  Bool, List, Option, [], drop, false, if◌then◌else◌, length, none, not, true, ℕ, ◌&&◌, ◌+◌, ◌==◌,
  ◌∷◌, some,
}
mod Letters
mod Cluster
mod Words
mod Named
mod Tests

abbrev pub Char : Type 0
Char = ℕ

abbrev pub Text : Type 0
Text = List Char

abbrev pub hyphen : Char
hyphen = 45

abbrev pub colon : Char
colon = 58

abbrev pub question : Char
question = 63

abbrev pub equals_sign : Char
equals_sign = 61

pub record GetOptState : Type 0 where
  pub next_char : Text
  pub opt_arg : Option Text
  pub opt_opt : Char

-- `reset`.
abbrev pub reset : GetOptState → GetOptState
reset s = record { next_char = []; opt_arg = none; opt_opt = 0 }

abbrev pub starts : Char → Text → Bool
starts c [] = false
starts c (x ∷ xs) = x == c

abbrev pub is_empty : Text → Bool
is_empty [] = true
is_empty (x ∷ xs) = false

-- A word that is no option: it does not start with a hyphen, or it is one.
abbrev pub is_operand : Text → Bool
is_operand [] = true
is_operand (x ∷ []) = true
is_operand (x ∷ y ∷ xs) = not (x == hyphen)

-- The word `--`.
abbrev pub is_terminator : Text → Bool
is_terminator [] = false
is_terminator (x ∷ []) = false
is_terminator (x ∷ y ∷ []) = x == hyphen && y == hyphen
is_terminator (x ∷ y ∷ z ∷ xs) = false

-- The option string from the letter on, which is where `ptr` points to; empty where it is null.
pub find_letter : Char → Text → Text
find_letter c [] = []
find_letter c (o ∷ os) = let later = find_letter c os in if o == c then o ∷ os else later

abbrev pub Round : Type 0
Round = Option Char × GetOptState × List Text

-- What follows a letter that was recognized.
pub move_on : Char → GetOptState → List Text → Round
move_on c s words =
    if is_empty s.next_char
    then (some c, s, drop 1 words)
    else if is_empty (drop 1 s.next_char)
    then (some c, record s { next_char = drop 1 s.next_char }, drop 1 words)
    else (some c, record s { next_char = drop 1 s.next_char }, words)

-- An argument that is the next word.
pub next_word : Text → Char → GetOptState → List Text → Round
unfolding move_on
next_word opt_str c s [] = (
  some (if starts colon opt_str then colon else question),
  record { next_char = []; opt_arg = none; opt_opt = c },
  [],
)
next_word opt_str c s (w ∷ words) =
    move_on c (record s { next_char = []; opt_arg = some w }) (w ∷ words)

-- A letter with an argument; `marks` is what stands behind the first colon.
pub with_arg : Text → Text → Char → GetOptState → List Text → Round
unfolding next_word move_on
with_arg opt_str marks c s words =
    if not (is_empty (drop 1 s.next_char))
    then move_on c (record s { next_char = []; opt_arg = some (drop 1 s.next_char) }) words
    else if starts colon marks
    then move_on c (record s { next_char = []; opt_arg = none }) words
    else next_word opt_str c s (drop 1 words)

abbrev pub first_char : Text → Char
first_char [] = 0
first_char (c ∷ cs) = c

pub letter : Text → Text → GetOptState → List Text → Round
unfolding with_arg move_on
letter opt_str [] s words = (some question, record s { opt_opt = first_char s.next_char }, words)
letter opt_str (c ∷ marks) s words =
    if c == colon
    then (some question, record s { opt_opt = first_char s.next_char }, words)
    else if starts colon marks
    then with_arg opt_str (drop 1 marks) c s words
    else move_on c s words

abbrev pub enter_word : Text → Text → Text
enter_word [] w = drop 1 w
enter_word (c ∷ cs) w = c ∷ cs

-- `operator()` of `GetOptState`.
pub get_opt : Text → GetOptState → List Text → Round
unfolding letter find_letter
get_opt opt_str s [] = (none, reset s, [])
get_opt opt_str s (w ∷ words) =
    if is_operand w
    then (none, reset s, w ∷ words)
    else if is_terminator w
    then (none, reset s, words)
    else let next = enter_word s.next_char w in
      letter opt_str (find_letter (first_char next) opt_str)
        (record { next_char = next; opt_arg = none; opt_opt = 0 }) (w ∷ words)

pub data OptionFlag : Type 0 where
  no_arg : OptionFlag
  has_arg : OptionFlag
  optional_arg : OptionFlag

-- `getOptSuffix`: "", " arg" or "[=arg]".
pub get_opt_suffix : OptionFlag → Text
get_opt_suffix no_arg = []
get_opt_suffix has_arg = 32 ∷ 97 ∷ 114 ∷ 103 ∷ []
get_opt_suffix optional_arg = 91 ∷ 61 ∷ 97 ∷ 114 ∷ 103 ∷ 93 ∷ []

-- `opt::Option`, without the text that is shown for help.
pub record NamedOption (K : Type 0) : Type 0 where
  pub kind : K
  pub option_name : Text
  pub flag : OptionFlag

pub get_usage_size : {K : Type 0} → NamedOption K → ℕ
unfolding get_opt_suffix
get_usage_size o = length o.option_name + length (get_opt_suffix o.flag)

-- `opt::Error`, and `opt::Result` with what was recognized.
pub data OptError : Type 0 where
  unrecog : OptError
  need_arg : OptError
  end_of_options : OptError

pub data OptResult (K : Type 0) : Type 0 where
  value : K → Text → Option Text → OptResult K
  error : OptError → Option Text → OptResult K

-- What is left of a word behind a name; `none` if the word does not start with it.
pub behind : Text → Text → Option Text
behind [] w = some w
behind (c ∷ name) [] = none
behind (c ∷ name) (d ∷ w) = let rest = behind name w in if c == d then rest else none

abbrev pub Reply : Type 0 → Type 0
Reply K = OptResult K × List Text

module _ {K : Type 0} where
  abbrev pub need_word : K → Text → List Text → List Text → Reply K
  need_word k w words [] = (error need_arg (some w), words)
  need_word k w words (a ∷ rest) = (value k w (some a), rest)

  -- A word that is the name of the option.
  pub whole_name : OptionFlag → K → Text → List Text → Reply K
  whole_name no_arg k w words = (value k w none, drop 1 words)
  whole_name has_arg k w words = need_word k w words (drop 1 words)
  whole_name optional_arg k w words = (value k w none, drop 1 words)

  -- A word that goes on behind the name; `later` is what the options after this one give.
  pub longer_word : OptionFlag → K → Text → Char → Text → List Text → Reply K → Reply K
  longer_word no_arg k w c cs words later = later
  longer_word has_arg k w c cs words later = later
  longer_word optional_arg k w c cs words later =
      if c == equals_sign
      then (value k w (some cs), drop 1 words)
      else (error unrecog (some w), words)

  pub try_option : NamedOption K → Option Text → Text → List Text → Reply K → Reply K
  unfolding whole_name longer_word
  try_option o none w words later = later
  try_option o (some []) w words later = whole_name o.flag o.kind w words
  try_option o (some (c ∷ cs)) w words later = longer_word o.flag o.kind w c cs words later

  -- The loop over the options.
  pub try_options : List (NamedOption K) → Text → List Text → Reply K
  unfolding try_option behind
  try_options [] w words = (error unrecog (some w), words)
  try_options (o ∷ os) w words =
      try_option o (behind o.option_name w) w words (try_options os w words)

  -- `operator()` of `opt::Parser`.
  pub parse_option : List (NamedOption K) → List Text → Reply K
  unfolding try_options
  parse_option os [] = (error end_of_options none, [])
  parse_option os (w ∷ words) =
      if is_operand w
      then (error end_of_options (some w), w ∷ words)
      else if is_terminator w
      then (error end_of_options (some w), words)
      else try_options os w (w ∷ words)
