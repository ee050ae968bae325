-- ===== src/Opt/Letters.antt =====
-- Options of one letter, written as words and read by `GetOptState`.
use ydsh.Prelude.{
  List, Option, [], false, if◌then◌else◌, none, some, suc, zero, ℕ, ◌++◌, ◌==◌, ◌∷◌, ◌≡◌, ◌⊎◌, All,
}
use ydsh.Opt.{
  Char, Text, hyphen, colon, GetOptState, starts, is_operand, is_terminator, find_letter, Round,
  get_opt,
}

-- What the option string says of a letter: the text behind it.
abbrev pub IsLetter : Text → Char → Text → Type 0
IsLetter opt_str c marks =
    (find_letter c opt_str ≡ c ∷ marks) × ((c == colon) ≡ false) × ((c == hyphen) ≡ false)

abbrev pub IsFlag : Text → Char → Type 0
IsFlag opt_str c = (marks : Text) × IsLetter opt_str c marks × (starts colon marks ≡ false)

abbrev pub TakesArg : Text → Char → Type 0
TakesArg opt_str c =
    (marks : Text) × IsLetter opt_str c (colon ∷ marks) × (starts colon marks ≡ false)

abbrev pub MayTakeArg : Text → Char → Type 0
MayTakeArg opt_str c = (marks : Text) × IsLetter opt_str c (colon ∷ colon ∷ marks)

-- A word of options: letters without arguments, of which the last may be followed by one with an
-- argument, in the same word or in the next.
pub data Word : Type 0 where
  flags : Char → Text → Word
  attached : Text → Char → Char → Text → Word
  separate : Text → Char → Text → Word
  without : Text → Char → Word

abbrev pub print : Word → List Text
print (flags c cs) = (hyphen ∷ c ∷ cs) ∷ []
print (attached cs c a more) = (hyphen ∷ (cs ++ c ∷ a ∷ more)) ∷ []
print (separate cs c arg) = (hyphen ∷ (cs ++ c ∷ [])) ∷ arg ∷ []
print (without cs c) = (hyphen ∷ (cs ++ c ∷ [])) ∷ []

abbrev pub Found : Type 0
Found = Char × Option Text

abbrev pub bare : Text → List Found
bare [] = []
bare (c ∷ cs) = (c, none) ∷ bare cs

abbrev pub meant : Word → List Found
meant (flags c cs) = (c, none) ∷ bare cs
meant (attached cs c a more) = bare cs ++ (c, some (a ∷ more)) ∷ []
meant (separate cs c arg) = bare cs ++ (c, some arg) ∷ []
meant (without cs c) = bare cs ++ (c, none) ∷ []

abbrev pub IsDeclared : Text → Word → Type 0
IsDeclared opt_str (flags c cs) = IsFlag opt_str c × All (IsFlag opt_str) cs
IsDeclared opt_str (attached cs c a more) =
    All (IsFlag opt_str) cs × (TakesArg opt_str c ⊎ MayTakeArg opt_str c)
IsDeclared opt_str (separate cs c arg) = All (IsFlag opt_str) cs × TakesArg opt_str c
IsDeclared opt_str (without cs c) = All (IsFlag opt_str) cs × MayTakeArg opt_str c

abbrev pub print_all : List Word → List Text → List Text
print_all [] rest = rest
print_all (w ∷ ws) rest = print w ++ print_all ws rest

abbrev pub meant_all : List Word → List Found
meant_all [] = []
meant_all (w ∷ ws) = meant w ++ meant_all ws

-- The loop of the commands that have options, up to the answer -1.
abbrev pub cons_found : Found → Option (List Found × List Text) → Option (List Found × List Text)
cons_found f none = none
cons_found f (some (fs, ws)) = some (f ∷ fs, ws)

abbrev pub next_round :
    Round
    → (GetOptState → List Text → Option (List Found × List Text))
    → Option (List Found × List Text)
next_round (none, s, ws) again = some ([], ws)
next_round (some c, s, ws) again = cons_found (c, s.opt_arg) (again s ws)

unfoldable pub get_all : ℕ → Text → GetOptState → List Text → Option (List Found × List Text)
unfolding get_opt
get_all zero opt_str s ws = none
get_all (suc fuel) opt_str s ws =
    next_round (get_opt opt_str s ws) (λ s' ws'. get_all fuel opt_str s' ws')

-- A state that is within a word, with the letters that are left.
abbrev pub at : Text → GetOptState
at cs = record { next_char = cs; opt_arg = none; opt_opt = 0 }

-- Where the options end: at the end of the words, at an operand, or behind the word `--`.
abbrev pub after_options : List Text → Option (List Text)
after_options [] = some []
after_options (w ∷ ws) =
    if is_operand w then some (w ∷ ws) else if is_terminator w then some ws else none
