-- ===== src/Opt/Tests.antt =====
-- Runs of the parsers of options.
use ydsh.Prelude.{All, List, [], inr, length, none, refl, some, suc, ℕ, ◌+◌, ◌∷◌, ◌≡◌}
use ydsh.Opt.{
  Text, hyphen, colon, question, GetOptState, get_opt, NamedOption, has_arg, optional_arg, value,
  error, need_arg, parse_option, behind, find_letter,
}
use ydsh.Opt.Letters.{
  Word, attached, separate, without, print_all, meant_all, get_all, IsDeclared, IsFlag,
}
use ydsh.Opt.Words.{get_all-print}
use ydsh.Opt.Named.{parse_option-written, IsPassed}

abbrev fresh : GetOptState
fresh = record { next_char = []; opt_arg = none; opt_opt = 0 }

-- "ab:c::"
abbrev opt_str : Text
opt_str = 97 ∷ 98 ∷ 58 ∷ 99 ∷ 58 ∷ 58 ∷ []

-- "-aab" "xy", "-acz", "-c"
abbrev words : List Word
words =
    separate (97 ∷ 97 ∷ []) 98 (120 ∷ 121 ∷ []) ∷ attached (97 ∷ []) 99 122 [] ∷ without [] 99 ∷ []

-- "--" "f"
abbrev operands : List Text
operands = (hyphen ∷ hyphen ∷ []) ∷ (102 ∷ []) ∷ []

test-unknown : get_opt opt_str fresh ((hyphen ∷ 122 ∷ []) ∷ []) ≡ (
  some question,
  record { next_char = 122 ∷ []; opt_arg = none; opt_opt = 122 },
  (hyphen ∷ 122 ∷ []) ∷ [],
)
unfolding get_opt
test-unknown = refl

test-missing :
    get_opt opt_str fresh ((hyphen ∷ 98 ∷ []) ∷ [])
    ≡ (some question, record { next_char = []; opt_arg = none; opt_opt = 98 }, [])
unfolding get_opt
test-missing = refl

test-missing_colon :
    get_opt (colon ∷ opt_str) fresh ((hyphen ∷ 98 ∷ []) ∷ [])
    ≡ (some colon, record { next_char = []; opt_arg = none; opt_opt = 98 }, [])
unfolding get_opt
test-missing_colon = refl

test-operand : get_opt opt_str fresh ((102 ∷ []) ∷ []) ≡ (none, fresh, (102 ∷ []) ∷ [])
unfolding get_opt
test-operand = refl

is_declared : All (IsDeclared opt_str) words
unfolding find_letter
is_declared =
    let a : IsFlag opt_str 97 = (98 ∷ 58 ∷ 99 ∷ 58 ∷ 58 ∷ [], (refl, refl, refl), refl) in
    (
      ((a, (a, tt)), (99 ∷ 58 ∷ 58 ∷ [], (refl, refl, refl), refl)),
      (((a, tt), inr ([], (refl, refl, refl))), ((tt, ([], (refl, refl, refl))), tt)),
    )

get_all-print_example :
    get_all (length (meant_all words) + suc 0) opt_str fresh (print_all words operands)
    ≡ some (meant_all words, (102 ∷ []) ∷ [])
get_all-print_example =
    get_all-print opt_str words operands ((102 ∷ []) ∷ []) 0 fresh is_declared refl refl

-- "--out" with an argument that may be left out, and "-i" with one.
abbrev out : NamedOption ℕ
out = record { kind = 1; option_name = 45 ∷ 45 ∷ 111 ∷ 117 ∷ 116 ∷ []; flag = optional_arg }

abbrev input : NamedOption ℕ
input = record { kind = 2; option_name = 45 ∷ 105 ∷ []; flag = has_arg }

test-need :
    parse_option (input ∷ out ∷ []) ((45 ∷ 105 ∷ []) ∷ [])
    ≡ (error need_arg (some (45 ∷ 105 ∷ [])), (45 ∷ 105 ∷ []) ∷ [])
unfolding parse_option
test-need = refl

abbrev out_word : Text
out_word = 45 ∷ 45 ∷ 111 ∷ 117 ∷ 116 ∷ 61 ∷ 120 ∷ []

passes_input : All (IsPassed out_word) (input ∷ [])
unfolding behind
passes_input = (refl, tt)

parse_option-written_example :
    parse_option (input ∷ out ∷ []) (out_word ∷ operands)
    ≡ (value 1 out_word (some (120 ∷ [])), operands)
parse_option-written_example =
    parse_option-written (input ∷ []) [] out (some (120 ∷ [])) out_word [] operands refl refl refl
      passes_input
