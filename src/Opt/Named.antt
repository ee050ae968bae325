-- ===== src/Opt/Named.antt =====
-- Options with a name that are written as words and read by `opt::Parser`.
use ydsh.Prelude.{
  All, Bool, List, Option, [], ap, append-nil, arith, false, none, refl, some, some_inj, sym, true,
  ◌++◌, ◌==◌, ◌∙◌, ◌∷◌, ◌≡◌,
}
use ydsh.Opt.{
  Char, Text, equals_sign, is_operand, is_terminator, OptionFlag, no_arg, has_arg, optional_arg,
  NamedOption, unrecog, value, error, behind, Reply, whole_name, longer_word, try_option,
  try_options, parse_option,
}
use mathlib.Core.Path.{subst}

-- The words of an option with an argument, or without one; `none` where it cannot have it.
abbrev pub written : OptionFlag → Text → Option Text → Option (Text × List Text)
written no_arg name none = some (name, [])
written no_arg name (some a) = none
written has_arg name none = none
written has_arg name (some a) = some (name, a ∷ [])
written optional_arg name none = some (name, [])
written optional_arg name (some a) = some (name ++ equals_sign ∷ a, [])

-- An option that the loop passes by at a word.
abbrev pub passes : OptionFlag → Option Text → Bool
passes flag none = true
passes flag (some []) = false
passes no_arg (some (c ∷ cs)) = true
passes has_arg (some (c ∷ cs)) = true
passes optional_arg (some (c ∷ cs)) = false

behind-append : (name w : Text) → behind name (name ++ w) ≡ some w
unfolding behind
behind-append [] w = refl
behind-append (c ∷ name) w = let t : (c == c) ≡ true = ground arith in rw t (behind-append name w)

behind_self : (name : Text) → behind name name ≡ some []
behind_self name = ap (λ t. behind name t) (sym (append-nil name)) ∙ behind-append name []

module _ {K : Type 0} where
  abbrev pub IsPassed : Text → NamedOption K → Type 0
  IsPassed w o = passes o.flag (behind o.option_name w) ≡ true

  passed_by :
      (flag : OptionFlag) (k : K) (name : Text) (b : Option Text) (w : Text) (words : List Text)
      (later : Reply K)
      → passes flag b ≡ true
      → try_option (record { kind = k; option_name = name; flag = flag }) b w words later ≡ later
  unfolding try_option longer_word
  passed_by flag k name none w words later h = refl
  passed_by flag k name (some []) w words later h = absurd (cc)
  passed_by no_arg k name (some (c ∷ cs)) w words later h = refl
  passed_by has_arg k name (some (c ∷ cs)) w words later h = refl
  passed_by optional_arg k name (some (c ∷ cs)) w words later h = absurd (cc)

  skip_passed :
      (before os : List (NamedOption K)) (w : Text) (words : List Text)
      → All (IsPassed w) before
      → try_options (before ++ os) w words ≡ try_options os w words
  unfolding try_options
  skip_passed [] os w words h = refl
  skip_passed (o ∷ before) os w words h =
      passed_by o.flag o.kind o.option_name (behind o.option_name w) w words
        (try_options (before ++ os) w words) h.0
      ∙ skip_passed before os w words h.1

  module _ (flag : OptionFlag) (k : K) (name : Text) (after : List (NamedOption K))
      (arg : Option Text) (rest : List Text) where
    abbrev IsReached : Text × List Text → Type 0
    IsReached p =
        try_options (record { kind = k; option_name = name; flag = flag } ∷ after) (p.0)
          (p.0 ∷ (p.1 ++ rest))
        ≡ (value k (p.0) arg, rest)

    tries-first :
        (p : Text × List Text) (b : Option Text)
        → behind name (p.0) ≡ b
        → ((later : Reply K)
            → try_option
                (record { kind = k; option_name = name; flag = flag })
                b
                (p.0)
                (p.0 ∷ (p.1 ++ rest))
                later
              ≡ (value k (p.0) arg, rest))
        → IsReached p
    unfolding try_options
    tries-first p b e h =
        ap
          (λ t.
            try_option (record { kind = k; option_name = name; flag = flag }) t (p.0)
              (p.0 ∷ (p.1 ++ rest)) (try_options after (p.0) (p.0 ∷ (p.1 ++ rest))))
          e
        ∙ h (try_options after (p.0) (p.0 ∷ (p.1 ++ rest)))

  reached :
      (flag : OptionFlag) (k : K) (name : Text) (after : List (NamedOption K)) (arg : Option Text)
      (rest : List Text) (p : Text × List Text)
      → written flag name arg ≡ some p
      → IsReached flag k name after arg rest p
  unfolding try_option whole_name longer_word
  reached no_arg k name after none rest p h =
      subst (IsReached no_arg k name after none rest) (some_inj h) (
        tries-first no_arg k name after none rest (name, []) (some []) (behind_self name)
          (λ later. refl))
  reached no_arg k name after (some a) rest p h = absurd (cc)
  reached has_arg k name after none rest p h = absurd (cc)
  reached has_arg k name after (some a) rest p h =
      subst (IsReached has_arg k name after (some a) rest) (some_inj h) (
        tries-first has_arg k name after (some a) rest (name, a ∷ []) (some []) (behind_self name)
          (λ later. refl))
  reached optional_arg k name after none rest p h =
      subst (IsReached optional_arg k name after none rest) (some_inj h) (
        tries-first optional_arg k name after none rest (name, []) (some []) (behind_self name)
          (λ later. refl))
  reached optional_arg k name after (some a) rest p h =
      subst (IsReached optional_arg k name after (some a) rest) (some_inj h) (
        tries-first optional_arg k name after (some a) rest (name ++ equals_sign ∷ a, [])
          (some (equals_sign ∷ a)) (behind-append name (equals_sign ∷ a)) (λ later. refl))

  -- An option of the parser that is written with an argument that fits its kind is read again, with
  -- its argument, and the words behind it are left, if the word is no `--` and starts with a hyphen
  -- and each option before it in the parser's order is passed by: its name is no part of the word
  -- from the start, or it is a shorter part and its argument is not optional.
  pub parse_option-written :
      (before after : List (NamedOption K)) (o : NamedOption K) (arg : Option Text) (w : Text)
      (more rest : List Text)
      → written o.flag o.option_name arg ≡ some (w, more)
      → is_operand w ≡ false
      → is_terminator w ≡ false
      → All (IsPassed w) before
      → parse_option (before ++ o ∷ after) (w ∷ (more ++ rest)) ≡ (value o.kind w arg, rest)
  unfolding parse_option
  parse_option-written before after o arg w more rest h a b passed =
      rw (a, b)
        (skip_passed before (o ∷ after) w (w ∷ (more ++ rest)) passed
          ∙ reached o.flag o.kind o.option_name after arg rest (w, more) h)

  -- Where an option with an optional argument stands before one whose name is longer and goes on with
  -- something else than `=`, the longer name is not recognized.
  pub parse_option-hidden :
      (k l : K) (name : Text) (c : Char) (cs : Text) (flag : OptionFlag)
      (after : List (NamedOption K)) (rest : List Text)
      → (c == equals_sign) ≡ false
      → is_operand (name ++ c ∷ cs) ≡ false
      → is_terminator (name ++ c ∷ cs) ≡ false
      → parse_option
          (record { kind = k; option_name = name; flag = optional_arg }
            ∷ record { kind = l; option_name = name ++ c ∷ cs; flag = flag }
            ∷ after)
          ((name ++ c ∷ cs) ∷ rest)
        ≡ (error unrecog (some (name ++ c ∷ cs)), (name ++ c ∷ cs) ∷ rest)
  unfolding parse_option try_options try_option longer_word
  parse_option-hidden k l name c cs flag after rest h a b =
      rw (a, b, behind-append name (c ∷ cs), h) refl
