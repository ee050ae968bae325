-- ===== src/Opt/Words.antt =====
-- Options of one letter that are written as words are read again.
use ydsh.Prelude.{
  All, Bool-cases, List, Option, [], ap, append-nil, arith, false, inl, inr, length, none, refl,
  some, some_inj, suc, sym, ℕ, ◌++◌, ◌+◌, ◌==◌, ◌∙◌, ◌∷◌, ◌≡◌, ◌⊎◌,
}
use ydsh.Opt.{
  Char, Text, hyphen, GetOptState, reset, is_operand, is_terminator, enter_word, get_opt,
}
use ydsh.Opt.Letters.{
  IsFlag, TakesArg, MayTakeArg, Found, bare, cons_found, next_round, get_all, at, Word, flags,
  attached, separate, without, print, meant, IsDeclared, print_all, meant_all, after_options,
}
use ydsh.Opt.Cluster.{
  InWord, InWord-of_first, rounds, rounds-append, rounds-eq, prepend, prepend-append, prepend-some,
  only_flags, some_flags, last_attached, last_separate, last_without,
}

start_of :
    (opt_str cs : Text) (c : Char) (ts : Text)
    → All (IsFlag opt_str) cs
    → (c == hyphen) ≡ false
    → InWord (hyphen ∷ (cs ++ c ∷ ts))
start_of opt_str [] c ts fs h = InWord-of_first c ts h
start_of opt_str (d ∷ ds) c ts ((marks, (found, g, h'), m), fs) h =
    InWord-of_first d (ds ++ c ∷ ts) h'

module _ (opt_str : Text) where
  -- The rounds for a word, where `out` is what the rounds after it give.
  abbrev Reads : Word → List Text → Type 0
  Reads word rest =
      (fuel : ℕ) (s : GetOptState) (out : Option (List Found × List Text))
      → s.next_char ≡ []
      → ((s' : GetOptState) → s'.next_char ≡ [] → get_all fuel opt_str s' rest ≡ out)
      → get_all (rounds (meant word) fuel) opt_str s (print word ++ rest) ≡ prepend (meant word) out

  one_word :
      (cs : Text) (c : Char) (ts : Text) (arg : Option Text) (ws rest : List Text)
      → All (IsFlag opt_str) cs
      → (c == hyphen) ≡ false
      → ((fuel : ℕ) (s : GetOptState)
          → enter_word s.next_char (hyphen ∷ (cs ++ c ∷ ts)) ≡ c ∷ ts
          → (s' : GetOptState) × (s'.next_char ≡ [])
            × (get_all (suc fuel) opt_str s ((hyphen ∷ (cs ++ c ∷ ts)) ∷ ws)
                ≡ cons_found (c, arg) (get_all fuel opt_str s' rest)))
      → (fuel : ℕ) → (s : GetOptState) → (out : Option (List Found × List Text)) → s.next_char ≡ []
      → ((s' : GetOptState) → s'.next_char ≡ [] → get_all fuel opt_str s' rest ≡ out)
      → get_all (rounds (bare cs ++ (c, arg) ∷ []) fuel) opt_str s ((hyphen ∷ (cs ++ c ∷ ts)) ∷ ws)
        ≡ prepend (bare cs ++ (c, arg) ∷ []) out
  one_word cs c ts arg ws rest fs h last fuel s out e k =
      let w : Text = hyphen ∷ (cs ++ c ∷ ts) in
      ap (λ n. get_all n opt_str s (w ∷ ws)) (rounds-append (bare cs) ((c, arg) ∷ []) fuel)
      ∙ some_flags opt_str w ws (start_of opt_str cs c ts fs h) (suc fuel) s cs c ts
          (cons_found (c, arg) out) (ap (λ t. enter_word t w) e) fs
          (λ s' e'. let (s'', n, q) = last fuel s' e' in q ∙ ap (cons_found (c, arg)) (k s'' n))
      ∙ sym (prepend-append (bare cs) ((c, arg) ∷ []) out)

  not_hyphen : (c : Char) → TakesArg opt_str c ⊎ MayTakeArg opt_str c → (c == hyphen) ≡ false
  not_hyphen c (inl (marks, (found, h, g), m)) = g
  not_hyphen c (inr (marks, (found, h, g))) = g

  word-Reads : (word : Word) (rest : List Text) → IsDeclared opt_str word → Reads word rest
  word-Reads (flags c cs) rest (f, fs) = λ fuel s out e k.
      let (marks, (found, h, g), m) = f in
      only_flags opt_str (hyphen ∷ c ∷ cs) rest (InWord-of_first c cs g) fuel s c cs
        (ap (λ t. enter_word t (hyphen ∷ c ∷ cs)) e) f fs
      ∙ ap (prepend (bare (c ∷ cs))) (k (at []) refl)
  word-Reads (attached cs c a more) rest (fs, t) =
      one_word cs c (a ∷ more) (some (a ∷ more)) rest rest fs (not_hyphen c t) (λ fuel s e.
        last_attached opt_str _ rest (start_of opt_str cs c (a ∷ more) fs (not_hyphen c t)) fuel s c
          a more e t)
  word-Reads (separate cs c arg) rest (fs, t) =
      one_word cs c [] (some arg) (arg ∷ rest) rest fs (not_hyphen c (inl t)) (λ fuel s e.
        last_separate opt_str _ (arg ∷ rest) (start_of opt_str cs c [] fs (not_hyphen c (inl t)))
          fuel s c arg rest refl e t)
  word-Reads (without cs c) rest (fs, t) =
      one_word cs c [] none rest rest fs (not_hyphen c (inr t)) (λ fuel s e.
        last_without opt_str _ rest (start_of opt_str cs c [] fs (not_hyphen c (inr t))) fuel s c e
          t)

get_opt-end :
    (opt_str : Text) (s : GetOptState) (rest after : List Text)
    → after_options rest ≡ some after
    → get_opt opt_str s rest ≡ (none, reset s, after)
unfolding get_opt
get_opt-end opt_str s [] after h = ap (λ t. (none, reset s, t)) (some_inj h)
get_opt-end opt_str s (w ∷ ws) after h = elim (Bool-cases (is_operand w)) [
  | inl e ↦
      let same : w ∷ ws ≡ after = some_inj (ground arith) in
      rw e (ap (λ t. (none, reset s, t)) same)
  | inr e ↦ elim (Bool-cases (is_terminator w)) [
    | inl f ↦
        let same : ws ≡ after = some_inj (ground arith) in
        rw (e, f) (ap (λ t. (none, reset s, t)) same)
    | inr f ↦ absurd (ground arith)
  ]
]

all_words :
    (opt_str : Text) (words : List Word) (rest after : List Text) (extra : ℕ) (s : GetOptState)
    → All (IsDeclared opt_str) words
    → after_options rest ≡ some after
    → s.next_char ≡ []
    → get_all (rounds (meant_all words) (suc extra)) opt_str s (print_all words rest)
      ≡ prepend (meant_all words) (some ([], after))
unfolding get_all
all_words opt_str [] rest after extra s ds h e =
    ap (λ r. next_round r (λ s' ws'. get_all extra opt_str s' ws'))
      (get_opt-end opt_str s rest after h)
all_words opt_str (w ∷ ws) rest after extra s ds h e =
    ap (λ n. get_all n opt_str s (print w ++ print_all ws rest))
      (rounds-append (meant w) (meant_all ws) (suc extra))
    ∙ word-Reads opt_str w (print_all ws rest) ds.0 (rounds (meant_all ws) (suc extra)) s
        (prepend (meant_all ws) (some ([], after))) e
        (λ s' e'. all_words opt_str ws rest after extra s' ds.1 h e')
    ∙ sym (prepend-append (meant w) (meant_all ws) (some ([], after)))

-- Options that are declared in the option string, written in any words, in which letters may share a
-- word and the last of a word may have an argument in the same word or in the next, are read again by
-- calling the parser until it answers -1: it gives the letters with their arguments, in their order,
-- and the words behind the options, which end at the last word, at an operand or behind `--`. One
-- round more than there are letters is enough.
pub get_all-print :
    (opt_str : Text) (words : List Word) (rest after : List Text) (extra : ℕ) (s : GetOptState)
    → All (IsDeclared opt_str) words
    → after_options rest ≡ some after
    → s.next_char ≡ []
    → get_all (length (meant_all words) + suc extra) opt_str s (print_all words rest)
      ≡ some (meant_all words, after)
get_all-print opt_str words rest after extra s ds h e =
    ap (λ n. get_all n opt_str s (print_all words rest))
      (sym (rounds-eq (meant_all words) (suc extra)))
    ∙ all_words opt_str words rest after extra s ds h e
    ∙ prepend-some (meant_all words) [] after
    ∙ ap (λ fs. some (fs, after)) (append-nil (meant_all words))
