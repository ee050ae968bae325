-- ===== src/Opt/Cluster.antt =====
-- The rounds of `GetOptState` within a word.
use ydsh.Prelude.{
  All, List, Option, [], arith, drop, false, inl, inr, length, none, refl, some, suc, ℕ, ◌++◌, ◌+◌,
  ◌==◌, ◌∙◌, ◌∷◌, ◌≡◌, ◌⊎◌, ap,
}
use ydsh.Opt.{
  Char, Text, hyphen, colon, GetOptState, starts, is_operand, is_terminator, find_letter, Round,
  move_on, next_word, with_arg, first_char, letter, enter_word, get_opt,
}
use ydsh.Opt.Letters.{
  IsFlag, TakesArg, MayTakeArg, Found, bare, cons_found, next_round, get_all, at,
}

module _ (opt_str : Text) where
  letter-flag :
      (c : Char) (cs : Text) (marks : Text) (ws : List Text)
      → (c == colon) ≡ false
      → starts colon marks ≡ false
      → letter opt_str (c ∷ marks) (at (c ∷ cs)) ws ≡ move_on c (at (c ∷ cs)) ws
  unfolding letter
  letter-flag c cs marks ws h e = rw (h, e) refl

  move_on-more :
      (c d : Char) (cs : Text) (ws : List Text)
      → move_on c (at (c ∷ d ∷ cs)) ws ≡ (some c, at (d ∷ cs), ws)
  unfolding move_on
  move_on-more c d cs ws = refl

  move_on-last :
      (c : Char) (ws : List Text) → move_on c (at (c ∷ [])) ws ≡ (some c, at [], drop 1 ws)
  unfolding move_on
  move_on-last c ws = refl

  letter-attached :
      (c a : Char) (more marks : Text) (ws : List Text)
      → (c == colon) ≡ false
      → letter opt_str (c ∷ colon ∷ marks) (at (c ∷ a ∷ more)) ws
        ≡ (some c, record { next_char = []; opt_arg = some (a ∷ more); opt_opt = 0 }, drop 1 ws)
  unfolding letter with_arg move_on
  letter-attached c a more marks ws h = rw h refl

  letter-separate :
      (c : Char) (marks : Text) (w arg : Text) (ws : List Text)
      → (c == colon) ≡ false
      → starts colon marks ≡ false
      → letter opt_str (c ∷ colon ∷ marks) (at (c ∷ [])) (w ∷ arg ∷ ws)
        ≡ (some c, record { next_char = []; opt_arg = some arg; opt_opt = 0 }, ws)
  unfolding letter with_arg next_word move_on
  letter-separate c marks w arg ws h e = rw (h, e) refl

  letter-without :
      (c : Char) (marks : Text) (ws : List Text)
      → (c == colon) ≡ false
      → letter opt_str (c ∷ colon ∷ colon ∷ marks) (at (c ∷ [])) ws ≡ (some c, at [], drop 1 ws)
  unfolding letter with_arg move_on
  letter-without c marks ws h = rw h refl

-- A word that starts with a hyphen and is neither that nor `--`.
abbrev pub InWord : Text → Type 0
InWord w = (is_operand w ≡ false) × (is_terminator w ≡ false)

pub InWord-of_first : (c : Char) (cs : Text) → (c == hyphen) ≡ false → InWord (hyphen ∷ c ∷ cs)
InWord-of_first c [] h = (refl, h)
InWord-of_first c (d ∷ cs) h = (refl, refl)

-- Letters found before what is found later.
abbrev pub prepend : List Found → Option (List Found × List Text) → Option (List Found × List Text)
prepend [] o = o
prepend (f ∷ fs) o = cons_found f (prepend fs o)

-- A round for each letter.
abbrev pub rounds : List Found → ℕ → ℕ
rounds [] fuel = fuel
rounds (f ∷ fs) fuel = suc (rounds fs fuel)

pub rounds-append :
    (fs gs : List Found) (fuel : ℕ) → rounds (fs ++ gs) fuel ≡ rounds fs (rounds gs fuel)
rounds-append [] gs fuel = refl
rounds-append (f ∷ fs) gs fuel = ap suc (rounds-append fs gs fuel)

pub rounds-eq : (fs : List Found) (fuel : ℕ) → rounds fs fuel ≡ length fs + fuel
rounds-eq [] fuel = omega arith
rounds-eq (f ∷ fs) fuel = omega (arith, rounds-eq fs fuel)

pub prepend-append :
    (fs gs : List Found) (o : Option (List Found × List Text))
    → prepend (fs ++ gs) o ≡ prepend fs (prepend gs o)
prepend-append [] gs o = refl
prepend-append (f ∷ fs) gs o = ap (cons_found f) (prepend-append fs gs o)

pub prepend-some :
    (fs gs : List Found) (ws : List Text) → prepend fs (some (gs, ws)) ≡ some (fs ++ gs, ws)
prepend-some [] gs ws = refl
prepend-some (f ∷ fs) gs ws = ap (cons_found f) (prepend-some fs gs ws)

get_opt-letter :
    (opt_str : Text) (s : GetOptState) (w : Text) (ws : List Text) (c : Char) (cs : Text)
    → InWord w
    → enter_word s.next_char w ≡ c ∷ cs
    → get_opt opt_str s (w ∷ ws) ≡ letter opt_str (find_letter c opt_str) (at (c ∷ cs)) (w ∷ ws)
unfolding get_opt
get_opt-letter opt_str s w ws c cs (a, b) e =
    rw (a, b) (ap (λ t. letter opt_str (find_letter (first_char t) opt_str) (at t) (w ∷ ws)) e)

get_all-step :
    (fuel : ℕ) (opt_str : Text) (s : GetOptState) (ws : List Text) (r : Round)
    → get_opt opt_str s ws ≡ r
    → get_all (suc fuel) opt_str s ws ≡ next_round r (λ s' ws'. get_all fuel opt_str s' ws')
unfolding get_all
get_all-step fuel opt_str s ws r e =
    ap (λ q. next_round q (λ s' ws'. get_all fuel opt_str s' ws')) e

module _ (opt_str : Text) (w : Text) (ws : List Text) (inside : InWord w) where
  one_letter :
      (fuel : ℕ) (s : GetOptState) (c : Char) (cs marks : Text) (r : Round)
      → enter_word s.next_char w ≡ c ∷ cs
      → find_letter c opt_str ≡ c ∷ marks
      → letter opt_str (c ∷ marks) (at (c ∷ cs)) (w ∷ ws) ≡ r
      → get_all (suc fuel) opt_str s (w ∷ ws) ≡ next_round r (λ s' ws'. get_all fuel opt_str s' ws')
  one_letter fuel s c cs marks r e found h = get_all-step fuel opt_str s (w ∷ ws) r (
      get_opt-letter opt_str s w ws c cs inside e
      ∙ ap (λ t. letter opt_str t (at (c ∷ cs)) (w ∷ ws)) found
      ∙ h)

  flag-more :
      (fuel : ℕ) (s : GetOptState) (c d : Char) (cs : Text)
      → enter_word s.next_char w ≡ c ∷ d ∷ cs
      → IsFlag opt_str c
      → get_all (suc fuel) opt_str s (w ∷ ws)
        ≡ cons_found (c, none) (get_all fuel opt_str (at (d ∷ cs)) (w ∷ ws))
  flag-more fuel s c d cs e (marks, (found, h, g), m) =
      one_letter fuel s c (d ∷ cs) marks (some c, at (d ∷ cs), w ∷ ws) e found
        (letter-flag opt_str c (d ∷ cs) marks (w ∷ ws) h m ∙ move_on-more opt_str c d cs (w ∷ ws))

  flag-last :
      (fuel : ℕ) (s : GetOptState) (c : Char)
      → enter_word s.next_char w ≡ c ∷ []
      → IsFlag opt_str c
      → get_all (suc fuel) opt_str s (w ∷ ws)
        ≡ cons_found (c, none) (get_all fuel opt_str (at []) ws)
  flag-last fuel s c e (marks, (found, h, g), m) =
      one_letter fuel s c [] marks (some c, at [], ws) e found
        (letter-flag opt_str c [] marks (w ∷ ws) h m ∙ move_on-last opt_str c (w ∷ ws))

  pub only_flags :
      (fuel : ℕ) (s : GetOptState) (c : Char) (cs : Text)
      → enter_word s.next_char w ≡ c ∷ cs
      → IsFlag opt_str c
      → All (IsFlag opt_str) cs
      → get_all (rounds (bare (c ∷ cs)) fuel) opt_str s (w ∷ ws)
        ≡ prepend (bare (c ∷ cs)) (get_all fuel opt_str (at []) ws)
  only_flags fuel s c [] e f fs = flag-last fuel s c e f
  only_flags fuel s c (d ∷ ds) e f fs =
      flag-more (rounds (bare (d ∷ ds)) fuel) s c d ds e f
      ∙ ap (cons_found (c, none)) (only_flags fuel (at (d ∷ ds)) d ds refl fs.0 fs.1)

  -- Flags before a letter with an argument.
  pub some_flags :
      (fuel : ℕ) (s : GetOptState) (cs : Text) (t : Char) (ts : Text)
      (out : Option (List Found × List Text))
      → enter_word s.next_char w ≡ cs ++ t ∷ ts
      → All (IsFlag opt_str) cs
      → ((s' : GetOptState)
          → enter_word s'.next_char w ≡ t ∷ ts
          → get_all fuel opt_str s' (w ∷ ws) ≡ out)
      → get_all (rounds (bare cs) fuel) opt_str s (w ∷ ws) ≡ prepend (bare cs) out
  some_flags fuel s [] t ts out e fs k = k s e
  some_flags fuel s (c ∷ []) t ts out e fs k =
      flag-more fuel s c t ts e fs.0 ∙ ap (cons_found (c, none)) (k (at (t ∷ ts)) refl)
  some_flags fuel s (c ∷ d ∷ cs) t ts out e fs k =
      flag-more (rounds (bare (d ∷ cs)) fuel) s c d (cs ++ t ∷ ts) e fs.0
      ∙ ap (cons_found (c, none))
          (some_flags fuel (at (d ∷ (cs ++ t ∷ ts))) (d ∷ cs) t ts out refl fs.1 k)

  pub last_attached :
      (fuel : ℕ) (s : GetOptState) (c a : Char) (more : Text)
      → enter_word s.next_char w ≡ c ∷ a ∷ more
      → TakesArg opt_str c ⊎ MayTakeArg opt_str c
      → (s' : GetOptState) × (s'.next_char ≡ [])
        × (get_all (suc fuel) opt_str s (w ∷ ws)
            ≡ cons_found (c, some (a ∷ more)) (get_all fuel opt_str s' ws))
  last_attached fuel s c a more e (inl (marks, (found, h, g), m)) = (
    record { next_char = []; opt_arg = some (a ∷ more); opt_opt = 0 },
    refl,
    one_letter fuel s c (a ∷ more) (colon ∷ marks) _ e found
        (letter-attached opt_str c a more marks (w ∷ ws) h),
  )
  last_attached fuel s c a more e (inr (marks, (found, h, g))) = (
    record { next_char = []; opt_arg = some (a ∷ more); opt_opt = 0 },
    refl,
    one_letter fuel s c (a ∷ more) (colon ∷ colon ∷ marks) _ e found
        (letter-attached opt_str c a more (colon ∷ marks) (w ∷ ws) h),
  )

  pub last_separate :
      (fuel : ℕ) (s : GetOptState) (c : Char) (arg : Text) (rest : List Text)
      → ws ≡ arg ∷ rest
      → enter_word s.next_char w ≡ c ∷ []
      → TakesArg opt_str c
      → (s' : GetOptState) × (s'.next_char ≡ [])
        × (get_all (suc fuel) opt_str s (w ∷ ws)
            ≡ cons_found (c, some arg) (get_all fuel opt_str s' rest))
  last_separate fuel s c arg rest same e (marks, (found, h, g), m) = (
    record { next_char = []; opt_arg = some arg; opt_opt = 0 },
    refl,
    one_letter fuel s c [] (colon ∷ marks) _ e found (
        ap (λ t. letter opt_str (c ∷ colon ∷ marks) (at (c ∷ [])) (w ∷ t)) same
        ∙ letter-separate opt_str c marks w arg rest h m),
  )

  pub last_without :
      (fuel : ℕ) (s : GetOptState) (c : Char)
      → enter_word s.next_char w ≡ c ∷ []
      → MayTakeArg opt_str c
      → (s' : GetOptState) × (s'.next_char ≡ [])
        × (get_all (suc fuel) opt_str s (w ∷ ws)
            ≡ cons_found (c, none) (get_all fuel opt_str s' ws))
  last_without fuel s c e (marks, (found, h, g)) = (
    at [],
    refl,
    one_letter fuel s c [] (colon ∷ colon ∷ marks) _ e found
        (letter-without opt_str c marks (w ∷ ws) h),
  )
