-- ===== src/Glob/Base/Start.antt =====
-- What `resolveBaseDir` computes.
use ydsh.Prelude.{
  Bool, Bool-cases, List, Option, [], append-nil, append_assoc, arith, false, if◌then◌else◌, inl,
  inr, none, refl, some, true, ◌&&◌, ◌++◌, ◌==◌, ◌∙◌, ◌∷◌, ◌≡◌, ◌≢◌, ap, sym, ◌⊎◌, ==_iff,
}
use ydsh.Glob.{Char, literal, any_char, zero_or_more, Pattern, slash, period}
use ydsh.Glob.Base.{
  back_is, push_char, base_loop, trim_step, trim_base, with_base, base_of, resolve_base_dir,
  cons_part, last_sep, squeeze, literals, sep_of, dir_of, front_is,
}
use mathlib.Core.Path.{subst}

back_is-last : (c x : Char) (xs : List Char) → back_is c (xs ++ x ∷ []) ≡ (x == c)
back_is-last c x [] = refl
back_is-last c x (y ∷ []) = refl
back_is-last c x (y ∷ z ∷ xs) = back_is-last c x (z ∷ xs)

sep_of-cons :
    (c : Char) (p : Pattern) (sep : Option Pattern) (o : Option (List Char × Pattern))
    → sep_of o (if c == slash then some p else sep) ≡ sep_of (cons_part c p o) sep
sep_of-cons c p sep none = elim (Bool-cases (c == slash)) [ inl e ↦ rw e refl | inr e ↦ rw e refl ]
sep_of-cons c p sep (some (dir, rest)) = refl

push_char-squeeze :
    (dir : List Char) (c : Char) (cs : List Char)
    → push_char dir c ++ squeeze (back_is slash (push_char dir c)) cs
      ≡ dir ++ squeeze (back_is slash dir) (c ∷ cs)
unfolding push_char squeeze
push_char-squeeze dir c cs = elim (Bool-cases (c == slash && back_is slash dir)) [
  | inl e ↦
      let pushed : push_char dir c ≡ dir = rw e refl in
      let squeezed : squeeze (back_is slash dir) (c ∷ cs) ≡ squeeze true cs = rw e refl in
      let back : back_is slash dir ≡ true = ground arith in
      ap (λ d. d ++ squeeze (back_is slash d) cs) pushed
      ∙ ap (λ x. dir ++ squeeze x cs) back
      ∙ ap (λ t. dir ++ t) (sym squeezed)
  | inr e ↦
      let pushed : push_char dir c ≡ dir ++ c ∷ [] = rw e refl in
      let squeezed : squeeze (back_is slash dir) (c ∷ cs) ≡ c ∷ squeeze (c == slash) cs =
        rw e refl in
      ap (λ d. d ++ squeeze (back_is slash d) cs) pushed
      ∙ ap (λ x. (dir ++ c ∷ []) ++ squeeze x cs) (back_is-last slash c dir)
      ∙ append_assoc dir (c ∷ []) (squeeze (c == slash) cs)
      ∙ ap (λ t. dir ++ t) (sym squeezed)
]

base_loop_lem :
    (p : Pattern) (dir : List Char) (sep : Option Pattern)
    → base_loop p dir sep
      ≡ (dir ++ squeeze (back_is slash dir) (literals p), sep_of (last_sep p) sep)
unfolding base_loop literals last_sep squeeze
base_loop_lem [] dir sep = ap (λ t. (t, sep)) (sym (append-nil dir))
base_loop_lem (any_char ∷ p) dir sep = ap (λ t. (t, sep)) (sym (append-nil dir))
base_loop_lem (zero_or_more ∷ p) dir sep = ap (λ t. (t, sep)) (sym (append-nil dir))
base_loop_lem (literal c ∷ p) dir sep =
    base_loop_lem p (push_char dir c) (if c == slash then some p else sep)
    ∙ ap (λ t. (t, sep_of (last_sep p) (if c == slash then some p else sep)))
        (push_char-squeeze dir c (literals p))
    ∙ ap (λ t. (dir ++ squeeze (back_is slash dir) (c ∷ literals p), t))
        (sep_of-cons c p sep (last_sep p))

squeeze-again :
    (b : Bool) (c : Char) (cs : List Char)
    → (c == slash && b) ≡ true
    → squeeze b (c ∷ cs) ≡ squeeze true cs
unfolding squeeze
squeeze-again b c cs e = rw e refl

squeeze-kept :
    (b : Bool) (c : Char) (cs : List Char)
    → (c == slash && b) ≡ false
    → squeeze b (c ∷ cs) ≡ c ∷ squeeze (c == slash) cs
unfolding squeeze
squeeze-kept b c cs e = rw e refl

part_of_sep : (c : Char) (p : Pattern) → (c == slash) ≡ true → cons_part c p none ≡ some (c ∷ [], p)
part_of_sep c p e = rw e refl

cons_part-nonempty :
    (c : Char) (p rest : Pattern) (o : Option (List Char × Pattern))
    → cons_part c p o ≢ some ([], rest)
cons_part-nonempty c p rest none h = elim (Bool-cases (c == slash)) [
  | inl e ↦ (let q = sym (part_of_sep c p e) ∙ h in absurd (cc))
  | inr e ↦ ground arith
]
cons_part-nonempty c p rest (some (dir, q)) h = absurd (cc)

part_nonempty : (p rest : Pattern) → last_sep p ≢ some ([], rest)
unfolding last_sep
part_nonempty [] rest h = absurd (cc)
part_nonempty (any_char ∷ p) rest h = absurd (cc)
part_nonempty (zero_or_more ∷ p) rest h = absurd (cc)
part_nonempty (literal c ∷ p) rest h = cons_part-nonempty c p rest (last_sep p) h

trim_step-slash : (c : Char) (t : List Char) → (c == slash) ≡ true → trim_step c t ≡ c ∷ t
trim_step-slash c [] e = rw e refl
trim_step-slash c (x ∷ t) e = refl

trim_step-part :
    (c : Char) (p : Pattern) (dir : List Char) (rest : Pattern)
    → last_sep p ≡ some (dir, rest)
    → trim_step c (squeeze (c == slash) dir) ≡ c ∷ squeeze (c == slash) dir
trim_step-part c p [] rest h = absurd (part_nonempty p rest h)
trim_step-part c p (x ∷ xs) rest h = elim (Bool-cases (c == slash)) [
  | inl e ↦ trim_step-slash c (squeeze (c == slash) (x ∷ xs)) e
  | inr e ↦
      let front : squeeze (c == slash) (x ∷ xs) ≡ x ∷ squeeze (x == slash) xs =
        squeeze-kept (c == slash) x xs (ground arith) in
      ap (trim_step c) front ∙ ap (λ t. c ∷ t) (sym front)
]

trim_step-none :
    (b : Bool) (c : Char) (p : Pattern)
    → (c == slash && b) ≡ false
    → trim_step c [] ≡ squeeze b (dir_of (cons_part c p none))
unfolding squeeze
trim_step-none b c p h = elim (Bool-cases (c == slash)) [
  | inl e ↦
      trim_step-slash c [] e
      ∙ sym (squeeze-kept b c [] h)
      ∙ ap (λ o. squeeze b (dir_of o)) (sym (part_of_sep c p e))
  | inr e ↦ rw e refl
]

trim_base-cons :
    (c : Char) (p : Pattern) (b : Bool) (o : Option (List Char × Pattern))
    → last_sep p ≡ o
    → ((b' : Bool) → trim_base (squeeze b' (literals p)) ≡ squeeze b' (dir_of o))
    → trim_base (squeeze b (c ∷ literals p)) ≡ squeeze b (dir_of (cons_part c p o))
unfolding trim_base squeeze
trim_base-cons c p b o h k = elim (Bool-cases (c == slash && b)) [
  | inl e ↦ ap trim_base (squeeze-again b c (literals p) e) ∙ k true ∙ again o e
  | inr e ↦
      ap trim_base (squeeze-kept b c (literals p) e)
      ∙ ap (trim_step c) (k (c == slash))
      ∙ kept o h e
]
  where
    again :
        (q : Option (List Char × Pattern))
        → (c == slash && b) ≡ true
        → squeeze true (dir_of q) ≡ squeeze b (dir_of (cons_part c p q))
    again none e =
        sym (squeeze-again b c [] e)
        ∙ ap (λ t. squeeze b (dir_of t)) (sym (part_of_sep c p (ground arith)))
    again (some (dir, rest)) e = sym (squeeze-again b c dir e)

    kept :
        (q : Option (List Char × Pattern))
        → last_sep p ≡ q
        → (c == slash && b) ≡ false
        → trim_step c (squeeze (c == slash) (dir_of q)) ≡ squeeze b (dir_of (cons_part c p q))
    kept none same e = trim_step-none b c p e
    kept (some (dir, rest)) same e = trim_step-part c p dir rest same ∙ sym (squeeze-kept b c dir e)

trim_base-squeeze :
    (p : Pattern) (b : Bool) → trim_base (squeeze b (literals p)) ≡ squeeze b (dir_of (last_sep p))
unfolding trim_base squeeze literals last_sep
trim_base-squeeze [] b = refl
trim_base-squeeze (any_char ∷ p) b = refl
trim_base-squeeze (zero_or_more ∷ p) b = refl
trim_base-squeeze (literal c ∷ p) b =
    trim_base-cons c p b (last_sep p) refl (λ b'. trim_base-squeeze p b')

abbrev pub IsAbsolute : List Char → Type 0
IsAbsolute path = (rest : List Char) × (path ≡ slash ∷ rest)

-- Where a directory is looked for: below the base, if the base is absolute and the directory is not.
abbrev pub Placed : Option (List Char) → List Char → List Char → Type 0
Placed none dir out = out ≡ dir
Placed (some base) dir out =
    ((IsAbsolute dir ⊎ (¬ IsAbsolute base)) × (out ≡ dir))
    ⊎ (IsAbsolute base × (¬ IsAbsolute dir) × (out ≡ base ++ slash ∷ dir))

front-IsAbsolute : (path : List Char) → front_is slash path ≡ true → IsAbsolute path
front-IsAbsolute [] h = absurd (cc)
front-IsAbsolute (c ∷ cs) h = (cs, (let e : c ≡ slash = (==_iff c slash).0 h in ap (λ x. x ∷ cs) e))

front-not-IsAbsolute : (path : List Char) → front_is slash path ≡ false → ¬ IsAbsolute path
front-not-IsAbsolute path h (rest, e) =
    let t : front_is slash path ≡ true = ap (front_is slash) e in absurd (cc)

with_base-Placed :
    (base : Option (List Char)) (dir : List Char) → Placed base dir (with_base base dir)
unfolding with_base
with_base-Placed none dir = refl
with_base-Placed (some base) dir = elim (Bool-cases (front_is slash dir)) [
  | inl e ↦ inl (
    inl (front-IsAbsolute dir e),
    (let t : (front_is slash base && false) ≡ false = ground arith in rw (e, t) refl),
  )
  | inr e ↦ elim (Bool-cases (front_is slash base)) [
    | inl f ↦ inr (front-IsAbsolute base f, front-not-IsAbsolute dir e, rw (e, f) refl)
    | inr f ↦ inl (inr (front-not-IsAbsolute base f), rw (e, f) refl)
  ]
]

-- The directory and the iterator that are to be answered.
abbrev pub Located :
    (List Char → List Char)
    → Option (List Char)
    → Pattern
    → Option (List Char × Pattern)
    → List Char × Pattern
    → Type 0
Located expand base p none out = Placed base (period ∷ []) (out.0) × (out.1 ≡ p)
Located expand base p (some (dir, rest)) out =
    Placed base (expand (squeeze false dir)) (out.0) × (out.1 ≡ rest)

-- The base directory of a glob is the part of the pattern up to the last separator before a meta
-- character, with repeated separators as one and the tilde expanded, and the pattern goes on behind
-- it; where there is no such separator, it is `.` and the pattern stays. If the base that is given is
-- absolute and the directory is not, the directory stands below the base, else it stays as it is.
pub resolve_base_dir_lem :
    (expand : List Char → List Char) (base : Option (List Char)) (p : Pattern)
    → Located expand base p (last_sep p) (resolve_base_dir expand base p)
unfolding resolve_base_dir
resolve_base_dir_lem expand base p =
    subst (λ r. Located expand base p (last_sep p) (base_of expand base p r))
      (sym (base_loop_lem p [] none)) (at_part (last_sep p) refl)
  where
    at_part :
        (o : Option (List Char × Pattern))
        → last_sep p ≡ o
        → Located expand base p o
            (base_of expand base p (squeeze false (literals p), sep_of o none))
    at_part none e = (with_base-Placed base (period ∷ []), refl)
    at_part (some (dir, rest)) e = (
      subst
          (λ d.
            Placed base (expand d)
              (with_base base (expand (trim_base (squeeze false (literals p))))))
          (trim_base-squeeze p false ∙ ap (λ o. squeeze false (dir_of o)) e)
          (with_base-Placed base (expand (trim_base (squeeze false (literals p))))),
      refl,
    )
