-- ===== src/Grapheme/Rules.antt =====
-- The state machine against the rules of Unicode's annex 29, which look back at the whole text.
use ydsh.Prelude.{
  All, Bool, List, [], ap, arith, false, if◌then◌else◌, not, refl, true, ◌&&◌, ◌||◌, ◌∙◌, ◌∷◌, ◌≡◌,
}
use ydsh.Grapheme.{
  BreakProperty, sot, any, cr, lf, extend, zwj, regional_indicator, prepend, spacing_mark, hangul_l,
  hangul_v, hangul_t, hangul_lv, hangul_lvt, pictographic, pictographic_zwj, ◌is◌, is_control,
  scan_property,
}

-- What is read so far, the last first: whether an odd number of regional indicators ends it.
abbrev pub odd_indicators : List BreakProperty → Bool
odd_indicators [] = false
odd_indicators (x ∷ h) = x is regional_indicator && not (odd_indicators h)

-- Whether a pictographic, and extending characters behind it, end it.
abbrev pub pictographic_extend : List BreakProperty → Bool
pictographic_extend [] = false
pictographic_extend (x ∷ h) = x is pictographic || (x is extend && pictographic_extend h)

-- Whether there is a boundary between x, with h before it, and a: the rules in their order, GB3 to
-- GB999.
abbrev pub rules : BreakProperty → Bool → Bool → BreakProperty → Bool
rules x odd pict a =
    if x is cr && a is lf
    then false
    else if is_control x
    then true
    else if is_control a
    then true
    else if x is hangul_l && (a is hangul_l || a is hangul_v || a is hangul_lv || a is hangul_lvt)
    then false
    else if (x is hangul_lv || x is hangul_v) && (a is hangul_v || a is hangul_t)
    then false
    else if (x is hangul_lvt || x is hangul_t) && a is hangul_t
    then false
    else if a is extend || a is zwj
    then false
    else if a is spacing_mark
    then false
    else if x is prepend
    then false
    else if x is zwj && pict && a is pictographic
    then false
    else if x is regional_indicator && not odd && a is regional_indicator
    then false
    else true

-- The start of the text is no boundary to the scanner.
abbrev pub is_boundary : List BreakProperty → BreakProperty → Bool
is_boundary [] a = false
is_boundary (x ∷ h) a = rules x (odd_indicators h) (pictographic_extend h) a

-- The two values that no character has.
abbrev pub is_proper : BreakProperty → Bool
is_proper x = not (x is sot) && not (x is pictographic_zwj)

-- The state behind x, when `odd` and `pict` tell of what is before it.
abbrev pub state_of : BreakProperty → Bool → Bool → BreakProperty
state_of x odd pict =
    if x is regional_indicator
    then (if odd then any else regional_indicator)
    else if x is extend
    then (if pict then pictographic else extend)
    else if x is zwj
    then (if pict then pictographic_zwj else zwj)
    else x

abbrev pub state_behind : List BreakProperty → BreakProperty
state_behind [] = sot
state_behind (x ∷ h) = state_of x (odd_indicators h) (pictographic_extend h)

scan_step :
    (x a : BreakProperty) (odd pict : Bool)
    → is_proper x ≡ true
    → is_proper a ≡ true
    → scan_property (state_of x odd pict) a ≡ (
      state_of a (x is regional_indicator && not odd) (x is pictographic || (x is extend && pict)),
      rules x odd pict a,
    )
unfolding scan_property
scan_step sot sot odd pict hx ha = absurd (cc)
scan_step _ _ odd pict hx ha = ground arith

-- The scanner's answers on a sequence of properties, from a state.
unfoldable pub scan_all : BreakProperty → List BreakProperty → List Bool
unfolding scan_property
scan_all state [] = []
scan_all state (a ∷ as') = (scan_property state a).1 ∷ scan_all (scan_property state a).0 as'

abbrev pub boundaries : List BreakProperty → List BreakProperty → List Bool
boundaries h [] = []
boundaries h (a ∷ as') = is_boundary h a ∷ boundaries (a ∷ h) as'

abbrev pub Proper : BreakProperty → Type 0
Proper x = is_proper x ≡ true

first_step : (a : BreakProperty) → Proper a → scan_property sot a ≡ (state_of a false false, false)
unfolding scan_property
first_step sot ha = absurd (cc)
first_step _ ha = ground arith

scan_behind :
    (h : List BreakProperty) (a : BreakProperty)
    → All Proper h
    → Proper a
    → scan_property (state_behind h) a ≡ (state_behind (a ∷ h), is_boundary h a)
scan_behind [] a hh ha = first_step a ha
scan_behind (x ∷ h) a hh ha = scan_step x a (odd_indicators h) (pictographic_extend h) hh.0 ha

scan_all-cons :
    (state a : BreakProperty) (as' : List BreakProperty)
    → scan_all state (a ∷ as') ≡ (scan_property state a).1 ∷ scan_all (scan_property state a).0 as'
unfolding scan_all
scan_all-cons state a as' = refl

scan_all_lem :
    (h as' : List BreakProperty)
    → All Proper h
    → All Proper as'
    → scan_all (state_behind h) as' ≡ boundaries h as'
scan_all_lem h [] hh ha = unfold scan_all in refl
scan_all_lem h (a ∷ as') hh ha =
    scan_all-cons (state_behind h) a as'
    ∙ ap (λ (r : BreakProperty × Bool). r.1 ∷ scan_all r.0 as') (scan_behind h a hh ha.0)
    ∙ ap (λ bs. is_boundary h a ∷ bs) (scan_all_lem (a ∷ h) as' (ha.0, hh) ha.1)

-- On every text the state machine finds the boundaries that the rules give, which look back at all
-- that is read.
pub scan_all-boundaries :
    (as' : List BreakProperty) → All Proper as' → scan_all sot as' ≡ boundaries [] as'
scan_all-boundaries as' h = scan_all_lem [] as' tt h
