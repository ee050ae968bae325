-- ===== src/Grapheme/Table.antt =====
-- The search in the table of properties.
use ydsh.Prelude.{
  All, Bool, Bool-cases, List, [], arith, false, if◌then◌else◌, inl, inr, not, refl, sym, true,
  ◌&&◌, ◌∙◌, ◌∷◌, ◌≡◌, ap,
}
use ydsh.Prelude.Int.{ltb_ℤ, ℤ, ◌<ℤ◌, ◌≤ℤ◌}
use ydsh.Grapheme.{BreakProperty, any, Interval, first_interval, get_break_property, property_at}

-- The intervals are in order and do not overlap.
abbrev pub InOrder : List Interval → Type 0
InOrder [] = Unit {0}
InOrder (t ∷ ts) = All (λ u. t.last <ℤ u.first) ts × InOrder ts

first_interval-past :
    (c : ℤ) (t : Interval) (ts : List Interval)
    → ltb_ℤ t.last c ≡ true
    → first_interval c (t ∷ ts) ≡ first_interval c ts
unfolding first_interval
first_interval-past c t ts h = rw h

first_interval-here :
    (c : ℤ) (t : Interval) (ts : List Interval)
    → ltb_ℤ t.last c ≡ false
    → first_interval c (t ∷ ts) ≡ t ∷ ts
unfolding first_interval
first_interval-here c t ts h = rw h

abbrev pub contains : ℤ → Interval → Bool
contains c t = not (ltb_ℤ c t.first) && not (ltb_ℤ t.last c)

-- The property of the interval that contains the code point, by looking at each of them.
abbrev pub property_of : ℤ → List Interval → BreakProperty
property_of c [] = any
property_of c (t ∷ ts) = let rest = property_of c ts in if contains c t then t.property else rest

property_of-below :
    (c : ℤ) (ts : List Interval) → All (λ u. c <ℤ u.first) ts → property_of c ts ≡ any
property_of-below c [] h = refl
property_of-below c (t ∷ ts) h =
    let out : contains c t ≡ false = ground (arith, h.0) in rw out (property_of-below c ts h.1)

below :
    (c : ℤ) (t : Interval) (ts : List Interval)
    → c ≤ℤ t.last
    → All (λ u. t.last <ℤ u.first) ts
    → All (λ u. c <ℤ u.first) ts
below c t [] le h = tt
below c t (u ∷ us) le h = (omega (arith, h.0), below c t us le h.1)

-- In a table in order, the binary search finds what looking at every interval finds.
pub get_break_property-property_of :
    (c : ℤ) (table : List Interval)
    → InOrder table
    → get_break_property table c ≡ property_of c table
unfolding get_break_property
get_break_property-property_of c [] o = unfold first_interval in refl
get_break_property-property_of c (t ∷ ts) o = elim (Bool-cases (ltb_ℤ t.last c)) [
  | inl past ↦
      let out : contains c t ≡ false = ground arith in
      ap (property_at c) (first_interval-past c t ts past)
      ∙ get_break_property-property_of c ts o.1
      ∙ rw out refl
  | inr here ↦
      ap (property_at c) (first_interval-here c t ts here) ∙ elim (Bool-cases (contains c t)) [
        | inl inside ↦ rw inside refl
        | inr out ↦ rw out (sym (property_of-below c ts (below c t ts (ground arith) o.0)))
      ]
]
