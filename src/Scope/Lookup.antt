-- ===== src/Scope/Lookup.antt =====
-- What `lookup` finds after a definition, in every scope.
use ydsh.Prelude.{
  Bool-cases, Option, Option-cases, arith, false, inl, inr, length, none, refl, some, suc, sym,
  zero, ℕ, ◌<◌, ◌∙◌, ◌≡◌, ◌≢◌, ◌⊎◌, ap,
}
use ydsh.Scope.Naming.{Name, eqb_name, eqb_name_refl}
use ydsh.Scope.Added.{
  added, add-cases, Refuses, part-added, length-scopes-added, handles-added, find-added_other,
}
use mathlib.Core.Path.{subst}
use ydsh.Scope.{
  Store, ScopeId, NameScope, FieldHandle, FieldAttribute, NameLookupResult, ok, scope_at, find,
  lookup, lookup_from, or_parent, add, add_new_handle, define_handle, defined_in_builtin, contains,
  defined, is_some,
}

lookup_from-suc :
    (fuel : ℕ) (st : Store) (j : ScopeId) (name : Name)
    → lookup_from (suc fuel) st j name
      ≡ or_parent
          (find (scope_at st j) name)
          (scope_at st j).parent
          (λ p. lookup_from fuel st p name)
unfolding lookup_from
lookup_from-suc fuel st j name = refl

or_parent-ext :
    (o : Option FieldHandle) (p : Option ScopeId) (f g : ScopeId → Option FieldHandle)
    → ((q : ScopeId) → f q ≡ g q)
    → or_parent o p f ≡ or_parent o p g
or_parent-ext (some h) p f g e = refl
or_parent-ext none none f g e = refl
or_parent-ext none (some q) f g e = e q

lookup_from-added_other :
    (fuel : ℕ) (st : Store) (i j : ScopeId) (name other : Name) (h : FieldHandle)
    → i < length st.scopes
    → eqb_name name other ≡ false
    → lookup_from fuel (added st i name h) j other ≡ lookup_from fuel st j other
lookup_from-added_other zero st i j name other h lt ne = unfold lookup_from in refl
lookup_from-added_other (suc fuel) st i j name other h lt ne =
    lookup_from-suc fuel (added st i name h) j other
    ∙ ap
        (λ o.
          or_parent o (scope_at (added st i name h) j).parent
            (λ p. lookup_from fuel (added st i name h) p other))
        (find-added_other st i j name other h lt ne)
    ∙ ap
        (λ p.
          or_parent (find (scope_at st j) other) p
            (λ p. lookup_from fuel (added st i name h) p other))
        (part-added (λ s. s.parent) (λ s n m. refl) (λ s hs. refl) st i j name h)
    ∙ or_parent-ext (find (scope_at st j) other) (scope_at st j).parent _ _
        (λ q. lookup_from-added_other fuel st i q name other h lt ne)
    ∙ sym (lookup_from-suc fuel st j other)

lookup-added_other :
    (st : Store) (i j : ScopeId) (name other : Name) (h : FieldHandle)
    → i < length st.scopes
    → eqb_name name other ≡ false
    → lookup (added st i name h) j other ≡ lookup st j other
unfolding lookup
lookup-added_other st i j name other h lt ne =
    ap (λ n. lookup_from n (added st i name h) j other) (length-scopes-added st i name h)
    ∙ lookup_from-added_other (length st.scopes) st i j name other h lt ne

lookup_from-own :
    (fuel : ℕ) (st : Store) (i : ScopeId) (name : Name) (h : FieldHandle)
    → 0 < fuel
    → find (scope_at st i) name ≡ some h
    → lookup_from fuel st i name ≡ some h
lookup_from-own zero st i name h lt e = absurd (omega arith)
lookup_from-own (suc fuel) st i name h lt e =
    lookup_from-suc fuel st i name
    ∙ ap (λ o. or_parent o (scope_at st i).parent (λ p. lookup_from fuel st p name)) e

-- A scope's own name is found at once.
lookup-own :
    (st : Store) (i : ScopeId) (name : Name) (h : FieldHandle)
    → i < length st.scopes
    → find (scope_at st i) name ≡ some h
    → lookup st i name ≡ some h
unfolding lookup
lookup-own st i name h lt e = lookup_from-own (length st.scopes) st i name h (omega arith) e

find-added :
    (st : Store) (i : ScopeId) (name : Name) (h : FieldHandle)
    → i < length st.scopes
    → find (scope_at (added st i name h) i) name ≡ some h
unfolding find
find-added st i name h lt = rw (handles-added st i name h lt, eqb_name_refl name)

-- What a definition answers: it changes nothing, or the name is found in its scope, where it was
-- not, and every other name is found where it was.
abbrev pub Defines : Store → ScopeId → Name → NameLookupResult × Store → Type 0
Defines st i name r =
    Refuses st r
    ⊎ ((h : FieldHandle) × (r.0 ≡ ok h)
        × (find (scope_at st i) name ≡ none)
        × (lookup r.1 i name ≡ some h)
        × ((j : ScopeId) (other : Name)
            → eqb_name name other ≡ false
            → lookup r.1 j other ≡ lookup st j other))

is_some-none : (o : Option FieldHandle) (h : FieldHandle) → o ≡ some h → is_some o ≢ false
is_some-none none h e k = cc
is_some-none (some x) h e k = cc

find-fresh : (s : NameScope) (name : Name) → contains s name ≡ false → find s name ≡ none
unfolding contains
find-fresh s name h = elim (Option-cases (find s name)) [
  | inl e ↦ e
  | inr (k, e) ↦ absurd (is_some-none _ k e h)
]

add-Defines :
    (st : Store) (i : ScopeId) (name : Name) (h : FieldHandle)
    → i < length st.scopes
    → Defines st i name (add st i name h)
add-Defines st i name h lt = elim (add-cases st i name h) [
  | inl r ↦ inl r
  | inr (e, fresh, room) ↦ subst (Defines st i name) (sym e) (
      inr (
        h,
        refl,
        find-fresh (scope_at st i) name fresh,
        lookup-own (added st i name h) i name h (rw (length-scopes-added st i name h) lt)
            (find-added st i name h lt),
        λ j other ne. lookup-added_other st i j name other h lt ne,
      ))
]

-- A definition changes nothing, or the new variable is what `lookup` finds for the name in its
-- scope, which did not have the name, and every other name is found in every scope as before.
pub define_handle-lookup :
    (st : Store) (i : ScopeId) (name : Name) (type_id : ℕ) (attr : FieldAttribute)
    → i < length st.scopes
    → Defines st i name (define_handle st i name type_id attr)
unfolding define_handle add_new_handle
define_handle-lookup st i name type_id attr lt = elim (Bool-cases (defined_in_builtin st i name)) [
  | inl e ↦ rw e (inl (defined, refl))
  | inr e ↦ rw e (add-Defines st i name _ lt)
]

-- Every scope was created after its parent.
abbrev pub ParentsFirst : Store → Type 0
ParentsFirst st = (i p : ScopeId) → (scope_at st i).parent ≡ some p → p < i

or_parent-below :
    (o : Option FieldHandle) (parent : Option ScopeId) (i : ScopeId)
    (f g : ScopeId → Option FieldHandle)
    → ((p : ScopeId) → parent ≡ some p → p < i)
    → ((p : ScopeId) → p < i → f p ≡ g p)
    → or_parent o parent f ≡ or_parent o parent g
or_parent-below (some h) parent i f g below e = refl
or_parent-below none none i f g below e = refl
or_parent-below none (some p) i f g below e = e p (below p refl)

-- The fuel of `lookup` is enough: from a scope of a store in which every scope was created after
-- its parent, more steps find nothing else.
pub lookup-enough :
    (n m : ℕ) (st : Store) (i : ScopeId) (name : Name)
    → ParentsFirst st
    → i < n
    → i < m
    → lookup_from n st i name ≡ lookup_from m st i name
lookup-enough zero m st i name first hn hm = absurd (omega arith)
lookup-enough (suc n) zero st i name first hn hm = absurd (omega arith)
lookup-enough (suc n) (suc m) st i name first hn hm =
    lookup_from-suc n st i name
    ∙ or_parent-below (find (scope_at st i) name) (scope_at st i).parent i _ _ (first i)
        (λ p lt. lookup-enough n m st p name first (omega arith) (omega arith))
    ∙ sym (lookup_from-suc m st i name)
