-- ===== src/Scope/Added.antt =====
-- What `add` and the counters do to the parts of the scopes of a store.
use ydsh.Prelude.{
  Bool-cases, List, [], ap, arith, false, get_or, get_or-set_ne, get_or-set_self, inl, inr, length,
  length-set, ltb, refl, set, suc, zero, ℕ, ◌&&◌, ◌<◌, ◌==◌, ◌∙◌, ◌∷◌, ◌≡◌, ◌≢◌, ◌⊎◌,
}
use ydsh.Scope.Naming.{Name, eqb_name}
use ydsh.Scope.{
  Store, ScopeId, NameScope, FieldHandle, CountRef, NameLookupResult, gvar, local_index, ok,
  scope_at, put_scope, no_scope, count_of, set_count, raise, count_variable, add, with_handle,
  one_more_local, contains, find, find_handle, is_local_variable, limit_local_num, NameLookupError,
  limit, defined, err,
}

pub scope_at-put_scope_self :
    (st : Store) (i : ScopeId) (s : NameScope)
    → i < length st.scopes
    → scope_at (put_scope i s st) i ≡ s
scope_at-put_scope_self st i s h = get_or-set_self st.scopes i s no_scope h

pub scope_at-put_scope_ne :
    (st : Store) (i j : ScopeId) (s : NameScope)
    → j ≢ i
    → scope_at (put_scope i s st) j ≡ scope_at st j
scope_at-put_scope_ne st i j s h = get_or-set_ne st.scopes i j s no_scope h

-- A part of the scopes that a write does not change.
get_or-set_same {ℓ} :
    {X : Type ℓ} (f : NameScope → X) (ss : List NameScope) (i j : ℕ) (s : NameScope)
    → f s ≡ f (get_or ss i no_scope)
    → f (get_or (set ss i s) j no_scope) ≡ f (get_or ss j no_scope)
get_or-set_same f [] i j s e = refl
get_or-set_same f (x ∷ xs) zero zero s e = e
get_or-set_same f (x ∷ xs) zero (suc j) s e = refl
get_or-set_same f (x ∷ xs) (suc i) zero s e = refl
get_or-set_same f (x ∷ xs) (suc i) (suc j) s e = get_or-set_same f xs i j s e

pub part-put_scope {ℓ} :
    {X : Type ℓ} (f : NameScope → X) (st : Store) (i j : ScopeId) (s : NameScope)
    → f s ≡ f (scope_at st i)
    → f (scope_at (put_scope i s st) j) ≡ f (scope_at st j)
part-put_scope f st i j s e = get_or-set_same f st.scopes i j s e

-- The parts that the counters are not among.
abbrev pub Uncounted {ℓ} : {X : Type ℓ} → (NameScope → X) → Type ℓ
Uncounted f = (s : NameScope) (n m : ℕ) → f (record s { cur_local_index = n; local_size = m }) ≡ f s

pub part-set_count {ℓ} :
    {X : Type ℓ} (f : NameScope → X)
    → Uncounted f
    → (st : Store) (r : CountRef) (n : ℕ) (j : ScopeId)
    → f (scope_at (set_count r n st) j) ≡ f (scope_at st j)
part-set_count f u st gvar n j = refl
part-set_count f u st (local_index i) n j =
    part-put_scope f st i j _ (u (scope_at st i) n (scope_at st i).local_size)

pub part-raise {ℓ} :
    {X : Type ℓ} (f : NameScope → X)
    → Uncounted f
    → (st : Store) (r : CountRef) (n : ℕ) (j : ScopeId)
    → f (scope_at (raise r n st) j) ≡ f (scope_at st j)
part-raise f u st r n j = elim (Bool-cases (ltb (count_of st r) n)) [
  | inl e ↦ rw e (part-set_count f u st r n j)
  | inr e ↦ rw e
]

pub part-count_variable {ℓ} :
    {X : Type ℓ} (f : NameScope → X)
    → Uncounted f
    → (st : Store) (i j : ScopeId) (h : FieldHandle)
    → f (scope_at (count_variable i h st) j) ≡ f (scope_at st j)
unfolding count_variable
part-count_variable f u st i j h = elim (Bool-cases h.attr.alias) [
  | inl e ↦ rw e
  | inr e ↦ rw e (elim (Bool-cases h.attr.is_global) [
    | inl g ↦ rw g (part-set_count f u st (scope_at st i).max_var_count _ j)
    | inr g ↦ rw g (
        part-raise f u (put_scope i (one_more_local (scope_at st i)) st)
          (scope_at st i).max_var_count _ j
        ∙ part-put_scope f st i j _ (u (scope_at st i) _ _))
  ])
]

length-scopes-set_count :
    (st : Store) (r : CountRef) (n : ℕ) → length (set_count r n st).scopes ≡ length st.scopes
length-scopes-set_count st gvar n = refl
length-scopes-set_count st (local_index i) n = length-set st.scopes i _

length-scopes-raise :
    (st : Store) (r : CountRef) (n : ℕ) → length (raise r n st).scopes ≡ length st.scopes
length-scopes-raise st r n = elim (Bool-cases (ltb (count_of st r) n)) [
  | inl e ↦ rw e (length-scopes-set_count st r n)
  | inr e ↦ rw e
]

pub length-scopes-count_variable :
    (st : Store) (i : ScopeId) (h : FieldHandle)
    → length (count_variable i h st).scopes ≡ length st.scopes
unfolding count_variable
length-scopes-count_variable st i h = elim (Bool-cases h.attr.alias) [
  | inl e ↦ rw e
  | inr e ↦ rw e (elim (Bool-cases h.attr.is_global) [
    | inl g ↦ rw g (length-scopes-set_count st (scope_at st i).max_var_count _)
    | inr g ↦ rw g (
        length-scopes-raise (put_scope i (one_more_local (scope_at st i)) st)
          (scope_at st i).max_var_count _
        ∙ length-set st.scopes i _)
  ])
]

-- What `add` does: it refuses and changes nothing, or puts a new name and counts the variable.
abbrev pub added : Store → ScopeId → Name → FieldHandle → Store
added st i name h = count_variable i h (put_scope i (with_handle name h (scope_at st i)) st)

abbrev pub Refuses : Store → NameLookupResult × Store → Type 0
Refuses st r = (e : NameLookupError) × (r ≡ (err e, st))

pub add-cases :
    (st : Store) (i : ScopeId) (name : Name) (h : FieldHandle)
    → Refuses st (add st i name h)
      ⊎ ((add st i name h ≡ (ok h, added st i name h))
          × (contains (scope_at st i) name ≡ false)
          × ((is_local_variable h && (scope_at st i).cur_local_index == limit_local_num) ≡ false))
unfolding add
add-cases st i name h =
    elim (Bool-cases (is_local_variable h && (scope_at st i).cur_local_index == limit_local_num)) [
      | inl e ↦ rw e (inl (limit, refl))
      | inr e ↦ elim (Bool-cases (contains (scope_at st i) name)) [
        | inl c ↦ rw (e, c) (inl (defined, refl))
        | inr c ↦ rw (e, c) (inr (refl, refl, refl))
      ]
    ]

-- After a name was added, its scope has it in front, and the others have what they had.
pub handles-added :
    (st : Store) (i : ScopeId) (name : Name) (h : FieldHandle)
    → i < length st.scopes
    → (scope_at (added st i name h) i).handles ≡ (name, h) ∷ (scope_at st i).handles
handles-added st i name h lt =
    part-count_variable (λ s. s.handles) (λ s n m. refl)
      (put_scope i (with_handle name h (scope_at st i)) st) i i h
    ∙ ap (λ (s : NameScope). s.handles) (scope_at-put_scope_self st i _ lt)

pub handles-added_ne :
    (st : Store) (i j : ScopeId) (name : Name) (h : FieldHandle)
    → j ≢ i
    → (scope_at (added st i name h) j).handles ≡ (scope_at st j).handles
handles-added_ne st i j name h ne =
    part-count_variable (λ s. s.handles) (λ s n m. refl)
      (put_scope i (with_handle name h (scope_at st i)) st) i j h
    ∙ ap (λ (s : NameScope). s.handles) (scope_at-put_scope_ne st i j _ ne)

pub part-added {ℓ} :
    {X : Type ℓ} (f : NameScope → X)
    → Uncounted f
    → ((s : NameScope) (hs : List (Name × FieldHandle)) → f (record s { handles = hs }) ≡ f s)
    → (st : Store) (i j : ScopeId) (name : Name) (h : FieldHandle)
    → f (scope_at (added st i name h) j) ≡ f (scope_at st j)
part-added f u k st i j name h =
    part-count_variable f u (put_scope i (with_handle name h (scope_at st i)) st) i j h
    ∙ part-put_scope f st i j _ (k (scope_at st i) _)

pub length-scopes-added :
    (st : Store) (i : ScopeId) (name : Name) (h : FieldHandle)
    → length (added st i name h).scopes ≡ length st.scopes
length-scopes-added st i name h =
    length-scopes-count_variable (put_scope i (with_handle name h (scope_at st i)) st) i h
    ∙ length-set st.scopes i _

-- Another name is found where it was found.
pub find-added_other :
    (st : Store) (i j : ScopeId) (name other : Name) (h : FieldHandle)
    → i < length st.scopes
    → eqb_name name other ≡ false
    → find (scope_at (added st i name h) j) other ≡ find (scope_at st j) other
unfolding find
find-added_other st i j name other h lt ne = elim (Bool-cases (j == i)) [
  | inl e ↦ let same : j ≡ i = ground arith in rw (same, handles-added st i name h lt, ne)
  | inr e ↦ ap (λ hs. find_handle hs other) (handles-added_ne st i j name h (ground arith))
]
