-- ===== src/Scope/Discard.antt =====
-- `discard` takes back every definition after a discard point, whatever was done in between.
use ydsh.Prelude.{
  All, Bool-cases, List, [], arith, false, inr, leb, length, length-append, refl, true, ℕ, ◌++◌,
  ◌<◌, ◌==◌, ◌∙◌, ◌∷◌, ◌≡◌, ◌≤◌, inl, ap, get_or-append,
}
use ydsh.Scope.Naming.{Name}
use ydsh.Scope.Added.{
  added, add-cases, handles-added, handles-added_ne, length-scopes-added, scope_at-put_scope_self,
}
use mathlib.Core.Path.{subst}
use ydsh.Scope.{
  Kind, Store, ScopeId, NameScope, FieldHandle, FieldAttribute, scope_at, no_scope, add,
  add_new_handle, add_new_alias, add_new_foreign_handle, define_handle, define_alias,
  defined_in_builtin, enter_scope, is_allowed_scope_pair, new_scope, keep_before, get_discard_point,
  discard, commit_id, clear_local_size, is_global_kind,
}

-- The operations on the scopes of a store.
pub data Operation : Type 0 where
  define : ScopeId → Name → ℕ → FieldAttribute → Operation
  alias : ScopeId → Name → FieldHandle → Operation
  foreign : ScopeId → Name → FieldHandle → Operation
  enter : ScopeId → Kind → Operation

abbrev pub step : Store → Operation → Store
step st (define i name type_id attr) = (define_handle st i name type_id attr).1
step st (alias i name h) = (define_alias st i name h).1
step st (foreign i name h) = (add_new_foreign_handle st i name h).1
step st (enter i kind) = (enter_scope st i kind).1

abbrev pub run : Store → List Operation → Store
run st [] = st
run st (o ∷ os) = run (step st o) os

-- The commit ids of the handles of a scope are below its next commit id.
abbrev pub Committed : List (Name × FieldHandle) → Type 0
Committed hs = All (λ e. e.1.commit_id < length hs) hs

keep_before-All :
    (n : ℕ) (hs : List (Name × FieldHandle))
    → All (λ e. e.1.commit_id < n) hs
    → keep_before n hs ≡ hs
keep_before-All n [] a = refl
keep_before-All n ((name, h) ∷ hs) a =
    let e : leb n h.commit_id ≡ false = ground (arith, a.0) in rw (e, keep_before-All n hs a.1)

keep_before-new :
    (n : ℕ) (name : Name) (h : FieldHandle) (hs : List (Name × FieldHandle))
    → n ≤ h.commit_id
    → keep_before n ((name, h) ∷ hs) ≡ keep_before n hs
keep_before-new n name h hs le = let e : leb n h.commit_id ≡ true = ground arith in rw e

-- A scope that still has the handles hs, below newer ones.
abbrev pub Above : List (Name × FieldHandle) → Store → ScopeId → Type 0
Above hs st i =
    (i < length st.scopes)
    × (keep_before (length hs) (scope_at st i).handles ≡ hs)
    × (length hs ≤ length (scope_at st i).handles)

added-Above_self :
    (hs : List (Name × FieldHandle)) (st : Store) (i : ScopeId) (name : Name) (h : FieldHandle)
    → h.commit_id ≡ commit_id (scope_at st i)
    → Above hs st i
    → Above hs (added st i name h) i
added-Above_self hs st i name h e (lt, same, le) =
    let front = handles-added st i name h lt in
    (
      rw (length-scopes-added st i name h) lt,
      ap (keep_before (length hs)) front
          ∙ keep_before-new (length hs) name h (scope_at st i).handles (rw e le)
          ∙ same,
      rw front (omega arith),
    )

added-Above :
    (hs : List (Name × FieldHandle)) (st : Store) (i k : ScopeId) (name : Name) (h : FieldHandle)
    → h.commit_id ≡ commit_id (scope_at st k)
    → Above hs st i
    → Above hs (added st k name h) i
added-Above hs st i k name h e (lt, same, le) = elim (Bool-cases (i == k)) [
  | inl eq ↦
      let ik : i ≡ k = ground arith in
      subst (λ k'. h.commit_id ≡ commit_id (scope_at st k') → Above hs (added st k' name h) i) ik
        (λ e'. added-Above_self hs st i name h e' (lt, same, le)) e
  | inr ne ↦
      let stays = handles-added_ne st k i name h (ground arith) in
      (
        rw (length-scopes-added st k name h) lt,
        ap (keep_before (length hs)) stays ∙ same,
        rw stays le,
      )
]

add-Above :
    (hs : List (Name × FieldHandle)) (st : Store) (i k : ScopeId) (name : Name) (h : FieldHandle)
    → h.commit_id ≡ commit_id (scope_at st k)
    → Above hs st i
    → Above hs (add st k name h).1 i
add-Above hs st i k name h e a = elim (add-cases st k name h) [
  | inl (x, r) ↦ rw r a
  | inr (r, fresh, room) ↦ rw r (added-Above hs st i k name h e a)
]

longer : (ss : List NameScope) (s : NameScope) (i : ℕ) → i < length ss → i < length (ss ++ s ∷ [])
longer ss s i lt = omega (arith, length-append ss (s ∷ []))

enter-Above :
    (hs : List (Name × FieldHandle)) (st : Store) (i k : ScopeId) (kind : Kind)
    → Above hs st i
    → Above hs (enter_scope st k kind).1 i
unfolding enter_scope
enter-Above hs st i k kind (lt, same, le) =
    elim (Bool-cases (is_allowed_scope_pair (scope_at st k).kind kind)) [
      | inl e ↦
          let new = new_scope st k (scope_at st k).kind kind in
          let old = get_or-append st.scopes (new ∷ []) i no_scope lt in
          rw e (longer st.scopes new i lt, rw old same, rw old le)
      | inr e ↦ rw e (lt, same, le)
    ]

define_handle-Above :
    (hs : List (Name × FieldHandle)) (st : Store) (i k : ScopeId) (name : Name) (type_id : ℕ)
    (attr : FieldAttribute)
    → Above hs st i
    → Above hs (define_handle st k name type_id attr).1 i
unfolding define_handle add_new_handle
define_handle-Above hs st i k name type_id attr a =
    elim (Bool-cases (defined_in_builtin st k name)) [
      | inl e ↦ rw e a
      | inr e ↦ rw e (add-Above hs st i k name _ refl a)
    ]

define_alias-Above :
    (hs : List (Name × FieldHandle)) (st : Store) (i k : ScopeId) (name : Name) (h : FieldHandle)
    → Above hs st i
    → Above hs (define_alias st k name h).1 i
unfolding define_alias add_new_alias
define_alias-Above hs st i k name h a = elim (Bool-cases (defined_in_builtin st k name)) [
  | inl e ↦ rw e a
  | inr e ↦ rw e (add-Above hs st i k name _ refl a)
]

foreign-Above :
    (hs : List (Name × FieldHandle)) (st : Store) (i k : ScopeId) (name : Name) (h : FieldHandle)
    → Above hs st i
    → Above hs (add_new_foreign_handle st k name h).1 i
unfolding add_new_foreign_handle
foreign-Above hs st i k name h a = add-Above hs st i k name _ refl a

step-Above :
    (hs : List (Name × FieldHandle)) (st : Store) (i : ScopeId) (o : Operation)
    → Above hs st i
    → Above hs (step st o) i
step-Above hs st i (define k name type_id attr) a =
    define_handle-Above hs st i k name type_id attr a
step-Above hs st i (alias k name h) a = define_alias-Above hs st i k name h a
step-Above hs st i (foreign k name h) a = foreign-Above hs st i k name h a
step-Above hs st i (enter k kind) a = enter-Above hs st i k kind a

run-Above :
    (hs : List (Name × FieldHandle)) (st : Store) (i : ScopeId) (os : List Operation)
    → Above hs st i
    → Above hs (run st os) i
run-Above hs st i [] a = a
run-Above hs st i (o ∷ os) a = run-Above hs (step st o) i os (step-Above hs st i o a)

handles-discard :
    (st : Store) (i : ScopeId) (n : ℕ)
    → i < length st.scopes
    → (scope_at (discard st i n) i).handles ≡ keep_before n (scope_at st i).handles
unfolding discard
handles-discard st i n lt =
    ap (λ (s : NameScope). s.handles) (scope_at-put_scope_self st i _ lt)
    ∙ elim (Bool-cases (is_global_kind (scope_at st i).kind)) [
      | inl e ↦ unfold clear_local_size in rw e
      | inr e ↦ rw e
    ]

-- Whatever definitions were made and scopes were entered since a discard point was taken, `discard`
-- gives the scope the handles back that it had.
pub discard-run :
    (st : Store) (i : ScopeId) (os : List Operation)
    → i < length st.scopes
    → Committed (scope_at st i).handles
    → (scope_at (discard (run st os) i (get_discard_point (scope_at st i))) i).handles
      ≡ (scope_at st i).handles
unfolding get_discard_point
discard-run st i os lt c =
    let (lt', same, _) = run-Above (scope_at st i).handles st i os (
      lt,
      keep_before-All (length (scope_at st i).handles) (scope_at st i).handles c,
      omega arith,
    ) in
    handles-discard (run st os) i (length (scope_at st i).handles) lt' ∙ same
