-- ===== src/Scope/Import.antt =====
-- src/scope.cpp: `importForeignHandles`, which gives a scope the names of another module.
use ydsh.Prelude.{
  Bool, Bool-cases, List, Option, [], arith, false, if◌then◌else◌, inr, length, none, not, refl,
  some, sym, true, ℕ, ◌<◌, ◌∙◌, ◌∷◌, ◌≡◌, ap, inl,
}
use mathlib.Core.Path.{subst}
use ydsh.Scope.Naming.{
  Name, eqb_name_refl, to_mod_holder_name, ends_with, remove_suffix, is_private, cmd_symbol_suffix,
  type_alias_symbol_suffix,
}
use ydsh.Scope.Added.{added, add-cases, handles-added, length-scopes-added}
use ydsh.Scope.{
  Store, ScopeId, FieldHandle, NameLookupResult, ok, err, scope_at, add, add_new_alias,
  add_new_foreign_handle, contains, find, find_handle, is_some, commit_id, is_local_variable,
}

-- What is read of a `ModType`.
pub record ModType : Type 0 where
  pub type_id : ℕ
  pub mod_id : ℕ
  pub index : ℕ
  pub handle_map : List (Name × FieldHandle)

unfoldable pub to_mod_holder : ModType → Bool → FieldHandle
to_mod_holder type global = record {
  commit_id = 0;
  type_id = type.type_id;
  index = type.index;
  attr = record {
    read_only = true;
    is_global = true;
    env = false;
    func_handle = false;
    random = false;
    seconds = false;
    mod_const = false;
    alias = false;
    named_mod = not global;
    global_mod = global;
  };
  mod_id = type.mod_id;
}

-- The name of a conflict without the suffix of its kind.
unfoldable pub shown_name : Name → Name
shown_name name =
    if ends_with name cmd_symbol_suffix
    then remove_suffix (length cmd_symbol_suffix) name
    else if ends_with name type_alias_symbol_suffix
    then remove_suffix (length type_alias_symbol_suffix) name
    else name

abbrev pub or_conflict :
    Name → NameLookupResult × Store → (Store → Option Name × Store) → Option Name × Store
or_conflict name (ok h, st) next = next st
or_conflict name (err e, st) next = (some (shown_name name), st)

-- The loop over the handles of the module; `none` is the empty string, no conflict.
unfoldable pub import_each : ScopeId → List (Name × FieldHandle) → Store → Option Name × Store
import_each i [] st = (none, st)
import_each i ((name, h) ∷ hs) st =
    let rest = λ (st' : Store). import_each i hs st' in
    if is_private name then rest st else or_conflict name (add_new_foreign_handle st i name h) rest

unfoldable pub import_foreign_handles : ScopeId → ModType → Bool → Store → Option Name × Store
import_foreign_handles i type global st =
    let holder = to_mod_holder_name type.mod_id global in
    let st' = (add_new_alias st i holder (to_mod_holder type global)).1 in
    if contains (scope_at st i) holder
    then (none, st)
    else if not global
    then (none, st')
    else import_each i type.handle_map st'

-- A scope that has a name.
abbrev pub Has : Name → ScopeId → Store → Type 0
Has name i st = (i < length st.scopes) × (contains (scope_at st i) name ≡ true)

find-front :
    (hs : List (Name × FieldHandle)) (name other : Name) (h : FieldHandle)
    → is_some (find_handle hs name) ≡ true
    → is_some (find_handle ((other, h) ∷ hs) name) ≡ true
find-front hs name other h e = ground arith

added-contains :
    (st : Store) (i : ScopeId) (name other : Name) (h : FieldHandle)
    → i < length st.scopes
    → contains (scope_at st i) name ≡ true
    → contains (scope_at (added st i other h) i) name ≡ true
unfolding contains find
added-contains st i name other h lt has =
    ap (λ hs. is_some (find_handle hs name)) (handles-added st i other h lt)
    ∙ find-front (scope_at st i).handles name other h has

add-Has :
    (st : Store) (i : ScopeId) (name other : Name) (h : FieldHandle)
    → Has name i st
    → Has name i (add st i other h).1
add-Has st i name other h (lt, has) = elim (add-cases st i other h) [
  | inl (x, r) ↦ subst (λ p. Has name i p.1) (sym r) (lt, has)
  | inr (r, fresh, room) ↦
      subst (λ p. Has name i p.1) (sym r)
        (rw (length-scopes-added st i other h) lt, added-contains st i name other h lt has)
]

foreign-Has :
    (st : Store) (i : ScopeId) (name other : Name) (h : FieldHandle)
    → Has name i st
    → Has name i (add_new_foreign_handle st i other h).1
unfolding add_new_foreign_handle
foreign-Has st i name other h has = add-Has st i name other _ has

or_conflict-Has :
    (i : ScopeId) (name other : Name) (r : NameLookupResult × Store)
    (next : Store → Option Name × Store)
    → Has name i r.1
    → ((st : Store) → Has name i st → Has name i (next st).1)
    → Has name i (or_conflict other r next).1
or_conflict-Has i name other (ok h, st) next has keeps = keeps st has
or_conflict-Has i name other (err e, st) next has keeps = has

import_each-cons :
    (i : ScopeId) (name : Name) (h : FieldHandle) (hs : List (Name × FieldHandle)) (st : Store)
    → import_each i ((name, h) ∷ hs) st ≡ (
        if is_private name
        then import_each i hs st
        else or_conflict name (add_new_foreign_handle st i name h) (λ st'. import_each i hs st'))
unfolding import_each
import_each-cons i name h hs st = refl

import_each-Has :
    (i : ScopeId) (name : Name) (hs : List (Name × FieldHandle)) (st : Store)
    → Has name i st
    → Has name i (import_each i hs st).1
import_each-Has i name [] st has = unfold import_each in has
import_each-Has i name ((other, h) ∷ hs) st has =
    let keeps : (st' : Store) → Has name i st' → Has name i (import_each i hs st').1 =
      λ st' k. import_each-Has i name hs st' k in
    let front =
      or_conflict-Has i name other (add_new_foreign_handle st i other h)
        (λ st'. import_each i hs st') (foreign-Has st i name other h has) keeps in
    subst (λ r. Has name i r.1) (sym (import_each-cons i other h hs st))
      (elim (Bool-cases (is_private other)) [ inl p ↦ rw p (keeps st has) | inr p ↦ rw p front ])

add-alias :
    (st : Store) (i : ScopeId) (name : Name) (h : FieldHandle)
    → is_local_variable h ≡ false
    → contains (scope_at st i) name ≡ false
    → add st i name h ≡ (ok h, added st i name h)
unfolding add
add-alias st i name h no_local fresh = rw (no_local, fresh)

added_self :
    (st : Store) (i : ScopeId) (name : Name) (h : FieldHandle)
    → i < length st.scopes
    → contains (scope_at (added st i name h) i) name ≡ true
unfolding contains find
added_self st i name h lt = rw (handles-added st i name h lt, eqb_name_refl name)

alias-Has :
    (st : Store) (i : ScopeId) (name : Name) (h : FieldHandle)
    → i < length st.scopes
    → contains (scope_at st i) name ≡ false
    → Has name i (add_new_alias st i name h).1
unfolding add_new_alias
alias-Has st i name h lt fresh =
    let s = scope_at st i in
    let h' = record h {
      commit_id = commit_id s;
      attr = record h.attr { alias = true };
      mod_id = s.mod_id;
    } in
    subst (λ p. Has name i p.1) (sym (add-alias st i name h' refl fresh))
      (rw (length-scopes-added st i name h') lt, added_self st i name h' lt)

imported-again :
    (i : ScopeId) (type : ModType) (global : Bool) (st : Store)
    → contains (scope_at st i) (to_mod_holder_name type.mod_id global) ≡ true
    → import_foreign_handles i type global st ≡ (none, st)
unfolding import_foreign_handles
imported-again i type global st has = rw has

finish-Has :
    (i : ScopeId) (name : Name) (hs : List (Name × FieldHandle)) (st : Store) (global : Bool)
    → Has name i st
    → Has name i (if not global then (none, st) else import_each i hs st).1
finish-Has i name hs st true has = import_each-Has i name hs st has
finish-Has i name hs st false has = has

imported-Has :
    (i : ScopeId) (type : ModType) (global : Bool) (st : Store)
    → i < length st.scopes
    → Has (to_mod_holder_name type.mod_id global) i (import_foreign_handles i type global st).1
unfolding import_foreign_handles
imported-Has i type global st lt =
    let holder = to_mod_holder_name type.mod_id global in
    elim (Bool-cases (contains (scope_at st i) holder)) [
      | inl e ↦ rw e (lt, e)
      | inr e ↦
          let has = alias-Has st i holder (to_mod_holder type global) lt e in
          rw e (
            finish-Has i holder type.handle_map
              (add_new_alias st i holder (to_mod_holder type global)).1 global has)
    ]

-- A module that was imported is not imported again: the second import, by name or globally as the
-- first was, finds no conflict and changes nothing.
pub import_foreign_handles-again :
    (i : ScopeId) (type : ModType) (global : Bool) (st : Store)
    → i < length st.scopes
    → import_foreign_handles i type global (import_foreign_handles i type global st).1
      ≡ (none, (import_foreign_handles i type global st).1)
import_foreign_handles-again i type global st lt =
    imported-again i type global (import_foreign_handles i type global st).1
      (imported-Has i type global st lt).1
