-- ===== src/Scope.antt =====
-- src/scope.h and src/scope.cpp: `NameScope`. Scopes share counters: `maxVarCount` refers to the
-- counter of global variables of the module loader, or to the `curLocalIndex` of another scope. So
-- the scopes stand in a store, and a reference is a `CountRef`. An `IntrusivePtr` to a scope is its
-- index in the store. The types of variables are their ids.
use ydsh.Prelude.{
  Bool, List, Option, [], false, get_or, if◌then◌else◌, leb, length, ltb, none, not, set, suc, true,
  zero, ℕ, ◌&&◌, ◌++◌, ◌+◌, ◌-◌, ◌==◌, ◌∷◌, some,
}
pub mod Naming
pub mod Added
pub mod Lookup
pub mod Discard
pub mod Locals
pub mod Indices
pub mod Frame
pub mod Import
mod Tests
use ydsh.Scope.Naming.{Name, eqb_name}

pub data Kind : Type 0 where
  global : Kind
  func : Kind
  block : Kind

abbrev pub is_global_kind : Kind → Bool
is_global_kind global = true
is_global_kind k = false

abbrev pub is_block_kind : Kind → Bool
is_block_kind block = true
is_block_kind k = false

-- The flags of `FieldAttribute`, one by one.
pub record FieldAttribute : Type 0 where
  read_only : Bool
  is_global : Bool
  env : Bool
  func_handle : Bool
  random : Bool
  seconds : Bool
  mod_const : Bool
  alias : Bool
  named_mod : Bool
  global_mod : Bool

pub record FieldHandle : Type 0 where
  commit_id : ℕ
  type_id : ℕ
  index : ℕ
  attr : FieldAttribute
  mod_id : ℕ

abbrev pub ScopeId : Type 0
ScopeId = ℕ

pub data CountRef : Type 0 where
  gvar : CountRef
  local_index : ScopeId → CountRef

pub record NameScope : Type 0 where
  kind : Kind
  mod_id : ℕ
  parent : Option ScopeId
  cur_local_index : ℕ
  local_size : ℕ
  max_var_count : CountRef
  handles : List (Name × FieldHandle)

pub record Store : Type 0 where
  scopes : List NameScope
  gvar_count : ℕ

pub data NameLookupError : Type 0 where
  defined : NameLookupError
  limit : NameLookupError

pub data NameLookupResult : Type 0 where
  ok : FieldHandle → NameLookupResult
  err : NameLookupError → NameLookupResult

-- SYS_LIMIT_LOCAL_NUM of src/constant.h.
abbrev pub limit_local_num : ℕ
limit_local_num = 255

abbrev pub no_scope : NameScope
no_scope = record {
  kind = global;
  mod_id = 0;
  parent = none;
  cur_local_index = 0;
  local_size = 0;
  max_var_count = gvar;
  handles = [];
}

abbrev pub scope_at : Store → ScopeId → NameScope
scope_at st i = get_or st.scopes i no_scope

abbrev pub put_scope : ScopeId → NameScope → Store → Store
put_scope i s st = record st { scopes = set st.scopes i s }

abbrev pub count_of : Store → CountRef → ℕ
count_of st gvar = st.gvar_count
count_of st (local_index i) = (scope_at st i).cur_local_index

abbrev pub set_count : CountRef → ℕ → Store → Store
set_count gvar n st = record st { gvar_count = n }
set_count (local_index i) n st = put_scope i (record (scope_at st i) { cur_local_index = n }) st

-- Looking a name up in one scope.
abbrev pub find_handle : List (Name × FieldHandle) → Name → Option FieldHandle
find_handle [] name = none
find_handle ((n, h) ∷ hs) name = if eqb_name n name then some h else find_handle hs name

abbrev pub is_some : Option FieldHandle → Bool
is_some none = false
is_some (some h) = true

unfoldable pub find : NameScope → Name → Option FieldHandle
find s name = find_handle s.handles name

unfoldable pub contains : NameScope → Name → Bool
contains s name = is_some (find s name)

unfoldable pub get_max_local_var_index : Store → ScopeId → ℕ
get_max_local_var_index st i =
    if is_block_kind (scope_at st i).kind
    then count_of st (scope_at st i).max_var_count
    else (scope_at st i).cur_local_index

unfoldable pub get_base_index : NameScope → ℕ
get_base_index s = s.cur_local_index - s.local_size

unfoldable pub is_allowed_scope_pair : Kind → Kind → Bool
is_allowed_scope_pair global func = true
is_allowed_scope_pair global block = true
is_allowed_scope_pair func block = true
is_allowed_scope_pair block block = true
is_allowed_scope_pair parent child = false

-- The scope that `enterScope` creates in an allowed pair.
abbrev pub new_scope : Store → ScopeId → Kind → Kind → NameScope
new_scope st i block block = record {
  kind = block;
  mod_id = (scope_at st i).mod_id;
  parent = some i;
  cur_local_index = (scope_at st i).cur_local_index;
  local_size = 0;
  max_var_count = (scope_at st i).max_var_count;
  handles = [];
}
new_scope st i global func = record {
  kind = func;
  mod_id = (scope_at st i).mod_id;
  parent = some i;
  cur_local_index = 0;
  local_size = 0;
  max_var_count = (scope_at st i).max_var_count;
  handles = [];
}
new_scope st i parent child = record {
  kind = child;
  mod_id = (scope_at st i).mod_id;
  parent = some i;
  cur_local_index = 0;
  local_size = 0;
  max_var_count = local_index i;
  handles = [];
}

unfoldable pub enter_scope : Store → ScopeId → Kind → Option ScopeId × Store
enter_scope st i kind =
    if is_allowed_scope_pair (scope_at st i).kind kind
    then (
      some (length st.scopes),
      record st { scopes = st.scopes ++ new_scope st i (scope_at st i).kind kind ∷ [] },
    )
    else (none, st)

unfoldable pub clear_local_size : NameScope → NameScope
clear_local_size s = record s { cur_local_index = 0; local_size = 0 }

abbrev pub is_local_variable : FieldHandle → Bool
is_local_variable h = not h.attr.alias && not h.attr.is_global

-- The handle is put, and then the counters grow.
abbrev pub with_handle : Name → FieldHandle → NameScope → NameScope
with_handle name h s = record s { handles = (name, h) ∷ s.handles }

abbrev pub one_more_local : NameScope → NameScope
one_more_local s = record s {
  cur_local_index = suc s.cur_local_index;
  local_size = suc s.local_size;
}

abbrev pub raise : CountRef → ℕ → Store → Store
raise r n st = if ltb (count_of st r) n then set_count r n st else st

unfoldable pub count_variable : ScopeId → FieldHandle → Store → Store
count_variable i h st =
    let s = scope_at st i in
    if h.attr.alias
    then st
    else if h.attr.is_global
    then set_count s.max_var_count (suc (count_of st s.max_var_count)) st
    else raise s.max_var_count (suc s.cur_local_index) (put_scope i (one_more_local s) st)

unfoldable pub add : Store → ScopeId → Name → FieldHandle → NameLookupResult × Store
add st i name h =
    let s = scope_at st i in
    if is_local_variable h && (s.cur_local_index == limit_local_num)
    then (err limit, st)
    else if contains s name
    then (err defined, st)
    else (ok h, count_variable i h (put_scope i (with_handle name h s) st))

-- The next commit id.
abbrev pub commit_id : NameScope → ℕ
commit_id s = length s.handles

abbrev pub new_handle : Store → ScopeId → ℕ → FieldAttribute → FieldHandle
new_handle st i type_id attr =
    let s = scope_at st i in
    record {
      commit_id = commit_id s;
      type_id = type_id;
      index = if is_global_kind s.kind then count_of st s.max_var_count else s.cur_local_index;
      attr = record attr { is_global = is_global_kind s.kind };
      mod_id = s.mod_id;
    }

unfoldable pub add_new_handle :
    Store → ScopeId → Name → ℕ → FieldAttribute → NameLookupResult × Store
add_new_handle st i name type_id attr = add st i name (new_handle st i type_id attr)

unfoldable pub add_new_alias : Store → ScopeId → Name → FieldHandle → NameLookupResult × Store
add_new_alias st i name h =
    let s = scope_at st i in
    add st i name (record h {
      commit_id = commit_id s;
      attr = record h.attr { alias = true };
      mod_id = s.mod_id;
    })

unfoldable pub add_new_foreign_handle :
    Store → ScopeId → Name → FieldHandle → NameLookupResult × Store
add_new_foreign_handle st i name h =
    add st i name
      (record h { commit_id = commit_id (scope_at st i); attr = record h.attr { alias = true } })

-- Only the builtin module, of id 0, hides its names from redefinition in the scopes below it.
abbrev pub parent_defines : Store → Option ScopeId → Name → Bool
parent_defines st none name = false
parent_defines st (some p) name = ((scope_at st p).mod_id == 0) && contains (scope_at st p) name

unfoldable pub defined_in_builtin : Store → ScopeId → Name → Bool
defined_in_builtin st i name =
    is_global_kind (scope_at st i).kind && parent_defines st (scope_at st i).parent name

unfoldable pub define_handle :
    Store → ScopeId → Name → ℕ → FieldAttribute → NameLookupResult × Store
define_handle st i name type_id attr =
    if defined_in_builtin st i name
    then (err defined, st)
    else add_new_handle st i name type_id attr

unfoldable pub define_alias : Store → ScopeId → Name → FieldHandle → NameLookupResult × Store
define_alias st i name h =
    if defined_in_builtin st i name then (err defined, st) else add_new_alias st i name h

-- `lookup` goes up through the parents. The store is built parents first, so the fuel
-- `length scopes` is enough.
abbrev pub or_parent :
    Option FieldHandle → Option ScopeId → (ScopeId → Option FieldHandle) → Option FieldHandle
or_parent (some h) p next = some h
or_parent none none next = none
or_parent none (some p) next = next p

unfoldable pub lookup_from : ℕ → Store → ScopeId → Name → Option FieldHandle
lookup_from zero st i name = none
lookup_from (suc fuel) st i name =
    or_parent (find (scope_at st i) name) (scope_at st i).parent (λ p. lookup_from fuel st p name)

unfoldable pub lookup : Store → ScopeId → Name → Option FieldHandle
lookup st i name = lookup_from (length st.scopes) st i name

-- The handles that are older than the discard point stay.
abbrev pub keep_before : ℕ → List (Name × FieldHandle) → List (Name × FieldHandle)
keep_before n [] = []
keep_before n ((name, h) ∷ hs) =
    let rest = keep_before n hs in if leb n h.commit_id then rest else (name, h) ∷ rest

unfoldable pub get_discard_point : NameScope → ℕ
get_discard_point s = length s.handles

unfoldable pub discard : Store → ScopeId → ℕ → Store
discard st i n =
    let s = record (scope_at st i) { handles = keep_before n (scope_at st i).handles } in
    put_scope i (if is_global_kind s.kind then clear_local_size s else s) st
