-- ===== src/Scope/Tests.antt =====
-- Tests of the scopes, and their theorems at concrete stores.
use ydsh.Prelude.{List, [], arith, false, none, refl, some, some_inj, suc, true, zero, ◌∷◌, ◌≡◌}
use ydsh.Scope.Naming.{Name, to_mod_holder_name, is_private}
use ydsh.Scope.{
  Store, NameScope, FieldAttribute, FieldHandle, global, block, gvar, local_index, err, defined,
  scope_at, define_handle, lookup, lookup_from, get_discard_point, discard, get_max_local_var_index,
  find, defined_in_builtin, add_new_handle, add, contains, count_variable, add_new_foreign_handle,
  add_new_alias,
}
use ydsh.Scope.Lookup.{Defines, ParentsFirst, define_handle-lookup}
use ydsh.Scope.Import.{ModType, import_foreign_handles, import_foreign_handles-again, import_each}
use ydsh.Scope.Locals.{IsValid}
use ydsh.Scope.Frame.{Indexed, define_handle-Indexed}
use ydsh.Scope.Discard.{Operation, run, discard-run, Committed, define, enter}

abbrev plain : FieldAttribute
plain = record {
  read_only = false;
  is_global = false;
  env = false;
  func_handle = false;
  random = false;
  seconds = false;
  mod_const = false;
  alias = false;
  named_mod = false;
  global_mod = false;
}

-- The global variable "a", of the type 7.
abbrev name_a : Name
name_a = 97 ∷ []

abbrev name_b : Name
name_b = 98 ∷ []

abbrev handle_a : FieldHandle
handle_a = record {
  commit_id = 0;
  type_id = 7;
  index = 3;
  attr = record plain { is_global = true };
  mod_id = 1;
}

-- A global scope with a block in it.
abbrev global_scope : NameScope
global_scope = record {
  kind = global;
  mod_id = 1;
  parent = none;
  cur_local_index = 1;
  local_size = 0;
  max_var_count = gvar;
  handles = (name_a, handle_a) ∷ [];
}

abbrev block_scope : NameScope
block_scope = record {
  kind = block;
  mod_id = 1;
  parent = some 0;
  cur_local_index = 1;
  local_size = 1;
  max_var_count = local_index 0;
  handles = [];
}

abbrev two_scopes : Store
two_scopes = record { scopes = global_scope ∷ block_scope ∷ []; gvar_count = 4 }

finds_parent_name : lookup two_scopes 1 name_a ≡ some handle_a
unfolding lookup lookup_from find
finds_parent_name = refl

refuses_same_name : (define_handle two_scopes 0 name_a 7 plain).0 ≡ err defined
unfolding define_handle defined_in_builtin add_new_handle add contains find
refuses_same_name = refl

counts_local : get_max_local_var_index (define_handle two_scopes 1 name_b 7 plain).1 1 ≡ 2
unfolding define_handle get_max_local_var_index defined_in_builtin add_new_handle add contains find
    count_variable
counts_local = refl

define_handle-lookup_example :
    Defines two_scopes 1 name_b (define_handle two_scopes 1 name_b 7 plain)
define_handle-lookup_example = define_handle-lookup two_scopes 1 name_b 7 plain (omega arith)

two_scopes-ParentsFirst : ParentsFirst two_scopes
two_scopes-ParentsFirst zero p e = absurd (cc)
two_scopes-ParentsFirst (suc zero) p e = let same = some_inj e in omega arith
two_scopes-ParentsFirst (suc (suc i)) p e = absurd (cc)

abbrev some_operations : List Operation
some_operations = define 0 name_b 7 plain ∷ enter 0 block ∷ define 1 name_b 7 plain ∷ []

two_scopes-Committed : Committed (scope_at two_scopes 0).handles
two_scopes-Committed = (omega arith, tt)

discard-run_example :
    (scope_at
      (discard (run two_scopes some_operations) 0 (get_discard_point global_scope))
      0).handles
    ≡ (name_a, handle_a) ∷ []
discard-run_example = discard-run two_scopes 0 some_operations (omega arith) two_scopes-Committed

two_scopes-IsValid : IsValid two_scopes
two_scopes-IsValid zero lt = (refl, omega arith, omega arith)
two_scopes-IsValid (suc zero) lt =
    ((refl, refl, omega arith, omega arith), omega arith, omega arith)
two_scopes-IsValid (suc (suc i)) lt = absurd (omega arith)

define_handle-Indexed_example :
    Indexed two_scopes 1 (define_handle two_scopes 1 name_b 7 plain)
    × IsValid (define_handle two_scopes 1 name_b 7 plain).1
define_handle-Indexed_example =
    define_handle-Indexed two_scopes 1 name_b 7 plain (omega arith) refl refl two_scopes-IsValid

abbrev other_module : ModType
other_module = record { type_id = 40; mod_id = 2; index = 9; handle_map = (name_b, handle_a) ∷ [] }

imports_without_conflict : (import_foreign_handles 0 other_module true two_scopes).0 ≡ none
unfolding import_foreign_handles contains find to_mod_holder_name import_each is_private
    add_new_foreign_handle add add_new_alias count_variable
imports_without_conflict = refl

import_foreign_handles-again_example :
    import_foreign_handles 0 other_module true
      (import_foreign_handles 0 other_module true two_scopes).1
    ≡ (none, (import_foreign_handles 0 other_module true two_scopes).1)
import_foreign_handles-again_example =
    import_foreign_handles-again 0 other_module true two_scopes (omega arith)
