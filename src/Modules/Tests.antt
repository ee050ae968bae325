-- ===== src/Modules/Tests.antt =====
-- Tests of the module loader, and its theorems at concrete loaders.
use ydsh.Prelude.{
  Bool, List, [], arith, false, get_or, if◌then◌else◌, length, refl, some, true, ℕ, ◌<◌, ◌==◌, ◌∷◌,
  ◌≡◌,
}
use ydsh.Scope.Naming.{Name}
use ydsh.Modules.{
  ModuleLoader, ModuleDirs, Opened, opened, failed, regular, ImportedModEntry, add_new_mod_entry,
  sealed_type, loading_error, new_path, load, discard, get_discard_point, create_mod_type,
  load_impl, concat_path, check_file_type,
}
use ydsh.Modules.Registry.{IsValid, load_once, loading, loaded}
use ydsh.Modules.Discard.{Operation, run, discard-run_loader, register, create, new_global}

abbrev path_a : Name
path_a = 47 ∷ 97 ∷ []

abbrev path_b : Name
path_b = 47 ∷ 98 ∷ []

-- The module "/a" is loaded and has the type 30.
abbrev one_module : ModuleLoader
one_module = record { index_map = (path_a, 0) ∷ []; entries = 30 ∷ []; gvar_count = 5 }

one_module-IsValid : IsValid one_module
one_module-IsValid = record { sizes = refl; indices = (omega arith, tt) }

answers_type : add_new_mod_entry path_a one_module ≡ (sealed_type 30, one_module)
unfolding add_new_mod_entry
answers_type = refl

load_once_example :
    (add_new_mod_entry path_b (loading path_b one_module)
      ≡ (loading_error 0, loading path_b one_module))
    × (add_new_mod_entry path_b (loaded path_b 31 one_module)
        ≡ (sealed_type 31, loaded path_b 31 one_module))
    × IsValid (loading path_b one_module)
load_once_example = load_once path_b 31 one_module one_module-IsValid refl (omega arith)

abbrev loads_b : List Operation
loads_b = new_global ∷ register path_b ∷ create path_b 31 ∷ []

grows : 1 < length (run one_module loads_b).index_map
unfolding add_new_mod_entry create_mod_type
grows = omega arith

discard-run_loader_example :
    discard (get_discard_point one_module) (run one_module loads_b) ≡ one_module
discard-run_loader_example =
    discard-run_loader one_module loads_b one_module-IsValid (tt, (tt, (refl, tt))) grows

-- The file "m" is in the directory "/s" only.
abbrev dirs : ModuleDirs
dirs = record { system_mod_dir = 47 ∷ 115 ∷ []; local_mod_dir = 47 ∷ 108 ∷ [] }

abbrev file_m : Name
file_m = 47 ∷ 115 ∷ 47 ∷ 109 ∷ []

abbrev system : Name → Opened
system path = if get_or path 1 0 == 115 then opened (regular 10) (some path) else failed 2

finds_in_system_dir :
    (load system dirs (some path_a) (109 ∷ []) false one_module).0 ≡ new_path file_m
unfolding load load_impl concat_path check_file_type add_new_mod_entry
finds_in_system_dir = refl

abbrev child : ℕ → Bool → ImportedModEntry
child id g = record { type_id = id; is_global = g }

abbrev children : List ImportedModEntry
children = child 10 true ∷ child 20 false ∷ []
