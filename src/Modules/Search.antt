-- ===== src/Modules/Search.antt =====
-- Where a module is searched: `load` tries the directories one by one.
use ydsh.Prelude.{
  Bool, Bool-cases, List, Option, [], if◌then◌else◌, inl, inr, none, not, refl, some, ◌&&◌, ◌∷◌,
  ◌≡◌,
}
use ydsh.Scope.Naming.{Name, eqb_name}
use ydsh.Modules.{
  ModuleLoader, ModResult, ModuleDirs, Opened, load, load_impl, if_not_found, is_file_not_found,
  searches, is_full,
}

-- The directories after that of the script.
abbrev pub further : ModuleDirs → Name → List (Option Name)
further dirs dir =
    if eqb_name dir dirs.local_mod_dir
    then some dirs.system_mod_dir ∷ []
    else some dirs.local_mod_dir ∷ some dirs.system_mod_dir ∷ []

-- For a path that is not full, in a script whose directory is full and not the system directory.
abbrev pub candidates : ModuleDirs → Option Name → Name → List (Option Name)
candidates dirs none path = []
candidates dirs (some dir) path =
    if not (is_full path) && is_full dir && not (eqb_name dir dirs.system_mod_dir)
    then further dirs dir
    else []

-- A try in each directory, until the file is found or an error is not that it is missing.
abbrev pub attempts :
    (Name → Opened)
    → Name
    → Bool
    → Option Name
    → List (Option Name)
    → ModuleLoader
    → ModResult × ModuleLoader
attempts system path ignore dir [] l = load_impl system dir path ignore l
attempts system path ignore dir (d ∷ ds) l =
    if_not_found (load_impl system dir path ignore l) (λ l'. attempts system path ignore d ds l')

if_not_found-twice :
    (p : ModResult × ModuleLoader) (next : ModuleLoader → ModResult × ModuleLoader)
    → if_not_found p (λ l. if_not_found (p.0, l) next) ≡ if_not_found p next
if_not_found-twice (r, l) next = elim (Bool-cases (is_file_not_found r)) [
  | inl e ↦ rw e
  | inr e ↦ rw e
]

-- `load` tries the directory of the script and then, for a path that is not full in a script that
-- is in a full directory other than the system directory, the local module directory, unless it is
-- the same, and the system directory. The first answer that is not ENOENT is the result.
pub load-eq-attempts :
    (system : Name → Opened) (dirs : ModuleDirs) (dir : Option Name) (path : Name) (ignore : Bool)
    (l : ModuleLoader)
    → load system dirs dir path ignore l
      ≡ attempts system path ignore dir (candidates dirs dir path) l
unfolding load
load-eq-attempts system dirs none path ignore l = refl
load-eq-attempts system dirs (some dir) path ignore l =
    elim (Bool-cases (searches dirs (some dir) path)) [
      | inr e ↦ rw e
      | inl e ↦ elim (Bool-cases (eqb_name dir dirs.local_mod_dir)) [
        | inl same ↦
            rw (e, same)
              (if_not_found-twice (load_impl system (some dir) path ignore l)
                (λ l'. load_impl system (some dirs.system_mod_dir) path ignore l'))
        | inr differs ↦ rw (e, differs)
      ]
    ]
