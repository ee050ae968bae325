-- ===== src/Modules.antt =====
-- src/scope.h and src/scope.cpp: `ModuleLoaderBase` and `ModuleLoader`, and the children of a module
-- type. The file system is a parameter: what `open`, `fstat` and `realpath` answer for a path. So are
-- the module directories. A type id is given to a module by the type pool and is a parameter.
use ydsh.Prelude.{
  Bool, List, Option, [], false, get_or, if◌then◌else◌, leb, length, ltb, none, set, some, suc,
  take, true, ℕ, ◌&&◌, ◌++◌, ◌+◌, ◌==◌, ◌∷◌, not,
}
use ydsh.Scope.Naming.{Name, eqb_name}
pub mod Registry
pub mod Discard
pub mod Children
pub mod Search
mod Tests

-- The errors of <errno.h> that the code names; 0 marks a circular load.
abbrev pub enoent : ℕ
enoent = 2

abbrev pub eisdir : ℕ
eisdir = 21

abbrev pub einval : ℕ
einval = 22

abbrev pub efbig : ℕ
efbig = 27

-- `Union<const char *, unsigned int, ModLoadingError>`, and the end of the process by `fatal`.
pub data ModResult : Type 0 where
  new_path : Name → ModResult
  sealed_type : ℕ → ModResult
  loading_error : ℕ → ModResult
  fatal : ModResult

-- The index map has its newest entry in front. An entry is its type id, 0 until it is sealed.
pub record ModuleLoader : Type 0 where
  index_map : List (Name × ℕ)
  entries : List ℕ
  gvar_count : ℕ

abbrev pub max_mod_num : ℕ
max_mod_num = 65535

abbrev pub mod_size : ModuleLoader → ℕ
mod_size l = length l.index_map

abbrev pub find_index : List (Name × ℕ) → Name → Option ℕ
find_index [] key = none
find_index ((k, i) ∷ m) key = if eqb_name k key then some i else find_index m key

abbrev pub is_sealed : ℕ → Bool
is_sealed type_id = ltb 0 type_id

abbrev pub registered : ℕ → ModResult
registered type_id = if is_sealed type_id then sealed_type type_id else loading_error 0

abbrev pub add_or_find : Name → ModuleLoader → Option ℕ → ModResult × ModuleLoader
add_or_find key l (some i) = (registered (get_or l.entries i 0), l)
add_or_find key l none =
    let l' = record l {
      index_map = (key, mod_size l) ∷ l.index_map;
      entries = l.entries ++ 0 ∷ [];
    } in
    (if mod_size l' == max_mod_num then fatal else new_path key, l')

unfoldable pub add_new_mod_entry : Name → ModuleLoader → ModResult × ModuleLoader
add_new_mod_entry key l = add_or_find key l (find_index l.index_map key)

abbrev pub seal : ℕ → ModuleLoader → Option ℕ → ModuleLoader
seal type_id l none = l
seal type_id l (some i) = record l { entries = set l.entries i type_id }

-- `createModType`, with the id of the type that the pool creates. One global is reserved for the
-- module object.
unfoldable pub create_mod_type : Name → ℕ → ModuleLoader → ModuleLoader
create_mod_type fullpath type_id l =
    seal type_id (record l { gvar_count = suc l.gvar_count }) (find_index l.index_map fullpath)

pub record ModDiscardPoint : Type 0 where
  id_count : ℕ
  gvar_count : ℕ

unfoldable pub get_discard_point : ModuleLoader → ModDiscardPoint
get_discard_point l = record { id_count = mod_size l; gvar_count = l.gvar_count }

abbrev pub keep_below : ℕ → List (Name × ℕ) → List (Name × ℕ)
keep_below n [] = []
keep_below n ((key, i) ∷ m) = let rest = keep_below n m in if leb n i then rest else (key, i) ∷ rest

unfoldable pub discard : ModDiscardPoint → ModuleLoader → ModuleLoader
discard p l = if leb (mod_size l) p.id_count then l else record {
  index_map = keep_below p.id_count l.index_map;
  entries = take p.id_count l.entries;
  gvar_count = p.gvar_count;
}

-- `ImportedModEntry`: its two bit fields.
pub record ImportedModEntry : Type 0 where
  type_id : ℕ
  is_global : Bool

-- The insertion at `std::lower_bound`; a child that is there is replaced by a global import only.
unfoldable pub try_insert_by_ascending_order :
    List ImportedModEntry → ImportedModEntry → List ImportedModEntry
try_insert_by_ascending_order [] e = e ∷ []
try_insert_by_ascending_order (c ∷ cs) e =
    let rest = try_insert_by_ascending_order cs e in
    if ltb c.type_id e.type_id
    then c ∷ rest
    else if c.type_id == e.type_id
    then (if e.is_global then e ∷ cs else c ∷ cs)
    else e ∷ c ∷ cs

-- An empty path is not resolved; a full path is not joined to the directory.
abbrev pub is_full : Name → Bool
is_full [] = false
is_full (c ∷ cs) = c == 47

abbrev pub join : Option Name → Name → Name
join none path = path
join (some dir) path = if is_full path then path else dir ++ 47 ∷ path

unfoldable pub concat_path : Option Name → Name → Name
concat_path dir [] = []
concat_path dir (c ∷ cs) = join dir (c ∷ cs)

pub data FileKind : Type 0 where
  directory : FileKind
  regular : ℕ → FileKind
  other : FileKind

-- What the system answers: the error of `open` or `fstat`, or the file and its real path.
pub data Opened : Type 0 where
  failed : ℕ → Opened
  opened : FileKind → Option Name → Opened

-- The greatest size of a script, `static_cast<uint32_t>(-1) >> 2`.
abbrev pub max_file_size : ℕ
max_file_size = 1073741823

unfoldable pub check_file_type : FileKind → Bool → ℕ
check_file_type directory ignore_non_reg_file = eisdir
check_file_type (regular size) ignore_non_reg_file = if ltb max_file_size size then efbig else 0
check_file_type other ignore_non_reg_file = if ignore_non_reg_file then einval else 0

abbrev pub or_path : Option Name → Name → Name
or_path (some real) path = real
or_path none path = path

abbrev pub with_opened : Name → Bool → Opened → ModuleLoader → ModResult × ModuleLoader
with_opened path ignore (failed e) l = (loading_error e, l)
with_opened path ignore (opened kind real) l =
    if ltb 0 (check_file_type kind ignore)
    then (loading_error (check_file_type kind ignore), l)
    else add_new_mod_entry (or_path real path) l

abbrev pub is_empty : Name → Bool
is_empty [] = true
is_empty (c ∷ cs) = false

unfoldable pub load_impl :
    (Name → Opened) → Option Name → Name → Bool → ModuleLoader → ModResult × ModuleLoader
load_impl system dir path ignore l =
    if is_empty (concat_path dir path)
    then (loading_error enoent, l)
    else with_opened (concat_path dir path) ignore (system (concat_path dir path)) l

abbrev pub is_file_not_found : ModResult → Bool
is_file_not_found (loading_error e) = e == enoent
is_file_not_found r = false

-- `SYSTEM_MOD_DIR` and `getFullLocalModDir()`.
pub record ModuleDirs : Type 0 where
  system_mod_dir : Name
  local_mod_dir : Name

abbrev pub if_not_found :
    ModResult × ModuleLoader → (ModuleLoader → ModResult × ModuleLoader) → ModResult × ModuleLoader
if_not_found (r, l) next = if is_file_not_found r then next l else (r, l)

-- The directories that are searched after the script's, which is none for a full path or a script
-- directory that is no full path or is the system directory.
abbrev pub searches : ModuleDirs → Option Name → Name → Bool
searches dirs none path = false
searches dirs (some dir) path =
    not (is_full path) && is_full dir && not (eqb_name dir dirs.system_mod_dir)

abbrev pub local_step :
    (Name → Opened)
    → ModuleDirs
    → Option Name
    → Name
    → Bool
    → ModResult × ModuleLoader
    → ModResult × ModuleLoader
local_step system dirs none path ignore (r, l) =
    load_impl system (some dirs.local_mod_dir) path ignore l
local_step system dirs (some dir) path ignore (r, l) =
    if eqb_name dir dirs.local_mod_dir
    then (r, l)
    else load_impl system (some dirs.local_mod_dir) path ignore l

unfoldable pub load :
    (Name → Opened)
    → ModuleDirs
    → Option Name
    → Name
    → Bool
    → ModuleLoader
    → ModResult × ModuleLoader
load system dirs dir path ignore l =
    let first = load_impl system dir path ignore l in
    if searches dirs dir path
    then if_not_found first (λ l'.
      if_not_found (local_step system dirs dir path ignore (first.0, l'))
        (λ l''. load_impl system (some dirs.system_mod_dir) path ignore l''))
    else first
