-- ===== src/Modules/Registry.antt =====
-- A module is loaded once: what the loader answers for a path that was registered before.
use ydsh.Prelude.{
  All, List, Option, [], ap, arith, get_or, get_or-set_self, length, length-append, none, set, some,
  suc, sym, true, ℕ, ◌++◌, ◌<◌, ◌∙◌, ◌∷◌, ◌≡◌, get_or-append_last,
}
use ydsh.Scope.Naming.{Name, eqb_name_refl}
use mathlib.Core.Path.{subst}
use ydsh.Modules.{
  is_sealed, ModuleLoader, ModResult, sealed_type, loading_error, mod_size, find_index, add_or_find,
  add_new_mod_entry, create_mod_type, registered,
}

-- Every index of the map is below n.
abbrev pub Below : ℕ → List (Name × ℕ) → Type 0
Below n m = All (λ e. e.1 < n) m

-- The indices of the map are those of the entries.
pub record IsValid (l : ModuleLoader) : Type 0 where
  pub sizes : length l.entries ≡ mod_size l
  pub indices : Below (mod_size l) l.index_map

Below-mono : (n : ℕ) (m : List (Name × ℕ)) → Below n m → Below (suc n) m
Below-mono n [] b = tt
Below-mono n (e ∷ m) b = (omega arith, Below-mono n m b.1)

add_or_find-IsValid :
    (key : Name) (l : ModuleLoader) (found : Option ℕ)
    → IsValid l
    → IsValid (add_or_find key l found).1
add_or_find-IsValid key l (some i) v = v
add_or_find-IsValid key l none v = record {
  sizes = let e = v.sizes in omega (arith, length-append l.entries (0 ∷ []));
  indices = (omega arith, Below-mono (mod_size l) l.index_map v.indices);
}

find_index-new : (m : List (Name × ℕ)) (key : Name) (i : ℕ) → find_index ((key, i) ∷ m) key ≡ some i
find_index-new m key i = rw (eqb_name_refl key)

-- A fresh path as it is loaded, and when its module type has been created.
abbrev pub loading : Name → ModuleLoader → ModuleLoader
loading key l = (add_new_mod_entry key l).1

abbrev pub loaded : Name → ℕ → ModuleLoader → ModuleLoader
loaded key type_id l = create_mod_type key type_id (loading key l)

abbrev with_new : Name → ModuleLoader → ModuleLoader
with_new key l = record l {
  index_map = (key, mod_size l) ∷ l.index_map;
  entries = l.entries ++ 0 ∷ [];
}

abbrev with_sealed : Name → ℕ → ModuleLoader → ModuleLoader
with_sealed key type_id l = record l {
  index_map = (key, mod_size l) ∷ l.index_map;
  entries = set (l.entries ++ 0 ∷ []) (mod_size l) type_id;
  gvar_count = suc l.gvar_count;
}

add-found :
    (key : Name) (i : ℕ) (l : ModuleLoader)
    → find_index l.index_map key ≡ some i
    → add_new_mod_entry key l ≡ (registered (get_or l.entries i 0), l)
unfolding add_new_mod_entry
add-found key i l e = rw e

loading-eq :
    (key : Name) (l : ModuleLoader)
    → find_index l.index_map key ≡ none
    → loading key l ≡ with_new key l
unfolding add_new_mod_entry
loading-eq key l e = ap (λ o. (add_or_find key l o).1) e

loaded-eq :
    (key : Name) (type_id : ℕ) (l : ModuleLoader)
    → find_index l.index_map key ≡ none
    → loaded key type_id l ≡ with_sealed key type_id l
loaded-eq key type_id l e =
    ap (create_mod_type key type_id) (loading-eq key l e)
    ∙ unfold create_mod_type in rw (find_index-new l.index_map key (mod_size l))

Repeats : Name → ModResult → ModuleLoader → Type 0
Repeats key r l = add_new_mod_entry key l ≡ (r, l)

repeat_loading :
    (key : Name) (l : ModuleLoader) → IsValid l → Repeats key (loading_error 0) (with_new key l)
unfolding Repeats
repeat_loading key l v =
    add-found key (mod_size l) _ (find_index-new l.index_map key (mod_size l))
    ∙ ap (λ n. (registered (get_or (l.entries ++ 0 ∷ []) n 0), with_new key l)) (sym v.sizes)
    ∙ ap (λ n. (registered n, with_new key l)) (get_or-append_last l.entries 0 0)

repeat_loaded :
    (key : Name) (type_id : ℕ) (l : ModuleLoader)
    → IsValid l
    → 0 < type_id
    → Repeats key (sealed_type type_id) (with_sealed key type_id l)
unfolding Repeats
repeat_loaded key type_id l v p =
    let e = v.sizes in
    let room : mod_size l < length (l.entries ++ 0 ∷ []) =
      omega (arith, length-append l.entries (0 ∷ [])) in
    let sealed : is_sealed type_id ≡ true = ground arith in
    add-found key (mod_size l) _ (find_index-new l.index_map key (mod_size l))
    ∙ ap (λ n. (registered n, with_sealed key type_id l))
        (get_or-set_self (l.entries ++ 0 ∷ []) (mod_size l) type_id 0 room)
    ∙ rw sealed

-- A path that is new is registered at its first load. Until its module type is created, a further
-- load is answered by the error of a circular load; after that by the type. Neither changes the
-- loader.
pub load_once :
    (key : Name) (type_id : ℕ) (l : ModuleLoader)
    → IsValid l
    → find_index l.index_map key ≡ none
    → 0 < type_id
    → (add_new_mod_entry key (loading key l) ≡ (loading_error 0, loading key l))
      × (add_new_mod_entry key (loaded key type_id l) ≡ (sealed_type type_id, loaded key type_id l))
      × IsValid (loading key l)
unfolding Repeats
load_once key type_id l v fresh p = (
  subst (Repeats key (loading_error 0)) (sym (loading-eq key l fresh)) (repeat_loading key l v),
  subst (Repeats key (sealed_type type_id)) (sym (loaded-eq key type_id l fresh))
      (repeat_loaded key type_id l v p),
  unfold add_new_mod_entry in add_or_find-IsValid key l (find_index l.index_map key) v,
)
