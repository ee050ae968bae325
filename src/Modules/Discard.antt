-- ===== src/Modules/Discard.antt =====
-- `discard` takes the loader back to a discard point, if a module was registered since.
use ydsh.Prelude.{
  All, Bool-cases, List, Option, [], ap, arith, false, if◌then◌else◌, inl, inr, leb, length,
  length-append, length-set, none, refl, set, some, some_inj, suc, sym, take, true, zero, ℕ, ◌++◌,
  ◌<◌, ◌∙◌, ◌∷◌, ◌≡◌, ◌≤◌,
}
use ydsh.Scope.Naming.{Name, eqb_name}
use ydsh.Modules.{
  ModuleLoader, mod_size, find_index, add_new_mod_entry, add_or_find, create_mod_type, seal,
  keep_below, discard, get_discard_point,
}
use ydsh.Modules.Registry.{IsValid, Below}

-- What is done to the loader while modules are loaded.
pub data Operation : Type 0 where
  register : Name → Operation
  create : Name → ℕ → Operation
  new_global : Operation

abbrev pub step : ModuleLoader → Operation → ModuleLoader
step l (register key) = (add_new_mod_entry key l).1
step l (create key type_id) = create_mod_type key type_id l
step l new_global = record l { gvar_count = suc l.gvar_count }

abbrev pub run : ModuleLoader → List Operation → ModuleLoader
run l [] = l
run l (o ∷ os) = run (step l o) os

-- The types that are created are those of modules that l does not have.
abbrev pub IsLater : ModuleLoader → Operation → Type 0
IsLater l (create key type_id) = find_index l.index_map key ≡ none
IsLater l o = Unit

-- The loader l' still has the modules of l, below newer ones.
abbrev Above : ModuleLoader → ModuleLoader → Type 0
Above l l' =
    (keep_below (mod_size l) l'.index_map ≡ l.index_map)
    × (take (mod_size l) l'.entries ≡ l.entries)
    × (mod_size l ≤ mod_size l')
    × (mod_size l' ≤ length l'.entries)

keep_below-all : (n : ℕ) (m : List (Name × ℕ)) → Below n m → keep_below n m ≡ m
keep_below-all n [] b = refl
keep_below-all n ((key, i) ∷ m) b =
    let e : leb n i ≡ false = ground (arith, b.0) in rw (e, keep_below-all n m b.1)

take-all : (n : ℕ) (xs : List ℕ) → length xs ≡ n → take n xs ≡ xs
take-all zero [] e = refl
take-all zero (x ∷ xs) e = absurd (omega arith)
take-all (suc n) [] e = refl
take-all (suc n) (x ∷ xs) e = ap (λ t. x ∷ t) (take-all n xs (omega arith))

take-append_le : (n : ℕ) (xs ys : List ℕ) → n ≤ length xs → take n (xs ++ ys) ≡ take n xs
take-append_le zero xs ys le = refl
take-append_le (suc n) [] ys le = absurd (omega arith)
take-append_le (suc n) (x ∷ xs) ys le = ap (λ t. x ∷ t) (take-append_le n xs ys (omega arith))

take-set : (n i v : ℕ) (xs : List ℕ) → n ≤ i → take n (set xs i v) ≡ take n xs
take-set zero i v xs le = refl
take-set (suc n) i v [] le = refl
take-set (suc n) zero v (x ∷ xs) le = absurd (omega arith)
take-set (suc n) (suc i) v (x ∷ xs) le = ap (λ t. x ∷ t) (take-set n i v xs (omega arith))

no_none : (j : ℕ) → ¬ (some j ≡ none)
no_none j h = cc

find_index-here :
    (k key : Name) (j : ℕ) (m : List (Name × ℕ))
    → eqb_name k key ≡ true
    → find_index ((k, j) ∷ m) key ≡ some j
find_index-here k key j m e = rw e

find_index-next :
    (k key : Name) (j : ℕ) (m : List (Name × ℕ))
    → eqb_name k key ≡ false
    → find_index ((k, j) ∷ m) key ≡ find_index m key
find_index-next k key j m e = rw e

find_index-kept :
    (n : ℕ) (k key : Name) (j : ℕ) (m : List (Name × ℕ))
    → leb n j ≡ false
    → eqb_name k key ≡ true
    → find_index (keep_below n ((k, j) ∷ m)) key ≡ some j
find_index-kept n k key j m old e = rw (old, e)

find_index-rest :
    (n : ℕ) (k key : Name) (j : ℕ) (m : List (Name × ℕ))
    → eqb_name k key ≡ false
    → find_index (keep_below n ((k, j) ∷ m)) key ≡ none
    → find_index (keep_below n m) key ≡ none
find_index-rest n k key j m e h = elim (Bool-cases (leb n j)) [
  | inl new ↦
      sym (ap (λ b. find_index (if b then keep_below n m else (k, j) ∷ keep_below n m) key) new) ∙ h
  | inr old ↦
      sym (find_index-next k key j (keep_below n m) e)
      ∙ sym (ap (λ b. find_index (if b then keep_below n m else (k, j) ∷ keep_below n m) key) old)
      ∙ h
]

-- A key that the older part of the map does not have is found beyond it.
find_index-later :
    (n : ℕ) (m : List (Name × ℕ)) (key : Name) (i : ℕ)
    → find_index (keep_below n m) key ≡ none
    → find_index m key ≡ some i
    → n ≤ i
find_index-later n [] key i none_below e = absurd (cc)
find_index-later n ((k, j) ∷ m) key i none_below e = elim (Bool-cases (eqb_name k key)) [
  | inl same ↦
      let here : j ≡ i = some_inj (sym (find_index-here k key j m same) ∙ e) in
      elim (Bool-cases (leb n j)) [
        | inl new ↦ ground arith
        | inr old ↦ absurd (no_none j (sym (find_index-kept n k key j m old same) ∙ none_below))
      ]
  | inr other ↦
      find_index-later n m key i (find_index-rest n k key j m other none_below)
        (sym (find_index-next k key j m other) ∙ e)
]

refl-Above : (l : ModuleLoader) → IsValid l → Above l l
refl-Above l v =
    let sizes = v.sizes in
    (
      keep_below-all (mod_size l) l.index_map v.indices,
      take-all (mod_size l) l.entries v.sizes,
      omega arith,
      omega arith,
    )

register-Above :
    (l l' : ModuleLoader) (key : Name) (found : Option ℕ)
    → Above l l'
    → Above l (add_or_find key l' found).1
register-Above l l' key (some i) a = a
register-Above l l' key none (map_same, same, le, enough) =
    let newer : leb (mod_size l) (mod_size l') ≡ true = ground arith in
    (
      rw newer map_same,
      take-append_le (mod_size l) l'.entries (0 ∷ []) (omega arith) ∙ same,
      omega arith,
      omega (arith, length-append l'.entries (0 ∷ [])),
    )

seal-Above :
    (l l' : ModuleLoader) (type_id : ℕ) (found : Option ℕ)
    → ((i : ℕ) → found ≡ some i → mod_size l ≤ i)
    → Above l l'
    → Above l (seal type_id (record l' { gvar_count = suc l'.gvar_count }) found)
seal-Above l l' type_id none later a = a
seal-Above l l' type_id (some i) later (map_same, same, le, enough) = (
  map_same,
  take-set (mod_size l) i type_id l'.entries (later i refl) ∙ same,
  le,
  omega (arith, length-set l'.entries i type_id),
)

step-Above : (l l' : ModuleLoader) (o : Operation) → IsLater l o → Above l l' → Above l (step l' o)
unfolding add_new_mod_entry create_mod_type
step-Above l l' (register key) later a = register-Above l l' key (find_index l'.index_map key) a
step-Above l l' (create key type_id) later a =
    seal-Above l l' type_id (find_index l'.index_map key)
      (λ i e.
        find_index-later (mod_size l) l'.index_map key i (ap (λ m. find_index m key) a.0 ∙ later) e)
      a
step-Above l l' new_global later a = a

run-Above :
    (l l' : ModuleLoader) (os : List Operation)
    → All (IsLater l) os
    → Above l l'
    → Above l (run l' os)
run-Above l l' [] later a = a
run-Above l l' (o ∷ os) later a = run-Above l (step l' o) os later.1 (step-Above l l' o later.0 a)

-- If a module was registered since a discard point was taken, and module types were created for
-- new modules only, then `discard` gives the loader back as it was, with its count of globals.
pub discard-run_loader :
    (l : ModuleLoader) (os : List Operation)
    → IsValid l
    → All (IsLater l) os
    → mod_size l < mod_size (run l os)
    → discard (get_discard_point l) (run l os) ≡ l
unfolding discard get_discard_point
discard-run_loader l os v later lt =
    let (map_same, same, _, _) = run-Above l l os later (refl-Above l v) in
    let more : leb (mod_size (run l os)) (mod_size l) ≡ false = ground arith in
    rw (more, map_same, same)
