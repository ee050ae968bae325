-- ===== src/Modules/Children.antt =====
-- The children of a module type: they stay in strictly ascending order of their type ids, and a
-- global import is never lost.
use ydsh.Prelude.{
  Bool, Bool-cases, List, Option, [], arith, false, if◌then◌else◌, inl, inr, ltb, none, refl, some,
  sym, true, ℕ, ◌<◌, ◌==◌, ◌||◌, ◌∙◌, ◌∷◌, ◌≡◌, ◌≢◌, ◌⊎◌,
}
use mathlib.Core.Path.{subst}
use ydsh.Modules.{ImportedModEntry, try_insert_by_ascending_order}

abbrev pub Bound : ℕ → List ImportedModEntry → Type 0
Bound low [] = Unit
Bound low (c ∷ cs) = low < c.type_id

abbrev pub IsAscending : List ImportedModEntry → Type 0
IsAscending [] = Unit
IsAscending (c ∷ cs) = Bound c.type_id cs × IsAscending cs

-- How a module is imported: not at all, by name, or globally.
abbrev pub import_of : List ImportedModEntry → ℕ → Option Bool
import_of [] id = none
import_of (c ∷ cs) id = if c.type_id == id then some c.is_global else import_of cs id

abbrev pub joined : Option Bool → Bool → Bool
joined none g = g
joined (some h) g = h || g

insert-cons :
    (c e : ImportedModEntry) (cs : List ImportedModEntry)
    → try_insert_by_ascending_order (c ∷ cs) e ≡ (
        if ltb c.type_id e.type_id
        then c ∷ try_insert_by_ascending_order cs e
        else if c.type_id == e.type_id
        then (if e.is_global then e ∷ cs else c ∷ cs)
        else e ∷ c ∷ cs)
unfolding try_insert_by_ascending_order
insert-cons c e cs = refl

insert-Bound :
    (low : ℕ) (e : ImportedModEntry) (cs : List ImportedModEntry)
    → low < e.type_id
    → Bound low cs
    → Bound low (try_insert_by_ascending_order cs e)
insert-Bound low e [] lt b = unfold try_insert_by_ascending_order in lt
insert-Bound low e (c ∷ cs) lt b = subst (Bound low) (sym (insert-cons c e cs)) (ground arith)

Bound-trans : (a b : ℕ) (cs : List ImportedModEntry) → a < b → Bound b cs → Bound a cs
Bound-trans a b [] lt h = tt
Bound-trans a b (c ∷ cs) lt h = omega arith

-- The three ways in which an entry meets the first child.
Meets : ImportedModEntry → ImportedModEntry → Type 0
Meets e c = (c.type_id < e.type_id) ⊎ (c.type_id ≡ e.type_id) ⊎ (e.type_id < c.type_id)

meets : (e c : ImportedModEntry) → Meets e c
unfolding Meets
meets e c = ground arith

insert-above :
    (e c : ImportedModEntry) (cs : List ImportedModEntry)
    → c.type_id < e.type_id
    → try_insert_by_ascending_order (c ∷ cs) e ≡ c ∷ try_insert_by_ascending_order cs e
insert-above e c cs lt =
    let yes : ltb c.type_id e.type_id ≡ true = ground arith in insert-cons c e cs ∙ rw yes

insert-at :
    (e c : ImportedModEntry) (cs : List ImportedModEntry)
    → c.type_id ≡ e.type_id
    → try_insert_by_ascending_order (c ∷ cs) e ≡ (if e.is_global then e else c) ∷ cs
insert-at e c cs same = insert-cons c e cs ∙ ground arith

insert-below :
    (e c : ImportedModEntry) (cs : List ImportedModEntry)
    → e.type_id < c.type_id
    → try_insert_by_ascending_order (c ∷ cs) e ≡ e ∷ c ∷ cs
insert-below e c cs lt = insert-cons c e cs ∙ ground arith

insert-IsAscending :
    (e : ImportedModEntry) (cs : List ImportedModEntry)
    → IsAscending cs
    → IsAscending (try_insert_by_ascending_order cs e)
unfolding Meets
insert-IsAscending e [] a = unfold try_insert_by_ascending_order in (tt, tt)
insert-IsAscending e (c ∷ cs) a =
    let rest = insert-IsAscending e cs a.1 in
    elim (meets e c) [
      | inl lt ↦
          subst IsAscending (sym (insert-above e c cs lt))
            (insert-Bound c.type_id e cs lt a.0, rest)
      | inr (inl same) ↦
          subst IsAscending (sym (insert-at e c cs same))
            (elim (Bool-cases e.is_global) [ inl g ↦ rw (g, sym same) a | inr g ↦ rw g a ])
      | inr (inr lt) ↦ subst IsAscending (sym (insert-below e c cs lt)) (lt, a)
    ]

import_of-below :
    (cs : List ImportedModEntry) (id : ℕ) → Bound id cs → IsAscending cs → import_of cs id ≡ none
import_of-below [] id b a = refl
import_of-below (c ∷ cs) id b a =
    let no : (c.type_id == id) ≡ false = ground arith in
    rw no (import_of-below cs id (Bound-trans id c.type_id cs b a.0) a.1)

import_of-insert :
    (e : ImportedModEntry) (cs : List ImportedModEntry)
    → IsAscending cs
    → import_of (try_insert_by_ascending_order cs e) e.type_id
      ≡ some (joined (import_of cs e.type_id) e.is_global)
unfolding Meets
import_of-insert e [] a = unfold try_insert_by_ascending_order in ground arith
import_of-insert e (c ∷ cs) a =
    let rest = import_of-insert e cs a.1 in
    elim (meets e c) [
      | inl lt ↦
          let no : (c.type_id == e.type_id) ≡ false = ground arith in
          rw (insert-above e c cs lt, no) rest
      | inr (inl same) ↦ rw (insert-at e c cs same) (ground arith)
      | inr (inr lt) ↦
          let before = import_of-below (c ∷ cs) e.type_id lt a in
          rw (insert-below e c cs lt, before) (ground arith)
    ]

import_of-other :
    (e : ImportedModEntry) (cs : List ImportedModEntry) (id : ℕ)
    → id ≢ e.type_id
    → import_of (try_insert_by_ascending_order cs e) id ≡ import_of cs id
unfolding Meets
import_of-other e [] id ne = unfold try_insert_by_ascending_order in ground arith
import_of-other e (c ∷ cs) id ne =
    let rest = import_of-other e cs id ne in
    elim (meets e c) [
      | inl lt ↦ rw (insert-above e c cs lt, rest)
      | inr (inl same) ↦ rw (insert-at e c cs same) (ground arith)
      | inr (inr lt) ↦ rw (insert-below e c cs lt) (ground arith)
    ]

-- The children stay in ascending order; the module of the entry is then imported, globally if it was
-- before or the entry is global, and every other module is imported as before.
pub try_insert_lem :
    (e : ImportedModEntry) (cs : List ImportedModEntry)
    → IsAscending cs
    → IsAscending (try_insert_by_ascending_order cs e)
      × (import_of (try_insert_by_ascending_order cs e) e.type_id
          ≡ some (joined (import_of cs e.type_id) e.is_global))
      × ((id : ℕ)
          → id ≢ e.type_id
          → import_of (try_insert_by_ascending_order cs e) id ≡ import_of cs id)
try_insert_lem e cs a = (insert-IsAscending e cs a, import_of-insert e cs a, import_of-other e cs)
