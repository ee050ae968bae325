-- ===== src/Scope/Indices.antt =====
-- The indices of local variables: `add` and `enterScope` keep the counters valid, and the counter of
-- the function is above every index that was given out.
use ydsh.Prelude.{
  Bool-cases, List, ap, arith, false, inl, inr, length, length-set, refl, suc, sym, true, ℕ, ◌&&◌,
  ◌<◌, ◌==◌, ◌||◌, ◌∙◌, ◌∷◌, ◌≡◌, ◌≤◌,
}
use mathlib.Core.Path.{subst}
use ydsh.Scope.Naming.{Name}
use ydsh.Scope.Added.{
  added, add-cases, part-put_scope, scope_at-put_scope_self, scope_at-put_scope_ne,
}
use ydsh.Scope.Locals.{
  CountsFor, ScopeValid, IsValid, Grows, ScopeValid-Grows, Counting, one_more-IsValid, kind_at,
  cur_at, one_more_self,
}
use ydsh.Scope.{
  Kind, global, func, block, Store, ScopeId, NameScope, FieldHandle, CountRef, gvar, local_index,
  scope_at, put_scope, add, count_variable, count_of, set_count, raise, one_more_local, with_handle,
  is_local_variable, is_block_kind, is_global_kind, limit_local_num,
}

-- The handles of a scope do not count.
CountsFor-handles :
    (st : Store) (s : NameScope) (hs : List (Name × FieldHandle)) (r : CountRef)
    → CountsFor st s r
    → CountsFor st (record s { handles = hs }) r
CountsFor-handles st s hs gvar c = c
CountsFor-handles st s hs (local_index j) c = c

abbrev handled : Store → ScopeId → Name → FieldHandle → Store
handled st i name h = put_scope i (with_handle name h (scope_at st i)) st

handled-Grows :
    (st : Store) (i : ScopeId) (name : Name) (h : FieldHandle) → Grows st (handled st i name h)
handled-Grows st i name h =
    let e = length-set st.scopes i (with_handle name h (scope_at st i)) in
    record {
      kinds = λ k lt. part-put_scope (λ s. s.kind) st i k _ refl;
      lengths = omega arith;
      counts = λ k lt no_block.
          let c =
            part-put_scope (λ s. s.cur_local_index) st i k (with_handle name h (scope_at st i))
              refl in
          omega arith;
    }

handled-IsValid :
    (st : Store) (i : ScopeId) (name : Name) (h : FieldHandle)
    → i < length st.scopes
    → IsValid st
    → IsValid (handled st i name h)
handled-IsValid st i name h li v k lt = elim (Bool-cases (k == i)) [
  | inl e ↦
      let same : k ≡ i = ground arith in
      let (c, limited, sized) =
        ScopeValid-Grows st (handled st i name h) (scope_at st i) (handled-Grows st i name h)
          (v i li) in
      subst (ScopeValid (handled st i name h))
        (sym (ap (scope_at (handled st i name h)) same ∙ scope_at-put_scope_self st i _ li))
        (
          CountsFor-handles (handled st i name h) (scope_at st i)
              ((name, h) ∷ (scope_at st i).handles) (scope_at st i).max_var_count c,
          limited,
          sized,
        )
  | inr e ↦
      subst (ScopeValid (handled st i name h)) (sym (scope_at-put_scope_ne st i k _ (ground arith)))
        (ScopeValid-Grows st (handled st i name h) (scope_at st k) (handled-Grows st i name h)
          (v k (rw (sym (length-set st.scopes i (with_handle name h (scope_at st i)))) lt)))
]

gvar-IsValid : (st : Store) (n : ℕ) → IsValid st → IsValid (set_count gvar n st)
gvar-IsValid st n v k lt =
    ScopeValid-Grows st (set_count gvar n st) (scope_at st k)
      (record { kinds = λ i l. refl; lengths = omega arith; counts = λ i l no_block. omega arith })
      (v k lt)

-- What a scope counts for, from its kind.
counts_globals :
    (st : Store) (s : NameScope) (r : CountRef)
    → is_block_kind s.kind ≡ false
    → CountsFor st s r
    → r ≡ gvar
counts_globals st s gvar e c = refl
counts_globals st s (local_index j) e (is_block, _, _, _) = absurd (cc)

other_kind :
    (st : Store) (i j : ScopeId)
    → i ≡ j
    → is_block_kind (kind_at st i) ≡ true
    → ¬ (is_block_kind (kind_at st j) ≡ false)
other_kind st i j same a b = let c = ap (λ k. is_block_kind (kind_at st k)) same in cc

counts_locals :
    (st : Store) (i : ScopeId) (r : CountRef)
    → i < length st.scopes
    → is_block_kind (kind_at st i) ≡ true
    → cur_at st i < limit_local_num
    → CountsFor st (scope_at st i) r
    → (j : ScopeId) × (r ≡ local_index j) × Counting st i j
counts_locals st i gvar li e room c = absurd (cc)
counts_locals st i (local_index j) li e room (is_block, no_block, lj, le) =
    (j, refl, (li, lj, λ same. other_kind st i j same e no_block, no_block, room))

count_variable-alias :
    (st : Store) (i : ScopeId) (h : FieldHandle) → h.attr.alias ≡ true → count_variable i h st ≡ st
unfolding count_variable
count_variable-alias st i h a = rw a

count_variable-global :
    (st : Store) (i : ScopeId) (h : FieldHandle)
    → h.attr.alias ≡ false
    → h.attr.is_global ≡ true
    → count_variable i h st
      ≡ set_count (scope_at st i).max_var_count (suc (count_of st (scope_at st i).max_var_count)) st
unfolding count_variable
count_variable-global st i h a g = rw (a, g)

count_variable-local :
    (st : Store) (i : ScopeId) (h : FieldHandle)
    → h.attr.alias ≡ false
    → h.attr.is_global ≡ false
    → count_variable i h st
      ≡ raise
          (scope_at st i).max_var_count
          (suc (cur_at st i))
          (put_scope i (one_more_local (scope_at st i)) st)
unfolding count_variable
count_variable-local st i h a g = rw (a, g)

global-no_block : (k : Kind) → is_global_kind k ≡ true → is_block_kind k ≡ false
global-no_block global e = refl
global-no_block func e = absurd (cc)
global-no_block block e = absurd (cc)

count_variable-IsValid :
    (st : Store) (i : ScopeId) (h : FieldHandle)
    → i < length st.scopes
    → h.attr.is_global ≡ is_global_kind (kind_at st i)
    → is_global_kind (kind_at st i) || is_block_kind (kind_at st i) ≡ true
    → (h.attr.alias ≡ false → is_global_kind (kind_at st i) ≡ false → cur_at st i < limit_local_num)
    → IsValid st
    → IsValid (count_variable i h st)
count_variable-IsValid st i h li flag kind room v = elim (Bool-cases h.attr.alias) [
  | inl a ↦ subst IsValid (sym (count_variable-alias st i h a)) v
  | inr a ↦ elim (Bool-cases (is_global_kind (kind_at st i))) [
    | inl g ↦
        let ref =
          counts_globals st (scope_at st i) (scope_at st i).max_var_count
            (global-no_block (kind_at st i) g) (v i li).0 in
        subst IsValid
          (sym (
            count_variable-global st i h a (flag ∙ g)
            ∙ ap (λ r. set_count r (suc (count_of st r)) st) ref))
          (gvar-IsValid st (suc st.gvar_count) v)
    | inr g ↦
        let is_block : is_block_kind (kind_at st i) ≡ true = ground arith in
        let (j, ref, c) =
          counts_locals st i (scope_at st i).max_var_count li is_block (room a g) (v i li).0 in
        subst IsValid
          (sym (
            count_variable-local st i h a (flag ∙ g)
            ∙ ap
                (λ r. raise r (suc (cur_at st i)) (put_scope i (one_more_local (scope_at st i)) st))
                ref))
          (one_more-IsValid st i j c is_block ref v)
  ]
]

-- The kind of a scope that names can be added to, and the flag that the handle must have.
abbrev pub Addable : Store → ScopeId → FieldHandle → Type 0
Addable st i h =
    (i < length st.scopes)
    × (h.attr.is_global ≡ is_global_kind (kind_at st i))
    × (is_global_kind (kind_at st i) || is_block_kind (kind_at st i) ≡ true)

room_left :
    (st : Store) (i : ScopeId) (h : FieldHandle)
    → cur_at st i ≤ limit_local_num
    → h.attr.is_global ≡ is_global_kind (kind_at st i)
    → (is_local_variable h && cur_at st i == limit_local_num) ≡ false
    → h.attr.alias ≡ false
    → is_global_kind (kind_at st i) ≡ false
    → cur_at st i < limit_local_num
room_left st i h limited flag room a g =
    let no : h.attr.is_global ≡ false = flag ∙ g in ground arith

added-IsValid :
    (st : Store) (i : ScopeId) (name : Name) (h : FieldHandle)
    → Addable st i h
    → (is_local_variable h && cur_at st i == limit_local_num) ≡ false
    → IsValid st
    → IsValid (added st i name h)
added-IsValid st i name h (li, flag, kind) room v =
    let same = scope_at-put_scope_self st i (with_handle name h (scope_at st i)) li in
    let kinds = ap (λ (s : NameScope). s.kind) same in
    let curs = ap (λ (s : NameScope). s.cur_local_index) same in
    let (_, limited, _) = v i li in
    count_variable-IsValid (handled st i name h) i h
      (rw (length-set st.scopes i (with_handle name h (scope_at st i))) li)
      (flag ∙ ap is_global_kind (sym kinds))
      (ap (λ k. is_global_kind k || is_block_kind k) kinds ∙ kind)
      (λ a g. rw curs (room_left st i h limited flag room a (sym (ap is_global_kind kinds) ∙ g)))
      (handled-IsValid st i name h li v)

-- `add` keeps the counters valid: what a block counts is at most the counter of its function, and
-- at most 255.
pub add-IsValid :
    (st : Store) (i : ScopeId) (name : Name) (h : FieldHandle)
    → Addable st i h
    → IsValid st
    → IsValid (add st i name h).1
add-IsValid st i name h addable v = elim (add-cases st i name h) [
  | inl (x, r) ↦ subst (λ p. IsValid p.1) (sym r) v
  | inr (r, fresh, room) ↦
      subst (λ p. IsValid p.1) (sym r) (added-IsValid st i name h addable room v)
]

cur-count_variable :
    (st : Store) (i : ScopeId) (h : FieldHandle)
    → i < length st.scopes
    → h.attr.alias ≡ false
    → h.attr.is_global ≡ false
    → is_block_kind (kind_at st i) ≡ true
    → cur_at st i < limit_local_num
    → IsValid st
    → cur_at (count_variable i h st) i ≡ suc (cur_at st i)
cur-count_variable st i h li a g is_block room v =
    let (j, ref, c) =
      counts_locals st i (scope_at st i).max_var_count li is_block room (v i li).0 in
    ap (λ s. cur_at s i) (count_variable-local st i h a g)
    ∙ ap
        (λ r.
          cur_at (raise r (suc (cur_at st i)) (put_scope i (one_more_local (scope_at st i)) st)) i)
        ref
    ∙ ap (λ (s : NameScope). s.cur_local_index) (one_more_self st i j c)

-- A local variable takes the next index of its block.
pub cur-added :
    (st : Store) (i : ScopeId) (name : Name) (h : FieldHandle)
    → i < length st.scopes
    → h.attr.alias ≡ false
    → h.attr.is_global ≡ false
    → is_block_kind (kind_at st i) ≡ true
    → cur_at st i < limit_local_num
    → IsValid st
    → cur_at (added st i name h) i ≡ suc (cur_at st i)
cur-added st i name h li a g is_block room v =
    let same = scope_at-put_scope_self st i (with_handle name h (scope_at st i)) li in
    let curs = ap (λ (s : NameScope). s.cur_local_index) same in
    cur-count_variable (handled st i name h) i h
      (rw (length-set st.scopes i (with_handle name h (scope_at st i))) li) a g
      (ap (λ (s : NameScope). is_block_kind s.kind) same ∙ is_block) (rw curs room)
      (handled-IsValid st i name h li v)
    ∙ ap suc curs
