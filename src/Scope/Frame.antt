-- ===== src/Scope/Frame.antt =====
-- The frame of a function has room for every local variable that is defined in its blocks.
use ydsh.Prelude.{
  Bool-cases, [], ap, arith, false, get_or-append, get_or-append_last, inl, inr, length,
  length-append, lt_or_le, refl, sym, true, ℕ, ◌++◌, ◌<◌, ◌∙◌, ◌∷◌, ◌≡◌, ◌≤◌, ◌⊎◌,
}
use mathlib.Core.Path.{subst}
use ydsh.Scope.Naming.{Name}
use ydsh.Scope.Added.{added, add-cases, part-added, length-scopes-added}
use ydsh.Scope.Locals.{CountsFor, ScopeValid, IsValid, Grows, ScopeValid-Grows, kind_at, cur_at}
use ydsh.Scope.Indices.{Addable, add-IsValid, cur-added}
use ydsh.Scope.{
  Kind, global, func, block, Store, ScopeId, NameScope, FieldHandle, FieldAttribute, CountRef, gvar,
  local_index, NameLookupResult, ok, scope_at, no_scope, add, add_new_handle, new_handle,
  define_handle, defined_in_builtin, enter_scope, new_scope, is_allowed_scope_pair, count_of,
  is_block_kind, is_global_kind, limit_local_num, get_max_local_var_index,
}

-- The store after a new scope was entered.
abbrev entered : Store → NameScope → Store
entered st s = record st { scopes = st.scopes ++ s ∷ [] }

scope_at-entered_old :
    (st : Store) (s : NameScope) (k : ScopeId)
    → k < length st.scopes
    → scope_at (entered st s) k ≡ scope_at st k
scope_at-entered_old st s k lt = get_or-append st.scopes (s ∷ []) k no_scope lt

entered-Grows : (st : Store) (s : NameScope) → Grows st (entered st s)
entered-Grows st s = record {
  kinds = λ k lt. ap (λ (x : NameScope). x.kind) (scope_at-entered_old st s k lt);
  lengths = omega (arith, length-append st.scopes (s ∷ []));
  counts = λ k lt no_block.
      let e = ap (λ (x : NameScope). x.cur_local_index) (scope_at-entered_old st s k lt) in
      omega arith;
}

CountsFor-same :
    (st : Store) (s t : NameScope) (r : CountRef)
    → is_block_kind s.kind ≡ is_block_kind t.kind
    → t.cur_local_index ≤ s.cur_local_index
    → CountsFor st s r
    → CountsFor st t r
CountsFor-same st s t gvar k le c = sym k ∙ c
CountsFor-same st s t (local_index j) k le (is_block, no_block, lj, below) =
    (sym k ∙ is_block, no_block, lj, omega arith)

-- The parent's kind p and the child's are an allowed pair.
new_scope-ScopeValid :
    (st : Store) (i : ScopeId) (p child : Kind)
    → kind_at st i ≡ p
    → i < length st.scopes
    → ScopeValid st (scope_at st i)
    → is_allowed_scope_pair p child ≡ true
    → ScopeValid st (new_scope st i p child)
unfolding is_allowed_scope_pair
new_scope-ScopeValid st i block block e lt (c, limited, sized) allowed = (
  CountsFor-same st (scope_at st i) (new_scope st i block block) (scope_at st i).max_var_count
      (ap is_block_kind e) (omega arith) c,
  limited,
  omega arith,
)
new_scope-ScopeValid st i global func e lt (c, limited, sized) allowed = (
  CountsFor-same st (scope_at st i) (new_scope st i global func) (scope_at st i).max_var_count
      (ap is_block_kind e) (omega arith) c,
  omega arith,
  omega arith,
)
new_scope-ScopeValid st i global block e lt v allowed =
    ((refl, ap is_block_kind e, lt, omega arith), omega arith, omega arith)
new_scope-ScopeValid st i func block e lt v allowed =
    ((refl, ap is_block_kind e, lt, omega arith), omega arith, omega arith)
new_scope-ScopeValid st i global global e lt v allowed = absurd (cc)
new_scope-ScopeValid st i func global e lt v allowed = absurd (cc)
new_scope-ScopeValid st i func func e lt v allowed = absurd (cc)
new_scope-ScopeValid st i block global e lt v allowed = absurd (cc)
new_scope-ScopeValid st i block func e lt v allowed = absurd (cc)

entered-IsValid :
    (st : Store) (s : NameScope) → ScopeValid st s → IsValid st → IsValid (entered st s)
entered-IsValid st s new v k lt =
    let grows = entered-Grows st s in
    elim (lt_or_le k (length st.scopes)) [
      | inl old ↦
          subst (ScopeValid (entered st s)) (sym (scope_at-entered_old st s k old))
            (ScopeValid-Grows st (entered st s) (scope_at st k) grows (v k old))
      | inr last ↦
          let place : k ≡ length st.scopes = omega (arith, length-append st.scopes (s ∷ [])) in
          subst (ScopeValid (entered st s))
            (sym (ap (scope_at (entered st s)) place ∙ get_or-append_last st.scopes s no_scope))
            (ScopeValid-Grows st (entered st s) s grows new)
    ]

-- Entering a scope keeps the counters valid: a block starts at the index of the block around it, and
-- counts for the same function.
pub enter_scope-IsValid :
    (st : Store) (i : ScopeId) (kind : Kind)
    → i < length st.scopes
    → IsValid st
    → IsValid (enter_scope st i kind).1
unfolding enter_scope
enter_scope-IsValid st i kind lt v = elim (Bool-cases (is_allowed_scope_pair (kind_at st i) kind)) [
  | inl e ↦ rw e (
      entered-IsValid st (new_scope st i (kind_at st i) kind)
        (new_scope-ScopeValid st i (kind_at st i) kind refl lt (v i lt) e) v)
  | inr e ↦ rw e v
]

-- What a definition in a block answers: a refusal, or a variable whose index is the block's next
-- one, below 255 and below the number of locals that the function's frame has.
abbrev pub Indexed : Store → ScopeId → NameLookupResult × Store → Type 0
Indexed st i r =
    (r.1 ≡ st)
    ⊎ ((h : FieldHandle) × (r.0 ≡ ok h)
        × (h.index ≡ cur_at st i)
        × (h.index < limit_local_num)
        × (h.index < get_max_local_var_index r.1 i))

block-no_global : (k : Kind) → is_block_kind k ≡ true → is_global_kind k ≡ false
block-no_global global e = absurd (cc)
block-no_global func e = refl
block-no_global block e = refl

addable :
    (st : Store) (i : ScopeId) (h : FieldHandle)
    → i < length st.scopes
    → is_block_kind (kind_at st i) ≡ true
    → h.attr.is_global ≡ false
    → Addable st i h
addable st i h lt is_block g =
    let no = block-no_global (kind_at st i) is_block in (lt, g ∙ sym no, rw (no, is_block))

count-above :
    (st : Store) (s : NameScope) (r : CountRef)
    → is_block_kind s.kind ≡ true
    → CountsFor st s r
    → s.cur_local_index ≤ count_of st r
count-above st s gvar is_block c = absurd (cc)
count-above st s (local_index j) is_block (_, _, _, le) = le

cur-le-max :
    (st : Store) (i : ScopeId)
    → i < length st.scopes
    → is_block_kind (kind_at st i) ≡ true
    → IsValid st
    → cur_at st i ≤ get_max_local_var_index st i
unfolding get_max_local_var_index
cur-le-max st i lt is_block v =
    rw is_block (count-above st (scope_at st i) (scope_at st i).max_var_count is_block (v i lt).0)

add-Indexed :
    (st : Store) (i : ScopeId) (name : Name) (h : FieldHandle)
    → i < length st.scopes
    → is_block_kind (kind_at st i) ≡ true
    → h.attr.is_global ≡ false
    → h.attr.alias ≡ false
    → h.index ≡ cur_at st i
    → IsValid st
    → Indexed st i (add st i name h)
add-Indexed st i name h lt is_block g a e v = elim (add-cases st i name h) [
  | inl (x, r) ↦ inl (ap (λ p. p.1) r)
  | inr (r, fresh, room) ↦
      let (_, limited, _) = v i lt in
      let left : cur_at st i < limit_local_num = ground arith in
      let next = cur-added st i name h lt a g is_block left v in
      let valid =
        subst (λ p. IsValid p.1) r (add-IsValid st i name h (addable st i h lt is_block g) v) in
      let inside =
        cur-le-max (added st i name h) i (rw (length-scopes-added st i name h) lt)
          (ap is_block_kind (part-added (λ s. s.kind) (λ s n m. refl) (λ s hs. refl) st i i name h)
            ∙ is_block)
          valid in
      inr (
        h,
        ap (λ p. p.0) r,
        e,
        omega arith,
        subst (λ p. h.index < get_max_local_var_index p.1 i) (sym r) (omega arith),
      )
]

-- A variable that is defined in a block gets the block's next index, which is below 255 and below
-- the size of the function's frame; or the definition is refused and changes nothing. The counters
-- stay valid.
pub define_handle-Indexed :
    (st : Store) (i : ScopeId) (name : Name) (type_id : ℕ) (attr : FieldAttribute)
    → i < length st.scopes
    → kind_at st i ≡ block
    → attr.alias ≡ false
    → IsValid st
    → Indexed st i (define_handle st i name type_id attr)
      × IsValid (define_handle st i name type_id attr).1
unfolding define_handle add_new_handle
define_handle-Indexed st i name type_id attr lt is_block a v =
    let block_kind = ap is_block_kind is_block in
    let no_global = ap is_global_kind is_block in
    let h = new_handle st i type_id attr in
    elim (Bool-cases (defined_in_builtin st i name)) [
      | inl e ↦ rw e (inl refl, v)
      | inr e ↦ rw e (
        add-Indexed st i name h lt block_kind no_global a (rw no_global) v,
        add-IsValid st i name h (addable st i h lt block_kind no_global) v,
      )
    ]
