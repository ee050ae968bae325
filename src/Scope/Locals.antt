-- ===== src/Scope/Locals.antt =====
-- The counters of local variables: the invariant, and a block that counts one more variable.
use ydsh.Prelude.{
  Bool-cases, ap, arith, false, if◌then◌else◌, inl, inr, length, length-set, ltb, suc, sym, true, ℕ,
  ◌<◌, ◌==◌, ◌∙◌, ◌≡◌, ◌≢◌, ◌≤◌,
}
use mathlib.Core.Path.{subst}
use ydsh.Scope.Added.{scope_at-put_scope_self, scope_at-put_scope_ne}
use ydsh.Scope.{
  Kind, Store, ScopeId, NameScope, CountRef, gvar, local_index, scope_at, put_scope, raise,
  one_more_local, is_block_kind, limit_local_num,
}

-- A block counts into the index of a scope that is no block, which is not below its own; any other
-- scope counts the global variables.
abbrev pub CountsFor : Store → NameScope → CountRef → Type 0
CountsFor st s gvar = is_block_kind s.kind ≡ false
CountsFor st s (local_index j) =
    (is_block_kind s.kind ≡ true)
    × (is_block_kind (scope_at st j).kind ≡ false)
    × (j < length st.scopes)
    × (s.cur_local_index ≤ (scope_at st j).cur_local_index)

abbrev pub ScopeValid : Store → NameScope → Type 0
ScopeValid st s =
    CountsFor st s s.max_var_count
    × (s.cur_local_index ≤ limit_local_num)
    × (s.local_size ≤ s.cur_local_index)

abbrev pub IsValid : Store → Type 0
IsValid st = (i : ScopeId) → i < length st.scopes → ScopeValid st (scope_at st i)

abbrev pub kind_at : Store → ScopeId → Kind
kind_at st i = (scope_at st i).kind

abbrev pub cur_at : Store → ScopeId → ℕ
cur_at st i = (scope_at st i).cur_local_index

-- No scope is lost, no kind changes, and the indices of the scopes that are no block only grow.
pub record Grows (st st' : Store) : Type 0 where
  pub kinds : (i : ScopeId) → i < length st.scopes → kind_at st' i ≡ kind_at st i
  pub lengths : length st.scopes ≤ length st'.scopes
  pub counts :
      (i : ScopeId)
      → i < length st.scopes
      → is_block_kind (kind_at st i) ≡ false
      → cur_at st i ≤ cur_at st' i

CountsFor-Grows :
    (st st' : Store) (s : NameScope) (r : CountRef)
    → Grows st st'
    → CountsFor st s r
    → CountsFor st' s r
CountsFor-Grows st st' s gvar g c = c
CountsFor-Grows st st' s (local_index j) g (is_block, no_block, lt, le) =
    let longer = g.lengths in
    let more = g.counts j lt no_block in
    (is_block, ap is_block_kind (g.kinds j lt) ∙ no_block, omega arith, omega arith)

pub ScopeValid-Grows :
    (st st' : Store) (s : NameScope) → Grows st st' → ScopeValid st s → ScopeValid st' s
ScopeValid-Grows st st' s g (c, limited, sized) =
    (CountsFor-Grows st st' s s.max_var_count g c, limited, sized)

-- The store after a block counted one more local variable.
abbrev pub one_more : Store → ScopeId → ScopeId → Store
one_more st i j =
    raise (local_index j) (suc (cur_at st i)) (put_scope i (one_more_local (scope_at st i)) st)

raise_ne :
    (st : Store) (j k : ScopeId) (n : ℕ)
    → k ≢ j
    → scope_at (raise (local_index j) n st) k ≡ scope_at st k
raise_ne st j k n ne = elim (Bool-cases (ltb (cur_at st j) n)) [
  | inl e ↦ rw e (scope_at-put_scope_ne st j k _ ne)
  | inr e ↦ rw e
]

raise_self :
    (st : Store) (j : ScopeId) (n : ℕ)
    → j < length st.scopes
    → scope_at (raise (local_index j) n st) j
      ≡ record (scope_at st j) { cur_local_index = if ltb (cur_at st j) n then n else cur_at st j }
raise_self st j n lt = elim (Bool-cases (ltb (cur_at st j) n)) [
  | inl e ↦ rw e (scope_at-put_scope_self st j _ lt)
  | inr e ↦ rw e
]

length-raise :
    (st : Store) (j : ScopeId) (n : ℕ)
    → length (raise (local_index j) n st).scopes ≡ length st.scopes
length-raise st j n = elim (Bool-cases (ltb (cur_at st j) n)) [
  | inl e ↦ rw e (length-set st.scopes j _)
  | inr e ↦ rw e
]

-- A block i that counts for the scope j.
abbrev pub Counting : Store → ScopeId → ScopeId → Type 0
Counting st i j =
    (i < length st.scopes)
    × (j < length st.scopes)
    × (i ≢ j)
    × (is_block_kind (kind_at st j) ≡ false)
    × (cur_at st i < limit_local_num)

pub one_more_self :
    (st : Store) (i j : ScopeId)
    → Counting st i j
    → scope_at (one_more st i j) i ≡ one_more_local (scope_at st i)
one_more_self st i j (li, lj, ne, no_block, room) =
    raise_ne (put_scope i (one_more_local (scope_at st i)) st) j i _ ne
    ∙ scope_at-put_scope_self st i _ li

one_more-counter :
    (st : Store) (i j : ScopeId)
    → Counting st i j
    → scope_at (one_more st i j) j ≡ record (scope_at st j) {
      cur_local_index =
          if ltb (cur_at st j) (suc (cur_at st i)) then suc (cur_at st i) else cur_at st j;
    }
one_more-counter st i j (li, lj, ne, no_block, room) =
    raise_self (put_scope i (one_more_local (scope_at st i)) st) j (suc (cur_at st i))
      (rw (length-set st.scopes i (one_more_local (scope_at st i))) lj)
    ∙ ap
        (λ (s : NameScope). record s {
          cur_local_index =
              if ltb s.cur_local_index (suc (cur_at st i))
              then suc (cur_at st i)
              else s.cur_local_index;
        })
        (scope_at-put_scope_ne st i j _ (λ e. ne (sym e)))

one_more_other :
    (st : Store) (i j k : ScopeId) → k ≢ i → k ≢ j → scope_at (one_more st i j) k ≡ scope_at st k
one_more_other st i j k ni nj =
    raise_ne (put_scope i (one_more_local (scope_at st i)) st) j k _ nj
    ∙ scope_at-put_scope_ne st i k _ ni

pub length-one_more :
    (st : Store) (i j : ScopeId) → length (one_more st i j).scopes ≡ length st.scopes
length-one_more st i j =
    length-raise (put_scope i (one_more_local (scope_at st i)) st) j _ ∙ length-set st.scopes i _

-- The three places a scope can have in such a step.
data Place (i j k : ScopeId) : Type 0 where
  at_block : k ≡ i → Place i j k
  at_counter : k ≡ j → Place i j k
  elsewhere : k ≢ i → k ≢ j → Place i j k

place : (i j k : ScopeId) → Place i j k
place i j k = elim (Bool-cases (k == i)) [
  | inl e ↦ at_block (ground arith)
  | inr e ↦ elim (Bool-cases (k == j)) [
    | inl f ↦ at_counter (ground arith)
    | inr f ↦ elsewhere (ground arith) (ground arith)
  ]
]

-- A scope that is no block counts globals, so its index may grow.
counter-ScopeValid :
    (st : Store) (s : NameScope) (r : CountRef) (n : ℕ)
    → is_block_kind s.kind ≡ false
    → CountsFor st s r
    → CountsFor st (record s { cur_local_index = n }) r
counter-ScopeValid st s gvar n no_block c = c
counter-ScopeValid st s (local_index j) n no_block (is_block, _, _, _) = absurd (cc)

kinds-one_more :
    (st : Store) (i j k : ScopeId) → Counting st i j → kind_at (one_more st i j) k ≡ kind_at st k
kinds-one_more st i j k c = elim (place i j k) [
  | at_block e ↦ rw e (ap (λ (s : NameScope). s.kind) (one_more_self st i j c))
  | at_counter e ↦ rw e (ap (λ (s : NameScope). s.kind) (one_more-counter st i j c))
  | elsewhere ni nj ↦ ap (λ (s : NameScope). s.kind) (one_more_other st i j k ni nj)
]

counts-one_more :
    (st : Store) (i j k : ScopeId) → Counting st i j → cur_at st k ≤ cur_at (one_more st i j) k
counts-one_more st i j k c = elim (place i j k) [
  | at_block e ↦
      let n = ap (λ (s : NameScope). s.cur_local_index) (one_more_self st i j c) in
      rw (e, n) (omega arith)
  | at_counter e ↦
      let n = ap (λ (s : NameScope). s.cur_local_index) (one_more-counter st i j c) in
      rw (e, n) (ground arith)
  | elsewhere ni nj ↦
      let n = ap (λ (s : NameScope). s.cur_local_index) (one_more_other st i j k ni nj) in
      rw n (omega arith)
]

one_more-Grows : (st : Store) (i j : ScopeId) → Counting st i j → Grows st (one_more st i j)
one_more-Grows st i j c =
    let e = length-one_more st i j in
    record {
      kinds = λ k lt. kinds-one_more st i j k c;
      lengths = omega arith;
      counts = λ k lt no_block. counts-one_more st i j k c;
    }

pub counter-above :
    (st : Store) (i j : ScopeId) → Counting st i j → suc (cur_at st i) ≤ cur_at (one_more st i j) j
counter-above st i j c =
    let n = ap (λ (s : NameScope). s.cur_local_index) (one_more-counter st i j c) in
    rw n (ground arith)

one_more-block :
    (st : Store) (i j : ScopeId)
    → Counting st i j
    → is_block_kind (kind_at st i) ≡ true
    → (scope_at st i).max_var_count ≡ local_index j
    → ScopeValid st (scope_at st i)
    → ScopeValid (one_more st i j) (one_more_local (scope_at st i))
one_more-block st i j (li, lj, ne, no_block, room) is_block ref (_, limited, sized) =
    let c : Counting st i j = (li, lj, ne, no_block, room) in
    (
      subst (CountsFor (one_more st i j) (one_more_local (scope_at st i))) (sym ref) (
        is_block,
        ap is_block_kind (kinds-one_more st i j j c) ∙ no_block,
        rw (length-one_more st i j) lj,
        counter-above st i j c,
      ),
      room,
      omega arith,
    )

one_more-count :
    (st : Store) (i j : ScopeId)
    → Counting st i j
    → ScopeValid st (scope_at st j)
    → ScopeValid (one_more st i j) (scope_at (one_more st i j) j)
one_more-count st i j c (counting, limited, sized) =
    let (_, _, _, no_block, room) = c in
    subst (ScopeValid (one_more st i j)) (sym (one_more-counter st i j c)) (
      counter-ScopeValid (one_more st i j) (scope_at st j) (scope_at st j).max_var_count _ no_block
          (CountsFor-Grows st (one_more st i j) (scope_at st j) (scope_at st j).max_var_count
            (one_more-Grows st i j c) counting),
      ground arith,
      ground arith,
    )

pub one_more-IsValid :
    (st : Store) (i j : ScopeId)
    → Counting st i j
    → is_block_kind (kind_at st i) ≡ true
    → (scope_at st i).max_var_count ≡ local_index j
    → IsValid st
    → IsValid (one_more st i j)
one_more-IsValid st i j c is_block ref v k lt = elim (place i j k) [
  | at_block e ↦
      subst (ScopeValid (one_more st i j))
        (sym (ap (scope_at (one_more st i j)) e ∙ one_more_self st i j c))
        (one_more-block st i j c is_block ref (v i c.0))
  | at_counter e ↦
      subst (λ s. ScopeValid (one_more st i j) s) (sym (ap (scope_at (one_more st i j)) e))
        (one_more-count st i j c (v j c.1))
  | elsewhere ni nj ↦ subst (ScopeValid (one_more st i j)) (sym (one_more_other st i j k ni nj)) (
      ScopeValid-Grows st (one_more st i j) (scope_at st k) (one_more-Grows st i j c)
        (v k (rw (sym (length-one_more st i j)) lt)))
]
