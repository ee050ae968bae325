-- ===== src/Vm/Stack.antt =====
-- The operand stack: pushes, pops, and the loops that pop down to an index.
use ydsh.Prelude.{
  Bool-cases, List, [], ap, arith, false, get_or, get_or-set_ne, get_or-set_self, if◌then◌else◌,
  inl, inr, ltb, none, refl, set, suc, sym, true, zero, ℕ, ◌-◌, ◌<◌, ◌==◌, ◌∙◌, ◌∷◌, ◌≡◌, ◌≢◌, ◌≤◌,
  set-set,
}
use ydsh.Vm.{
  VmState, Value, top, operand, operands_size, set_top, put_operand, push, pop, pop_no_return,
  pop_while,
}

-- The state with another top and other values.
abbrev pub with_stack : ℕ → List Value → VmState → VmState
with_stack n vs st = set_top n (record st { operands = vs })

abbrev pub lower : ℕ → ℕ → ℕ
lower limit n = if ltb limit n then limit else n

pop_while-above :
    (fuel limit : ℕ) (st : VmState)
    → ltb limit (top st) ≡ true
    → pop_while (suc fuel) limit st ≡ pop_while fuel limit (pop_no_return st)
unfolding pop_while
pop_while-above fuel limit st e = rw e

pop_while-below :
    (fuel limit : ℕ) (st : VmState) → ltb limit (top st) ≡ false → pop_while fuel limit st ≡ st
unfolding pop_while
pop_while-below zero limit st e = refl
pop_while-below (suc fuel) limit st e = rw e

top-pop_no_return : (fuel : ℕ) (st : VmState) → top st ≤ suc fuel → top (pop_no_return st) ≤ fuel
unfolding pop_no_return
top-pop_no_return fuel st le = omega arith

with_stack-pop :
    (limit : ℕ) (st : VmState) (vs : List Value)
    → ltb limit (top st) ≡ true
    → with_stack (lower limit (top (pop_no_return st))) vs (pop_no_return st)
      ≡ with_stack (lower limit (top st)) vs st
unfolding pop_no_return
with_stack-pop limit st vs e =
    let same : lower limit (top st - 1) ≡ lower limit (top st) = ground arith in
    ap (λ n. with_stack n vs st) same

with_stack-same :
    (limit : ℕ) (st : VmState)
    → ltb limit (top st) ≡ false
    → st ≡ with_stack (lower limit (top st)) st.operands st
with_stack-same limit st e =
    let same : top st ≡ lower limit (top st) = ground arith in
    ap (λ n. with_stack n st.operands st) same

-- The loop changes the top and the values above the limit, and nothing else.
pub pop_while-eq :
    (fuel limit : ℕ) (st : VmState)
    → top st ≤ fuel
    → pop_while fuel limit st
      ≡ with_stack (lower limit (top st)) (pop_while fuel limit st).operands st
pop_while-eq zero limit st le =
    let e : top st ≡ lower limit (top st) = ground arith in
    unfold pop_while in ap (λ n. with_stack n st.operands st) e
pop_while-eq (suc fuel) limit st le = elim (Bool-cases (ltb limit (top st))) [
  | inl e ↦
      let step = pop_while-above fuel limit st e in
      let down = pop_while-eq fuel limit (pop_no_return st) (top-pop_no_return fuel st le) in
      step
      ∙ down
      ∙ with_stack-pop limit st _ e
      ∙ ap (λ (s : VmState). with_stack (lower limit (top st)) s.operands st) (sym step)
  | inr e ↦
      let stop = pop_while-below (suc fuel) limit st e in
      stop
      ∙ with_stack-same limit st e
      ∙ ap (λ (s : VmState). with_stack (lower limit (top st)) s.operands st) (sym stop)
]

operand-pop_ne : (st : VmState) (i : ℕ) → i ≢ top st → operand (pop_no_return st) i ≡ operand st i
unfolding pop_no_return
operand-pop_ne st i ne = get_or-set_ne st.operands (top st) i none none ne

get_or-set-none : (xs : List Value) (i : ℕ) → get_or (set xs i none) i none ≡ none
get_or-set-none [] i = refl
get_or-set-none (x ∷ xs) zero = refl
get_or-set-none (x ∷ xs) (suc i) = get_or-set-none xs i

operand-pop_self : (st : VmState) → operand (pop_no_return st) (top st) ≡ none
unfolding pop_no_return
operand-pop_self st = get_or-set-none st.operands (top st)

-- The loop keeps the values up to the limit, and empties those above it.
pub operand-pop_while :
    (fuel limit i : ℕ) (st : VmState)
    → i ≤ limit
    → operand (pop_while fuel limit st) i ≡ operand st i
operand-pop_while zero limit i st le = unfold pop_while in refl
operand-pop_while (suc fuel) limit i st le = elim (Bool-cases (ltb limit (top st))) [
  | inl e ↦
      ap (λ s. operand s i) (pop_while-above fuel limit st e)
      ∙ operand-pop_while fuel limit i (pop_no_return st) le
      ∙ operand-pop_ne st i (ground arith)
  | inr e ↦ ap (λ s. operand s i) (pop_while-below (suc fuel) limit st e)
]

beyond_top : (st : VmState) (i : ℕ) → (0 < i) × (top st ≤ i) → top (pop_no_return st) < i
unfolding pop_no_return
beyond_top st i h = omega arith

-- Values beyond the top are not touched.
operand-pop_while_beyond :
    (fuel limit i : ℕ) (st : VmState)
    → top st < i
    → operand (pop_while fuel limit st) i ≡ operand st i
operand-pop_while_beyond zero limit i st lt = unfold pop_while in refl
operand-pop_while_beyond (suc fuel) limit i st lt = elim (Bool-cases (ltb limit (top st))) [
  | inl e ↦
      ap (λ s. operand s i) (pop_while-above fuel limit st e)
      ∙ operand-pop_while_beyond fuel limit i (pop_no_return st) (beyond_top st i (omega arith))
      ∙ operand-pop_ne st i (omega arith)
  | inr e ↦ ap (λ s. operand s i) (pop_while-below (suc fuel) limit st e)
]

below_top : (st : VmState) (i : ℕ) → i ≤ top st → i ≢ top st → i ≤ top (pop_no_return st)
unfolding pop_no_return
below_top st i le ne = omega arith

pub pop_while-clears :
    (fuel limit i : ℕ) (st : VmState)
    → top st ≤ fuel
    → limit < i
    → i ≤ top st
    → operand (pop_while fuel limit st) i ≡ none
pop_while-clears zero limit i st le lt h = absurd (omega arith)
pop_while-clears (suc fuel) limit i st le lt h =
    let e : ltb limit (top st) ≡ true = ground arith in
    ap (λ s. operand s i) (pop_while-above fuel limit st e) ∙ elim (Bool-cases (i == top st)) [
      | inl at_top ↦
          let same : i ≡ top st = ground arith in
          operand-pop_while_beyond fuel limit i (pop_no_return st) (beyond_top st i (omega arith))
          ∙ ap (operand (pop_no_return st)) same
          ∙ operand-pop_self st
      | inr below ↦
          pop_while-clears fuel limit i (pop_no_return st) (top-pop_no_return fuel st le) lt
            (below_top st i h (ground arith))
    ]

-- A value that was pushed into a cell of the stack is popped, and the stack is as before, but for
-- the cell, which is empty.
pub pop-push :
    (v : Value) (st : VmState)
    → suc (top st) < operands_size st
    → pop (push v st) ≡ (v, put_operand (suc (top st)) none st)
unfolding pop push
pop-push v st lt =
    let down : suc (top st) - 1 ≡ top st = omega arith in
    ap
      (λ a. (
        a,
        set_top (suc (top st) - 1)
            (record st { operands = set (set st.operands (suc (top st)) v) (suc (top st)) none }),
      ))
      (get_or-set_self st.operands (suc (top st)) v none lt)
    ∙ ap (λ vs. (v, set_top (suc (top st) - 1) (record st { operands = vs })))
        (set-set st.operands (suc (top st)) v none)
    ∙ ap (λ n. (v, set_top n (put_operand (suc (top st)) none st))) down
