-- ===== src/Vm/Growth.antt =====
-- `reserve` and `resize`: how far the operand stack grows, and what it keeps.
use ydsh.Prelude.{
  Bool-cases, List, [], ap, arith, false, get_or, if◌then◌else◌, inl, inr, length, length-append,
  length-replicate, length-take, ltb, none, refl, replicate, suc, take, zero, ℕ, ◌++◌, ◌+◌, ◌-◌,
  ◌/◌, ◌<◌, ◌∙◌, ◌∷◌, ◌≡◌, ◌≤◌,
}
use ydsh.Vm.{VmState, Value, grow, resize, reserve, top, operands_size, operand}

grow-suc :
    (fuel size after : ℕ)
    → grow (suc fuel) size after
      ≡ (if ltb size after then grow fuel (size + size / 2) after else size)
unfolding grow
grow-suc fuel size after = refl

grow-enough : (fuel size after : ℕ) → 2 ≤ size → after ≤ size + fuel → after ≤ grow fuel size after
grow-enough zero size after two le = unfold grow in omega arith
grow-enough (suc fuel) size after two le =
    rw (grow-suc fuel size after) (elim (Bool-cases (ltb size after)) [
      | inl e ↦ rw e (grow-enough fuel (size + size / 2) after (omega arith) (ground arith))
      | inr e ↦ rw e (ground arith)
    ])

grow-le : (fuel size after : ℕ) → size ≤ grow fuel size after
grow-le zero size after = unfold grow in omega arith
grow-le (suc fuel) size after =
    let k = grow-le fuel (size + size / 2) after in rw (grow-suc fuel size after) (ground arith)

-- The size stops growing as soon as it is the size that was asked for.
grow-stops : (fuel size : ℕ) → grow fuel size size ≡ size
grow-stops zero size = unfold grow in refl
grow-stops (suc fuel) size = unfold grow in (let e : ltb size size ≡ false = ground arith in rw e)

abbrev pub resized : ℕ → VmState → ℕ
resized after st = grow after (operands_size st + operands_size st / 2) after

operands_size-resize :
    (after : ℕ) (st : VmState)
    → top st < operands_size st
    → operands_size (resize after st) ≡ resized after st
unfolding resize
operands_size-resize after st lt =
    let le = grow-le after (operands_size st + operands_size st / 2) after in
    omega (
      arith,
      length-append (take (suc (top st)) st.operands)
          (replicate (resized after st - suc (top st)) none),
      length-take (suc (top st)) st.operands,
      length-replicate {A = Value} (resized after st - suc (top st)) none,
    )

get_or-take :
    (n i : ℕ) (xs ys : List Value)
    → i < n
    → n ≤ length xs
    → get_or (take n xs ++ ys) i none ≡ get_or xs i none
get_or-take zero i xs ys lt le = absurd (omega arith)
get_or-take (suc n) i [] ys lt le = absurd (omega arith)
get_or-take (suc n) zero (x ∷ xs) ys lt le = refl
get_or-take (suc n) (suc i) (x ∷ xs) ys lt le = get_or-take n i xs ys (omega arith) (omega arith)

operand-resize :
    (after i : ℕ) (st : VmState)
    → top st < operands_size st
    → i ≤ top st
    → operand (resize after st) i ≡ operand st i
unfolding resize
operand-resize after i st lt le =
    get_or-take (suc (top st)) i st.operands _ (omega arith) (omega arith)

-- A stack with a cell for its top, and large enough to grow.
abbrev pub Roomy : VmState → Type 0
Roomy st = (2 ≤ operands_size st) × (top st < operands_size st)

-- `reserve(n)` leaves room up to the index before `top + n`, and keeps every value of the stack.
pub reserve_lem :
    (n : ℕ) (st : VmState)
    → Roomy st
    → (top st + n ≤ operands_size (reserve n st))
      × (operands_size st ≤ operands_size (reserve n st))
      × ((i : ℕ) → i ≤ top st → operand (reserve n st) i ≡ operand st i)
unfolding reserve
reserve_lem n st (two, lt) = elim (Bool-cases (ltb (top st + n) (operands_size st))) [
  | inl e ↦ rw e (ground arith, ground arith, λ i le. refl)
  | inr e ↦
      let size = operands_size-resize (top st + n) st lt in
      let enough =
        grow-enough (top st + n) (operands_size st + operands_size st / 2) (top st + n)
          (omega arith) (omega arith) in
      let le = grow-le (top st + n) (operands_size st + operands_size st / 2) (top st + n) in
      rw e (rw size enough, rw size (omega arith), λ i h. operand-resize (top st + n) i st lt h)
]

-- Where one step of growth gives just the size that `reserve(n)` computes, the stack has no cell at
-- the index `top + n`, for which the same call asks otherwise.
pub reserve-short :
    (n : ℕ) (st : VmState)
    → Roomy st
    → operands_size st + operands_size st / 2 ≡ top st + n
    → operands_size (reserve n st) ≡ top st + n
unfolding reserve
reserve-short n st (two, lt) e =
    let full : ltb (top st + n) (operands_size st) ≡ false = ground arith in
    rw full (
      operands_size-resize (top st + n) st lt
      ∙ ap (λ s. grow (top st + n) s (top st + n)) e
      ∙ grow-stops (top st + n) (top st + n))

-- It changes the operands and nothing else.
pub reserve-eq :
    (n : ℕ) (st : VmState) → reserve n st ≡ record st { operands = (reserve n st).operands }
unfolding reserve resize
reserve-eq n st = elim (Bool-cases (ltb (top st + n) (operands_size st))) [
  | inl e ↦ rw e
  | inr e ↦ rw e
]
