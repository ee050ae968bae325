-- ===== src/Vm/Frames.antt =====
-- Calls: `wind` and `unwind`, and `nativeWind` and `nativeUnwind`.
use ydsh.Prelude.{
  Bool, Bool-cases, List, arith, false, get_or, inl, inr, length, none, refl, suc, sym, true, ℕ,
  ◌+◌, ◌-◌, ◌<◌, ◌==◌, ◌∙◌, ◌∷◌, ◌≡◌, ◌≢◌, ◌≤◌, ◌⊎◌, ap,
}
use mathlib.Core.Path.{subst}
use ydsh.Vm.Stack.{pop_while-eq, operand-pop_while, pop_while-clears, lower}
use ydsh.Vm.Growth.{Roomy, reserve_lem, reserve-eq}
use ydsh.Vm.{
  VmState, ControlFrame, Code, Value, top, operand, operands_size, wind, unwind, unwind_to, restore,
  enter, save_frame, saved_frame, reserve, native_wind, native_unwind, max_frame_size,
}

-- The frame that a call comes back to, with the recursion depth that the callee leaves.
abbrev pub back_in : ControlFrame → VmState → ControlFrame
back_in f st = record f { rec_depth = st.frame.rec_depth }

lower-le : (limit n : ℕ) → limit ≤ n → lower limit n ≡ limit
lower-le limit n le = ground arith

restore-frame :
    (f : ControlFrame) (fs : List ControlFrame) (st : VmState)
    → f.stack_top_index ≤ top st
    → (restore f fs st).frame ≡ back_in f st
restore-frame f fs st le =
    ap (λ (s : VmState). s.frame)
      (pop_while-eq (top st) f.stack_top_index
        (record st {
          frame = record f { stack_top_index = top st; rec_depth = st.frame.rec_depth };
        })
        (omega arith))
    ∙ ap (λ n. record f { stack_top_index = n; rec_depth = st.frame.rec_depth })
        (lower-le f.stack_top_index (top st) le)

-- The state to which a call comes back: the frame that was saved, and the stack below its top.
abbrev pub BackTo : ControlFrame → List ControlFrame → VmState → VmState → Type 0
BackTo f fs st back =
    (back.frame ≡ back_in f st)
    × (back.frames ≡ fs)
    × ((i : ℕ) → i ≤ f.stack_top_index → operand back i ≡ operand st i)
    × ((i : ℕ) → f.stack_top_index < i → i ≤ top st → operand back i ≡ none)

restore-BackTo :
    (f : ControlFrame) (fs : List ControlFrame) (st : VmState)
    → f.stack_top_index ≤ top st
    → BackTo f fs st (restore f fs st)
restore-BackTo f fs st le = (
  restore-frame f fs st le,
  refl,
  λ i h. operand-pop_while (top st) f.stack_top_index i _ h,
  λ i lt h. pop_while-clears (top st) f.stack_top_index i _ (omega arith) lt h,
)

wind-true :
    (offset params : ℕ) (code : Code) (st : VmState)
    → length st.frames ≢ max_frame_size
    → wind offset params code st ≡ (
      true,
      enter
          (suc (top st) - params)
          params
          code
          (reserve (code.local_var_num - params + code.stack_depth) (save_frame offset st)),
    )
unfolding wind
wind-true offset params code st ne =
    let room : (length st.frames == max_frame_size) ≡ false = ground arith in rw room

wind-frames :
    (offset params : ℕ) (code : Code) (st : VmState)
    → length st.frames ≢ max_frame_size
    → (wind offset params code st).1.frames ≡ saved_frame offset st ∷ st.frames
wind-frames offset params code st ne =
    ap (λ (r : Bool × VmState). r.1.frames) (wind-true offset params code st ne)
    ∙ ap (λ (s : VmState). s.frames) (reserve-eq _ (save_frame offset st))

-- A call that is made within the frame limit, and whose body ends with the frames that it was
-- entered with and a top not below the saved one, comes back to the caller: `unwind` restores its
-- code, its locals, its bottom and its pc, with the arguments popped, and keeps the values below.
pub unwind-wind :
    (offset params : ℕ) (code : Code) (st done : VmState)
    → length st.frames ≢ max_frame_size
    → done.frames ≡ (wind offset params code st).1.frames
    → top st - offset ≤ top done
    → BackTo (saved_frame offset st) st.frames done (unwind done)
unfolding unwind
unwind-wind offset params code st done ne same le =
    let e = same ∙ wind-frames offset params code st ne in
    subst (λ fs. BackTo (saved_frame offset st) st.frames done (unwind_to fs done)) (sym e)
      (restore-BackTo (saved_frame offset st) st.frames done le)

-- A state of the interpreter between two operations.
pub record IsValid (st : VmState) : Type 0 where
  pub roomy : Roomy st
  pub limited : length st.frames ≤ max_frame_size

-- A call of code that needs a stack, with no more parameters than locals or values on the stack.
pub record IsCall (params : ℕ) (code : Code) (st : VmState) : Type 0 where
  pub few : params ≤ code.local_var_num
  pub given : params ≤ suc (top st)
  pub needs : 0 < code.stack_depth

-- What a call sets up: the locals start at the parameters, the operand stack is empty and has room
-- for the depth of the code, but for one value, and the values below are kept.
abbrev pub Entered : ℕ → Code → VmState → VmState → Type 0
Entered params code st st' =
    (st'.frame.local_var_offset + params ≡ suc (top st))
    × (top st' ≡ st'.frame.stack_bottom_index)
    × (top st' ≡ top st + code.local_var_num - params)
    × (top st' + code.stack_depth ≤ operands_size st')
    × ((i : ℕ) → i ≤ top st → operand st' i ≡ operand st i)

called : ℕ → ℕ → Code → VmState → List Value → VmState
called offset params code st vs =
    enter (suc (top st) - params) params code (record (save_frame offset st) { operands = vs })

Good : ℕ → Code → VmState → VmState → Type 0
Good params code st st' = Entered params code st st' × IsValid st'

called-Good :
    (offset params : ℕ) (code : Code) (st : VmState) (vs : List Value)
    → length st.frames ≢ max_frame_size
    → IsValid st
    → IsCall params code st
    → top st + (code.local_var_num - params + code.stack_depth) ≤ length vs
    → operands_size st ≤ length vs
    → ((i : ℕ) → i ≤ top st → get_or vs i none ≡ operand st i)
    → Good params code st (called offset params code st vs)
unfolding called Good
called-Good offset params code st vs ne v c room more keeps =
    let few = c.few in
    let given = c.given in
    let needs = c.needs in
    let roomy = v.roomy in
    let limited = v.limited in
    (
      (omega arith, refl, omega arith, omega arith, keeps),
      record { roomy = (omega arith, omega arith); limited = omega arith },
    )

wind-called :
    (offset params : ℕ) (code : Code) (st : VmState)
    → length st.frames ≢ max_frame_size
    → (wind offset params code st).1
      ≡ called offset params code st
          (reserve (code.local_var_num - params + code.stack_depth) (save_frame offset st)).operands
unfolding called
wind-called offset params code st ne =
    ap (λ (r : Bool × VmState). r.1) (wind-true offset params code st ne)
    ∙ ap (enter (suc (top st) - params) params code) (reserve-eq _ (save_frame offset st))

entered :
    (offset params : ℕ) (code : Code) (st : VmState)
    → length st.frames ≢ max_frame_size
    → IsValid st
    → IsCall params code st
    → Good params code st (wind offset params code st).1
entered offset params code st ne v c =
    let (room, more, keeps) =
      reserve_lem (code.local_var_num - params + code.stack_depth) (save_frame offset st) v.roomy in
    subst (Good params code st) (sym (wind-called offset params code st ne))
      (called-Good offset params code st _ ne v c room more keeps)

wind-full :
    (offset params : ℕ) (code : Code) (st : VmState)
    → (length st.frames == max_frame_size) ≡ true
    → wind offset params code st ≡ (false, st)
unfolding wind
wind-full offset params code st e = rw e

-- `wind` refuses the call and changes nothing just at the frame limit; else it sets the call up, and
-- the state stays valid.
pub wind_lem :
    (offset params : ℕ) (code : Code) (st : VmState)
    → IsValid st
    → IsCall params code st
    → ((length st.frames ≡ max_frame_size) × (wind offset params code st ≡ (false, st)))
      ⊎ (((wind offset params code st).0 ≡ true)
          × Entered params code st (wind offset params code st).1
          × IsValid (wind offset params code st).1)
unfolding Good
wind_lem offset params code st v c = elim (Bool-cases (length st.frames == max_frame_size)) [
  | inl e ↦ inl (ground arith, wind-full offset params code st e)
  | inr e ↦
      let ne : length st.frames ≢ max_frame_size = ground arith in
      let (set_up, valid) = entered offset params code st ne v c in
      inr (ap (λ (r : Bool × VmState). r.0) (wind-true offset params code st ne), set_up, valid)
]

-- What a native call comes back to.
abbrev pub NativeBack : ℕ → VmState → VmState → VmState → Type 0
NativeBack params st done back =
    (back.frame ≡ record done.frame {
      stack_top_index = top st - params;
      stack_bottom_index = st.frame.stack_bottom_index;
      local_var_offset = st.frame.local_var_offset;
    })
    × (back.frames ≡ done.frames)
    × ((i : ℕ) → i ≤ top st - params → operand back i ≡ operand done i)

-- A native call whose body ends with a top not below its parameters comes back with the caller's
-- bottom and locals and the parameters popped, keeping the values below them.
pub native_unwind-native_wind :
    (params : ℕ) (st done : VmState)
    → top st - params ≤ top done
    → NativeBack params st done (native_unwind (native_wind params st).0 done)
unfolding native_wind native_unwind
native_unwind-native_wind params st done le =
    let stack = pop_while-eq (top done) (top st - params) done (omega arith) in
    (
      ap
            (λ (s : VmState). record s.frame {
              stack_bottom_index = st.frame.stack_bottom_index;
              local_var_offset = st.frame.local_var_offset;
            })
            stack
          ∙ ap
              (λ n. record done.frame {
                stack_top_index = n;
                stack_bottom_index = st.frame.stack_bottom_index;
                local_var_offset = st.frame.local_var_offset;
              })
              (lower-le (top st - params) (top done) le),
      ap (λ (s : VmState). s.frames) stack,
      λ i h. operand-pop_while (top done) (top st - params) i done h,
    )
