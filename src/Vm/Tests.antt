-- ===== src/Vm/Tests.antt =====
-- Tests of the interpreter state, and its theorems at concrete states.
use ydsh.Prelude.{[], arith, false, length, none, refl, replicate, some, true, ◌∷◌, ◌≡◌, ◌≤◌, ◌⊎◌}
use ydsh.Vm.{
  VmState, Code, top, operands_size, push, pop, put_operand, wind, unwind, reserve, saved_frame,
  no_frame, pop_while, pop_no_return,
}
use ydsh.Vm.Stack.{pop-push}
use ydsh.Vm.Growth.{reserve-short}
use ydsh.Vm.Frames.{IsValid, IsCall, Entered, BackTo, wind_lem, unwind-wind}

-- Two values on a stack of eight cells.
abbrev two_values : VmState
two_values = record {
  frame = record no_frame { stack_top_index = 2 };
  frames = [];
  operands = none ∷ some 5 ∷ some 6 ∷ replicate 5 none;
  thrown = some 9;
  saved_thrown = none;
}

-- A function of one parameter and three locals that needs two operands.
abbrev code : Code
code = record { id = 1; local_var_num = 3; stack_depth = 2 }

two_values-IsValid : IsValid two_values
two_values-IsValid = record { roomy = (omega arith, omega arith); limited = omega arith }

code-IsCall : IsCall 1 code two_values
code-IsCall = record { few = omega arith; given = omega arith; needs = omega arith }

calls : (wind 1 1 code two_values).0 ≡ true
unfolding wind
calls = refl

returns : top (unwind (wind 1 1 code two_values).1) ≡ 1
unfolding wind unwind reserve pop_while pop_no_return
returns = refl

pop-push_example : pop (push (some 7) two_values) ≡ (some 7, put_operand 3 none two_values)
pop-push_example = pop-push (some 7) two_values (omega arith)

-- 8 + 8 / 2 is 2 + 10.
reserve-short_example : operands_size (reserve 10 two_values) ≡ 12
reserve-short_example = reserve-short 10 two_values (omega arith) refl

wind_example :
    ((length two_values.frames ≡ 2048) × (wind 1 1 code two_values ≡ (false, two_values)))
    ⊎ (((wind 1 1 code two_values).0 ≡ true)
        × Entered 1 code two_values (wind 1 1 code two_values).1
        × IsValid (wind 1 1 code two_values).1)
wind_example = wind_lem 1 1 code two_values two_values-IsValid code-IsCall

enters : 1 ≤ top (push (some 7) (wind 1 1 code two_values).1)
unfolding wind push
enters = omega arith

frames-push :
    (push (some 7) (wind 1 1 code two_values).1).frames ≡ (wind 1 1 code two_values).1.frames
unfolding push
frames-push = refl

unwind-wind_example :
    BackTo
      (saved_frame 1 two_values)
      []
      (push (some 7) (wind 1 1 code two_values).1)
      (unwind (push (some 7) (wind 1 1 code two_values).1))
unwind-wind_example =
    unwind-wind 1 1 code two_values (push (some 7) (wind 1 1 code two_values).1) (λ e. omega arith)
      frames-push enters
