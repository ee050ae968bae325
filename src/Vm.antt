-- ===== src/Vm.antt =====
-- src/state.h and src/state.cpp: `VMState`, the frames and the operand stack of the interpreter. A
-- value is opaque: the id of an object, or `none` for the empty `DSValue` that a reset or a move
-- leaves. Indices are unsigned in the code; no operation is used where one would be below 0.
use ydsh.Prelude.{
  Bool, List, Option, [], false, get_or, if◌then◌else◌, length, ltb, none, not, replicate, set,
  some, suc, take, true, zero, ℕ, ◌++◌, ◌+◌, ◌-◌, ◌/◌, ◌==◌, ◌∷◌,
}
pub mod Stack
pub mod Growth
pub mod Frames
pub mod Thrown
mod Tests

abbrev pub Value : Type 0
Value = Option ℕ

-- What `wind` reads of a `DSCode`.
pub record Code : Type 0 where
  id : ℕ
  local_var_num : ℕ
  stack_depth : ℕ

pub record ControlFrame : Type 0 where
  code : Option Code
  stack_top_index : ℕ
  stack_bottom_index : ℕ
  local_var_offset : ℕ
  pc : ℕ
  rec_depth : ℕ

-- `frames` has the last frame in front; `operandsSize` is the length of `operands`.
pub record VmState : Type 0 where
  frame : ControlFrame
  frames : List ControlFrame
  operands : List Value
  thrown : Value
  saved_thrown : Value

abbrev pub max_frame_size : ℕ
max_frame_size = 2048

abbrev pub recursion_limit : ℕ
recursion_limit = 256

abbrev pub no_frame : ControlFrame
no_frame = record {
  code = none;
  stack_top_index = 0;
  stack_bottom_index = 0;
  local_var_offset = 0;
  pc = 0;
  rec_depth = 0;
}

unfoldable pub new_state : VmState
new_state = record {
  frame = no_frame;
  frames = [];
  operands = replicate 64 none;
  thrown = none;
  saved_thrown = none;
}

abbrev pub top : VmState → ℕ
top st = st.frame.stack_top_index

abbrev pub operands_size : VmState → ℕ
operands_size st = length st.operands

abbrev pub operand : VmState → ℕ → Value
operand st i = get_or st.operands i none

abbrev pub put_operand : ℕ → Value → VmState → VmState
put_operand i v st = record st { operands = set st.operands i v }

abbrev pub set_top : ℕ → VmState → VmState
set_top n st = record st { frame = record st.frame { stack_top_index = n } }

unfoldable pub peek : VmState → Value
peek st = operand st (top st)

unfoldable pub peek_by_offset : ℕ → VmState → Value
peek_by_offset offset st = operand st (top st - offset)

unfoldable pub push : Value → VmState → VmState
push v st = set_top (suc (top st)) (put_operand (suc (top st)) v st)

unfoldable pub pop : VmState → Value × VmState
pop st = (operand st (top st), set_top (top st - 1) (put_operand (top st) none st))

unfoldable pub pop_no_return : VmState → VmState
pop_no_return st = set_top (top st - 1) (put_operand (top st) none st)

unfoldable pub dup : VmState → VmState
dup st = push (peek st) st

unfoldable pub dup_2 : VmState → VmState
dup_2 st = push (peek st) (push (peek_by_offset 1 st) st)

unfoldable pub swap : VmState → VmState
swap st = put_operand (top st - 1) (peek st) (put_operand (top st) (peek_by_offset 1 st) st)

-- `while (stackTopIndex > limit) popNoReturn();` on fuel: the index falls at each step, so it is
-- fuel enough.
unfoldable pub pop_while : ℕ → ℕ → VmState → VmState
pop_while zero limit st = st
pop_while (suc fuel) limit st =
    let rest = pop_while fuel limit (pop_no_return st) in if ltb limit (top st) then rest else st

unfoldable pub clear_operands : VmState → VmState
clear_operands st = pop_while (top st) st.frame.stack_bottom_index st

-- The loop runs down from the last of `size` locals.
unfoldable pub reclaim_from : ℕ → ℕ → VmState → VmState
reclaim_from limit zero st = st
reclaim_from limit (suc n) st = reclaim_from limit n (put_operand (limit + n) none st)

unfoldable pub reclaim_locals : ℕ → ℕ → VmState → VmState
reclaim_locals offset size st = reclaim_from (st.frame.local_var_offset + offset) size st

abbrev pub is_valid : Value → Bool
is_valid none = false
is_valid (some v) = true

unfoldable pub has_error : VmState → Bool
has_error st = is_valid st.thrown

unfoldable pub restore_thrown_object : VmState → Bool × VmState
restore_thrown_object st =
    (is_valid st.saved_thrown, record st { thrown = st.saved_thrown; saved_thrown = st.thrown })

abbrev pub set_unless_restored : Value → Bool × VmState → VmState
set_unless_restored obj (restored, st) = if restored then st else record st { thrown = obj }

unfoldable pub set_thrown_object : Value → VmState → VmState
set_thrown_object obj st = set_unless_restored obj (restore_thrown_object st)

unfoldable pub take_thrown_object : VmState → Value × VmState
take_thrown_object st = (st.thrown, record st { thrown = none })

unfoldable pub load_thrown_object : VmState → VmState
load_thrown_object st = let (v, st') = take_thrown_object st in push v st'

unfoldable pub save_thrown_object : VmState → VmState
save_thrown_object st = let (v, st') = take_thrown_object st in record st' { saved_thrown = v }

unfoldable pub clear_thrown_object : VmState → VmState
clear_thrown_object st = record st { thrown = none; saved_thrown = none }

unfoldable pub set_local : ℕ → Value → VmState → VmState
set_local index v st = put_operand (st.frame.local_var_offset + index) v st

unfoldable pub get_local : ℕ → VmState → Value
get_local index st = operand st (st.frame.local_var_offset + index)

unfoldable pub store_local : ℕ → VmState → VmState
store_local index st = let (v, st') = pop st in set_local index v st'

unfoldable pub load_local : ℕ → VmState → VmState
load_local index st = push (get_local index st) st

abbrev pub differs_from_last : ℕ → List ControlFrame → Bool
differs_from_last depth [] = true
differs_from_last depth (f ∷ fs) = not (depth == f.rec_depth)

unfoldable pub check_vm_return : VmState → Bool
check_vm_return st = differs_from_last st.frame.rec_depth st.frames

-- `do newSize += newSize >> 1; while (newSize < afterSize);` on fuel. A size of 2 or more grows at
-- each step, so `afterSize` is fuel enough.
unfoldable pub grow : ℕ → ℕ → ℕ → ℕ
grow zero size after = size
grow (suc fuel) size after =
    let rest = grow fuel (size + size / 2) after in if ltb size after then rest else size

-- The values up to the top are moved to the new array.
unfoldable pub resize : ℕ → VmState → VmState
resize after st =
    let size = grow after (operands_size st + operands_size st / 2) after in
    record st { operands = take (suc (top st)) st.operands ++ replicate (size - suc (top st)) none }

unfoldable pub reserve : ℕ → VmState → VmState
reserve n st = if ltb (top st + n) (operands_size st) then st else resize (top st + n) st

unfoldable pub reset : VmState → VmState
reset st = record st { frames = []; frame = no_frame; thrown = none }

abbrev pub saved_frame : ℕ → VmState → ControlFrame
saved_frame stack_top_offset st = record st.frame { stack_top_index = top st - stack_top_offset }

-- The frame of the called code, after the stack was reserved.
abbrev pub enter : ℕ → ℕ → Code → VmState → VmState
enter local_var_offset param_size code st = record st {
  frame = record st.frame {
    code = some code;
    stack_top_index = top st + (code.local_var_num - param_size);
    stack_bottom_index = top st + (code.local_var_num - param_size);
    local_var_offset = local_var_offset;
    pc = 0;
  };
}

abbrev pub save_frame : ℕ → VmState → VmState
save_frame stack_top_offset st = record st { frames = saved_frame stack_top_offset st ∷ st.frames }

unfoldable pub wind : ℕ → ℕ → Code → VmState → Bool × VmState
wind stack_top_offset param_size code st =
    if length st.frames == max_frame_size then (false, st) else (
      true,
      enter (suc (top st) - param_size) param_size code (
          reserve (code.local_var_num - param_size + code.stack_depth)
            (save_frame stack_top_offset st)),
    )

-- `unwind` with the last frame and the others; the recursion depth is not restored.
abbrev pub restore : ControlFrame → List ControlFrame → VmState → VmState
restore f fs st =
    let back = record st {
      frame = record st.frame {
        code = f.code;
        stack_bottom_index = f.stack_bottom_index;
        local_var_offset = f.local_var_offset;
        pc = f.pc;
      };
    } in
    record (pop_while (top back) f.stack_top_index back) { frames = fs }

-- Without a frame, which the program never unwinds, nothing is done.
abbrev pub unwind_to : List ControlFrame → VmState → VmState
unwind_to [] st = st
unwind_to (f ∷ fs) st = restore f fs st

unfoldable pub unwind : VmState → VmState
unwind st = unwind_to st.frames st

-- The old top, bottom and offset of the locals.
unfoldable pub native_wind : ℕ → VmState → (ℕ × ℕ × ℕ) × VmState
native_wind param_size st = (
  (top st - param_size, st.frame.stack_bottom_index, st.frame.local_var_offset),
  record st {
    frame = record st.frame {
      stack_bottom_index = top st;
      local_var_offset = suc (top st) - param_size;
    };
  },
)

unfoldable pub native_unwind : ℕ × ℕ × ℕ → VmState → VmState
native_unwind (old_top, bottom, offset) st =
    let st' = pop_while (top st) old_top st in
    record st' {
      frame = record st'.frame { stack_bottom_index = bottom; local_var_offset = offset };
    }

-- `RecursionGuard`: the depth while it lives, and its check.
unfoldable pub inc_rec_depth : VmState → VmState
inc_rec_depth st = record st { frame = record st.frame { rec_depth = suc st.frame.rec_depth } }

unfoldable pub dec_rec_depth : VmState → VmState
dec_rec_depth st = record st { frame = record st.frame { rec_depth = st.frame.rec_depth - 1 } }

unfoldable pub check_limit : VmState → Bool
check_limit st = not (st.frame.rec_depth == recursion_limit)
