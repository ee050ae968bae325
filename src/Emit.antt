-- ===== src/Emit.antt =====
-- Writing byte code: `readN` and `writeN` of src/misc/buffer.hpp and `CodeEmitter` of
-- src/misc/emitter.hpp. A code buffer is the list of its bytes; a shift is a product or a quotient
-- by a power of 2, and a union of bits that do not overlap is a sum.
use ydsh.Prelude.{
  Bool, List, Option, [], false, get_or, if◌then◌else◌, leb, length, ltb, none, replicate, set,
  some, suc, true, zero, ℕ, ◌%◌, ◌*◌, ◌++◌, ◌+◌, ◌-◌, ◌/◌, ◌==◌, ◌^◌, ◌∷◌,
}
mod Words
mod Append
mod Patches
mod Finalize
mod Tests

abbrev pub Byte : Type 0
Byte = ℕ

abbrev pub u8_max : ℕ
u8_max = 255

abbrev pub u16_max : ℕ
u16_max = 65535

abbrev pub u32_max : ℕ
u32_max = 4294967295

-- The byte of b at position i, counted from the lowest.
abbrev pub byte_at : ℕ → ℕ → Byte
byte_at i b = b / 2 ^ (i * 8) % 256

-- `readN<n>`, with the value v read so far.
pub read_loop : ℕ → List Byte → ℕ → ℕ → ℕ
read_loop zero code index v = v
read_loop (suc i) code index v =
    read_loop i code (suc index) (v + get_or code index 0 * 2 ^ (i * 8))

pub read_n : ℕ → List Byte → ℕ → ℕ
read_n n code index = read_loop n code index 0

-- `writeN<n>`: the highest byte first.
pub write_n : ℕ → ℕ → ℕ → List Byte → List Byte
write_n zero b index code = code
write_n (suc i) b index code = write_n i b (suc index) (set code index (byte_at i b))

pub read8 : List Byte → ℕ → ℕ
unfolding read_n
read8 code index = read_n 1 code index

pub read16 : List Byte → ℕ → ℕ
unfolding read_n
read16 code index = read_n 2 code index

pub read24 : List Byte → ℕ → ℕ
unfolding read_n
read24 code index = read_n 3 code index

pub read32 : List Byte → ℕ → ℕ
unfolding read_n
read32 code index = read_n 4 code index

pub read64 : List Byte → ℕ → ℕ
unfolding read_n
read64 code index = read_n 8 code index

-- A label is the number of its object, whose address in the code is in `indices`.
abbrev pub Label : Type 0
Label = ℕ

pub data OffsetLen : Type 0 where
  len8 : OffsetLen
  len16 : OffsetLen
  len32 : OffsetLen

pub record LabelTarget : Type 0 where
  pub target_index : ℕ
  pub base_index : ℕ
  pub offset_len : OffsetLen

abbrev pub LabelMap : Type 0
LabelMap = List (Label × List LabelTarget)

pub record Emitter : Type 0 where
  pub indices : List ℕ
  pub label_map : LabelMap
  pub code : List Byte

abbrev pub with_code : List Byte → Emitter → Emitter
with_code c e = record e { code = c }

-- `emit8` and the others take an argument of their width, so a wider one is cut.
pub emit8 : ℕ → ℕ → Emitter → Emitter
emit8 index b e = with_code (write_n 1 (b % 2 ^ 8) index e.code) e

pub emit16 : ℕ → ℕ → Emitter → Emitter
emit16 index b e = with_code (write_n 2 (b % 2 ^ 16) index e.code) e

pub emit24 : ℕ → ℕ → Emitter → Emitter
emit24 index b e = with_code (write_n 3 (b % 2 ^ 32) index e.code) e

pub emit32 : ℕ → ℕ → Emitter → Emitter
emit32 index b e = with_code (write_n 4 (b % 2 ^ 32) index e.code) e

pub emit64 : ℕ → ℕ → Emitter → Emitter
emit64 index b e = with_code (write_n 8 (b % 2 ^ 64) index e.code) e

pub emit : ℕ → ℕ → Emitter → Emitter
unfolding emit8 emit16 emit32 emit64
emit index b e =
    if leb b u8_max
    then emit8 index b e
    else if leb b u16_max
    then emit16 index b e
    else if leb b u32_max
    then emit32 index b e
    else emit64 index b e

-- `codeBuffer.resize(size + n, 0)`.
abbrev pub grow : ℕ → Emitter → Emitter
grow n e = with_code (e.code ++ replicate n 0) e

pub append8 : ℕ → Emitter → Emitter
unfolding emit8
append8 b e = emit8 (length e.code) b (grow 1 e)

pub append16 : ℕ → Emitter → Emitter
unfolding emit16
append16 b e = emit16 (length e.code) b (grow 2 e)

pub append24 : ℕ → Emitter → Emitter
unfolding emit24
append24 b e = emit24 (length e.code) b (grow 3 e)

pub append32 : ℕ → Emitter → Emitter
unfolding emit32
append32 b e = emit32 (length e.code) b (grow 4 e)

pub append64 : ℕ → Emitter → Emitter
unfolding emit64
append64 b e = emit64 (length e.code) b (grow 8 e)

pub append : ℕ → Emitter → Emitter
unfolding append8 append16 append32 append64
append b e =
    if leb b u8_max
    then append8 b e
    else if leb b u16_max
    then append16 b e
    else if leb b u32_max
    then append32 b e
    else append64 b e

-- `makeLabel`: a new object, at address 0.
pub make_label : Emitter → Label × Emitter
make_label e = (length e.indices, record e { indices = e.indices ++ 0 ∷ [] })

-- `labelMap[label]` with new targets after those it has; a missing entry is made.
abbrev pub add_targets : Label → List LabelTarget → LabelMap → LabelMap
add_targets l new [] = (l, new) ∷ []
add_targets l new ((k, ts) ∷ m) =
    let rest = add_targets l new m in if k == l then (k, ts ++ new) ∷ m else (k, ts) ∷ rest

pub mark_label : ℕ → Label → Emitter → Emitter
mark_label index l e = record e {
  indices = set e.indices l index;
  label_map = add_targets l [] e.label_map;
}

pub write_label : ℕ → Label → ℕ → OffsetLen → Emitter → Emitter
write_label index l base len e = record e {
  label_map =
      add_targets l (record { target_index = index; base_index = base; offset_len = len } ∷ [])
        e.label_map;
}

-- The ends of the loops of `finalize`: all targets are written, an offset does not fit its width,
-- or a label stands before the base of a target, which ends the process.
pub data Written : Type 0 where
  done : Emitter → Written
  too_long : Emitter → Written
  fatal : Written

pub write_offset : ℕ → ℕ → OffsetLen → Emitter → Written
unfolding emit8 emit16 emit32
write_offset index offset len8 e =
    if ltb u8_max offset then too_long e else done (emit8 index offset e)
write_offset index offset len16 e =
    if ltb u16_max offset then too_long e else done (emit16 index offset e)
write_offset index offset len32 e = done (emit32 index offset e)

pub write_target : ℕ → LabelTarget → Emitter → Written
unfolding write_offset
write_target location u e =
    if ltb location u.base_index
    then fatal
    else write_offset u.target_index (location - u.base_index) u.offset_len e

abbrev pub and_then : Written → (Emitter → Written) → Written
and_then (done e) next = next e
and_then (too_long e) next = too_long e
and_then fatal next = fatal

pub write_targets : ℕ → List LabelTarget → Emitter → Written
unfolding write_target
write_targets location [] e = done e
write_targets location (u ∷ us) e =
    and_then (write_target location u e) (λ e'. write_targets location us e')

pub write_entries : LabelMap → Emitter → Written
unfolding write_targets
write_entries [] e = done e
write_entries ((l, us) ∷ m) e =
    and_then (write_targets (get_or e.indices l 0) us e) (λ e'. write_entries m e')

-- The map is cleared only when all is written.
abbrev pub cleared : Written → Option (Emitter × Bool)
cleared (done e) = some (record e { label_map = [] }, true)
cleared (too_long e) = some (e, false)
cleared fatal = none

pub finalize : Emitter → Option (Emitter × Bool)
unfolding write_entries
finalize e = cleared (write_entries e.label_map e)
