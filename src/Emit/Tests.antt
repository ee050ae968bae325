-- ===== src/Emit/Tests.antt =====
-- Tests of the emitter, and its theorems at concrete code.
use ydsh.Prelude.{
  All, [], arith, false, get_or, length, none, refl, some, true, ℕ, ◌%◌, ◌^◌, ◌∷◌, ◌≡◌,
}
use ydsh.Emit.{
  len16, write_n, read_n, Emitter, finalize, mark_label, write_label, append, make_label, append8,
  append24, read24, read_loop,
}
use ydsh.Emit.Words.{read_n-write_n}
use ydsh.Emit.Append.{append_lem, Appended}
use ydsh.Emit.Patches.{Reads, place, size}
use ydsh.Emit.Finalize.{all_patches, finalize-Reads}
use ydsh.Emit.Words.{Beside}

-- A jump of opcode 7 with a word for its distance, and a label behind two more bytes.
abbrev jump : Emitter
jump = record {
  indices = 5 ∷ [];
  label_map = (0, record { target_index = 1; base_index = 0; offset_len = len16 } ∷ []) ∷ [];
  code = 7 ∷ 0 ∷ 0 ∷ 1 ∷ 2 ∷ [];
}

abbrev blank : Emitter
blank = record { indices = []; label_map = []; code = [] }

-- The calls of the code generator that lead to `jump`.
jump_emitted :
    mark_label 5 0 (append 2 (append 1 (write_label 1 0 0 len16 (append8 7 (make_label blank).1))))
    ≡ record jump { code = 7 ∷ 1 ∷ 2 ∷ [] }
unfolding mark_label append write_label write_n make_label
jump_emitted = refl

jump_done :
    finalize jump ≡ some (record jump { label_map = []; code = 7 ∷ 0 ∷ 5 ∷ 1 ∷ 2 ∷ [] }, true)
unfolding finalize write_n
jump_done = refl

far_label :
    finalize (record jump { indices = 65536 ∷ [] })
    ≡ some (record jump { indices = 65536 ∷ [] }, false)
unfolding finalize
far_label = refl

early_label :
    finalize (record jump {
      label_map = (0, record { target_index = 1; base_index = 6; offset_len = len16 } ∷ []) ∷ [];
    })
    ≡ none
unfolding finalize
early_label = refl

reads_24 : read24 (append24 70000 blank).code 0 ≡ 70000
unfolding read24 read_loop append24 write_n
reads_24 = refl

read_n-write_n_example : read_n 2 (write_n 2 70000 1 (9 ∷ 0 ∷ 0 ∷ [])) 1 ≡ 70000 % 2 ^ 16
read_n-write_n_example = read_n-write_n 2 70000 1 (9 ∷ 0 ∷ 0 ∷ []) (omega arith)

append_lem_example : Appended 2 300 jump (append 300 jump)
append_lem_example = append_lem 300 jump (omega arith)

finalize-Reads_example :
    (e' : Emitter) × (finalize jump ≡ some (e', true))
    × All (Reads e'.code) (all_patches jump)
    × ((j : ℕ)
        → All (λ p. Beside (size p) (place p) j) (all_patches jump)
        → get_or e'.code j 0 ≡ get_or jump.code j 0)
    × (length e'.code ≡ 5)
    × (e'.label_map ≡ [])
finalize-Reads_example = finalize-Reads jump (omega arith) (omega arith) (omega arith) (tt, tt)

abbrev far : Emitter
far = record jump { indices = 65536 ∷ [] }
