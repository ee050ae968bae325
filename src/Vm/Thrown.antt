-- ===== src/Vm/Thrown.antt =====
-- The thrown object, and the one that a finally block saves.
use ydsh.Prelude.{Bool-cases, if◌then◌else◌, inl, inr, none, ◌≡◌}
use ydsh.Vm.{
  VmState, Value, save_thrown_object, set_thrown_object, take_thrown_object, restore_thrown_object,
  has_error,
}

-- If a finally block that was entered by an exception throws, the exception that was saved at its
-- start is thrown on; if it was entered with none, what the block throws is. Nothing stays saved.
pub set_thrown_object-save_thrown_object :
    (obj : Value) (st : VmState)
    → set_thrown_object obj (save_thrown_object st)
      ≡ record st { thrown = if has_error st then st.thrown else obj; saved_thrown = none }
unfolding set_thrown_object save_thrown_object take_thrown_object restore_thrown_object
set_thrown_object-save_thrown_object obj st = elim (Bool-cases (has_error st)) [
  | inl e ↦ unfold has_error in rw e
  | inr e ↦ unfold has_error in rw e
]
