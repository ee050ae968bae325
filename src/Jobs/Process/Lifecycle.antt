-- ===== src/Jobs/Process/Lifecycle.antt =====
-- The life of a process: what a status does to it, and that its end is final.
use ydsh.Prelude.{Bool-cases, arith, false, inl, inr, refl, true, ◌<◌, ◌≡◌}
use ydsh.Prelude.Int.{eqb_ℤ, pos, ◌<ℤ◌}
use ydsh.Jobs.Process.{
  Proc, Status, WaitOp, WaitResult, World, no_pid, is_terminated, update_state, apply_status, wait,
  wait_for_proc, take_answer, effective_op, exited, signaled, continued, other,
}

-- The status fits its byte, and exactly a terminated process has no pid.
pub record IsValid (p : Proc) : Type 0 where
  pub byte : p.exit_status < 256
  pub gone : is_terminated p.state ≡ true → p.pid ≡ no_pid
  pub there : is_terminated p.state ≡ false → pos 0 <ℤ p.pid

apply_status-IsValid :
    (s : Status) (p : Proc) → is_terminated p.state ≡ false → IsValid p → IsValid (apply_status s p)
unfolding apply_status
apply_status-IsValid (exited code) p r v = record {
  byte = omega arith;
  gone = λ e. refl;
  there = λ e. cc;
}
apply_status-IsValid (signaled sig) p r v = record {
  byte = omega arith;
  gone = λ e. refl;
  there = λ e. cc;
}
apply_status-IsValid (Status.stopped sig) p r v = record {
  byte = omega arith;
  gone = λ e. cc;
  there = λ e. v.there r;
}
apply_status-IsValid continued p r v = record {
  byte = v.byte;
  gone = λ e. cc;
  there = λ e. v.there r;
}
apply_status-IsValid other p r v = v

update_state-IsValid : (ret : WaitResult) (p : Proc) → IsValid p → IsValid (update_state ret p).0
unfolding update_state
update_state-IsValid ret p v = elim (Bool-cases (is_terminated p.state)) [
  | inl ended ↦ rw ended v
  | inr runs ↦ elim (Bool-cases (eqb_ℤ ret.pid p.pid)) [
    | inl same ↦ rw (runs, same) (apply_status-IsValid ret.status p runs v)
    | inr other_pid ↦ rw (runs, other_pid) v
  ]
]

take_answer-IsValid : (ret : WaitResult) (p : Proc) → IsValid p → IsValid (take_answer ret p).0
unfolding take_answer
take_answer-IsValid ret p v = ground (arith, update_state-IsValid ret p v)

wait-runs :
    (op : WaitOp) (p : Proc) (w : World)
    → is_terminated p.state ≡ false
    → (wait op p w).0 ≡ (take_answer (wait_for_proc p.pid (effective_op op p.state) w).0 p).0
unfolding wait
wait-runs op p w runs = rw runs

wait-ended :
    (op : WaitOp) (p : Proc) (w : World)
    → is_terminated p.state ≡ true
    → wait op p w ≡ (p, pos p.exit_status, w)
unfolding wait
wait-ended op p w ended = rw ended

-- Whatever waitpid answers, `wait` leaves a valid process: its status fits a byte, it has no pid if
-- it has ended and a positive one if not. A process that has ended stays as it is and waitpid is
-- not called.
pub wait_lem :
    (op : WaitOp) (p : Proc) (w : World)
    → IsValid p
    → IsValid (wait op p w).0
      × (is_terminated p.state ≡ true → wait op p w ≡ (p, pos p.exit_status, w))
wait_lem op p w v = elim (Bool-cases (is_terminated p.state)) [
  | inl ended ↦ (rw (wait-ended op p w ended) v, wait-ended op p w)
  | inr runs ↦ (
    rw (wait-runs op p w runs)
        (take_answer-IsValid (wait_for_proc p.pid (effective_op op p.state) w).0 p v),
    wait-ended op p w,
  )
]
