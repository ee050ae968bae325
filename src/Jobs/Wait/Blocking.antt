-- ===== src/Jobs/Wait/Blocking.antt =====
-- What a blocking wait returns, and when `updateProcState` finds the right process.
use ydsh.Prelude.{
  All, Bool, Bool-cases, List, Option, [], arith, false, get_elem?, if◌then◌else◌, inl, inr, none,
  not, refl, some, true, ℕ, ◌&&◌, ◌==◌, ◌∙◌, ◌∷◌, ◌≡◌, ap,
}
use ydsh.Prelude.Int.{eqb_ℤ, negsuc, pos, ℤ, ◌<ℤ◌}
use ydsh.Jobs.Process.{WaitResult, no_pid, blocking, is_stopped}
use ydsh.Jobs.Job.{available, proc_at, exit_status}
use ydsh.Jobs.ProcTable.{Entry, find_proc}
use ydsh.Jobs.ProcTable.Order
use ydsh.Jobs.ProcTable.Find.{find_proc-eq-index}
use ydsh.Jobs.JobTable.{JobTable, JobRef, job_at, find_iter}
use ydsh.Jobs.Wait.{
  Changed, update_proc, update_known, update_entry, update_found, update_proc_state, Round, leave,
  again, round, unless_ended, Outcome, wait_loop, wait_for_job_impl, Next, end_round, after_update,
}

-- The outcome of a blocking wait for a job: a status that is not negative is the job's own, and the
-- job has ended.
abbrev pub Ended : JobRef → Outcome → Type 0
Ended r none = Unit
Ended r (some (t, negsuc n, rest)) = Unit
Ended r (some (t, pos s, rest)) = (available (job_at t r) ≡ false) × (s ≡ exit_status (job_at t r))

abbrev RoundEnded : JobRef → JobTable → Round → Type 0
RoundEnded r t (leave (pos s)) = (available (job_at t r) ≡ false) × (s ≡ exit_status (job_at t r))
RoundEnded r t (leave (negsuc n)) = Unit
RoundEnded r t (again status) = Unit

unless_ended-RoundEnded :
    (r : JobRef) (t : JobTable) (last : ℤ) → RoundEnded r t (unless_ended (job_at t r) last)
unless_ended-RoundEnded r t last = elim (Bool-cases (available (job_at t r))) [
  | inl runs ↦ rw runs tt
  | inr ended ↦ rw ended (ended, refl)
]

RoundEnded-if :
    (r : JobRef) (t : JobTable) (b : Bool) (x y : Round)
    → RoundEnded r t x
    → RoundEnded r t y
    → RoundEnded r t (if b then x else y)
RoundEnded-if r t true x y hx hy = hx
RoundEnded-if r t false x y hx hy = hy

and-false : (b : Bool) → (b && false) ≡ false
and-false b = ground arith

round-RoundEnded :
    (r : JobRef) (t : JobTable) (last : ℤ) (changed : Changed)
    → RoundEnded r t (round blocking (some r) t last changed)
round-RoundEnded r t last none = unless_ended-RoundEnded r t last
round-RoundEnded r t last (some (c, offset)) =
    RoundEnded-if r t (not (c == r)) _ _ (unless_ended-RoundEnded r t last) (
      rw (and-false (is_stopped (proc_at offset (job_at t r)).state))
        (unless_ended-RoundEnded r t (pos (proc_at offset (job_at t r)).exit_status)))

end_round-Ended :
    (r : JobRef) (o : Round) (t : JobTable) (rest : List WaitResult) (next : Next)
    → RoundEnded r t o
    → ((t' : JobTable) (status : ℤ) → Ended r (next t' status))
    → Ended r (end_round o t rest next)
end_round-Ended r (leave (pos s)) t rest next h keep = h
end_round-Ended r (leave (negsuc n)) t rest next h keep = tt
end_round-Ended r (again status) t rest next h keep = keep t status

after_update-Ended :
    (r : JobRef) (last : ℤ) (rest : List WaitResult) (o : Option (JobTable × Changed)) (next : Next)
    → ((t' : JobTable) (status : ℤ) → Ended r (next t' status))
    → Ended r (after_update blocking (some r) last rest o next)
after_update-Ended r last rest none next keep = tt
after_update-Ended r last rest (some (t, changed)) next keep =
    end_round-Ended r (round blocking (some r) t last changed) t rest next
      (round-RoundEnded r t last changed) keep

Ended-if :
    (r : JobRef) (b : Bool) (x y : Outcome) → Ended r x → Ended r y → Ended r (if b then x else y)
Ended-if r true x y hx hy = hx
Ended-if r false x y hx hy = hy

-- A blocking waitpid never answers 0.
abbrev pub NeverZero : List WaitResult → Type 0
NeverZero answers = All (λ (a : WaitResult). eqb_ℤ a.pid (pos 0) ≡ false) answers

wait_loop-Ended :
    (r : JobRef) (t : JobTable) (last : ℤ) (answers : List WaitResult)
    → NeverZero answers
    → Ended r (wait_loop blocking (some r) t last answers)
unfolding wait_loop
wait_loop-Ended r t last [] h = tt
wait_loop-Ended r t last (ret ∷ rest) h = rw h.0 (
    Ended-if r (eqb_ℤ ret.pid no_pid) _ _ tt (
      after_update-Ended r last rest (update_proc_state ret t) _
        (λ t' status. wait_loop-Ended r t' status rest h.1)))

-- A job that runs is waited for by a blocking waitpid. If the result is a status and not -1, the job
-- has ended, and the status is that of its last process.
pub wait_for_job_impl-Ended :
    (r : JobRef) (t : JobTable) (answers : List WaitResult)
    → available (job_at t r) ≡ true
    → NeverZero answers
    → Ended r (wait_for_job_impl blocking (some r) t answers)
unfolding wait_for_job_impl
wait_for_job_impl-Ended r t answers a h = rw a (wait_loop-Ended r t (pos 0) answers h)

-- A process that the table holds, of a job that it holds, is found, and nothing faults.
pub update_proc_state-found :
    (ret : WaitResult) (t : JobTable) (i : ℕ) (e : Entry) (r : JobRef)
    → Order.IsValid t.proc_table
    → get_elem? t.proc_table.entries i ≡ some e
    → pos 0 <ℤ e.pid
    → ret.pid ≡ e.pid
    → find_iter e.job_id t ≡ some r
    → update_proc_state ret t ≡ some (update_proc ret i e.proc_offset r t, some (r, e.proc_offset))
unfolding update_proc_state
update_proc_state-found ret t i e r v g positive same found =
    let here : find_proc ret.pid t.proc_table ≡ some i =
      rw same (find_proc-eq-index t.proc_table i e v positive g) in
    ap (λ o. update_known ret o t) here
    ∙ ap (λ o. update_entry ret i o t) g
    ∙ ap (λ o. update_found ret i e o t) found
