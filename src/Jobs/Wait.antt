-- ===== src/Jobs/Wait.antt =====
-- src/job.cpp: the operations of `JobTable` that wait for processes.
pub mod Invariant
pub mod Valid
pub mod Blocking
pub mod Update
use ydsh.Prelude.{
  Bool, List, Option, [], false, get_elem?, if◌then◌else◌, none, not, set, some, true, ℕ, ◌&&◌,
  ◌==◌, ◌||◌, ◌∷◌,
}
use ydsh.Prelude.Int.{eqb_ℤ, ltb_ℤ, negsuc, pos, ℤ}
use ydsh.Jobs.Process
use ydsh.Jobs.Process.{
  Proc, WaitOp, WaitResult, no_pid, is_terminated, is_stopped, is_running, block_untraced,
}
use ydsh.Jobs.Job
use ydsh.Jobs.Job.{Job, available, proc_at, wait_job, exit_status}
use ydsh.Jobs.ProcTable.{Entry, find_proc, delete_entry}
use ydsh.Jobs.JobTable.{JobTable, JobRef, job_at, put_job, find_iter}
use ydsh.Jobs.Reap.{remove_terminated_jobs}

-- The job and the offset of the process that changed, if the table knows it.
abbrev pub Changed : Type 0
Changed = Option (JobRef × ℕ)

-- The state change is stored in the process, then in its job.
abbrev pub update_proc : WaitResult → ℕ → ℕ → JobRef → JobTable → JobTable
update_proc ret entry offset r t =
    let j = job_at t r in
    let p = (Process.update_state ret (proc_at offset j)).0 in
    let t' = put_job r (Job.update_state (record j { procs = set j.procs offset p })) t in
    if is_terminated p.state then record t' { proc_table = delete_entry entry t.proc_table } else t'

-- `none` is the dereference of `end()`: no job has the id of the entry.
abbrev pub update_found :
    WaitResult → ℕ → Entry → Option JobRef → JobTable → Option (JobTable × Changed)
update_found ret i e none t = none
update_found ret i e (some r) t =
    some (update_proc ret i e.proc_offset r t, some (r, e.proc_offset))

abbrev pub update_entry : WaitResult → ℕ → Option Entry → JobTable → Option (JobTable × Changed)
update_entry ret i none t = none
update_entry ret i (some e) t = update_found ret i e (find_iter e.job_id t) t

abbrev pub update_known : WaitResult → Option ℕ → JobTable → Option (JobTable × Changed)
update_known ret none t = some (t, none)
update_known ret (some i) t = update_entry ret i (get_elem? t.proc_table.entries i) t

-- `updateProcState`
unfoldable pub update_proc_state : WaitResult → JobTable → Option (JobTable × Changed)
unfolding find_proc find_iter delete_entry Process.update_state Job.update_state
update_proc_state ret t = update_known ret (find_proc ret.pid t.proc_table) t

-- `findLastStopped`, on the processes of a job.
unfoldable pub find_last_stopped : Option Proc → List Proc → Option Proc
find_last_stopped last [] = last
find_last_stopped last (p ∷ ps) =
    let rest = find_last_stopped (if is_stopped p.state then some p else last) ps in
    if is_running p.state then none else rest

abbrev pub is_untraced : WaitOp → Bool
is_untraced block_untraced = true
is_untraced _ = false

-- What a round of the waiting loop does with a process that changed: leave with a status, or go on
-- with the last status.
pub data Round : Type 0 where
  leave : ℤ → Round
  again : ℤ → Round

-- The end of a round: the job may have ended.
abbrev pub unless_ended : Job → ℤ → Round
unless_ended j last = if available j then again last else leave (pos (exit_status j))

abbrev pub stop_or_go : Job → ℤ → Option Proc → Round
stop_or_go j last none = unless_ended j last
stop_or_go j last (some p) = leave (pos p.exit_status)

abbrev pub round_changed : WaitOp → JobRef → Job → ℤ → Changed → Round
round_changed op r j last none = unless_ended j last
round_changed op r j last (some (changed, offset)) =
    let p = proc_at offset j in
    if not (changed == r)
    then unless_ended j last
    else if is_stopped p.state && is_untraced op
    then stop_or_go j (pos p.exit_status) (find_last_stopped none j.procs)
    else unless_ended j (pos p.exit_status)

abbrev pub round : WaitOp → Option JobRef → JobTable → ℤ → Changed → Round
round op none t last changed = leave (pos 0)
round op (some r) t last changed = round_changed op r (job_at t r) last changed

-- What an operation leaves: the table, the result and the answers that are left. `none` is the fault
-- of `updateProcState`. The calls of waitpid are one for each answer used, and not listed.
abbrev pub Outcome : Type 0
Outcome = Option (JobTable × ℤ × List WaitResult)

-- The end of a round: leave the loop, or go on with the answers that are left.
abbrev pub Next : Type 0
Next = JobTable → ℤ → Outcome

abbrev pub end_round : Round → JobTable → List WaitResult → Next → Outcome
end_round (leave status) t rest next = some (t, status, rest)
end_round (again status) t rest next = next t status

abbrev pub after_update :
    WaitOp → Option JobRef → ℤ → List WaitResult → Option (JobTable × Changed) → Next → Outcome
after_update op job last rest none next = none
after_update op job last rest (some (t, changed)) next =
    end_round (round op job t last changed) t rest next

-- The loop of `waitForJobImpl`, over the answers of waitpid(-1). When they are used up it fails.
unfoldable pub wait_loop : WaitOp → Option JobRef → JobTable → ℤ → List WaitResult → Outcome
unfolding update_proc_state find_last_stopped exit_status
wait_loop op job t last [] = some (t, negsuc 0, [])
wait_loop op job t last (ret ∷ rest) =
    let next = λ (t' : JobTable) (status : ℤ). wait_loop op job t' status rest in
    if eqb_ℤ ret.pid (pos 0)
    then some (t, last, rest)
    else if eqb_ℤ ret.pid no_pid
    then some (t, negsuc 0, rest)
    else after_update op job last rest (update_proc_state ret t) next

abbrev pub is_ended : JobTable → Option JobRef → Bool
is_ended t none = false
is_ended t (some r) = not (available (job_at t r))

abbrev pub last_stopped : JobTable → Option JobRef → Option Proc
last_stopped t none = none
last_stopped t (some r) = find_last_stopped none (job_at t r).procs

-- A job that is not running is asked for its status.
abbrev pub wait_ended : WaitOp → JobRef → JobTable → List WaitResult → Outcome
wait_ended op r t answers =
    let (j, status, w) = wait_job op (job_at t r) (record { answers = answers; calls = [] }) in
    some (put_job r j t, status, w.answers)

abbrev pub unless_stopped :
    WaitOp → Option JobRef → JobTable → List WaitResult → Option Proc → Outcome
unless_stopped op job t answers none = wait_loop op job t (pos 0) answers
unless_stopped op job t answers (some p) = some (t, pos p.exit_status, answers)

-- `waitForJobImpl`; a null job stands for any.
unfoldable pub wait_for_job_impl : WaitOp → Option JobRef → JobTable → List WaitResult → Outcome
unfolding wait_loop wait_job
wait_for_job_impl op none t answers = wait_loop op none t (pos 0) answers
wait_for_job_impl op (some r) t answers =
    if not (available (job_at t r))
    then wait_ended op r t answers
    else if is_untraced op
    then unless_stopped op (some r) t answers (last_stopped t (some r))
    else wait_loop op (some r) t (pos 0) answers

abbrev pub then_remove : Outcome → Outcome
then_remove none = none
then_remove (some (t, status, answers)) = some (remove_terminated_jobs t, status, answers)

-- `waitForJob`
unfoldable pub wait_for_job : WaitOp → Option JobRef → JobTable → List WaitResult → Outcome
unfolding wait_for_job_impl remove_terminated_jobs
wait_for_job op job t answers = then_remove (wait_for_job_impl op job t answers)

abbrev pub poll_on : Option (JobTable × Changed) → (JobTable → Outcome) → Outcome
poll_on none next = none
poll_on (some (t, changed)) next = next t

-- The loop of `waitForAny`
unfoldable pub poll : JobTable → List WaitResult → Outcome
unfolding update_proc_state
poll t [] = some (t, pos 0, [])
poll t (ret ∷ rest) =
    let next = λ (t' : JobTable). poll t' rest in
    if eqb_ℤ ret.pid (pos 0) || eqb_ℤ ret.pid no_pid
    then some (t, pos 0, rest)
    else poll_on (update_proc_state ret t) next

unfoldable pub wait_for_any : JobTable → List WaitResult → Outcome
unfolding poll remove_terminated_jobs
wait_for_any t answers = then_remove (poll t answers)

abbrev pub wait_on : Bool → Outcome → (JobTable → ℤ → List WaitResult → Outcome) → Outcome
wait_on wait_one none next = none
wait_on wait_one (some (t, status, answers)) next =
    if ltb_ℤ status (pos 0) || wait_one then some (t, status, answers) else next t status answers

-- The loop of `waitForAll` over the jobs of the table.
unfoldable pub wait_each : WaitOp → Bool → List JobRef → JobTable → ℤ → List WaitResult → Outcome
unfolding wait_for_job_impl
wait_each op wait_one [] t last answers = some (t, last, answers)
wait_each op wait_one (r ∷ rs) t last answers =
    let next = λ (t' : JobTable) (status : ℤ) (rest : List WaitResult).
      wait_each op wait_one rs t' status rest in
    if (job_at t r).disown
    then next t last answers
    else wait_on wait_one (wait_for_job_impl op (some r) t answers) next

-- `waitForAll`
unfoldable pub wait_for_all : WaitOp → Bool → JobTable → List WaitResult → Outcome
unfolding wait_each remove_terminated_jobs
wait_for_all op wait_one t answers = then_remove (wait_each op wait_one t.jobs t (pos 0) answers)
