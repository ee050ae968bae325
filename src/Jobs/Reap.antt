-- ===== src/Jobs/Reap.antt =====
-- src/job.cpp: `removeTerminatedJobs`, and `detachAll` and `send` of src/job.h.
pub mod Keep
pub mod Order
use ydsh.Prelude.{
  Bool, List, Option, [], drop, false, if◌then◌else◌, none, not, some, take, true, ℕ, ◌++◌, ◌+◌,
  ◌==◌, ◌||◌, ◌∷◌,
}
use ydsh.Array.{compact}
use ydsh.Jobs.Process.{Pid}
use ydsh.Jobs.Job
use ydsh.Jobs.Job.{Job, available, uncontrolled}
use ydsh.Jobs.ProcTable
use ydsh.Jobs.ProcTable.{batched_remove}
use ydsh.Jobs.JobTable.{JobTable, JobRef, job_at, put_job}

-- A job that leaves the table loses its id and can no longer be found.
abbrev pub release : JobTable → JobRef → JobTable
release t r = put_job r (record (job_at t r) { job_id = 0; disown = true }) t

abbrev pub release_all : JobTable → List JobRef → JobTable
release_all t [] = t
release_all t (r ∷ rs) = release_all (release t r) rs

-- The last job of the table that is not disowned, or none.
abbrev pub last_owned : JobTable → List JobRef → Option JobRef
last_owned t [] = none
last_owned t (r ∷ rs) = elim (last_owned t rs) [
  | some x ↦ some x
  | none ↦ if (job_at t r).disown then none else some r
]

abbrev pub is_available_at : JobTable → JobRef → Bool
is_available_at t r = available (job_at t r)

-- The latest job is replaced if it has ended.
abbrev pub renew_latest : JobTable → Option JobRef → Option JobRef
renew_latest t none = none
renew_latest t (some r) = if is_available_at t r then some r else last_owned t t.jobs

-- The jobs that have ended are swapped behind the others, and popped.
abbrev pub drop_ended : JobTable → JobTable
drop_ended t =
    let (rs, size) = compact (is_available_at t) t.jobs in
    let t' = release_all (record t { jobs = take size rs }) (drop size rs) in
    record t' { latest = renew_latest t' t'.latest }

abbrev pub any_ended : JobTable → List JobRef → Bool
any_ended t [] = false
any_ended t (r ∷ rs) = not (is_available_at t r) || any_ended t rs

-- `removeTerminatedJobs`: nothing is done unless a process entry was deleted.
unfoldable pub remove_terminated_jobs : JobTable → JobTable
unfolding compact
remove_terminated_jobs t =
    let t' = record t { proc_table = batched_remove t.proc_table } in
    if t.proc_table.deleted_count == 0
    then t
    else if any_ended t' t'.jobs
    then drop_ended t'
    else t'

-- `detachAll`, for a child process.
abbrev pub disclaim : JobTable → JobRef → JobTable
disclaim t r = put_job r (record (job_at t r) { job_id = 0; disown = true; state = uncontrolled }) t

abbrev pub disclaim_all : JobTable → List JobRef → JobTable
disclaim_all t [] = t
disclaim_all t (r ∷ rs) = disclaim_all (disclaim t r) rs

unfoldable pub detach_all : JobTable → JobTable
unfolding ProcTable.clear
detach_all t = record (disclaim_all t t.jobs) {
  jobs = [];
  proc_table = ProcTable.clear t.proc_table;
  latest = none;
}

-- `JobTable::send`: the calls of kill, in order.
abbrev pub send_each : (Pid → Pid) → ℕ → JobTable → List JobRef → List (Pid × ℕ)
send_each getpgid sig t [] = []
send_each getpgid sig t (r ∷ rs) =
    (if (job_at t r).disown then [] else Job.send getpgid sig (job_at t r))
    ++ send_each getpgid sig t rs

unfoldable pub send : (Pid → Pid) → ℕ → JobTable → List (Pid × ℕ)
send getpgid sig t = send_each getpgid sig t t.jobs
