-- ===== src/Jobs/Tests.antt =====
-- Tests of the job control, and its theorems at concrete tables.
use ydsh.Prelude.{
  All, List, [], arith, false, get_elem?, none, refl, some, true, ℕ, ◌++◌, ◌+◌, ◌∷◌, ◌≡◌, ◌≢◌, inr,
}
use ydsh.Prelude.Int.{negsuc, pos}
use ydsh.Jobs.Process.{Proc, WaitResult, World, exited, blocking, new_proc}
use ydsh.Jobs.Job
use ydsh.Jobs.Job.{Job, running, terminated, wait_job}
use ydsh.Jobs.Job.Exits.{wait_job-exits, exits, all_ended, procs_of, last_code, asked}
use ydsh.Jobs.ProcTable.{ProcTable, Entry, add_proc, find_proc, batched_remove, empty}
use ydsh.Jobs.ProcTable.Order
use ydsh.Jobs.ProcTable.Order.{run, run-IsValid, add, delete, remove}
use ydsh.Jobs.ProcTable.Find.{find_proc-add_proc, find_proc-wrong}
use ydsh.Jobs.JobTable.{JobTable, attach, find, find_iter, id_at, find_empty_entry}
use ydsh.Jobs.JobTable.Ids.{dense_prefix}
use ydsh.Jobs.JobTable.Attach
use ydsh.Jobs.JobTable.Attach.{attach_lem}
use ydsh.Jobs.Reap.{remove_terminated_jobs, is_available_at}
use ydsh.Jobs.Reap.Order.{latest-remove_terminated_jobs}
use ydsh.Jobs.Wait.{
  update_proc_state, update_proc, wait_for_job, wait_for_any, wait_for_all, wait_for_job_impl,
}
use ydsh.Jobs.Wait.Invariant
use ydsh.Jobs.Wait.Valid.{Leaves, Answered, waits-Leave}
use ydsh.Jobs.Process
use ydsh.Jobs.ProcTable.{delete_entry}
use ydsh.Jobs.Wait.Blocking.{Ended, wait_for_job_impl-Ended}
use ydsh.Jobs.Wait.Update.{Updated, update_proc_state_lem}

abbrev entry : ℕ → ℕ → Entry
entry pid job_id = record { pid = pos pid; job_id = job_id; proc_offset = 0 }

-- The process 12 is deleted and not yet removed.
abbrev procs : ProcTable
procs = record { entries = entry 10 1 ∷ entry 12 0 ∷ entry 14 3 ∷ []; deleted_count = 1 }

abbrev procs-IsValid : Order.IsValid procs
procs-IsValid = omega arith

abbrev job : ℕ → Job.JobState → List Proc → Job
job id state ps = record {
  old_stdin = negsuc 0;
  job_id = id;
  state = state;
  disown = false;
  procs = ps;
}

-- The jobs 1 and 3 run, the job 2 has ended, and the object 3 is in no table.
abbrev jobs : JobTable
jobs = record {
  heap =
      job 1 running (new_proc (pos 10) ∷ [])
      ∷ job 2 terminated []
      ∷ job 3 running (new_proc (pos 14) ∷ [])
      ∷ job 0 running (new_proc (pos 16) ∷ [])
      ∷ [];
  jobs = 0 ∷ 1 ∷ 2 ∷ [];
  proc_table = procs;
  latest = some 1;
}

-- The same without the job 2: its id is free.
abbrev gap : JobTable
gap = record jobs { jobs = 0 ∷ 2 ∷ [] }

abbrev jobs-IsValid : Attach.IsValid jobs
jobs-IsValid = omega arith

abbrev gap-IsValid : Attach.IsValid gap
gap-IsValid = omega arith

gap_is_found : find_empty_entry gap ≡ 1
unfolding find_empty_entry
gap_is_found = refl

attach_lem_example :
    Attach.IsValid (attach 3 false gap)
    × (id_at (attach 3 false gap) 3 ≡ dense_prefix gap 0 gap.jobs + 1)
    × All (λ x. id_at gap x ≢ id_at (attach 3 false gap) 3) gap.jobs
    × (find (id_at (attach 3 false gap) 3) (attach 3 false gap) ≡ some 3)
attach_lem_example = attach_lem gap 3 false gap-IsValid (omega arith) refl (omega arith)

latest_is_renewed : (remove_terminated_jobs jobs).latest ≡ some 2
unfolding remove_terminated_jobs batched_remove
latest_is_renewed = refl

latest-remove_terminated_jobs_example : is_available_at (remove_terminated_jobs jobs) 2 ≡ true
latest-remove_terminated_jobs_example =
    latest-remove_terminated_jobs jobs 2 jobs-IsValid (omega arith) refl latest_is_renewed

abbrev valid : Invariant.IsValid jobs
valid = record { table = jobs-IsValid; entries = procs-IsValid }

abbrev exit_of : ℕ → ℕ → WaitResult
exit_of pid code = record { pid = pos pid; status = exited code }

abbrev answers : List WaitResult
answers = exit_of 10 3 ∷ exit_of 14 0 ∷ []

first_is_job_0 : find_iter 1 jobs ≡ some 0
unfolding find_iter
first_is_job_0 = refl

abbrev after_first : JobTable
after_first = update_proc (exit_of 10 3) 0 0 0 jobs

third_is_job_2 : find_iter 3 after_first ≡ some 2
unfolding find_iter Process.update_state Job.update_state delete_entry
third_is_job_2 = refl

fourteen_is_held : get_elem? after_first.proc_table.entries 2 ≡ some (entry 14 3)
unfolding Process.update_state Job.update_state delete_entry
fourteen_is_held = refl

answers_fit : Answered jobs answers
answers_fit = inr (
  0,
  entry 10 1,
  0,
  record { held = refl; positive = omega arith; same = refl; owner = first_is_job_0 },
  inr (
    2,
    entry 14 3,
    2,
    record { held = fourteen_is_held; positive = omega arith; same = refl; owner = third_is_job_2 },
    tt,
  ),
)

waits-Leave_example :
    Leaves (wait_for_job blocking (some 0) jobs answers)
    × Leaves (wait_for_any jobs answers)
    × Leaves (wait_for_all blocking false jobs answers)
waits-Leave_example = waits-Leave blocking (some 0) false jobs answers valid answers_fit

-- The process 10 ends, and then the unknown process 9 is reported: its entry is looked for, that of
-- 10 is found, and the end of the jobs is dereferenced.
fault_after_exit : wait_for_any jobs (exit_of 10 0 ∷ exit_of 9 0 ∷ []) ≡ none
unfolding wait_for_any
fault_after_exit = refl

wait_for_job_impl-Ended_example : Ended 0 (wait_for_job_impl blocking (some 0) jobs answers)
wait_for_job_impl-Ended_example = wait_for_job_impl-Ended 0 jobs answers refl (refl, (refl, tt))

update_proc_state_lem_example :
    (t' : JobTable) × (update_proc_state (exit_of 10 3) jobs ≡ some (t', some (0, 0)))
    × Updated (exit_of 10 3) jobs 0 (entry 10 1) 0 t'
update_proc_state_lem_example =
    update_proc_state_lem (exit_of 10 3) jobs 0 (entry 10 1) 0 procs-IsValid refl (omega arith) refl
      first_is_job_0 (omega arith) refl refl

abbrev two : List (Proc × ℕ)
two = (new_proc (pos 10), 3) ∷ (new_proc (pos 11), 258) ∷ []

abbrev pipeline : Job
pipeline = job 1 running (procs_of two)

wait_job-exits_example :
    wait_job blocking pipeline (record { answers = exits two ++ []; calls = [] }) ≡ (
      record pipeline { procs = all_ended two; state = terminated },
      pos (last_code 0 two),
      record { answers = []; calls = asked blocking two [] },
    )
wait_job-exits_example =
    wait_job-exits blocking pipeline two [] [] refl refl
      ((refl, omega arith), ((refl, omega arith), tt))

code_is_a_byte : last_code 0 two ≡ 2
code_is_a_byte = refl

abbrev world : World
world = record { answers = answers; calls = [] }

run-IsValid_example :
    Order.IsValid (run empty (add (pos 12) 2 0 ∷ add (pos 10) 1 0 ∷ delete (pos 12) ∷ remove ∷ []))
run-IsValid_example =
    run-IsValid empty (add (pos 12) 2 0 ∷ add (pos 10) 1 0 ∷ delete (pos 12) ∷ remove ∷ [])
      (omega arith)

eleven_is_new : All (λ (e : Entry). e.pid ≢ pos 11) procs.entries
eleven_is_new = (λ e. ground arith, (λ e. ground arith, (λ e. ground arith, tt)))

find_proc-add_proc_example :
    (i : ℕ) × (add_proc (pos 11) 4 0 procs).1 ≡ true
    × find_proc (pos 11) (add_proc (pos 11) 4 0 procs).0 ≡ some i
    × get_elem? (add_proc (pos 11) 4 0 procs).0.entries i ≡ some (entry 11 4)
find_proc-add_proc_example =
    find_proc-add_proc procs (pos 11) 4 0 procs-IsValid (omega arith) (omega arith) eleven_is_new

-- The process 11 is not in the table.
find_proc-wrong_example :
    (i : ℕ) × (y : Entry) × find_proc (pos 11) procs ≡ some i
    × get_elem? procs.entries i ≡ some y
    × y.pid ≢ pos 11
find_proc-wrong_example =
    find_proc-wrong procs (pos 11) 2 (entry 14 3) (omega arith) eleven_is_new refl (omega arith)
