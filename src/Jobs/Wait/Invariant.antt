-- ===== src/Jobs/Wait/Invariant.antt =====
-- The invariant of the job table and its process table, and the updates that keep it.
use ydsh.Prelude.{
  All-of_forall, Bool-cases, List, [], arith, get_or, inl, inr, length-set, refl, set, suc, zero, ℕ,
  ◌∷◌, ◌≡◌,
}
use ydsh.Jobs.Process
use ydsh.Jobs.Process.{WaitResult, is_terminated}
use ydsh.Jobs.Job
use ydsh.Jobs.Job.{Job, proc_at}
use ydsh.Jobs.ProcTable.{ProcTable, delete_entry}
use ydsh.Jobs.ProcTable.Order
use ydsh.Jobs.ProcTable.Order.{delete_entry-IsValid}
use ydsh.Jobs.JobTable.{JobTable, JobRef, job_at, id_at, put_job, no_job}
use ydsh.Jobs.JobTable.Ids.{IsOrdered-same}
use ydsh.Jobs.JobTable.Attach
use ydsh.Jobs.Reap.{remove_terminated_jobs}
use ydsh.Jobs.Reap.Order.{remove_terminated_jobs-IsValid, remove_terminated_jobs-entries}
use ydsh.Jobs.Wait.{update_proc}

pub record IsValid (t : JobTable) : Type 0 where
  pub table : Attach.IsValid t
  pub entries : Order.IsValid t.proc_table

id-set :
    (h : List Job) (r x : ℕ) (j : Job)
    → j.job_id ≡ (get_or h r no_job).job_id
    → (get_or (set h r j) x no_job).job_id ≡ (get_or h x no_job).job_id
id-set [] r x j e = refl
id-set (k ∷ h) zero zero j e = e
id-set (k ∷ h) zero (suc x) j e = refl
id-set (k ∷ h) (suc r) zero j e = refl
id-set (k ∷ h) (suc r) (suc x) j e = id-set h r x j e

-- Storing a job with its old id.
put_job-id :
    (t : JobTable) (r : JobRef) (j : Job)
    → j.job_id ≡ id_at t r
    → (x : JobRef) → id_at (put_job r j t) x ≡ id_at t x
put_job-id t r j e x = id-set t.heap r x j e

put_job-IsValid :
    (t : JobTable) (r : JobRef) (j : Job)
    → j.job_id ≡ id_at t r
    → IsValid t
    → IsValid (put_job r j t)
put_job-IsValid t r j e v = record {
  table = record {
    ordered =
        IsOrdered-same t (put_job r j t) 0 t.jobs (All-of_forall (put_job-id t r j e) t.jobs)
          v.table.ordered;
    allocated = rw (length-set t.heap r j) v.table.allocated;
  };
  entries = v.entries;
}

pub id-update_state : (j : Job) → (Job.update_state j).job_id ≡ j.job_id
unfolding Job.update_state
id-update_state j = ground arith

Attach-IsValid-record :
    (t : JobTable) (pt : ProcTable)
    → Attach.IsValid t
    → Attach.IsValid (record t { proc_table = pt })
Attach-IsValid-record t pt v = record {
  ordered =
      IsOrdered-same t (record t { proc_table = pt }) 0 t.jobs (All-of_forall (λ x. refl) t.jobs)
        v.ordered;
  allocated = v.allocated;
}

pub update_proc-IsValid :
    (ret : WaitResult) (entry offset : ℕ) (r : JobRef) (t : JobTable)
    → IsValid t
    → IsValid (update_proc ret entry offset r t)
update_proc-IsValid ret entry offset r t v =
    let p = (Process.update_state ret (proc_at offset (job_at t r))).0 in
    let j = record (job_at t r) { procs = set (job_at t r).procs offset p } in
    let t' = put_job r (Job.update_state j) t in
    let v' = put_job-IsValid t r (Job.update_state j) (id-update_state j) v in
    let pt = delete_entry entry t.proc_table in
    elim (Bool-cases (is_terminated p.state)) [
      | inl ended ↦ rw ended (record {
        table = Attach-IsValid-record t' pt v'.table;
        entries = delete_entry-IsValid entry t.proc_table v.entries;
      })
      | inr runs ↦ rw runs v'
    ]

pub remove-IsValid : (t : JobTable) → IsValid t → IsValid (remove_terminated_jobs t)
remove-IsValid t v = record {
  table = remove_terminated_jobs-IsValid t v.table;
  entries = remove_terminated_jobs-entries t v.entries;
}
