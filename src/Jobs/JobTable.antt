-- ===== src/Jobs/JobTable.antt =====
-- src/job.h and src/job.cpp: `JobTable`. A `Job` is a shared pointer: the objects stand in a heap and
-- the table holds their addresses, so that `latest`, the vector and a caller's job are one object.
pub mod Ids
pub mod Attach
use ydsh.Prelude.{
  Bool, List, Option, [], drop, false, get_elem?, get_or, if◌then◌else◌, length, ltb, none, not,
  set, some, suc, take, true, ℕ, ◌%◌, ◌++◌, ◌+◌, ◌==◌, ◌^◌, ◌∷◌,
}
use ydsh.Prelude.Int.{pos}
use ydsh.Array.{halve}
use ydsh.Jobs.Process
use ydsh.Jobs.Process.{Proc}
use ydsh.Jobs.Job
use ydsh.Jobs.Job.{Job}
use ydsh.Jobs.ProcTable
use ydsh.Jobs.ProcTable.{ProcTable, add_proc}

abbrev pub JobRef : Type 0
JobRef = ℕ

pub record JobTable : Type 0 where
  -- all job objects, by address
  pub heap : List Job
  pub jobs : List JobRef
  pub proc_table : ProcTable
  pub latest : Option JobRef

-- Stands for an object at an address that is not in the heap; no table holds one.
abbrev pub no_job : Job
no_job = Job.create [] false (pos 0)

abbrev pub job_at : JobTable → JobRef → Job
job_at t r = get_or t.heap r no_job

abbrev pub id_at : JobTable → JobRef → ℕ
id_at t r = (job_at t r).job_id

abbrev pub put_job : JobRef → Job → JobTable → JobTable
put_job r j t = record t { heap = set t.heap r j }

-- `findEmptyEntry`
abbrev pub in_place : JobTable → Option JobRef → ℕ → Bool
in_place t none i = false
in_place t (some r) i = id_at t r == i + 1

unfoldable pub find_empty_entry : JobTable → ℕ
unfolding halve
find_empty_entry t =
    halve (length t.jobs + 1) (λ i. in_place t (get_elem? t.jobs i) i) 0 (length t.jobs)

-- std::lower_bound by `Comparator`
abbrev pub lower_bound_id : JobTable → ℕ → List JobRef → ℕ
lower_bound_id t id [] = 0
lower_bound_id t id (r ∷ rs) = if ltb (id_at t r) id then suc (lower_bound_id t id rs) else 0

abbrev pub has_id : JobTable → ℕ → Option JobRef → Option JobRef
has_id t id none = none
has_id t id (some r) = if id_at t r == id then some r else none

-- `findIter`: the job that the iterator points to.
unfoldable pub find_iter : ℕ → JobTable → Option JobRef
find_iter id t =
    if ltb 0 id then has_id t id (get_elem? t.jobs (lower_bound_id t id t.jobs)) else none

abbrev pub unless_disowned : JobTable → Option JobRef → Option JobRef
unless_disowned t none = none
unless_disowned t (some r) = if (job_at t r).disown then none else some r

-- `find`
unfoldable pub find : ℕ → JobTable → Option JobRef
unfolding find_iter
find id t = unless_disowned t (find_iter id t)

-- `ProcTable::add`: one entry for each process of the job.
unfoldable pub add_procs : ℕ → ℕ → List Proc → ProcTable → ProcTable
add_procs id i [] pt = pt
add_procs id i (p ∷ ps) pt = add_procs id (i + 1) ps (add_proc p.pid id i pt).0

abbrev pub insert_ref : ℕ → JobRef → List JobRef → List JobRef
insert_ref i r rs = take i rs ++ r ∷ drop i rs

-- The new id, as an unsigned short.
abbrev pub new_id : ℕ → ℕ
new_id i = (i + 1) % 2 ^ 16

unfoldable pub attach : JobRef → Bool → JobTable → JobTable
unfolding find_empty_entry add_procs
attach r disowned t =
    let i = find_empty_entry t in
    let j = record (job_at t r) { job_id = new_id i } in
    if not (id_at t r == 0) then t else record {
      heap = set t.heap r (if disowned then record j { disown = true } else j);
      jobs = insert_ref i r t.jobs;
      proc_table = add_procs (new_id i) 0 j.procs t.proc_table;
      latest = if disowned then t.latest else some r;
    }
