-- ===== src/Jobs/Wait/Update.antt =====
-- What `updateProcState` changes.
use ydsh.Prelude.{
  Bool, Bool-cases, List, [], arith, false, get_elem?, get_or, get_or-set_ne, get_or-set_self,
  if◌then◌else◌, inl, inr, length, ltb, not, refl, set, some, sym, true, ℕ, ◌%◌, ◌&&◌, ◌+◌, ◌<◌,
  ◌==◌, ◌∙◌, ◌∷◌, ◌≡◌, ◌≢◌, ◌≤◌, ap,
}
use ydsh.Jobs.Process
use ydsh.Jobs.Process.{
  WaitResult, Proc, ProcState, Status, exited, signaled, continued, other, no_pid, is_terminated,
  apply_status, terminated, running,
}
use ydsh.Jobs.Job
use ydsh.Jobs.Job.{Job, available, proc_at, count_terminated}
use ydsh.Jobs.ProcTable.{ProcTable, Entry, delete_entry, is_deleted}
use ydsh.Jobs.ProcTable.Order
use ydsh.Jobs.JobTable.{JobTable, JobRef, job_at, find_iter, no_job}
use ydsh.Jobs.Wait.{update_proc, update_proc_state}
use ydsh.Jobs.Wait.Invariant.{id-update_state}
use ydsh.Jobs.Wait.Blocking.{update_proc_state-found}
use ydsh.Prelude.Int.{eqb_ℤ, pos, ◌<ℤ◌}

-- A process after a status was reported for it. When it has ended its pid is given up.
abbrev pub received : Status → Proc → Proc
received (exited code) p = record { pid = no_pid; state = terminated; exit_status = code % 256 }
received (signaled sig) p = record {
  pid = no_pid;
  state = terminated;
  exit_status = (sig + 128) % 256;
}
received (Status.stopped sig) p = record p {
  state = ProcState.stopped;
  exit_status = (sig + 128) % 256;
}
received continued p = record p { state = running }
received other p = p

abbrev pub ends : Status → Bool
ends (exited code) = true
ends (signaled sig) = true
ends (Status.stopped sig) = false
ends continued = false
ends other = false

apply_status-eq : (s : Status) (p : Proc) → apply_status s p ≡ received s p
unfolding apply_status
apply_status-eq (exited code) p = refl
apply_status-eq (signaled sig) p = refl
apply_status-eq (Status.stopped sig) p = refl
apply_status-eq continued p = refl
apply_status-eq other p = refl

is_terminated-received :
    (s : Status) (p : Proc)
    → is_terminated p.state ≡ false
    → is_terminated (received s p).state ≡ ends s
is_terminated-received (exited code) p h = refl
is_terminated-received (signaled sig) p h = refl
is_terminated-received (Status.stopped sig) p h = refl
is_terminated-received continued p h = refl
is_terminated-received other p h = h

update_state-received :
    (ret : WaitResult) (p : Proc)
    → is_terminated p.state ≡ false
    → ret.pid ≡ p.pid
    → (Process.update_state ret p).0 ≡ received ret.status p
unfolding Process.update_state
update_state-received ret p h same =
    let e : eqb_ℤ ret.pid p.pid ≡ true = ground arith in rw (h, e) (apply_status-eq ret.status p)

abbrev pub all_ended : List Proc → Bool
all_ended [] = true
all_ended (p ∷ ps) = is_terminated p.state && all_ended ps

count_terminated-le : (ps : List Proc) → count_terminated ps ≤ length ps
count_terminated-le [] = omega arith
count_terminated-le (p ∷ ps) = let le = count_terminated-le ps in ground arith

count_terminated-all : (ps : List Proc) → (count_terminated ps == length ps) ≡ all_ended ps
count_terminated-all [] = refl
count_terminated-all (p ∷ ps) = elim (Bool-cases (is_terminated p.state)) [
  | inl e ↦ let ih = count_terminated-all ps in rw e (ground arith)
  | inr e ↦ let le = count_terminated-le ps in rw e (ground arith)
]

-- The table after a status was reported for the process at an offset of a job.
pub record Updated (ret : WaitResult) (t : JobTable) (i : ℕ) (e : Entry) (r : JobRef)
    (t' : JobTable) : Type 0 where
  pub jobs : t'.jobs ≡ t.jobs
  pub latest : t'.latest ≡ t.latest
  pub others : (x : JobRef) → x ≢ r → job_at t' x ≡ job_at t x
  pub id : (job_at t' r).job_id ≡ (job_at t r).job_id
  pub procs :
      (job_at t' r).procs
      ≡ set
          (job_at t r).procs
          e.proc_offset
          (received ret.status (proc_at e.proc_offset (job_at t r)))
  pub ended :
      available (job_at t' r) ≡ (available (job_at t r) && not (all_ended (job_at t' r).procs))
  pub entries : t'.proc_table.entries ≡ (
      if ends ret.status
      then set t.proc_table.entries i (record e { job_id = 0 })
      else t.proc_table.entries)

module _ (ret : WaitResult) (t : JobTable) (i : ℕ) (e : Entry) (r : JobRef) where
  abbrev after : JobTable
  after = update_proc ret i e.proc_offset r t

  abbrev before_proc : Proc
  before_proc = proc_at e.proc_offset (job_at t r)

  abbrev changed : Job
  changed = record (job_at t r) {
    procs = set (job_at t r).procs e.proc_offset (Process.update_state ret before_proc).0;
  }

  heap-update_proc : after.heap ≡ set t.heap r (Job.update_state changed)
  heap-update_proc =
      elim (Bool-cases (is_terminated (Process.update_state ret before_proc).0.state)) [
        | inl h ↦ rw h refl
        | inr h ↦ rw h refl
      ]

  jobs-update_proc : (after.jobs ≡ t.jobs) × (after.latest ≡ t.latest)
  jobs-update_proc =
      elim (Bool-cases (is_terminated (Process.update_state ret before_proc).0.state)) [
        | inl h ↦ rw h (refl, refl)
        | inr h ↦ rw h (refl, refl)
      ]

  table-update_proc : after.proc_table ≡ (
      if is_terminated (Process.update_state ret before_proc).0.state
      then delete_entry i t.proc_table
      else t.proc_table)
  table-update_proc =
      elim (Bool-cases (is_terminated (Process.update_state ret before_proc).0.state)) [
        | inl h ↦ rw h refl
        | inr h ↦ rw h refl
      ]

procs-update_state : (j : Job) → (Job.update_state j).procs ≡ j.procs
unfolding Job.update_state
procs-update_state j = ground arith

available-update_state :
    (j : Job) → available (Job.update_state j) ≡ (available j && not (all_ended j.procs))
unfolding Job.update_state
available-update_state j =
    let c = count_terminated-all j.procs in
    elim (Bool-cases (available j && count_terminated j.procs == length j.procs)) [
      | inl h ↦ rw h (ground arith)
      | inr h ↦ rw h (ground arith)
    ]

not_deleted :
    (e : Entry) (t : JobTable) (r : JobRef) → find_iter e.job_id t ≡ some r → is_deleted e ≡ false
unfolding find_iter
not_deleted e t r h = elim (Bool-cases (is_deleted e)) [
  | inl d ↦ (let z : ltb 0 e.job_id ≡ false = ground arith in absurd (ground arith))
  | inr d ↦ d
]

entries-delete_entry :
    (t : ProcTable) (i : ℕ) (e : Entry)
    → get_elem? t.entries i ≡ some e
    → is_deleted e ≡ false
    → (delete_entry i t).entries ≡ set t.entries i (record e { job_id = 0 })
unfolding delete_entry
entries-delete_entry t i e h d = rw (h, d) refl

-- The tables are valid, and waitpid reports a process that runs or is stopped, which the process table
-- holds, of a job that the job table holds. Then nothing faults and the job and the offset of that
-- process are answered; it gets the state and the exit code of the status, the other processes of the
-- job and the other jobs stay as they are, the job has ended if it had or if all of its processes have
-- now, and the entry of the process is deleted if it has ended.
pub update_proc_state_lem :
    (ret : WaitResult) (t : JobTable) (i : ℕ) (e : Entry) (r : JobRef)
    → Order.IsValid t.proc_table
    → get_elem? t.proc_table.entries i ≡ some e
    → pos 0 <ℤ e.pid
    → ret.pid ≡ e.pid
    → find_iter e.job_id t ≡ some r
    → r < length t.heap
    → (proc_at e.proc_offset (job_at t r)).pid ≡ e.pid
    → is_terminated (proc_at e.proc_offset (job_at t r)).state ≡ false
    → (t' : JobTable) × (update_proc_state ret t ≡ some (t', some (r, e.proc_offset)))
      × Updated ret t i e r t'
update_proc_state_lem ret t i e r v g positive same found inside its_pid runs =
    let p = before_proc ret t i e r in
    let got : (Process.update_state ret p).0 ≡ received ret.status p =
      update_state-received ret p runs (same ∙ sym its_pid) in
    let here : job_at (after ret t i e r) r ≡ Job.update_state (changed ret t i e r) =
      ap (λ h. get_or h r no_job) (heap-update_proc ret t i e r)
      ∙ get_or-set_self t.heap r (Job.update_state (changed ret t i e r)) no_job inside in
    let procs_here : (job_at (after ret t i e r) r).procs ≡ (changed ret t i e r).procs =
      ap (λ (j : Job). j.procs) here ∙ procs-update_state (changed ret t i e r) in
    let ended_now : is_terminated (Process.update_state ret p).0.state ≡ ends ret.status =
      ap (λ (q : Proc). is_terminated q.state) got ∙ is_terminated-received ret.status p runs in
    (
      after ret t i e r,
      update_proc_state-found ret t i e r v g positive same found,
      record {
        jobs = (jobs-update_proc ret t i e r).0;
        latest = (jobs-update_proc ret t i e r).1;
        others = λ x other.
            ap (λ h. get_or h x no_job) (heap-update_proc ret t i e r)
            ∙ get_or-set_ne t.heap r x (Job.update_state (changed ret t i e r)) no_job other;
        id = ap (λ (j : Job). j.job_id) here ∙ id-update_state (changed ret t i e r);
        procs = procs_here ∙ ap (λ q. set (job_at t r).procs e.proc_offset q) got;
        ended =
            ap available here
            ∙ available-update_state (changed ret t i e r)
            ∙ ap (λ ps. available (job_at t r) && not (all_ended ps)) (sym procs_here);
        entries =
            ap (λ (q : ProcTable). q.entries) (table-update_proc ret t i e r)
            ∙ ap (λ b. (if b then delete_entry i t.proc_table else t.proc_table).entries) ended_now
            ∙ elim (Bool-cases (ends ret.status)) [
              | inl b ↦ rw b (entries-delete_entry t.proc_table i e g (not_deleted e t r found))
              | inr b ↦ rw b refl
            ];
      },
    )
