-- ===== src/Jobs/Job.antt =====
-- src/job.h and src/job.cpp: `JobObject`. The file descriptor objects `inObj` and `outObj` are only
-- stored and are left out; a saved STDIN is a descriptor, -1 if there is none.
pub mod Exits
use ydsh.Prelude.{
  Bool, List, Option, [], false, get_or, if◌then◌else◌, length, none, not, some, true, ℕ, ◌&&◌,
  ◌++◌, ◌+◌, ◌-◌, ◌==◌, ◌∷◌,
}
use ydsh.Prelude.Int.{eqb_ℤ, ltb_ℤ, negsuc, pos, ℤ, ◌-ℤ◌}
use ydsh.Jobs.Process
use ydsh.Jobs.Process.{Pid, Proc, World, WaitOp, no_pid, is_terminated, wait}

pub data JobState : Type 0 where
  running terminated uncontrolled : JobState

pub record Job : Type 0 where
  pub old_stdin : ℤ
  -- unsigned short; 0 if the job is in no table
  pub job_id : ℕ
  pub state : JobState
  pub disown : Bool
  pub procs : List Proc

-- The constructor; `dup` is what F_DUPFD_CLOEXEC gives for STDIN.
unfoldable pub create : List Proc → Bool → ℤ → Job
create procs save_stdin dup = record {
  old_stdin = if save_stdin then dup else negsuc 0;
  job_id = 0;
  state = running;
  disown = false;
  procs = procs;
}

abbrev pub available : Job → Bool
available j = elim j.state [ running ↦ true | _ ↦ false ]

abbrev pub is_controlled : Job → Bool
is_controlled j = elim j.state [ uncontrolled ↦ false | _ ↦ true ]

abbrev pub no_proc : Proc
no_proc = record { pid = no_pid; state = Process.terminated; exit_status = 0 }

abbrev pub proc_at : ℕ → Job → Proc
proc_at i j = get_or j.procs i no_proc

-- `restoreStdin`: the job, the result, and the descriptor that is put back on STDIN and closed.
unfoldable pub restore_stdin : Job → Job × Bool × Option ℤ
restore_stdin j =
    if ltb_ℤ (negsuc 0) j.old_stdin && is_controlled j
    then (record j { old_stdin = negsuc 0 }, true, some j.old_stdin)
    else (j, false, none)

-- The calls kill(pid, sig) that `Proc::send` makes.
abbrev pub send_proc : ℕ → Proc → List (Pid × ℕ)
send_proc sig p = if ltb_ℤ (pos 0) p.pid then (p.pid, sig) ∷ [] else []

abbrev pub send_procs : ℕ → List Proc → List (Pid × ℕ)
send_procs sig [] = []
send_procs sig (p ∷ ps) = send_proc sig p ++ send_procs sig ps

-- `JobObject::send`: the calls of kill. `getpgid` is the system's.
unfoldable pub send : (Pid → Pid) → ℕ → Job → List (Pid × ℕ)
unfolding ◌-ℤ◌
send getpgid sig j =
    let pid = (proc_at 0 j).pid in
    if not (available j)
    then []
    else if eqb_ℤ pid (getpgid pid)
    then (pos 0 -ℤ pid, sig) ∷ []
    else send_procs sig j.procs

abbrev pub count_terminated : List Proc → ℕ
count_terminated [] = 0
count_terminated (p ∷ ps) = (if is_terminated p.state then 1 else 0) + count_terminated ps

-- `JobObject::updateState`
unfoldable pub update_state : Job → Job
update_state j =
    if available j && count_terminated j.procs == length j.procs
    then record j { state = terminated }
    else j

-- The status of the last process.
unfoldable pub exit_status : Job → ℕ
exit_status j = (proc_at (length j.procs - 1) j).exit_status

abbrev pub prepend : Proc → List Proc × ℤ × World → List Proc × ℤ × World
prepend p (ps, last, w) = (p ∷ ps, last, w)

-- A process that cannot be waited for ends the loop.
abbrev pub keep_on :
    List Proc → Proc × ℤ × World → (ℤ → World → List Proc × ℤ × World) → List Proc × ℤ × World
keep_on ps (p, status, w) next =
    if ltb_ℤ status (pos 0) then (p ∷ ps, status, w) else prepend p (next status w)

-- The loop of `JobObject::wait`.
unfoldable pub wait_procs : WaitOp → ℤ → List Proc → World → List Proc × ℤ × World
unfolding wait
wait_procs op last [] w = ([], last, w)
wait_procs op last (p ∷ ps) w = keep_on ps (wait op p w) (λ status w'. wait_procs op status ps w')

abbrev pub after_wait : Job → ℤ → World → Job × ℤ × World
after_wait j last w =
    if ltb_ℤ last (pos 0)
    then (j, last, w)
    else (let j' = update_state j in (j', if available j' then last else pos (exit_status j'), w))

abbrev pub finish : Job → List Proc × ℤ × World → Job × ℤ × World
finish j (ps, last, w) = after_wait (record j { procs = ps }) last w

-- `JobObject::wait`
unfoldable pub wait_job : WaitOp → Job → World → Job × ℤ × World
unfolding update_state exit_status wait_procs
wait_job op j w =
    if not (is_controlled j)
    then (j, negsuc 0, w)
    else if available j
    then finish j (wait_procs op (pos 0) j.procs w)
    else (j, pos (exit_status j), w)
