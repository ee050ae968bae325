-- ===== src/Jobs/Process.antt =====
-- src/job.h and src/job.cpp: `WaitOp`, `WaitResult`, `Proc`, and the part of the system that they
-- rest on. waitpid(2) and kill(2) are not the program's: the results that waitpid gives, in order,
-- are an argument, and the signals sent are a list.
pub mod Lifecycle
use ydsh.Prelude.{ℕ, ◌+◌, ◌%◌, ◌^◌, Bool, true, false, List, [], ◌∷◌, if◌then◌else◌, not, ◌||◌}
use ydsh.Prelude.Int.{ℤ, pos, negsuc, ltb_ℤ, eqb_ℤ}

-- pid_t is signed; -1 stands for no process.
abbrev pub Pid : Type 0
Pid = ℤ

abbrev pub no_pid : Pid
no_pid = negsuc 0

pub data WaitOp : Type 0 where
  blocking block_untraced nonblocking : WaitOp

-- A status word as the W* macros of <sys/wait.h> read it. `other` passes none of their tests.
pub data Status : Type 0 where
  exited : ℕ → Status
  signaled : ℕ → Status
  stopped : ℕ → Status
  continued : Status
  other : Status

pub record WaitResult : Type 0 where
  pub pid : Pid
  pub status : Status

-- The system as the program sees it: what waitpid will answer, in order, and the calls made so far,
-- the latest first. When all is answered waitpid fails with ECHILD.
pub record World : Type 0 where
  pub answers : List WaitResult
  pub calls : List (Pid × WaitOp)

abbrev pub wait_failed : WaitResult
wait_failed = record { pid = no_pid; status = other }

abbrev pub first_answer : List WaitResult → WaitResult × List WaitResult
first_answer [] = (wait_failed, [])
first_answer (r ∷ rest) = (r, rest)

-- `waitForProc`
unfoldable pub wait_for_proc : Pid → WaitOp → World → WaitResult × World
wait_for_proc pid op w =
    let (ret, rest) = first_answer w.answers in
    (ret, record { answers = rest; calls = (pid, op) ∷ w.calls })

pub data ProcState : Type 0 where
  running stopped terminated : ProcState

abbrev pub is_terminated : ProcState → Bool
is_terminated terminated = true
is_terminated _ = false

abbrev pub is_stopped : ProcState → Bool
is_stopped ProcState.stopped = true
is_stopped _ = false

abbrev pub is_running : ProcState → Bool
is_running running = true
is_running _ = false

pub record Proc : Type 0 where
  pub pid : Pid
  pub state : ProcState
  -- unsigned char
  pub exit_status : ℕ

abbrev pub new_proc : Pid → Proc
new_proc pid = record { pid = pid; state = running; exit_status = 0 }

abbrev pub to_uchar : ℕ → ℕ
to_uchar n = n % 2 ^ 8

-- The state changes of `updateState`, by the status word. A terminated process loses its pid.
unfoldable pub apply_status : Status → Proc → Proc
apply_status (exited code) p = record p {
  pid = no_pid;
  state = terminated;
  exit_status = to_uchar code;
}
apply_status (signaled sig) p = record p {
  pid = no_pid;
  state = terminated;
  exit_status = to_uchar (sig + 128);
}
apply_status (Status.stopped sig) p = record p {
  state = ProcState.stopped;
  exit_status = to_uchar (sig + 128);
}
apply_status continued p = record p { state = running }
apply_status other p = p

-- The process after the update, and what the call returns. The message on stderr is not modelled.
unfoldable pub update_state : WaitResult → Proc → Proc × Bool
unfolding apply_status
update_state ret p =
    if is_terminated p.state || not (eqb_ℤ ret.pid p.pid)
    then (p, false)
    else (apply_status ret.status p, true)

-- A stopped process is only polled.
abbrev pub effective_op : WaitOp → ProcState → WaitOp
effective_op op ProcState.stopped = nonblocking
effective_op op _ = op

-- What `wait` does with the answer.
take_answer : WaitResult → Proc → Proc × ℤ
unfolding update_state
take_answer ret p =
    if ltb_ℤ (pos 0) ret.pid
    then (let p' = (update_state ret p).0 in (p', pos p'.exit_status))
    else if ltb_ℤ ret.pid (pos 0)
    then (p, negsuc 0)
    else (p, pos p.exit_status)

-- `Proc::wait`: the process, the result (-1 if waitpid failed) and the system.
unfoldable pub wait : WaitOp → Proc → World → Proc × ℤ × World
unfolding take_answer wait_for_proc
wait op p w =
    if is_terminated p.state
    then (p, pos p.exit_status, w)
    else (let (ret, w') = wait_for_proc p.pid (effective_op op p.state) w in
        let (p', status) = take_answer ret p in (p', status, w'))
