-- ===== src/Jobs/Job/Exits.antt =====
-- `JobObject::wait` on a job whose processes all exit: it waits for each of them, in order, and the
-- job has ended with the status of the last.
use ydsh.Prelude.{
  All, List, [], ap, arith, false, get_or, length, refl, suc, true, ℕ, ◌++◌, ◌-◌, ◌∙◌, ◌∷◌, ◌≡◌,
}
use ydsh.Prelude.Int.{eqb_ℤ_refl, ltb_ℤ, pos, ℤ, ◌<ℤ◌}
use ydsh.Jobs.Process
use ydsh.Jobs.Process.{Pid, Proc, WaitOp, WaitResult, World, no_pid, exited, to_uchar, wait}
use ydsh.Jobs.Job.{
  Job, running, terminated, count_terminated, wait_procs, wait_job, exit_status, available,
  is_controlled, no_proc, finish, keep_on, prepend, update_state as update_job,
}

-- A process that runs, and the one that it is after its exit.
abbrev pub Runs : Proc → Type 0
Runs p = (p.state ≡ Process.running) × (pos 0 <ℤ p.pid)

abbrev pub ended : Proc → ℕ → Proc
ended p code = record p { pid = no_pid; state = Process.terminated; exit_status = to_uchar code }

abbrev pub all_ended : List (Proc × ℕ) → List Proc
all_ended [] = []
all_ended ((p, code) ∷ l) = ended p code ∷ all_ended l

abbrev pub procs_of : List (Proc × ℕ) → List Proc
procs_of [] = []
procs_of ((p, code) ∷ l) = p ∷ procs_of l

-- What waitpid answers, and what it is asked.
abbrev pub exits : List (Proc × ℕ) → List WaitResult
exits [] = []
exits ((p, code) ∷ l) = record { pid = p.pid; status = exited code } ∷ exits l

abbrev pub asked : WaitOp → List (Proc × ℕ) → List (Pid × WaitOp) → List (Pid × WaitOp)
asked op [] calls = calls
asked op ((p, code) ∷ l) calls = asked op l ((p.pid, op) ∷ calls)

abbrev pub last_code : ℕ → List (Proc × ℕ) → ℕ
last_code n [] = n
last_code n ((p, code) ∷ l) = last_code (to_uchar code) l

wait-exited :
    (op : WaitOp) (p : Proc) (code : ℕ) (rest : List WaitResult) (calls : List (Pid × WaitOp))
    → Runs p
    → wait op p
        (record { answers = record { pid = p.pid; status = exited code } ∷ rest; calls = calls })
      ≡ (ended p code, pos (to_uchar code), record { answers = rest; calls = (p.pid, op) ∷ calls })
unfolding wait
wait-exited op p code rest calls (runs, positive) =
    let positive' : ltb_ℤ (pos 0) p.pid ≡ true = ground arith in
    rw (runs, positive', eqb_ℤ_refl p.pid)

wait_procs-cons :
    (op : WaitOp) (last : ℤ) (p : Proc) (ps : List Proc) (w : World)
    → wait_procs op last (p ∷ ps) w
      ≡ keep_on ps (wait op p w) (λ status w'. wait_procs op status ps w')
unfolding wait_procs
wait_procs-cons op last p ps w = refl

keep_on-pos :
    (ps : List Proc) (p : Proc) (n : ℕ) (w : World) (next : ℤ → World → List Proc × ℤ × World)
    → keep_on ps (p, pos n, w) next ≡ prepend p (next (pos n) w)
keep_on-pos ps p n w next =
    let not_negative : ltb_ℤ (pos n) (pos 0) ≡ false = ground arith in rw not_negative

wait_procs-exits :
    (op : WaitOp) (n : ℕ) (l : List (Proc × ℕ)) (rest : List WaitResult)
    (calls : List (Pid × WaitOp))
    → All Runs (procs_of l)
    → wait_procs op (pos n) (procs_of l) (record { answers = exits l ++ rest; calls = calls })
      ≡ (all_ended l, pos (last_code n l), record { answers = rest; calls = asked op l calls })
wait_procs-exits op n [] rest calls a = unfold wait_procs in refl
wait_procs-exits op n ((p, code) ∷ l) rest calls a =
    wait_procs-cons op (pos n) p (procs_of l) _
    ∙ ap (λ x. keep_on (procs_of l) x (λ status w'. wait_procs op status (procs_of l) w'))
        (wait-exited op p code (exits l ++ rest) calls a.0)
    ∙ keep_on-pos (procs_of l) (ended p code) (to_uchar code) _
        (λ status w'. wait_procs op status (procs_of l) w')
    ∙ ap (prepend (ended p code))
        (wait_procs-exits op (to_uchar code) l rest ((p.pid, op) ∷ calls) a.1)

count-all_ended : (l : List (Proc × ℕ)) → count_terminated (all_ended l) ≡ length (all_ended l)
count-all_ended [] = refl
count-all_ended ((p, code) ∷ l) = omega (arith, count-all_ended l)

last-cons :
    (x y : Proc) (xs : List Proc) (d : Proc)
    → get_or (x ∷ y ∷ xs) (length (x ∷ y ∷ xs) - 1) d ≡ get_or (y ∷ xs) (length (y ∷ xs) - 1) d
last-cons x y xs d =
    let e₁ : suc (suc (length xs)) - 1 ≡ suc (length xs) = omega arith in
    let e₂ : suc (length xs) - 1 ≡ length xs = omega arith in rw (e₁, e₂)

last_status-cons :
    (d p : Proc) (code : ℕ) (l : List (Proc × ℕ))
    → (get_or (ended p code ∷ all_ended l) (length (ended p code ∷ all_ended l) - 1) d).exit_status
      ≡ last_code (to_uchar code) l
last_status-cons d p code [] = refl
last_status-cons d p code ((q, c) ∷ l) =
    ap (λ (x : Proc). x.exit_status) (last-cons (ended p code) (ended q c) (all_ended l) d)
    ∙ last_status-cons d q c l

last_status :
    (l : List (Proc × ℕ))
    → (get_or (all_ended l) (length (all_ended l) - 1) no_proc).exit_status ≡ last_code 0 l
last_status [] = refl
last_status ((p, code) ∷ l) = last_status-cons no_proc p code l

wait_job-runs :
    (op : WaitOp) (j : Job) (w : World)
    → j.state ≡ running
    → wait_job op j w ≡ finish j (wait_procs op (pos 0) j.procs w)
wait_job-runs op j w run =
    let controlled : is_controlled j ≡ true = rw run in
    let runs : available j ≡ true = rw run in unfold wait_job in rw (controlled, runs)

finish-ended :
    (j : Job) (l : List (Proc × ℕ)) (w : World)
    → j.state ≡ running
    → finish j (all_ended l, pos (last_code 0 l), w)
      ≡ (record j { procs = all_ended l; state = terminated }, pos (last_code 0 l), w)
unfolding update_job exit_status
finish-ended j l w run = ground (arith, count-all_ended l, last_status l)

-- All processes of a job that runs exit, and waitpid says so, in order. Then `wait` asks waitpid for
-- each of them, the job has ended, and the result is the exit code of the last process as a byte (0
-- for a job of no process).
pub wait_job-exits :
    (op : WaitOp) (j : Job) (l : List (Proc × ℕ)) (rest : List WaitResult)
    (calls : List (Pid × WaitOp))
    → j.state ≡ running
    → j.procs ≡ procs_of l
    → All Runs (procs_of l)
    → wait_job op j (record { answers = exits l ++ rest; calls = calls }) ≡ (
      record j { procs = all_ended l; state = terminated },
      pos (last_code 0 l),
      record { answers = rest; calls = asked op l calls },
    )
wait_job-exits op j l rest calls run procs a =
    wait_job-runs op j _ run
    ∙ ap
        (λ ps.
          finish j (wait_procs op (pos 0) ps (record { answers = exits l ++ rest; calls = calls })))
        procs
    ∙ ap (finish j) (wait_procs-exits op 0 l rest calls a)
    ∙ finish-ended j l (record { answers = rest; calls = asked op l calls }) run
