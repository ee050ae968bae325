-- ===== src/Jobs/Wait/Valid.antt =====
-- Every operation that waits keeps the job table and the process table valid, and does not fault.
use ydsh.Prelude.{
  ◌∙◌, Bool, List, Option, [], arith, false, get_elem?, get_or, if◌then◌else◌, inl, inr, none, not,
  refl, set, some, suc, true, zero, ℕ, ◌||◌, ◌∷◌, ◌≡◌, ap, ◌⊎◌, sym,
}
use ydsh.Prelude.Int.{eqb_ℤ, ltb_ℤ, pos, ℤ, ◌<ℤ◌}
use ydsh.Jobs.Process.{WaitOp, WaitResult, Proc, no_pid, World}
use ydsh.Jobs.Job.{Job, available, wait_job}
use ydsh.Jobs.ProcTable.{Entry}
use ydsh.Jobs.JobTable.{JobTable, JobRef, job_at, put_job, find_iter, no_job}
use ydsh.Jobs.Wait.Blocking.{update_proc_state-found}
use ydsh.Jobs.Wait.{
  wait_ended, Changed, update_proc, update_proc_state, Next, end_round, after_update, poll_on,
  wait_on, Round, leave, again, round, Outcome, wait_loop, unless_stopped, is_untraced,
  last_stopped, wait_for_job_impl, then_remove, wait_for_job, poll, wait_for_any, wait_each,
  wait_for_all,
}
use mathlib.Core.Path.{subst}
use ydsh.Jobs.Wait.Invariant.{IsValid, update_proc-IsValid, remove-IsValid}

-- waitpid reports a process that the table holds, of a job that the table holds.
pub record Reported (ret : WaitResult) (t : JobTable) (i : ℕ) (e : Entry) (r : JobRef)
    : Type 0 where
  pub held : get_elem? t.proc_table.entries i ≡ some e
  pub positive : pos 0 <ℤ e.pid
  pub same : ret.pid ≡ e.pid
  pub owner : find_iter e.job_id t ≡ some r

abbrev pub no_report : WaitResult → Bool
no_report ret = eqb_ℤ ret.pid (pos 0) || eqb_ℤ ret.pid no_pid

-- Each answer of waitpid that reports a process reports one that the table holds by then.
abbrev pub Answered : JobTable → List WaitResult → Type 0
Answered t [] = Unit
Answered t (ret ∷ rest) =
    ((no_report ret ≡ true) × Answered t rest)
    ⊎ ((i : ℕ) × (e : Entry) × (r : JobRef) × Reported ret t i e r
        × Answered (update_proc ret i e.proc_offset r t) rest)

-- An operation does not fault, and what it leaves satisfies the invariant.
abbrev pub Leaves : Outcome → Type 0
Leaves none = ⊥
Leaves (some (t, status, rest)) = IsValid t

-- The same, and the answers that are left fit the table.
abbrev Keeps : Outcome → Type 0
Keeps none = ⊥
Keeps (some (t, status, rest)) = IsValid t × Answered t rest

abbrev KeepsChange : List WaitResult → Option (JobTable × Changed) → Type 0
KeepsChange rest none = ⊥
KeepsChange rest (some (t, changed)) = IsValid t × Answered t rest

-- An answer that reports nothing changes nothing.
Answered-after :
    (ret : WaitResult) (t : JobTable) (rest : List WaitResult)
    → no_report ret ≡ true
    → Answered t (ret ∷ rest)
    → Answered t rest
Answered-after ret t rest h (inl (q, a)) = a
Answered-after ret t rest h (inr (i, e, r, rep, a)) =
    let same = rep.same in let positive = rep.positive in absurd (ground arith)

update_proc_state-Keeps :
    (ret : WaitResult) (t : JobTable) (rest : List WaitResult)
    → no_report ret ≡ false
    → IsValid t
    → Answered t (ret ∷ rest)
    → KeepsChange rest (update_proc_state ret t)
update_proc_state-Keeps ret t rest h v (inl (q, a)) = absurd (cc)
update_proc_state-Keeps ret t rest h v (inr (i, e, r, rep, a)) =
    subst (KeepsChange rest)
      (sym (update_proc_state-found ret t i e r v.entries rep.held rep.positive rep.same rep.owner))
      (update_proc-IsValid ret i e.proc_offset r t v, a)

Keeps-if :
    (b : Bool) (x y : Outcome)
    → (b ≡ true → Keeps x)
    → (b ≡ false → Keeps y)
    → Keeps (if b then x else y)
Keeps-if true x y hx hy = hx refl
Keeps-if false x y hx hy = hy refl

end_round-Keeps :
    (o : Round) (t : JobTable) (rest : List WaitResult) (next : Next)
    → IsValid t × Answered t rest
    → ((t' : JobTable) (status : ℤ) → IsValid t' × Answered t' rest → Keeps (next t' status))
    → Keeps (end_round o t rest next)
end_round-Keeps (leave status) t rest next v keep = v
end_round-Keeps (again status) t rest next v keep = keep t status v

after_update-Keeps :
    (op : WaitOp) (job : Option JobRef) (last : ℤ) (rest : List WaitResult)
    (o : Option (JobTable × Changed)) (next : Next)
    → KeepsChange rest o
    → ((t' : JobTable) (status : ℤ) → IsValid t' × Answered t' rest → Keeps (next t' status))
    → Keeps (after_update op job last rest o next)
after_update-Keeps op job last rest none next v keep = absurd v
after_update-Keeps op job last rest (some (t, changed)) next v keep =
    end_round-Keeps (round op job t last changed) t rest next v keep

wait_loop-Keeps :
    (op : WaitOp) (job : Option JobRef) (t : JobTable) (last : ℤ) (answers : List WaitResult)
    → IsValid t × Answered t answers
    → Keeps (wait_loop op job t last answers)
unfolding wait_loop
wait_loop-Keeps op job t last [] v = v
wait_loop-Keeps op job t last (ret ∷ rest) (v, a) =
    Keeps-if (eqb_ℤ ret.pid (pos 0)) _ _ (λ z. (v, Answered-after ret t rest (ground arith) a))
      (λ z.
        Keeps-if (eqb_ℤ ret.pid no_pid) _ _ (λ f. (v, Answered-after ret t rest (ground arith) a))
          (λ f.
            after_update-Keeps op job last rest (update_proc_state ret t) _
              (update_proc_state-Keeps ret t rest (ground arith) v a)
              (λ t' status v'. wait_loop-Keeps op job t' status rest v')))

unless_stopped-Keeps :
    (op : WaitOp) (job : Option JobRef) (t : JobTable) (answers : List WaitResult) (o : Option Proc)
    → IsValid t × Answered t answers
    → Keeps (unless_stopped op job t answers o)
unless_stopped-Keeps op job t answers none v = wait_loop-Keeps op job t (pos 0) answers v
unless_stopped-Keeps op job t answers (some p) v = v

-- Waiting for a job that has ended asks for nothing and changes nothing.
wait_job-ended : (op : WaitOp) (j : Job) (w : World) → available j ≡ false → (wait_job op j w).0 ≡ j
unfolding wait_job
wait_job-ended op j w h = ground arith

wait_job-ended_world :
    (op : WaitOp) (j : Job) (w : World) → available j ≡ false → (wait_job op j w).2 ≡ w
unfolding wait_job
wait_job-ended_world op j w h = ground arith

set-same : (h : List Job) (r : ℕ) → set h r (get_or h r no_job) ≡ h
set-same [] r = refl
set-same (k ∷ h) zero = refl
set-same (k ∷ h) (suc r) = ap (λ t. k ∷ t) (set-same h r)

wait_ended-Keeps :
    (op : WaitOp) (r : JobRef) (t : JobTable) (answers : List WaitResult)
    → available (job_at t r) ≡ false
    → IsValid t × Answered t answers
    → Keeps (wait_ended op r t answers)
wait_ended-Keeps op r t answers h v =
    let w : World = record { answers = answers; calls = [] } in
    let table : put_job r (wait_job op (job_at t r) w).0 t ≡ t =
      ap (λ j. put_job r j t) (wait_job-ended op (job_at t r) w h)
      ∙ ap (λ x. record t { heap = x }) (set-same t.heap r) in
    let left : (wait_job op (job_at t r) w).2.answers ≡ answers =
      ap (λ (x : World). x.answers) (wait_job-ended_world op (job_at t r) w h) in
    rw (table, left) v

wait_for_job_impl-Keeps :
    (op : WaitOp) (job : Option JobRef) (t : JobTable) (answers : List WaitResult)
    → IsValid t × Answered t answers
    → Keeps (wait_for_job_impl op job t answers)
unfolding wait_for_job_impl
wait_for_job_impl-Keeps op none t answers v = wait_loop-Keeps op none t (pos 0) answers v
wait_for_job_impl-Keeps op (some r) t answers v =
    Keeps-if (not (available (job_at t r))) _ _
      (λ h. wait_ended-Keeps op r t answers (ground arith) v)
      (λ h.
        Keeps-if (is_untraced op) _ _
          (λ u. unless_stopped-Keeps op (some r) t answers (last_stopped t (some r)) v)
          (λ u. wait_loop-Keeps op (some r) t (pos 0) answers v))

then_remove-Leaves : (o : Outcome) → Keeps o → Leaves (then_remove o)
then_remove-Leaves none v = v
then_remove-Leaves (some (t, status, rest)) v = remove-IsValid t (v.0)

poll_on-Keeps :
    (rest : List WaitResult) (o : Option (JobTable × Changed)) (next : JobTable → Outcome)
    → KeepsChange rest o
    → ((t : JobTable) → IsValid t × Answered t rest → Keeps (next t))
    → Keeps (poll_on o next)
poll_on-Keeps rest none next v keep = absurd v
poll_on-Keeps rest (some (t, changed)) next v keep = keep t v

poll-Keeps :
    (t : JobTable) (answers : List WaitResult)
    → IsValid t × Answered t answers
    → Keeps (poll t answers)
unfolding poll
poll-Keeps t [] v = v
poll-Keeps t (ret ∷ rest) (v, a) =
    Keeps-if (no_report ret) _ _ (λ h. (v, Answered-after ret t rest h a))
      (λ h.
        poll_on-Keeps rest (update_proc_state ret t) _ (update_proc_state-Keeps ret t rest h v a)
          (λ t' v'. poll-Keeps t' rest v'))

wait_on-Keeps :
    (wait_one : Bool) (o : Outcome) (next : JobTable → ℤ → List WaitResult → Outcome)
    → Keeps o
    → ((t : JobTable) (status : ℤ) (rest : List WaitResult)
        → IsValid t × Answered t rest
        → Keeps (next t status rest))
    → Keeps (wait_on wait_one o next)
wait_on-Keeps wait_one none next v keep = absurd v
wait_on-Keeps wait_one (some (t, status, rest)) next v keep =
    Keeps-if (ltb_ℤ status (pos 0) || wait_one) _ _ (λ h. v) (λ h. keep t status rest v)

wait_each-Keeps :
    (op : WaitOp) (wait_one : Bool) (rs : List JobRef) (t : JobTable) (last : ℤ)
    (answers : List WaitResult)
    → IsValid t × Answered t answers
    → Keeps (wait_each op wait_one rs t last answers)
unfolding wait_each
wait_each-Keeps op wait_one [] t last answers v = v
wait_each-Keeps op wait_one (r ∷ rs) t last answers v =
    Keeps-if (job_at t r).disown _ _ (λ d. wait_each-Keeps op wait_one rs t last answers v)
      (λ d.
        wait_on-Keeps wait_one (wait_for_job_impl op (some r) t answers) _
          (wait_for_job_impl-Keeps op (some r) t answers v)
          (λ t' status rest v'. wait_each-Keeps op wait_one rs t' status rest v'))

-- The three operations that wait, for one job, for any or for all, do not fault, and the job table
-- and the process table they leave are valid, if each process that waitpid reports is one that the
-- table holds by then, of a job that it holds.
pub waits-Leave :
    (op : WaitOp) (job : Option JobRef) (wait_one : Bool) (t : JobTable) (answers : List WaitResult)
    → IsValid t
    → Answered t answers
    → Leaves (wait_for_job op job t answers)
      × Leaves (wait_for_any t answers)
      × Leaves (wait_for_all op wait_one t answers)
unfolding wait_for_job wait_for_any wait_for_all
waits-Leave op job wait_one t answers v a = (
  then_remove-Leaves (wait_for_job_impl op job t answers)
      (wait_for_job_impl-Keeps op job t answers (v, a)),
  then_remove-Leaves (poll t answers) (poll-Keeps t answers (v, a)),
  then_remove-Leaves (wait_each op wait_one t.jobs t (pos 0) answers)
      (wait_each-Keeps op wait_one t.jobs t (pos 0) answers (v, a)),
)
