-- ===== src/Jobs/Reap/Order.antt =====
-- `removeTerminatedJobs` keeps the table valid, and its latest job is never one that has ended.
use ydsh.Prelude.{
  All, All-of_forall, Bool, Bool-cases, List, Option, Option-cases, [], ap, arith, false,
  if◌then◌else◌, inl, inr, length, none, refl, some, some_inj, take, true, ℕ, ◌<◌, ◌==◌, ◌∙◌, ◌∷◌,
  ◌≡◌, ◌≢◌, ◌≤◌,
}
use mathlib.Core.Path.{subst}
use ydsh.Array.{filter, compact}
use ydsh.Jobs.Job.{Job, available}
use ydsh.Jobs.ProcTable.{batched_remove}
use ydsh.Jobs.ProcTable.Order
use ydsh.Jobs.ProcTable.Order.{batched_remove-IsValid}
use ydsh.Jobs.JobTable.{JobTable, JobRef, job_at, id_at}
use ydsh.Jobs.JobTable.Ids.{IsOrdered, IsOrdered-same}
use ydsh.Jobs.JobTable.Attach.{IsValid}
use ydsh.Jobs.Reap.{
  is_available_at, any_ended, drop_ended, remove_terminated_jobs, renew_latest, last_owned,
  release_all, release,
}
use ydsh.Jobs.Reap.Keep.{heap-drop_ended, jobs-drop_ended, job_at-drop_ended, dropped}

IsOrdered-weaken :
    (t : JobTable) (a b : ℕ) (rs : List JobRef) → a ≤ b → IsOrdered t b rs → IsOrdered t a rs
IsOrdered-weaken t a b [] h o = tt
IsOrdered-weaken t a b (r ∷ rs) h o = (omega arith, o.1)

IsOrdered-filter :
    (t : JobTable) (keep : JobRef → Bool) (low : ℕ) (rs : List JobRef)
    → IsOrdered t low rs
    → IsOrdered t low (filter keep rs)
IsOrdered-filter t keep low [] o = tt
IsOrdered-filter t keep low (r ∷ rs) o = elim (Bool-cases (keep r)) [
  | inl stays ↦ rw stays (o.0, IsOrdered-filter t keep (id_at t r) rs o.1)
  | inr goes ↦ rw goes (
      IsOrdered-weaken t low (id_at t r) (filter keep rs) (omega arith)
        (IsOrdered-filter t keep (id_at t r) rs o.1))
]

All-filter :
    (P : JobRef → Type 0) (keep : JobRef → Bool) (rs : List JobRef)
    → All P rs
    → All (λ x. P x × (keep x ≡ true)) (filter keep rs)
All-filter P keep [] a = tt
All-filter P keep (r ∷ rs) a = elim (Bool-cases (keep r)) [
  | inl stays ↦ rw stays ((a.0, stays), All-filter P keep rs a.1)
  | inr goes ↦ rw goes (All-filter P keep rs a.1)
]

All-map :
    (P Q : JobRef → Type 0) (rs : List JobRef) → ((x : JobRef) → P x → Q x) → All P rs → All Q rs
All-map P Q [] f a = tt
All-map P Q (r ∷ rs) f a = (f r a.0, All-map P Q rs f a.1)

module _ (t : JobTable) where
  -- What is known of a job that stays.
  abbrev Stays : JobRef → Type 0
  Stays x = (x < length t.heap) × (is_available_at t x ≡ true)

  job_at-Stays : (x : JobRef) → Stays x → job_at (drop_ended t) x ≡ job_at t x
  job_at-Stays x h = job_at-drop_ended t x h.0 ∙ rw h.1 (ground arith)

  stays : IsValid t → All Stays (filter (is_available_at t) t.jobs)
  stays v = All-filter (λ x. x < length t.heap) (is_available_at t) t.jobs v.allocated

  drop_ended-IsValid : IsValid t → IsValid (drop_ended t)
  drop_ended-IsValid v = record {
    ordered = rw (jobs-drop_ended t) (
        IsOrdered-same t (drop_ended t) 0 (filter (is_available_at t) t.jobs)
          (All-map Stays _ _ (λ x h. ap (λ (j : Job). j.job_id) (job_at-Stays x h)) (stays v))
          (IsOrdered-filter t (is_available_at t) 0 t.jobs v.ordered));
    allocated =
        rw (jobs-drop_ended t) (All-map Stays _ _ (λ x h. rw (heap-drop_ended t) h.0) (stays v));
  }

  available-drop_ended :
      IsValid t → All (λ x. is_available_at (drop_ended t) x ≡ true) (drop_ended t).jobs
  available-drop_ended v =
      rw (jobs-drop_ended t)
        (All-map Stays _ _ (λ x h. ap available (job_at-Stays x h) ∙ h.1) (stays v))

last_owned-All :
    (P : JobRef → Type 0) (t : JobTable) (rs : List JobRef) (r : JobRef)
    → All P rs
    → last_owned t rs ≡ some r
    → P r
last_owned-All P t [] r a e = absurd (cc)
last_owned-All P t (y ∷ rs) r a e = elim (Option-cases (last_owned t rs)) [
  | inl nobody ↦ subst P (first (job_at t y).disown (rw nobody at e)) a.0
  | inr (x, found) ↦ last_owned-All P t rs r a.1 (found ∙ rw found at e)
]
  where
    first : (b : Bool) → (if b then none else some y) ≡ some r → y ≡ r
    first true h = cc
    first false h = some_inj h

renew_latest-available :
    (t : JobTable) (o : Option JobRef) (r : JobRef)
    → All (λ x. is_available_at t x ≡ true) t.jobs
    → renew_latest t o ≡ some r
    → is_available_at t r ≡ true
renew_latest-available t none r a e = cc
renew_latest-available t (some q) r a e = elim (Bool-cases (is_available_at t q)) [
  | inl runs ↦ subst (λ x. is_available_at t x ≡ true) (some_inj (rw runs at e)) runs
  | inr ended ↦ last_owned-All (λ x. is_available_at t x ≡ true) t t.jobs r a (rw ended at e)
]

-- Whatever the table holds, it stays valid: the ids grow, and every job is an object of the heap.
pub remove_terminated_jobs-IsValid : (t : JobTable) → IsValid t → IsValid (remove_terminated_jobs t)
unfolding remove_terminated_jobs
remove_terminated_jobs-IsValid t v =
    let t' = record t { proc_table = batched_remove t.proc_table } in
    let v' : IsValid t' = record {
      ordered = IsOrdered-same t t' 0 t.jobs (All-of_forall (λ x. refl) t.jobs) v.ordered;
      allocated = v.allocated;
    } in
    elim (Bool-cases (t.proc_table.deleted_count == 0)) [
      | inl zero_deleted ↦ rw zero_deleted v
      | inr some_deleted ↦ elim (Bool-cases (any_ended t' t.jobs)) [
        | inl some_ended ↦ rw (some_deleted, some_ended) (drop_ended-IsValid t' v')
        | inr none_ended ↦ rw (some_deleted, none_ended) v'
      ]
    ]

any_ended-same :
    (t u : JobTable) (rs : List JobRef) → u.heap ≡ t.heap → any_ended u rs ≡ any_ended t rs
any_ended-same t u [] e = refl
any_ended-same t u (r ∷ rs) e = rw (any_ended-same t u rs e, e)

abbrev removed_entries : JobTable → JobTable
removed_entries t = record t { proc_table = batched_remove t.proc_table }

removed_entries-IsValid : (t : JobTable) → IsValid t → IsValid (removed_entries t)
removed_entries-IsValid t v = record {
  ordered =
      IsOrdered-same t (removed_entries t) 0 t.jobs (All-of_forall (λ x. refl) t.jobs) v.ordered;
  allocated = v.allocated;
}

remove_terminated_jobs-eq-drop_ended :
    (t : JobTable)
    → t.proc_table.deleted_count ≢ 0
    → any_ended t t.jobs ≡ true
    → remove_terminated_jobs t ≡ drop_ended (removed_entries t)
unfolding remove_terminated_jobs
remove_terminated_jobs-eq-drop_ended t d ended =
    let nonzero : (t.proc_table.deleted_count == 0) ≡ false = ground arith in
    let same : any_ended (removed_entries t) t.jobs ≡ true =
      any_ended-same t (removed_entries t) t.jobs refl ∙ ended in
    rw (nonzero, same)

-- The table before its latest job is renewed.
abbrev popped : JobTable → JobTable
popped t =
    release_all
      (record t {
        jobs = take (compact (is_available_at t) t.jobs).1 (compact (is_available_at t) t.jobs).0;
      })
      (dropped t)

latest-drop_ended :
    (t : JobTable) (r : JobRef)
    → IsValid t
    → (drop_ended t).latest ≡ some r
    → is_available_at (drop_ended t) r ≡ true
latest-drop_ended t r v e =
    renew_latest-available (popped t) (popped t).latest r (available-drop_ended t v) e

-- A process entry was deleted and a job of the table has ended. Then the latest job, if there is one
-- afterwards, is a job that runs.
pub latest-remove_terminated_jobs :
    (t : JobTable) (r : JobRef)
    → IsValid t
    → t.proc_table.deleted_count ≢ 0
    → any_ended t t.jobs ≡ true
    → (remove_terminated_jobs t).latest ≡ some r
    → is_available_at (remove_terminated_jobs t) r ≡ true
latest-remove_terminated_jobs t r v d ended e =
    let same = remove_terminated_jobs-eq-drop_ended t d ended in
    rw same (latest-drop_ended (removed_entries t) r (removed_entries-IsValid t v) (rw same at e))

proc_table-release_all :
    (t : JobTable) (rs : List JobRef) → (release_all t rs).proc_table ≡ t.proc_table
proc_table-release_all t [] = refl
proc_table-release_all t (r ∷ rs) = proc_table-release_all (release t r) rs

pub remove_terminated_jobs-entries :
    (t : JobTable)
    → Order.IsValid t.proc_table
    → Order.IsValid (remove_terminated_jobs t).proc_table
unfolding remove_terminated_jobs
remove_terminated_jobs-entries t v =
    let v' = batched_remove-IsValid t.proc_table v in
    let t' = removed_entries t in
    elim (Bool-cases (t.proc_table.deleted_count == 0)) [
      | inl zero_deleted ↦ rw zero_deleted v
      | inr some_deleted ↦ elim (Bool-cases (any_ended t' t.jobs)) [
        | inl some_ended ↦ rw (some_deleted, some_ended, proc_table-release_all) v'
        | inr none_ended ↦ rw (some_deleted, none_ended) v'
      ]
    ]
