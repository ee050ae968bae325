-- ===== src/Jobs/Reap/Keep.antt =====
-- `removeTerminatedJobs` drops exactly the jobs that have ended, and keeps the table valid.
use ydsh.Prelude.{
  ==_iff, Bool, Bool-cases, List, [], ap, arith, false, get_or-set_ne, get_or-set_self,
  if◌then◌else◌, inl, inr, length, length-set, not, refl, take, true, ◌&&◌, ◌<◌, ◌==◌, ◌∙◌, ◌∷◌,
  ◌≡◌, drop,
}
use ydsh.Array.{any, filter, compact}
use ydsh.Array.Compact.{take-compact, any-drop-compact, gone}
use ydsh.Jobs.Job.{Job}
use ydsh.Jobs.JobTable.{JobTable, JobRef, job_at, no_job}
use ydsh.Jobs.Reap.{release, release_all, is_available_at, any_ended, drop_ended}

abbrev pub contains : JobRef → List JobRef → Bool
contains x rs = any (λ y. y == x) rs

abbrev pub released : Job → Job
released j = record j { job_id = 0; disown = true }

contains-filter :
    (keep : JobRef → Bool) (x : JobRef) (rs : List JobRef)
    → contains x (filter keep rs) ≡ (contains x rs && keep x)
contains-filter keep x [] = refl
contains-filter keep x (r ∷ rs) = elim (Bool-cases (r == x)) [
  | inl same ↦
      let e : r ≡ x = (==_iff r x).0 same in ground (arith, contains-filter keep x rs, ap keep e)
  | inr other ↦ ground (arith, contains-filter keep x rs)
]

job_at-release :
    (t : JobTable) (r x : JobRef)
    → x < length t.heap
    → job_at (release t r) x ≡ (if r == x then released (job_at t x) else job_at t x)
job_at-release t r x h = elim (Bool-cases (r == x)) [
  | inl same ↦
      let e : r ≡ x = (==_iff r x).0 same in
      rw same (rw e (get_or-set_self t.heap x (released (job_at t x)) no_job h))
  | inr other ↦
      rw other (get_or-set_ne t.heap r x (released (job_at t r)) no_job (λ e. ground arith))
]

heap-release : (t : JobTable) (r : JobRef) → length (release t r).heap ≡ length t.heap
heap-release t r = length-set t.heap r (released (job_at t r))

job_at-release_all :
    (t : JobTable) (rs : List JobRef) (x : JobRef)
    → x < length t.heap
    → job_at (release_all t rs) x ≡ (if contains x rs then released (job_at t x) else job_at t x)
job_at-release_all t [] x h = refl
job_at-release_all t (r ∷ rs) x h =
    job_at-release_all (release t r) rs x (rw (heap-release t r) h)
    ∙ rw (job_at-release t r x h) (ground arith)

jobs-release_all : (t : JobTable) (rs : List JobRef) → (release_all t rs).jobs ≡ t.jobs
jobs-release_all t [] = refl
jobs-release_all t (r ∷ rs) = jobs-release_all (release t r) rs

heap-release_all :
    (t : JobTable) (rs : List JobRef) → length (release_all t rs).heap ≡ length t.heap
heap-release_all t [] = refl
heap-release_all t (r ∷ rs) = heap-release_all (release t r) rs ∙ heap-release t r

-- If no job has ended there is nothing to drop.
pub filter-no_ended :
    (t : JobTable) (rs : List JobRef)
    → any_ended t rs ≡ false
    → (filter (is_available_at t) rs ≡ rs)
filter-no_ended t [] h = refl
filter-no_ended t (r ∷ rs) h = ground (arith, filter-no_ended t rs)

module _ (t : JobTable) where
  abbrev pub dropped : List JobRef
  dropped = drop (compact (is_available_at t) t.jobs).1 (compact (is_available_at t) t.jobs).0

  contains-dropped :
      (x : JobRef) → contains x dropped ≡ (contains x t.jobs && not (is_available_at t x))
  contains-dropped x =
      any-drop-compact (is_available_at t) t.jobs (λ y. y == x)
      ∙ contains-filter (gone (is_available_at t)) x t.jobs

  pub heap-drop_ended : length (drop_ended t).heap ≡ length t.heap
  heap-drop_ended = heap-release_all _ dropped

  pub jobs-drop_ended : (drop_ended t).jobs ≡ filter (is_available_at t) t.jobs
  jobs-drop_ended = jobs-release_all _ dropped ∙ take-compact (is_available_at t) t.jobs

  pub job_at-drop_ended :
      (x : JobRef)
      → x < length t.heap
      → job_at (drop_ended t) x ≡ (
          if contains x t.jobs && not (is_available_at t x)
          then released (job_at t x)
          else job_at t x)
  job_at-drop_ended x h =
      job_at-release_all
        (record t {
          jobs = take (compact (is_available_at t) t.jobs).1 (compact (is_available_at t) t.jobs).0;
        })
        dropped x h
      ∙ rw (contains-dropped x)

abbrev pub none_deleted : JobTable → Bool
none_deleted t = t.proc_table.deleted_count == 0
