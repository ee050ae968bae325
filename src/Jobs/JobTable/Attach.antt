-- ===== src/Jobs/JobTable/Attach.antt =====
-- `attach`: the new job gets the smallest free id, the table stays in order, and `find` finds it.
use ydsh.Prelude.{
  All, Bool, List, [], arith, drop, false, get_elem?, get_or, get_or-set_ne, get_or-set_self,
  if◌then◌else◌, length, length-set, none, refl, set, some, suc, take, true, zero, ℕ, ◌++◌, ◌+◌,
  ◌-◌, ◌<◌, ◌^◌, ◌||◌, ◌∙◌, ◌∷◌, ◌≡◌, ◌≢◌, ◌≤◌, ap,
}
use ydsh.Jobs.Job.{Job}
use ydsh.Jobs.JobTable.{
  JobTable, JobRef, job_at, id_at, attach, find, find_empty_entry, insert_ref, new_id, no_job,
}
use ydsh.Jobs.JobTable.Ids.{
  IsOrdered, dense_prefix, find_empty_entry-eq-dense_prefix, IsOrdered-insert, find_iter-eq-job,
  dense_prefix-le, unused_id,
}

pub record IsValid (t : JobTable) : Type 0 where
  pub ordered : IsOrdered t 0 t.jobs
  pub allocated : All (λ r. r < length t.heap) t.jobs

-- A job with id 0 is in no ordered table.
not-in-table :
    (t : JobTable) (r : JobRef) (low : ℕ) (rs : List JobRef)
    → id_at t r ≡ 0
    → IsOrdered t low rs
    → All (λ x. x ≢ r) rs
not-in-table t r low [] e o = tt
not-in-table t r low (x ∷ rs) e o =
    ((λ q. omega (arith, ap (λ y. id_at t y) q)), not-in-table t r (id_at t x) rs e o.1)

All-insert :
    {A : Type 0} (P : A → Type 0) (i : ℕ) (r : A) (rs : List A)
    → P r
    → All P rs
    → All P (take i rs ++ r ∷ drop i rs)
All-insert P zero r rs h a = (h, a)
All-insert P (suc i) r [] h a = (h, tt)
All-insert P (suc i) r (x ∷ rs) h a = (a.0, All-insert P i r rs h a.1)

get_elem?-insert :
    {A : Type 0} (i : ℕ) (r : A) (rs : List A)
    → i ≤ length rs
    → get_elem? (take i rs ++ r ∷ drop i rs) i ≡ some r
get_elem?-insert zero r rs h = refl
get_elem?-insert (suc i) r [] h = absurd (omega arith)
get_elem?-insert (suc i) r (x ∷ rs) h = get_elem?-insert i r rs (omega arith)

others_same :
    (t u : JobTable) (r : JobRef) (j : Job) (rs : List JobRef)
    → u.heap ≡ set t.heap r j
    → All (λ x. x ≢ r) rs
    → All (λ x. id_at u x ≡ id_at t x) rs
others_same t u r j [] e a = tt
others_same t u r j (x ∷ rs) e a = (
  rw e (ap (λ (k : Job). k.job_id) (get_or-set_ne t.heap r x j _ a.0)),
  others_same t u r j rs e a.1,
)

module _ (t : JobTable) (r : JobRef) (disowned : Bool) (valid : IsValid t)
    (known : r < length t.heap) (free : id_at t r ≡ 0) (room : length t.jobs < 2 ^ 16 - 1) where
  abbrev attached : Job
  attached =
      let j = record (job_at t r) { job_id = new_id (find_empty_entry t) } in
      if disowned then record j { disown = true } else j

  heap-attach : (attach r disowned t).heap ≡ set t.heap r attached
  unfolding attach
  heap-attach = rw free

  jobs-attach : (attach r disowned t).jobs ≡ insert_ref (find_empty_entry t) r t.jobs
  unfolding attach
  jobs-attach = rw free

  new_id-attached : attached.job_id ≡ dense_prefix t 0 t.jobs + 1
  new_id-attached =
      ground (arith, find_empty_entry-eq-dense_prefix t valid.ordered, dense_prefix-le t 0 t.jobs)

  id-attach : id_at (attach r disowned t) r ≡ dense_prefix t 0 t.jobs + 1
  id-attach =
      ap (λ (h : List Job). (get_or h r no_job).job_id) heap-attach
      ∙ ap (λ (j : Job). j.job_id) (get_or-set_self t.heap r attached no_job known)
      ∙ new_id-attached

  attach-IsOrdered : IsOrdered (attach r disowned t) 0 (attach r disowned t).jobs
  attach-IsOrdered =
      rw (jobs-attach, find_empty_entry-eq-dense_prefix t valid.ordered)
        (IsOrdered-insert t (attach r disowned t) r 0 t.jobs
          (others_same t (attach r disowned t) r attached t.jobs heap-attach
            (not-in-table t r 0 t.jobs free valid.ordered))
          (rw id-attach (omega arith)) valid.ordered)

  attach-IsValid : IsValid (attach r disowned t)
  attach-IsValid = record {
    ordered = attach-IsOrdered;
    allocated =
        rw (jobs-attach, heap-attach, length-set)
          (All-insert (λ x. x < length t.heap) (find_empty_entry t) r t.jobs known valid.allocated);
  }

  attached_at : get_elem? (attach r disowned t).jobs (find_empty_entry t) ≡ some r
  attached_at = rw jobs-attach (
      get_elem?-insert (find_empty_entry t) r t.jobs (
        omega
          (arith, find_empty_entry-eq-dense_prefix t valid.ordered, dense_prefix-le t 0 t.jobs)))

  disown-attach : (job_at (attach r disowned t) r).disown ≡ (disowned || (job_at t r).disown)
  disown-attach =
      ap (λ (h : List Job). (get_or h r no_job).disown) heap-attach
      ∙ ap (λ (j : Job). j.disown) (get_or-set_self t.heap r attached no_job known)
      ∙ flag disowned
    where
      flag :
          (b : Bool)
          → (if b
              then record (job_at t r) { job_id = new_id (find_empty_entry t); disown = true }
              else record (job_at t r) { job_id = new_id (find_empty_entry t) }).disown
            ≡ (b || (job_at t r).disown)
      flag true = refl
      flag false = refl

  find-attached :
      find (id_at (attach r disowned t) r) (attach r disowned t)
      ≡ (if disowned || (job_at t r).disown then none else some r)
  unfolding find
  find-attached = rw (
    find_iter-eq-job (attach r disowned t) (find_empty_entry t) r attach-IsOrdered attached_at,
    disown-attach,
  )

-- A job that is in no table is attached, and the table has room. Then the table stays in order, the
-- job gets the smallest id that no job of the table has (the jobs before it have the ids 1, 2, ...),
-- and `find` answers the job for that id, unless it is disowned.
pub attach_lem :
    (t : JobTable) (r : JobRef) (disowned : Bool)
    → IsValid t
    → r < length t.heap
    → id_at t r ≡ 0
    → length t.jobs < 2 ^ 16 - 1
    → IsValid (attach r disowned t)
      × (id_at (attach r disowned t) r ≡ dense_prefix t 0 t.jobs + 1)
      × All (λ x. id_at t x ≢ id_at (attach r disowned t) r) t.jobs
      × (find (id_at (attach r disowned t) r) (attach r disowned t)
          ≡ (if disowned || (job_at t r).disown then none else some r))
attach_lem t r disowned v known free room =
    let e = id-attach t r disowned v known free room in
    (
      attach-IsValid t r disowned v known free room,
      e,
      rw e (unused_id t 0 (dense_prefix t 0 t.jobs + 1) t.jobs (omega arith) v.ordered),
      find-attached t r disowned v known free room,
    )
