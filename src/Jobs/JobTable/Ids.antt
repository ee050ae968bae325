-- ===== src/Jobs/JobTable/Ids.antt =====
-- The order of the job ids, and what `findEmptyEntry` and `findIter` find in a table that has it.
use ydsh.Prelude.{
  ==_iff, All, All-get_elem?, Bool, Bool-cases, List, Option, [], arith, false, get_elem?,
  if◌then◌else◌, inl, inr, length, none, refl, some, some_inj, suc, sym, true, zero, ℕ, ◌+◌, ◌<◌,
  ◌==◌, ◌∙◌, ◌∷◌, ◌≡◌, ◌≢◌, ◌≤◌,
}
use ydsh.Array.Halving.{halve-eq-answer}
use ydsh.Jobs.JobTable.{
  JobTable, JobRef, id_at, in_place, find_empty_entry, lower_bound_id, find_iter, insert_ref,
}

-- The ids grow strictly from above `low`.
abbrev pub IsOrdered : JobTable → ℕ → List JobRef → Type 0
IsOrdered t low [] = Unit
IsOrdered t low (r ∷ rs) = (low < id_at t r) × IsOrdered t (id_at t r) rs

-- The number of jobs at the front whose ids are low + 1, low + 2, ...
abbrev pub dense_prefix : JobTable → ℕ → List JobRef → ℕ
dense_prefix t low [] = 0
dense_prefix t low (r ∷ rs) = if id_at t r == low + 1 then suc (dense_prefix t (low + 1) rs) else 0

-- `in_place` with the ids counted from `low`.
abbrev placed : JobTable → ℕ → Option JobRef → ℕ → Bool
placed t low none i = false
placed t low (some r) i = id_at t r == low + i + 1

pub dense_prefix-le :
    (t : JobTable) (low : ℕ) (rs : List JobRef) → dense_prefix t low rs ≤ length rs
dense_prefix-le t low [] = omega arith
dense_prefix-le t low (r ∷ rs) = ground (arith, dense_prefix-le t (low + 1) rs)

placed-suc :
    (t : JobTable) (low : ℕ) (o : Option JobRef) (i : ℕ)
    → placed t low o (suc i) ≡ placed t (low + 1) o i
placed-suc t low none i = refl
placed-suc t low (some r) i = let e : low + suc i + 1 ≡ low + 1 + i + 1 = omega arith in rw e

placed-before :
    (t : JobTable) (low : ℕ) (rs : List JobRef) (i : ℕ)
    → i < dense_prefix t low rs
    → placed t low (get_elem? rs i) i ≡ true
placed-before t low [] i h = absurd (omega arith)
placed-before t low (r ∷ rs) zero h = ground arith
placed-before t low (r ∷ rs) (suc i) h =
    ground (arith, placed-suc t low (get_elem? rs i) i, placed-before t (low + 1) rs i)

-- Behind an id that is too large all ids are too large.
too_large :
    (t : JobTable) (low k : ℕ) (rs : List JobRef) (i : ℕ)
    → IsOrdered t low rs
    → k < low
    → placed t k (get_elem? rs i) i ≡ false
too_large t low k [] i o h = refl
too_large t low k (r ∷ rs) zero o h = ground arith
too_large t low k (r ∷ rs) (suc i) o h =
    ground (arith, placed-suc t k (get_elem? rs i) i, too_large t (id_at t r) (k + 1) rs i o.1)

placed-from :
    (t : JobTable) (low : ℕ) (rs : List JobRef) (i : ℕ)
    → IsOrdered t low rs
    → dense_prefix t low rs ≤ i
    → placed t low (get_elem? rs i) i ≡ false
placed-from t low [] i o h = refl
placed-from t low (r ∷ rs) zero o h = ground arith
placed-from t low (r ∷ rs) (suc i) o h = elim (Bool-cases (id_at t r == low + 1)) [
  | inl next ↦
      let e : id_at t r ≡ low + 1 = (==_iff _ _).0 next in
      rw (placed-suc t low (get_elem? rs i) i)
        (placed-from t (low + 1) rs i (rw e at o.1) (ground arith))
  | inr gap ↦
      rw (placed-suc t low (get_elem? rs i) i)
        (too_large t (id_at t r) (low + 1) rs i o.1 (ground arith))
]

in_place-eq-placed : (t : JobTable) (o : Option JobRef) (i : ℕ) → in_place t o i ≡ placed t 0 o i
in_place-eq-placed t none i = refl
in_place-eq-placed t (some r) i = let e : 0 + i + 1 ≡ i + 1 = omega arith in rw e

-- The halving loop of `findEmptyEntry` stops at the first job whose id is not its index plus 1: all
-- jobs before it have the ids 1, 2, ... in order.
pub find_empty_entry-eq-dense_prefix :
    (t : JobTable) → IsOrdered t 0 t.jobs → find_empty_entry t ≡ dense_prefix t 0 t.jobs
unfolding find_empty_entry
find_empty_entry-eq-dense_prefix t o =
    halve-eq-answer (λ i. in_place t (get_elem? t.jobs i) i) (dense_prefix t 0 t.jobs)
      (λ i h. in_place-eq-placed t (get_elem? t.jobs i) i ∙ placed-before t 0 t.jobs i h)
      (λ i h. in_place-eq-placed t (get_elem? t.jobs i) i ∙ placed-from t 0 t.jobs i o h)
      (length t.jobs + 1) 0 (length t.jobs) (omega arith) (omega arith)
      (omega (arith, dense_prefix-le t 0 t.jobs))

above_low :
    (t : JobTable) (low : ℕ) (rs : List JobRef) → IsOrdered t low rs → All (λ x. low < id_at t x) rs
above_low t low [] o = tt
above_low t low (r ∷ rs) o =
    (o.0, weaken low (id_at t r) rs (omega arith) (above_low t (id_at t r) rs o.1))
  where
    weaken :
        (a b : ℕ) (xs : List JobRef)
        → a ≤ b
        → All (λ x. b < id_at t x) xs
        → All (λ x. a < id_at t x) xs
    weaken a b [] h k = tt
    weaken a b (x ∷ xs) h k = (omega arith, weaken a b xs h k.1)

pub lower_bound_id-eq-index :
    (t : JobTable) (low : ℕ) (rs : List JobRef) (i : ℕ) (r : JobRef)
    → IsOrdered t low rs
    → get_elem? rs i ≡ some r
    → lower_bound_id t (id_at t r) rs ≡ i
lower_bound_id-eq-index t low [] i r o g = cc
lower_bound_id-eq-index t low (x ∷ rs) zero r o g = rw (sym (some_inj g)) (ground arith)
lower_bound_id-eq-index t low (x ∷ rs) (suc i) r o g = ground (
  arith,
  All-get_elem? (λ y. id_at t x < id_at t y) rs i {x = r} (above_low t (id_at t x) rs o.1) g,
  lower_bound_id-eq-index t (id_at t x) rs i r o.1 g,
)

-- In an ordered table `findIter` finds every job by its id.
pub find_iter-eq-job :
    (t : JobTable) (i : ℕ) (r : JobRef)
    → IsOrdered t 0 t.jobs
    → get_elem? t.jobs i ≡ some r
    → find_iter (id_at t r) t ≡ some r
unfolding find_iter
find_iter-eq-job t i r o g =
    let positive : 0 < id_at t r =
      All-get_elem? (λ y. 0 < id_at t y) t.jobs i (above_low t 0 t.jobs o) g in
    rw (lower_bound_id-eq-index t 0 t.jobs i r o g, g) (ground arith)

-- The order depends on the ids alone.
pub IsOrdered-same :
    (t u : JobTable) (low : ℕ) (rs : List JobRef)
    → All (λ x. id_at u x ≡ id_at t x) rs
    → IsOrdered t low rs
    → IsOrdered u low rs
IsOrdered-same t u low [] a o = tt
IsOrdered-same t u low (r ∷ rs) a o =
    (rw a.0 o.0, rw a.0 (IsOrdered-same t u (id_at t r) rs a.1 o.1))

-- A job with the first free id keeps the order where `findEmptyEntry` puts it.
pub IsOrdered-insert :
    (t u : JobTable) (new : JobRef) (low : ℕ) (rs : List JobRef)
    → All (λ x. id_at u x ≡ id_at t x) rs
    → id_at u new ≡ low + dense_prefix t low rs + 1
    → IsOrdered t low rs
    → IsOrdered u low (insert_ref (dense_prefix t low rs) new rs)
IsOrdered-insert t u new low [] a e o = (rw e (omega arith), tt)
IsOrdered-insert t u new low (r ∷ rs) a e o = elim (Bool-cases (id_at t r == low + 1)) [
  | inl next ↦
      let eq : id_at t r ≡ low + 1 = (==_iff _ _).0 next in
      let eq' : id_at u r ≡ low + 1 = a.0 ∙ eq in
      let e' : id_at u new ≡ low + 1 + dense_prefix t (low + 1) rs + 1 = ground arith in
      rw (next, eq') (omega arith, IsOrdered-insert t u new (low + 1) rs a.1 e' (rw eq at o.1))
  | inr gap ↦
      let e' : id_at u new ≡ low + 1 = ground arith in
      let lt : low + 1 < id_at t r = ground arith in
      rw (gap, e', a.0) (omega arith, (omega arith, IsOrdered-same t u (id_at t r) rs a.1 o.1))
]

differ :
    (t : JobTable) (n m : ℕ) (rs : List JobRef)
    → n ≤ m
    → All (λ x. m < id_at t x) rs
    → All (λ x. id_at t x ≢ n) rs
differ t n m [] h a = tt
differ t n m (x ∷ rs) h a = (omega arith, differ t n m rs h a.1)

-- No job has the first free id.
pub unused_id :
    (t : JobTable) (low n : ℕ) (rs : List JobRef)
    → n ≡ low + dense_prefix t low rs + 1
    → IsOrdered t low rs
    → All (λ x. id_at t x ≢ n) rs
unused_id t low n [] e o = tt
unused_id t low n (r ∷ rs) e o = elim (Bool-cases (id_at t r == low + 1)) [
  | inl next ↦
      let eq : id_at t r ≡ low + 1 = (==_iff _ _).0 next in
      let e' : n ≡ low + 1 + dense_prefix t (low + 1) rs + 1 = ground arith in
      (omega arith, unused_id t (low + 1) n rs e' (rw eq at o.1))
  | inr gap ↦
      let e' : n ≡ low + 1 = ground arith in
      let lt : low + 1 < id_at t r = ground arith in
      (omega arith, differ t n (id_at t r) rs (omega arith) (above_low t (id_at t r) rs o.1))
]
