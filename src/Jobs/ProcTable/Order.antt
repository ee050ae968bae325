-- ===== src/Jobs/ProcTable/Order.antt =====
-- The invariant of a `ProcTable`: the pids grow strictly and are not negative, and the count of
-- deleted entries is right. Every operation keeps it.
use ydsh.Prelude.{
  All, Bool, Bool-cases, List, Option, [], arith, false, get_elem?, if◌then◌else◌, inl, inr, none,
  refl, set, some, some_inj, suc, sym, zero, ℕ, ◌+◌, ◌∷◌, ◌≡◌,
}
use ydsh.Prelude.Int.{pos, ◌<ℤ◌, ◌≤ℤ◌}
use ydsh.Jobs.Process.{Pid}
use ydsh.Array.{filter}
use ydsh.Array.Compact.{take-compact}
use ydsh.Jobs.ProcTable.{
  Entry, ProcTable, is_deleted, lower_bound, has_pid, insert_at, add_proc, delete_entry,
  delete_proc, delete_found, find_proc, mark, batched_remove, clear, is_live,
}

-- All entries have greater pids.
abbrev pub IsAbove : Pid → List Entry → Type 0
IsAbove pid es = All (λ e. pid <ℤ e.pid) es

abbrev pub IsSorted : List Entry → Type 0
IsSorted [] = Unit
IsSorted (e ∷ es) = IsAbove e.pid es × IsSorted es

abbrev pub count_deleted : List Entry → ℕ
count_deleted [] = 0
count_deleted (e ∷ es) = (if is_deleted e then 1 else 0) + count_deleted es

pub record IsValid (t : ProcTable) : Type 0 where
  pub sorted : IsSorted t.entries
  pub natural : All (λ e. pos 0 ≤ℤ e.pid) t.entries
  pub counted : t.deleted_count ≡ count_deleted t.entries

module _ (pid : Pid) (new : Entry) (same : new.pid ≡ pid) where
  IsAbove-insert :
      (p : Pid) (es : List Entry)
      → p <ℤ pid
      → IsAbove p es
      → IsAbove p (insert_at (lower_bound pid es) new es)
  IsAbove-insert p [] h a = ground arith
  IsAbove-insert p (e ∷ es) h a = ground (arith, IsAbove-insert p es h a.1)

  IsAbove-trans : (p q : Pid) (es : List Entry) → p <ℤ q → IsAbove q es → IsAbove p es
  IsAbove-trans p q [] h a = tt
  IsAbove-trans p q (e ∷ es) h a = (omega arith, IsAbove-trans p q es h a.1)

  IsSorted-insert :
      (es : List Entry)
      → has_pid pid (get_elem? es (lower_bound pid es)) ≡ false
      → IsSorted es
      → IsSorted (insert_at (lower_bound pid es) new es)
  IsSorted-insert [] h s = (tt, tt)
  IsSorted-insert (e ∷ es) h s =
      ground (arith, IsSorted-insert es, IsAbove-insert e.pid es, IsAbove-trans pid e.pid es)

module _ (P : Entry → Type 0) (new : Entry) where
  All-insert : (i : ℕ) (es : List Entry) → P new → All P es → All P (insert_at i new es)
  All-insert zero es h a = (h, a)
  All-insert (suc i) [] h a = (h, tt)
  All-insert (suc i) (e ∷ es) h a = (a.0, All-insert i es h a.1)

count_deleted-insert :
    (i : ℕ) (new : Entry) (es : List Entry)
    → count_deleted (insert_at i new es) ≡ (if is_deleted new then 1 else 0) + count_deleted es
count_deleted-insert zero new es = refl
count_deleted-insert (suc i) new [] = refl
count_deleted-insert (suc i) new (e ∷ es) = omega (arith, count_deleted-insert i new es)

pub add_proc-IsValid :
    (pid : Pid) (job_id offset : ℕ) (t : ProcTable)
    → IsValid t
    → IsValid (add_proc pid job_id offset t).0
unfolding add_proc
add_proc-IsValid pid job_id offset t v =
    let new : Entry = record { pid = pid; job_id = job_id; proc_offset = offset } in
    let i = lower_bound pid t.entries in
    ground (
      arith,
      IsSorted-insert pid new refl t.entries,
      All-insert (λ e. pos 0 ≤ℤ e.pid) new i t.entries,
      count_deleted-insert i new t.entries,
    )

-- Deleting an entry keeps its pid.
abbrev deleted : Entry → Entry
deleted e = record e { job_id = 0 }

All-set :
    (P : Pid → Type 0) (i : ℕ) (es : List Entry) (e : Entry)
    → get_elem? es i ≡ some e
    → All (λ x. P x.pid) es
    → All (λ x. P x.pid) (set es i (deleted e))
All-set P zero [] e g a = tt
All-set P (suc i) [] e g a = tt
All-set P zero (x ∷ es) e g a = rw (sym (some_inj g)) a
All-set P (suc i) (x ∷ es) e g a = (a.0, All-set P i es e g a.1)

IsSorted-set :
    (i : ℕ) (es : List Entry) (e : Entry)
    → get_elem? es i ≡ some e
    → IsSorted es
    → IsSorted (set es i (deleted e))
IsSorted-set zero [] e g s = tt
IsSorted-set (suc i) [] e g s = tt
IsSorted-set zero (x ∷ es) e g s = rw (sym (some_inj g)) s
IsSorted-set (suc i) (x ∷ es) e g s =
    (All-set (λ p. x.pid <ℤ p) i es e g s.0, IsSorted-set i es e g s.1)

count_deleted-set :
    (i : ℕ) (es : List Entry) (e : Entry)
    → get_elem? es i ≡ some e
    → is_deleted e ≡ false
    → count_deleted (set es i (deleted e)) ≡ count_deleted es + 1
count_deleted-set i [] e g d = cc
count_deleted-set zero (x ∷ es) e g d = rw (rw (sym (some_inj g)) at d) (omega arith)
count_deleted-set (suc i) (x ∷ es) e g d = omega (arith, count_deleted-set i es e g d)

mark-IsValid :
    (o : Option Entry) (i : ℕ) (t : ProcTable)
    → get_elem? t.entries i ≡ o
    → IsValid t
    → IsValid (mark o i t)
mark-IsValid none i t g v = v
mark-IsValid (some e) i t g v = elim (Bool-cases (is_deleted e)) [
  | inl gone ↦ rw gone v
  | inr live ↦ rw live (record {
    sorted = IsSorted-set i t.entries e g v.sorted;
    natural = All-set (λ p. pos 0 ≤ℤ p) i t.entries e g v.natural;
    counted = omega (arith, count_deleted-set i t.entries e g live);
  })
]

pub delete_entry-IsValid : (i : ℕ) (t : ProcTable) → IsValid t → IsValid (delete_entry i t)
unfolding delete_entry
delete_entry-IsValid i t v = mark-IsValid (get_elem? t.entries i) i t refl v

delete_found-IsValid : (o : Option ℕ) (t : ProcTable) → IsValid t → IsValid (delete_found o t).0
delete_found-IsValid none t v = v
delete_found-IsValid (some i) t v = delete_entry-IsValid i t v

pub delete_proc-IsValid : (pid : Pid) (t : ProcTable) → IsValid t → IsValid (delete_proc pid t).0
unfolding delete_proc
delete_proc-IsValid pid t v = delete_found-IsValid (find_proc pid t) t v

module _ (keep : Entry → Bool) where
  All-filter : (P : Entry → Type 0) (es : List Entry) → All P es → All P (filter keep es)
  All-filter P [] a = tt
  All-filter P (e ∷ es) a = elim (Bool-cases (keep e)) [
    | inl stays ↦ rw stays (a.0, All-filter P es a.1)
    | inr goes ↦ rw goes (All-filter P es a.1)
  ]

  IsSorted-filter : (es : List Entry) → IsSorted es → IsSorted (filter keep es)
  IsSorted-filter [] s = tt
  IsSorted-filter (e ∷ es) s = elim (Bool-cases (keep e)) [
    | inl stays ↦ rw stays (All-filter (λ x. e.pid <ℤ x.pid) es s.0, IsSorted-filter es s.1)
    | inr goes ↦ rw goes (IsSorted-filter es s.1)
  ]

count_deleted-filter : (es : List Entry) → count_deleted (filter is_live es) ≡ 0
count_deleted-filter [] = refl
count_deleted-filter (e ∷ es) = ground (arith, count_deleted-filter es)

-- What `batchedRemove` leaves: the live entries, in order, and no deleted one.
pub batched_remove-eq-filter :
    (t : ProcTable)
    → batched_remove t ≡ record { entries = filter is_live t.entries; deleted_count = 0 }
unfolding batched_remove
batched_remove-eq-filter t = rw (take-compact is_live t.entries)

pub batched_remove-IsValid : (t : ProcTable) → IsValid t → IsValid (batched_remove t)
batched_remove-IsValid t v = rw (batched_remove-eq-filter t) (record {
  sorted = IsSorted-filter is_live t.entries v.sorted;
  natural = All-filter is_live (λ e. pos 0 ≤ℤ e.pid) t.entries v.natural;
  counted = sym (count_deleted-filter t.entries);
})

clear-IsValid : (t : ProcTable) → IsValid (clear t)
unfolding clear
clear-IsValid t = record { sorted = tt; natural = tt; counted = refl }

-- The public operations of the table, and a run of them.
pub data Operation : Type 0 where
  add : Pid → ℕ → ℕ → Operation
  delete : Pid → Operation
  remove : Operation
  reset : Operation

pub apply : ProcTable → Operation → ProcTable
apply t (add pid job_id offset) = (add_proc pid job_id offset t).0
apply t (delete pid) = (delete_proc pid t).0
apply t remove = batched_remove t
apply t reset = clear t

pub run : ProcTable → List Operation → ProcTable
unfolding apply
run t [] = t
run t (op ∷ ops) = run (apply t op) ops

apply-IsValid : (t : ProcTable) (op : Operation) → IsValid t → IsValid (apply t op)
unfolding apply
apply-IsValid t (add pid job_id offset) v = add_proc-IsValid pid job_id offset t v
apply-IsValid t (delete pid) v = delete_proc-IsValid pid t v
apply-IsValid t remove v = batched_remove-IsValid t v
apply-IsValid t reset v = clear-IsValid t

-- From a table that satisfies the invariant, any sequence of additions, deletions, removals and
-- resets leads to one that does: strictly growing pids, none negative, and a right deleted count.
pub run-IsValid : (t : ProcTable) (ops : List Operation) → IsValid t → IsValid (run t ops)
unfolding run
run-IsValid t [] v = v
run-IsValid t (op ∷ ops) v = run-IsValid (apply t op) ops (apply-IsValid t op v)
