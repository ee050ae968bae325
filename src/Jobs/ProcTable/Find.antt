-- ===== src/Jobs/ProcTable/Find.antt =====
-- What `findProc` answers. On a valid table it finds every entry by its pid; for a pid that no entry
-- has it can point to the entry of another process.
use ydsh.Prelude.{
  All, All-get_elem?, Bool-cases, List, [], ap, arith, false, get_elem?, inl, inr, length, refl,
  some, some_inj, suc, sym, true, zero, ℕ, ◌<◌, ◌∷◌, ◌≡◌, ◌≢◌, ◌≤◌,
}
use ydsh.Prelude.Int.{eq_of_parts, eqb_ℤ→eq, ltb_ℤ, pos, ℤ, ◌<ℤ◌}
use mathlib.Core.Path.{subst}
use ydsh.Jobs.Process.{Pid}
use ydsh.Jobs.ProcTable.{Entry, ProcTable, lower_bound, has_pid, insert_at, add_proc, find_proc}
use ydsh.Jobs.ProcTable.Order.{IsSorted, IsValid, add_proc-IsValid}

lower_bound-eq-index :
    (es : List Entry) (i : ℕ) (e : Entry)
    → IsSorted es
    → get_elem? es i ≡ some e
    → lower_bound e.pid es ≡ i
lower_bound-eq-index [] i e s g = cc
lower_bound-eq-index (x ∷ es) zero e s g = rw (sym (some_inj g)) (ground arith)
lower_bound-eq-index (x ∷ es) (suc i) e s g = ground (
  arith,
  All-get_elem? (λ y. x.pid <ℤ y.pid) es i {x = e} s.0 g,
  lower_bound-eq-index es i e s.1 g,
)

get_elem?-lt-length :
    {A : Type 0} (xs : List A) (i : ℕ) (x : A) → get_elem? xs i ≡ some x → i < length xs
get_elem?-lt-length [] i x g = cc
get_elem?-lt-length (y ∷ xs) zero x g = omega arith
get_elem?-lt-length (y ∷ xs) (suc i) x g = omega (arith, get_elem?-lt-length xs i x g)

-- On a valid table `findProc` points to the entry that has the pid, wherever it stands.
pub find_proc-eq-index :
    (t : ProcTable) (i : ℕ) (e : Entry)
    → IsValid t
    → pos 0 <ℤ e.pid
    → get_elem? t.entries i ≡ some e
    → find_proc e.pid t ≡ some i
unfolding find_proc
find_proc-eq-index t i e v h g =
    rw (lower_bound-eq-index t.entries i e v.sorted g)
      (ground (arith, get_elem?-lt-length t.entries i e g))

get_elem?-insert :
    (i : ℕ) (new : Entry) (es : List Entry)
    → i ≤ length es
    → get_elem? (insert_at i new es) i ≡ some new
get_elem?-insert zero new es h = refl
get_elem?-insert (suc i) new [] h = absurd (omega arith)
get_elem?-insert (suc i) new (e ∷ es) h = get_elem?-insert i new es (omega arith)

lower_bound-le-length : (pid : Pid) (es : List Entry) → lower_bound pid es ≤ length es
lower_bound-le-length pid [] = omega arith
lower_bound-le-length pid (e ∷ es) = ground (arith, lower_bound-le-length pid es)

not-lt_self : (a : ℤ) → ¬ (a <ℤ a)
not-lt_self a h = omega arith

lt_of_not_lt : (a b : ℤ) → ltb_ℤ a b ≡ false → a ≢ b → b <ℤ a
lt_of_not_lt a b h n = ground (arith, eq_of_parts a b)

-- The first entry that is not smaller than a pid which none has is greater.
lower_bound-greater :
    (pid : Pid) (es : List Entry)
    → All (λ e. e.pid ≢ pid) es
    → (j : ℕ) (x : Entry) → get_elem? es j ≡ some x
    → pid <ℤ x.pid
    → (y : Entry) × (get_elem? es (lower_bound pid es) ≡ some y) × (pid <ℤ y.pid)
lower_bound-greater pid [] a j x g h = cc
lower_bound-greater pid (e ∷ es) a zero x g h =
    let eq : e ≡ x = some_inj g in
    let above : pid <ℤ e.pid = rw eq h in
    let larger : ltb_ℤ e.pid pid ≡ false = ground arith in rw larger (e, refl, above)
lower_bound-greater pid (e ∷ es) a (suc j) x g h = elim (Bool-cases (ltb_ℤ e.pid pid)) [
  | inl smaller ↦ rw smaller (lower_bound-greater pid es a.1 j x g h)
  | inr larger ↦ rw larger (e, refl, lt_of_not_lt e.pid pid larger a.0)
]

-- No process has the pid, and the table holds a process with a greater one. Then `findProc` does not
-- answer "not found", as its comment says, but points to an entry with another pid.
pub find_proc-wrong :
    (t : ProcTable) (pid : Pid) (j : ℕ) (x : Entry)
    → pos 0 <ℤ pid
    → All (λ e. e.pid ≢ pid) t.entries
    → get_elem? t.entries j ≡ some x
    → pid <ℤ x.pid
    → (i : ℕ) × (y : Entry) × (find_proc pid t ≡ some i)
      × (get_elem? t.entries i ≡ some y)
      × (y.pid ≢ pid)
unfolding find_proc
find_proc-wrong t pid j x h a g above =
    let (y, gy, lt) = lower_bound-greater pid t.entries a j x g above in
    (
      lower_bound pid t.entries,
      y,
      ground (arith, get_elem?-lt-length t.entries (lower_bound pid t.entries) y gy),
      gy,
      λ e. not-lt_self pid (subst (λ p. pid <ℤ p) e lt),
    )

has_pid-false :
    (pid : Pid) (es : List Entry) (i : ℕ)
    → All (λ e. e.pid ≢ pid) es
    → has_pid pid (get_elem? es i) ≡ false
has_pid-false pid [] i a = refl
has_pid-false pid (e ∷ es) zero a = ground (arith, eqb_ℤ→eq e.pid pid, a.0)
has_pid-false pid (e ∷ es) (suc i) a = has_pid-false pid es i a.1

-- What `add_proc` returns where it adds.
add_proc-fresh :
    (t : ProcTable) (pid : Pid) (job_id offset : ℕ)
    → pos 0 <ℤ pid
    → job_id ≢ 0
    → All (λ e. e.pid ≢ pid) t.entries
    → add_proc pid job_id offset t ≡ (
      record t {
        entries =
            insert_at
              (lower_bound pid t.entries)
              (record { pid = pid; job_id = job_id; proc_offset = offset })
              t.entries;
      },
      true,
    )
unfolding add_proc
add_proc-fresh t pid job_id offset h job a =
    ground (arith, has_pid-false pid t.entries (lower_bound pid t.entries) a)

-- A process that the table does not know yet is added, and `findProc` then points to its entry, with
-- the job and the offset that were given.
pub find_proc-add_proc :
    (t : ProcTable) (pid : Pid) (job_id offset : ℕ)
    → IsValid t
    → pos 0 <ℤ pid
    → job_id ≢ 0
    → All (λ e. e.pid ≢ pid) t.entries
    → (i : ℕ) × (add_proc pid job_id offset t).1 ≡ true
      × find_proc pid (add_proc pid job_id offset t).0 ≡ some i
      × get_elem? (add_proc pid job_id offset t).0.entries i
        ≡ some (record { pid = pid; job_id = job_id; proc_offset = offset })
find_proc-add_proc t pid job_id offset v h job a =
    let fresh = add_proc-fresh t pid job_id offset h job a in
    let new : Entry = record { pid = pid; job_id = job_id; proc_offset = offset } in
    let at_index : get_elem? (add_proc pid job_id offset t).0.entries (lower_bound pid t.entries)
        ≡ some new =
      (rw fresh (
        get_elem?-insert (lower_bound pid t.entries) new t.entries
          (lower_bound-le-length pid t.entries))) in
    (
      lower_bound pid t.entries,
      ap (λ r. r.1) fresh,
      find_proc-eq-index (add_proc pid job_id offset t).0 (lower_bound pid t.entries) new
          (add_proc-IsValid pid job_id offset t v) h at_index,
      at_index,
    )
