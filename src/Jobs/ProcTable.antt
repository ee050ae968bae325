-- ===== src/Jobs/ProcTable.antt =====
-- src/job.h and src/job.cpp: `ProcTable`, the entries of all processes by pid.
pub mod Order
pub mod Find
use ydsh.Prelude.{
  ℕ, suc, ◌+◌, ◌-◌, Bool, true, false, not, ◌||◌, ◌&&◌, Option, none, some, List, [], ◌∷◌, length,
  get_elem?, set, take, drop, ◌++◌, ◌==◌, if◌then◌else◌,
}
use ydsh.Prelude.Int.{pos, ltb_ℤ, eqb_ℤ}
use ydsh.Array.{compact}
use ydsh.Jobs.Process.{Pid}

pub record Entry : Type 0 where
  pub pid : Pid
  -- 0 marks a deleted entry
  pub job_id : ℕ
  pub proc_offset : ℕ

abbrev pub is_deleted : Entry → Bool
is_deleted e = e.job_id == 0

pub record ProcTable : Type 0 where
  pub entries : List Entry
  pub deleted_count : ℕ

abbrev pub empty : ProcTable
empty = record { entries = []; deleted_count = 0 }

-- std::lower_bound by `PidEntryComp`, on entries in order of their pids: the index of the first
-- entry whose pid is not smaller.
abbrev pub lower_bound : Pid → List Entry → ℕ
lower_bound pid [] = 0
lower_bound pid (e ∷ es) = if ltb_ℤ e.pid pid then suc (lower_bound pid es) else 0

abbrev pub has_pid : Pid → Option Entry → Bool
has_pid pid none = false
has_pid pid (some e) = eqb_ℤ e.pid pid

-- `FlexBuffer::insert` at an index.
abbrev pub insert_at : ℕ → Entry → List Entry → List Entry
insert_at i e es = take i es ++ e ∷ drop i es

-- `addProc`: the table, and whether an entry was added.
unfoldable pub add_proc : Pid → ℕ → ℕ → ProcTable → ProcTable × Bool
add_proc pid job_id offset t =
    let i = lower_bound pid t.entries in
    if ltb_ℤ pid (pos 0) || job_id == 0 || has_pid pid (get_elem? t.entries i)
    then (t, false)
    else (
      record t {
        entries =
            insert_at i (record { pid = pid; job_id = job_id; proc_offset = offset }) t.entries;
      },
      true,
    )

-- `findProc`: the index of the entry that it points to.
unfoldable pub find_proc : Pid → ProcTable → Option ℕ
find_proc pid t =
    let i = lower_bound pid t.entries in
    if ltb_ℤ (pos 0) pid && not (i == length t.entries) then some i else none

abbrev pub mark : Option Entry → ℕ → ProcTable → ProcTable
mark none i t = t
mark (some e) i t = if is_deleted e then t else record {
  entries = set t.entries i (record e { job_id = 0 });
  deleted_count = t.deleted_count + 1;
}

-- `deleteProc(Entry &)`
unfoldable pub delete_entry : ℕ → ProcTable → ProcTable
delete_entry i t = mark (get_elem? t.entries i) i t

abbrev pub delete_found : Option ℕ → ProcTable → ProcTable × Bool
delete_found none t = (t, false)
delete_found (some i) t = (delete_entry i t, true)

-- `deleteProc(pid_t)`
unfoldable pub delete_proc : Pid → ProcTable → ProcTable × Bool
unfolding delete_entry find_proc
delete_proc pid t = delete_found (find_proc pid t) t

unfoldable pub clear : ProcTable → ProcTable
clear t = empty

unfoldable pub viable_proc_size : ProcTable → ℕ
viable_proc_size t = length t.entries - t.deleted_count

abbrev pub is_live : Entry → Bool
is_live e = not (is_deleted e)

-- `batchedRemove`: the live entries move to the front and the array is cut behind them.
unfoldable pub batched_remove : ProcTable → ProcTable
unfolding compact
batched_remove t =
    let (es, size) = compact is_live t.entries in
    record { entries = take size es; deleted_count = 0 }
