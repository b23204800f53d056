-- ===== src/Kernel/Proc/Calls.antt =====
-- proc.c: the system calls that look a process up by its pid, the jobs, and `signal`.
use os_ass.Base.{
  ℕ, zero, suc, ◌+◌, Bool, true, false, List, [], ◌∷◌, Option, none, some, leb, ◌==◌, if◌then◌else◌,
  update, nproc, nofile,
}
use os_ass.Kernel.Proc.{ProcState, sleeping, runnable, same_state, Proc, Table, find_proc}
use os_ass.Kernel.Proc.Life.{put_proc}

-- `kill` for the slot that the search finds: whether it returns 0.
unfoldable pub kill_at : Option ℕ → Table → Bool × Table
kill_at none t = (false, t)
kill_at (some i) t =
    let p = t.procs i in
    (
      true,
      put_proc i
          (record p {
            killed = true;
            state = if same_state p.state sleeping then runnable else p.state;
          })
          t,
    )

unfoldable pub kill : ℕ → Table → Bool × Table
kill pid t = kill_at (find_proc (λ p. p.pid == pid) t.procs) t

-- `struct procstat`
pub record Procstat : Type 0 where
  pub name : List ℕ
  pub sz : ℕ
  pub open_files : ℕ
  pub state : ProcState

pub count_files : ℕ → ℕ → (ℕ → ℕ) → ℕ → ℕ
count_files i zero ofile n = n
count_files i (suc rounds) ofile n =
    count_files (i + 1) rounds ofile (if ofile i == 0 then n else n + 1)

unfoldable pub pstat : ℕ → Table → Option Procstat
pstat pid t = elim (find_proc (λ p. p.pid == pid) t.procs) [
  | none ↦ none
  | some i ↦
      let p = t.procs i in
      some (record {
        name = p.name;
        sz = p.sz;
        open_files = count_files 0 nofile p.ofile 0;
        state = p.state;
      })
]

-- `attachjob` for the slot that the search finds: the pid, or `none` for -1.
unfoldable pub attach_at : Option ℕ → (pid job : ℕ) → Table → Option ℕ × Table
attach_at none pid job t = (none, t)
attach_at (some i) pid job t = (some pid, put_proc i (record (t.procs i) { job = job }) t)

unfoldable pub attachjob : (pid job : ℕ) → Table → Option ℕ × Table
attachjob pid job t = attach_at (find_proc (λ p. p.pid == pid) t.procs) pid job t

abbrev pub no_slot : Option ℕ → Bool
no_slot none = true
no_slot (some i) = false

-- `p->job->jid` reads the first word at the address `p->job` of the caller's memory, `load`; the
-- pointer is not tested, and a process with no job reads address 0.
unfoldable pub is_job_empty : (ℕ → ℕ) → (jid : ℕ) → Table → Bool
is_job_empty load jid t = no_slot (find_proc (λ p. load p.job == jid) t.procs)

-- The lines that `printjob` prints below the title of the job, one for each process of it; their
-- number is its result.
pub data Line : Type 0 where
  line : (pid : ℕ) (name : List ℕ) (sz open_files : ℕ) (state : ProcState) → Line

unfoldable pub print_loop : (ℕ → ℕ) → ℕ → (ℕ → Proc) → ℕ → ℕ → List Line
print_loop load jid procs i zero = []
print_loop load jid procs i (suc rounds) =
    let p = procs i in
    let rest = print_loop load jid procs (i + 1) rounds in
    if load p.job == jid
    then line p.pid p.name p.sz (count_files 0 nofile p.ofile 0) p.state ∷ rest
    else rest

unfoldable pub printjob : (ℕ → ℕ) → (jid : ℕ) → Table → List Line
printjob load jid t = print_loop load jid t.procs 0 nproc

-- `signal`: the old handler, or `none` for -1. A negative number is refused like one from 32 on.
unfoldable pub signal : (signum handler cur : ℕ) → Table → Option ℕ × Table
signal signum handler cur t = if leb 32 signum then (none, t) else (
  some ((t.procs cur).signal_handlers signum),
  put_proc cur
      (record (t.procs cur) {
        signal_handlers = update (t.procs cur).signal_handlers signum handler;
      })
      t,
)
