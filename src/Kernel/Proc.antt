-- ===== src/Kernel/Proc.antt =====
-- proc.c: the process table, and the loops over it that the other functions share.
pub mod Life
pub mod Calls
pub mod Scan
pub mod Wait
pub mod Family
pub mod Kill
pub mod Jobs
mod Tests
use os_ass.Base.{
  ℕ, zero, suc, ◌+◌, Bool, true, false, ◌&&◌, List, [], ◌∷◌, Option, none, some, ◌==◌,
  if◌then◌else◌, update, nproc,
}

-- `enum procstate`
pub data ProcState : Type 0 where
  unused embryo sleeping runnable running zombie : ProcState

abbrev pub same_state : ProcState → ProcState → Bool
same_state unused unused = true
same_state embryo embryo = true
same_state sleeping sleeping = true
same_state runnable runnable = true
same_state running running = true
same_state zombie zombie = true
same_state _ _ = false

-- A `void *chan`: the null pointer, the address of a slot of the table, or some other address.
pub data Chan : Type 0 where
  null : Chan
  proc_at : ℕ → Chan
  at : ℕ → Chan

abbrev pub same_chan : Chan → Chan → Bool
same_chan null null = true
same_chan (proc_at i) (proc_at j) = i == j
same_chan (at a) (at b) = a == b
same_chan _ _ = false

-- `struct proc`. A pointer into the table is an index of a slot. Of the trap frame there are
-- `%eax` and the rest as one value; the kernel context is left out. `name` is the string up to its
-- NUL. `job` is the user address of a `struct job`, 0 if there is none.
pub record Proc : Type 0 where
  pub sz : ℕ
  pub pgdir : ℕ
  pub kstack : ℕ
  pub state : ProcState
  pub pid : ℕ
  pub parent : Option ℕ
  pub eax : ℕ
  pub tf : ℕ
  pub chan : Chan
  pub killed : Bool
  pub ofile : ℕ → ℕ
  pub cwd : ℕ
  pub name : List ℕ
  pub exit_status : ℕ
  pub job : ℕ
  pub pending : ℕ
  pub signal_handlers : ℕ → ℕ

-- `ptable`, `nextpid` and `initproc`. Only the slots below NPROC exist.
pub record Table : Type 0 where
  pub procs : ℕ → Proc
  pub nextpid : ℕ
  pub initproc : ℕ

abbrev pub chan_of : Option ℕ → Chan
chan_of none = null
chan_of (some i) = proc_at i

abbrev pub is_slot : Option ℕ → ℕ → Bool
is_slot none j = false
is_slot (some i) j = i == j

-- `for(p = ptable.proc; p < &ptable.proc[NPROC]; p++) if(test) return p;`, with `rounds` left.
pub find_loop : (Proc → Bool) → (ℕ → Proc) → ℕ → ℕ → Option ℕ
find_loop test procs i zero = none
find_loop test procs i (suc rounds) =
    let later = find_loop test procs (i + 1) rounds in if test (procs i) then some i else later

unfoldable pub find_proc : (Proc → Bool) → (ℕ → Proc) → Option ℕ
find_proc test procs = find_loop test procs 0 nproc

-- The same loop with a body that changes the slot that it stands at.
pub each_loop : (Proc → Proc) → ℕ → ℕ → (ℕ → Proc) → ℕ → Proc
each_loop body i zero procs = procs
each_loop body i (suc rounds) procs =
    each_loop body (i + 1) rounds (update procs i (body (procs i)))

abbrev pub wake_body : Chan → Proc → Proc
wake_body c p =
    if same_state p.state sleeping && same_chan p.chan c then record p { state = runnable } else p

unfoldable pub wakeup1 : Chan → Table → Table
wakeup1 c t = record t { procs = each_loop (wake_body c) 0 nproc t.procs }

-- `wakeup` takes `ptable.lock` and calls `wakeup1`.
unfoldable pub wakeup : Chan → Table → Table
wakeup c t = wakeup1 c t
