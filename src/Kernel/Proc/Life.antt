-- ===== src/Kernel/Proc/Life.antt =====
-- proc.c: the functions by which a process comes to be, runs, ends and is waited for. `cur` is the
-- slot of `proc`, the process that calls. What other components return is an argument: the stack
-- page of `kalloc` and the page table of `copyuvm` (0 if they fail). The reference counts of files
-- and inodes are behind `FileOps`.
use os_ass.Base.{
  ℕ, zero, suc, ◌+◌, Bool, true, false, not, ◌&&◌, ◌||◌, [], Option, none, some, ◌==◌,
  if◌then◌else◌, update, nproc, nofile,
}
use os_ass.Base.Outcome.{Outcome, ok, panic}
use os_ass.Kernel.Proc.{
  unused, embryo, sleeping, runnable, running, zombie, same_state, Chan, null, proc_at, Proc, Table,
  chan_of, is_slot, find_proc, wakeup1,
}

abbrev pub put_proc : ℕ → Proc → Table → Table
put_proc i p t = record t { procs = update t.procs i p }

-- `filedup` and `fileclose` of file.c, `idup` of fs.c, and its `iput` in a transaction of the log,
-- on their own state.
pub record FileOps (Files : Type 0) : Type 0 where
  pub filedup : ℕ → Files → Files
  pub fileclose : ℕ → Files → Files
  pub idup : ℕ → Files → Files
  pub iput : ℕ → Files → Files

-- `allocproc` from its label `found`, at slot `i`, where `kalloc` returns `stack`. The fields that
-- it does not set keep the values of the slot's last process.
unfoldable pub found : ℕ → ℕ → Table → Option ℕ × Table
found stack i t =
    let t1 : Table = record t {
      procs = update t.procs i (record (t.procs i) { state = embryo; pid = t.nextpid });
      nextpid = t.nextpid + 1;
    } in
    if stack == 0
    then (none, put_proc i (record (t1.procs i) { kstack = 0; state = unused }) t1)
    else (some i, put_proc i (record (t1.procs i) { kstack = stack }) t1)

unfoldable pub allocproc : ℕ → Table → Option ℕ × Table
allocproc stack t = elim (find_proc (λ p. same_state p.state unused) t.procs) [
  | none ↦ (none, t)
  | some i ↦ found stack i t
]

-- The loop of `fork` over the open files: a null entry of the parent leaves the child's alone.
unfoldable pub dup_loop :
    {Files : Type 0} → FileOps Files → ℕ → ℕ → (ℕ → ℕ) → (ℕ → ℕ) → Files → (ℕ → ℕ) × Files
dup_loop ops i zero from to fs = (to, fs)
dup_loop ops i (suc rounds) from to fs =
    dup_loop ops (i + 1) rounds from (if from i == 0 then to else update to i (from i))
      (if from i == 0 then fs else ops.filedup (from i) fs)

-- `fork` once it has the slot `i`.
unfoldable pub fork_into :
    {Files : Type 0} → FileOps Files → (pgdir cur i : ℕ) → Table → Files → Option ℕ × Table × Files
fork_into ops pgdir cur i t1 fs =
    if pgdir == 0
    then (none, put_proc i (record (t1.procs i) { pgdir = 0; kstack = 0; state = unused }) t1, fs)
    else (let me = t1.procs cur in
        let child = t1.procs i in
        let files = dup_loop ops 0 nofile me.ofile child.ofile fs in
        (
          some child.pid,
          put_proc i
              (record child {
                pgdir = pgdir;
                sz = me.sz;
                parent = some cur;
                job = me.job;
                tf = me.tf;
                eax = 0;
                ofile = files.0;
                cwd = me.cwd;
                name = me.name;
                state = runnable;
              })
              t1,
          ops.idup me.cwd files.1,
        ))

-- `fork` of the process in slot `cur`: the child's pid, or `none` for -1.
unfoldable pub fork :
    {Files : Type 0}
    → FileOps Files
    → (stack pgdir cur : ℕ) → Table
    → Files
    → Option ℕ × Table × Files
fork ops stack pgdir cur t fs =
    let (slot, t1) = allocproc stack t in
    elim slot [ none ↦ (none, t1, fs) | some i ↦ fork_into ops pgdir cur i t1 fs ]

-- The loop of `exit` over the open files.
pub close_loop : {Files : Type 0} → FileOps Files → ℕ → ℕ → (ℕ → ℕ) → Files → (ℕ → ℕ) × Files
close_loop ops i zero ofile fs = (ofile, fs)
close_loop ops i (suc rounds) ofile fs =
    close_loop ops (i + 1) rounds (if ofile i == 0 then ofile else update ofile i 0)
      (if ofile i == 0 then fs else ops.fileclose (ofile i) fs)

-- The body of the loop of `exit` that passes abandoned children to init, at slot `i`.
unfoldable pub orphan_body : ℕ → ℕ → Table → Table
orphan_body cur i t =
    let p = t.procs i in
    let t1 = put_proc i (record p { parent = some t.initproc }) t in
    if is_slot p.parent cur
    then if same_state p.state zombie then wakeup1 (proc_at t.initproc) t1 else t1
    else t

unfoldable pub orphan_loop : ℕ → ℕ → ℕ → Table → Table
orphan_loop cur i zero t = t
orphan_loop cur i (suc rounds) t = orphan_loop cur (i + 1) rounds (orphan_body cur i t)

-- `exit`, up to its call of `sched`, which does not return.
unfoldable pub exit :
    {Files : Type 0} → FileOps Files → (status cur : ℕ) → Table → Files → Outcome (Table × Files)
exit ops status cur t fs =
    let me = t.procs cur in
    if cur == t.initproc
    then panic "init exiting"
    else (let files = close_loop ops 0 nofile me.ofile fs in
        let t1 =
          put_proc cur (record me { exit_status = status; ofile = files.0; cwd = 0; job = 0 }) t in
        let t2 = wakeup1 (chan_of me.parent) t1 in
        let t3 = orphan_loop cur 0 nproc t2 in
        ok (put_proc cur (record (t3.procs cur) { state = zombie }) t3, ops.iput me.cwd files.1))

-- `sleep` up to `sched`, and its end when the process runs again.
unfoldable pub sleep : Chan → ℕ → Table → Table
sleep c cur t = put_proc cur (record (t.procs cur) { chan = c; state = sleeping }) t

unfoldable pub slept : ℕ → Table → Table
slept cur t = put_proc cur (record (t.procs cur) { chan = null }) t

-- What the scan of `waitpid` finds.
pub data Scan : Type 0 where
  dead : ℕ → Scan
  havekids : Bool → Scan

-- `childPid`; `none` is -1.
abbrev pub is_wanted : Option ℕ → ℕ → Bool
is_wanted none pid = true
is_wanted (some k) pid = k == pid

unfoldable pub scan_loop : ℕ → Option ℕ → (ℕ → Proc) → ℕ → ℕ → Bool → Scan
scan_loop cur child procs i zero kids = havekids kids
scan_loop cur child procs i (suc rounds) kids =
    let p = procs i in
    let mine = is_slot p.parent cur && is_wanted child p.pid in
    let later = scan_loop cur child procs (i + 1) rounds (kids || mine) in
    if mine && same_state p.state zombie then dead i else later

-- How a run of `waitpid` ends: with a pid and the exit status that it wrote through `status`, with
-- -1, or asleep on its own slot, after which it scans again.
pub data Waited : Type 0 where
  reaped : (pid exit_status : ℕ) → Waited
  failed : Waited
  blocked : Waited

-- What `waitpid` writes into the slot. The stack and the pages that it frees are not in the table.
abbrev pub freed : Proc → Proc
freed p = record p {
  kstack = 0;
  state = unused;
  pid = 0;
  parent = none;
  name = [];
  killed = false;
  job = 0;
}

-- `waitpid` once it knows what the scan finds. `status` says whether the pointer is not null.
unfoldable pub after_scan : (status : Bool) → (cur : ℕ) → Table → Scan → Waited × Table
after_scan status cur t (dead i) =
    if status
    then (reaped (t.procs i).pid (t.procs i).exit_status, put_proc i (freed (t.procs i)) t)
    else (failed, t)
after_scan status cur t (havekids kids) =
    if not kids || (t.procs cur).killed then (failed, t) else (blocked, sleep (proc_at cur) cur t)

unfoldable pub waitpid : (status : Bool) → (child : Option ℕ) → (cur : ℕ) → Table → Waited × Table
waitpid status child cur t = after_scan status cur t (scan_loop cur child t.procs 0 nproc false)

-- `wait` is `waitpid` for any child.
unfoldable pub wait : (status : Bool) → (cur : ℕ) → Table → Waited × Table
wait status cur t = waitpid status none cur t

unfoldable pub yield : ℕ → Table → Table
yield cur t = put_proc cur (record (t.procs cur) { state = runnable }) t

-- The body of the loop of `scheduler` at slot `i`: it runs the process, or passes it over.
unfoldable pub schedule : ℕ → Table → Option Table
schedule i t =
    if same_state (t.procs i).state runnable
    then some (put_proc i (record (t.procs i) { state = running }) t)
    else none
