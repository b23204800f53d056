-- ===== src/Kernel/Proc/Family/Steps.antt =====
-- The process table over any sequence of calls of the functions of proc.c.
use os_ass.Base.{ℕ, ◌<◌, ◌≡◌, sym, ap, ◌∙◌, subst, Bool, true, Option, none, some, nproc}
use os_ass.Base.Outcome.{ok}
use mathlib.Core.Bool.{true≢false}
use mathlib.Core.Option.{some-injective, some-ne-none}
use os_ass.Kernel.Proc.{running, Chan, proc_at, Table, wakeup}
use os_ass.Kernel.Proc.Life.{FileOps, fork, exit, waitpid, sleep, slept, yield, schedule, Waited}
use os_ass.Kernel.Proc.Calls.{kill, attachjob, signal}
use os_ass.Kernel.Proc.Wait.{Waits, reaps, refuses, gives_up, sleeps, waitpid_lem}
use os_ass.Kernel.Proc.Family.{alive, empty, Family, TameTable-Family}
use os_ass.Kernel.Proc.Family.Births.{Forks, full, no_memory, born}
use os_ass.Kernel.Proc.Family.Fork.{fork_lem}
use os_ass.Kernel.Proc.Family.Exit.{Exited-Family}
use os_ass.Kernel.Proc.Family.Ends.{Exits, ends, exit_lem}
use os_ass.Kernel.Proc.Family.Shrink.{Reaped-Family}
use os_ass.Kernel.Proc.Family.Calm.{
  sleep-TameTable, slept-TameTable, yield-TameTable, kill-TameTable, attachjob-TameTable,
  signal-TameTable, wakeup-TameTable, schedule-TameTable,
}
use os_ass.Kernel.Proc.Family.Grow.{Taken-Family}

-- One call, by the running process in slot `cur`, by the scheduler or by an interrupt.
pub data Step {Files : Type 0} (ops : FileOps Files) (t : Table) : Table → Type 0 where
  forks :
      (stack pgdir cur : ℕ) (fs : Files)
      → cur < nproc
      → (t.procs cur).state ≡ running
      → Step ops t (fork ops stack pgdir cur t fs).1
  exits :
      (status cur : ℕ) (fs : Files) {t' : Table} {fs' : Files}
      → cur < nproc
      → (t.procs cur).state ≡ running
      → exit ops status cur t fs ≡ ok (t', fs')
      → Step ops t t'
  waits :
      (status : Bool) (child : Option ℕ) (cur : ℕ)
      → (t.procs cur).state ≡ running
      → Step ops t (waitpid status child cur t).1
  falls_asleep : (c : Chan) (cur : ℕ) → (t.procs cur).state ≡ running → Step ops t (sleep c cur t)
  wakes_up : (cur : ℕ) → Step ops t (slept cur t)
  yields : (cur : ℕ) → (t.procs cur).state ≡ running → Step ops t (yield cur t)
  kills : (pid : ℕ) → Step ops t (kill pid t).1
  attaches : (pid job : ℕ) → Step ops t (attachjob pid job t).1
  signals : (signum handler cur : ℕ) → Step ops t (signal signum handler cur t).1
  wakes : (c : Chan) → Step ops t (wakeup c t)
  schedules : (i : ℕ) {t' : Table} → schedule i t ≡ some t' → Step ops t t'

pub data Reach {Files : Type 0} (ops : FileOps Files) (t : Table) : Table → Type 0 where
  start : Reach ops t t
  later : {u v : Table} → Reach ops t u → Step ops u v → Reach ops t v

Forks-Family :
    {stack pgdir cur : ℕ} {t t' : Table} {answer : Option ℕ}
    → cur < nproc
    → alive (t.procs cur).state ≡ true
    → Family t
    → Forks stack pgdir cur t answer t'
    → Family t'
Forks-Family l a f (full no_slot) = f
Forks-Family {t = t} l a f (no_memory {i} {t'} why h empty_again no_line) =
    let orphan : (t'.procs i).parent ≡ none = no_line ∙ f.no_parent i h.slot (ap empty h.free) in
    Taken-Family f h (λ j e. absurd (some-ne-none j (sym e ∙ orphan)))
      (λ e. absurd (true≢false (sym (ap empty empty_again) ∙ e))) (λ e. orphan)
Forks-Family {cur = cur} {t} l a f (born {i} {t'} s g h new) =
    Taken-Family f h
      (λ j e.
        subst (λ k. (k < nproc) × (alive (t.procs k).state ≡ true))
          (some-injective cur j (sym new.parent ∙ e)) (l, a))
      (λ e n. some-ne-none cur (sym new.parent ∙ n))
      (λ e. absurd (true≢false (sym e ∙ ap empty new.state)))

Waits-Family :
    {status : Bool} {child : Option ℕ} {cur : ℕ} {t t' : Table} {answer : Waited}
    → (t.procs cur).state ≡ running
    → Family t
    → Waits status child cur t answer t'
    → Family t'
Waits-Family a f (refuses s c z) = f
Waits-Family a f (gives_up z w) = f
Waits-Family {cur = cur} a f (sleeps n c k) =
    TameTable-Family (sleep-TameTable (proc_at cur) cur _ a) f
Waits-Family a f (reaps s c z e o p others n d) = Reaped-Family f (record {
  zombie = z;
  free = e;
  parent = o;
  pid = p;
  others = others;
  nextpid = n;
  initproc = d;
})

Exits-Family :
    {status cur : ℕ} {t : Table} {Files : Type 0} {t' : Table} {fs' : Files}
    → Family t
    → Exits status cur t (ok (t', fs'))
    → Family t'
Exits-Family {cur = cur} f (ends ne x s w) = Exited-Family cur ne x f

-- Every call keeps the family.
pub Step-Family :
    {Files : Type 0} {ops : FileOps Files} {t t' : Table} → Family t → Step ops t t' → Family t'
Step-Family f (forks stack pgdir cur fs l r) =
    Forks-Family l (ap alive r) f (fork_lem _ stack pgdir cur _ fs (ap empty r))
Step-Family f (exits status cur fs l r e) =
    Exits-Family f (subst (Exits status cur _) e (exit_lem _ status cur _ fs l (ap empty r)))
Step-Family f (waits status child cur r) = Waits-Family r f (waitpid_lem status child cur _)
Step-Family f (falls_asleep c cur r) = TameTable-Family (sleep-TameTable c cur _ r) f
Step-Family f (wakes_up cur) = TameTable-Family (slept-TameTable cur _) f
Step-Family f (yields cur r) = TameTable-Family (yield-TameTable cur _ r) f
Step-Family f (kills pid) = TameTable-Family (kill-TameTable pid _) f
Step-Family f (attaches pid job) = TameTable-Family (attachjob-TameTable pid job _) f
Step-Family f (signals signum handler cur) =
    TameTable-Family (signal-TameTable signum handler cur _) f
Step-Family f (wakes c) = TameTable-Family (wakeup-TameTable c _) f
Step-Family f (schedules i e) = TameTable-Family (schedule-TameTable i _ _ e) f

-- From a table with a family, every sequence of calls leads to one with a family.
pub Reach-Family :
    {Files : Type 0} (ops : FileOps Files) (t u : Table) → Family t → Reach ops t u → Family u
Reach-Family ops t u f start = f
Reach-Family ops t u f (later r s) = Step-Family (Reach-Family ops t _ f r) s
