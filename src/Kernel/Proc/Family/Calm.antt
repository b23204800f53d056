-- ===== src/Kernel/Proc/Family/Calm.antt =====
-- The functions of proc.c that leave pids, parents and lives alone.
use os_ass.Base.{
  ℕ, ◌≡◌, refl, sym, ap, ◌∙◌, subst, Bool, Option, none, some, ◌==◌, if◌then◌else◌, arith,
  Bool-cases, if-each, leb, inl, inr,
}
use mathlib.Core.Option.{some-injective, some-ne-none}
use os_ass.Kernel.Proc.{
  ProcState, sleeping, runnable, running, same_state, Chan, null, Proc, Table, wakeup, find_proc,
}
use os_ass.Kernel.Proc.Life.{sleep, slept, yield, schedule, put_proc}
use os_ass.Kernel.Proc.Calls.{kill_at, attach_at, kill, attachjob, signal}
use os_ass.Kernel.Proc.Family.{
  alive, empty, TameTable, put_proc-TameTable, wakeup1-TameTable, same-Tame,
}
use os_ass.Kernel.Proc.Family.Shrink.{living-Tame}

pub sleep-TameTable :
    (c : Chan) (cur : ℕ) (t : Table) → (t.procs cur).state ≡ running → TameTable t (sleep c cur t)
unfolding sleep
sleep-TameTable c cur t r =
    put_proc-TameTable cur (record (t.procs cur) { chan = c; state = sleeping }) t
      (living-Tame refl refl (ap alive r) refl)

pub slept-TameTable : (cur : ℕ) (t : Table) → TameTable t (slept cur t)
unfolding slept
slept-TameTable cur t =
    put_proc-TameTable cur (record (t.procs cur) { chan = null }) t
      (record { parent = refl; pid = refl; alive = refl; empty = refl })

pub yield-TameTable :
    (cur : ℕ) (t : Table) → (t.procs cur).state ≡ running → TameTable t (yield cur t)
unfolding yield
yield-TameTable cur t r =
    put_proc-TameTable cur (record (t.procs cur) { state = runnable }) t
      (living-Tame refl refl (ap alive r) refl)

same-TameTable : (t : Table) → TameTable t t
same-TameTable t = record { slots = λ i. same-Tame refl; nextpid = refl; initproc = refl }

rouse-alive : (s : ProcState) → alive (if same_state s sleeping then runnable else s) ≡ alive s
rouse-alive s = ground arith

rouse-empty : (s : ProcState) → empty (if same_state s sleeping then runnable else s) ≡ empty s
rouse-empty s = ground arith

kill_at-TameTable : (o : Option ℕ) (t : Table) → TameTable t (kill_at o t).1
unfolding kill_at
kill_at-TameTable none t = same-TameTable t
kill_at-TameTable (some i) t = put_proc-TameTable i _ t (record {
  parent = refl;
  pid = refl;
  alive = rouse-alive (t.procs i).state;
  empty = rouse-empty (t.procs i).state;
})

pub kill-TameTable : (pid : ℕ) (t : Table) → TameTable t (kill pid t).1
unfolding kill
kill-TameTable pid t = kill_at-TameTable (find_proc (λ p. p.pid == pid) t.procs) t

attach_at-TameTable :
    (o : Option ℕ) (pid job : ℕ) (t : Table) → TameTable t (attach_at o pid job t).1
unfolding attach_at
attach_at-TameTable none pid job t = same-TameTable t
attach_at-TameTable (some i) pid job t =
    put_proc-TameTable i (record (t.procs i) { job = job }) t
      (record { parent = refl; pid = refl; alive = refl; empty = refl })

pub attachjob-TameTable : (pid job : ℕ) (t : Table) → TameTable t (attachjob pid job t).1
unfolding attachjob
attachjob-TameTable pid job t =
    attach_at-TameTable (find_proc (λ p. p.pid == pid) t.procs) pid job t

pub signal-TameTable :
    (signum handler cur : ℕ) (t : Table) → TameTable t (signal signum handler cur t).1
unfolding signal
signal-TameTable signum handler cur t =
    if-each {A = Option ℕ × Table} (λ r. TameTable t r.1) (leb 32 signum) (same-TameTable t)
      (put_proc-TameTable cur _ t
        (record { parent = refl; pid = refl; alive = refl; empty = refl }))

pub wakeup-TameTable : (c : Chan) (t : Table) → TameTable t (wakeup c t)
unfolding wakeup
wakeup-TameTable c t = wakeup1-TameTable c t

pub schedule-TameTable : (i : ℕ) (t t' : Table) → schedule i t ≡ some t' → TameTable t t'
unfolding schedule
schedule-TameTable i t t' e = elim (Bool-cases (same_state (t.procs i).state runnable)) [
  | inl h ↦
      subst (TameTable t) (some-injective t1 t' (sym (ap pick h) ∙ e))
        (put_proc-TameTable i p t (living-Tame refl refl (ground (arith, h)) refl))
  | inr h ↦ absurd (some-ne-none t' (sym e ∙ ap pick h))
]
  where
    p : Proc
    p = record (t.procs i) { state = running }

    t1 : Table
    t1 = put_proc i p t

    pick : Bool → Option Table
    pick b = if b then some t1 else none
