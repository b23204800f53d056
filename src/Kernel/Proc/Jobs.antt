-- ===== src/Kernel/Proc/Jobs.antt =====
-- The calls of proc.c for jobs, and `signal`.
use os_ass.Base.{
  ℕ, zero, suc, ◌+◌, ◌≤◌, ◌<◌, ◌≡◌, ◌↔◌, refl, sym, ap, ◌∙◌, subst, true, false, [], Option, none,
  some, ◌==◌, if◌then◌else◌, update, nproc, arith, Option-cases, ==→eq, ==→ne, inl, inr, leb,
}
use mathlib.Core.Bool.{true≢false}
use mathlib.Core.Option.{some-ne-none}
use os_ass.Kernel.Proc.{Proc, Table, find_loop, find_proc}
use os_ass.Kernel.Proc.Life.{put_proc}
use os_ass.Kernel.Proc.Calls.{
  attach_at, attachjob, no_slot, is_job_empty, print_loop, printjob, signal,
}
use os_ass.Kernel.Proc.Scan.{find_loop-some, find_loop-none, put_proc_self}

-- Some slot has a job with this number.
abbrev pub HasJob : (ℕ → ℕ) → ℕ → Table → Type 0
HasJob load jid t = (i : ℕ) × (i < nproc) × (load (t.procs i).job ≡ jid)

is_job_empty-HasJob :
    (load : ℕ → ℕ) (jid : ℕ) (t : Table) → is_job_empty load jid t ≡ false → HasJob load jid t
unfolding is_job_empty find_proc
is_job_empty-HasJob load jid t h =
    elim (Option-cases (find_proc (λ p. load p.job == jid) t.procs)) [
      | inl e ↦ absurd (true≢false (sym (ap no_slot e) ∙ h))
      | inr (i, e) ↦
          let first = find_loop-some (λ p. load p.job == jid) t.procs 0 nproc i e in
          (i, first.below, ==→eq (load (t.procs i).job) jid first.passes)
    ]

HasJob-is_job_empty :
    (load : ℕ → ℕ) (jid : ℕ) (t : Table) → HasJob load jid t → is_job_empty load jid t ≡ false
unfolding is_job_empty find_proc
HasJob-is_job_empty load jid t (i, l, s) =
    elim (Option-cases (find_proc (λ p. load p.job == jid) t.procs)) [
      | inl e ↦ absurd (
          ==→ne (load (t.procs i).job) jid
            (find_loop-none (λ p. load p.job == jid) t.procs 0 nproc e i (omega arith) l) s)
      | inr (k, e) ↦ ap no_slot e
    ]

-- `isJobEmpty` says no exactly when some slot of the table, free slots included, has the job.
pub is_job_empty_iff :
    (load : ℕ → ℕ) (jid : ℕ) (t : Table) → (is_job_empty load jid t ≡ false) ↔ HasJob load jid t
is_job_empty_iff load jid t = (is_job_empty-HasJob load jid t, HasJob-is_job_empty load jid t)

-- Once `attachjob` has put a process in a job, that job is not empty.
pub is_job_empty-attachjob :
    (load : ℕ → ℕ) (pid job : ℕ) (t : Table)
    → (attachjob pid job t).0 ≡ some pid
    → is_job_empty load (load job) (attachjob pid job t).1 ≡ false
unfolding attachjob attach_at find_proc
is_job_empty-attachjob load pid job t h =
    HasJob-is_job_empty load (load job) (attachjob pid job t).1
      (elim (Option-cases (find_proc (λ p. p.pid == pid) t.procs)) [
        | inl e ↦ absurd (some-ne-none pid (sym h ∙ ap (λ o. (attach_at o pid job t).0) e))
        | inr (i, e) ↦
            let first = find_loop-some (λ p. p.pid == pid) t.procs 0 nproc i e in
            subst (λ o. HasJob load (load job) (attach_at o pid job t).1) (sym e)
              (
                i,
                first.below,
                ap (λ p. load p.job) (put_proc_self i (record (t.procs i) { job = job }) t),
              )
      ])

print_loop-find_loop :
    (load : ℕ → ℕ) (jid : ℕ) (procs : ℕ → Proc) (i n : ℕ)
    → (print_loop load jid procs i n ≡ []) ↔ (find_loop (λ p. load p.job == jid) procs i n ≡ none)
unfolding print_loop find_loop
print_loop-find_loop load jid procs i zero = (λ e. refl, λ e. refl)
print_loop-find_loop load jid procs i (suc n) =
    let rest = print_loop-find_loop load jid procs (i + 1) n in
    (λ e. ground (arith, e, rest.0), λ e. ground (arith, e, rest.1))

no_slot-none : (o : Option ℕ) → no_slot o ≡ true → o ≡ none
no_slot-none o e = ground (arith, e)

-- `printjob` prints the line of no process exactly when `isJobEmpty` says that the job is empty.
pub printjob-is_job_empty :
    (load : ℕ → ℕ) (jid : ℕ) (t : Table)
    → (printjob load jid t ≡ []) ↔ (is_job_empty load jid t ≡ true)
unfolding printjob is_job_empty find_proc
printjob-is_job_empty load jid t =
    let both = print_loop-find_loop load jid t.procs 0 nproc in
    (
      λ e. ap no_slot (both.0 e),
      λ e. both.1 (no_slot-none (find_proc (λ p. load p.job == jid) t.procs) e),
    )

-- `signal` refuses a number from 32 on and changes nothing; for a smaller one it returns the handler
-- that the last `signal` for that number set.
pub signal-signal :
    (signum first second cur : ℕ) (t : Table)
    → (32 ≤ signum → signal signum first cur t ≡ (none, t))
      × (signum < 32 → (signal signum second cur (signal signum first cur t).1).0 ≡ some first)
unfolding signal
signal-signal signum first second cur t =
    (λ l. ap (λ b. if b then (none, t) else accepted) (leb-true l), λ l. ground (arith, l))
  where
    accepted : Option ℕ × Table
    accepted = (
      some ((t.procs cur).signal_handlers signum),
      put_proc cur
          (record (t.procs cur) {
            signal_handlers = update (t.procs cur).signal_handlers signum first;
          })
          t,
    )

    leb-true : 32 ≤ signum → leb 32 signum ≡ true
    leb-true l = ground (arith, l)
