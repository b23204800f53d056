-- ===== src/Kernel/Proc/Kill.antt =====
-- `kill` of proc.c on every branch.
use os_ass.Base.{
  ℕ, ◌<◌, ◌≡◌, ◌≢◌, sym, ap, ◌∙◌, subst, Bool, true, false, some, ◌==◌, if◌then◌else◌, nproc, arith,
  Option-cases, ==→eq, ==→ne, inl, inr,
}
use os_ass.Kernel.Proc.{ProcState, sleeping, runnable, same_state, Proc, Table, find_proc}
use os_ass.Kernel.Proc.Calls.{kill_at, kill}
use os_ass.Kernel.Proc.Scan.{
  OthersKept, find_loop-some, find_loop-none, put_proc_self, put_proc-others,
}

-- The answers of `kill`, each with what holds before and after.
pub data Kills (pid : ℕ) (t : Table) : Bool → Table → Type 0 where
  missing : ((i : ℕ) → i < nproc → (t.procs i).pid ≢ pid) → Kills pid t false t
  hits :
      {i : ℕ} {t' : Table}
      → i < nproc
      → (t.procs i).pid ≡ pid
      → (t'.procs i).killed ≡ true
      → ((t.procs i).state ≡ sleeping → (t'.procs i).state ≡ runnable)
      → ((t.procs i).state ≢ sleeping → (t'.procs i).state ≡ (t.procs i).state)
      → OthersKept i t t'
      → Kills pid t true t'

rouse-sleeping :
    (s : ProcState) → s ≡ sleeping → (if same_state s sleeping then runnable else s) ≡ runnable
rouse-sleeping s h = ground (arith, h)

rouse-other : (s : ProcState) → s ≢ sleeping → (if same_state s sleeping then runnable else s) ≡ s
rouse-other s h = ground (arith, h)

hit :
    (pid : ℕ) (t : Table) (i : ℕ)
    → i < nproc
    → (t.procs i).pid ≡ pid
    → Kills pid t (kill_at (some i) t).0 (kill_at (some i) t).1
unfolding kill_at
hit pid t i l e =
    let p : Proc = record (t.procs i) {
      killed = true;
      state = if same_state (t.procs i).state sleeping then runnable else (t.procs i).state;
    } in
    hits l e (ap (λ q. q.killed) (put_proc_self i p t))
      (λ s. ap (λ q. q.state) (put_proc_self i p t) ∙ rouse-sleeping (t.procs i).state s)
      (λ s. ap (λ q. q.state) (put_proc_self i p t) ∙ rouse-other (t.procs i).state s)
      (put_proc-others i p t)

-- `kill` returns -1 and changes nothing exactly when no slot has the pid. Otherwise it marks such a
-- slot killed, makes its process runnable if it sleeps, and changes no other slot.
pub kill_lem : (pid : ℕ) (t : Table) → Kills pid t (kill pid t).0 (kill pid t).1
unfolding kill kill_at find_proc
kill_lem pid t = elim (Option-cases (find_proc (λ p. p.pid == pid) t.procs)) [
  | inl e ↦
      subst (λ o. Kills pid t (kill_at o t).0 (kill_at o t).1) (sym e)
        (missing (λ i l.
          ==→ne (t.procs i).pid pid
            (find_loop-none (λ p. p.pid == pid) t.procs 0 nproc e i (omega arith) l)))
  | inr (i, e) ↦
      let first = find_loop-some (λ p. p.pid == pid) t.procs 0 nproc i e in
      subst (λ o. Kills pid t (kill_at o t).0 (kill_at o t).1) (sym e)
        (hit pid t i first.below (==→eq (t.procs i).pid pid first.passes))
]
