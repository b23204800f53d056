-- ===== src/Kernel/Proc/Family/Ends.antt =====
-- `exit` of proc.c as a whole: the status that it leaves, and the parent that it wakes.
use os_ass.Base.{
  ℕ, zero, suc, ◌+◌, ◌<◌, ◌≡◌, ◌≢◌, refl, sym, ap, ap₂, ◌∙◌, subst, false, Option, some, ◌==◌,
  if◌then◌else◌, update-each, nproc, arith, Bool-cases, ==_refl, ==→eq, inl, inr, ltb,
}
use mathlib.Core.Bool.{true≢false}
use os_ass.Base.Outcome.{Outcome, ok, panic}
use os_ass.Kernel.Proc.{
  sleeping, runnable, zombie, same_state, Chan, proc_at, Proc, Table, wakeup1, wake_body, is_slot,
  chan_of,
}
use os_ass.Kernel.Proc.Life.{FileOps, put_proc, orphan_body, orphan_loop, exit}
use os_ass.Kernel.Proc.Scan.{put_proc_self, put_proc-others, wakeup1_in, wakeup1_out}
use os_ass.Kernel.Proc.Family.{empty}
use os_ass.Kernel.Proc.Family.Exit.{
  Exited, left, orphaned, ended, exit-panic, exit-ended, ended-Exited,
}

-- What every wake-up and every new parent keeps, the loop over the children keeps.
module _ (P : Proc → Type 0) (wake : (c : Chan) (p : Proc) → P p → P (wake_body c p))
    (move : (o : Option ℕ) (p : Proc) → P p → P (record p { parent = o })) (k : ℕ) where
  wakeup1-keeps : (c : Chan) (t : Table) → P (t.procs k) → P ((wakeup1 c t).procs k)
  wakeup1-keeps c t h = elim (Bool-cases (ltb k nproc)) [
    | inl e ↦ subst P (sym (wakeup1_in c t k (ground (arith, e)))) (wake c (t.procs k) h)
    | inr e ↦ subst P (sym (wakeup1_out c t k (ground (arith, e)))) h
  ]

  orphan_body-keeps : (cur i : ℕ) (t : Table) → P (t.procs k) → P ((orphan_body cur i t).procs k)
  unfolding orphan_body
  orphan_body-keeps cur i t h = elim (Bool-cases (is_slot (t.procs i).parent cur)) [
    | inl e ↦
        subst (λ b. P ((if b then woken else t).procs k)) (sym e)
          (elim (Bool-cases (same_state (t.procs i).state zombie)) [
            | inl z ↦
                subst (λ b. P ((if b then wakeup1 (proc_at t.initproc) t1 else t1).procs k)) (sym z)
                  (wakeup1-keeps (proc_at t.initproc) t1 moved)
            | inr z ↦
                subst (λ b. P ((if b then wakeup1 (proc_at t.initproc) t1 else t1).procs k)) (sym z)
                  moved
          ])
    | inr e ↦ subst (λ b. P ((if b then woken else t).procs k)) (sym e) h
  ]
    where
      t1 : Table
      t1 = put_proc i (record (t.procs i) { parent = some t.initproc }) t

      woken : Table
      woken = if same_state (t.procs i).state zombie then wakeup1 (proc_at t.initproc) t1 else t1

      moved : P (t1.procs k)
      moved =
          update-each (λ m q. m ≡ k → P q) t.procs i
            (record (t.procs i) { parent = some t.initproc })
            (λ e. move (some t.initproc) (t.procs i) (subst (λ m. P (t.procs m)) (sym e) h))
            (λ m ne e. subst (λ n. P (t.procs n)) (sym e) h) k refl

  orphan_loop-keeps :
      (cur i n : ℕ) (t : Table) → P (t.procs k) → P ((orphan_loop cur i n t).procs k)
  unfolding orphan_loop
  orphan_loop-keeps cur i zero t h = h
  orphan_loop-keeps cur i (suc n) t h =
      orphan_loop-keeps cur (i + 1) n (orphan_body cur i t) (orphan_body-keeps cur i t h)

wake_body-asleep :
    (p : Proc) (j : ℕ)
    → p.state ≡ sleeping
    → p.chan ≡ proc_at j
    → (wake_body (proc_at j) p).state ≡ runnable
wake_body-asleep p j s c = ground (arith, s, c)

-- How `exit` may end.
pub data Exits (status cur : ℕ) (t : Table) {Files : Type 0}
    : Outcome (Table × Files) → Type 0 where
  panics : cur ≡ t.initproc → Exits status cur t (panic "init exiting")
  ends :
      {t' : Table} {fs' : Files}
      → cur ≢ t.initproc
      → Exited cur t t'
      → (t'.procs cur).exit_status ≡ status
      → ((j : ℕ)
          → j < nproc
          → cur ≢ j
          → (t.procs cur).parent ≡ some j
          → (t.procs j).state ≡ sleeping
          → (t.procs j).chan ≡ proc_at j
          → (t'.procs j).state ≡ runnable)
      → Exits status cur t (ok (t', fs'))

module _ {Files : Type 0} (ops : FileOps Files) (status cur : ℕ) (t : Table) (fs : Files) where
  ended-status : ((ended ops status cur t fs).procs cur).exit_status ≡ status
  unfolding ended orphaned left
  ended-status =
      ap (λ p. p.exit_status) (put_proc_self cur (record (o.procs cur) { state = zombie }) o)
      ∙ orphan_loop-keeps Left (λ c p h. ground (arith, h)) (λ o p h. h) cur cur 0 nproc
          (wakeup1 (chan_of (t.procs cur).parent) t1)
          (wakeup1-keeps Left (λ c p h. ground (arith, h)) (λ o p h. h) cur
            (chan_of (t.procs cur).parent) t1
            (ap (λ p. p.exit_status) (put_proc_self cur (left ops status cur t fs) t)))
    where
      Left : Proc → Type 0
      Left p = p.exit_status ≡ status

      o : Table
      o = orphaned ops status cur t fs

      t1 : Table
      t1 = put_proc cur (left ops status cur t fs) t

  ended-wakes :
      (j : ℕ)
      → j < nproc
      → cur ≢ j
      → (t.procs cur).parent ≡ some j
      → (t.procs j).state ≡ sleeping
      → (t.procs j).chan ≡ proc_at j
      → ((ended ops status cur t fs).procs j).state ≡ runnable
  unfolding ended orphaned
  ended-wakes j l ne e s c =
      ap (λ p. p.state) (put_proc-others cur (record (o.procs cur) { state = zombie }) o j ne)
      ∙ orphan_loop-keeps (λ p. p.state ≡ runnable) (λ d p h. ground (arith, h)) (λ d p h. h) j cur
          0 nproc (wakeup1 (chan_of (t.procs cur).parent) t1)
          (ap (λ p. p.state) (wakeup1_in (chan_of (t.procs cur).parent) t1 j l)
            ∙ ap₂ (λ d p. (wake_body (chan_of d) p).state) e
                (put_proc-others cur (left ops status cur t fs) t j ne)
            ∙ wake_body-asleep (t.procs j) j s c)
    where
      o : Table
      o = orphaned ops status cur t fs

      t1 : Table
      t1 = put_proc cur (left ops status cur t fs) t

-- `exit` panics for init. Any other process of the table it leaves as a zombie with the status and
-- the pid and parent that it had; its children have init for a parent; the other slots keep
-- pids and parents, and whether they are free and whether they may run. A parent that was asleep
-- on its own slot, as `waitpid` sleeps, becomes runnable.
pub exit_lem :
    {Files : Type 0} (ops : FileOps Files) (status cur : ℕ) (t : Table) (fs : Files)
    → cur < nproc
    → empty (t.procs cur).state ≡ false
    → Exits status cur t (exit ops status cur t fs)
exit_lem ops status cur t fs l e = elim (Bool-cases (cur == t.initproc)) [
  | inl s ↦
      subst (Exits status cur t) (sym (exit-panic ops status cur t fs s))
        (panics (==→eq cur t.initproc s))
  | inr s ↦ subst (Exits status cur t) (sym (exit-ended ops status cur t fs s)) (
      ends (λ d. true≢false (sym (==_refl cur) ∙ ap (λ i. cur == i) d ∙ s))
        (ended-Exited ops status cur t fs l e) (ended-status ops status cur t fs)
        (ended-wakes ops status cur t fs))
]
