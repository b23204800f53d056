-- ===== src/Kernel/Proc/Family/Exit.antt =====
-- `exit` of proc.c and the family: its children go to init, and it stays as a zombie.
use os_ass.Base.{
  ℕ, ◌<◌, ◌≡◌, ◌≢◌, refl, sym, ap, ◌∙◌, subst, Bool, true, false, Option, none, some, ◌==◌,
  if◌then◌else◌, update-each, nproc, nofile, arith, Bool-cases, inl, inr, ◌⊎◌,
}
use os_ass.Base.Outcome.{Outcome, ok, panic}
use os_ass.Kernel.Proc.{zombie, Proc, Table, wakeup1, chan_of}
use os_ass.Kernel.Proc.Life.{FileOps, put_proc, orphan_loop, close_loop, exit}
use os_ass.Kernel.Proc.Scan.{put_proc_self, put_proc-others}
use os_ass.Kernel.Proc.Family.{alive, empty, Family, put_proc-TameTable, wakeup1-TameTable}
use os_ass.Kernel.Proc.Family.Orphans.{
  inherits, Heir, Passed, TameTable-trans, Tame-Passed, orphan_loop-Passed,
}

-- The table after slot `cur` has exited.
pub record Exited (cur : ℕ) (t t' : Table) : Type 0 where
  pub dead : (t'.procs cur).state ≡ zombie
  pub parent :
      (k : ℕ) → k < nproc → (t'.procs k).parent ≡ inherits cur t.initproc (t.procs k).parent
  pub pid : (k : ℕ) → k < nproc → (t'.procs k).pid ≡ (t.procs k).pid
  pub alive : (k : ℕ) → k < nproc → cur ≢ k → alive (t'.procs k).state ≡ alive (t.procs k).state
  pub empty : (k : ℕ) → k < nproc → empty (t'.procs k).state ≡ empty (t.procs k).state
  pub nextpid : t'.nextpid ≡ t.nextpid
  pub initproc : t'.initproc ≡ t.initproc

inherits-some :
    (cur heir : ℕ) (parent : Option ℕ) (j : ℕ)
    → inherits cur heir parent ≡ some j
    → ((heir ≡ j) × (parent ≡ some cur)) ⊎ ((cur ≢ j) × (parent ≡ some j))
inherits-some cur heir none j e = inr (ground (arith, e), ground (arith, e))
inherits-some cur heir (some k) j e = elim (Bool-cases (k == cur)) [
  | inl s ↦ inl (ground (arith, e, s), ground (arith, s))
  | inr s ↦ inr (ground (arith, e, s), ground (arith, e, s))
]

inherits-none : (cur heir : ℕ) (parent : Option ℕ) → inherits cur heir parent ≡ none → parent ≡ none
inherits-none cur heir none e = refl
inherits-none cur heir (some k) e = ground (arith, e)

pub Exited-Family :
    (cur : ℕ) {t t' : Table} → cur ≢ t.initproc → Exited cur t t' → Family t → Family t'
Exited-Family cur {t} {t'} ne h f = record {
  init_slot = omega (arith, h.initproc, f.init_slot);
  init_alive =
      subst (λ i. alive (t'.procs i).state ≡ true) (sym h.initproc)
        (h.alive t.initproc f.init_slot ne ∙ f.init_alive);
  parent_slot = λ i j l e. (heritage i j l e).0;
  parent_alive = λ i j l e. (heritage i j l e).1;
  has_parent = λ i l g e n.
      f.has_parent i l (λ s. g (s ∙ sym h.initproc)) (sym (h.empty i l) ∙ e)
        (inherits-none cur t.initproc (t.procs i).parent (sym (h.parent i l) ∙ n));
  no_parent = λ i l e.
      h.parent i l ∙ ap (inherits cur t.initproc) (f.no_parent i l (sym (h.empty i l) ∙ e));
  pid_used = λ i l. omega (arith, h.pid i l, h.nextpid, f.pid_used i l);
  pid_one = λ i j l g e d s.
      f.pid_one i j l g (sym (h.empty i l) ∙ e) (sym (h.empty j g) ∙ d)
        (sym (h.pid i l) ∙ s ∙ h.pid j g);
}
  where
    heritage :
        (i j : ℕ)
        → i < nproc
        → (t'.procs i).parent ≡ some j
        → (j < nproc) × (alive (t'.procs j).state ≡ true)
    heritage i j l e =
        elim (inherits-some cur t.initproc (t.procs i).parent j (sym (h.parent i l) ∙ e)) [
          | inl (s, d) ↦
              subst (λ k. (k < nproc) × (alive (t'.procs k).state ≡ true)) s
                (f.init_slot, h.alive t.initproc f.init_slot ne ∙ f.init_alive)
          | inr (s, d) ↦
              (f.parent_slot i j l d, h.alive j (f.parent_slot i j l d) s ∙ f.parent_alive i j l d)
        ]

-- What is left of the process in slot `cur`.
module _ {Files : Type 0} (ops : FileOps Files) (status cur : ℕ) (t : Table) (fs : Files) where
  unfoldable pub left : Proc
  left = record (t.procs cur) {
    exit_status = status;
    ofile = (close_loop ops 0 nofile (t.procs cur).ofile fs).0;
    cwd = 0;
    job = 0;
  }

  unfoldable pub orphaned : Table
  orphaned = orphan_loop cur 0 nproc (wakeup1 (chan_of (t.procs cur).parent) (put_proc cur left t))

  unfoldable pub ended : Table
  ended = put_proc cur (record (orphaned.procs cur) { state = zombie }) orphaned

  result : Bool → Outcome (Table × Files)
  result is_init =
      if is_init
      then panic "init exiting"
      else ok (ended, ops.iput (t.procs cur).cwd (close_loop ops 0 nofile (t.procs cur).ofile fs).1)

  pub exit-panic : (cur == t.initproc) ≡ true → exit ops status cur t fs ≡ panic "init exiting"
  unfolding exit ended orphaned left result
  exit-panic e = ap result e

  pub exit-ended :
      (cur == t.initproc) ≡ false
      → exit ops status cur t fs
        ≡ ok (ended, ops.iput (t.procs cur).cwd (close_loop ops 0 nofile (t.procs cur).ofile fs).1)
  unfolding exit ended orphaned left result
  exit-ended e = ap result e

  orphaned-Passed : Passed cur 0 nproc t orphaned
  unfolding orphaned left
  orphaned-Passed =
      Tame-Passed
        (TameTable-trans
          (put_proc-TameTable cur left t
            (record { parent = refl; pid = refl; alive = refl; empty = refl }))
          (wakeup1-TameTable (chan_of (t.procs cur).parent) (put_proc cur left t)))
        (orphan_loop-Passed cur 0 nproc
          (wakeup1 (chan_of (t.procs cur).parent) (put_proc cur left t)))

  pub ended-Exited : cur < nproc → empty (t.procs cur).state ≡ false → Exited cur t ended
  unfolding ended
  ended-Exited cur_slot e = record {
    dead = ap (λ p. p.state) at_cur;
    parent = λ k l. (kept k l).0;
    pid = λ k l. (kept k l).1;
    alive = λ k l ne.
        ap (λ p. alive p.state) (put_proc-others cur corpse orphaned k ne) ∙ (heirs k l).alive;
    empty = λ k l. (kept k l).2;
    nextpid = orphaned-Passed.nextpid;
    initproc = orphaned-Passed.initproc;
  }
    where
      corpse : Proc
      corpse = record (orphaned.procs cur) { state = zombie }

      at_cur : ended.procs cur ≡ corpse
      at_cur = put_proc_self cur corpse orphaned

      heirs : (k : ℕ) → k < nproc → Heir cur t.initproc (t.procs k) (orphaned.procs k)
      heirs k l = orphaned-Passed.inside k (omega arith) l

      kept :
          (k : ℕ)
          → k < nproc
          → ((ended.procs k).parent ≡ inherits cur t.initproc (t.procs k).parent)
            × ((ended.procs k).pid ≡ (t.procs k).pid)
            × (empty (ended.procs k).state ≡ empty (t.procs k).state)
      kept =
          update-each
            (λ k q.
              k < nproc
              → (q.parent ≡ inherits cur t.initproc (t.procs k).parent)
                × (q.pid ≡ (t.procs k).pid)
                × (empty q.state ≡ empty (t.procs k).state))
            orphaned.procs cur corpse (λ l. ((heirs cur l).parent, (heirs cur l).pid, sym e))
            (λ k ne l. ((heirs k l).parent, (heirs k l).pid, (heirs k l).empty))
