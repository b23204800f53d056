-- ===== src/Kernel/Proc/Family/Fork.antt =====
-- `allocproc` and `fork` of proc.c on every branch.
use os_ass.Base.{
  ℕ, ◌+◌, ◌≤◌, ◌<◌, ◌≡◌, ◌≢◌, refl, sym, ap, ◌∙◌, subst, Bool, false, Option, none, some, ◌==◌,
  if◌then◌else◌, update, nproc, nofile, arith, Bool-cases, Option-cases, ==→eq, ==→ne, inl, inr,
}
use os_ass.Kernel.Proc.{unused, embryo, runnable, same_state, Proc, Table, find_proc}
use os_ass.Kernel.Proc.Life.{FileOps, put_proc, found, allocproc, dup_loop, fork_into, fork}
use os_ass.Kernel.Proc.Scan.{
  find_loop-some, find_loop-none, put_proc_self, put_proc-others, OthersKept,
}
use os_ass.Kernel.Proc.Family.Births.{dup_loop-shares, Newborn, Taken, Forks, full, no_memory, born}
use os_ass.Kernel.Proc.Family.{empty}

module _ {Files : Type 0} (ops : FileOps Files) (stack pgdir cur : ℕ) (t : Table) (fs : Files) where
  Ends : Option ℕ × Table × Files → Type 0
  Ends r = Forks stack pgdir cur t r.0 r.1

  after_alloc : Option ℕ × Table → Option ℕ × Table × Files
  after_alloc r = elim r.0 [ none ↦ (none, r.1, fs) | some i ↦ fork_into ops pgdir cur i r.1 fs ]

  module _ (i : ℕ) (slot : i < nproc) (free : (t.procs i).state ≡ unused) (ne : i ≢ cur) where
    -- The slot with its new pid.
    numbered : Table
    numbered = record t {
      procs = update t.procs i (record (t.procs i) { state = embryo; pid = t.nextpid });
      nextpid = t.nextpid + 1;
    }

    numbered_self : numbered.procs i ≡ record (t.procs i) { state = embryo; pid = t.nextpid }
    unfolding numbered
    numbered_self = put_proc_self i (record (t.procs i) { state = embryo; pid = t.nextpid }) t

    numbered-others : OthersKept i t numbered
    unfolding numbered
    numbered-others = put_proc-others i (record (t.procs i) { state = embryo; pid = t.nextpid }) t

    put-Taken :
        (u : Table) (p : Proc)
        → OthersKept i t u
        → u.nextpid ≡ t.nextpid + 1
        → u.initproc ≡ t.initproc
        → p.pid ≡ t.nextpid
        → Taken i t (put_proc i p u)
    put-Taken u p others n o e = record {
      slot = slot;
      free = free;
      pid = ap (λ q. q.pid) (put_proc_self i p u) ∙ e;
      others = λ k d. put_proc-others i p u k d ∙ others k d;
      nextpid = n;
      initproc = o;
    }

    stacked : Table
    stacked = put_proc i (record (numbered.procs i) { kstack = stack }) numbered

    stacked_self : stacked.procs i ≡ record (numbered.procs i) { kstack = stack }
    unfolding stacked
    stacked_self = put_proc_self i (record (numbered.procs i) { kstack = stack }) numbered

    stacked-pid : (stacked.procs i).pid ≡ t.nextpid
    stacked-pid = ap (λ p. p.pid) stacked_self ∙ ap (λ p. p.pid) numbered_self

    stacked-parent : (stacked.procs i).parent ≡ (t.procs i).parent
    stacked-parent = ap (λ p. p.parent) stacked_self ∙ ap (λ p. p.parent) numbered_self

    stacked-others : OthersKept i t stacked
    unfolding stacked
    stacked-others k d =
        put_proc-others i (record (numbered.procs i) { kstack = stack }) numbered k d
        ∙ numbered-others k d

    no_stack :
        stack ≡ 0
        → Ends (
          none,
          put_proc i (record (numbered.procs i) { kstack = 0; state = unused }) numbered,
          fs,
        )
    unfolding Ends numbered
    no_stack e =
        no_memory (inl e)
          (put-Taken numbered p numbered-others refl refl (ap (λ q. q.pid) numbered_self))
          (ap (λ q. q.state) (put_proc_self i p numbered))
          (ap (λ q. q.parent) (put_proc_self i p numbered) ∙ ap (λ q. q.parent) numbered_self)
      where
        p : Proc
        p = record (numbered.procs i) { kstack = 0; state = unused }

    no_pages :
        pgdir ≡ 0
        → Ends (
          none,
          put_proc i (record (stacked.procs i) { pgdir = 0; kstack = 0; state = unused }) stacked,
          fs,
        )
    unfolding Ends stacked numbered
    no_pages e =
        no_memory (inr e) (put-Taken stacked p stacked-others refl refl stacked-pid)
          (ap (λ q. q.state) (put_proc_self i p stacked))
          (ap (λ q. q.parent) (put_proc_self i p stacked) ∙ stacked-parent)
      where
        p : Proc
        p = record (stacked.procs i) { pgdir = 0; kstack = 0; state = unused }

    shared : (ℕ → ℕ) × Files
    shared = dup_loop ops 0 nofile (stacked.procs cur).ofile (stacked.procs i).ofile fs

    child : Proc
    child = record (stacked.procs i) {
      pgdir = pgdir;
      sz = (stacked.procs cur).sz;
      parent = some cur;
      job = (stacked.procs cur).job;
      tf = (stacked.procs cur).tf;
      eax = 0;
      ofile = shared.0;
      cwd = (stacked.procs cur).cwd;
      name = (stacked.procs cur).name;
      state = runnable;
    }

    stacked-stale :
        ((stacked.procs i).killed ≡ (t.procs i).killed)
        × ((stacked.procs i).pending ≡ (t.procs i).pending)
    stacked-stale = (
      ap (λ p. p.killed) stacked_self ∙ ap (λ p. p.killed) numbered_self,
      ap (λ p. p.pending) stacked_self ∙ ap (λ p. p.pending) numbered_self,
    )

    child-Newborn : Newborn pgdir cur i t (put_proc i child stacked)
    unfolding child shared
    child-Newborn = record {
      state = ap (λ q. q.state) self;
      pid = ap (λ q. q.pid) self ∙ stacked-pid;
      parent = ap (λ q. q.parent) self;
      result = ap (λ q. q.eax) self;
      registers = ap (λ q. q.tf) self ∙ ap (λ q. q.tf) me;
      memory = (ap (λ q. q.sz) self ∙ ap (λ q. q.sz) me, ap (λ q. q.pgdir) self);
      job = ap (λ q. q.job) self ∙ ap (λ q. q.job) me;
      stale =
          (ap (λ q. q.killed) self ∙ stacked-stale.0, ap (λ q. q.pending) self ∙ stacked-stale.1);
      cwd = ap (λ q. q.cwd) self ∙ ap (λ q. q.cwd) me;
      files = λ k l n.
          ap (λ q. q.ofile k) self
          ∙ dup_loop-shares ops 0 nofile (stacked.procs cur).ofile (stacked.procs i).ofile fs k
              (omega arith) l (λ z. n (sym (ap (λ q. q.ofile k) me) ∙ z))
          ∙ ap (λ q. q.ofile k) me;
    }
      where
        self : (put_proc i child stacked).procs i ≡ child
        self = put_proc_self i child stacked

        me : stacked.procs cur ≡ t.procs cur
        me = stacked-others cur ne

    child-Ends :
        stack ≢ 0
        → pgdir ≢ 0
        → Ends (
          some (stacked.procs i).pid,
          put_proc i child stacked,
          ops.idup (stacked.procs cur).cwd shared.1,
        )
    unfolding Ends child stacked numbered
    child-Ends s g =
        subst (λ n. Forks stack pgdir cur t (some n) (put_proc i child stacked)) (sym stacked-pid)
          (born s g (put-Taken stacked child stacked-others refl refl stacked-pid) child-Newborn)

    answer : Bool → Option ℕ × Table × Files
    answer no_pgdir =
        if no_pgdir
        then (
          none,
          put_proc i (record (stacked.procs i) { pgdir = 0; kstack = 0; state = unused }) stacked,
          fs,
        )
        else (
          some (stacked.procs i).pid,
          put_proc i child stacked,
          ops.idup (stacked.procs cur).cwd shared.1,
        )

    fork_into-answer : fork_into ops pgdir cur i stacked fs ≡ answer (pgdir == 0)
    unfolding fork_into answer child shared
    fork_into-answer = refl

    pages : stack ≢ 0 → Ends (fork_into ops pgdir cur i stacked fs)
    unfolding answer
    pages s = elim (Bool-cases (pgdir == 0)) [
      | inl e ↦ subst Ends (sym (fork_into-answer ∙ ap answer e)) (no_pages (==→eq pgdir 0 e))
      | inr e ↦ subst Ends (sym (fork_into-answer ∙ ap answer e)) (child-Ends s (==→ne pgdir 0 e))
    ]

    offer : Bool → Option ℕ × Table
    offer no_page =
        if no_page
        then (none, put_proc i (record (numbered.procs i) { kstack = 0; state = unused }) numbered)
        else (some i, stacked)

    found-offer : found stack i t ≡ offer (stack == 0)
    unfolding found offer stacked numbered
    found-offer = refl

    after_found : Ends (after_alloc (found stack i t))
    unfolding after_alloc offer
    after_found = elim (Bool-cases (stack == 0)) [
      | inl e ↦
          subst (λ r. Ends (after_alloc r)) (sym (found-offer ∙ ap offer e))
            (no_stack (==→eq stack 0 e))
      | inr e ↦
          subst (λ r. Ends (after_alloc r)) (sym (found-offer ∙ ap offer e))
            (pages (==→ne stack 0 e))
    ]

  -- `allocproc` for what the search for a free slot finds.
  pick : Option ℕ → Option ℕ × Table
  pick o = elim o [ none ↦ (none, t) | some i ↦ found stack i t ]

  after_find : empty (t.procs cur).state ≡ false → Ends (after_alloc (allocproc stack t))
  unfolding allocproc pick find_proc after_alloc Ends
  after_find h = elim (Option-cases (find_proc (λ p. same_state p.state unused) t.procs)) [
    | inl e ↦
        subst (λ o. Ends (after_alloc (pick o))) (sym e)
          (nothing (find_loop-none (λ p. same_state p.state unused) t.procs 0 nproc e))
    | inr (i, e) ↦
        let first = find_loop-some (λ p. same_state p.state unused) t.procs 0 nproc i e in
        subst (λ o. Ends (after_alloc (pick o))) (sym e)
          (after_found i first.below (ground (arith, first.passes))
            (λ s. used i (ground (arith, first.passes)) (ap (λ k. empty (t.procs k).state) s ∙ h)))
  ]
    where
      nothing :
          ((k : ℕ) → 0 ≤ k → k < nproc → same_state (t.procs k).state unused ≡ false)
          → Ends (none, t, fs)
      nothing no_free = full (λ i l e. ground (arith, no_free i (omega arith) l, e))

      used : (i : ℕ) → (t.procs i).state ≡ unused → ¬ (empty (t.procs i).state ≡ false)
      used i e d = ground (arith, e, d)

-- `fork` returns -1 and changes nothing when no slot is free. Otherwise it takes a free slot and the
-- next pid, and changes no other slot. If there is no page for the stack or the page table, it
-- returns -1 and the slot is free again. If not, it returns the child's pid, which is that new one,
-- and the child is a runnable copy of the caller, but for a result of 0; whether it is killed, and
-- its pending signals, are what the slot had before.
pub fork_lem :
    {Files : Type 0} (ops : FileOps Files) (stack pgdir cur : ℕ) (t : Table) (fs : Files)
    → empty (t.procs cur).state ≡ false
    → Forks stack pgdir cur t (fork ops stack pgdir cur t fs).0 (fork ops stack pgdir cur t fs).1
unfolding fork Ends after_alloc
fork_lem ops stack pgdir cur t fs h = after_find ops stack pgdir cur t fs h
