-- ===== src/Kernel/Proc/Wait.antt =====
-- `waitpid` of proc.c on every branch, and the way from `exit` to it.
use os_ass.Base.{
  ℕ, ◌<◌, ◌≡◌, ◌≢◌, refl, sym, ap, ◌∙◌, subst, Bool, true, false, Option, none, some, if◌then◌else◌,
  nproc, arith, Bool-cases, Option-cases, ==→eq, inl, inr, ◌⊎◌,
}
use mathlib.Core.Bool.{true≢false}
use os_ass.Kernel.Proc.{unused, zombie, proc_at, Proc, Table, find_loop}
use os_ass.Kernel.Proc.Life.{
  dead, havekids, is_wanted, Waited, reaped, failed, blocked, sleep, waitpid, after_scan, freed,
}
use os_ass.Kernel.Proc.Scan.{
  find_loop-some, find_loop-none, is_match, is_dead, is_some, scan_of, scan_loop_lem, OthersKept,
  put_proc_self, put_proc-others,
}

-- Slot `i` holds a child of slot `cur` of the kind that `waitpid` was asked for.
pub record Child (cur : ℕ) (child : Option ℕ) (t : Table) (i : ℕ) : Type 0 where
  pub slot : i < nproc
  pub parent : (t.procs i).parent ≡ some cur
  pub wanted : (child ≡ none) ⊎ (child ≡ some (t.procs i).pid)

abbrev pub NoZombie : ℕ → Option ℕ → Table → Type 0
NoZombie cur child t = (i : ℕ) → Child cur child t i → (t.procs i).state ≢ zombie

-- The answers that `waitpid` may give, each with what holds before and after.
pub data Waits (status : Bool) (child : Option ℕ) (cur : ℕ) (t : Table)
    : Waited → Table → Type 0 where
  reaps :
      {i : ℕ} {t' : Table}
      → status ≡ true
      → Child cur child t i
      → (t.procs i).state ≡ zombie
      → (t'.procs i).state ≡ unused
      → (t'.procs i).parent ≡ none
      → (t'.procs i).pid ≡ 0
      → OthersKept i t t'
      → t'.nextpid ≡ t.nextpid
      → t'.initproc ≡ t.initproc
      → Waits status child cur t (reaped (t.procs i).pid (t.procs i).exit_status) t'
  refuses :
      {i : ℕ}
      → status ≡ false
      → Child cur child t i
      → (t.procs i).state ≡ zombie
      → Waits status child cur t failed t
  gives_up :
      NoZombie cur child t
      → ((i : ℕ) → ¬ Child cur child t i) ⊎ ((t.procs cur).killed ≡ true)
      → Waits status child cur t failed t
  sleeps :
      {i : ℕ}
      → NoZombie cur child t
      → Child cur child t i
      → (t.procs cur).killed ≡ false
      → Waits status child cur t blocked (sleep (proc_at cur) cur t)

is_wanted-cases :
    (child : Option ℕ) (pid : ℕ) → is_wanted child pid ≡ true → (child ≡ none) ⊎ (child ≡ some pid)
is_wanted-cases none pid h = inl refl
is_wanted-cases (some k) pid h = inr (ap some (==→eq k pid h))

is_match→Child :
    (cur : ℕ) (child : Option ℕ) (t : Table) (i : ℕ)
    → i < nproc
    → is_match cur child (t.procs i) ≡ true
    → Child cur child t i
is_match→Child cur child t i l h = record {
  slot = l;
  parent = ground (arith, h);
  wanted = is_wanted-cases child (t.procs i).pid (ground (arith, h));
}

Child→is_match :
    (cur : ℕ) (child : Option ℕ) (t : Table) (i : ℕ)
    → Child cur child t i
    → is_match cur child (t.procs i) ≡ true
Child→is_match cur child t i h = ground (arith, h.parent, h.wanted)

is_dead→zombie :
    (cur : ℕ) (child : Option ℕ) (p : Proc)
    → is_dead cur child p ≡ true
    → (is_match cur child p ≡ true) × (p.state ≡ zombie)
is_dead→zombie cur child p h = ground arith

first_dead : ℕ → Option ℕ → Table → Option ℕ
first_dead cur child t = find_loop (is_dead cur child) t.procs 0 nproc

first_child : ℕ → Option ℕ → Table → Option ℕ
first_child cur child t = find_loop (is_match cur child) t.procs 0 nproc

find-Child :
    (cur : ℕ) (child : Option ℕ) (t : Table) (i : ℕ)
    → first_child cur child t ≡ some i
    → Child cur child t i
unfolding first_child
find-Child cur child t i e =
    let first = find_loop-some (is_match cur child) t.procs 0 nproc i e in
    is_match→Child cur child t i first.below first.passes

find-no_Child :
    (cur : ℕ) (child : Option ℕ) (t : Table)
    → first_child cur child t ≡ none
    → (i : ℕ) → ¬ Child cur child t i
unfolding first_child
find-no_Child cur child t e i h =
    let no = find_loop-none (is_match cur child) t.procs 0 nproc e i (omega arith) h.slot in
    absurd (true≢false (sym (Child→is_match cur child t i h) ∙ no))

find-dead :
    (cur : ℕ) (child : Option ℕ) (t : Table) (i : ℕ)
    → first_dead cur child t ≡ some i
    → Child cur child t i × ((t.procs i).state ≡ zombie)
unfolding first_dead
find-dead cur child t i e =
    let first = find_loop-some (is_dead cur child) t.procs 0 nproc i e in
    let both = is_dead→zombie cur child (t.procs i) first.passes in
    (is_match→Child cur child t i first.below both.0, both.1)

find-NoZombie :
    (cur : ℕ) (child : Option ℕ) (t : Table) → first_dead cur child t ≡ none → NoZombie cur child t
unfolding first_dead
find-NoZombie cur child t e i h z =
    let no = find_loop-none (is_dead cur child) t.procs 0 nproc e i (omega arith) h.slot in
    ground (arith, no, z, Child→is_match cur child t i h)

waitpid-after_scan :
    (status : Bool) (child : Option ℕ) (cur : ℕ) (t : Table)
    → waitpid status child cur t
      ≡ after_scan status cur t
          (scan_of (first_dead cur child t) (is_some (first_child cur child t)))
unfolding waitpid first_dead first_child
waitpid-after_scan status child cur t =
    ap (after_scan status cur t) (scan_loop_lem cur child t.procs 0 nproc false)

Result : Bool → Option ℕ → ℕ → Table → Waited × Table → Type 0
Result status child cur t r = Waits status child cur t r.0 r.1

reap :
    (status : Bool) (child : Option ℕ) (cur : ℕ) (t : Table) (i : ℕ)
    → Child cur child t i
    → (t.procs i).state ≡ zombie
    → Waits status child cur t
        (after_scan status cur t (dead i)).0
        (after_scan status cur t (dead i)).1
unfolding after_scan
reap true child cur t i h z =
    let p = freed (t.procs i) in
    reaps refl h z (ap (λ q. q.state) (put_proc_self i p t))
      (ap (λ q. q.parent) (put_proc_self i p t)) (ap (λ q. q.pid) (put_proc_self i p t))
      (put_proc-others i p t) refl refl
reap false child cur t i h z = refuses refl h z

rest :
    (status : Bool) (child : Option ℕ) (cur : ℕ) (t : Table) (i : ℕ)
    → NoZombie cur child t
    → Child cur child t i
    → Result status child cur t (after_scan status cur t (havekids true))
unfolding after_scan Result
rest status child cur t i none_dead h = elim (Bool-cases (t.procs cur).killed) [
  | inl e ↦
      subst
        (λ b.
          Result status child cur t
            (if b then (failed, t) else (blocked, sleep (proc_at cur) cur t)))
        (sym e) (gives_up none_dead (inr e))
  | inr e ↦
      subst
        (λ b.
          Result status child cur t
            (if b then (failed, t) else (blocked, sleep (proc_at cur) cur t)))
        (sym e) (sleeps none_dead h e)
]

no_dead :
    (status : Bool) (child : Option ℕ) (cur : ℕ) (t : Table)
    → NoZombie cur child t
    → Result status child cur t
        (after_scan status cur t (havekids (is_some (first_child cur child t))))
unfolding Result after_scan
no_dead status child cur t none_dead = elim (Option-cases (first_child cur child t)) [
  | inr (i, e) ↦
      subst (λ o. Result status child cur t (after_scan status cur t (havekids (is_some o))))
        (sym e) (rest status child cur t i none_dead (find-Child cur child t i e))
  | inl e ↦
      subst (λ o. Result status child cur t (after_scan status cur t (havekids (is_some o))))
        (sym e) (gives_up none_dead (inl (find-no_Child cur child t e)))
]

-- `waitpid` frees one zombie child of the kind asked for, if there is one and the pointer `status`
-- is not null, and returns its pid and exit status. It returns -1 and changes nothing if the
-- pointer is null and there is such a zombie, or there is no such zombie and either there is no
-- such child or the caller was killed. Otherwise it sleeps on the caller's own slot. No other
-- slot changes when it frees one.
pub waitpid_lem :
    (status : Bool) (child : Option ℕ) (cur : ℕ) (t : Table)
    → Waits status child cur t (waitpid status child cur t).0 (waitpid status child cur t).1
unfolding Result
waitpid_lem status child cur t =
    subst (Result status child cur t) (sym (waitpid-after_scan status child cur t))
      (elim (Option-cases (first_dead cur child t)) [
        | inr (i, e) ↦
            let found = find-dead cur child t i e in
            subst
              (λ o.
                Result status child cur t
                  (after_scan status cur t (scan_of o (is_some (first_child cur child t)))))
              (sym e) (reap status child cur t i found.0 found.1)
        | inl e ↦
            subst
              (λ o.
                Result status child cur t
                  (after_scan status cur t (scan_of o (is_some (first_child cur child t)))))
              (sym e) (no_dead status child cur t (find-NoZombie cur child t e))
      ])
