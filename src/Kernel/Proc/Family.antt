-- ===== src/Kernel/Proc/Family.antt =====
-- The family tree in the process table of proc.c, and the changes that do not touch it.
pub mod Orphans
pub mod Exit
pub mod Ends
pub mod Births
pub mod Fork
pub mod Grow
pub mod Shrink
pub mod Calm
pub mod Steps
pub mod Status
use os_ass.Base.{
  ℕ, ◌+◌, ◌≤◌, ◌<◌, ◌≡◌, ◌≢◌, refl, sym, ap, ◌∙◌, subst, Bool, true, false, not, ◌&&◌, ◌||◌, Option,
  none, some, ◌==◌, if◌then◌else◌, update, update-each, nproc, arith, Bool-cases, Option-cases,
  ==_refl, ==→eq, inl, inr, ◌⊎◌, ltb,
}
use os_ass.Kernel.Proc.{
  ProcState, unused, embryo, sleeping, runnable, running, zombie, same_state, Chan, proc_at, Proc,
  Table, wakeup1, wake_body,
}
use os_ass.Kernel.Proc.Life.{put_proc}
use os_ass.Kernel.Proc.Scan.{wakeup1_in, wakeup1_out}

-- A process that may run again.
abbrev pub alive : ProcState → Bool
alive sleeping = true
alive runnable = true
alive running = true
alive _ = false

abbrev pub empty : ProcState → Bool
empty unused = true
empty _ = false

pub record Family (t : Table) : Type 0 where
  pub init_slot : t.initproc < nproc
  pub init_alive : alive (t.procs t.initproc).state ≡ true
  pub parent_slot : (i j : ℕ) → i < nproc → (t.procs i).parent ≡ some j → j < nproc
  pub parent_alive :
      (i j : ℕ) → i < nproc → (t.procs i).parent ≡ some j → alive (t.procs j).state ≡ true
  pub has_parent :
      (i : ℕ)
      → i < nproc
      → i ≢ t.initproc
      → empty (t.procs i).state ≡ false
      → (t.procs i).parent ≢ none
  pub no_parent : (i : ℕ) → i < nproc → empty (t.procs i).state ≡ true → (t.procs i).parent ≡ none
  pub pid_used : (i : ℕ) → i < nproc → (t.procs i).pid < t.nextpid
  pub pid_one :
      (i j : ℕ)
      → i < nproc
      → j < nproc
      → empty (t.procs i).state ≡ false
      → empty (t.procs j).state ≡ false
      → (t.procs i).pid ≡ (t.procs j).pid
      → i ≡ j

-- The change of a slot that the family does not see.
pub record Tame (p q : Proc) : Type 0 where
  pub parent : q.parent ≡ p.parent
  pub pid : q.pid ≡ p.pid
  pub alive : alive q.state ≡ alive p.state
  pub empty : empty q.state ≡ empty p.state

pub same-Tame : {p q : Proc} → q ≡ p → Tame p q
same-Tame e = record {
  parent = ap (λ r. r.parent) e;
  pid = ap (λ r. r.pid) e;
  alive = ap (λ r. alive r.state) e;
  empty = ap (λ r. empty r.state) e;
}

pub record TameTable (t t' : Table) : Type 0 where
  pub slots : (i : ℕ) → Tame (t.procs i) (t'.procs i)
  pub nextpid : t'.nextpid ≡ t.nextpid
  pub initproc : t'.initproc ≡ t.initproc

pub TameTable-Family : {t t' : Table} → TameTable t t' → Family t → Family t'
TameTable-Family {t} {t'} h f = record {
  init_slot = omega (arith, h.initproc, f.init_slot);
  init_alive =
      (h.slots t'.initproc).alive ∙ ap (λ i. alive (t.procs i).state) h.initproc ∙ f.init_alive;
  parent_slot = λ i j l e. f.parent_slot i j l (sym (h.slots i).parent ∙ e);
  parent_alive = λ i j l e. (h.slots j).alive ∙ f.parent_alive i j l (sym (h.slots i).parent ∙ e);
  has_parent = λ i l ne e n.
      f.has_parent i l (λ s. ne (s ∙ sym h.initproc)) (sym (h.slots i).empty ∙ e)
        (sym (h.slots i).parent ∙ n);
  no_parent = λ i l e. (h.slots i).parent ∙ f.no_parent i l (sym (h.slots i).empty ∙ e);
  pid_used = λ i l. omega (arith, (h.slots i).pid, h.nextpid, f.pid_used i l);
  pid_one = λ i j l g e d s.
      f.pid_one i j l g (sym (h.slots i).empty ∙ e) (sym (h.slots j).empty ∙ d)
        (sym (h.slots i).pid ∙ s ∙ (h.slots j).pid);
}

pub put_proc-TameTable :
    (i : ℕ) (p : Proc) (t : Table) → Tame (t.procs i) p → TameTable t (put_proc i p t)
put_proc-TameTable i p t h = record {
  slots = update-each (λ k q. Tame (t.procs k) q) t.procs i p h (λ k ne. same-Tame refl);
  nextpid = refl;
  initproc = refl;
}

wake_body-Tame : (c : Chan) (p : Proc) → Tame p (wake_body c p)
wake_body-Tame c p = record {
  parent = ground arith;
  pid = ground arith;
  alive = ground arith;
  empty = ground arith;
}

wakeup1-Tame : (c : Chan) (t : Table) (i : ℕ) → Tame (t.procs i) ((wakeup1 c t).procs i)
wakeup1-Tame c t i = elim (Bool-cases (ltb i nproc)) [
  | inl e ↦
      subst (Tame (t.procs i)) (sym (wakeup1_in c t i (ground (arith, e))))
        (wake_body-Tame c (t.procs i))
  | inr e ↦ same-Tame (wakeup1_out c t i (ground (arith, e)))
]

pub wakeup1-TameTable : (c : Chan) (t : Table) → TameTable t (wakeup1 c t)
unfolding wakeup1
wakeup1-TameTable c t = record { slots = wakeup1-Tame c t; nextpid = refl; initproc = refl }
