-- ===== src/Kernel/Proc/Family/Births.antt =====
-- What `fork` of proc.c does: the child and its files, and how it may end.
use os_ass.Base.{
  ℕ, zero, suc, ◌+◌, ◌≤◌, ◌<◌, ◌≡◌, ◌≢◌, refl, ◌∙◌, Option, none, some, ◌==◌, if◌then◌else◌, update,
  nproc, nofile, arith, Bool-cases, ==→eq, inl, inr, ◌⊎◌,
}
use os_ass.Kernel.Proc.{unused, runnable, Table}
use os_ass.Kernel.Proc.Life.{FileOps, dup_loop}
use os_ass.Kernel.Proc.Scan.{OthersKept}

module _ {Files : Type 0} (ops : FileOps Files) where
  dup_loop-out :
      (i n : ℕ) (from to : ℕ → ℕ) (fs : Files) (k : ℕ)
      → k < i
      → (dup_loop ops i n from to fs).0 k ≡ to k
  unfolding dup_loop
  dup_loop-out i zero from to fs k l = refl
  dup_loop-out i (suc n) from to fs k l = ground (
    arith,
    l,
    dup_loop-out (i + 1) n from (if from i == 0 then to else update to i (from i))
        (if from i == 0 then fs else ops.filedup (from i) fs) k,
  )

  -- The loop over the open files gives the child those of the parent.
  pub dup_loop-shares :
      (i n : ℕ) (from to : ℕ → ℕ) (fs : Files) (k : ℕ)
      → i ≤ k
      → k < i + n
      → from k ≢ 0
      → (dup_loop ops i n from to fs).0 k ≡ from k
  unfolding dup_loop
  dup_loop-shares i zero from to fs k l h ne = absurd (omega (arith, l, h))
  dup_loop-shares i (suc n) from to fs k l h ne = elim (Bool-cases (i == k)) [
    | inl e ↦ now (==→eq i k e)
    | inr e ↦ dup_loop-shares (i + 1) n from to1 fs1 k (ground (arith, e, l)) (omega (arith, h)) ne
  ]
    where
      to1 : ℕ → ℕ
      to1 = if from i == 0 then to else update to i (from i)

      fs1 : Files
      fs1 = if from i == 0 then fs else ops.filedup (from i) fs

      now : i ≡ k → (dup_loop ops i (suc n) from to fs).0 k ≡ from k
      now e = dup_loop-out (i + 1) n from to1 fs1 k (omega (arith, e)) ∙ ground (arith, e, ne)

-- Slot `i` of `t'` holds the child that `fork` makes of the process in slot `cur` of `t`.
pub record Newborn (pgdir cur i : ℕ) (t t' : Table) : Type 0 where
  pub state : (t'.procs i).state ≡ runnable
  pub pid : (t'.procs i).pid ≡ t.nextpid
  pub parent : (t'.procs i).parent ≡ some cur
  pub result : (t'.procs i).eax ≡ 0
  pub registers : (t'.procs i).tf ≡ (t.procs cur).tf
  pub memory : ((t'.procs i).sz ≡ (t.procs cur).sz) × ((t'.procs i).pgdir ≡ pgdir)
  pub job : (t'.procs i).job ≡ (t.procs cur).job
  pub stale :
      ((t'.procs i).killed ≡ (t.procs i).killed) × ((t'.procs i).pending ≡ (t.procs i).pending)
  pub cwd : (t'.procs i).cwd ≡ (t.procs cur).cwd
  pub files :
      (k : ℕ)
      → k < nofile
      → (t.procs cur).ofile k ≢ 0
      → (t'.procs i).ofile k ≡ (t.procs cur).ofile k

-- `t'` is `t` with a new pid given to the free slot `i`.
pub record Taken (i : ℕ) (t t' : Table) : Type 0 where
  pub slot : i < nproc
  pub free : (t.procs i).state ≡ unused
  pub pid : (t'.procs i).pid ≡ t.nextpid
  pub others : OthersKept i t t'
  pub nextpid : t'.nextpid ≡ t.nextpid + 1
  pub initproc : t'.initproc ≡ t.initproc

-- How `fork` may end.
pub data Forks (stack pgdir cur : ℕ) (t : Table) : Option ℕ → Table → Type 0 where
  full : ((i : ℕ) → i < nproc → (t.procs i).state ≢ unused) → Forks stack pgdir cur t none t
  no_memory :
      {i : ℕ} {t' : Table}
      → (stack ≡ 0) ⊎ (pgdir ≡ 0)
      → Taken i t t'
      → (t'.procs i).state ≡ unused
      → (t'.procs i).parent ≡ (t.procs i).parent
      → Forks stack pgdir cur t none t'
  born :
      {i : ℕ} {t' : Table}
      → stack ≢ 0
      → pgdir ≢ 0
      → Taken i t t'
      → Newborn pgdir cur i t t'
      → Forks stack pgdir cur t (some t.nextpid) t'
