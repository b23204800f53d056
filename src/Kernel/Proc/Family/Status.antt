-- ===== src/Kernel/Proc/Family/Status.antt =====
-- The way of an exit status from `exit` to the parent's `waitpid`.
use os_ass.Base.{ℕ, ◌<◌, ◌≡◌, ◌≢◌, sym, ap, ◌∙◌, subst, true, some, nproc, arith, inl, inr}
use os_ass.Base.Outcome.{ok}
use mathlib.Core.Bool.{true≢false}
use mathlib.Core.Option.{some-injective, some-ne-none}
use os_ass.Kernel.Proc.{running, zombie, Table}
use os_ass.Kernel.Proc.Life.{FileOps, exit, waitpid, Waited}
use os_ass.Kernel.Proc.Wait.{Waits, reaps, refuses, gives_up, sleeps, waitpid_lem}
use os_ass.Kernel.Proc.Family.{empty, Family}
use os_ass.Kernel.Proc.Family.Exit.{Exited-Family}
use os_ass.Kernel.Proc.Family.Ends.{Exits, ends, exit_lem}
use os_ass.Kernel.Proc.Wait.{Child}
use os_ass.Kernel.Proc.Life.{reaped}
use os_ass.Kernel.Proc.Family.Exit.{Exited}

module _ {cur j : ℕ} {t t' : Table} (f : Family t') (x : Exited cur t t') (l : cur < nproc)
    (line : (t.procs cur).parent ≡ some j) (ne : cur ≢ j) where
  orphan-Child : Child j (some (t.procs cur).pid) t' cur
  orphan-Child = record {
    slot = l;
    parent = x.parent cur l ∙ ground (arith, line, ne);
    wanted = inr (ap some (sym (x.pid cur l)));
  }

  only_one : (i : ℕ) → Child j (some (t.procs cur).pid) t' i → (t'.procs i).state ≡ zombie → cur ≡ i
  only_one i h z = elim h.wanted [
    | inl e ↦ absurd (some-ne-none (t.procs cur).pid e)
    | inr e ↦
        f.pid_one cur i l h.slot (ap empty x.dead) (ap empty z)
          (x.pid cur l ∙ some-injective (t.procs cur).pid (t'.procs i).pid e)
  ]

  settled :
      {answer : Waited} {u : Table}
      → Waits true (some (t.procs cur).pid) j t' answer u
      → answer ≡ reaped (t.procs cur).pid (t'.procs cur).exit_status
  settled (reaps {i} s c z e o p others n d) =
      ap (λ k. reaped (t'.procs k).pid (t'.procs k).exit_status) (sym (only_one i c z))
      ∙ ap (λ k. reaped k (t'.procs cur).exit_status) (x.pid cur l)
  settled (refuses s c z) = absurd (true≢false s)
  settled (gives_up z w) = absurd (z cur orphan-Child x.dead)
  settled (sleeps z c k) = absurd (z cur orphan-Child x.dead)

-- In a table with a family, the status that a process passes to `exit` is what its parent gets from
-- `waitpid` for its pid, at once, with a pointer that is not null.
pub waitpid-exit :
    {Files : Type 0} (ops : FileOps Files) (status cur j : ℕ) (t t' : Table) (fs fs' : Files)
    → Family t
    → cur < nproc
    → (t.procs cur).state ≡ running
    → (t.procs cur).parent ≡ some j
    → cur ≢ j
    → exit ops status cur t fs ≡ ok (t', fs')
    → (waitpid true (some (t.procs cur).pid) j t').0 ≡ reaped (t.procs cur).pid status
waitpid-exit ops status cur j t t' fs fs' f l r line ne e =
    reported (subst (Exits status cur t) e (exit_lem ops status cur t fs l (ap empty r)))
  where
    reported :
        Exits status cur t (ok (t', fs'))
        → (waitpid true (some (t.procs cur).pid) j t').0 ≡ reaped (t.procs cur).pid status
    reported (ends n x s w) =
        settled (Exited-Family cur n x f) x l line ne
          (waitpid_lem true (some (t.procs cur).pid) j t')
        ∙ ap (reaped (t.procs cur).pid) s
