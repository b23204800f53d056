-- ===== src/Kernel/Spinlock/Tests.antt =====
-- The theorems on locks at concrete states.
use os_ass.Base.{ℕ, ◌≡◌, ◌≢◌, refl, true, false}
use os_ass.Kernel.Spinlock.{Cpu}
use os_ass.Kernel.Spinlock.System.{
  see_free, see_busy, not_mine, win, note_owner, panicked, System, pick, Reach, start, later,
}
use os_ass.Kernel.Spinlock.Exclusion.{critical, mutual_exclusion, never_panics}

abbrev quiet : Cpu
quiet = record { ncli = 0; intena = false; fl_if = true }

-- CPU 0 holds the lock, and CPU 1 is about to spin.
abbrev contended : (s : System) × Reach (λ i. true) s
contended = (
  _,
  later
      (later
        (later (later (later start (pick 0 (see_free refl))) (pick 0 (win refl)))
          (pick 0 note_owner))
        (pick 1 (see_busy refl)))
      (pick 1 (not_mine refl)),
)

mutual_exclusion_example :
    ((i j : ℕ) → critical (contended.0.pc i) ≡ true → critical (contended.0.pc j) ≡ true → i ≡ j)
    × ((i : ℕ)
        → critical (contended.0.pc i) ≡ true
        → (contended.0.lock.locked ≡ true) × ((contended.0.cpus i).fl_if ≡ false))
    × (contended.0.lock.locked ≡ true → (i : ℕ) × (critical (contended.0.pc i) ≡ true))
mutual_exclusion_example = mutual_exclusion contended.1

never_panics_example : contended.0.pc 1 ≢ panicked
never_panics_example = never_panics contended.1 1
