-- ===== src/Kernel/Spinlock/Exclusion.antt =====
-- The lock excludes, and neither `acquire` nor `release` panics when calls alternate.
use os_ass.Base.{update, ℕ, ◌≡◌, ◌≢◌, refl, Bool, true, false, arith}
use os_ass.Kernel.Spinlock.{Cpu, pushcli, popcli, Lock, is_cpu, holding}
use os_ass.Kernel.Spinlock.System.{
  Pc, outside, taken, inside, leaving, panicked, Move, see_free, see_busy, not_mine, mine, spin,
  win, note_owner, drop_owner, not_holding, free, bad_pop, System, pick, boot, Reach, start, later,
}

-- The lock is won and not yet given back.
abbrev pub critical : Pc → Bool
critical taken = true
critical inside = true
critical leaving = true
critical _ = false

-- The registers of a CPU: one level of nesting from the start of `acquire` to the end of `release`.
abbrev Local : Pc → Cpu → Type 0
Local outside c = c.ncli ≡ 0
Local _ c = (c.ncli ≡ 1) × (c.fl_if ≡ false)

record Inv (s : System) : Type 0 where
  unique : (i j : ℕ) → critical (s.pc i) ≡ true → critical (s.pc j) ≡ true → i ≡ j
  held : (i : ℕ) → critical (s.pc i) ≡ true → s.lock.locked ≡ true
  owned : s.lock.locked ≡ true → (i : ℕ) × (critical (s.pc i) ≡ true)
  owner : (i : ℕ) → is_cpu s.lock.cpu i ≡ true → s.pc i ≡ inside
  noted : (i : ℕ) → s.pc i ≡ inside → is_cpu s.lock.cpu i ≡ true
  calm : (i : ℕ) → s.pc i ≢ panicked
  local : (i : ℕ) → Local (s.pc i) (s.cpus i)

module _ {s : System} (inv : Inv s) (i : ℕ) where
  open inv use {unique, held, owned, owner, noted, calm, local}

  Move-unique :
      {p p' : Pc} {l : Lock} {c : Cpu}
      → Move i s.lock (s.cpus i) p l c p'
      → s.pc i ≡ p
      → (a b : ℕ) → critical (update s.pc i p' a) ≡ true
      → critical (update s.pc i p' b) ≡ true
      → a ≡ b
  Move-unique (see_free g) e a b = ground (arith, unique a b)
  Move-unique (win g) e a b = ground (arith, held a, held b, unique a b)
  Move-unique mv e a b = ground (arith, unique a b, unique a i, unique i b)

  Move-held :
      {p p' : Pc} {l : Lock} {c : Cpu}
      → Move i s.lock (s.cpus i) p l c p'
      → s.pc i ≡ p
      → (a : ℕ) → critical (update s.pc i p' a) ≡ true
      → l.locked ≡ true
  Move-held (see_free g) e a = ground (arith, held a)
  Move-held (free g) e a = ground (arith, held a, unique a i)
  Move-held (bad_pop m g) e a = ground (arith, held a, unique a i)
  Move-held mv e a = ground (arith, held a, held i)

  -- Some CPU is critical after the move, as before it, or the lock is free.
  Move-owned :
      {p p' : Pc} {l : Lock} {c : Cpu}
      → Move i s.lock (s.cpus i) p l c p'
      → s.pc i ≡ p
      → l.locked ≡ true
      → (a : ℕ) × (critical (update s.pc i p' a) ≡ true)
  unfolding holding
  Move-owned (win g) e h = (i, ground arith)
  Move-owned (note_owner) e h = (i, ground arith)
  Move-owned (drop_owner g) e h = (i, ground arith)
  Move-owned (not_holding g) e h = absurd (ground (arith, noted i, held i))
  Move-owned (free g) e h = absurd (ground arith)
  Move-owned (bad_pop m g) e h = absurd (ground arith)
  Move-owned (see_free g) e h = absurd (ground arith)
  Move-owned (see_busy g) e h = let (j, k) = owned h in (j, ground arith)
  Move-owned (not_mine g) e h = let (j, k) = owned h in (j, ground arith)
  Move-owned (mine g) e h = let (j, k) = owned h in (j, ground arith)
  Move-owned (spin g) e h = let (j, k) = owned g in (j, ground arith)

  Move-owner :
      {p p' : Pc} {l : Lock} {c : Cpu}
      → Move i s.lock (s.cpus i) p l c p'
      → s.pc i ≡ p
      → (a : ℕ) → is_cpu l.cpu a ≡ true
      → update s.pc i p' a ≡ inside
  unfolding holding
  Move-owner (see_free g) e a = ground (arith, owner a)
  Move-owner (not_holding g) e a = ground (arith, owner a, noted i, held i)
  Move-owner mv e a = ground (arith, owner a)

  Move-noted :
      {p p' : Pc} {l : Lock} {c : Cpu}
      → Move i s.lock (s.cpus i) p l c p'
      → s.pc i ≡ p
      → (a : ℕ) → update s.pc i p' a ≡ inside
      → is_cpu l.cpu a ≡ true
  Move-noted (see_free g) e a = ground (arith, noted a)
  Move-noted mv e a = ground (arith, noted a, unique a i)

  -- No guard that leads to `panic` holds.
  Move-calm :
      {p p' : Pc} {l : Lock} {c : Cpu}
      → Move i s.lock (s.cpus i) p l c p'
      → s.pc i ≡ p
      → (a : ℕ) → update s.pc i p' a ≢ panicked
  unfolding holding popcli
  Move-calm (see_free g) e a = ground (arith, calm a)
  Move-calm (mine g) e a = absurd (ground (arith, owner i))
  Move-calm (not_holding g) e a = absurd (ground (arith, noted i, held i))
  Move-calm (bad_pop m g) e a = absurd (ground (arith, local i))
  Move-calm mv e a = ground (arith, calm a)

  Move-Local :
      {p p' : Pc} {l : Lock} {c : Cpu}
      → Move i s.lock (s.cpus i) p l c p'
      → s.pc i ≡ p
      → (a : ℕ) → Local (update s.pc i p' a) (update s.cpus i c a)
  unfolding pushcli popcli
  Move-Local (see_free g) e a = ground (arith, local a, local i)
  Move-Local (free g) e a = ground (arith, local a, local i)
  Move-Local mv e a = ground (arith, local a, local i)

Inv-boot : (flags : ℕ → Bool) → Inv (boot flags)
Inv-boot flags = record {
  unique = λ i j h k. cc;
  held = λ i h. cc;
  owned = λ h. cc;
  owner = λ i h. cc;
  noted = λ i h. cc;
  calm = λ i h. cc;
  local = λ i. refl;
}

Reach-Inv : {flags : ℕ → Bool} {s : System} → Reach flags s → Inv s
Reach-Inv {flags} start = Inv-boot flags
Reach-Inv (later r (pick i mv)) =
    let inv = Reach-Inv r in
    record {
      unique = Move-unique inv i mv refl;
      held = Move-held inv i mv refl;
      owned = Move-owned inv i mv refl;
      owner = Move-owner inv i mv refl;
      noted = Move-noted inv i mv refl;
      calm = Move-calm inv i mv refl;
      local = Move-Local inv i mv refl;
    }

-- In every reachable state at most one CPU stands between winning the `xchg` of `acquire` and the
-- `xchg` of `release`; while one does, its interrupts are off and the lock is marked locked, and
-- a lock that is marked locked has such a CPU.
pub mutual_exclusion :
    {flags : ℕ → Bool} {s : System}
    → Reach flags s
    → ((i j : ℕ) → critical (s.pc i) ≡ true → critical (s.pc j) ≡ true → i ≡ j)
      × ((i : ℕ) → critical (s.pc i) ≡ true → (s.lock.locked ≡ true) × ((s.cpus i).fl_if ≡ false))
      × (s.lock.locked ≡ true → (i : ℕ) × (critical (s.pc i) ≡ true))
mutual_exclusion r =
    let inv = Reach-Inv r in
    (inv.unique, λ i h. (inv.held i h, ground (arith, inv.local i)), inv.owned)

-- Neither `acquire` nor `release` panics in a reachable state: `holding` is false for a CPU that
-- starts `acquire` and true for the one that starts `release`, however the CPUs interleave.
pub never_panics : {flags : ℕ → Bool} {s : System} → Reach flags s → (i : ℕ) → s.pc i ≢ panicked
never_panics r = (Reach-Inv r).calm
