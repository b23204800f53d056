-- ===== src/Kernel/Spinlock/Interrupts.antt =====
-- `pushcli` and `popcli` are matched.
use os_ass.Base.{ℕ, zero, suc, ◌+◌, ◌<◌, ◌≡◌, refl, false, ◌==◌, if◌then◌else◌, arith}
use os_ass.Base.Outcome.{Outcome, ok, ◌>>=◌}
use os_ass.Kernel.Spinlock.{Cpu, pushcli, popcli}

-- `n` calls in a row.
pub pushes : ℕ → Cpu → Cpu
pushes zero c = c
pushes (suc n) c = pushcli (pushes n c)

pub pops : ℕ → Cpu → Outcome Cpu
pops zero c = ok c
pops (suc n) c = popcli c >>= pops n

-- Interrupts are off inside a nest.
abbrev pub IsMasked : Cpu → Type 0
IsMasked c = 0 < c.ncli → c.fl_if ≡ false

pushes-IsMasked : (n : ℕ) (c : Cpu) → IsMasked c → IsMasked (pushes n c)
unfolding pushes pushcli
pushes-IsMasked zero c m = m
pushes-IsMasked (suc n) c m = λ h. refl

popcli-pushcli :
    (c : Cpu)
    → IsMasked c
    → popcli (pushcli c) ≡ ok (record c { intena = if c.ncli == 0 then c.fl_if else c.intena })
unfolding popcli pushcli
popcli-pushcli c m = ground arith

ncli-pushes : (n : ℕ) (c : Cpu) → (pushes n c).ncli ≡ c.ncli + n
unfolding pushes pushcli
ncli-pushes zero c = omega arith
ncli-pushes (suc n) c = omega (arith, ncli-pushes n c)

-- In a nest `popcli` takes back the last `pushcli` and nothing else.
pops-pushes-suc :
    (n : ℕ) (c : Cpu)
    → IsMasked c
    → pops (suc n) (pushes (suc n) c)
      ≡ ok (record c { intena = if c.ncli == 0 then c.fl_if else c.intena })
unfolding pops pushes
pops-pushes-suc zero c m = rw (popcli-pushcli c m)
pops-pushes-suc (suc n) c m =
    rw (popcli-pushcli (pushes (suc n) c) (pushes-IsMasked (suc n) c m))
      (rw (same (pushes (suc n) c) (ncli-pushes (suc n) c)) (pops-pushes-suc n c m))
  where
    same :
        (d : Cpu)
        → d.ncli ≡ c.ncli + suc n
        → record d { intena = if d.ncli == 0 then d.fl_if else d.intena } ≡ d
    same d e = ground arith

-- Any positive number of `pushcli` turns interrupts off, and as many `popcli` do not panic and
-- leave the CPU with the nesting depth and the interrupt flag that it had before.
pub pops-pushes :
    (n : ℕ) (c : Cpu)
    → IsMasked c
    → ((pushes (suc n) c).fl_if ≡ false)
      × ((d : Cpu) × (pops (suc n) (pushes (suc n) c) ≡ ok d)
          × (d.ncli ≡ c.ncli)
          × (d.fl_if ≡ c.fl_if))
unfolding pushes pushcli
pops-pushes n c m = (refl, (_, pops-pushes-suc n c m, refl, refl))
