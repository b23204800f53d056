-- ===== src/Kernel/Spinlock/System.antt =====
-- Several CPUs that use one lock, interleaved one access to shared memory at a time. The
-- interrupt flag keeps each CPU's own code from being interrupted inside a nest.
use os_ass.Base.{ℕ, ◌≡◌, Bool, true, false, none, some, update}
use Prim.Native.String.{String}
use os_ass.Base.Outcome.{ok, panic}
use os_ass.Kernel.Spinlock.{Cpu, pushcli, popcli, Lock, initlock, is_cpu, holding}

-- Where a CPU stands in `acquire` and `release`.
pub data Pc : Type 0 where
  outside : Pc
  checking : Pc  -- in `holding`, having read `locked` as true
  spinning : Pc  -- at the `xchg` of `acquire`
  taken : Pc  -- the lock is won, `lk->cpu` not yet written
  inside : Pc  -- `acquire` has returned
  leaving : Pc  -- in `release`, before the `xchg`
  panicked : Pc

-- One step of CPU `i`, with its own registers and the lock before and after.
pub data Move (i : ℕ) (l : Lock) (c : Cpu) : Pc → Lock → Cpu → Pc → Type 0 where
  see_free : l.locked ≡ false → Move i l c outside l (pushcli c) spinning
  see_busy : l.locked ≡ true → Move i l c outside l (pushcli c) checking
  not_mine : is_cpu l.cpu i ≡ false → Move i l c checking l c spinning
  mine : is_cpu l.cpu i ≡ true → Move i l c checking l c panicked
  spin : l.locked ≡ true → Move i l c spinning (record l { locked = true }) c spinning
  win : l.locked ≡ false → Move i l c spinning (record l { locked = true }) c taken
  note_owner : Move i l c taken (record l { cpu = some i }) c inside
  drop_owner : holding l i ≡ true → Move i l c inside (record l { cpu = none }) c leaving
  not_holding : holding l i ≡ false → Move i l c inside l c panicked
  free : {c' : Cpu} → popcli c ≡ ok c' → Move i l c leaving (record l { locked = false }) c' outside
  bad_pop :
      (e : String)
      → popcli c ≡ panic e
      → Move i l c leaving (record l { locked = false }) c panicked

pub record System : Type 0 where
  pub lock : Lock
  pub cpus : ℕ → Cpu
  pub pc : ℕ → Pc

pub data Step (s : System) : System → Type 0 where
  pick :
      (i : ℕ) {l : Lock} {c : Cpu} {p : Pc}
      → Move i s.lock (s.cpus i) (s.pc i) l c p
      → Step s (record { lock = l; cpus = update s.cpus i c; pc = update s.pc i p })

-- After `initlock`, with every CPU outside and no lock nested.
abbrev pub boot : (ℕ → Bool) → System
boot flags = record {
  lock = initlock;
  cpus = λ i. record { ncli = 0; intena = false; fl_if = flags i };
  pc = λ i. outside;
}

pub data Reach (flags : ℕ → Bool) : System → Type 0 where
  start : Reach flags (boot flags)
  later : {s t : System} → Reach flags s → Step s t → Reach flags t
