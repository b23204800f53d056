-- ===== src/Kernel/Spinlock.antt =====
-- spinlock.c: the nested disabling of interrupts, and the lock itself as seen by several CPUs.
-- `ncli` is an `int` that counts nested locks; its overflow at 2^31 is left out.
pub mod Interrupts
pub mod System
pub mod Exclusion
mod Tests
use os_ass.Base.{ℕ, ◌+◌, ◌-◌, Bool, true, false, ◌&&◌, Option, none, some, ◌==◌, if◌then◌else◌}
use os_ass.Base.Outcome.{Outcome, ok, panic}

-- The fields of `struct cpu` that locks use, and the interrupt flag FL_IF of its eflags register.
pub record Cpu : Type 0 where
  pub ncli : ℕ
  pub intena : Bool
  pub fl_if : Bool

pub pushcli : Cpu → Cpu
pushcli c = record {
  ncli = c.ncli + 1;
  intena = if c.ncli == 0 then c.fl_if else c.intena;
  fl_if = false;
}

pub popcli : Cpu → Outcome Cpu
popcli c =
    if c.fl_if
    then panic "popcli - interruptible"
    else if c.ncli == 0
    then panic "popcli"
    else ok (record c {
      ncli = c.ncli - 1;
      fl_if = if c.ncli - 1 == 0 && c.intena then true else c.fl_if;
    })

-- `struct spinlock`: `locked`, and the CPU that holds it (`none` is the null pointer).
pub record Lock : Type 0 where
  pub locked : Bool
  pub cpu : Option ℕ

abbrev pub initlock : Lock
initlock = record { locked = false; cpu = none }

abbrev pub is_cpu : Option ℕ → ℕ → Bool
is_cpu none i = false
is_cpu (some j) i = j == i

pub holding : Lock → ℕ → Bool
holding l i = l.locked && is_cpu l.cpu i
