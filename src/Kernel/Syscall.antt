-- ===== src/Kernel/Syscall.antt =====
-- syscall.c: the functions that fetch the arguments of a system call from the caller's memory.
-- `mem` is the caller's memory by bytes, `sz` the size of it, `esp` the caller's stack pointer. An
-- `int` is the 32-bit word that holds it. `none` is -1.
pub mod Bounds
mod Tests
use os_ass.Base.{
  ℕ, zero, suc, ◌+◌, ◌-◌, ◌*◌, ◌||◌, Option, none, some, ltb, leb, ◌==◌, if◌then◌else◌, add32,
}

-- The word at an address, the least byte first.
abbrev pub word_at : (ℕ → ℕ) → ℕ → ℕ
word_at mem a = mem a + 256 * mem (a + 1) + 65536 * mem (a + 2) + 16777216 * mem (a + 3)

unfoldable pub fetchint : (mem : ℕ → ℕ) → (sz addr : ℕ) → Option ℕ
fetchint mem sz addr =
    if leb sz addr || ltb sz (add32 addr 4) then none else some (word_at mem addr)

-- The loop of `fetchstr`: `len` bytes are not 0, `rounds` are left before `ep`.
unfoldable pub str_loop : (mem : ℕ → ℕ) → (s rounds len : ℕ) → Option ℕ
str_loop mem s zero len = none
str_loop mem s (suc rounds) len =
    let later = str_loop mem (s + 1) rounds (len + 1) in if mem s == 0 then some len else later

-- The length of the string at `addr`; the pointer that it sets is `addr`.
unfoldable pub fetchstr : (mem : ℕ → ℕ) → (sz addr : ℕ) → Option ℕ
fetchstr mem sz addr = if leb sz addr then none else str_loop mem addr (sz - addr) 0

unfoldable pub argint : (mem : ℕ → ℕ) → (sz esp n : ℕ) → Option ℕ
argint mem sz esp n = fetchint mem sz (add32 (add32 esp 4) (4 * n))

-- The test of `argptr` on the pointer that it fetched.
unfoldable pub check_block : (sz i size : ℕ) → Option ℕ
check_block sz i size = if leb sz i || ltb sz (add32 i size) then none else some i

unfoldable pub argptr : (mem : ℕ → ℕ) → (sz esp n size : ℕ) → Option ℕ
argptr mem sz esp n size = elim (argint mem sz esp n) [
  | none ↦ none
  | some i ↦ check_block sz i size
]

-- The pointer and the length of the string.
unfoldable pub argstr : (mem : ℕ → ℕ) → (sz esp n : ℕ) → Option (ℕ × ℕ)
argstr mem sz esp n = elim (argint mem sz esp n) [
  | none ↦ none
  | some addr ↦ elim (fetchstr mem sz addr) [ none ↦ none | some len ↦ some (addr, len) ]
]
