-- ===== src/Kernel/File/Calls.antt =====
-- sysfile.c: the calls on descriptors. `ofile` are the process's files; the arguments are fetched from
-- its memory `mem` of `sz` bytes, above its stack pointer `esp`.
use os_ass.Base.{
  ℕ, zero, suc, Bool, true, false, Option, none, some, leb, if◌then◌else◌, update, nofile,
}
use os_ass.Base.Outcome.{Outcome, ok, ◌>>=◌}
use os_ass.Kernel.Syscall.{argint, argptr}
use os_ass.Kernel.Fs.Cache.{Stat}
use os_ass.Kernel.File.{Open, filedup, fileclose, filestat}

-- The descriptor and its file. A negative descriptor is a word from 2^31 on.
unfoldable pub open_at : (ofile : ℕ → Option ℕ) → (fd : ℕ) → Option (ℕ × ℕ)
open_at ofile fd =
    if leb nofile fd then none else elim (ofile fd) [ none ↦ none | some f ↦ some (fd, f) ]

unfoldable pub argfd : (mem : ℕ → ℕ) → (sz esp n : ℕ) → (ofile : ℕ → Option ℕ) → Option (ℕ × ℕ)
argfd mem sz esp n ofile = elim (argint mem sz esp n) [ none ↦ none | some fd ↦ open_at ofile fd ]

-- The loop of `fdalloc`.
unfoldable pub fdalloc_loop : (ofile : ℕ → Option ℕ) → (fd rounds : ℕ) → Option ℕ
fdalloc_loop ofile fd zero = none
fdalloc_loop ofile fd (suc rounds) =
    let later = fdalloc_loop ofile (suc fd) rounds in
    elim (ofile fd) [ none ↦ some fd | some f ↦ later ]

-- `fdalloc`: the descriptor, or none for -1, with the files of the process.
unfoldable pub fdalloc : (ofile : ℕ → Option ℕ) → (f : ℕ) → Option ℕ × (ℕ → Option ℕ)
fdalloc ofile f = elim (fdalloc_loop ofile 0 nofile) [
  | none ↦ (none, ofile)
  | some fd ↦ (some fd, update ofile fd (some f))
]

-- The files of the process with the rest of the system.
abbrev pub Process : Type 0
Process = (ℕ → Option ℕ) × Open

-- The rest of `sys_dup` for a file, on what `fdalloc` gave.
unfoldable pub dup_at :
    (f : ℕ) → Option ℕ × (ℕ → Option ℕ) → Open → Outcome (Option ℕ × (ℕ → Option ℕ) × Open)
dup_at f (none, ofile) s = ok (none, ofile, s)
dup_at f (some fd, ofile) s = do s1 ← filedup f s; ok (some fd, ofile, s1)

unfoldable pub sys_dup :
    (mem : ℕ → ℕ) → (sz esp : ℕ) → Process → Outcome (Option ℕ × (ℕ → Option ℕ) × Open)
sys_dup mem sz esp (ofile, s) = elim (argfd mem sz esp 0 ofile) [
  | none ↦ ok (none, ofile, s)
  | some (fd, f) ↦ dup_at f (fdalloc ofile f) s
]

-- `sys_close`: whether it returns 0.
unfoldable pub sys_close :
    (mem : ℕ → ℕ) → (sz esp : ℕ) → Process → Outcome (Bool × (ℕ → Option ℕ) × Open)
sys_close mem sz esp (ofile, s) = elim (argfd mem sz esp 0 ofile) [
  | none ↦ ok (false, ofile, s)
  | some (fd, f) ↦ (do s1 ← fileclose f s; ok (true, update ofile fd none, s1))
]

-- `sys_fstat` with the address to which it writes what it returns.
unfoldable pub sys_fstat :
    (mem : ℕ → ℕ) → (sz esp : ℕ) → Process → Outcome (Option (ℕ × Stat) × Open)
sys_fstat mem sz esp (ofile, s) = elim (argfd mem sz esp 0 ofile) [
  | none ↦ ok (none, s)
  | some (fd, f) ↦ elim (argptr mem sz esp 1 20) [
    | none ↦ ok (none, s)
    | some st ↦ (do
      (r, s1) ← filestat f s
      ok (elim r [ none ↦ none | some stat ↦ some (st, stat) ], s1))
  ]
]
