-- ===== src/Kernel/File/Tests.antt =====
-- A process whose descriptor 0 is a pipe's end that another process holds too, on a memory of zeros,
-- from which every argument is 0.
use os_ass.Base.{
  ℕ, ◌≡◌, refl, true, false, Option, none, some, ◌==◌, if◌then◌else◌, update, Bool-cases, inl, inr,
  [],
}
use os_ass.Base.Outcome.{ok}
use os_ass.Kernel.Syscall.{fetchint, argint}
use os_ass.Kernel.Pipe.{fresh}
use os_ass.Kernel.Fs.Inode.{Inode}
use os_ass.Kernel.File.{fd_none, fd_pipe, File, Open, filedup}
use os_ass.Kernel.File.Calls.{open_at, argfd, fdalloc_loop, fdalloc, dup_at, sys_dup, sys_close}
use os_ass.Kernel.File.Counts.{IsCounted}
use os_ass.Kernel.File.Balance.{Dups, Closes, sys_dup_lem, sys_close_lem}

abbrev unused : Inode
unused = record {
  dev = 0;
  inum = 0;
  ref = 0;
  busy = false;
  valid = false;
  type = 0;
  major = 0;
  minor = 0;
  nlink = 0;
  size = 0;
  addrs = λ n. 0;
}

abbrev shared_end : File
shared_end = record {
  type = fd_pipe;
  ref = 2;
  readable = true;
  writable = false;
  pipe = 0;
  ip = 0;
  off = 0;
}

abbrev system : Open
system = record {
  files = λ f. if f == 3 then shared_end else record shared_end { type = fd_none; ref = 0 };
  pipes = λ p. fresh [];
  store = record { slots = λ i. unused; disk = λ b j. 0 };
}

abbrev ofile : ℕ → Option ℕ
ofile fd = if fd == 0 then some 3 else none

abbrev parent : ℕ → ℕ
parent f = if f == 3 then 1 else 0

abbrev memory : ℕ → ℕ
memory a = 0

system-IsCounted : IsCounted parent ofile system
system-IsCounted = record {
  counts = λ f. elim (Bool-cases (f == 3)) [ inl e ↦ rw e refl | inr e ↦ rw e refl ];
}

-- The copy is descriptor 1.
duplicated :
    sys_dup memory 4096 0 (ofile, system)
    ≡ ok (
      some 1,
      update ofile 1 (some 3),
      record system { files = update system.files 3 (record shared_end { ref = 3 }) },
    )
unfolding sys_dup argfd argint fetchint open_at fdalloc fdalloc_loop dup_at filedup
duplicated = refl

sys_dup_lem_example :
    Dups parent ofile system (argfd memory 4096 0 0 ofile) (sys_dup memory 4096 0 (ofile, system))
sys_dup_lem_example = sys_dup_lem parent ofile system system-IsCounted memory 4096 0

sys_close_lem_example :
    Closes parent ofile system
      (argfd memory 4096 0 0 ofile)
      (sys_close memory 4096 0 (ofile, system))
sys_close_lem_example = sys_close_lem parent ofile system system-IsCounted memory 4096 0
