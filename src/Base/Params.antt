-- ===== src/Base/Params.antt =====
-- The constants of param.h, fs.h, mmu.h and memlayout.h that several components use.
use Prim.Native.Nat.{ℕ, ◌*◌, ◌/◌}
use os_ass.Base.Words.{add32, sub32}

-- param.h
abbrev pub nproc : ℕ
nproc = 64

abbrev pub nofile : ℕ
nofile = 16

abbrev pub maxopblocks : ℕ
maxopblocks = 10

abbrev pub logsize : ℕ
logsize = maxopblocks * 3

-- fs.h
abbrev pub bsize : ℕ
bsize = 512

-- mmu.h
abbrev pub pgsize : ℕ
pgsize = 4096

-- memlayout.h
abbrev pub phystop : ℕ
phystop = 0xE000000

abbrev pub kernbase : ℕ
kernbase = 0x80000000

abbrev pub v2p : ℕ → ℕ
v2p a = sub32 a kernbase

abbrev pub p2v : ℕ → ℕ
p2v a = add32 a kernbase

-- `& ~(PGSIZE - 1)` clears the low twelve bits.
abbrev pub pgrounddown : ℕ → ℕ
pgrounddown a = a / pgsize * pgsize

abbrev pub pgroundup : ℕ → ℕ
pgroundup a = pgrounddown (add32 a 4095)
