-- ===== src/Kernel/Fs/Inode.antt =====
-- fs.c: inodes on the disk and in the cache. A `short` is its 16 bits. An inode number and its
-- reference count are kept in the cache only.
use os_ass.Base.{ℕ, zero, suc, ◌+◌, ◌*◌, ◌/◌, ◌%◌, ◌-◌, Bool, ◌&&◌, ltb, leb, if◌then◌else◌, update}
use os_ass.Kernel.Syscall.{word_at}
use os_ass.Kernel.Fs.{Disk, iblock, ipb}

abbrev pub ndirect : ℕ
ndirect = 12

abbrev pub nindirect : ℕ
nindirect = 128

abbrev pub t_dir : ℕ
t_dir = 1

abbrev pub t_dev : ℕ
t_dev = 3

-- `struct inode`; the flags are I_BUSY and I_VALID.
pub record Inode : Type 0 where
  pub dev : ℕ
  pub inum : ℕ
  pub ref : ℕ
  pub busy : Bool
  pub valid : Bool
  pub type : ℕ
  pub major : ℕ
  pub minor : ℕ
  pub nlink : ℕ
  pub size : ℕ
  pub addrs : ℕ → ℕ

-- Byte `i` of a number, the least first.
abbrev pub byte_of : ℕ → ℕ → ℕ
byte_of v zero = v % 256
byte_of v (suc i) = byte_of (v / 256) i

-- A word stored at an address.
unfoldable pub put_word : (ℕ → ℕ) → (at v : ℕ) → ℕ → ℕ
put_word mem at v j = if leb at j && ltb j (at + 4) then byte_of v (j - at) else mem j

abbrev pub half_at : (ℕ → ℕ) → ℕ → ℕ
half_at mem a = mem a + 256 * mem (a + 1)

-- `struct dinode`, 64 bytes: byte `j` of it.
unfoldable pub dinode_byte : Inode → ℕ → ℕ
dinode_byte ip j =
    if ltb j 2
    then byte_of ip.type j
    else if ltb j 4
    then byte_of ip.major (j - 2)
    else if ltb j 6
    then byte_of ip.minor (j - 4)
    else if ltb j 8
    then byte_of ip.nlink (j - 6)
    else if ltb j 12
    then byte_of ip.size (j - 8)
    else byte_of (ip.addrs ((j - 12) / 4)) ((j - 12) % 4)

-- The fields of the `dinode` that is at the byte `at` of a block.
unfoldable pub load_dinode : (ℕ → ℕ) → ℕ → Inode → Inode
load_dinode bytes at ip = record ip {
  type = half_at bytes at;
  major = half_at bytes (at + 2);
  minor = half_at bytes (at + 4);
  nlink = half_at bytes (at + 6);
  size = word_at bytes (at + 8);
  addrs = λ n. word_at bytes (at + 12 + 4 * n);
}

unfoldable pub store_dinode : (ℕ → ℕ) → ℕ → Inode → ℕ → ℕ
store_dinode bytes at ip j =
    if leb at j && ltb j (at + 64) then dinode_byte ip (j - at) else bytes j

unfoldable pub iupdate : Inode → Disk → Disk
iupdate ip d =
    let bno = iblock ip.inum in update d bno (store_dinode (d bno) (64 * (ip.inum % ipb)) ip)
