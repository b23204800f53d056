-- ===== src/Kernel/Fs.antt =====
-- fs.c: blocks, inodes, files, directories and path names on one disk. A disk is the bytes of its
-- blocks as the transactions see them: `bread` gives what the last `log_write` of the block left, on
-- which Kernel/Log stands.
pub mod Bitmap
pub mod Alloc
pub mod Inode
pub mod Content
pub mod Cache
pub mod Dir
pub mod Path
mod Tests
use os_ass.Base.{
  ℕ, zero, suc, ◌+◌, ◌*◌, ◌/◌, ◌%◌, Bool, true, false, not, Option, none, some, ◌==◌, ltb,
  if◌then◌else◌, update,
}
use os_ass.Base.Outcome.{Outcome, ok, panic, hang, ◌>>=◌}
use os_ass.Kernel.Syscall.{word_at}

abbrev pub Disk : Type 0
Disk = ℕ → ℕ → ℕ

-- `struct superblock`
pub record Superblock : Type 0 where
  pub size : ℕ
  pub nblocks : ℕ
  pub ninodes : ℕ
  pub nlog : ℕ

unfoldable pub superblock_of : (ℕ → ℕ) → Superblock
superblock_of bytes = record {
  size = word_at bytes 0;
  nblocks = word_at bytes 4;
  ninodes = word_at bytes 8;
  nlog = word_at bytes 12;
}

unfoldable pub readsb : Disk → Superblock
readsb d = superblock_of (d 1)

-- BPB and IPB: the bits and the inodes of a block.
abbrev pub bpb : ℕ
bpb = 4096

abbrev pub ipb : ℕ
ipb = 8

-- `BBLOCK(b, ninodes)`
abbrev pub bblock : (b ninodes : ℕ) → ℕ
bblock b ninodes = b / bpb + ninodes / ipb + 3

-- `IBLOCK(i)`
abbrev pub iblock : ℕ → ℕ
iblock i = i / ipb + 2

unfoldable pub bzero : Disk → ℕ → Disk
bzero d bno = update d bno (λ j. 0)

-- The binary digit `k` of a byte, which `& (1 << k)` tests.
unfoldable pub digit : ℕ → ℕ → Bool
digit x zero = x % 2 == 1
digit x (suc k) = digit (x / 2) k

-- The byte with that digit 1, `| (1 << k)`, or 0, `& ~(1 << k)`.
unfoldable pub set_digit : Bool → ℕ → ℕ → ℕ
set_digit v x zero = 2 * (x / 2) + (if v then 1 else 0)
set_digit v x (suc k) = 2 * set_digit v (x / 2) k + x % 2

-- `bp->data[bi/8] & m`
abbrev pub test_bit : (ℕ → ℕ) → ℕ → Bool
test_bit bytes bi = digit (bytes (bi / 8)) (bi % 8)

-- `bp->data[bi/8] |= m` and `bp->data[bi/8] &= ~m`
abbrev pub set_bit : Bool → (ℕ → ℕ) → ℕ → ℕ → ℕ
set_bit v bytes bi = update bytes (bi / 8) (set_digit v (bytes (bi / 8)) (bi % 8))

-- The inner loop of `balloc` over the bits of one block, `rounds` of them to come: the first free one.
unfoldable pub bit_loop : (bytes : ℕ → ℕ) → (size b bi rounds : ℕ) → Option ℕ
bit_loop bytes size b bi zero = none
bit_loop bytes size b bi (suc rounds) =
    let later = bit_loop bytes size b (suc bi) rounds in
    if ltb (b + bi) size then if test_bit bytes bi then later else some bi else none

-- The outer loop over the blocks of the bitmap.
unfoldable pub block_loop : (rounds b : ℕ) → Disk → Outcome (ℕ × Disk)
block_loop zero b d = hang
block_loop (suc rounds) b d =
    let sb = readsb d in
    let bno = bblock b sb.ninodes in
    let later = block_loop rounds (b + bpb) d in
    if ltb b sb.size
    then elim (bit_loop (d bno) sb.size b 0 bpb) [
      | some bi ↦ ok (b + bi, bzero (update d bno (set_bit true (d bno) bi)) (b + bi))
      | none ↦ later
    ]
    else panic "balloc: out of blocks"

-- The size of the disk bounds the rounds.
unfoldable pub balloc : Disk → Outcome (ℕ × Disk)
balloc d = block_loop (suc ((readsb d).size / bpb + 1)) 0 d

unfoldable pub bfree : Disk → ℕ → Outcome Disk
bfree d b =
    let bno = bblock b (readsb d).ninodes in
    if test_bit (d bno) (b % bpb)
    then ok (update d bno (set_bit false (d bno) (b % bpb)))
    else panic "freeing free block"
