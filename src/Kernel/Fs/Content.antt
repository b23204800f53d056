-- ===== src/Kernel/Fs/Content.antt =====
-- fs.c: the blocks of an inode, and reading and writing its bytes. `ip` is locked; it is passed along
-- with the disk.
pub mod Mapped
pub mod Reading
pub mod Writing
pub mod RoundTrip
use os_ass.Base.{
  ℕ, zero, suc, ◌+◌, ◌*◌, ◌/◌, ◌%◌, ◌-◌, Bool, true, false, not, ◌&&◌, ◌||◌, List, [], ◌∷◌, ◌++◌,
  length, take, drop, Option, none, some, ◌==◌, ltb, leb, min, if◌then◌else◌, update, bsize, add32,
}
use os_ass.Base.Outcome.{Outcome, ok, panic, hang, ◌>>=◌}
use os_ass.Kernel.Syscall.{word_at}
use os_ass.Kernel.Fs.{Disk, balloc, bfree}
use os_ass.Kernel.Fs.Inode.{Inode, iupdate, ndirect, nindirect, t_dev, put_word}

-- `a[bn] = addr; log_write(bp)` in the indirect block `ind`
abbrev pub set_indirect : Disk → (ind bn addr : ℕ) → Disk
set_indirect d ind bn addr = update d ind (put_word (d ind) (4 * bn) addr)

-- The direct case of `bmap`.
unfoldable pub bmap_direct : Disk → Inode → ℕ → Outcome (ℕ × Inode × Disk)
bmap_direct d ip bn =
    if ip.addrs bn == 0
    then (do (addr, d1) ← balloc d; ok (addr, record ip { addrs = update ip.addrs bn addr }, d1))
    else ok (ip.addrs bn, ip, d)

-- The entry `bn` of the indirect block `ind`.
unfoldable pub bmap_entry : Disk → Inode → (ind bn : ℕ) → Outcome (ℕ × Inode × Disk)
bmap_entry d ip ind bn =
    if word_at (d ind) (4 * bn) == 0
    then (do (addr, d1) ← balloc d; ok (addr, ip, set_indirect d1 ind bn addr))
    else ok (word_at (d ind) (4 * bn), ip, d)

unfoldable pub bmap : Disk → Inode → ℕ → Outcome (ℕ × Inode × Disk)
bmap d ip bn =
    if ltb bn ndirect
    then bmap_direct d ip bn
    else if ltb (bn - ndirect) nindirect
    then (do (ind, ip1, d1) ← bmap_direct d ip ndirect; bmap_entry d1 ip1 ind (bn - ndirect))
    else panic "bmap: out of range"

-- The first loop of `itrunc`.
unfoldable pub trunc_direct : (i rounds : ℕ) → Inode → Disk → Outcome (Inode × Disk)
trunc_direct i zero ip d = ok (ip, d)
trunc_direct i (suc rounds) ip d =
    let next = trunc_direct (suc i) rounds ip d in
    if ip.addrs i == 0 then next else (do
      d1 ← bfree d (ip.addrs i)
      trunc_direct (suc i) rounds (record ip { addrs = update ip.addrs i 0 }) d1)

-- The loop over the entries `a` of the indirect block, which `bread` read before it.
unfoldable pub trunc_entries : (a : ℕ → ℕ) → (j rounds : ℕ) → Disk → Outcome Disk
trunc_entries a j zero d = ok d
trunc_entries a j (suc rounds) d =
    let next = trunc_entries a (suc j) rounds d in
    if word_at a (4 * j) == 0
    then next
    else (do d1 ← bfree d (word_at a (4 * j)); trunc_entries a (suc j) rounds d1)

unfoldable pub trunc_indirect : Inode → Disk → Outcome (Inode × Disk)
trunc_indirect ip d = if ip.addrs ndirect == 0 then ok (ip, d) else (do
  d1 ← trunc_entries (d (ip.addrs ndirect)) 0 nindirect d
  d2 ← bfree d1 (ip.addrs ndirect)
  ok (record ip { addrs = update ip.addrs ndirect 0 }, d2))

unfoldable pub itrunc : Inode → Disk → Outcome (Inode × Disk)
itrunc ip d = do
  (ip1, d1) ← trunc_direct 0 ndirect ip d
  (ip2, d2) ← trunc_indirect ip1 d1
  let ip3 = record ip2 { size = 0 }
  ok (ip3, iupdate ip3 d2)

-- `m` bytes of a block from `k` on.
unfoldable pub slice : (ℕ → ℕ) → (k m : ℕ) → List ℕ
slice b k zero = []
slice b k (suc m) = b k ∷ slice b (suc k) m

-- The block with these bytes from `k` on.
unfoldable pub splice : (ℕ → ℕ) → ℕ → List ℕ → ℕ → ℕ
splice b k [] = b
splice b k (x ∷ xs) = splice (update b k x) (suc k) xs

-- `min(n - tot, BSIZE - off%BSIZE)` for what is left
abbrev pub chunk : (off left : ℕ) → ℕ
chunk off left = min left (bsize - off % bsize)

-- The loop of `readi` with `left` bytes to come.
unfoldable pub read_loop : (rounds off left : ℕ) → Inode → Disk → Outcome (List ℕ × Inode × Disk)
read_loop zero off left ip d = if left == 0 then ok ([], ip, d) else hang
read_loop (suc rounds) off left ip d =
    let m = chunk off left in
    if left == 0 then ok ([], ip, d) else (do
      (addr, ip1, d1) ← bmap d ip (off / bsize)
      (bytes, ip2, d2) ← read_loop rounds (off + m) (left - m) ip1 d1
      ok (slice (d1 addr) (off % bsize) m ++ bytes, ip2, d2))

-- How `readi` and `writei` end: with their result, with -1, or in the device's function.
pub data End (Result : Type 0) : Type 0 where
  done : Result → End Result
  failed : End Result
  at_device : (major : ℕ) → End Result

-- `devsw[major].read` or `.write`: whether there is one, for a device of the table.
abbrev pub device : {Result : Type 0} → (ℕ → Bool) → Inode → End Result
device has ip = if ltb ip.major 10 && has ip.major then at_device ip.major else failed

-- `has` says which devices have a read function. `off` and `n` are words. Each round reads at least a
-- byte, so `n` rounds are enough.
unfoldable pub readi :
    (ℕ → Bool) → Inode → (off n : ℕ) → Disk → Outcome (End (List ℕ) × Inode × Disk)
readi has ip off n d =
    let n1 = if ltb ip.size (add32 off n) then ip.size - off else n in
    if ip.type == t_dev
    then ok (device has ip, ip, d)
    else if ltb ip.size off || ltb (add32 off n) off
    then ok (failed, ip, d)
    else (do (bytes, ip1, d1) ← read_loop n1 off n1 ip d; ok (done bytes, ip1, d1))

-- The loop of `writei` on the bytes to come, with the offset at its end.
unfoldable pub write_loop : (rounds off : ℕ) → List ℕ → Inode → Disk → Outcome (ℕ × Inode × Disk)
write_loop zero off xs ip d = if length xs == 0 then ok (off, ip, d) else hang
write_loop (suc rounds) off xs ip d =
    let m = chunk off (length xs) in
    if length xs == 0 then ok (off, ip, d) else (do
      (addr, ip1, d1) ← bmap d ip (off / bsize)
      write_loop rounds (off + m) (drop m xs) ip1
          (update d1 addr (splice (d1 addr) (off % bsize) (take m xs))))

-- The end of `writei`: a longer file gets its size.
unfoldable pub grow : (n off : ℕ) → Inode → Disk → Inode × Disk
grow n off ip d =
    let ip1 = record ip { size = off } in
    if ltb 0 n && ltb ip.size off then (ip1, iupdate ip1 d) else (ip, d)

-- `writei` of the bytes `xs` returns their number.
unfoldable pub writei :
    (ℕ → Bool) → Inode → (off : ℕ) → List ℕ → Disk → Outcome (End ℕ × Inode × Disk)
writei has ip off xs d =
    let n = length xs in
    if ip.type == t_dev
    then ok (device has ip, ip, d)
    else if ltb ip.size off
        || ltb (add32 off n) off
        || ltb ((ndirect + nindirect) * bsize) (add32 off n)
    then ok (failed, ip, d)
    else (do
      (off1, ip1, d1) ← write_loop n off xs ip d
      let r = grow n off1 ip1 d1
      ok (done n, r.0, r.1))
