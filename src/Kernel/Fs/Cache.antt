-- ===== src/Kernel/Fs/Cache.antt =====
-- fs.c: the inode cache. A pointer to an inode is the number of its slot; a null pointer is `none`.
-- Callers own the references that they drop, so a count is at least 1 when it goes down.
pub mod Get
pub mod Load
pub mod Total
use os_ass.Base.{
  ℕ, zero, suc, ◌+◌, ◌*◌, ◌/◌, ◌%◌, ◌-◌, Bool, true, false, not, ◌&&◌, ◌||◌, Option, none, some,
  ◌==◌, ltb, if◌then◌else◌, update,
}
use os_ass.Base.Outcome.{Outcome, ok, panic, hang, blocked, ◌>>=◌}
use os_ass.Kernel.Fs.{Disk, readsb, iblock, ipb}
use os_ass.Kernel.Fs.Inode.{Inode, half_at, load_dinode, iupdate}
use os_ass.Kernel.Fs.Content.{itrunc}

-- NINODE
abbrev pub ninode : ℕ
ninode = 50

-- `icache`, with the disk that it stands for.
pub record Store : Type 0 where
  pub slots : ℕ → Inode
  pub disk : Disk

abbrev pub set_slot : Store → ℕ → Inode → Store
set_slot s i ip = record s { slots = update s.slots i ip }

-- How the loop of `iget` ends: at the cached inode, or with the empty slot it remembers.
pub data Found : Type 0 where
  cached : ℕ → Found
  missing : Option ℕ → Found

-- `ip->ref > 0 && ip->dev == dev && ip->inum == inum`
abbrev pub is_inode : (dev inum : ℕ) → Inode → Bool
is_inode dev inum ip = ltb 0 ip.ref && ip.dev == dev && ip.inum == inum

abbrev pub remember : Option ℕ → ℕ → Inode → Option ℕ
remember none i ip = if ip.ref == 0 then some i else none
remember (some e) i ip = some e

unfoldable pub iget_loop : (ℕ → Inode) → (dev inum : ℕ) → (i rounds : ℕ) → Option ℕ → Found
iget_loop slots dev inum i zero empty = missing empty
iget_loop slots dev inum i (suc rounds) empty =
    let later = iget_loop slots dev inum (suc i) rounds (remember empty i (slots i)) in
    if is_inode dev inum (slots i) then cached i else later

-- The rest of `iget`.
unfoldable pub take_slot : (dev inum : ℕ) → Store → Found → Outcome (ℕ × Store)
take_slot dev inum s (cached i) =
    ok (i, set_slot s i (record (s.slots i) { ref = (s.slots i).ref + 1 }))
take_slot dev inum s (missing none) = panic "iget: no inodes"
take_slot dev inum s (missing (some i)) = ok (
  i,
  set_slot s i
      (record (s.slots i) { dev = dev; inum = inum; ref = 1; busy = false; valid = false }),
)

unfoldable pub iget : (dev inum : ℕ) → Store → Outcome (ℕ × Store)
iget dev inum s = take_slot dev inum s (iget_loop s.slots dev inum 0 ninode none)

unfoldable pub idup : ℕ → Store → Store
idup i s = set_slot s i (record (s.slots i) { ref = (s.slots i).ref + 1 })

-- The `dinode` of a free inode that gets a type: zeros but for the type, a `short`.
unfoldable pub clear_dinode : (bytes : ℕ → ℕ) → (at type : ℕ) → ℕ → ℕ
clear_dinode bytes at type j =
    if j == at
    then type % 256
    else if j == at + 1
    then type / 256 % 256
    else if ltb at j && ltb j (at + 64)
    then 0
    else bytes j

-- The loop of `ialloc`.
unfoldable pub ialloc_loop : (dev type : ℕ) → (inum rounds : ℕ) → Store → Outcome (ℕ × Store)
ialloc_loop dev type inum zero s = hang
ialloc_loop dev type inum (suc rounds) s =
    let bno = iblock inum in
    let at = 64 * (inum % ipb) in
    let later = ialloc_loop dev type (suc inum) rounds s in
    if ltb inum (readsb s.disk).ninodes
    then if half_at (s.disk bno) at == 0
      then iget dev inum (record s { disk = update s.disk bno (clear_dinode (s.disk bno) at type) })
      else later
    else panic "ialloc: no inodes"

unfoldable pub ialloc : (dev type : ℕ) → Store → Outcome (ℕ × Store)
ialloc dev type s = ialloc_loop dev type 1 ((readsb s.disk).ninodes + 1) s

-- The part of `ilock` that reads an inode which is not valid, when it is locked.
unfoldable pub read_inode : ℕ → Store → Outcome Store
read_inode i s =
    let ip = s.slots i in
    let ip1 = record (load_dinode (s.disk (iblock ip.inum)) (64 * (ip.inum % ipb)) ip) {
      valid = true;
    } in
    if ip.valid
    then ok s
    else if ip1.type == 0
    then panic "ilock: no type"
    else ok (set_slot s i ip1)

-- A locked inode makes `ilock` wait.
unfoldable pub ilock : Option ℕ → Store → Outcome Store
ilock none s = panic "ilock"
ilock (some i) s =
    let ip = s.slots i in
    if ltb ip.ref 1
    then panic "ilock"
    else if ip.busy
    then blocked
    else read_inode i (set_slot s i (record ip { busy = true }))

unfoldable pub iunlock : Option ℕ → Store → Outcome Store
iunlock none s = panic "iunlock"
iunlock (some i) s =
    let ip = s.slots i in
    if not ip.busy || ltb ip.ref 1
    then panic "iunlock"
    else ok (set_slot s i (record ip { busy = false }))

-- The last reference to an inode without links: its content and the inode are freed.
unfoldable pub free_inode : ℕ → Store → Outcome Store
free_inode i s = do
  (ip1, d1) ← itrunc (record (s.slots i) { busy = true }) s.disk
  let ip2 = record ip1 { type = 0 }
  ok (record {
    slots = update s.slots i (record ip2 { busy = false; valid = false });
    disk = iupdate ip2 d1;
  })

abbrev pub drop_ref : ℕ → Store → Store
drop_ref i s = set_slot s i (record (s.slots i) { ref = (s.slots i).ref - 1 })

unfoldable pub iput : ℕ → Store → Outcome Store
iput i s =
    let ip = s.slots i in
    if ip.ref == 1 && ip.valid && ip.nlink == 0
    then if ip.busy then panic "iput busy" else (do s1 ← free_inode i s; ok (drop_ref i s1))
    else ok (drop_ref i s)

unfoldable pub iunlockput : ℕ → Store → Outcome Store
iunlockput i s = do s1 ← iunlock (some i) s; iput i s1

-- `struct stat`
pub record Stat : Type 0 where
  pub dev : ℕ
  pub ino : ℕ
  pub type : ℕ
  pub nlink : ℕ
  pub size : ℕ

unfoldable pub stati : Inode → Stat
stati ip = record { dev = ip.dev; ino = ip.inum; type = ip.type; nlink = ip.nlink; size = ip.size }
