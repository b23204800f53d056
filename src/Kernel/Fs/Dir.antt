-- ===== src/Kernel/Fs/Dir.antt =====
-- fs.c: directories. A name is the bytes at a pointer; an entry is 16 bytes, the number of the inode
-- and a name of at most 14. `has` says which devices there are, which no directory is.
pub mod Entry
pub mod Lookup
pub mod Total
pub mod Link
mod Tests
use os_ass.Base.{
  ℕ, zero, suc, ◌+◌, ◌*◌, ◌/◌, ◌%◌, ◌-◌, Bool, true, false, not, ◌&&◌, ◌||◌, List, [], ◌∷◌, ◌++◌,
  length, get_or, Option, none, some, ◌==◌, ltb, if◌then◌else◌, update,
}
use os_ass.Base.Outcome.{Outcome, ok, panic, hang, blocked, ◌>>=◌}
use os_ass.Kernel.Strings.{strncmp, is_zero, strncpy}
use os_ass.Kernel.Fs.{Disk}
use os_ass.Kernel.Fs.Inode.{Inode, t_dir}
use os_ass.Kernel.Fs.Content.{slice, End, done, failed, at_device, readi, writei}
use os_ass.Kernel.Fs.Cache.{Store, iget, iput}

abbrev pub dirsiz : ℕ
dirsiz = 14

-- `sizeof(struct dirent)`
abbrev pub dirent_size : ℕ
dirent_size = 16

abbrev pub dirent_inum : List ℕ → ℕ
dirent_inum de = get_or de 0 0 + 256 * get_or de 1 0

abbrev pub dirent_name : List ℕ → ℕ → ℕ
dirent_name de k = get_or de (2 + k) 0

-- Whether `namecmp` gives 0.
abbrev pub namecmp : (s t : ℕ → ℕ) → Bool
namecmp s t = is_zero (strncmp s t dirsiz)

-- The entry that was read, if it is whole.
unfoldable pub whole_dirent : End (List ℕ) × Inode × Disk → Outcome (List ℕ × Inode × Disk)
whole_dirent (done de, ip, d) =
    if length de == dirent_size then ok (de, ip, d) else panic "dirlink read"
whole_dirent (failed, ip, d) = panic "dirlink read"
whole_dirent (at_device major, ip, d) = panic "dirlink read"

-- The entry of `dp` at an offset.
unfoldable pub read_dirent : (ℕ → Bool) → (off : ℕ) → Inode → Disk → Outcome (List ℕ × Inode × Disk)
read_dirent has off dp d = do r ← readi has dp off dirent_size d; whole_dirent r

-- The loop of `dirlookup`: the inode's number in the entry of that name, and where the entry is.
unfoldable pub lookup_loop :
    (ℕ → Bool)
    → (name : ℕ → ℕ) → (off rounds : ℕ) → Inode
    → Disk
    → Outcome (Option (ℕ × ℕ) × Inode × Disk)
lookup_loop has name off zero dp d = if ltb off dp.size then hang else ok (none, dp, d)
lookup_loop has name off (suc rounds) dp d =
    if ltb off dp.size
    then (do
      (de, dp1, d1) ← read_dirent has off dp d
      if not (dirent_inum de == 0) && namecmp name (dirent_name de)
          then ok (some (dirent_inum de, off), dp1, d1)
          else lookup_loop has name (off + dirent_size) rounds dp1 d1)
    else ok (none, dp, d)

-- Every round takes an entry, so there are at most `size / 16 + 1`.
abbrev pub entries : Inode → ℕ
entries dp = dp.size / dirent_size + 1

-- `return iget(dp->dev, inum)`, with the offset, or 0.
unfoldable pub get_entry : (dev : ℕ) → Option (ℕ × ℕ) → Store → Outcome (Option (ℕ × ℕ) × Store)
get_entry dev none s = ok (none, s)
get_entry dev (some (inum, off)) s = do (i, s1) ← iget dev inum s; ok (some (i, off), s1)

-- `dirlookup` in the directory of slot `i`, which is locked.
unfoldable pub dirlookup :
    (ℕ → Bool) → (i : ℕ) → (name : ℕ → ℕ) → Store → Outcome (Option (ℕ × ℕ) × Store)
dirlookup has i name s =
    let dp = s.slots i in
    if dp.type == t_dir
    then (do
      (found, dp1, d1) ← lookup_loop has name 0 (entries dp) dp s.disk
      get_entry dp.dev found (record { slots = update s.slots i dp1; disk = d1 }))
    else panic "dirlookup not DIR"

-- The loop of `dirlink`: where the first empty entry is, or the end.
unfoldable pub empty_loop :
    (ℕ → Bool) → (off rounds : ℕ) → Inode → Disk → Outcome (ℕ × Inode × Disk)
empty_loop has off zero dp d = if ltb off dp.size then hang else ok (off, dp, d)
empty_loop has off (suc rounds) dp d =
    if ltb off dp.size
    then (do
      (de, dp1, d1) ← read_dirent has off dp d
      if dirent_inum de == 0
          then ok (off, dp1, d1)
          else empty_loop has (off + dirent_size) rounds dp1 d1)
    else ok (off, dp, d)

-- The entry that `dirlink` writes; `strncpy` fills the name, whatever the entry held.
unfoldable pub new_dirent : (name : ℕ → ℕ) → (inum : ℕ) → List ℕ
new_dirent name inum =
    (inum % 256) ∷ (inum / 256 % 256) ∷ slice (strncpy (λ k. 0) name dirsiz) 0 dirsiz

-- Whether all of it was written.
abbrev pub is_written : End ℕ → Bool
is_written (done n) = n == dirent_size
is_written failed = false
is_written (at_device major) = false

unfoldable pub add_entry :
    (ℕ → Bool) → (name : ℕ → ℕ) → (inum : ℕ) → Inode → Disk → Outcome (Inode × Disk)
add_entry has name inum dp d = do
  (off, dp1, d1) ← empty_loop has 0 (entries dp) dp d
  (r, dp2, d2) ← writei has dp1 off (new_dirent name inum) d1
  if is_written r then ok (dp2, d2) else panic "dirlink"

-- `dirlink`, given what `dirlookup` found: whether the entry is made.
unfoldable pub link_unless :
    (ℕ → Bool)
    → (i : ℕ) → (name : ℕ → ℕ) → (inum : ℕ) → Option (ℕ × ℕ)
    → Store
    → Outcome (Bool × Store)
link_unless has i name inum (some (j, off)) s = do s1 ← iput j s; ok (false, s1)
link_unless has i name inum none s = do
  (dp1, d1) ← add_entry has name inum (s.slots i) s.disk
  ok (true, record { slots = update s.slots i dp1; disk = d1 })

unfoldable pub dirlink :
    (ℕ → Bool) → (i : ℕ) → (name : ℕ → ℕ) → (inum : ℕ) → Store → Outcome (Bool × Store)
dirlink has i name inum s = do
  (found, s1) ← dirlookup has i name s
  link_unless has i name inum found s1
