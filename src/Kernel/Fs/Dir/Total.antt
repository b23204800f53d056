-- ===== src/Kernel/Fs/Dir/Total.antt =====
-- `bmap`, `readi` and the search of a directory end, whatever the disk holds.
use os_ass.Base.{
  ℕ, zero, suc, ◌+◌, ◌-◌, ◌*◌, ◌/◌, ◌≤◌, ◌≡◌, refl, ◌∙◌, Bool, true, false, ◌&&◌, ◌||◌, not, List,
  length, ◌==◌, ltb, if◌then◌else◌, bsize, add32, Bool-cases, inl, inr, Option, none, some, arith,
}
use os_ass.Base.Outcome.{Ends, bind-Ends, Any, weaken-Ends, if-Ends, gives, panics}
use os_ass.Kernel.Syscall.{word_at}
use os_ass.Kernel.Fs.{Disk, balloc}
use os_ass.Kernel.Fs.Inode.{Inode, ndirect, nindirect, t_dev, t_dir}
use os_ass.Kernel.Fs.Content.{
  bmap_direct, bmap_entry, bmap, chunk, read_loop, End, done, failed, at_device, readi,
}
use os_ass.Kernel.Fs.Cache.{Store, iget}
use os_ass.Kernel.Fs.Cache.Total.{balloc-Ends, iget-Ends}
use os_ass.Kernel.Fs.Dir.{
  dirent_size, dirent_inum, dirent_name, namecmp, whole_dirent, read_dirent, lookup_loop, entries,
  get_entry, dirlookup,
}

-- The inode of a result has the size that `ip` has.
abbrev pub KeepsSize {ℓ} : {A : Type ℓ} → Inode → A × Inode × Disk → Type 0
KeepsSize ip r = r.1.size ≡ ip.size

bmap_direct-Ends : (d : Disk) (ip : Inode) (bn : ℕ) → Ends (KeepsSize ip) (bmap_direct d ip bn)
unfolding bmap_direct
bmap_direct-Ends d ip bn =
    if-Ends (KeepsSize ip) (ip.addrs bn == 0)
      (bind-Ends Any (KeepsSize ip) (balloc d) _ (balloc-Ends d) (λ r t. gives refl)) (gives refl)

bmap_entry-Ends :
    (d : Disk) (ip : Inode) (ind bn : ℕ) → Ends (KeepsSize ip) (bmap_entry d ip ind bn)
unfolding bmap_entry
bmap_entry-Ends d ip ind bn =
    if-Ends (KeepsSize ip) (word_at (d ind) (4 * bn) == 0)
      (bind-Ends Any (KeepsSize ip) (balloc d) _ (balloc-Ends d) (λ r t. gives refl)) (gives refl)

bmap-Ends : (d : Disk) (ip : Inode) (bn : ℕ) → Ends (KeepsSize ip) (bmap d ip bn)
unfolding bmap
bmap-Ends d ip bn = if-Ends (KeepsSize ip) (ltb bn ndirect) (bmap_direct-Ends d ip bn) (
    if-Ends (KeepsSize ip) (ltb (bn - ndirect) nindirect)
      (bind-Ends (KeepsSize ip) (KeepsSize ip) (bmap_direct d ip ndirect) _
        (bmap_direct-Ends d ip ndirect)
        (λ r e.
          weaken-Ends (KeepsSize r.1) (KeepsSize ip) (λ a f. f ∙ e)
            (bmap_entry-Ends r.2 r.1 r.0 (bn - ndirect))))
      panics)

read_loop-Ends :
    (rounds off left : ℕ) (ip : Inode) (d : Disk)
    → left ≤ rounds
    → Ends (KeepsSize ip) (read_loop rounds off left ip d)
unfolding read_loop
read_loop-Ends zero off left ip d l =
    let e : (left == 0) ≡ true = ground (arith, l) in rw e (gives refl)
read_loop-Ends (suc rounds) off left ip d l = elim (Bool-cases (left == 0)) [
  | inl e ↦ rw e (gives refl)
  | inr e ↦ rw e (
      bind-Ends (KeepsSize ip) (KeepsSize ip) (bmap d ip (off / bsize)) _
        (bmap-Ends d ip (off / bsize))
        (λ r k.
          bind-Ends (KeepsSize r.1) (KeepsSize ip)
            (read_loop rounds (off + chunk off left) (left - chunk off left) r.1 r.2) _
            (read_loop-Ends rounds (off + chunk off left) (left - chunk off left) r.1 r.2
              (ground (arith, l, e)))
            (λ u f. gives (f ∙ k))))
]

readi-Ends :
    (has : ℕ → Bool) (ip : Inode) (off n : ℕ) (d : Disk)
    → Ends (KeepsSize ip) (readi has ip off n d)
unfolding readi
readi-Ends has ip off n d =
    let m = if ltb ip.size (add32 off n) then ip.size - off else n in
    if-Ends (KeepsSize ip) (ip.type == t_dev) (gives refl) (
      if-Ends (KeepsSize ip) (ltb ip.size off || ltb (add32 off n) off) (gives refl) (
        bind-Ends (KeepsSize ip) (KeepsSize ip) (read_loop m off m ip d) _
          (read_loop-Ends m off m ip d (omega arith)) (λ r e. gives e)))

whole_dirent-Ends :
    (ip : Inode) (r : End (List ℕ) × Inode × Disk)
    → KeepsSize ip r
    → Ends (KeepsSize ip) (whole_dirent r)
unfolding whole_dirent
whole_dirent-Ends ip (done de, jp, d) e =
    if-Ends (KeepsSize ip) (length de == dirent_size) (gives e) panics
whole_dirent-Ends ip (failed, jp, d) e = panics
whole_dirent-Ends ip (at_device major, jp, d) e = panics

read_dirent-Ends :
    (has : ℕ → Bool) (off : ℕ) (dp : Inode) (d : Disk)
    → Ends (KeepsSize dp) (read_dirent has off dp d)
unfolding read_dirent
read_dirent-Ends has off dp d =
    bind-Ends (KeepsSize dp) (KeepsSize dp) (readi has dp off dirent_size d) _
      (readi-Ends has dp off dirent_size d) (λ r e. whole_dirent-Ends dp r e)

lookup_loop-Ends :
    (has : ℕ → Bool) (name : ℕ → ℕ) (off rounds : ℕ) (dp : Inode) (d : Disk)
    → dp.size ≤ off + dirent_size * rounds
    → Ends Any (lookup_loop has name off rounds dp d)
unfolding lookup_loop
lookup_loop-Ends has name off zero dp d l =
    let e : ltb off dp.size ≡ false = ground (arith, l) in rw e (gives tt)
lookup_loop-Ends has name off (suc rounds) dp d l =
    if-Ends Any (ltb off dp.size)
      (bind-Ends (KeepsSize dp) Any (read_dirent has off dp d) _ (read_dirent-Ends has off dp d)
        (λ r e.
          if-Ends Any (not (dirent_inum r.0 == 0) && namecmp name (dirent_name r.0)) (gives tt)
            (lookup_loop-Ends has name (off + dirent_size) rounds r.1 r.2 (omega (arith, l, e)))))
      (gives tt)

get_entry-Ends : (dev : ℕ) (o : Option (ℕ × ℕ)) (s : Store) → Ends Any (get_entry dev o s)
unfolding get_entry
get_entry-Ends dev none s = gives tt
get_entry-Ends dev (some (inum, off)) s =
    bind-Ends Any Any (iget dev inum s) _ (iget-Ends dev inum s) (λ r t. gives tt)

pub dirlookup-Ends :
    (has : ℕ → Bool) (i : ℕ) (name : ℕ → ℕ) (s : Store) → Ends Any (dirlookup has i name s)
unfolding dirlookup
dirlookup-Ends has i name s =
    if-Ends Any ((s.slots i).type == t_dir)
      (bind-Ends Any Any (lookup_loop has name 0 (entries (s.slots i)) (s.slots i) s.disk) _
        (lookup_loop-Ends has name 0 (entries (s.slots i)) (s.slots i) s.disk (omega arith))
        (λ r t. get_entry-Ends (s.slots i).dev r.0 _))
      panics
