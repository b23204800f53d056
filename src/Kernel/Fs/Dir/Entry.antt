-- ===== src/Kernel/Fs/Dir/Entry.antt =====
-- Looking a name up in a directory whose blocks are allocated, and the entry that `dirlink` makes.
use os_ass.Base.{
  ℕ, zero, suc, ◌+◌, ◌*◌, ◌%◌, ◌-◌, ◌^◌, ◌<◌, ◌≤◌, ◌≡◌, ◌≢◌, refl, sym, ap, ◌∙◌, Bool, true, false,
  not, ◌&&◌, ◌==◌, leb, ltb, arith, Option, none, some, List, length, get_or, bsize, min,
}
use os_ass.Base.Outcome.{ok}
use os_ass.Kernel.Strings.{strncpy}
use os_ass.Kernel.Strings.Copy.{AgreeFor-same, AgreeFor-flip, strncpy-AgreeFor, strncmp_iff}
use os_ass.Kernel.Fs.{Disk}
use os_ass.Kernel.Fs.Inode.{Inode, t_dir, t_dev}
use os_ass.Kernel.Fs.Content.{slice, done}
use os_ass.Kernel.Fs.Content.Mapped.{content, IsMapped, span}
use os_ass.Kernel.Fs.Content.Reading.{readi_lem}
use os_ass.Kernel.Fs.Dir.{
  dirsiz, dirent_size, dirent_inum, dirent_name, namecmp, whole_dirent, read_dirent, new_dirent,
}

length-slice : (b : ℕ → ℕ) (k m : ℕ) → length (slice b k m) ≡ m
unfolding slice
length-slice b k zero = refl
length-slice b k (suc m) = ap suc (length-slice b (suc k) m)

get_or-slice : (b : ℕ → ℕ) (k m j : ℕ) → j < m → get_or (slice b k m) j 0 ≡ b (k + j)
unfolding slice
get_or-slice b k zero j l = absurd (omega (arith, l))
get_or-slice b k (suc m) zero l = ap b (omega arith)
get_or-slice b k (suc m) (suc j) l =
    get_or-slice b (suc k) m j (omega (arith, l)) ∙ ap b (omega arith)

-- The entry that `dirlink` writes is 16 bytes; it holds the number, if that is a `ushort`, and
-- `namecmp` finds in it the name, also one of more than 14 bytes.
pub new_dirent_lem :
    (name : ℕ → ℕ) (inum : ℕ)
    → inum < 2 ^ 16
    → (length (new_dirent name inum) ≡ dirent_size)
      × (dirent_inum (new_dirent name inum) ≡ inum)
      × (namecmp name (dirent_name (new_dirent name inum)) ≡ true)
unfolding new_dirent
new_dirent_lem name inum l =
    let copy = strncpy (λ k. 0) name dirsiz in
    let (there, back) = strncmp_iff dirsiz name (dirent_name (new_dirent name inum)) in
    (
      ap (λ n. suc (suc n)) (length-slice copy 0 dirsiz),
      omega (arith, l),
      back (
          AgreeFor-flip (dirent_name (new_dirent name inum)) name dirsiz (
            AgreeFor-same dirsiz (λ k g. sym (named k g)) (λ k g. refl)
              (strncpy-AgreeFor (λ k. 0) name dirsiz))),
    )
  where
    named :
        (k : ℕ) → k < dirsiz → dirent_name (new_dirent name inum) k ≡ strncpy (λ j. 0) name dirsiz k
    named k g =
        let e : 2 + k ≡ suc (suc k) = omega arith in
        rw e (
          get_or-slice (strncpy (λ j. 0) name dirsiz) 0 dirsiz k g
          ∙ ap (strncpy (λ j. 0) name dirsiz) (omega arith))

-- The entry at an offset.
abbrev pub entry : Disk → Inode → ℕ → List ℕ
entry d dp off = span (content d dp) off dirent_size

-- `dp` is a directory of `n` blocks, all allocated, and holds whole entries.
pub record IsDir (d : Disk) (dp : Inode) (n : ℕ) : Type 0 where
  pub mapped : IsMapped d dp n
  pub fits : dp.size ≤ n * bsize
  pub type : dp.type ≡ t_dir
  pub whole : dp.size % dirent_size ≡ 0

-- Whether an entry is in use and has the name.
abbrev pub has_name : (ℕ → ℕ) → List ℕ → Bool
has_name name de = not (dirent_inum de == 0) && namecmp name (dirent_name de)

-- The first entry that passes a test, as its offset.
pub data First (d : Disk) (dp : Inode) (test : List ℕ → Bool) : Option ℕ → Type 0 where
  at :
      {off : ℕ}
      → off < dp.size
      → off % dirent_size ≡ 0
      → test (entry d dp off) ≡ true
      → ((k : ℕ) → k < off → k % dirent_size ≡ 0 → test (entry d dp k) ≡ false)
      → First d dp test (some off)
  nowhere :
      ((k : ℕ) → k < dp.size → k % dirent_size ≡ 0 → test (entry d dp k) ≡ false)
      → First d dp test none

length-span : (f : ℕ → ℕ) (k m : ℕ) → length (span f k m) ≡ m
unfolding span
length-span f k zero = refl
length-span f k (suc m) = ap suc (length-span f (suc k) m)

module _ (has : ℕ → Bool) (d : Disk) (dp : Inode) (n : ℕ) (h : IsDir d dp n) where
  not_device : dp.type ≢ t_dev
  not_device e = absurd (omega (arith, h.type, e))

  pub read_dirent_lem :
      (off : ℕ)
      → off < dp.size
      → off % dirent_size ≡ 0
      → read_dirent has off dp d ≡ ok (entry d dp off, dp, d)
  unfolding read_dirent
  read_dirent_lem off l a =
      let m = h.mapped.within in
      let r =
        readi_lem has dp off dirent_size n d h.mapped h.fits not_device
          (omega (arith, l, h.fits, m)) (omega arith) in
      let t : (leb off dp.size && ltb (off + dirent_size) (2 ^ 32)) ≡ true =
        ground (arith, l, h.fits, m) in
      let c : min dirent_size (dp.size - off) ≡ dirent_size = omega (arith, l, a, h.whole) in
      rw (r, t, c) (whole-entry (entry d dp off) (length-span (content d dp) off dirent_size))
    where
      whole-entry :
          (de : List ℕ) → length de ≡ dirent_size → whole_dirent (done de, dp, d) ≡ ok (de, dp, d)
      whole-entry de e =
          let t : (length de == dirent_size) ≡ true = rw e refl in unfold whole_dirent in rw t refl
