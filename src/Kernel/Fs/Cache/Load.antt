-- ===== src/Kernel/Fs/Cache/Load.antt =====
-- An inode that `iupdate` wrote is read again with the same fields, and the other inodes of the disk
-- are as before.
use os_ass.Base.{
  ℕ, ◌+◌, ◌*◌, ◌/◌, ◌%◌, ◌-◌, ◌^◌, ◌<◌, ◌≤◌, ◌≡◌, ◌≢◌, refl, sym, ap, ◌∙◌, true, false, ◌&&◌, ◌==◌,
  leb, ltb, arith, update, Bool-cases, inl, inr, ==→eq, ne→==, ==_refl, ◌⊎◌,
}
use os_ass.Kernel.Syscall.{word_at}
use os_ass.Kernel.Fs.{Disk, iblock, ipb}
use os_ass.Kernel.Fs.Inode.{
  Inode, byte_of, half_at, dinode_byte, load_dinode, store_dinode, iupdate, ndirect,
}

-- The fields are `short`s and words.
pub record HasWords (ip : Inode) : Type 0 where
  pub type : ip.type < 2 ^ 16
  pub major : ip.major < 2 ^ 16
  pub minor : ip.minor < 2 ^ 16
  pub nlink : ip.nlink < 2 ^ 16
  pub size : ip.size < 2 ^ 32
  pub addrs : (n : ℕ) → n ≤ ndirect → ip.addrs n < 2 ^ 32

-- Two inodes with the same fields, but for those that only the cache has.
pub record SameFields (ip jp : Inode) : Type 0 where
  pub type : ip.type ≡ jp.type
  pub major : ip.major ≡ jp.major
  pub minor : ip.minor ≡ jp.minor
  pub nlink : ip.nlink ≡ jp.nlink
  pub size : ip.size ≡ jp.size
  pub addrs : (n : ℕ) → n ≤ ndirect → ip.addrs n ≡ jp.addrs n

-- Where the inode with this number is on the disk.
abbrev pub place : ℕ → ℕ
place inum = 64 * (inum % ipb)

store_lem :
    (bytes : ℕ → ℕ) (at : ℕ) (ip : Inode) (j : ℕ)
    → j < 64
    → store_dinode bytes at ip (at + j) ≡ dinode_byte ip j
unfolding store_dinode
store_lem bytes at ip j l =
    let t : (leb at (at + j) && ltb (at + j) (at + 64)) ≡ true = ground (arith, l) in
    rw t (ap (dinode_byte ip) (omega arith))

size_byte : (ip : Inode) (k : ℕ) → k < 4 → dinode_byte ip (8 + k) ≡ byte_of ip.size k
unfolding dinode_byte
size_byte ip k l =
    let t2 : ltb (8 + k) 2 ≡ false = ground arith in
    let t4 : ltb (8 + k) 4 ≡ false = ground arith in
    let t6 : ltb (8 + k) 6 ≡ false = ground arith in
    let t8 : ltb (8 + k) 8 ≡ false = ground arith in
    let t12 : ltb (8 + k) 12 ≡ true = ground (arith, l) in
    let e : 8 + k - 8 ≡ k = omega arith in rw (t2, t4, t6, t8, t12, e) refl

addr_byte :
    (ip : Inode) (n k : ℕ) → k < 4 → dinode_byte ip (12 + 4 * n + k) ≡ byte_of (ip.addrs n) k
unfolding dinode_byte
addr_byte ip n k l =
    let t2 : ltb (12 + 4 * n + k) 2 ≡ false = ground arith in
    let t4 : ltb (12 + 4 * n + k) 4 ≡ false = ground arith in
    let t6 : ltb (12 + 4 * n + k) 6 ≡ false = ground arith in
    let t8 : ltb (12 + 4 * n + k) 8 ≡ false = ground arith in
    let t12 : ltb (12 + 4 * n + k) 12 ≡ false = ground arith in
    let e : (12 + 4 * n + k - 12) / 4 ≡ n = omega (arith, l) in
    let f : (12 + 4 * n + k - 12) % 4 ≡ k = omega (arith, l) in rw (t2, t4, t6, t8, t12, e, f) refl

module _ (bytes : ℕ → ℕ) (at : ℕ) (ip jp : Inode) (w : HasWords ip) where
  abbrev stored : ℕ → ℕ
  stored = store_dinode bytes at ip

  stored_byte : (a j : ℕ) → a ≡ at + j → j < 64 → stored a ≡ dinode_byte ip j
  stored_byte a j e l = ap stored e ∙ store_lem bytes at ip j l

  stored_half :
      (a j v : ℕ)
      → a ≡ at + j
      → j + 1 < 64
      → v < 2 ^ 16
      → dinode_byte ip j ≡ byte_of v 0
      → dinode_byte ip (j + 1) ≡ byte_of v 1
      → half_at stored a ≡ v
  stored_half a j v e l s low high =
      let x = stored_byte a j e (omega (arith, l)) ∙ low in
      let y = stored_byte (a + 1) (j + 1) (omega (arith, e)) l ∙ high in
      rw (x, y) (omega (arith, s))

  stored_word :
      (a j v : ℕ)
      → a ≡ at + j
      → j + 3 < 64
      → v < 2 ^ 32
      → ((k : ℕ) → k < 4 → dinode_byte ip (j + k) ≡ byte_of v k)
      → word_at stored a ≡ v
  stored_word a j v e l s each =
      let b0 = stored_byte a (j + 0) (omega (arith, e)) (omega (arith, l)) ∙ each 0 (omega arith) in
      let b1 =
        stored_byte (a + 1) (j + 1) (omega (arith, e)) (omega (arith, l)) ∙ each 1 (omega arith) in
      let b2 =
        stored_byte (a + 2) (j + 2) (omega (arith, e)) (omega (arith, l)) ∙ each 2 (omega arith) in
      let b3 =
        stored_byte (a + 3) (j + 3) (omega (arith, e)) (omega (arith, l)) ∙ each 3 (omega arith) in
      rw (b0, b1, b2, b3) (omega (arith, s))

  load-store : SameFields (load_dinode stored at jp) ip
  unfolding load_dinode dinode_byte
  load-store = record {
    type = stored_half at 0 ip.type (omega arith) (omega arith) w.type refl refl;
    major = stored_half (at + 2) 2 ip.major refl (omega arith) w.major refl refl;
    minor = stored_half (at + 4) 4 ip.minor refl (omega arith) w.minor refl refl;
    nlink = stored_half (at + 6) 6 ip.nlink refl (omega arith) w.nlink refl refl;
    size = stored_word (at + 8) 8 ip.size refl (omega arith) w.size (size_byte ip);
    addrs = λ n l.
        stored_word (at + 12 + 4 * n) (12 + 4 * n) (ip.addrs n) (omega arith) (omega (arith, l))
          (w.addrs n l) (addr_byte ip n);
  }

abbrev written : Disk → Inode → ℕ → ℕ
written d ip = store_dinode (d (iblock ip.inum)) (place ip.inum) ip

-- The fields of an inode that `iupdate` wrote are read back, and the bytes of every other inode of
-- the disk, and all bytes of every other block, are as they were.
pub iupdate_lem :
    (ip jp : Inode) (d : Disk)
    → HasWords ip
    → SameFields (load_dinode (iupdate ip d (iblock ip.inum)) (place ip.inum) jp) ip
      × ((inum j : ℕ)
          → inum ≢ ip.inum
          → j < 64
          → iupdate ip d (iblock inum) (place inum + j) ≡ d (iblock inum) (place inum + j))
      × ((b : ℕ) → b ≢ iblock ip.inum → iupdate ip d b ≡ d b)
unfolding iupdate store_dinode
iupdate_lem ip jp d w = (
  same,
  (λ inum j ne l. kept inum j ne l (Bool-cases (iblock ip.inum == iblock inum))),
  (λ b ne. other b ne),
)
  where
    same :
        SameFields
          (load_dinode
            (update d (iblock ip.inum) (written d ip) (iblock ip.inum))
            (place ip.inum)
            jp)
          ip
    same =
        let e : (iblock ip.inum == iblock ip.inum) ≡ true = ==_refl (iblock ip.inum) in
        rw e (load-store (d (iblock ip.inum)) (place ip.inum) ip jp w)

    other : (b : ℕ) → b ≢ iblock ip.inum → update d (iblock ip.inum) (written d ip) b ≡ d b
    other b ne = let e : (iblock ip.inum == b) ≡ false = ne→== _ b (λ q. ne (sym q)) in rw e refl

    kept :
        (inum j : ℕ)
        → inum ≢ ip.inum
        → j < 64
        → ((iblock ip.inum == iblock inum) ≡ true) ⊎ ((iblock ip.inum == iblock inum) ≡ false)
        → update d (iblock ip.inum) (written d ip) (iblock inum) (place inum + j)
          ≡ d (iblock inum) (place inum + j)
    kept inum j ne l (inr e) = rw e refl
    kept inum j ne l (inl e) =
        let q : ip.inum / 8 ≡ inum / 8 = ground (arith, e) in
        let t : (leb (place ip.inum) (place inum + j) && ltb (place inum + j) (place ip.inum + 64))
            ≡ false =
          ground (arith, ne, l, q) in
        rw (e, t) (ap (λ b. d b (place inum + j)) (==→eq _ _ e))
