-- ===== src/Kernel/Fs/Content/Mapped.antt =====
-- A file whose first blocks are all allocated: where `bmap` finds them, and the bytes they hold.
use os_ass.Base.{
  ℕ, zero, suc, ◌+◌, ◌*◌, ◌/◌, ◌%◌, ◌-◌, ◌≤◌, ◌<◌, ◌≡◌, ◌≢◌, refl, ap, ap₂, ◌∙◌, true, false, List,
  [], ◌∷◌, ◌++◌, ◌==◌, ltb, if◌then◌else◌, bsize, arith, Bool-cases, inl, inr, ne→==,
}
use os_ass.Base.Outcome.{ok}
use os_ass.Kernel.Syscall.{word_at}
use os_ass.Kernel.Fs.{Disk}
use os_ass.Kernel.Fs.Inode.{Inode, ndirect, nindirect}
use os_ass.Kernel.Fs.Content.{bmap_direct, bmap_entry, bmap, slice}

-- The address of block `bn` of the file, 0 if it has none.
abbrev pub addr_of : Disk → Inode → ℕ → ℕ
addr_of d ip bn =
    if ltb bn ndirect then ip.addrs bn else word_at (d (ip.addrs ndirect)) (4 * (bn - ndirect))

-- Byte `k` of the file.
abbrev pub content : Disk → Inode → ℕ → ℕ
content d ip k = d (addr_of d ip (k / bsize)) (k % bsize)

-- The first `n` blocks are allocated, and the indirect block if one of them needs it.
pub record IsMapped (d : Disk) (ip : Inode) (n : ℕ) : Type 0 where
  pub within : n ≤ ndirect + nindirect
  pub blocks : (bn : ℕ) → bn < n → addr_of d ip bn ≢ 0
  pub indirect : ndirect < n → ip.addrs ndirect ≢ 0

direct_lem :
    (d : Disk) (ip : Inode) (bn : ℕ)
    → ip.addrs bn ≢ 0
    → bmap_direct d ip bn ≡ ok (ip.addrs bn, ip, d)
unfolding bmap_direct
direct_lem d ip bn ne = let e : (ip.addrs bn == 0) ≡ false = ne→== _ 0 ne in rw e refl

entry_lem :
    (d : Disk) (ip : Inode) (ind bn : ℕ)
    → word_at (d ind) (4 * bn) ≢ 0
    → bmap_entry d ip ind bn ≡ ok (word_at (d ind) (4 * bn), ip, d)
unfolding bmap_entry
entry_lem d ip ind bn ne =
    let e : (word_at (d ind) (4 * bn) == 0) ≡ false = ne→== _ 0 ne in rw e refl

pub bmap-IsMapped :
    (d : Disk) (ip : Inode) (n bn : ℕ)
    → IsMapped d ip n
    → bn < n
    → bmap d ip bn ≡ ok (addr_of d ip bn, ip, d)
unfolding bmap
bmap-IsMapped d ip n bn m l = elim (Bool-cases (ltb bn ndirect)) [
  | inl e ↦ rw e (direct_lem d ip bn (λ z. m.blocks bn l (rw e z)))
  | inr e ↦
      let t : ltb (bn - ndirect) nindirect ≡ true = ground (arith, e, l, m.within) in
      let a = direct_lem d ip ndirect (m.indirect (ground (arith, e, l))) in
      rw (e, t, a) (entry_lem d ip (ip.addrs ndirect) (bn - ndirect) (λ z. m.blocks bn l (rw e z)))
]

-- The values of a function from `k` on.
unfoldable pub span : (ℕ → ℕ) → (k m : ℕ) → List ℕ
span f k zero = []
span f k (suc m) = f k ∷ span f (suc k) m

pub span-append : (f : ℕ → ℕ) (k m n : ℕ) → span f k (m + n) ≡ span f k m ++ span f (k + m) n
unfolding span
span-append f k zero n = ap₂ (λ i j. span f i j) (omega arith) (omega arith)
span-append f k (suc m) n =
    let e : suc m + n ≡ suc (m + n) = omega arith in
    ap (λ i. span f k i) e
    ∙ ap (λ t. f k ∷ t)
        (span-append f (suc k) m n ∙ ap (λ i. span f (suc k) m ++ span f i n) (omega arith))

pub slice-span :
    (b f : ℕ → ℕ) (i k m : ℕ) → ((j : ℕ) → j < m → b (i + j) ≡ f (k + j)) → slice b i m ≡ span f k m
unfolding slice span
slice-span b f i k zero h = refl
slice-span b f i k (suc m) h =
    ap₂ ◌∷◌ (ap b (omega arith) ∙ h 0 (omega arith) ∙ ap f (omega arith)) (
      slice-span b f (suc i) (suc k) m
        (λ j l. ap b (omega arith) ∙ h (suc j) (omega (arith, l)) ∙ ap f (omega arith)))
