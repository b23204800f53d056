-- ===== src/Kernel/Fs/Alloc.antt =====
-- `balloc` and `bfree` take a block out of the set of free blocks and put it back.
use os_ass.Base.{
  ℕ, zero, suc, ◌+◌, ◌*◌, ◌/◌, ◌%◌, ◌-◌, ◌≤◌, ◌<◌, ◌≡◌, ◌≢◌, refl, sym, ap, ap₂, ◌∙◌, subst, true,
  false, Option, none, some, ◌==◌, ltb, if◌then◌else◌, update, arith, Bool-cases, inl, inr, ==→eq,
  ne→==, ==_refl,
}
use os_ass.Base.Outcome.{Outcome, ok, panic}
use mathlib.Core.Bool.{true≢false}
use os_ass.Kernel.Fs.{
  Disk, readsb, bpb, bblock, bzero, test_bit, set_bit, block_loop, balloc, bfree,
}
use os_ass.Kernel.Fs.Bitmap.{
  used, mark, used-mark, readsb-update, Searched, free, taken, bit_loop-Searched,
}

-- How `balloc` may end: it takes the first free block, or it panics because there is none.
pub data Taken (d : Disk) : Outcome (ℕ × Disk) → Type 0 where
  takes :
      {n : ℕ}
      → n < (readsb d).size
      → used d n ≡ false
      → ((m : ℕ) → m < n → used d m ≡ true)
      → Taken d (ok (n, bzero (mark true d n) n))
  none_left :
      ((m : ℕ) → m < (readsb d).size → used d m ≡ true) → Taken d (panic "balloc: out of blocks")

-- The bits of the block of the bitmap that stands for the blocks from `b` on.
module _ (d : Disk) (q b : ℕ) (start : b ≡ bpb * q) where
  bitmap : ℕ
  bitmap = bblock b (readsb d).ninodes

  used-block : (j : ℕ) → j < bpb → test_bit (d bitmap) j ≡ used d (b + j)
  unfolding bitmap
  used-block j l = ap₂ (λ k i. test_bit (d k) i) (omega (arith, start, l)) (omega (arith, start, l))

  mark-block : (j : ℕ) → j < bpb → update d bitmap (set_bit true (d bitmap) j) ≡ mark true d (b + j)
  unfolding bitmap
  mark-block j l =
      ap₂ (λ k i. update d k (set_bit true (d k) i)) (omega (arith, start, l))
        (omega (arith, start, l))

  used_before :
      (k : ℕ)
      → k ≤ bpb
      → ((m : ℕ) → m < b → m < (readsb d).size → used d m ≡ true)
      → ((j : ℕ) → 0 ≤ j → j < k → b + j < (readsb d).size → test_bit (d bitmap) j ≡ true)
      → (m : ℕ) → m < b + k
      → m < (readsb d).size
      → used d m ≡ true
  used_before k g f here m l h = elim (Bool-cases (ltb m b)) [
    | inl t ↦ f m (ground (arith, t)) h
    | inr t ↦
        let same : b + (m - b) ≡ m = ground (arith, t) in
        ap (used d) (sym same)
        ∙ sym (used-block (m - b) (ground (arith, t, l, g)))
        ∙ here (m - b) (omega arith) (ground (arith, t, l)) (omega (arith, same, h))
  ]

  -- The round on this block, given the next round.
  round-Taken :
      {o : Option ℕ} (later : Outcome (ℕ × Disk))
      → ((m : ℕ) → m < b → m < (readsb d).size → used d m ≡ true)
      → Searched (d bitmap) (readsb d).size b 0 bpb o
      → (((m : ℕ) → m < b + bpb → m < (readsb d).size → used d m ≡ true) → Taken d later)
      → Taken d (elim o [
        | some bi ↦ ok (b + bi, bzero (update d bitmap (set_bit true (d bitmap) bi)) (b + bi))
        | none ↦ later
      ])
  round-Taken later f (taken all) rest = rest (used_before bpb (omega arith) f all)
  round-Taken later f (free {k} l h g e before) rest =
      subst (λ t. Taken d (ok (b + k, bzero t (b + k)))) (sym (mark-block k h))
        (takes g (sym (used-block k h) ∙ e) (λ m w.
          used_before k (omega (arith, h)) f (λ j a c r. before j a c) m w (omega (arith, w, g))))

block_loop-Taken :
    (d : Disk) (rounds q b : ℕ)
    → b ≡ bpb * q
    → b < (readsb d).size + bpb
    → (readsb d).size + bpb ≤ b + bpb * rounds
    → ((m : ℕ) → m < b → m < (readsb d).size → used d m ≡ true)
    → Taken d (block_loop rounds b d)
unfolding block_loop bitmap
block_loop-Taken d zero q b e l h f = absurd (omega (arith, l, h))
block_loop-Taken d (suc rounds) q b e l h f = elim (Bool-cases (ltb b (readsb d).size)) [
  | inl t ↦ rw t (
      round-Taken d q b e (block_loop rounds (b + bpb) d) f
        (bit_loop-Searched (d (bitmap d q b e)) (readsb d).size b 0 bpb)
        (λ g.
          block_loop-Taken d rounds (suc q) (b + bpb) (omega (arith, e)) (ground (arith, t))
            (omega (arith, h)) g))
  | inr t ↦ rw t (none_left (λ m g. f m (ground (arith, t, g)) g))
]

pub balloc-Taken : (d : Disk) → Taken d (balloc d)
unfolding balloc
balloc-Taken d =
    block_loop-Taken d (suc ((readsb d).size / bpb + 1)) 0 0 (omega arith) (omega arith)
      (omega arith) (λ m l h. absurd (omega (arith, l)))

-- A disk whose bitmap counts its own first blocks, up to the bitmap, as used.
pub record IsFormatted (d : Disk) : Type 0 where
  pub meta : (m : ℕ) → m ≤ bblock (readsb d).size (readsb d).ninodes → used d m ≡ true

-- What `balloc` does to the set of used blocks and to the contents of the disk.
pub data Allocates (d : Disk) : Outcome (ℕ × Disk) → Type 0 where
  gives :
      {n : ℕ} {d' : Disk}
      → n < (readsb d).size
      → used d n ≡ false
      → ((m : ℕ) → m < n → used d m ≡ true)
      → ((m : ℕ) → m < (readsb d).size → used d' m ≡ (if n == m then true else used d m))
      → ((j : ℕ) → d' n j ≡ 0)
      → ((m : ℕ) → bblock (readsb d).size (readsb d).ninodes < m → m ≢ n → d' m ≡ d m)
      → readsb d' ≡ readsb d
      → Allocates d (ok (n, d'))
  full :
      ((m : ℕ) → m < (readsb d).size → used d m ≡ true)
      → Allocates d (panic "balloc: out of blocks")

module _ (d : Disk) (f : IsFormatted d) (n : ℕ) (free_n : used d n ≡ false) where
  -- The first blocks are used, so a free block lies behind the bitmap.
  behind : bblock (readsb d).size (readsb d).ninodes < n
  behind = elim (Bool-cases (ltb (bblock (readsb d).size (readsb d).ninodes) n)) [
    | inl t ↦ ground (arith, t)
    | inr t ↦ absurd (true≢false (sym (f.meta n (ground (arith, t))) ∙ free_n))
  ]

  given : Disk
  given = bzero (mark true d n) n

  readsb-given : readsb given ≡ readsb d
  unfolding given bzero
  readsb-given =
      readsb-update (mark true d n) n (λ j. 0) (omega (arith, behind))
      ∙ readsb-update d (bblock n (readsb d).ninodes)
          (set_bit true (d (bblock n (readsb d).ninodes)) (n % bpb)) (omega arith)

  given-other : (m : ℕ) → m ≢ n → given m ≡ mark true d n m
  unfolding given bzero
  given-other m ne = let e : (n == m) ≡ false = ne→== n m (λ s. ne (sym s)) in rw e refl

  used-given : (m : ℕ) → m < (readsb d).size → used given m ≡ (if n == m then true else used d m)
  used-given m l =
      ap (λ sb. test_bit (given (bblock m sb.ninodes)) (m % bpb)) readsb-given
      ∙ ap (λ b. test_bit b (m % bpb))
          (given-other (bblock m (readsb d).ninodes) (omega (arith, l, behind)))
      ∙ ap (λ sb. test_bit (mark true d n (bblock m sb.ninodes)) (m % bpb))
          (sym (
            readsb-update d (bblock n (readsb d).ninodes)
              (set_bit true (d (bblock n (readsb d).ninodes)) (n % bpb)) (omega arith)))
      ∙ used-mark true d n m

  given_clear : (j : ℕ) → given n j ≡ 0
  unfolding given bzero
  given_clear j = let e : (n == n) ≡ true = ==_refl n in rw e refl

  given_rest :
      n < (readsb d).size
      → (m : ℕ) → bblock (readsb d).size (readsb d).ninodes < m
      → m ≢ n
      → given m ≡ d m
  given_rest s m l ne =
      given-other m ne
      ∙ (let e : (bblock n (readsb d).ninodes == m) ≡ false =
            ne→== _ m (λ t. absurd (omega (arith, t, l, s))) in
          rw e refl)

-- `balloc` on a formatted disk ends. It gives the first free block, which is now used and all
-- zeros; no other block of the disk becomes used or free, and behind the bitmap no other block
-- changes. It panics only if no block is free.
pub balloc_lem : (d : Disk) → IsFormatted d → Allocates d (balloc d)
balloc_lem d f = allocated (balloc-Taken d)
  where
    allocated : {r : Outcome (ℕ × Disk)} → Taken d r → Allocates d r
    allocated (takes {n} l e before) =
        unfold given in
        gives l e before (used-given d f n e) (given_clear d f n e) (given_rest d f n e l)
          (readsb-given d f n e)
    allocated (none_left h) = full h

-- A block that `balloc` gave can be freed, and then the same blocks are used as before.
pub bfree-balloc :
    (d d' : Disk) (n : ℕ)
    → IsFormatted d
    → balloc d ≡ ok (n, d')
    → (d'' : Disk) × (bfree d' n ≡ ok d'') × ((m : ℕ) → m < (readsb d).size → used d'' m ≡ used d m)
unfolding bfree
bfree-balloc d d' n f e = back (subst (Allocates d) e (balloc_lem d f))
  where
    back :
        Allocates d (ok (n, d'))
        → (d'' : Disk) × ((if used d' n then ok (mark false d' n) else panic "freeing free block")
            ≡ ok d'')
          × ((m : ℕ) → m < (readsb d).size → used d'' m ≡ used d m)
    back (gives l was before now clear others sb) =
        let t : used d' n ≡ true = now n l ∙ (let r : (n == n) ≡ true = ==_refl n in rw r refl) in
        (
          mark false d' n,
          ap (λ b. if b then ok (mark false d' n) else panic "freeing free block") t,
          λ m g.
              used-mark false d' n m ∙ ap (λ b. if n == m then false else b) (now m g) ∙ same m was,
        )
      where
        same :
            (m : ℕ)
            → used d n ≡ false
            → (if n == m then false else if n == m then true else used d m) ≡ used d m
        same m w = elim (Bool-cases (n == m)) [
          | inl h ↦ rw h (sym (ap (used d) (sym (==→eq n m h)) ∙ w))
          | inr h ↦ rw h refl
        ]
