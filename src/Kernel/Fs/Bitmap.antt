-- ===== src/Kernel/Fs/Bitmap.antt =====
-- The block allocator as a set of used blocks.
use os_ass.Base.{
  ℕ, zero, suc, ◌+◌, ◌*◌, ◌/◌, ◌%◌, ◌≤◌, ◌<◌, ◌≡◌, ◌≢◌, refl, ap, ◌∙◌, subst, Bool, true, false,
  Option, none, some, ◌==◌, ltb, if◌then◌else◌, update, arith, Bool-cases, inl, inr, ==→eq, ne→==,
}
use os_ass.Kernel.Fs.{
  Disk, readsb, superblock_of, bpb, bblock, digit, set_digit, test_bit, set_bit, bit_loop,
}

digit-set_digit :
    (v : Bool) (x k l : ℕ) → digit (set_digit v x k) l ≡ (if k == l then v else digit x l)
unfolding digit set_digit
digit-set_digit v x zero zero = ground arith
digit-set_digit v x zero (suc l) =
    let e : (2 * (x / 2) + (if v then 1 else 0)) / 2 ≡ x / 2 = ground arith in
    ap (λ y. digit y l) e ∙ ground arith
digit-set_digit v x (suc k) zero = ground arith
digit-set_digit v x (suc k) (suc l) =
    ap (λ y. digit y l) half ∙ digit-set_digit v (x / 2) k l ∙ ground arith
  where
    half : (2 * set_digit v (x / 2) k + x % 2) / 2 ≡ set_digit v (x / 2) k
    half = omega arith

same_place : (i j : ℕ) → (i / 8 == j / 8) ≡ true → (i % 8 == j % 8) ≡ (i == j)
same_place i j e = ground (arith, e)

-- Only the bit that is set changes.
pub test_bit-set_bit :
    (v : Bool) (bytes : ℕ → ℕ) (i j : ℕ)
    → test_bit (set_bit v bytes i) j ≡ (if i == j then v else test_bit bytes j)
test_bit-set_bit v bytes i j = elim (Bool-cases (i / 8 == j / 8)) [
  | inl e ↦ rw e (
      digit-set_digit v (bytes (i / 8)) (i % 8) (j % 8)
      ∙ ap (λ b. if b then v else digit (bytes (i / 8)) (j % 8)) (same_place i j e)
      ∙ ap (λ k. if i == j then v else digit (bytes k) (j % 8)) (==→eq (i / 8) (j / 8) e))
  | inr e ↦ let ne : (i == j) ≡ false = ground (arith, e) in rw (e, ne) refl
]

-- A block's bit in the bitmap.
abbrev pub used : Disk → ℕ → Bool
used d n = test_bit (d (bblock n (readsb d).ninodes)) (n % bpb)

-- The bitmap with one bit set.
abbrev pub mark : Bool → Disk → ℕ → Disk
mark v d n = let bno = bblock n (readsb d).ninodes in update d bno (set_bit v (d bno) (n % bpb))

pub readsb-update : (d : Disk) (n : ℕ) (b : ℕ → ℕ) → n ≢ 1 → readsb (update d n b) ≡ readsb d
unfolding readsb
readsb-update d n b ne = ap (λ c. superblock_of (if c then b else d 1)) (ne→== n 1 ne)

same_bit : (n m nin : ℕ) → (bblock n nin == bblock m nin) ≡ true → (n % bpb == m % bpb) ≡ (n == m)
same_bit n m nin e = ground (arith, e)

pub used-mark :
    (v : Bool) (d : Disk) (n m : ℕ) → used (mark v d n) m ≡ (if n == m then v else used d m)
used-mark v d n m =
    let nin = (readsb d).ninodes in
    let bytes = set_bit v (d (bblock n nin)) (n % bpb) in
    ap (λ sb. test_bit (update d (bblock n nin) bytes (bblock m sb.ninodes)) (m % bpb))
      (readsb-update d (bblock n nin) bytes (omega arith))
    ∙ elim (Bool-cases (bblock n nin == bblock m nin)) [
      | inl e ↦ rw e (
          test_bit-set_bit v (d (bblock n nin)) (n % bpb) (m % bpb)
          ∙ ap (λ c. if c then v else test_bit (d (bblock n nin)) (m % bpb)) (same_bit n m nin e)
          ∙ ap (λ k. if n == m then v else test_bit (d k) (m % bpb))
              (==→eq (bblock n nin) (bblock m nin) e))
      | inr e ↦ let ne : (n == m) ≡ false = ground (arith, e) in rw (e, ne) refl
    ]

from_here :
    (bytes : ℕ → ℕ) (i j : ℕ)
    → test_bit bytes i ≡ true
    → (suc i ≤ j → test_bit bytes j ≡ true)
    → i ≤ j
    → test_bit bytes j ≡ true
from_here bytes i j t rest l = elim (Bool-cases (i == j)) [
  | inl e ↦ subst (λ k. test_bit bytes k ≡ true) (==→eq i j e) t
  | inr e ↦ rest (ground (arith, e, l))
]

-- What the search of one block of the bitmap finds.
pub data Searched (bytes : ℕ → ℕ) (size b bi end : ℕ) : Option ℕ → Type 0 where
  free :
      {k : ℕ}
      → bi ≤ k
      → k < end
      → b + k < size
      → test_bit bytes k ≡ false
      → ((j : ℕ) → bi ≤ j → j < k → test_bit bytes j ≡ true)
      → Searched bytes size b bi end (some k)
  taken :
      ((j : ℕ) → bi ≤ j → j < end → b + j < size → test_bit bytes j ≡ true)
      → Searched bytes size b bi end none

next :
    {bytes : ℕ → ℕ} {size b bi : ℕ} (n : ℕ) {o : Option ℕ}
    → test_bit bytes bi ≡ true
    → Searched bytes size b (suc bi) (suc bi + n) o
    → Searched bytes size b bi (bi + suc n) o
next {bytes} {bi = bi} n t (free {k} l h g e before) =
    free (omega (arith, l)) (omega (arith, h)) g e
      (λ j m w. from_here bytes bi j t (λ m'. before j m' w) m)
next {bytes} {bi = bi} n t (taken all) =
    taken (λ j m w g. from_here bytes bi j t (λ m'. all j m' (omega (arith, w)) g) m)

pub bit_loop-Searched :
    (bytes : ℕ → ℕ) (size b bi n : ℕ)
    → Searched bytes size b bi (bi + n) (bit_loop bytes size b bi n)
unfolding bit_loop
bit_loop-Searched bytes size b bi zero = taken (λ j l h g. absurd (omega (arith, l, h)))
bit_loop-Searched bytes size b bi (suc n) = elim (Bool-cases (ltb (b + bi) size)) [
  | inl e ↦ elim (Bool-cases (test_bit bytes bi)) [
    | inl t ↦ rw (e, t) (next n t (bit_loop-Searched bytes size b (suc bi) n))
    | inr t ↦
        rw (e, t)
          (free (omega arith) (omega arith) (ground (arith, e)) t
            (λ j l h. absurd (omega (arith, l, h))))
  ]
  | inr e ↦ rw e (taken (λ j l h g. absurd (ground (arith, e, l, g))))
]
