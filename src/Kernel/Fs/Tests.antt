-- ===== src/Kernel/Fs/Tests.antt =====
-- A disk of 20 blocks of which the first five, up to the bitmap, are used, and a file of one block.
use os_ass.Base.{
  ℕ, zero, suc, ◌≤◌, ◌<◌, ◌≡◌, ◌≢◌, refl, Bool, true, false, ◌&&◌, List, [], ◌∷◌, length, ◌==◌,
  if◌then◌else◌, update, arith,
}
use os_ass.Base.Outcome.{ok}
use os_ass.Kernel.Fs.{
  Disk, bzero, readsb, superblock_of, digit, set_digit, bit_loop, block_loop, balloc, bfree,
}
use os_ass.Kernel.Fs.Bitmap.{used}
use os_ass.Kernel.Fs.Alloc.{IsFormatted, Allocates, balloc_lem, bfree-balloc}
use os_ass.Kernel.Fs.Inode.{Inode}
use os_ass.Kernel.Fs.Content.{done, readi, writei}
use os_ass.Kernel.Fs.Content.Mapped.{addr_of, IsMapped}
use os_ass.Kernel.Fs.Content.Writing.{AreApart}
use os_ass.Kernel.Fs.Content.RoundTrip.{readi-writei}

abbrev formatted : Disk
formatted b j =
    if b == 1
    then if j == 0 then 20 else if j == 8 then 8 else 0
    else if b == 4 && j == 0
    then 31
    else 0

formatted-IsFormatted : IsFormatted formatted
unfolding readsb superblock_of digit
formatted-IsFormatted = record { meta = first }
  where
    first : (m : ℕ) → m ≤ 4 → used formatted m ≡ true
    first zero l = refl
    first (suc zero) l = refl
    first (suc (suc zero)) l = refl
    first (suc (suc (suc zero))) l = refl
    first (suc (suc (suc (suc zero)))) l = refl
    first (suc (suc (suc (suc (suc m))))) l = absurd (omega (arith, l))

balloc_lem_example : Allocates formatted (balloc formatted)
balloc_lem_example = balloc_lem formatted formatted-IsFormatted

-- The sixth block is the first free one.
abbrev after : Disk
after = bzero (update formatted 4 (update (formatted 4) 0 63)) 5

balloc-formatted : balloc formatted ≡ ok (5, after)
unfolding balloc block_loop bit_loop readsb superblock_of digit set_digit
balloc-formatted = refl

bfree-balloc_example :
    (d'' : Disk) × (bfree after 5 ≡ ok d'')
    × ((m : ℕ) → m < (readsb formatted).size → used d'' m ≡ used formatted m)
bfree-balloc_example = bfree-balloc formatted after 5 formatted-IsFormatted balloc-formatted

abbrev file : Inode
file = record {
  dev = 1;
  inum = 3;
  ref = 1;
  busy = true;
  valid = true;
  type = 2;
  major = 0;
  minor = 0;
  nlink = 1;
  size = 100;
  addrs = λ n. if n == 0 then 9 else 0;
}

abbrev no_device : ℕ → Bool
no_device k = false

file-IsMapped : IsMapped formatted file 1
file-IsMapped = record {
  within = omega arith;
  blocks = one;
  indirect = λ l. absurd (omega (arith, l));
}
  where
    one : (bn : ℕ) → bn < 1 → addr_of formatted file bn ≢ 0
    one zero l e = absurd (omega (arith, e))
    one (suc bn) l e = absurd (omega (arith, l))

file-AreApart : AreApart formatted file 1
file-AreApart = record {
  blocks = λ a b l h ne e. ne (omega (arith, l, h));
  indirect = λ a l e. only a l e;
}
  where
    only : (a : ℕ) → a < 1 → addr_of formatted file a ≢ file.addrs 12
    only zero l e = absurd (omega (arith, e))
    only (suc a) l e = absurd (omega (arith, l))

abbrev text : List ℕ
text = b'x' ∷ b'v' ∷ b'6' ∷ []

readi-writei_example :
    (d' : Disk) × (writei no_device file 20 text formatted ≡ ok (done (length text), file, d'))
    × (readi no_device file 20 (length text) d' ≡ ok (done text, file, d'))
readi-writei_example =
    readi-writei no_device file 20 1 text formatted file-IsMapped file-AreApart (omega arith)
      (λ e. absurd (omega (arith, e))) (omega arith)
