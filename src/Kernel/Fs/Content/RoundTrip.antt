-- ===== src/Kernel/Fs/Content/RoundTrip.antt =====
-- `writei` as a whole inside a file, and `readi` after it.
use os_ass.Base.{
  ℕ, suc, ◌+◌, ◌*◌, ◌-◌, ◌^◌, ◌≤◌, ◌<◌, ◌≡◌, ◌≢◌, refl, ap, ap₂, ◌∙◌, Bool, true, false, ◌&&◌, ◌||◌,
  List, [], ◌∷◌, length, get_or, ◌==◌, ltb, leb, min, if◌then◌else◌, bsize, add32, arith, ne→==,
}
use os_ass.Base.Outcome.{ok}
use os_ass.Kernel.Fs.{Disk}
use os_ass.Kernel.Fs.Inode.{Inode, ndirect, nindirect, t_dev}
use os_ass.Kernel.Fs.Content.{done, failed, readi, grow, writei}
use os_ass.Kernel.Fs.Content.Mapped.{content, IsMapped, span}
use os_ass.Kernel.Fs.Content.Reading.{readi_lem}
use os_ass.Kernel.Fs.Content.Writing.{written, AreApart, Wrote, write_loop_lem}

pub span-list :
    (f : ℕ → ℕ) (off : ℕ) (xs : List ℕ)
    → ((j : ℕ) → j < length xs → f (off + j) ≡ get_or xs j 0)
    → span f off (length xs) ≡ xs
unfolding span
span-list f off [] h = refl
span-list f off (x ∷ xs) h =
    ap₂ ◌∷◌ (ap f (omega arith) ∙ h 0 (omega arith))
      (span-list f (suc off) xs (λ j l. ap f (omega arith) ∙ h (suc j) (omega (arith, l))))

grow-inside : (n off : ℕ) (ip : Inode) (d : Disk) → off ≤ ip.size → grow n off ip d ≡ (ip, d)
unfolding grow
grow-inside n off ip d h =
    let t : (ltb 0 n && ltb ip.size off) ≡ false = ground (arith, h) in rw t refl

module _ (has : ℕ → Bool) (ip : Inode) (off n : ℕ) (xs : List ℕ) (d : Disk) (m : IsMapped d ip n)
    (p : AreApart d ip n) (size : ip.size ≤ n * bsize) (file : ip.type ≢ t_dev)
    (inside : off + length xs ≤ ip.size) where
  -- `writei` inside a file whose blocks are allocated changes the bytes that it is given and no
  -- others, neither of the file nor of other blocks, and leaves the inode as it is.
  pub writei_lem :
      (d' : Disk) × (writei has ip off xs d ≡ ok (done (length xs), ip, d'))
      × Wrote d ip n off xs d'
  unfolding writei
  writei_lem =
      let (d', e, w) =
        write_loop_lem (length xs) off n xs ip d m p (omega (arith, inside, size)) (omega arith) in
      let dev : (ip.type == t_dev) ≡ false = ne→== _ t_dev file in
      let t : (ltb ip.size off
            || ltb (add32 off (length xs)) off
            || ltb ((ndirect + nindirect) * bsize) (add32 off (length xs)))
          ≡ false =
        ground (arith, inside, size, m.within) in
      (d', rw (dev, t, e, grow-inside (length xs) (off + length xs) ip d' inside) refl, w)

  -- What `writei` writes, `readi` reads back.
  pub readi-writei :
      (d' : Disk) × (writei has ip off xs d ≡ ok (done (length xs), ip, d'))
      × (readi has ip off (length xs) d' ≡ ok (done xs, ip, d'))
  readi-writei =
      let (d', e, w) = writei_lem in
      (
        d',
        e,
        readi_lem has ip off (length xs) n d' w.mapped size file
              (omega (arith, inside, size, m.within)) (omega (arith, inside, size, m.within))
            ∙ ap
                (λ b. ok (
                  if b
                      then done (span (content d' ip) off (min (length xs) (ip.size - off)))
                      else failed,
                  ip,
                  d',
                ))
                test
            ∙ ap (λ k. ok (done (span (content d' ip) off k), ip, d')) (omega (arith, inside))
            ∙ ap (λ l. ok (done l, ip, d'))
                (span-list (content d' ip) off xs
                  (λ j l. w.bytes (off + j) (omega (arith, l, inside, size)) ∙ value j l)),
      )
    where
      test : (leb off ip.size && ltb (off + length xs) (2 ^ 32)) ≡ true
      test = ground (arith, inside, size, m.within)

      value : (j : ℕ) → j < length xs → written (content d ip) off xs (off + j) ≡ get_or xs j 0
      value j l =
          let t : (leb off (off + j) && ltb (off + j) (off + length xs)) ≡ true =
            ground (arith, l) in
          let e : off + j - off ≡ j = omega arith in rw (t, e) refl
