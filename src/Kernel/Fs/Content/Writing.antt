-- ===== src/Kernel/Fs/Content/Writing.antt =====
-- `writei` inside a file whose blocks are allocated.
use os_ass.Base.{
  ℕ, zero, suc, ◌+◌, ◌*◌, ◌/◌, ◌%◌, ◌-◌, ◌≤◌, ◌<◌, ◌≡◌, ◌≢◌, refl, sym, ap, ap₂, ◌∙◌, true, false,
  ◌&&◌, List, [], ◌∷◌, length, length-take, length-drop, take, drop, get_or, get_or-take,
  get_or-drop, ◌==◌, ltb, leb, if◌then◌else◌, update, bsize, arith, Bool-cases, inl, inr, ==→eq,
  ==→ne, ne→==, ==_refl,
}
use os_ass.Base.Outcome.{ok}
use os_ass.Kernel.Fs.{Disk}
use os_ass.Kernel.Fs.Inode.{Inode, ndirect}
use os_ass.Kernel.Fs.Content.{splice, chunk, write_loop}
use os_ass.Kernel.Fs.Content.Mapped.{addr_of, content, IsMapped, bmap-IsMapped}

-- A function with the values of a list from `off` on.
abbrev pub written : (ℕ → ℕ) → ℕ → List ℕ → ℕ → ℕ
written f off xs j = if leb off j && ltb j (off + length xs) then get_or xs (j - off) 0 else f j

pub splice-written : (b : ℕ → ℕ) (k : ℕ) (xs : List ℕ) (j : ℕ) → splice b k xs j ≡ written b k xs j
unfolding splice
splice-written b k [] j = ground arith
splice-written b k (x ∷ xs) j =
    splice-written (update b k x) (suc k) xs j ∙ ground (arith, get_or_tail)
  where
    get_or_tail : k < j → get_or (x ∷ xs) (j - k) 0 ≡ get_or xs (j - suc k) 0
    get_or_tail h = let e : j - k ≡ suc (j - suc k) = omega arith in rw e refl

-- The blocks of the file are not each other, and not its indirect block.
pub record AreApart (d : Disk) (ip : Inode) (n : ℕ) : Type 0 where
  pub blocks : (a b : ℕ) → a < n → b < n → a ≢ b → addr_of d ip a ≢ addr_of d ip b
  pub indirect : (a : ℕ) → a < n → addr_of d ip a ≢ ip.addrs ndirect

-- The bytes of a round are in the block of the offset.
in_block :
    (off k n : ℕ)
    → k / bsize ≡ off / bsize
    → off % bsize + n ≤ bsize
    → (leb (off % bsize) (k % bsize) && ltb (k % bsize) (off % bsize + n))
      ≡ (leb off k && ltb k (off + n))
in_block off k n e h = ground (arith, e, h)

out_of_block :
    (off k n : ℕ)
    → k / bsize ≢ off / bsize
    → off % bsize + n ≤ bsize
    → (leb off k && ltb k (off + n)) ≡ false
out_of_block off k n ne h = elim (Bool-cases (leb off k && ltb k (off + n))) [
  | inl t ↦
      let l : off ≤ k = ground (arith, t) in
      let g : k < off + n = ground (arith, t) in absurd (ne (omega (arith, l, g, h)))
  | inr t ↦ t
]

-- Writing the front of a list and then the rest is writing the list.
written-written :
    (f : ℕ → ℕ) (off m : ℕ) (xs : List ℕ) (j : ℕ)
    → m ≤ length xs
    → written (written f off (take m xs)) (off + m) (drop m xs) j ≡ written f off xs j
written-written f off m xs j l =
    ground (arith, l, length-take m xs l, length-drop m xs, front, back)
  where
    front : off ≤ j → j < off + m → get_or (take m xs) (j - off) 0 ≡ get_or xs (j - off) 0
    front g h = get_or-take m xs (j - off) 0 (omega (arith, g, h))

    back : off + m ≤ j → get_or (drop m xs) (j - (off + m)) 0 ≡ get_or xs (j - off) 0
    back h = get_or-drop m xs (j - (off + m)) 0 ∙ ap (λ i. get_or xs i 0) (omega (arith, h))

-- One round of the loop: bytes of one block.
module _ (d : Disk) (ip : Inode) (n : ℕ) (p : AreApart d ip n) (off : ℕ) (ys : List ℕ)
    (here : off / bsize < n) (fit : off % bsize + length ys ≤ bsize) where
  a : ℕ
  a = addr_of d ip (off / bsize)

  after : Disk
  after = update d a (splice (d a) (off % bsize) ys)

  addr_of-after : (bn : ℕ) → addr_of after ip bn ≡ addr_of d ip bn
  unfolding after a
  addr_of-after bn =
      let e : (addr_of d ip (off / bsize) == ip.addrs ndirect) ≡ false =
        ne→== _ _ (p.indirect (off / bsize) here) in
      rw e refl

  IsMapped-after : IsMapped d ip n → IsMapped after ip n
  IsMapped-after m = record {
    within = m.within;
    blocks = λ bn l z. m.blocks bn l (sym (addr_of-after bn) ∙ z);
    indirect = m.indirect;
  }

  AreApart-after : AreApart after ip n
  AreApart-after = record {
    blocks = λ i j l g ne e. p.blocks i j l g ne (sym (addr_of-after i) ∙ e ∙ addr_of-after j);
    indirect = λ i l e. p.indirect i l (sym (addr_of-after i) ∙ e);
  }

  content-after : (k : ℕ) → k / bsize < n → content after ip k ≡ written (content d ip) off ys k
  unfolding after a
  content-after k l =
      ap (λ b. after b (k % bsize)) (addr_of-after (k / bsize))
      ∙ elim (Bool-cases (k / bsize == off / bsize)) [
        | inl e ↦
            let s : k / bsize ≡ off / bsize = ==→eq _ _ e in
            let r : (addr_of d ip (off / bsize) == addr_of d ip (off / bsize)) ≡ true = ==_refl _ in
            rw (s, r)
              (splice-written (d (addr_of d ip (off / bsize))) (off % bsize) ys (k % bsize)
                ∙ ap₂
                    (λ t i. if t then get_or ys i 0 else d (addr_of d ip (off / bsize)) (k % bsize))
                    (in_block off k (length ys) s fit) (omega (arith, s)))
        | inr e ↦
            let ne : (addr_of d ip (off / bsize) == addr_of d ip (k / bsize)) ≡ false =
              ne→== _ _ (p.blocks (off / bsize) (k / bsize) here l (λ s. ==→ne _ _ e (sym s))) in
            rw ne (
              sym (
                ap (λ t. if t then get_or ys (k - off) 0 else content d ip k)
                  (out_of_block off k (length ys) (==→ne _ _ e) fit)))
      ]

-- What the loop leaves: the file with the bytes written, and every other block as it was.
pub record Wrote (d : Disk) (ip : Inode) (n off : ℕ) (xs : List ℕ) (d' : Disk) : Type 0 where
  pub mapped : IsMapped d' ip n
  pub apart : AreApart d' ip n
  pub bytes : (k : ℕ) → k / bsize < n → content d' ip k ≡ written (content d ip) off xs k
  pub others : (b : ℕ) → ((bn : ℕ) → bn < n → addr_of d ip bn ≢ b) → d' b ≡ d b
  pub addrs : (bn : ℕ) → addr_of d' ip bn ≡ addr_of d ip bn

module _ (d : Disk) (ip : Inode) (n : ℕ) (m : IsMapped d ip n) (p : AreApart d ip n) (off : ℕ)
    (ys : List ℕ) (here : off / bsize < n) (fit : off % bsize + length ys ≤ bsize) where
  after-Wrote : Wrote d ip n off ys (after d ip n p off ys here fit)
  unfolding after a
  after-Wrote = record {
    mapped = unfold after in IsMapped-after d ip n p off ys here fit m;
    apart = AreApart-after d ip n p off ys here fit;
    bytes = content-after d ip n p off ys here fit;
    others = λ b h.
        let e : (addr_of d ip (off / bsize) == b) ≡ false = ne→== _ b (h (off / bsize) here) in
        rw e refl;
    addrs = addr_of-after d ip n p off ys here fit;
  }

Wrote-trans :
    {d d1 d2 : Disk} {ip : Inode} {n off m : ℕ} (xs : List ℕ)
    → m ≤ length xs
    → Wrote d ip n off (take m xs) d1
    → Wrote d1 ip n (off + m) (drop m xs) d2
    → Wrote d ip n off xs d2
Wrote-trans {d} {d1} {d2} {ip} {n} {off} {m} xs l w v = record {
  mapped = v.mapped;
  apart = v.apart;
  bytes = λ k h.
      v.bytes k h
      ∙ ap
          (λ y.
            if leb (off + m) k && ltb k (off + m + length (drop m xs))
            then get_or (drop m xs) (k - (off + m)) 0
            else y)
          (w.bytes k h)
      ∙ written-written (content d ip) off m xs k l;
  others = λ b h. v.others b (λ bn g e. h bn g (sym (w.addrs bn) ∙ e)) ∙ w.others b h;
  addrs = λ bn. v.addrs bn ∙ w.addrs bn;
}

nothing-Wrote :
    (d : Disk) (ip : Inode) (n off : ℕ) (xs : List ℕ)
    → IsMapped d ip n
    → AreApart d ip n
    → length xs ≡ 0
    → Wrote d ip n off xs d
nothing-Wrote d ip n off xs m p e = record {
  mapped = m;
  apart = p;
  bytes = λ k h. ground (arith, e);
  others = λ b h. refl;
  addrs = λ bn. refl;
}

pub write_loop_lem :
    (rounds off n : ℕ) (xs : List ℕ) (ip : Inode) (d : Disk)
    → IsMapped d ip n
    → AreApart d ip n
    → off + length xs ≤ n * bsize
    → length xs ≤ rounds
    → (d' : Disk) × (write_loop rounds off xs ip d ≡ ok (off + length xs, ip, d'))
      × Wrote d ip n off xs d'
unfolding write_loop after a
write_loop_lem zero off n xs ip d m p h l =
    let e : length xs ≡ 0 = omega (arith, l) in
    let o : off ≡ off + length xs = omega (arith, e) in
    (d, rw e (ap (λ k. ok (k, ip, d)) (omega arith)), nothing-Wrote d ip n off xs m p e)
write_loop_lem (suc rounds) off n xs ip d m p h l = elim (Bool-cases (length xs == 0)) [
  | inl t ↦
      let e = ==→eq (length xs) 0 t in
      (d, rw t (ap (λ k. ok (k, ip, d)) (omega (arith, e))), nothing-Wrote d ip n off xs m p e)
  | inr t ↦
      let ne = ==→ne (length xs) 0 t in
      let c : chunk off (length xs) ≤ length xs = omega arith in
      let ys = take (chunk off (length xs)) xs in
      let here : off / bsize < n = omega (arith, h, ne) in
      let fit : off % bsize + length ys ≤ bsize =
        omega (arith, length-take (chunk off (length xs)) xs c) in
      let w = after-Wrote d ip n m p off ys here fit in
      let (d', e, v) =
        write_loop_lem rounds (off + chunk off (length xs)) n (drop (chunk off (length xs)) xs) ip
          (after d ip n p off ys here fit) w.mapped w.apart
          (omega (arith, h, c, length-drop (chunk off (length xs)) xs))
          (omega (arith, l, ne, c, length-drop (chunk off (length xs)) xs)) in
      (
        d',
        rw (t, bmap-IsMapped d ip n (off / bsize) m here)
            (e
              ∙ ap (λ k. ok (k, ip, d'))
                  (omega (arith, c, length-drop (chunk off (length xs)) xs))),
        Wrote-trans xs c w v,
      )
]
