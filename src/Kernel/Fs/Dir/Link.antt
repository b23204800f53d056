-- ===== src/Kernel/Fs/Dir/Link.antt =====
-- `dirlookup` after `dirlink` in a directory that has an empty entry.
use os_ass.Base.{
  ℕ, zero, suc, ◌+◌, ◌*◌, ◌%◌, ◌-◌, ◌^◌, ◌<◌, ◌≤◌, ◌≡◌, ◌≢◌, refl, sym, ap, ap₂, ◌∙◌, Bool, true,
  false, ◌&&◌, ◌==◌, leb, ltb, arith, Bool-cases, inl, inr, ==→eq, ==→ne, ne→==, Option, none, some,
  List, ◌∷◌, length, get_or, bsize,
}
use os_ass.Base.Outcome.{ok}
use mathlib.Core.Bool.{true≢false}
use os_ass.Kernel.Fs.{Disk}
use os_ass.Kernel.Fs.Inode.{Inode}
use os_ass.Kernel.Fs.Content.Mapped.{content, span}
use os_ass.Kernel.Fs.Content.Writing.{written, AreApart, Wrote}
use os_ass.Kernel.Fs.Content.RoundTrip.{writei_lem, span-list}
use os_ass.Kernel.Fs.Dir.{
  dirent_size, dirent_inum, empty_loop, entries, get_entry, dirlookup, new_dirent, add_entry,
  link_unless, dirlink,
}
use os_ass.Kernel.Fs.Dir.Entry.{new_dirent_lem, entry, IsDir, has_name, First, at, nowhere}
use os_ass.Kernel.Fs.Dir.Lookup.{
  Before, found_at, end_or, is_free, empty_loop_lem, update_same, dirlookup_lem,
}
use os_ass.Kernel.Fs.Cache.{Store}

span-same :
    (f g : ℕ → ℕ) (k m : ℕ) → ((j : ℕ) → k ≤ j → j < k + m → f j ≡ g j) → span f k m ≡ span g k m
unfolding span
span-same f g k zero h = refl
span-same f g k (suc m) h =
    ap₂ ◌∷◌ (h k (omega arith) (omega arith))
      (span-same f g (suc k) m (λ j a b. h j (omega (arith, a)) (omega (arith, b))))

-- The bytes that were written.
span-Wrote :
    (d d' : Disk) (ip : Inode) (n off : ℕ) (xs : List ℕ)
    → Wrote d ip n off xs d'
    → off + length xs ≤ n * bsize
    → span (content d' ip) off (length xs) ≡ xs
span-Wrote d d' ip n off xs w l =
    span-list (content d' ip) off xs (λ j g. w.bytes (off + j) (omega (arith, g, l)) ∙ value j g)
  where
    value : (j : ℕ) → j < length xs → written (content d ip) off xs (off + j) ≡ get_or xs j 0
    value j g =
        let t : (leb off (off + j) && ltb (off + j) (off + length xs)) ≡ true = ground (arith, g) in
        let e : off + j - off ≡ j = omega arith in rw (t, e) refl

-- An entry elsewhere.
entry-Wrote :
    (d d' : Disk) (ip : Inode) (n off k : ℕ) (xs : List ℕ)
    → Wrote d ip n off xs d'
    → length xs ≡ dirent_size
    → off % dirent_size ≡ 0
    → k % dirent_size ≡ 0
    → k ≢ off
    → k + dirent_size ≤ n * bsize
    → entry d' ip k ≡ entry d ip k
entry-Wrote d d' ip n off k xs w e a b ne l =
    span-same (content d' ip) (content d ip) k dirent_size (λ j g m.
      w.bytes j (omega (arith, g, m, l))
      ∙ (let t : (leb off j && ltb j (off + length xs)) ≡ false =
            ground (arith, e, a, b, ne, g, m) in
          rw t refl))

-- What makes `dirlink` write into the directory: whole words, an empty entry, and no entry with the
-- name.
module _ (has : ℕ → Bool) (name : ℕ → ℕ) (inum : ℕ) (dp : Inode) (d : Disk) (n : ℕ)
    (h : IsDir d dp n) (p : AreApart d dp n) (pos : 0 < inum) (short : inum < 2 ^ 16)
    (new : Before d dp (has_name name) dp.size) where
  abbrev de : List ℕ
  de = new_dirent name inum

  length-de : length de ≡ dirent_size
  length-de = (new_dirent_lem name inum short).0

  -- The entry is written at `off`.
  record Linked (off : ℕ) (d' : Disk) : Type 0 where
    inside : off < dp.size
    aligned : off % dirent_size ≡ 0
    was_free : is_free (entry d dp off) ≡ true
    runs : add_entry has name inum dp d ≡ ok (dp, d')
    wrote : Wrote d dp n off de d'

  add_entry-Linked :
      (o : Option ℕ)
      → empty_loop has 0 (entries dp) dp d ≡ ok (end_or dp.size o, dp, d)
      → First d dp is_free o
      → (e : ℕ) → e < dp.size
      → e % dirent_size ≡ 0
      → is_free (entry d dp e) ≡ true
      → (off : ℕ) × (d' : Disk) × Linked off d'
  unfolding add_entry
  add_entry-Linked none r (nowhere f) e l a t = absurd (true≢false (sym t ∙ f e l a))
  add_entry-Linked (some off) r (at l a t f) e le ae te =
      let fit : off + length de ≤ dp.size = omega (arith, l, a, h.whole, length-de) in
      let (d', ew, w) =
        writei_lem has dp off n de d h.mapped p h.fits (λ q. absurd (omega (arith, h.type, q)))
          fit in
      let t16 : (length de == dirent_size) ≡ true = rw length-de refl in
      (
        off,
        d',
        record { inside = l; aligned = a; was_free = t; runs = rw (r, ew, t16) refl; wrote = w },
      )

  -- The lookup on the disk that is left finds that entry.
  Linked-First :
      (off : ℕ) (d' : Disk)
      → Linked off d'
      → (o : Option ℕ) → First d' dp (has_name name) o
      → found_at d' dp o ≡ some (inum, off)
  Linked-First off d' l =
      let there : entry d' dp off ≡ de =
        ap (span (content d' dp) off) (sym length-de) ∙ span-Wrote d d' dp n off de l.wrote fit in
      let named : has_name name (entry d' dp off) ≡ true = rw there new_named in first there named
    where
      fit : off + length de ≤ n * bsize
      fit = omega (arith, l.inside, l.aligned, h.whole, length-de, h.fits)

      new_named : has_name name de ≡ true
      new_named =
          let (len, num, same) = new_dirent_lem name inum short in
          let t : (dirent_inum de == 0) ≡ false =
            ne→== _ 0 (λ q. absurd (omega (arith, num, q, pos))) in
          rw (t, same) refl

      elsewhere :
          (k : ℕ)
          → k < dp.size
          → k % dirent_size ≡ 0
          → k ≢ off
          → has_name name (entry d' dp k) ≡ false
      elsewhere k g b ne =
          ap (has_name name) (
            entry-Wrote d d' dp n off k de l.wrote length-de l.aligned b ne
              (omega (arith, g, b, h.whole, h.fits)))
          ∙ new k g b

      first :
          entry d' dp off ≡ de
          → has_name name (entry d' dp off) ≡ true
          → (o : Option ℕ) → First d' dp (has_name name) o
          → found_at d' dp o ≡ some (inum, off)
      first there named none (nowhere f) =
          absurd (true≢false (sym named ∙ f off l.inside l.aligned))
      first there named (some k) (at g b t f) = elim (Bool-cases (k == off)) [
        | inl e ↦
            let q = ==→eq k off e in
            ap₂ (λ a c. some (dirent_inum a, c)) (ap (entry d' dp) q ∙ there) q
            ∙ ap (λ a. some (a, off)) (new_dirent_lem name inum short).1
        | inr e ↦ absurd (true≢false (sym t ∙ elsewhere k g b (==→ne k off e)))
      ]

  Linked-IsDir : (off : ℕ) (d' : Disk) → Linked off d' → IsDir d' dp n
  Linked-IsDir off d' l = record {
    mapped = l.wrote.mapped;
    fits = h.fits;
    type = h.type;
    whole = h.whole;
  }

none_found :
    (d : Disk) (dp : Inode) (name : ℕ → ℕ) (o : Option ℕ)
    → Before d dp (has_name name) dp.size
    → First d dp (has_name name) o
    → found_at d dp o ≡ none
none_found d dp name none new (nowhere f) = refl
none_found d dp name (some off) new (at l a t f) = absurd (true≢false (sym t ∙ new off l a))

dirlink_made :
    (has : ℕ → Bool) (i : ℕ) (name : ℕ → ℕ) (inum : ℕ) (s : Store) (d' : Disk)
    → dirlookup has i name s ≡ ok (none, s)
    → add_entry has name inum (s.slots i) s.disk ≡ ok (s.slots i, d')
    → dirlink has i name inum s ≡ ok (true, record s { disk = d' })
unfolding dirlink link_unless
dirlink_made has i name inum s d' a b =
    rw (a, b) (ap (λ x. ok (true, record { slots = x; disk = d' })) (update_same s.slots i))

-- In a directory with allocated blocks, an empty entry and no entry of that name, `dirlink` ends and
-- makes its entry at an offset inside the directory where the entry was empty; then `dirlookup`
-- finds in it the number that was given, and the other entries are as before.
pub dirlookup-dirlink :
    (has : ℕ → Bool) (i : ℕ) (name : ℕ → ℕ) (inum : ℕ) (s : Store) (n e : ℕ)
    → IsDir s.disk (s.slots i) n
    → AreApart s.disk (s.slots i) n
    → 0 < inum
    → inum < 2 ^ 16
    → ((k : ℕ)
        → k < (s.slots i).size
        → k % dirent_size ≡ 0
        → has_name name (entry s.disk (s.slots i) k) ≡ false)
    → e < (s.slots i).size
    → e % dirent_size ≡ 0
    → (dirent_inum (entry s.disk (s.slots i) e) == 0) ≡ true
    → (off : ℕ) × (d' : Disk) × (off < (s.slots i).size)
      × (off % dirent_size ≡ 0)
      × (dirent_inum (entry s.disk (s.slots i) off) ≡ 0)
      × (dirlink has i name inum s ≡ ok (true, record s { disk = d' }))
      × (dirlookup has i name (record s { disk = d' })
          ≡ get_entry (s.slots i).dev (some (inum, off)) (record s { disk = d' }))
      × ((k : ℕ)
          → k < (s.slots i).size
          → k % dirent_size ≡ 0
          → k ≢ off
          → entry d' (s.slots i) k ≡ entry s.disk (s.slots i) k)
unfolding get_entry
dirlookup-dirlink has i name inum s n e h p pos short new le ae te =
    let dp = s.slots i in
    let (o, f, r) = dirlookup_lem has i name s n h in
    let (oe, re, fe) =
      empty_loop_lem has s.disk dp n h 0 (entries dp) refl (omega arith) (omega arith)
        (λ k l. absurd (omega (arith, l))) in
    let (off, d', l) =
      add_entry-Linked has name inum dp s.disk n h p pos short new oe re fe e le ae te in
    let (o2, f2, r2) =
      dirlookup_lem has i name (record s { disk = d' }) n
        (Linked-IsDir has name inum dp s.disk n h p pos short new off d' l) in
    (
      off,
      d',
      l.inside,
      l.aligned,
      ==→eq _ 0 l.was_free,
      dirlink_made has i name inum s d'
          (r ∙ ap (λ x. get_entry dp.dev x s) (none_found s.disk dp name o new f)) l.runs,
      r2
          ∙ ap (λ x. get_entry dp.dev x (record s { disk = d' }))
              (Linked-First has name inum dp s.disk n h p pos short new off d' l o2 f2),
      (λ k g b ne.
          entry-Wrote s.disk d' dp n off k (new_dirent name inum) l.wrote
            (new_dirent_lem name inum short).0 l.aligned b ne
            (omega (arith, g, b, h.whole, h.fits))),
    )
