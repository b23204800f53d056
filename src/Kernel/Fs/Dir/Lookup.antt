-- ===== src/Kernel/Fs/Dir/Lookup.antt =====
-- The loops over the entries of a directory, and `dirlookup`.
use os_ass.Base.{
  ℕ, zero, suc, ◌+◌, ◌*◌, ◌%◌, ◌<◌, ◌≤◌, ◌≡◌, refl, ap, subst, fun_ext, Bool, true, false, ◌==◌,
  ltb, arith, update, Bool-cases, inl, inr, ==→eq, Option, none, some, List,
}
use os_ass.Base.Outcome.{ok}
use os_ass.Kernel.Fs.{Disk}
use os_ass.Kernel.Fs.Inode.{Inode, t_dir}
use os_ass.Kernel.Fs.Dir.{
  dirent_size, dirent_inum, lookup_loop, empty_loop, entries, get_entry, dirlookup,
}
use os_ass.Kernel.Fs.Dir.Entry.{entry, IsDir, has_name, First, at, nowhere, read_dirent_lem}
use os_ass.Kernel.Fs.Cache.{Store}

-- No entry before `off` passes a test.
abbrev pub Before : Disk → Inode → (List ℕ → Bool) → ℕ → Type 0
Before d dp test off = (k : ℕ) → k < off → k % dirent_size ≡ 0 → test (entry d dp k) ≡ false

one_more :
    (d : Disk) (dp : Inode) (test : List ℕ → Bool) (off : ℕ)
    → off % dirent_size ≡ 0
    → Before d dp test off
    → test (entry d dp off) ≡ false
    → Before d dp test (off + dirent_size)
one_more d dp test off a f e k l b = elim (Bool-cases (ltb k off)) [
  | inl t ↦ f k (ground (arith, t)) b
  | inr t ↦ subst (λ j. test (entry d dp j) ≡ false) (ground (arith, t, l, a, b)) e
]

-- What `lookup_loop` finds, as a number and an offset.
abbrev pub found_at : Disk → Inode → Option ℕ → Option (ℕ × ℕ)
found_at d dp none = none
found_at d dp (some off) = some (dirent_inum (entry d dp off), off)

abbrev pub end_or : ℕ → Option ℕ → ℕ
end_or size none = size
end_or size (some off) = off

abbrev pub is_free : List ℕ → Bool
is_free de = dirent_inum de == 0

module _ (has : ℕ → Bool) (d : Disk) (dp : Inode) (n : ℕ) (h : IsDir d dp n) where
  pub lookup_loop_lem :
      (name : ℕ → ℕ) (off rounds : ℕ)
      → off % dirent_size ≡ 0
      → off ≤ dp.size
      → dp.size ≤ off + dirent_size * rounds
      → Before d dp (has_name name) off
      → (o : Option ℕ) × (lookup_loop has name off rounds dp d ≡ ok (found_at d dp o, dp, d))
        × First d dp (has_name name) o
  unfolding lookup_loop
  lookup_loop_lem name off zero a l e f =
      let t : ltb off dp.size ≡ false = ground (arith, e) in
      rw t (none, refl, nowhere (λ k g b. f k (omega (arith, g, e)) b))
  lookup_loop_lem name off (suc rounds) a l e f = elim (Bool-cases (ltb off dp.size)) [
    | inr t ↦ rw t (none, refl, nowhere (λ k g b. f k (ground (arith, g, t)) b))
    | inl t ↦
        let r = read_dirent_lem has d dp n h off (ground (arith, t)) a in
        elim (Bool-cases (has_name name (entry d dp off))) [
          | inl q ↦ rw (t, r, q) (some off, refl, at (ground (arith, t)) a q f)
          | inr q ↦
              rw (t, r, q)
                (lookup_loop_lem name (off + dirent_size) rounds (omega (arith, a))
                  (ground (arith, t, a, h.whole)) (omega (arith, e))
                  (one_more d dp (has_name name) off a f q))
        ]
  ]

  pub empty_loop_lem :
      (off rounds : ℕ)
      → off % dirent_size ≡ 0
      → off ≤ dp.size
      → dp.size ≤ off + dirent_size * rounds
      → Before d dp is_free off
      → (o : Option ℕ) × (empty_loop has off rounds dp d ≡ ok (end_or dp.size o, dp, d))
        × First d dp is_free o
  unfolding empty_loop
  empty_loop_lem off zero a l e f =
      let t : ltb off dp.size ≡ false = ground (arith, e) in
      let s : off ≡ dp.size = omega (arith, l, e) in
      rw t (none, ap (λ k. ok (k, dp, d)) s, nowhere (λ k g b. f k (omega (arith, g, e)) b))
  empty_loop_lem off (suc rounds) a l e f = elim (Bool-cases (ltb off dp.size)) [
    | inr t ↦
        let s : off ≡ dp.size = ground (arith, l, t) in
        rw t (none, ap (λ k. ok (k, dp, d)) s, nowhere (λ k g b. f k (ground (arith, g, t)) b))
    | inl t ↦
        let r = read_dirent_lem has d dp n h off (ground (arith, t)) a in
        elim (Bool-cases (is_free (entry d dp off))) [
          | inl q ↦ rw (t, r, q) (some off, refl, at (ground (arith, t)) a q f)
          | inr q ↦
              rw (t, r, q)
                (empty_loop_lem (off + dirent_size) rounds (omega (arith, a))
                  (ground (arith, t, a, h.whole)) (omega (arith, e))
                  (one_more d dp is_free off a f q))
        ]
  ]

-- Storing what is there changes nothing.
pub update_same {ℓ} : {A : Type ℓ} (f : ℕ → A) (i : ℕ) → update f i (f i) ≡ f
update_same f i =
    fun_ext
      (λ k. elim (Bool-cases (i == k)) [ inl e ↦ rw e (ap f (==→eq i k e)) | inr e ↦ rw e refl ])

-- `dirlookup` in a directory whose blocks are allocated ends and changes neither the directory nor
-- the disk: it gets the inode in the first entry in use that has the name, with the entry's
-- offset, or finds nothing if no entry has it.
pub dirlookup_lem :
    (has : ℕ → Bool) (i : ℕ) (name : ℕ → ℕ) (s : Store) (n : ℕ)
    → IsDir s.disk (s.slots i) n
    → (o : Option ℕ) × First s.disk (s.slots i) (has_name name) o
      × (dirlookup has i name s ≡ get_entry (s.slots i).dev (found_at s.disk (s.slots i) o) s)
unfolding dirlookup
dirlookup_lem has i name s n h =
    let dp = s.slots i in
    let (o, e, f) =
      lookup_loop_lem has s.disk dp n h name 0 (entries dp) refl (omega arith) (omega arith)
        (λ k l. absurd (omega (arith, l))) in
    let t : (dp.type == t_dir) ≡ true = rw (h.type) refl in
    (
      o,
      f,
      rw (t, e)
          (ap (λ x. get_entry dp.dev (found_at s.disk dp o) (record { slots = x; disk = s.disk }))
            (update_same s.slots i)),
    )
