-- ===== src/Kernel/Fs/Dir/Tests.antt =====
-- An empty directory of two entries in block 9, the name "sh" and the path "/usr//bin".
use os_ass.Base.{
  ℕ, zero, suc, ◌+◌, ◌%◌, ◌^◌, ◌<◌, ◌≡◌, ◌≢◌, ◌≤◌, ◌∙◌, refl, sym, subst, Bool, true, false, ◌==◌,
  arith, Bool-cases, inl, inr, ==→eq, Option, some, List, [], ◌∷◌, get_or, if◌then◌else◌,
}
use os_ass.Base.Outcome.{ok}
use os_ass.Kernel.Fs.{Disk, iblock}
use os_ass.Kernel.Fs.Inode.{Inode, load_dinode, iupdate}
use os_ass.Kernel.Fs.Content.Mapped.{addr_of, IsMapped, span}
use os_ass.Kernel.Fs.Content.Writing.{AreApart}
use os_ass.Kernel.Fs.Cache.{Store, iget}
use os_ass.Kernel.Fs.Cache.Get.{IsUnique, Gets, iget_lem}
use os_ass.Kernel.Fs.Cache.Load.{HasWords, SameFields, place, iupdate_lem}
use os_ass.Kernel.Fs.Dir.{dirent_size, dirent_inum, get_entry, dirlookup, dirlink}
use os_ass.Kernel.Fs.Dir.Entry.{entry, IsDir, has_name, First}
use os_ass.Kernel.Fs.Dir.Lookup.{found_at, dirlookup_lem}
use os_ass.Kernel.Fs.Dir.Link.{dirlookup-dirlink}
use os_ass.Kernel.Fs.Path.{skipelem}
use os_ass.Kernel.Fs.Path.Elements.{Skipped, skipelem_lem}

abbrev zeros : Disk
zeros b j = 0

abbrev directory : Inode
directory = record {
  dev = 1;
  inum = 7;
  ref = 1;
  busy = true;
  valid = true;
  type = 1;
  major = 0;
  minor = 0;
  nlink = 1;
  size = 32;
  addrs = λ n. if n == 0 then 9 else 0;
}

-- Every slot but the first is free.
abbrev store : Store
store = record {
  slots = λ i. if i == 0 then directory else record directory { ref = 0 };
  disk = zeros;
}

abbrev sh : ℕ → ℕ
sh k = get_or (b's' ∷ b'h' ∷ []) k 0

abbrev no_device : ℕ → Bool
no_device k = false

directory-IsMapped : IsMapped zeros directory 1
directory-IsMapped = record {
  within = omega arith;
  blocks = one;
  indirect = λ l. absurd (omega (arith, l));
}
  where
    one : (bn : ℕ) → bn < 1 → addr_of zeros directory bn ≢ 0
    one zero l e = absurd (omega (arith, e))
    one (suc bn) l e = absurd (omega (arith, l))

directory-IsDir : IsDir zeros directory 1
directory-IsDir = record {
  mapped = directory-IsMapped;
  fits = omega arith;
  type = refl;
  whole = refl;
}

directory-AreApart : AreApart zeros directory 1
directory-AreApart = record { blocks = λ a b l h ne e. ne (omega (arith, l, h)); indirect = only }
  where
    only : (a : ℕ) → a < 1 → addr_of zeros directory a ≢ directory.addrs 12
    only zero l e = absurd (omega (arith, e))
    only (suc a) l e = absurd (omega (arith, l))

no_sh : (k : ℕ) → k < 32 → k % dirent_size ≡ 0 → has_name sh (entry zeros directory k) ≡ false
unfolding span
no_sh k l a = elim (Bool-cases (k == 0)) [
  | inl e ↦ subst (λ j. has_name sh (entry zeros directory j) ≡ false) (sym (==→eq k 0 e)) refl
  | inr e ↦
      subst (λ j. has_name sh (entry zeros directory j) ≡ false) {x = 16} {y = k}
        (ground (arith, e, l, a)) (here 16)
]
  where
    here : (j : ℕ) → has_name sh (entry zeros directory j) ≡ false
    here j = refl

empty_entry : (dirent_inum (entry zeros directory 16) == 0) ≡ true
unfolding span
empty_entry = refl

dirlookup-dirlink_example :
    (off : ℕ) × (d' : Disk) × (off < 32)
    × (off % dirent_size ≡ 0)
    × (dirent_inum (entry zeros directory off) ≡ 0)
    × (dirlink no_device 0 sh 12 store ≡ ok (true, record store { disk = d' }))
    × (dirlookup no_device 0 sh (record store { disk = d' })
        ≡ get_entry 1 (some (12, off)) (record store { disk = d' }))
    × ((k : ℕ)
        → k < 32
        → k % dirent_size ≡ 0
        → k ≢ off
        → entry d' directory k ≡ entry zeros directory k)
dirlookup-dirlink_example =
    dirlookup-dirlink no_device 0 sh 12 store 1 16 directory-IsDir directory-AreApart (omega arith)
      (omega arith) no_sh (omega arith) refl empty_entry

dirlookup_lem_example :
    (o : Option ℕ) × First zeros directory (has_name sh) o
    × (dirlookup no_device 0 sh store ≡ get_entry 1 (found_at zeros directory o) store)
dirlookup_lem_example = dirlookup_lem no_device 0 sh store 1 directory-IsDir

store-IsUnique : IsUnique store
store-IsUnique = record { unique = first }
  where
    only : (i : ℕ) → 0 < (store.slots i).ref → i ≡ 0
    only zero l = refl
    only (suc i) l = absurd (ground (arith, l))

    first :
        (i j : ℕ)
        → i < 50
        → j < 50
        → 0 < (store.slots i).ref
        → 0 < (store.slots j).ref
        → (store.slots i).dev ≡ (store.slots j).dev
        → (store.slots i).inum ≡ (store.slots j).inum
        → i ≡ j
    first i j li lj ri rj d n = only i ri ∙ sym (only j rj)

iget_lem_example : Gets store 1 12 (iget 1 12 store)
iget_lem_example = iget_lem store 1 12 store-IsUnique

directory-HasWords : HasWords directory
directory-HasWords = record {
  type = omega arith;
  major = omega arith;
  minor = omega arith;
  nlink = omega arith;
  size = omega arith;
  addrs = small;
}
  where
    small : (n : ℕ) → n ≤ 12 → directory.addrs n < 2 ^ 32
    small zero l = omega arith
    small (suc n) l = ground arith

-- The slot's old fields do not matter.
iupdate_lem_example :
    SameFields
      (load_dinode (iupdate directory zeros (iblock 7)) (place 7) (record directory { size = 500 }))
      directory
    × ((inum j : ℕ)
        → inum ≢ 7
        → j < 64
        → iupdate directory zeros (iblock inum) (place inum + j)
          ≡ zeros (iblock inum) (place inum + j))
    × ((b : ℕ) → b ≢ iblock 7 → iupdate directory zeros b ≡ zeros b)
iupdate_lem_example =
    iupdate_lem directory (record directory { size = 500 }) zeros directory-HasWords

abbrev usr_bin : List ℕ
usr_bin = b'/' ∷ b'u' ∷ b's' ∷ b'r' ∷ b'/' ∷ b'/' ∷ b'b' ∷ b'i' ∷ b'n' ∷ []

skipelem_lem_example : Skipped usr_bin (skipelem usr_bin sh)
skipelem_lem_example = skipelem_lem usr_bin sh
