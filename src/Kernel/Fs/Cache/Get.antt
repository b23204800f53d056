-- ===== src/Kernel/Fs/Cache/Get.antt =====
-- `iget` keeps every inode in one slot at most.
use os_ass.Base.{
  ℕ, zero, suc, ◌+◌, ◌<◌, ◌≡◌, ◌≢◌, refl, sym, ap, ◌∙◌, subst, true, false, ◌==◌, arith, Bool-cases,
  inl, inr, ==→eq, ==→ne, ne→==, ==_refl, ◌⊎◌, Option, none, some,
}
use os_ass.Base.Outcome.{Outcome, ok, panic}
use os_ass.Kernel.Fs.Inode.{Inode}
use os_ass.Kernel.Fs.Cache.{
  ninode, Store, set_slot, Found, cached, missing, is_inode, remember, iget_loop, take_slot, iget,
}

-- The inode `(dev, inum)` is in use in the slot.
pub record Holds (s : Store) (i dev inum : ℕ) : Type 0 where
  pub slot : i < ninode
  pub used : 0 < (s.slots i).ref
  pub device : (s.slots i).dev ≡ dev
  pub number : (s.slots i).inum ≡ inum

-- No inode is in two slots.
pub record IsUnique (s : Store) : Type 0 where
  pub unique :
      (i j : ℕ)
      → i < ninode
      → j < ninode
      → 0 < (s.slots i).ref
      → 0 < (s.slots j).ref
      → (s.slots i).dev ≡ (s.slots j).dev
      → (s.slots i).inum ≡ (s.slots j).inum
      → i ≡ j

-- What the loop of `iget` finds among the slots before `n`.
data Scanned (slots : ℕ → Inode) (dev inum n : ℕ) : Found → Type 0 where
  found : {i : ℕ} → i < n → is_inode dev inum (slots i) ≡ true → Scanned slots dev inum n (cached i)
  spare :
      {e : ℕ}
      → e < n
      → (slots e).ref ≡ 0
      → ((k : ℕ) → k < n → is_inode dev inum (slots k) ≡ false)
      → Scanned slots dev inum n (missing (some e))
  full :
      ((k : ℕ) → k < n → (slots k).ref ≢ 0)
      → ((k : ℕ) → k < n → is_inode dev inum (slots k) ≡ false)
      → Scanned slots dev inum n (missing none)

-- The loop goes on from what it has seen before `i`.
iget_loop-Scanned :
    (slots : ℕ → Inode) (dev inum i rounds : ℕ) (empty : Option ℕ)
    → Scanned slots dev inum i (missing empty)
    → Scanned slots dev inum (i + rounds) (iget_loop slots dev inum i rounds empty)
unfolding iget_loop
iget_loop-Scanned slots dev inum i zero empty h =
    subst (λ n. Scanned slots dev inum n (missing empty)) (omega arith) h
iget_loop-Scanned slots dev inum i (suc rounds) empty h =
    elim (Bool-cases (is_inode dev inum (slots i))) [
      | inl e ↦ rw e (found (omega arith) e)
      | inr e ↦ rw e (
          subst
            (λ n.
              Scanned slots dev inum n
                (iget_loop slots dev inum (suc i) rounds (remember empty i (slots i))))
            (omega arith)
            (iget_loop-Scanned slots dev inum (suc i) rounds (remember empty i (slots i))
              (one_more empty h e)))
    ]
  where
    up_to_here :
        is_inode dev inum (slots i) ≡ false
        → ((k : ℕ) → k < i → is_inode dev inum (slots k) ≡ false)
        → (k : ℕ) → k < suc i
        → is_inode dev inum (slots k) ≡ false
    up_to_here e f k l = elim (Bool-cases (k == i)) [
      | inl q ↦ subst (λ m. is_inode dev inum (slots m) ≡ false) (sym (==→eq k i q)) e
      | inr q ↦ f k (ground (arith, q, l))
    ]

    one_more :
        (empty : Option ℕ)
        → Scanned slots dev inum i (missing empty)
        → is_inode dev inum (slots i) ≡ false
        → Scanned slots dev inum (suc i) (missing (remember empty i (slots i)))
    one_more (some x) (spare l r f) e = spare (omega (arith, l)) r (up_to_here e f)
    one_more none (full r f) e = elim (Bool-cases ((slots i).ref == 0)) [
      | inl z ↦ rw z (spare (omega arith) (==→eq _ 0 z) (up_to_here e f))
      | inr z ↦ rw z (full (used z) (up_to_here e f))
    ]
      where
        used : ((slots i).ref == 0) ≡ false → (k : ℕ) → k < suc i → (slots k).ref ≢ 0
        used z k l q = elim (Bool-cases (k == i)) [
          | inl t ↦ ==→ne _ 0 z (ap (λ m. (slots m).ref) (sym (==→eq k i t)) ∙ q)
          | inr t ↦ r k (ground (arith, t, l)) q
        ]

-- What `iget` gives: the slot of the inode, with one reference more, in a cache that still has no
-- inode twice. Either the inode was there, or it is put into a slot without references, not valid.
-- No other slot changes, nor does the disk. It panics only if every slot is in use by another inode.
pub data Gets (s : Store) (dev inum : ℕ) : Outcome (ℕ × Store) → Type 0 where
  gets :
      {i : ℕ} {s' : Store}
      → Holds s' i dev inum
      → (s'.slots i).ref ≡ (s.slots i).ref + 1
      → ((k : ℕ) → i ≢ k → s'.slots k ≡ s.slots k)
      → s'.disk ≡ s.disk
      → (Holds s i dev inum × ((s'.slots i).valid ≡ (s.slots i).valid))
        ⊎ (((s.slots i).ref ≡ 0) × ((s'.slots i).valid ≡ false) × ((k : ℕ) → ¬ Holds s k dev inum))
      → IsUnique s'
      → Gets s dev inum (ok (i, s'))
  full :
      ((k : ℕ) → k < ninode → (s.slots k).ref ≢ 0)
      → ((k : ℕ) → ¬ Holds s k dev inum)
      → Gets s dev inum (panic "iget: no inodes")

Holds-is_inode :
    (s : Store) (i dev inum : ℕ)
    → i < ninode
    → is_inode dev inum (s.slots i) ≡ true
    → Holds s i dev inum
Holds-is_inode s i dev inum l e = record {
  slot = l;
  used = ground (arith, e);
  device = ground (arith, e);
  number = ground (arith, e);
}

absent :
    (s : Store) (dev inum : ℕ)
    → ((k : ℕ) → k < ninode → is_inode dev inum (s.slots k) ≡ false)
    → (k : ℕ) → ¬ Holds s k dev inum
absent s dev inum f k h =
    let e = f k h.slot in absurd (ground (arith, e, h.used, h.device, h.number))

slot_self : (s : Store) (i : ℕ) (ip : Inode) → (set_slot s i ip).slots i ≡ ip
slot_self s i ip = let e : (i == i) ≡ true = ==_refl i in rw e refl

slot_other :
    (s : Store) (i : ℕ) (ip : Inode) (k : ℕ) → i ≢ k → (set_slot s i ip).slots k ≡ s.slots k
slot_other s i ip k ne = let e : (i == k) ≡ false = ne→== i k ne in rw e refl

-- The slot `i` gets an inode that no other slot has.
module _ (s : Store) (u : IsUnique s) (i : ℕ) (ip : Inode)
    (alone : (k : ℕ)
      → k < ninode
      → i ≢ k
      → 0 < (s.slots k).ref
      → (s.slots k).dev ≡ ip.dev
      → (s.slots k).inum ≡ ip.inum
      → ⊥) where
  set_slot-IsUnique : IsUnique (set_slot s i ip)
  set_slot-IsUnique = record {
    unique = λ a b. both a b (Bool-cases (i == a)) (Bool-cases (i == b));
  }
    where
      both :
          (a b : ℕ)
          → ((i == a) ≡ true) ⊎ ((i == a) ≡ false)
          → ((i == b) ≡ true) ⊎ ((i == b) ≡ false)
          → a < ninode
          → b < ninode
          → 0 < ((set_slot s i ip).slots a).ref
          → 0 < ((set_slot s i ip).slots b).ref
          → ((set_slot s i ip).slots a).dev ≡ ((set_slot s i ip).slots b).dev
          → ((set_slot s i ip).slots a).inum ≡ ((set_slot s i ip).slots b).inum
          → a ≡ b
      both a b (inl p) (inl q) = rw (p, q) (λ la lb ra rb d n. sym (==→eq i a p) ∙ ==→eq i b q)
      both a b (inl p) (inr q) =
          rw (p, q) (λ la lb ra rb d n. absurd (alone b lb (==→ne i b q) rb (sym d) (sym n)))
      both a b (inr p) (inl q) =
          rw (p, q) (λ la lb ra rb d n. absurd (alone a la (==→ne i a p) ra d n))
      both a b (inr p) (inr q) = rw (p, q) (λ la lb ra rb d n. u.unique a b la lb ra rb d n)

  -- With one reference more, it is what `iget` gives.
  module _ (dev inum : ℕ) (l : i < ninode) (r : ip.ref ≡ (s.slots i).ref + 1) (d : ip.dev ≡ dev)
      (n : ip.inum ≡ inum)
      (before : (Holds s i dev inum × (ip.valid ≡ (s.slots i).valid))
        ⊎ (((s.slots i).ref ≡ 0) × (ip.valid ≡ false) × ((k : ℕ) → ¬ Holds s k dev inum))) where
    set_slot-Gets : Gets s dev inum (ok (i, set_slot s i ip))
    set_slot-Gets =
        let e : (i == i) ≡ true = ==_refl i in
        gets (record { slot = l; used = rw (e, r) (omega arith); device = rw e d; number = rw e n })
          (rw e r) (slot_other s i ip) refl (rw e before) set_slot-IsUnique

-- `iget` on every branch, on a cache that has no inode twice.
pub iget_lem : (s : Store) (dev inum : ℕ) → IsUnique s → Gets s dev inum (iget dev inum s)
unfolding iget take_slot
iget_lem s dev inum u = taken (
    iget_loop-Scanned s.slots dev inum 0 ninode none
      (full (λ k l. absurd (omega (arith, l))) (λ k l. absurd (omega (arith, l)))))
  where
    taken :
        {f : Found}
        → Scanned s.slots dev inum (0 + ninode) f
        → Gets s dev inum (take_slot dev inum s f)
    taken (found {i = i} l e) =
        let h = Holds-is_inode s i dev inum (omega (arith, l)) e in
        set_slot-Gets s u i (record (s.slots i) { ref = (s.slots i).ref + 1 })
          (λ k lk ne used_k dk nk. ne (u.unique i k h.slot lk h.used used_k (sym dk) (sym nk))) dev
          inum h.slot refl h.device h.number (inl (h, refl))
    taken (spare {e = i} l r f) =
        let none_has = absent s dev inum (λ k l. f k (omega (arith, l))) in
        set_slot-Gets s u i
          (record (s.slots i) { dev = dev; inum = inum; ref = 1; busy = false; valid = false })
          (λ k lk ne used_k dk nk.
            none_has k (record { slot = lk; used = used_k; device = dk; number = nk }))
          dev inum (omega (arith, l)) (rw r refl) refl refl (inr (r, refl, none_has))
    taken (full r f) =
        full (λ k l. r k (omega (arith, l))) (absent s dev inum (λ k l. f k (omega (arith, l))))
