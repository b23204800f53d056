-- ===== src/Kernel/Fs/Cache/Total.antt =====
-- The functions on the inode cache end, and what `iput` does to the references.
use os_ass.Base.{
  ℕ, zero, suc, ◌-◌, ◌*◌, ◌/◌, ◌%◌, ◌≡◌, ◌≢◌, refl, ap, ◌∙◌, Bool, true, false, ◌&&◌, ◌||◌, not,
  ◌==◌, ltb, update, Bool-cases, inl, inr, ne→==, ==_refl, Option, none, some,
}
use os_ass.Base.Outcome.{
  Outcome, ok, Ends, bind-Ends, Any, weaken-Ends, if-Ends, gives, panics, waits,
}
use os_ass.Kernel.Syscall.{word_at}
use os_ass.Kernel.Fs.{Disk, readsb, bblock, bpb, digit, balloc, bfree}
use os_ass.Kernel.Fs.Alloc.{Taken, takes, none_left, balloc-Taken}
use os_ass.Kernel.Fs.Inode.{Inode, ndirect, nindirect}
use os_ass.Kernel.Fs.Content.{trunc_direct, trunc_entries, trunc_indirect, itrunc}
use os_ass.Kernel.Fs.Cache.{
  Store, Found, cached, missing, iget_loop, take_slot, iget, ninode, read_inode, ilock, iunlock,
  free_inode, drop_ref, iput, iunlockput,
}

pub balloc-Ends : (d : Disk) → Ends Any (balloc d)
balloc-Ends d = ends (balloc-Taken d)
  where
    ends : {o : Outcome (ℕ × Disk)} → Taken d o → Ends Any o
    ends (takes l e f) = gives tt
    ends (none_left f) = panics

bfree-Ends : (d : Disk) (b : ℕ) → Ends Any (bfree d b)
unfolding bfree
bfree-Ends d b =
    elim (Bool-cases (digit (d (bblock b (readsb d).ninodes) (b % bpb / 8)) (b % bpb % 8))) [
      | inl e ↦ rw e (gives tt)
      | inr e ↦ rw e panics
    ]

trunc_direct-Ends :
    (i rounds : ℕ) (ip : Inode) (d : Disk)
    → Ends (λ r. r.0.ref ≡ ip.ref) (trunc_direct i rounds ip d)
unfolding trunc_direct
trunc_direct-Ends i zero ip d = gives refl
trunc_direct-Ends i (suc rounds) ip d = elim (Bool-cases (ip.addrs i == 0)) [
  | inl e ↦ rw e (trunc_direct-Ends (suc i) rounds ip d)
  | inr e ↦ rw e (
      bind-Ends Any (λ r. r.0.ref ≡ ip.ref) (bfree d (ip.addrs i))
        (λ d1. trunc_direct (suc i) rounds (record ip { addrs = update ip.addrs i 0 }) d1)
        (bfree-Ends d (ip.addrs i))
        (λ d1 t. trunc_direct-Ends (suc i) rounds (record ip { addrs = update ip.addrs i 0 }) d1))
]

trunc_entries-Ends : (a : ℕ → ℕ) (j rounds : ℕ) (d : Disk) → Ends Any (trunc_entries a j rounds d)
unfolding trunc_entries
trunc_entries-Ends a j zero d = gives tt
trunc_entries-Ends a j (suc rounds) d = elim (Bool-cases (word_at a (4 * j) == 0)) [
  | inl e ↦ rw e (trunc_entries-Ends a (suc j) rounds d)
  | inr e ↦ rw e (
      bind-Ends Any Any (bfree d (word_at a (4 * j))) (λ d1. trunc_entries a (suc j) rounds d1)
        (bfree-Ends d (word_at a (4 * j))) (λ d1 t. trunc_entries-Ends a (suc j) rounds d1))
]

trunc_indirect-Ends : (ip : Inode) (d : Disk) → Ends (λ r. r.0.ref ≡ ip.ref) (trunc_indirect ip d)
unfolding trunc_indirect
trunc_indirect-Ends ip d = elim (Bool-cases (ip.addrs ndirect == 0)) [
  | inl e ↦ rw e (gives refl)
  | inr e ↦ rw e (
      bind-Ends Any (λ r. r.0.ref ≡ ip.ref) (trunc_entries (d (ip.addrs ndirect)) 0 nindirect d) _
        (trunc_entries-Ends (d (ip.addrs ndirect)) 0 nindirect d)
        (λ d1 t.
          bind-Ends Any (λ r. r.0.ref ≡ ip.ref) (bfree d1 (ip.addrs ndirect)) _
            (bfree-Ends d1 (ip.addrs ndirect)) (λ d2 u. gives refl)))
]

itrunc-Ends : (ip : Inode) (d : Disk) → Ends (λ r. r.0.ref ≡ ip.ref) (itrunc ip d)
unfolding itrunc
itrunc-Ends ip d =
    bind-Ends (λ r. r.0.ref ≡ ip.ref) (λ r. r.0.ref ≡ ip.ref) (trunc_direct 0 ndirect ip d) _
      (trunc_direct-Ends 0 ndirect ip d)
      (λ r e.
        bind-Ends (λ u. u.0.ref ≡ r.0.ref) (λ u. u.0.ref ≡ ip.ref) (trunc_indirect r.0 r.1) _
          (trunc_indirect-Ends r.0 r.1) (λ u f. gives (f ∙ e)))

-- One reference less in slot `i`, and the other slots as they were.
pub record Dropped (i : ℕ) (s s' : Store) : Type 0 where
  pub here : (s'.slots i).ref ≡ (s.slots i).ref - 1
  pub others : (k : ℕ) → i ≢ k → s'.slots k ≡ s.slots k

update_self : (f : ℕ → Inode) (i : ℕ) (ip : Inode) → update f i ip i ≡ ip
update_self f i ip = let e : (i == i) ≡ true = ==_refl i in rw e refl

update_other : (f : ℕ → Inode) (i : ℕ) (ip : Inode) (k : ℕ) → i ≢ k → update f i ip k ≡ f k
update_other f i ip k ne = let e : (i == k) ≡ false = ne→== i k ne in rw e refl

record Freed (i : ℕ) (s s' : Store) : Type 0 where
  here : (s'.slots i).ref ≡ (s.slots i).ref
  others : (k : ℕ) → i ≢ k → s'.slots k ≡ s.slots k

free_inode-Ends : (i : ℕ) (s : Store) → Ends (Freed i s) (free_inode i s)
unfolding free_inode
free_inode-Ends i s =
    bind-Ends (λ r. r.0.ref ≡ (s.slots i).ref) (Freed i s)
      (itrunc (record (s.slots i) { busy = true }) s.disk) _
      (itrunc-Ends (record (s.slots i) { busy = true }) s.disk)
      (λ r e. gives (record {
        here = ap (λ x. x.ref) (update_self s.slots i _) ∙ e;
        others = λ k ne. update_other s.slots i _ k ne;
      }))

-- `iput` ends, drops one reference and touches no other inode of the cache.
pub iput-Ends : (i : ℕ) (s : Store) → Ends (Dropped i s) (iput i s)
unfolding iput
iput-Ends i s =
    elim (Bool-cases ((s.slots i).ref == 1 && (s.slots i).valid && (s.slots i).nlink == 0)) [
      | inr e ↦ rw e (gives (dropped s (record { here = refl; others = λ k ne. refl })))
      | inl e ↦ elim (Bool-cases (s.slots i).busy) [
        | inl b ↦ rw (e, b) panics
        | inr b ↦
            rw (e, b)
              (bind-Ends (Freed i s) (Dropped i s) (free_inode i s) _ (free_inode-Ends i s)
                (λ s1 f. gives (dropped s1 f)))
      ]
    ]
  where
    dropped : (s1 : Store) → Freed i s s1 → Dropped i s (drop_ref i s1)
    dropped s1 f = record {
      here = ap (λ x. x.ref) (update_self s1.slots i _) ∙ ap (λ x. x - 1) f.here;
      others = λ k ne. update_other s1.slots i _ k ne ∙ f.others k ne;
    }

pub iget-Ends : (dev inum : ℕ) (s : Store) → Ends Any (iget dev inum s)
unfolding iget
iget-Ends dev inum s = ends (iget_loop s.slots dev inum 0 ninode none)
  where
    ends : (f : Found) → Ends Any (take_slot dev inum s f)
    ends (cached i) = unfold take_slot in gives tt
    ends (missing none) = unfold take_slot in panics
    ends (missing (some i)) = unfold take_slot in gives tt

read_inode-Ends : (i : ℕ) (s : Store) → Ends Any (read_inode i s)
unfolding read_inode
read_inode-Ends i s = if-Ends Any (s.slots i).valid (gives tt) (if-Ends Any _ panics (gives tt))

pub ilock-Ends : (p : Option ℕ) (s : Store) → Ends Any (ilock p s)
unfolding ilock
ilock-Ends none s = panics
ilock-Ends (some i) s = elim (Bool-cases (ltb (s.slots i).ref 1)) [
  | inl e ↦ rw e panics
  | inr e ↦ elim (Bool-cases (s.slots i).busy) [
    | inl b ↦ rw (e, b) waits
    | inr b ↦ rw (e, b) (read_inode-Ends i _)
  ]
]

pub iunlock-Ends : (p : Option ℕ) (s : Store) → Ends Any (iunlock p s)
unfolding iunlock
iunlock-Ends none s = panics
iunlock-Ends (some i) s = elim (Bool-cases (not (s.slots i).busy || ltb (s.slots i).ref 1)) [
  | inl e ↦ rw e panics
  | inr e ↦ rw e (gives tt)
]

pub iunlockput-Ends : (i : ℕ) (s : Store) → Ends Any (iunlockput i s)
unfolding iunlockput
iunlockput-Ends i s =
    bind-Ends Any Any (iunlock (some i) s) _ (iunlock-Ends (some i) s)
      (λ s1 t. weaken-Ends (Dropped i s1) Any (λ a d. tt) (iput-Ends i s1))

-- The last reference in the cache to an inode without links.
abbrev pub is_last : Inode → Bool
is_last ip = ip.ref == 1 && ip.valid && ip.nlink == 0

pub iput-drop_ref : (i : ℕ) (s : Store) → is_last (s.slots i) ≡ false → iput i s ≡ ok (drop_ref i s)
unfolding iput
iput-drop_ref i s e = rw e refl
