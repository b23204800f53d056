-- ===== src/Kernel/Kalloc.antt =====
-- kalloc.c: the allocator of physical pages. `kmem.lock` makes `kfree` and `kalloc` atomic
-- (Spinlock.Exclusion), so each is one function on the state.
pub mod Chain
pub mod Refine
pub mod Range
mod Tests
use os_ass.Base.{
  ℕ, zero, suc, ◌+◌, ◌/◌, ◌%◌, Bool, true, false, ◌&&◌, ◌||◌, not, ltb, leb, ◌==◌, if◌then◌else◌,
  add32, pgsize, phystop, v2p, pgroundup,
}
use os_ass.Base.Outcome.{Outcome, ok, panic, hang, ◌>>=◌}

-- `kmem`, and the words of memory: a free page holds the `next` pointer of its `struct run` in its
-- first word.
pub record Kmem : Type 0 where
  pub use_lock : Bool
  pub freelist : ℕ
  pub mem : ℕ → ℕ

-- `memset(v, 1, PGSIZE)`, a word at a time
abbrev pub fill_junk : (ℕ → ℕ) → ℕ → ℕ → ℕ
fill_junk mem v a = if leb v a && ltb a (v + pgsize) then 0x01010101 else mem a

abbrev pub store : (ℕ → ℕ) → ℕ → ℕ → ℕ → ℕ
store mem v w a = if v == a then w else mem a

-- `end` is the first address after the kernel, which the linker gives.
module _ (end : ℕ) where
  pub kfree : ℕ → Kmem → Outcome Kmem
  kfree v k =
      if not (v % pgsize == 0) || ltb v end || leb phystop (v2p v)
      then panic "kfree"
      else ok (record k { freelist = v; mem = store (fill_junk k.mem v) v k.freelist })

  -- The loop of `freerange`, on fuel.
  pub freerange_loop : ℕ → ℕ → ℕ → Kmem → Outcome Kmem
  freerange_loop zero p vend k = hang
  freerange_loop (suc fuel) p vend k =
      let rest = kfree p k >>= freerange_loop fuel (add32 p pgsize) vend in
      if leb (add32 p pgsize) vend then rest else ok k

  -- One round for each page below `vend`, and one for the last test.
  pub freerange : ℕ → ℕ → Kmem → Outcome Kmem
  freerange vstart vend k = freerange_loop (suc (vend / pgsize)) (pgroundup vstart) vend k

  pub kinit1 : ℕ → ℕ → Kmem → Outcome Kmem
  kinit1 vstart vend k = freerange vstart vend (record k { use_lock = false })

  pub kinit2 : ℕ → ℕ → Kmem → Outcome Kmem
  kinit2 vstart vend k = freerange vstart vend k >>= λ k'. ok (record k' { use_lock = true })

-- The page, or 0 if there is none, and the new state.
pub kalloc : Kmem → ℕ × Kmem
kalloc k = let r = k.freelist in if r == 0 then (r, k) else (r, record k { freelist = k.mem r })
