-- ===== src/Kernel/Kalloc/Chain.antt =====
-- The free list as a list of pages.
use os_ass.Base.{ℕ, ◌%◌, ◌≤◌, ◌<◌, ◌≡◌, ◌≢◌, List, [], ◌∷◌, All, arith, pgsize, phystop, v2p}
use os_ass.Kernel.Kalloc.{Kmem, fill_junk, store}

-- The `next` pointers from `r` on run through `ps` to the null pointer.
abbrev pub IsChain : (ℕ → ℕ) → List ℕ → ℕ → Type 0
IsChain mem [] r = r ≡ 0
IsChain mem (p ∷ ps) r = (r ≡ p) × IsChain mem ps (mem p)

abbrev pub IsDistinct : List ℕ → Type 0
IsDistinct [] = Unit
IsDistinct (p ∷ ps) = All (λ q. q ≢ p) ps × IsDistinct ps

-- A page that the allocator may manage.
pub record IsPage (end v : ℕ) : Type 0 where
  pub aligned : v % pgsize ≡ 0
  pub after_kernel : end ≤ v
  pub in_memory : v2p v < phystop

-- The allocator holds the pages `ps`, the next to be handed out first.
pub record Holds (end : ℕ) (k : Kmem) (ps : List ℕ) : Type 0 where
  pub chain : IsChain k.mem ps k.freelist
  pub pages : All (IsPage end) ps
  pub distinct : IsDistinct ps

-- Writing into a page that is not on the list leaves the list alone.
pub IsChain-store :
    (end : ℕ) (mem : ℕ → ℕ) (ps : List ℕ) (r v w : ℕ)
    → All (IsPage end) ps
    → v % pgsize ≡ 0
    → All (λ q. q ≢ v) ps
    → IsChain mem ps r
    → IsChain (store (fill_junk mem v) v w) ps r
IsChain-store end mem [] r v w pages al out c = c
IsChain-store end mem (p ∷ ps) r v w pages al out c =
    (c.0, ground (arith, IsChain-store end mem ps (mem p) v w pages.1 al out.1 c.1, kept))
  where
    kept : store (fill_junk mem v) v w p ≡ mem p
    kept = let a = pages.0.aligned in ground arith
