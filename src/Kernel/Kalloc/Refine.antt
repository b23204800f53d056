-- ===== src/Kernel/Kalloc/Refine.antt =====
-- `kfree` and `kalloc` are the push and pop of a stack of distinct pages.
use os_ass.Base.{ℕ, ◌<◌, ◌≡◌, ◌≢◌, ◌⊎◌, inl, inr, refl, List, [], ◌∷◌, All, arith, ==_refl}
use os_ass.Base.Outcome.{ok}
use os_ass.Kernel.Kalloc.{Kmem, fill_junk, store, kfree, kalloc}
use os_ass.Kernel.Kalloc.Chain.{IsPage, Holds, IsChain-store}

-- Freeing a page that the allocator manages and that is not free puts it in front of the list and
-- keeps the rest.
pub kfree_refines :
    (end v : ℕ) (k : Kmem) (ps : List ℕ)
    → Holds end k ps
    → IsPage end v
    → All (λ q. q ≢ v) ps
    → (k' : Kmem) × (kfree end v k ≡ ok k') × Holds end k' (v ∷ ps) × (k'.use_lock ≡ k.use_lock)
unfolding kfree
kfree_refines end v k ps h page out = (
  record k { freelist = v; mem = store (fill_junk k.mem v) v k.freelist },
  ground (arith),
  record {
    chain = (
      refl,
      rw (==_refl v)
          (IsChain-store end k.mem ps k.freelist v k.freelist h.pages page.aligned out h.chain),
    );
    pages = (page, h.pages);
    distinct = (out, h.distinct);
  },
  refl,
)

kalloc-nil : (k : Kmem) → k.freelist ≡ 0 → kalloc k ≡ (0, k)
unfolding kalloc
kalloc-nil k e = ground arith

kalloc-cons :
    (k : Kmem) (p : ℕ) → k.freelist ≡ p → p ≢ 0 → kalloc k ≡ (p, record k { freelist = k.mem p })
unfolding kalloc
kalloc-cons k p e n = ground arith

-- `kalloc` hands out the first free page and keeps the others, so a page is never handed out
-- twice; with no free page it returns 0 and changes nothing.
pub kalloc_refines :
    (end : ℕ) (k : Kmem) (ps : List ℕ)
    → 0 < end
    → Holds end k ps
    → ((ps ≡ []) × (kalloc k ≡ (0, k)))
      ⊎ ((p : ℕ) × (rest : List ℕ) × (ps ≡ p ∷ rest)
          × ((kalloc k).0 ≡ p)
          × Holds end (kalloc k).1 rest
          × All (λ q. q ≢ p) rest
          × ((kalloc k).1.mem ≡ k.mem))
kalloc_refines end k [] pos h = inl (refl, kalloc-nil k h.chain)
kalloc_refines end k (p ∷ rest) pos h = inr (
    rw (kalloc-cons k p h.chain.0 (let page = h.pages.0 in omega arith)) (
      p,
      rest,
      refl,
      refl,
      record { chain = h.chain.1; pages = h.pages.1; distinct = h.distinct.1 },
      h.distinct.0,
      refl,
    ))
