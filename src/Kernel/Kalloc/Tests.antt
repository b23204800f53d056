-- ===== src/Kernel/Kalloc/Tests.antt =====
-- The page allocator at concrete addresses: a kernel that ends at 0x80100000.
use os_ass.Base.{ℕ, ◌≡◌, ◌≢◌, ◌↔◌, ◌⊎◌, refl, true, false, List, [], ◌∷◌, All, arith, phystop, p2v}
use os_ass.Base.Outcome.{ok, ◌>>=◌}
use os_ass.Kernel.Kalloc.{Kmem, kfree, kinit1, kinit2, kalloc}
use os_ass.Kernel.Kalloc.Chain.{Holds}
use os_ass.Kernel.Kalloc.Refine.{kfree_refines, kalloc_refines}
use os_ass.Kernel.Kalloc.Range.{In, IsPageIn, boot_frees_all}

abbrev fresh : Kmem
fresh = record { use_lock = false; freelist = 0; mem = λ a. 0 }

abbrev one_page : Kmem
one_page = record { use_lock = true; freelist = 0x80200000; mem = λ a. 0 }

one_page-Holds : Holds 0x80100000 one_page (0x80200000 ∷ [])
one_page-Holds = record {
  chain = (refl, refl);
  pages = (record { aligned = refl; after_kernel = omega arith; in_memory = omega arith }, tt);
  distinct = (tt, tt);
}

kfree_refines_example :
    (k' : Kmem) × (kfree 0x80100000 0x80300000 one_page ≡ ok k')
    × Holds 0x80100000 k' (0x80300000 ∷ 0x80200000 ∷ [])
    × (k'.use_lock ≡ true)
kfree_refines_example =
    kfree_refines 0x80100000 0x80300000 one_page (0x80200000 ∷ []) one_page-Holds
      (record { aligned = refl; after_kernel = omega arith; in_memory = omega arith }) (omega arith)

kalloc_refines_example :
    ((◌≡◌ {A = List ℕ} (0x80200000 ∷ []) []) × (kalloc one_page ≡ (0, one_page)))
    ⊎ ((p : ℕ) × (rest : List ℕ) × (◌≡◌ {A = List ℕ} (0x80200000 ∷ []) (p ∷ rest))
        × ((kalloc one_page).0 ≡ p)
        × Holds 0x80100000 (kalloc one_page).1 rest
        × All (λ q. q ≢ p) rest
        × ((kalloc one_page).1.mem ≡ one_page.mem))
kalloc_refines_example =
    kalloc_refines 0x80100000 one_page (0x80200000 ∷ []) (omega arith) one_page-Holds

boot_frees_all_example :
    (k' : Kmem) × ((kinit1 0x80100000 0x80100000 (p2v 0x400000) fresh
        >>= kinit2 0x80100000 (p2v 0x400000) (p2v phystop))
      ≡ ok k')
    × ((ps : List ℕ) × Holds 0x80100000 k' ps
        × ((v : ℕ) → In v ps ↔ IsPageIn 0x80100000 (p2v phystop) v))
    × (k'.use_lock ≡ true)
boot_frees_all_example = boot_frees_all 0x80100000 fresh (omega arith) (omega arith) refl
