-- ===== src/Kernel/Kalloc/Range.antt =====
-- `freerange` frees the whole pages of a range, and start-up frees all of memory above the kernel.
use os_ass.Base.{
  ℕ, zero, suc, ◌+◌, ◌-◌, ◌*◌, ◌/◌, ◌%◌, ◌≤◌, ◌<◌, ◌≡◌, ◌≢◌, ◌↔◌, ◌⊎◌, inl, inr, refl, subst, ◌∙◌,
  true, false, List, [], ◌∷◌, All, arith, leb, add32, u32_mod, pgsize, phystop, kernbase, p2v,
  pgroundup,
}
use native.Mathlib.Decide.{ℕ_discrete, dec_le}
use os_ass.Base.Outcome.{ok, ◌>>=◌}
use os_ass.Kernel.Kalloc.{Kmem, kfree, freerange_loop, freerange, kinit1, kinit2}
use os_ass.Kernel.Kalloc.Chain.{IsPage, Holds}
use os_ass.Kernel.Kalloc.Refine.{kfree_refines}

-- The stack after `n` pages from `p` on were pushed.
pub pushed : ℕ → ℕ → List ℕ → List ℕ
pushed zero p ps = ps
pushed (suc n) p ps = pushed n (p + pgsize) (p ∷ ps)

abbrev pub In : ℕ → List ℕ → Type 0
In v [] = ⊥
In v (p ∷ ps) = (v ≡ p) ⊎ In v ps

-- The pages that lie wholly between `lo` and `hi`.
abbrev pub IsPageIn : ℕ → ℕ → ℕ → Type 0
IsPageIn lo hi v = (v % pgsize ≡ 0) × (lo ≤ v) × (v + pgsize ≤ hi)

All-lt-ne : (b : ℕ) (ps : List ℕ) → All (λ q. q < b) ps → All (λ q. q ≢ b) ps
All-lt-ne b [] h = tt
All-lt-ne b (p ∷ ps) h = ((λ e. omega arith), All-lt-ne b ps h.1)

All-lt_weaken : (b c : ℕ) (ps : List ℕ) → b ≤ c → All (λ q. q < b) ps → All (λ q. q < c) ps
All-lt_weaken b c [] le h = tt
All-lt_weaken b c (p ∷ ps) le h = (omega arith, All-lt_weaken b c ps le h.1)

-- The range lies in the physical memory that the kernel maps.
pub record IsRange (end lo hi : ℕ) : Type 0 where
  pub high : kernbase ≤ end
  pub start : end ≤ lo
  pub top : hi ≤ kernbase + phystop

freerange_loop_step :
    (end fuel p hi : ℕ) (k k1 k2 : Kmem)
    → p + pgsize ≤ hi
    → p + pgsize < u32_mod
    → kfree end p k ≡ ok k1
    → freerange_loop end fuel (p + pgsize) hi k1 ≡ ok k2
    → freerange_loop end (suc fuel) p hi k ≡ ok k2
unfolding freerange_loop
freerange_loop_step end fuel p hi k k1 k2 le w freed ran =
    let more : leb (add32 p pgsize) hi ≡ true = ground arith in
    let step : add32 p pgsize ≡ p + pgsize = omega arith in rw (more, freed) (rw step ran)

freerange_loop_lem :
    (end n fuel p hi : ℕ) (k : Kmem) (ps : List ℕ)
    → IsRange end p hi
    → p % pgsize ≡ 0
    → p + pgsize < u32_mod
    → n ≡ (hi - p) / pgsize
    → n < fuel
    → Holds end k ps
    → All (λ q. q < p) ps
    → (k' : Kmem) × (freerange_loop end fuel p hi k ≡ ok k')
      × Holds end k' (pushed n p ps)
      × (k'.use_lock ≡ k.use_lock)
      × All (λ q. q < p + n * pgsize) (pushed n p ps)
unfolding freerange_loop pushed
freerange_loop_lem end n zero p hi k ps r al w e f h below = absurd (omega arith)
freerange_loop_lem end zero (suc fuel) p hi k ps r al w e f h below =
    let short : leb (add32 p pgsize) hi ≡ false = ground arith in
    (k, rw short, h, refl, All-lt_weaken p (p + 0 * pgsize) ps (omega arith) below)
freerange_loop_lem end (suc n) (suc fuel) p hi k ps r al w e f h below =
    let (k1, freed, h1, same) =
      kfree_refines end p k ps h (page p r al (omega arith)) (All-lt-ne p ps below) in
    let (k2, ran, h2, same2, below2) =
      freerange_loop_lem end n fuel (p + pgsize) hi k1 (p ∷ ps)
        (record { high = r.high; start = let a = r.start in omega arith; top = r.top })
        (omega arith) (let t = r.top in omega arith) (omega arith) (omega arith) h1
        (omega arith, All-lt_weaken p (p + pgsize) ps (omega arith) below) in
    (
      k2,
      freerange_loop_step end fuel p hi k k1 k2 (omega arith) w freed ran,
      h2,
      same2 ∙ same,
      subst (λ b. All (λ q. q < b) (pushed n (p + pgsize) (p ∷ ps))) (omega arith) below2,
    )
  where
    page : (p : ℕ) → IsRange end p hi → p % pgsize ≡ 0 → p + pgsize ≤ hi → IsPage end p
    page p r al le = record {
      aligned = al;
      after_kernel = r.start;
      in_memory = let a = r.high in let b = r.start in let c = r.top in omega arith;
    }

-- What the stack holds after the pushes.
In-pushed :
    (n p v : ℕ) (ps : List ℕ)
    → p % pgsize ≡ 0
    → In v (pushed n p ps) ↔ (In v ps ⊎ IsPageIn p (p + n * pgsize) v)
unfolding pushed
In-pushed zero p v ps al =
    ((λ h. inl h), (λ h. elim h [ inl i ↦ i | inr q ↦ absurd (omega arith) ]))
In-pushed (suc n) p v ps al =
    let ih = In-pushed n (p + pgsize) v (p ∷ ps) (omega arith) in
    (
      (λ h. elim (ih.0 h) [
        | inl (inl e) ↦ inr (omega arith)
        | inl (inr i) ↦ inl i
        | inr q ↦ inr (omega arith)
      ]),
      (λ h. elim h [ inl i ↦ ih.1 (inl (inr i)) | inr q ↦ ih.1 (first_or_later q) ]),
    )
  where
    first_or_later :
        IsPageIn p (p + suc n * pgsize) v
        → In v (p ∷ ps) ⊎ IsPageIn (p + pgsize) (p + pgsize + n * pgsize) v
    first_or_later q = elim (ℕ_discrete v p) [ yes e ↦ inl (inl e) | no ne ↦ inr (omega arith) ]

All-of-In : (b : ℕ) (ps : List ℕ) → ((v : ℕ) → In v ps → v < b) → All (λ q. q < b) ps
All-of-In b [] h = tt
All-of-In b (p ∷ ps) h = (h p (inl refl), All-of-In b ps (λ v i. h v (inr i)))

In-All : (b v : ℕ) (ps : List ℕ) → All (λ q. q < b) ps → In v ps → v < b
In-All b v [] h i = absurd i
In-All b v (p ∷ ps) h i = elim i [
  | inl e ↦ (let a = h.0 in omega arith)
  | inr j ↦ In-All b v ps h.1 j
]

-- `freerange` on a range above all free pages frees exactly the whole pages of the range: it does
-- not panic, it ends, and the free list grows by those pages and by nothing else.
pub freerange_lem :
    (end lo hi : ℕ) (k : Kmem) (ps : List ℕ)
    → IsRange end lo hi
    → lo ≤ hi
    → Holds end k ps
    → All (λ q. q < lo) ps
    → (k' : Kmem) × (freerange end lo hi k ≡ ok k')
      × ((qs : List ℕ) × Holds end k' qs
          × ((v : ℕ) → In v qs ↔ (In v ps ⊎ IsPageIn lo hi v))
          × All (λ q. q < hi) qs)
      × (k'.use_lock ≡ k.use_lock)
unfolding freerange
freerange_lem end lo hi k ps r le h below =
    let t = r.top in
    let p = pgroundup lo in
    let n = (hi - p) / pgsize in
    let (k', ran, h', same, b) =
      freerange_loop_lem end n (suc (hi / pgsize)) p hi k ps
        (record { high = r.high; start = let a = r.start in omega arith; top = r.top })
        (omega arith) (omega arith) refl (omega arith) h
        (All-lt_weaken lo p ps (omega arith) below) in
    (
      k',
      ran,
      (
        pushed n p ps,
        h',
        (λ v.
            let e = In-pushed n p v ps (omega arith) in
            (
              (λ i. elim (e.0 i) [ inl o ↦ inl o | inr q ↦ inr (omega arith) ]),
              (λ s. elim s [ inl o ↦ e.1 (inl o) | inr q ↦ e.1 (inr (omega arith)) ]),
            )),
        All-of-In hi (pushed n p ps) (λ v i. elim ((In-pushed n p v ps (omega arith)).0 i) [
          | inl o ↦ (let a = In-All lo v ps below o in omega arith)
          | inr q ↦ omega arith
        ]),
      ),
      same,
    )

-- Start-up, `kinit1(end, P2V(4*1024*1024))` and then `kinit2(P2V(4*1024*1024), P2V(PHYSTOP))` as
-- main.c calls them, on an empty free list and for a kernel that ends below 4 MB: it does not
-- panic, afterwards the free list holds exactly the whole pages between the kernel and the top of
-- memory, each once, and the lock is in use.
pub boot_frees_all :
    (end : ℕ) (k : Kmem)
    → kernbase ≤ end
    → end ≤ p2v 0x400000
    → k.freelist ≡ 0
    → (k' : Kmem) × ((kinit1 end end (p2v 0x400000) k >>= kinit2 end (p2v 0x400000) (p2v phystop))
        ≡ ok k')
      × ((ps : List ℕ) × Holds end k' ps × ((v : ℕ) → In v ps ↔ IsPageIn end (p2v phystop) v))
      × (k'.use_lock ≡ true)
unfolding kinit1 kinit2
boot_frees_all end k high low e =
    let k0 = record k { use_lock = false } in
    let none_yet : Holds end k0 [] = record { chain = e; pages = tt; distinct = tt } in
    let (k1, ran1, (ps, h1, in1, below1), same1) =
      freerange_lem end end (p2v 0x400000) k0 []
        (record { high = high; start = omega arith; top = omega arith }) low none_yet tt in
    let (k2, ran2, (qs, h2, in2, below2), same2) =
      freerange_lem end (p2v 0x400000) (p2v phystop) k1 ps
        (record { high = high; start = low; top = omega arith }) (omega arith) h1 below1 in
    (
      record k2 { use_lock = true },
      rw (ran1, ran2) refl,
      (
        qs,
        record { chain = h2.chain; pages = h2.pages; distinct = h2.distinct },
        λ v. (
          (λ i. elim ((in2 v).0 i) [
            | inl j ↦ (elim ((in1 v).0 j) [ inl o ↦ absurd o | inr q ↦ omega arith ])
            | inr q ↦ omega arith
          ]),
          (λ q. elim (dec_le (v + pgsize) (p2v 0x400000)) [
            | yes le ↦ (in2 v).1 (inl ((in1 v).1 (inr (omega arith))))
            | no gt ↦ (in2 v).1 (inr (omega arith))
          ]),
        ),
      ),
      refl,
    )
