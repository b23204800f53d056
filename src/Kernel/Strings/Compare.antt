-- ===== src/Kernel/Strings/Compare.antt =====
-- `memcmp` finds the first difference.
use os_ass.Base.{
  ℕ, zero, suc, ◌+◌, ◌<◌, ◌≡◌, ◌≢◌, sym, ap, ap₂, ◌∙◌, subst, ◌==◌, if◌then◌else◌, arith,
  Bool-cases, inl, inr, ==→eq, ==→ne,
}
use os_ass.Kernel.Strings.{Difference, same, bytes, memcmp}

-- What `memcmp` answers for two blocks of `n` bytes.
pub data Compared (mem : ℕ → ℕ) (s1 s2 n : ℕ) : Difference → Type 0 where
  equal : ((k : ℕ) → k < n → mem (s1 + k) ≡ mem (s2 + k)) → Compared mem s1 s2 n same
  differ :
      {k : ℕ}
      → k < n
      → mem (s1 + k) ≢ mem (s2 + k)
      → ((j : ℕ) → j < k → mem (s1 + j) ≡ mem (s2 + j))
      → Compared mem s1 s2 n (bytes (mem (s1 + k)) (mem (s2 + k)))

-- Equality at 0 and, one further on, below `m` is equality below `m + 1`.
one_more :
    (mem : ℕ → ℕ) (s1 s2 m : ℕ)
    → mem s1 ≡ mem s2
    → ((k : ℕ) → k < m → mem (s1 + 1 + k) ≡ mem (s2 + 1 + k))
    → (k : ℕ) → k < suc m
    → mem (s1 + k) ≡ mem (s2 + k)
one_more mem s1 s2 m e rest zero l = ap mem (omega arith) ∙ e ∙ ap mem (omega arith)
one_more mem s1 s2 m e rest (suc k) l =
    ap mem (omega arith) ∙ rest k (omega (arith, l)) ∙ ap mem (omega arith)

later-Compared :
    (mem : ℕ → ℕ) (s1 s2 n : ℕ) {d : Difference}
    → mem s1 ≡ mem s2
    → Compared mem (s1 + 1) (s2 + 1) n d
    → Compared mem s1 s2 (suc n) d
later-Compared mem s1 s2 n e (equal h) = equal (one_more mem s1 s2 n e h)
later-Compared mem s1 s2 n e (differ {k} l ne before) =
    subst (Compared mem s1 s2 (suc n))
      (ap₂ (λ a b. bytes (mem a) (mem b)) (omega arith) (omega arith))
      (differ {k = suc k} (omega (arith, l))
        (λ q. ne (ap mem (omega arith) ∙ q ∙ ap mem (omega arith))) (one_more mem s1 s2 k e before))

first-Compared :
    (mem : ℕ → ℕ) (s1 s2 n : ℕ)
    → mem s1 ≢ mem s2
    → Compared mem s1 s2 (suc n) (bytes (mem s1) (mem s2))
first-Compared mem s1 s2 n ne =
    subst (Compared mem s1 s2 (suc n))
      (ap₂ (λ a b. bytes (mem a) (mem b)) (omega arith) (omega arith))
      (differ {k = 0} (omega arith) (λ q. ne (ap mem (omega arith) ∙ q ∙ ap mem (omega arith)))
        (λ j l. absurd (omega (arith, l))))

-- `memcmp` returns 0 if the two blocks are equal, and otherwise the difference of the first two
-- bytes that differ.
pub memcmp_lem : (mem : ℕ → ℕ) (s1 s2 n : ℕ) → Compared mem s1 s2 n (memcmp mem s1 s2 n)
unfolding memcmp
memcmp_lem mem s1 s2 zero = equal (λ k l. absurd (omega (arith, l)))
memcmp_lem mem s1 s2 (suc n) = elim (Bool-cases (mem s1 == mem s2)) [
  | inl e ↦
      subst (λ b. Compared mem s1 s2 (suc n) (if b then later else bytes (mem s1) (mem s2))) (sym e)
        (later-Compared mem s1 s2 n (==→eq (mem s1) (mem s2) e)
          (memcmp_lem mem (s1 + 1) (s2 + 1) n))
  | inr e ↦
      subst (λ b. Compared mem s1 s2 (suc n) (if b then later else bytes (mem s1) (mem s2))) (sym e)
        (first-Compared mem s1 s2 n (==→ne (mem s1) (mem s2) e))
]
  where
    later : Difference
    later = memcmp mem (s1 + 1) (s2 + 1) n
