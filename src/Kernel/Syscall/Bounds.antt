-- ===== src/Kernel/Syscall/Bounds.antt =====
-- What the argument checks of syscall.c let through.
use os_ass.Base.{
  ℕ, zero, suc, ◌+◌, ◌-◌, ◌^◌, ◌≤◌, ◌<◌, ◌≡◌, ◌≢◌, refl, sym, ap, ◌∙◌, subst, Bool, true, false,
  not, ◌||◌, Option, none, some, ltb, leb, ◌==◌, if◌then◌else◌, add32, arith, Bool-cases,
  Option-cases, inl, inr, ==→eq, ==→ne,
}
use mathlib.Core.Option.{some-ne-none}
use os_ass.Kernel.Syscall.{word_at, fetchint, str_loop, fetchstr, argint, check_block, argptr}

same_test :
    (sz addr : ℕ)
    → sz ≤ 2 ^ 31
    → addr < 2 ^ 32
    → (leb sz addr || ltb sz (add32 addr 4)) ≡ not (leb (addr + 4) sz)
same_test sz addr h l = ground (arith, h, l)

-- For memory below the kernel, `fetchint` reads the word exactly when all four bytes are the
-- caller's, although the sum in its test may wrap.
pub fetchint_lem :
    (mem : ℕ → ℕ) (sz addr : ℕ)
    → sz ≤ 2 ^ 31
    → addr < 2 ^ 32
    → fetchint mem sz addr ≡ (if leb (addr + 4) sz then some (word_at mem addr) else none)
unfolding fetchint
fetchint_lem mem sz addr h l =
    ap (λ b. if b then none else some (word_at mem addr)) (same_test sz addr h l)
    ∙ if-not (leb (addr + 4) sz)
  where
    if-not :
        (b : Bool)
        → (if not b then none else some (word_at mem addr))
          ≡ (if b then some (word_at mem addr) else none)
    if-not true = refl
    if-not false = refl

check_block-inside :
    (sz i size j : ℕ)
    → sz ≤ 2 ^ 31
    → size < 2 ^ 31
    → check_block sz i size ≡ some j
    → (j < sz) × (j + size ≤ sz)
unfolding check_block
check_block-inside sz i size j h g e = ground (arith, h, g, e)

-- For a size that is not negative, every byte of a block that `argptr` lets through is the caller's.
pub argptr-inside :
    (mem : ℕ → ℕ) (sz esp n size i : ℕ)
    → sz ≤ 2 ^ 31
    → size < 2 ^ 31
    → argptr mem sz esp n size ≡ some i
    → (i < sz) × (i + size ≤ sz)
unfolding argptr
argptr-inside mem sz esp n size i h g e = elim (Option-cases (argint mem sz esp n)) [
  | inl d ↦ absurd (some-ne-none i (sym e ∙ ap pick d))
  | inr (k, d) ↦ check_block-inside sz k size i h g (sym (ap pick d) ∙ e)
]
  where
    pick : Option ℕ → Option ℕ
    pick o = elim o [ none ↦ none | some k ↦ check_block sz k size ]

negative_test :
    (sz k i : ℕ)
    → sz ≤ 2 ^ 31
    → 0 < k
    → k ≤ i
    → i < sz
    → (leb sz i || ltb sz (add32 i (2 ^ 32 - k))) ≡ false
negative_test sz k i h p l g = ground (arith, h, p, l, g)

-- `argptr` lets a size of -k through for every pointer from k on below the end of the memory.
pub argptr-negative :
    (mem : ℕ → ℕ) (sz esp n k i : ℕ)
    → sz ≤ 2 ^ 31
    → 0 < k
    → k ≤ i
    → i < sz
    → argint mem sz esp n ≡ some i
    → argptr mem sz esp n (2 ^ 32 - k) ≡ some i
unfolding argptr check_block
argptr-negative mem sz esp n k i h p l g e =
    ap pick e ∙ ap (λ b. if b then none else some i) (negative_test sz k i h p l g)
  where
    pick : Option ℕ → Option ℕ
    pick o = elim o [ none ↦ none | some j ↦ check_block sz j (2 ^ 32 - k) ]

-- What `fetchstr` answers: the length of a string that ends inside the memory, or that none does.
pub data Fetched (mem : ℕ → ℕ) (sz addr : ℕ) : Option ℕ → Type 0 where
  string :
      {len : ℕ}
      → addr + len < sz
      → mem (addr + len) ≡ 0
      → ((k : ℕ) → addr ≤ k → k < addr + len → mem k ≢ 0)
      → Fetched mem sz addr (some len)
  endless : ((k : ℕ) → addr ≤ k → k < sz → mem k ≢ 0) → Fetched mem sz addr none

str_loop-Fetched :
    (mem : ℕ → ℕ) (addr s rounds len : ℕ)
    → addr + len ≡ s
    → ((k : ℕ) → addr ≤ k → k < s → mem k ≢ 0)
    → Fetched mem (s + rounds) addr (str_loop mem s rounds len)
unfolding str_loop
str_loop-Fetched mem addr s zero len e so_far = endless (λ k l h. so_far k l (omega (arith, h)))
str_loop-Fetched mem addr s (suc rounds) len e so_far = elim (Bool-cases (mem s == 0)) [
  | inl z ↦
      subst (λ b. Fetched mem (s + suc rounds) addr (if b then some len else later)) (sym z)
        (string (omega (arith, e)) (ap mem e ∙ ==→eq (mem s) 0 z)
          (λ k l h. so_far k l (omega (arith, e, h))))
  | inr z ↦
      subst (λ b. Fetched mem (s + suc rounds) addr (if b then some len else later)) (sym z)
        (subst (λ m. Fetched mem m addr later) (omega arith)
          (str_loop-Fetched mem addr (s + 1) rounds (len + 1) (omega (arith, e)) (further z)))
]
  where
    later : Option ℕ
    later = str_loop mem (s + 1) rounds (len + 1)

    further : (mem s == 0) ≡ false → (k : ℕ) → addr ≤ k → k < s + 1 → mem k ≢ 0
    further z k l h = elim (Bool-cases (k == s)) [
      | inl d ↦ λ n. ==→ne (mem s) 0 z (sym (ap mem (==→eq k s d)) ∙ n)
      | inr d ↦ so_far k l (ground (arith, h, d))
    ]

-- `fetchstr` returns the length of the string at the address if its first 0 is inside the caller's
-- memory, and -1 if there is no 0 from the address to the end of it.
pub fetchstr_lem : (mem : ℕ → ℕ) (sz addr : ℕ) → Fetched mem sz addr (fetchstr mem sz addr)
unfolding fetchstr
fetchstr_lem mem sz addr = elim (Bool-cases (leb sz addr)) [
  | inl e ↦
      subst (λ b. Fetched mem sz addr (if b then none else str_loop mem addr (sz - addr) 0)) (sym e)
        (endless (λ k l h. absurd (ground (arith, e, l, h))))
  | inr e ↦
      subst (λ b. Fetched mem sz addr (if b then none else str_loop mem addr (sz - addr) 0)) (sym e)
        (subst (λ m. Fetched mem m addr (str_loop mem addr (sz - addr) 0)) (ground (arith, e))
          (str_loop-Fetched mem addr addr (sz - addr) 0 (omega arith)
            (λ k l h. absurd (omega (arith, l, h)))))
]
