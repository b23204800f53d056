-- ===== src/Kernel/Strings/Move.antt =====
-- `memmove` copies overlapping blocks.
use os_ass.Base.{
  ℕ, zero, suc, ◌+◌, ◌-◌, ◌≤◌, ◌≡◌, ap, ap₂, ◌∙◌, ◌&&◌, if◌then◌else◌, ltb, leb, update, arith,
  Bool-cases, inl, inr, ◌⊎◌,
}
use os_ass.Kernel.Strings.{backward, forward, memmove}

-- Memory after a copy of `n` bytes from `src` to `dst`, all read before any is written.
abbrev pub copied : (mem : ℕ → ℕ) → (dst src n : ℕ) → ℕ → ℕ
copied mem dst src n k = if leb dst k && ltb k (dst + n) then mem (src + (k - dst)) else mem k

copied-first :
    (mem : ℕ → ℕ) (d s n k : ℕ)
    → (d ≤ s) ⊎ (s + suc n ≤ d)
    → copied (update mem d (mem s)) (d + 1) (s + 1) n k ≡ copied mem d s (suc n) k
copied-first mem d s n k h = ground (arith, h)

copied-last :
    (mem : ℕ → ℕ) (d s n k : ℕ)
    → s ≤ d
    → copied (update mem (d + n) (mem (s + n))) d s n k ≡ copied mem d s (suc n) k
copied-last mem d s n k h = ground (arith, h)

forward-copied :
    (mem : ℕ → ℕ) (d s n k : ℕ) → (d ≤ s) ⊎ (s + n ≤ d) → forward mem d s n k ≡ copied mem d s n k
unfolding forward
forward-copied mem d s zero k h = ground (arith, h)
forward-copied mem d s (suc n) k h =
    forward-copied (update mem d (mem s)) (d + 1) (s + 1) n k (omega (arith, h))
    ∙ copied-first mem d s n k h

backward-copied :
    (mem : ℕ → ℕ) (d s n k : ℕ) → s ≤ d → backward mem (d + n) (s + n) n k ≡ copied mem d s n k
unfolding backward
backward-copied mem d s zero k h = ground (arith, h)
backward-copied mem d s (suc n) k h =
    ap₂ (λ a b. backward (update mem a (mem b)) a b n k) (omega arith) (omega arith)
    ∙ backward-copied (update mem (d + n) (mem (s + n))) d s n k h
    ∙ copied-last mem d s n k h

-- `memmove` leaves the destination with the bytes that the source had before, however the two
-- blocks overlap, and the rest of memory as it was.
pub memmove_lem : (mem : ℕ → ℕ) (dst src n k : ℕ) → memmove mem dst src n k ≡ copied mem dst src n k
unfolding memmove
memmove_lem mem dst src n k = elim (Bool-cases (ltb src dst && ltb dst (src + n))) [
  | inl e ↦
      ap (λ b. (if b then backward mem (dst + n) (src + n) n else forward mem dst src n) k) e
      ∙ backward-copied mem dst src n k (ground (arith, e))
  | inr e ↦
      ap (λ b. (if b then backward mem (dst + n) (src + n) n else forward mem dst src n) k) e
      ∙ forward-copied mem dst src n k (ground (arith, e))
]
