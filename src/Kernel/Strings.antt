-- ===== src/Kernel/Strings.antt =====
-- string.c: `memset`, `memmove` and `memcmp` on a memory of bytes, where an address is a number and a
-- block does not wrap around the end of the address space, and the functions on strings, which take
-- the bytes from the pointer on.
pub mod Move
pub mod Compare
pub mod Copy
mod Tests
use os_ass.Base.Outcome.{Outcome, ok, hang}
use os_ass.Base.{
  ℕ, zero, suc, ◌+◌, ◌-◌, ◌%◌, not, Bool, true, false, ◌&&◌, ◌==◌, if◌then◌else◌, ltb, update,
}

-- `while(n-- > 0) *--d = *--s;`
unfoldable pub backward : (mem : ℕ → ℕ) → (d s n : ℕ) → ℕ → ℕ
backward mem d s zero = mem
backward mem d s (suc n) = backward (update mem (d - 1) (mem (s - 1))) (d - 1) (s - 1) n

-- `while(n-- > 0) *d++ = *s++;`
unfoldable pub forward : (mem : ℕ → ℕ) → (d s n : ℕ) → ℕ → ℕ
forward mem d s zero = mem
forward mem d s (suc n) = forward (update mem d (mem s)) (d + 1) (s + 1) n

unfoldable pub memmove : (mem : ℕ → ℕ) → (dst src n : ℕ) → ℕ → ℕ
memmove mem dst src n =
    if ltb src dst && ltb dst (src + n)
    then backward mem (dst + n) (src + n) n
    else forward mem dst src n

-- What a comparison returns: 0, or the two bytes whose difference it is.
pub data Difference : Type 0 where
  same : Difference
  bytes : ℕ → ℕ → Difference

unfoldable pub memcmp : (mem : ℕ → ℕ) → (s1 s2 n : ℕ) → Difference
memcmp mem s1 s2 zero = same
memcmp mem s1 s2 (suc n) =
    let later = memcmp mem (s1 + 1) (s2 + 1) n in
    if mem s1 == mem s2 then later else bytes (mem s1) (mem s2)

-- `memset`, with `stosl` or `stosb`, which write the same bytes.
unfoldable pub memset : (mem : ℕ → ℕ) → (dst c n : ℕ) → ℕ → ℕ
memset mem dst c zero = mem
memset mem dst c (suc n) = memset (update mem dst (c % 256)) (dst + 1) c n

unfoldable pub strncmp : (p q : ℕ → ℕ) → ℕ → Difference
strncmp p q zero = same
strncmp p q (suc n) =
    let later = strncmp (λ k. p (suc k)) (λ k. q (suc k)) n in
    if not (p 0 == 0) && p 0 == q 0 then later else bytes (p 0) (q 0)

-- Whether the result is 0.
abbrev pub is_zero : Difference → Bool
is_zero same = true
is_zero (bytes a b) = a == b

-- `while(n-- > 0) *s++ = 0;` from byte `i` on
unfoldable pub pad : (s : ℕ → ℕ) → (i n : ℕ) → ℕ → ℕ
pad s i zero = s
pad s i (suc n) = pad (update s i 0) (suc i) n

unfoldable pub strncpy_loop : (s t : ℕ → ℕ) → (i n : ℕ) → ℕ → ℕ
strncpy_loop s t i zero = s
strncpy_loop s t i (suc n) =
    let later = strncpy_loop (update s i (t i)) t (suc i) n in
    if t i == 0 then pad (update s i 0) (suc i) n else later

-- `strncpy` to the array `s`; a negative `n` acts as 0.
unfoldable pub strncpy : (s t : ℕ → ℕ) → ℕ → ℕ → ℕ
strncpy s t n = strncpy_loop s t 0 n

-- The loop and the last write of `safestrcpy`, with room for `n` bytes and the NUL.
unfoldable pub safestrcpy_loop : (s t : ℕ → ℕ) → (i n : ℕ) → ℕ → ℕ
safestrcpy_loop s t i zero = update s i 0
safestrcpy_loop s t i (suc n) =
    let later = safestrcpy_loop (update s i (t i)) t (suc i) n in
    if t i == 0 then update (update s i 0) (suc i) 0 else later

unfoldable pub safestrcpy : (s t : ℕ → ℕ) → ℕ → ℕ → ℕ
safestrcpy s t zero = s
safestrcpy s t (suc n) = safestrcpy_loop s t 0 n

-- The loop of `strlen` from byte `n` on, with `rounds` of them to come.
unfoldable pub strlen : (s : ℕ → ℕ) → (rounds n : ℕ) → Outcome ℕ
strlen s zero n = hang
strlen s (suc rounds) n = let later = strlen s rounds (suc n) in if s n == 0 then ok n else later
