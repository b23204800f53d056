-- ===== src/Kernel/Pipe/Contents.antt =====
-- The bytes that a pipe holds, and the invariant of its counters.
use os_ass.Base.{
  ℕ, suc, ◌-◌, ◌≤◌, ◌<◌, ◌%◌, ◌≡◌, ◌≢◌, ◌⊎◌, inl, inr, refl, ap₂, ◌∙◌, List, [], ◌∷◌, ◌++◌, length,
  length-set, set, ◌==◌, add32, sub32, u32_mod, arith,
}
use os_ass.Base.Ring.{window, length-window, window-push, IsRingSize-512}
use os_ass.Kernel.Pipe.{pipesize, Pipe, put}

-- The bytes in the pipe, oldest first.
abbrev pub used : Pipe → ℕ
used p = sub32 p.nwrite p.nread

abbrev pub contents : Pipe → List ℕ
contents p = window pipesize p.buf p.nread 0 (used p)

pub record IsValid (p : Pipe) : Type 0 where
  pub storage : length p.buf ≡ pipesize
  pub nread_word : p.nread < u32_mod
  pub nwrite_word : p.nwrite < u32_mod
  pub fits : used p ≤ pipesize

pub length-contents : (p : Pipe) → length (contents p) ≡ used p
length-contents p = length-window pipesize p.buf p.nread 0 (used p)

-- The code's test for a full pipe.
pub full_iff : (p : Pipe) → IsValid p → (p.nwrite == add32 p.nread pipesize) ≡ (used p == pipesize)
full_iff p v = ground arith

pub put-IsValid : (p : Pipe) (x : ℕ) → IsValid p → used p < pipesize → IsValid (put p x)
unfolding put
put-IsValid p x v lt = record {
  storage = length-set p.buf (p.nwrite % pipesize) x ∙ v.storage;
  nread_word = v.nread_word;
  nwrite_word = omega arith;
  fits = omega arith;
}

pub contents-put :
    (p : Pipe) (x : ℕ) → IsValid p → used p < pipesize → contents (put p x) ≡ contents p ++ (x ∷ [])
unfolding put
contents-put p x v lt =
    ap₂ (λ i n. window pipesize (set p.buf (i % pipesize) x) p.nread 0 n) here count
    ∙ window-push pipesize p.buf p.nread (used p) x IsRingSize-512 v.storage lt
  where
    here : p.nwrite ≡ add32 p.nread (used p)
    here = omega arith

    count : sub32 (add32 p.nwrite 1) p.nread ≡ suc (used p)
    count = omega arith

abbrev pub room : Pipe → ℕ
room p = pipesize - used p

pub is_nil : (xs : List ℕ) → (xs ≡ []) ⊎ (xs ≢ [])
is_nil [] = inl refl
is_nil (x ∷ xs) = inr (λ e. cc)
