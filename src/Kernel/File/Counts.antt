-- ===== src/Kernel/File/Counts.antt =====
-- The references of a file are its descriptors and those that others hold; `dup` and `close` keep
-- the count.
use os_ass.Base.{
  ℕ, zero, suc, ◌+◌, ◌<◌, ◌≤◌, ◌≡◌, ◌≢◌, refl, sym, ap, ◌∙◌, subst, true, false, Option, none, some,
  ◌==◌, leb, if◌then◌else◌, update, nofile, arith, Bool-cases, inl, inr, ==→eq, ==→ne, ==_refl,
}
use mathlib.Core.Bool.{true≢false}
use os_ass.Kernel.Syscall.{argint}
use os_ass.Kernel.File.{File, Open, set_file}
use os_ass.Kernel.File.Calls.{open_at, argfd, fdalloc_loop}

abbrev pub refers : ℕ → Option ℕ → ℕ
refers f none = 0
refers f (some g) = if f == g then 1 else 0

-- The descriptors below `n` of the file `f`.
abbrev pub descriptors : (f : ℕ) → (ℕ → Option ℕ) → (n : ℕ) → ℕ
descriptors f ofile zero = 0
descriptors f ofile (suc n) = refers f (ofile n) + descriptors f ofile n

-- Every file has as many references as this process has descriptors of it and others hold.
pub record IsCounted (other : ℕ → ℕ) (ofile : ℕ → Option ℕ) (s : Open) : Type 0 where
  pub counts : (f : ℕ) → (s.files f).ref ≡ descriptors f ofile nofile + other f

descriptors-update_behind :
    (f : ℕ) (ofile : ℕ → Option ℕ) (i n : ℕ) (v : Option ℕ)
    → n ≤ i
    → descriptors f (update ofile i v) n ≡ descriptors f ofile n
descriptors-update_behind f ofile i zero v l = refl
descriptors-update_behind f ofile i (suc n) v l =
    let e : (i == n) ≡ false = ground (arith, l) in
    rw e (
      ap (λ k. refers f (ofile n) + k) (descriptors-update_behind f ofile i n v (omega (arith, l))))

descriptors-update :
    (f : ℕ) (ofile : ℕ → Option ℕ) (i n : ℕ) (v : Option ℕ)
    → i < n
    → descriptors f (update ofile i v) n + refers f (ofile i) ≡ descriptors f ofile n + refers f v
descriptors-update f ofile i zero v l = absurd (omega (arith, l))
descriptors-update f ofile i (suc n) v l = elim (Bool-cases (i == n)) [
  | inl e ↦
      let q = ==→eq i n e in
      let b = descriptors-update_behind f ofile i n v (omega (arith, q)) in
      let r : refers f (ofile i) ≡ refers f (ofile n) = ap (λ k. refers f (ofile k)) q in
      rw (e, b, r) (omega arith)
  | inr e ↦
      let h = descriptors-update f ofile i n v (ground (arith, l, e)) in rw e (omega (arith, h))
]

pub descriptors-some :
    (f : ℕ) (ofile : ℕ → Option ℕ) (fd n : ℕ)
    → fd < n
    → ofile fd ≡ some f
    → 0 < descriptors f ofile n
descriptors-some f ofile fd zero l e = absurd (omega (arith, l))
descriptors-some f ofile fd (suc n) l e = elim (Bool-cases (fd == n)) [
  | inl t ↦
      let q : ofile n ≡ some f = ap ofile (sym (==→eq fd n t)) ∙ e in
      let r : (f == f) ≡ true = ==_refl f in
      let one : refers f (ofile n) ≡ 1 = ap (refers f) q ∙ rw r refl in omega (arith, one)
  | inr t ↦ omega (arith, descriptors-some f ofile fd n (ground (arith, t, l)) e)
]

-- The first free descriptor from `fd` on.
pub data Allocated (ofile : ℕ → Option ℕ) (fd n : ℕ) : Option ℕ → Type 0 where
  free : {k : ℕ} → k < n → ofile k ≡ none → Allocated ofile fd n (some k)
  all_used : ((k : ℕ) → fd ≤ k → k < n → ofile k ≢ none) → Allocated ofile fd n none

used_before :
    (ofile : ℕ → Option ℕ) (fd n f : ℕ) {o : Option ℕ}
    → ofile fd ≡ some f
    → Allocated ofile (suc fd) n o
    → Allocated ofile fd n o
used_before ofile fd n f e (free l g) = free l g
used_before ofile fd n f e (all_used h) = all_used (λ k a b z. elim (Bool-cases (fd == k)) [
  | inl t ↦ some≢none (sym e ∙ ap ofile (==→eq fd k t) ∙ z)
  | inr t ↦ h k (ground (arith, t, a)) b z
])
  where
    some≢none : {g : ℕ} → some g ≢ none
    some≢none q = absurd (true≢false (ap (λ x. elim x [ none ↦ false | some y ↦ true ]) q))

pub fdalloc_loop-Allocated :
    (ofile : ℕ → Option ℕ) (fd rounds : ℕ)
    → Allocated ofile fd (fd + rounds) (fdalloc_loop ofile fd rounds)
unfolding fdalloc_loop
fdalloc_loop-Allocated ofile fd zero = all_used (λ k a b. absurd (omega (arith, a, b)))
fdalloc_loop-Allocated ofile fd (suc rounds) = here (ofile fd) refl (
    subst (λ n. Allocated ofile (suc fd) n (fdalloc_loop ofile (suc fd) rounds)) (omega arith)
      (fdalloc_loop-Allocated ofile (suc fd) rounds))
  where
    here :
        (o : Option ℕ)
        → ofile fd ≡ o
        → Allocated ofile (suc fd) (fd + suc rounds) (fdalloc_loop ofile (suc fd) rounds)
        → Allocated ofile fd
            (fd + suc rounds)
            (elim o [ none ↦ some fd | some f ↦ fdalloc_loop ofile (suc fd) rounds ])
    here none e h = free (omega arith) e
    here (some f) e h = used_before ofile fd (fd + suc rounds) f e h

-- What `argfd` gives.
pub data Opened (ofile : ℕ → Option ℕ) : Option (ℕ × ℕ) → Type 0 where
  is_open : {fd f : ℕ} → fd < nofile → ofile fd ≡ some f → Opened ofile (some (fd, f))
  not_open : Opened ofile none

open_at-Opened : (ofile : ℕ → Option ℕ) (fd : ℕ) → Opened ofile (open_at ofile fd)
unfolding open_at
open_at-Opened ofile fd = elim (Bool-cases (leb nofile fd)) [
  | inl e ↦ rw e not_open
  | inr e ↦ rw e (at_fd (ofile fd) refl (ground (arith, e)))
]
  where
    at_fd :
        (o : Option ℕ)
        → ofile fd ≡ o
        → fd < nofile
        → Opened ofile (elim o [ none ↦ none | some f ↦ some (fd, f) ])
    at_fd none e l = not_open
    at_fd (some f) e l = is_open l e

pub argfd-Opened :
    (mem : ℕ → ℕ) (sz esp n : ℕ) (ofile : ℕ → Option ℕ) → Opened ofile (argfd mem sz esp n ofile)
unfolding argfd
argfd-Opened mem sz esp n ofile = fetched (argint mem sz esp n)
  where
    fetched : (o : Option ℕ) → Opened ofile (elim o [ none ↦ none | some fd ↦ open_at ofile fd ])
    fetched none = not_open
    fetched (some fd) = open_at-Opened ofile fd

-- Changing the descriptor `fd` and the references of `f` by the same keeps the count.
pub recount :
    (other : ℕ → ℕ) (ofile : ℕ → Option ℕ) (s : Open) (fd f : ℕ) (v : Option ℕ) (file : File)
    → IsCounted other ofile s
    → fd < nofile
    → file.ref + refers f (ofile fd) ≡ (s.files f).ref + refers f v
    → ((g : ℕ) → f ≢ g → refers g (ofile fd) ≡ refers g v)
    → IsCounted other (update ofile fd v) (set_file s f file)
recount other ofile s fd f v file c l e same = record {
  counts = λ g. elim (Bool-cases (f == g)) [
    | inl t ↦
        let q = ==→eq f g t in
        let u = descriptors-update f ofile fd nofile v l in
        let k = c.counts f in
        rw t (
          subst (λ h. file.ref ≡ descriptors h (update ofile fd v) nofile + other h) q
            (omega (arith, u, k, e)))
    | inr t ↦
        let u = descriptors-update g ofile fd nofile v l in
        let k = c.counts g in let z = same g (==→ne f g t) in rw t (omega (arith, u, k, z))
  ];
}
