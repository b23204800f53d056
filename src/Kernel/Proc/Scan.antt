-- ===== src/Kernel/Proc/Scan.antt =====
-- What the loops of proc.c over the process table, and a change of one slot, compute: the first slot that passes a test, a
-- change of every slot, the scan of `waitpid` and the loop of `exit` over the children.
use os_ass.Base.{
  ℕ, zero, suc, ◌+◌, ◌≤◌, ◌<◌, ◌≡◌, ◌≢◌, refl, sym, ap, ◌∙◌, subst, Bool, true, false, ◌&&◌, ◌||◌,
  Option, none, some, ◌==◌, if◌then◌else◌, update, nproc, arith, Bool-cases, ==→eq, ==→ne, inl, inr,
  ◌⊎◌,
}
use mathlib.Core.Option.{some-injective, some-ne-none}
use os_ass.Kernel.Proc.{
  zombie, same_state, Chan, Proc, Table, is_slot, find_loop, each_loop, wake_body, wakeup1,
}
use os_ass.Kernel.Proc.Life.{Scan, dead, havekids, is_wanted, scan_loop, put_proc}

-- The slot `j` is the first of those from `i` on, below `n`, that passes the test.
pub record IsFirst (test : Proc → Bool) (procs : ℕ → Proc) (i n j : ℕ) : Type 0 where
  pub from : i ≤ j
  pub below : j < n
  pub passes : test (procs j) ≡ true
  pub before : (k : ℕ) → i ≤ k → k < j → test (procs k) ≡ false

find_loop-end : (test : Proc → Bool) (procs : ℕ → Proc) (i : ℕ) → find_loop test procs i zero ≡ none
unfolding find_loop
find_loop-end test procs i = refl

find_loop-hit :
    (test : Proc → Bool) (procs : ℕ → Proc) (i n : ℕ)
    → test (procs i) ≡ true
    → find_loop test procs i (suc n) ≡ some i
unfolding find_loop
find_loop-hit test procs i n h = ap (λ b. if b then some i else find_loop test procs (i + 1) n) h

find_loop-next :
    (test : Proc → Bool) (procs : ℕ → Proc) (i n : ℕ)
    → test (procs i) ≡ false
    → find_loop test procs i (suc n) ≡ find_loop test procs (i + 1) n
unfolding find_loop
find_loop-next test procs i n h = ap (λ b. if b then some i else find_loop test procs (i + 1) n) h

-- A value that holds at `i` and from `i + 1` on holds from `i` on.
from-here {ℓ} : (P : ℕ → Type ℓ) (i k : ℕ) → P i → (i + 1 ≤ k → P k) → i ≤ k → P k
from-here P i k here rest l = elim (Bool-cases (i == k)) [
  | inl e ↦ subst P (==→eq i k e) here
  | inr e ↦ rest (ground (arith, e, l))
]

pub find_loop-some :
    (test : Proc → Bool) (procs : ℕ → Proc) (i n j : ℕ)
    → find_loop test procs i n ≡ some j
    → IsFirst test procs i (i + n) j
find_loop-some test procs i zero j e = absurd (some-ne-none j (sym e ∙ find_loop-end test procs i))
find_loop-some test procs i (suc n) j e = elim (Bool-cases (test (procs i))) [
  | inl h ↦
      let same : i ≡ j = some-injective i j (sym (find_loop-hit test procs i n h) ∙ e) in
      subst (IsFirst test procs i (i + suc n)) same (record {
        from = omega arith;
        below = omega arith;
        passes = h;
        before = λ k l g. absurd (omega arith);
      })
  | inr h ↦
      let rest =
        find_loop-some test procs (i + 1) n j (sym (find_loop-next test procs i n h) ∙ e) in
      record {
        from = omega (arith, rest.from);
        below = omega (arith, rest.below);
        passes = rest.passes;
        before = λ k l g.
            from-here (λ m. m < j → test (procs m) ≡ false) i k (λ g'. h)
              (λ l' g'. rest.before k l' g') l g;
      }
]

pub find_loop-none :
    (test : Proc → Bool) (procs : ℕ → Proc) (i n : ℕ)
    → find_loop test procs i n ≡ none
    → (k : ℕ) → i ≤ k
    → k < i + n
    → test (procs k) ≡ false
find_loop-none test procs i zero e k l h = absurd (omega arith)
find_loop-none test procs i (suc n) e k l g = elim (Bool-cases (test (procs i))) [
  | inl h ↦ absurd (some-ne-none i (sym (find_loop-hit test procs i n h) ∙ e))
  | inr h ↦
      from-here (λ m. m < i + suc n → test (procs m) ≡ false) i k (λ g'. h)
        (λ l' g'.
          find_loop-none test procs (i + 1) n (sym (find_loop-next test procs i n h) ∙ e) k l'
            (omega arith))
        l g
]

pub each_loop_out :
    (body : Proc → Proc) (i n : ℕ) (procs : ℕ → Proc) (j : ℕ)
    → (j < i) ⊎ (i + n ≤ j)
    → each_loop body i n procs j ≡ procs j
unfolding each_loop
each_loop_out body i zero procs j h = refl
each_loop_out body i (suc n) procs j h =
    ground (arith, h, each_loop_out body (i + 1) n (update procs i (body (procs i))) j)

pub each_loop_in :
    (body : Proc → Proc) (i n : ℕ) (procs : ℕ → Proc) (j : ℕ)
    → i ≤ j
    → j < i + n
    → each_loop body i n procs j ≡ body (procs j)
unfolding each_loop
each_loop_in body i zero procs j l h = absurd (omega arith)
each_loop_in body i (suc n) procs j l h = ground (
  arith,
  h,
  l,
  each_loop_in body (i + 1) n (update procs i (body (procs i))) j,
  each_loop_out body (i + 1) n (update procs i (body (procs i))) j,
)

pub wakeup1_in :
    (c : Chan) (t : Table) (j : ℕ) → j < nproc → (wakeup1 c t).procs j ≡ wake_body c (t.procs j)
unfolding wakeup1
wakeup1_in c t j h = each_loop_in (wake_body c) 0 nproc t.procs j (omega arith) h

pub wakeup1_out : (c : Chan) (t : Table) (j : ℕ) → nproc ≤ j → (wakeup1 c t).procs j ≡ t.procs j
unfolding wakeup1
wakeup1_out c t j h = each_loop_out (wake_body c) 0 nproc t.procs j (inr h)

-- The children that `waitpid` asks for.
abbrev pub is_match : ℕ → Option ℕ → Proc → Bool
is_match cur child p = is_slot p.parent cur && is_wanted child p.pid

abbrev pub is_dead : ℕ → Option ℕ → Proc → Bool
is_dead cur child p = is_match cur child p && same_state p.state zombie

abbrev pub is_some : Option ℕ → Bool
is_some none = false
is_some (some i) = true

abbrev pub scan_of : Option ℕ → Bool → Scan
scan_of none kids = havekids kids
scan_of (some i) kids = dead i

pub scan_loop_lem :
    (cur : ℕ) (child : Option ℕ) (procs : ℕ → Proc) (i n : ℕ) (kids : Bool)
    → scan_loop cur child procs i n kids
      ≡ scan_of
          (find_loop (is_dead cur child) procs i n)
          (kids || is_some (find_loop (is_match cur child) procs i n))
unfolding scan_loop find_loop
scan_loop_lem cur child procs i zero kids = ground arith
scan_loop_lem cur child procs i (suc n) kids =
    ground (arith, scan_loop_lem cur child procs (i + 1) n (kids || is_match cur child (procs i)))

-- The slots but `i` are alike.
abbrev pub OthersKept : ℕ → Table → Table → Type 0
OthersKept i t t' = (k : ℕ) → i ≢ k → t'.procs k ≡ t.procs k

pub put_proc-others : (i : ℕ) (p : Proc) (t : Table) → OthersKept i t (put_proc i p t)
put_proc-others i p t k h = ground arith

pub put_proc_self : (i : ℕ) (p : Proc) (t : Table) → (put_proc i p t).procs i ≡ p
put_proc_self i p t = ground arith

-- A statement about every slot, when the slots but `i` are alike.
pub by_slot :
    (i : ℕ) (t t' : Table)
    → OthersKept i t t'
    → (P : ℕ → Proc → Type 0) → P i (t'.procs i)
    → ((k : ℕ) → i ≢ k → P k (t.procs k))
    → (k : ℕ) → P k (t'.procs k)
by_slot i t t' others P new old k = elim (Bool-cases (i == k)) [
  | inl e ↦ subst (λ m. P m (t'.procs m)) (==→eq i k e) new
  | inr e ↦ subst (P k) (sym (others k (==→ne i k e))) (old k (==→ne i k e))
]
