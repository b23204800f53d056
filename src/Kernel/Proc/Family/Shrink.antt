-- ===== src/Kernel/Proc/Family/Shrink.antt =====
-- A table in which `waitpid` freed a zombie has a family again, as has one with a harmless change.
use os_ass.Base.{ℕ, ◌<◌, ◌≡◌, ◌≢◌, sym, ap, ◌∙◌, subst, true, false, none, some, nproc, arith}
use mathlib.Core.Bool.{true≢false}
use mathlib.Core.Option.{some-ne-none}
use os_ass.Kernel.Proc.{ProcState, unused, zombie, Proc, Table}
use os_ass.Kernel.Proc.Scan.{OthersKept, by_slot}
use os_ass.Kernel.Proc.Family.{alive, empty, Family, Tame}

-- Slot `i` held a zombie and is free.
pub record Reaped (i : ℕ) (t t' : Table) : Type 0 where
  pub zombie : (t.procs i).state ≡ zombie
  pub free : (t'.procs i).state ≡ unused
  pub parent : (t'.procs i).parent ≡ none
  pub pid : (t'.procs i).pid ≡ 0
  pub others : OthersKept i t t'
  pub nextpid : t'.nextpid ≡ t.nextpid
  pub initproc : t'.initproc ≡ t.initproc

pub Reaped-Family : {i : ℕ} {t t' : Table} → Family t → Reaped i t t' → Family t'
Reaped-Family {i} {t} {t'} f h = record {
  init_slot = omega (arith, h.initproc, f.init_slot);
  init_alive =
      subst (λ k. alive (t'.procs k).state ≡ true) (sym h.initproc)
        (still_alive t.initproc f.init_alive);
  parent_slot = λ k j l e. (line k j l e).0;
  parent_alive = λ k j l e. still_alive j (line k j l e).1;
  has_parent =
      by_slot i t t' h.others
        (λ m p. m < nproc → m ≢ t'.initproc → empty p.state ≡ false → p.parent ≢ none)
        (λ l n e. absurd (true≢false (sym (ap empty h.free) ∙ e)))
        (λ m ne l n e. f.has_parent m l (λ q. n (q ∙ sym h.initproc)) e);
  no_parent =
      by_slot i t t' h.others (λ m p. m < nproc → empty p.state ≡ true → p.parent ≡ none)
        (λ l e. h.parent) (λ m ne l e. f.no_parent m l e);
  pid_used =
      by_slot i t t' h.others (λ m p. m < nproc → p.pid < t'.nextpid)
        (λ l. omega (arith, h.pid, h.nextpid, f.pid_used t.initproc f.init_slot))
        (λ m ne l. omega (arith, f.pid_used m l, h.nextpid));
  pid_one = λ k m.
      by_slot i t t' h.others
        (λ a p.
          a < nproc
          → m < nproc
          → empty p.state ≡ false
          → empty (t'.procs m).state ≡ false
          → p.pid ≡ (t'.procs m).pid
          → a ≡ m)
        (λ l g e d s. absurd (true≢false (sym (ap empty h.free) ∙ e)))
        (λ a ne.
          by_slot i t t' h.others
            (λ b q.
              a < nproc
              → b < nproc
              → empty (t.procs a).state ≡ false
              → empty q.state ≡ false
              → (t.procs a).pid ≡ q.pid
              → a ≡ b)
            (λ l g e d s. absurd (true≢false (sym (ap empty h.free) ∙ d)))
            (λ b nb l g e d s. f.pid_one a b l g e d s) m)
        k;
}
  where
    still_alive : (k : ℕ) → alive (t.procs k).state ≡ true → alive (t'.procs k).state ≡ true
    still_alive k a =
        ap (λ p. alive p.state)
          (h.others k (λ e.
            true≢false (sym a ∙ ap (λ m. alive (t.procs m).state) (sym e) ∙ ap alive h.zombie)))
        ∙ a

    line :
        (k j : ℕ)
        → k < nproc
        → (t'.procs k).parent ≡ some j
        → (j < nproc) × (alive (t.procs j).state ≡ true)
    line k j =
        by_slot i t t' h.others
          (λ m p. m < nproc → p.parent ≡ some j → (j < nproc) × (alive (t.procs j).state ≡ true))
          (λ l e. absurd (some-ne-none j (sym e ∙ h.parent)))
          (λ m n l e. (f.parent_slot m j l e, f.parent_alive m j l e)) k

alive-empty : (s : ProcState) → alive s ≡ true → empty s ≡ false
alive-empty s h = ground (arith, h)

-- A living process that goes on living, under the same parent and pid.
pub living-Tame :
    {p q : Proc}
    → q.parent ≡ p.parent
    → q.pid ≡ p.pid
    → alive p.state ≡ true
    → alive q.state ≡ true
    → Tame p q
living-Tame {p} {q} e d a b = record {
  parent = e;
  pid = d;
  alive = b ∙ sym a;
  empty = alive-empty q.state b ∙ sym (alive-empty p.state a);
}
