-- ===== src/Kernel/Proc/Family/Grow.antt =====
-- A table in which `fork` took a free slot has a family again.
use os_ass.Base.{ℕ, ◌<◌, ◌≡◌, ◌≢◌, refl, sym, ap, ◌∙◌, subst, true, false, none, some, nproc, arith}
use mathlib.Core.Bool.{true≢false}
use os_ass.Kernel.Proc.{Table}
use os_ass.Kernel.Proc.Scan.{by_slot}
use os_ass.Kernel.Proc.Family.{alive, empty, Family}
use os_ass.Kernel.Proc.Family.Births.{Taken}

-- The slot that `fork` took: free again, or a child of the living process in slot `cur`.
module _ {i : ℕ} {t t' : Table} (f : Family t) (h : Taken i t t') where
  i_not_alive : alive (t.procs i).state ≡ false
  i_not_alive = ap alive h.free

  alive-other : (k : ℕ) → alive (t.procs k).state ≡ true → i ≢ k
  alive-other k a e = true≢false (sym a ∙ ap (λ m. alive (t.procs m).state) (sym e) ∙ i_not_alive)

  still_alive : (k : ℕ) → alive (t.procs k).state ≡ true → alive (t'.procs k).state ≡ true
  still_alive k a = ap (λ p. alive p.state) (h.others k (alive-other k a)) ∙ a

  pub Taken-Family :
      ((j : ℕ) → (t'.procs i).parent ≡ some j → (j < nproc) × (alive (t.procs j).state ≡ true))
      → (empty (t'.procs i).state ≡ false → (t'.procs i).parent ≢ none)
      → (empty (t'.procs i).state ≡ true → (t'.procs i).parent ≡ none)
      → Family t'
  Taken-Family parent given not_given = record {
    init_slot = omega (arith, h.initproc, f.init_slot);
    init_alive =
        subst (λ k. alive (t'.procs k).state ≡ true) (sym h.initproc)
          (still_alive t.initproc f.init_alive);
    parent_slot = λ k j l e. (line k j l e).0;
    parent_alive = λ k j l e. still_alive j (line k j l e).1;
    has_parent =
        by_slot i t t' h.others
          (λ m p. m < nproc → m ≢ t'.initproc → empty p.state ≡ false → p.parent ≢ none)
          (λ l n e. given e) (λ m ne l n e. f.has_parent m l (λ q. n (q ∙ sym h.initproc)) e);
    no_parent =
        by_slot i t t' h.others (λ m p. m < nproc → empty p.state ≡ true → p.parent ≡ none)
          (λ l e. not_given e) (λ m ne l e. f.no_parent m l e);
    pid_used =
        by_slot i t t' h.others (λ m p. m < nproc → p.pid < t'.nextpid)
          (λ l. omega (arith, h.pid, h.nextpid))
          (λ m ne l. omega (arith, f.pid_used m l, h.nextpid));
    pid_one = λ k m.
        by_slot i t t' h.others
          (λ a p.
            a < nproc
            → m < nproc
            → empty p.state ≡ false
            → empty (t'.procs m).state ≡ false
            → p.pid ≡ (t'.procs m).pid
            → a ≡ m)
          (by_slot i t t' h.others
            (λ b q.
              i < nproc
              → b < nproc
              → empty (t'.procs i).state ≡ false
              → empty q.state ≡ false
              → (t'.procs i).pid ≡ q.pid
              → i ≡ b)
            (λ l g e d s. refl) (λ b ne l g e d s. absurd (omega (arith, f.pid_used b g, h.pid, s)))
            m)
          (λ a ne.
            by_slot i t t' h.others
              (λ b q.
                a < nproc
                → b < nproc
                → empty (t.procs a).state ≡ false
                → empty q.state ≡ false
                → (t.procs a).pid ≡ q.pid
                → a ≡ b)
              (λ l g e d s. absurd (omega (arith, f.pid_used a l, h.pid, s)))
              (λ b nb l g e d s. f.pid_one a b l g e d s) m)
          k;
  }
    where
      line :
          (k j : ℕ)
          → k < nproc
          → (t'.procs k).parent ≡ some j
          → (j < nproc) × (alive (t.procs j).state ≡ true)
      line k j =
          by_slot i t t' h.others
            (λ m p. m < nproc → p.parent ≡ some j → (j < nproc) × (alive (t.procs j).state ≡ true))
            (λ l e. parent j e) (λ m n l e. (f.parent_slot m j l e, f.parent_alive m j l e)) k
