-- ===== src/Kernel/Proc/Family/Orphans.antt =====
-- The loop of `exit` of proc.c over the children: they go to init.
use os_ass.Base.{
  ℕ, zero, suc, ◌+◌, ◌≤◌, ◌<◌, ◌≡◌, refl, sym, ap, ◌∙◌, subst, true, false, Option, some, ◌==◌,
  if◌then◌else◌, arith, Bool-cases, inl, inr, ◌⊎◌,
}
use os_ass.Kernel.Proc.{zombie, same_state, proc_at, Proc, Table, wakeup1, is_slot}
use os_ass.Kernel.Proc.Life.{put_proc, orphan_body, orphan_loop}
use os_ass.Kernel.Proc.Scan.{put_proc_self, put_proc-others}
use os_ass.Kernel.Proc.Family.{alive, empty, Tame, TameTable, same-Tame, wakeup1-TameTable}

abbrev pub inherits : ℕ → ℕ → Option ℕ → Option ℕ
inherits cur heir parent = if is_slot parent cur then some heir else parent

-- The change of a slot that the loop over the children makes.
pub record Heir (cur heir : ℕ) (p q : Proc) : Type 0 where
  pub parent : q.parent ≡ inherits cur heir p.parent
  pub pid : q.pid ≡ p.pid
  pub alive : alive q.state ≡ alive p.state
  pub empty : empty q.state ≡ empty p.state

pub Tame-trans : {p q r : Proc} → Tame p q → Tame q r → Tame p r
Tame-trans h g = record {
  parent = g.parent ∙ h.parent;
  pid = g.pid ∙ h.pid;
  alive = g.alive ∙ h.alive;
  empty = g.empty ∙ h.empty;
}

pub Heir-Tame : {cur heir : ℕ} {p q r : Proc} → Heir cur heir p q → Tame q r → Heir cur heir p r
Heir-Tame h g = record {
  parent = g.parent ∙ h.parent;
  pid = g.pid ∙ h.pid;
  alive = g.alive ∙ h.alive;
  empty = g.empty ∙ h.empty;
}

pub Tame-Heir : {cur heir : ℕ} {p q r : Proc} → Tame p q → Heir cur heir q r → Heir cur heir p r
Tame-Heir {cur} {heir} h g = record {
  parent = g.parent ∙ ap (inherits cur heir) h.parent;
  pid = g.pid ∙ h.pid;
  alive = g.alive ∙ h.alive;
  empty = g.empty ∙ h.empty;
}

-- Slots `i` to `n` have been through the loop, the others not.
pub record Passed (cur i n : ℕ) (t t' : Table) : Type 0 where
  pub inside : (k : ℕ) → i ≤ k → k < n → Heir cur t.initproc (t.procs k) (t'.procs k)
  pub outside : (k : ℕ) → (k < i) ⊎ (n ≤ k) → Tame (t.procs k) (t'.procs k)
  pub nextpid : t'.nextpid ≡ t.nextpid
  pub initproc : t'.initproc ≡ t.initproc

put_proc-Passed :
    (cur i : ℕ) (t : Table) (p : Proc)
    → Heir cur t.initproc (t.procs i) p
    → Passed cur i (i + 1) t (put_proc i p t)
put_proc-Passed cur i t p h = record {
  inside = λ k l m.
      subst (λ j. Heir cur t.initproc (t.procs j) ((put_proc i p t).procs j)) (omega (arith, l, m))
        (subst (Heir cur t.initproc (t.procs i)) (sym (put_proc_self i p t)) h);
  outside = λ k o. same-Tame (put_proc-others i p t k (λ e. absurd (omega (arith, e, o))));
  nextpid = refl;
  initproc = refl;
}

stay-Passed :
    (cur i : ℕ) (t : Table) → is_slot (t.procs i).parent cur ≡ false → Passed cur i (i + 1) t t
stay-Passed cur i t e = record {
  inside = λ k l m.
      subst (λ j. Heir cur t.initproc (t.procs j) (t.procs j)) (omega (arith, l, m))
        (record {
          parent = sym (ap (λ b. if b then some t.initproc else (t.procs i).parent) e);
          pid = refl;
          alive = refl;
          empty = refl;
        });
  outside = λ k o. same-Tame refl;
  nextpid = refl;
  initproc = refl;
}

Passed-TameTable :
    {cur i n : ℕ} {t t' u : Table} → Passed cur i n t t' → TameTable t' u → Passed cur i n t u
Passed-TameTable h g = record {
  inside = λ k l m. Heir-Tame (h.inside k l m) (g.slots k);
  outside = λ k o. Tame-trans (h.outside k o) (g.slots k);
  nextpid = g.nextpid ∙ h.nextpid;
  initproc = g.initproc ∙ h.initproc;
}

orphan_body-Passed : (cur i : ℕ) (t : Table) → Passed cur i (i + 1) t (orphan_body cur i t)
unfolding orphan_body
orphan_body-Passed cur i t = elim (Bool-cases (is_slot (t.procs i).parent cur)) [
  | inl e ↦
      subst (λ b. Passed cur i (i + 1) t (if b then woken else t)) (sym e)
        (elim (Bool-cases (same_state (t.procs i).state zombie)) [
          | inl z ↦
              subst
                (λ b. Passed cur i (i + 1) t (if b then wakeup1 (proc_at t.initproc) t1 else t1))
                (sym z) (Passed-TameTable (moved e) (wakeup1-TameTable (proc_at t.initproc) t1))
          | inr z ↦
              subst
                (λ b. Passed cur i (i + 1) t (if b then wakeup1 (proc_at t.initproc) t1 else t1))
                (sym z) (moved e)
        ])
  | inr e ↦
      subst (λ b. Passed cur i (i + 1) t (if b then woken else t)) (sym e) (stay-Passed cur i t e)
]
  where
    p : Proc
    p = record (t.procs i) { parent = some t.initproc }

    t1 : Table
    t1 = put_proc i p t

    woken : Table
    woken = if same_state (t.procs i).state zombie then wakeup1 (proc_at t.initproc) t1 else t1

    moved : is_slot (t.procs i).parent cur ≡ true → Passed cur i (i + 1) t t1
    moved e = put_proc-Passed cur i t p (record {
      parent = sym (ap (λ b. if b then some t.initproc else (t.procs i).parent) e);
      pid = refl;
      alive = refl;
      empty = refl;
    })

pub orphan_loop-Passed : (cur i n : ℕ) (t : Table) → Passed cur i (i + n) t (orphan_loop cur i n t)
unfolding orphan_loop
orphan_loop-Passed cur i zero t = record {
  inside = λ k l h. absurd (omega arith);
  outside = λ k h. same-Tame refl;
  nextpid = refl;
  initproc = refl;
}
orphan_loop-Passed cur i (suc n) t =
    let now = orphan_body-Passed cur i t in
    let later = orphan_loop-Passed cur (i + 1) n (orphan_body cur i t) in
    record {
      inside = λ k l h. elim (Bool-cases (i == k)) [
        | inl e ↦
            Heir-Tame (now.inside k l (ground (arith, e))) (later.outside k (ground (arith, e)))
        | inr e ↦ Tame-Heir (now.outside k (ground (arith, e, l))) (
            subst
              (λ heir.
                Heir cur heir ((orphan_body cur i t).procs k)
                  ((orphan_loop cur (i + 1) n (orphan_body cur i t)).procs k))
              now.initproc (later.inside k (ground (arith, e, l)) (omega (arith, h))))
      ];
      outside =
          λ k h. Tame-trans (now.outside k (omega (arith, h))) (later.outside k (omega (arith, h)));
      nextpid = later.nextpid ∙ now.nextpid;
      initproc = later.initproc ∙ now.initproc;
    }

pub TameTable-trans : {t u v : Table} → TameTable t u → TameTable u v → TameTable t v
TameTable-trans h g = record {
  slots = λ i. Tame-trans (h.slots i) (g.slots i);
  nextpid = g.nextpid ∙ h.nextpid;
  initproc = g.initproc ∙ h.initproc;
}

pub Tame-Passed :
    {cur i n : ℕ} {t u v : Table} → TameTable t u → Passed cur i n u v → Passed cur i n t v
Tame-Passed {cur} {u = u} {v = v} h g = record {
  inside = λ k l m.
      Tame-Heir (h.slots k)
        (subst (λ heir. Heir cur heir (u.procs k) (v.procs k)) h.initproc (g.inside k l m));
  outside = λ k o. Tame-trans (h.slots k) (g.outside k o);
  nextpid = g.nextpid ∙ h.nextpid;
  initproc = g.initproc ∙ h.initproc;
}
