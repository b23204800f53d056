-- ===== src/Kernel/Pipe/Read.antt =====
-- `piperead` takes from the front of the queue.
use os_ass.Base.{
  ℕ, zero, suc, ◌%◌, ◌≡◌, ◌≢◌, ◌↔◌, ◌⊎◌, inl, inr, refl, sym, ap, ap₂, ◌∙◌, Bool, true, false, List,
  [], ◌∷◌, length, take, drop, get_or, ◌==◌, if◌then◌else◌, add32, arith, Bool-cases,
}
use native.Mathlib.Decide.{ℕ_discrete}
use os_ass.Base.Ring.{window, window-next}
use os_ass.Kernel.Pipe.{
  pipesize, Pipe, Chan, at_nwrite, End, returned, failed, sleeping, read_loop, piperead,
}
use os_ass.Kernel.Pipe.Contents.{used, contents, IsValid, length-contents}

-- Taking the oldest byte.
advance : Pipe → Pipe
advance p = record p { nread = add32 p.nread 1 }

contents-cons :
    (p : Pipe)
    → IsValid p
    → p.nread ≢ p.nwrite
    → contents p ≡ get_or p.buf (p.nread % pipesize) 0 ∷ contents (advance p)
unfolding advance window
contents-cons p v ne =
    ap (λ n. window pipesize p.buf p.nread 0 n) count
    ∙ ap₂ ◌∷◌ (ap (λ i. get_or p.buf (i % pipesize) 0) (omega arith))
        (sym (window-next pipesize p.buf p.nread 0 (used (advance p))))
  where
    count : used p ≡ suc (used (advance p))
    count = omega arith

advance-IsValid : (p : Pipe) → IsValid p → p.nread ≢ p.nwrite → IsValid (advance p)
unfolding advance
advance-IsValid p v ne = record {
  storage = v.storage;
  nread_word = omega arith;
  nwrite_word = v.nwrite_word;
  fits = omega arith;
}

contents-nil : (p : Pipe) → IsValid p → p.nread ≡ p.nwrite → contents p ≡ []
unfolding window
contents-nil p v e =
    let z : used p ≡ 0 = omega arith in ap (λ n. window pipesize p.buf p.nread 0 n) z

-- What the copying loop has read.
record Copied (n : ℕ) (p : Pipe) (r : List ℕ × Pipe) : Type 0 where
  valid : IsValid r.1
  got : r.0 ≡ take n (contents p)
  kept : contents r.1 ≡ drop n (contents p)
  writer : r.1.nwrite ≡ p.nwrite

take-nil : (n : ℕ) → take {A = ℕ} n [] ≡ []
take-nil zero = refl
take-nil (suc n) = refl

drop-nil : (n : ℕ) → drop {A = ℕ} n [] ≡ []
drop-nil zero = refl
drop-nil (suc n) = refl

read_loop-Copied : (n : ℕ) (p : Pipe) → IsValid p → Copied n p (read_loop n p)
unfolding read_loop advance
read_loop-Copied zero p v = record { valid = v; got = refl; kept = refl; writer = refl }
read_loop-Copied (suc n) p v = elim (ℕ_discrete p.nread p.nwrite) [
  | yes e ↦
      let test : (p.nread == p.nwrite) ≡ true = ground arith in
      let empty = contents-nil p v e in
      rw test (record { valid = v; got = rw empty refl; kept = rw empty refl; writer = refl })
  | no ne ↦
      let test : (p.nread == p.nwrite) ≡ false = ground arith in
      let c = contents-cons p v ne in
      let ih = read_loop-Copied n (advance p) (advance-IsValid p v ne) in
      rw test (record {
        valid = ih.valid;
        got = ap (λ l. get_or p.buf (p.nread % pipesize) 0 ∷ l) ih.got ∙ ap (take (suc n)) (sym c);
        kept = ih.kept ∙ ap (drop (suc n)) (sym c);
        writer = ih.writer;
      })
]

-- What `piperead` does on each of its branches.
pub record Read (killed : Bool) (p : Pipe) (n : ℕ) (r : End (List ℕ) ℕ × Pipe × List Chan)
    : Type 0 where
  pub valid : IsValid r.1
  pub blocked :
      contents p ≡ []
      → p.writeopen ≡ true
      → r ≡ (if killed then (failed, p, []) else (sleeping n, p, []))
  pub copied :
      (contents p ≢ []) ⊎ (p.writeopen ≡ false)
      → (r.0 ≡ returned (take n (contents p)))
        × (contents r.1 ≡ drop n (contents p))
        × (r.2 ≡ at_nwrite ∷ [])
        × (r.1.nwrite ≡ p.nwrite)

empty_iff : (p : Pipe) → IsValid p → (p.nread ≡ p.nwrite) ↔ (contents p ≡ [])
empty_iff p v =
    (contents-nil p v, λ e. let l = length-contents p in let z = ap length e in omega arith)

-- `piperead` takes the oldest bytes, at most `n` of them, and leaves the rest. It does so at once
-- if there are bytes or the write end is closed; otherwise it changes nothing and sleeps, or
-- fails if the process is killed.
pub piperead_refines :
    (killed : Bool) (p : Pipe) (n : ℕ) → IsValid p → Read killed p n (piperead killed p n)
unfolding piperead
piperead_refines killed p n v = elim (ℕ_discrete p.nread p.nwrite) [
  | yes e ↦
      let test : (p.nread == p.nwrite) ≡ true = ground arith in
      rw test (by_writeopen p.writeopen refl (contents-nil p v e))
  | no ne ↦
      let test : (p.nread == p.nwrite) ≡ false = ground arith in
      rw test (reads (λ e o. ne ((empty_iff p v).1 e)))
]
  where
    reads :
        (contents p ≡ [] → p.writeopen ≡ true → ⊥)
        → Read killed p n (returned (read_loop n p).0, (read_loop n p).1, at_nwrite ∷ [])
    reads not_blocked =
        let c = read_loop-Copied n p v in
        record {
          valid = c.valid;
          blocked = λ e o. absurd (not_blocked e o);
          copied = λ h. (ap (λ l. returned l) c.got, c.kept, refl, c.writer);
        }

    waits :
        {r : End (List ℕ) ℕ × Pipe × List Chan}
        → p.writeopen ≡ true
        → contents p ≡ []
        → IsValid r.1
        → r ≡ (if killed then (failed, p, []) else (sleeping n, p, []))
        → Read killed p n r
    waits o e valid same = record {
      valid = valid;
      blocked = λ e' o'. same;
      copied = λ h. absurd (elim h [ inl ne ↦ ne e | inr c ↦ cc ]);
    }

    by_writeopen :
        (o : Bool)
        → p.writeopen ≡ o
        → contents p ≡ []
        → Read killed p n (
            if o
            then if killed then (failed, p, []) else (sleeping n, p, [])
            else (returned (read_loop n p).0, (read_loop n p).1, at_nwrite ∷ []))
    by_writeopen false o e = reads (λ e' o'. cc)
    by_writeopen true o e =
        waits o e (elim (Bool-cases killed) [ inl t ↦ rw t v | inr f ↦ rw f v ]) refl
