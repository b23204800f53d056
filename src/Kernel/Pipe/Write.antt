-- ===== src/Kernel/Pipe/Write.antt =====
-- `pipewrite` appends to the queue of at most 512 bytes, also when the counters wrap.
use os_ass.Base.{
  ℕ, zero, suc, ◌≤◌, ◌<◌, ◌≡◌, ◌⊎◌, inl, inr, refl, sym, subst, ap, ◌∙◌, Bool, true, false, not,
  ◌||◌, List, [], ◌∷◌, ◌++◌, append-nil, append_assoc, length, take, drop, ◌==◌, if◌then◌else◌,
  add32, arith,
}
use native.Mathlib.Decide.{dec_lt}
use os_ass.Kernel.Pipe.{
  pipesize, Pipe, Chan, at_nread, End, returned, failed, sleeping, put, write_loop, pipewrite,
}
use os_ass.Kernel.Pipe.Contents.{used, contents, IsValid, put-IsValid, contents-put, room}

-- What `pipewrite` has done when it returns or sleeps.
pub record Wrote (killed : Bool) (p : Pipe) (xs : List ℕ)
    (r : End (Unit {0}) (List ℕ) × Pipe × List Chan) : Type 0 where
  pub valid : IsValid r.1
  pub bytes : contents r.1 ≡ contents p ++ take (room p) xs
  pub all_fit : length xs ≤ room p → (r.0 ≡ returned tt) × (r.2 ≡ at_nread ∷ [])
  pub too_many :
      room p < length xs
      → (used r.1 ≡ pipesize)
        × (((r.0 ≡ failed) × ((p.readopen ≡ false) ⊎ (killed ≡ true)))
            ⊎ ((r.0 ≡ sleeping (drop (room p) xs))
                × (r.2 ≡ at_nread ∷ [])
                × (p.readopen ≡ true)
                × (killed ≡ false)))
  pub reader : r.1.nread ≡ p.nread
  pub ends_open : (r.1.readopen ≡ p.readopen) × (r.1.writeopen ≡ p.writeopen)

take-room-zero : (n : ℕ) (xs : List ℕ) → n ≡ 0 → take n xs ≡ []
take-room-zero zero xs e = refl
take-room-zero (suc n) xs e = absurd (omega arith)

drop-room-zero : (n : ℕ) (xs : List ℕ) → n ≡ 0 → drop n xs ≡ xs
drop-room-zero zero xs e = refl
drop-room-zero (suc n) xs e = absurd (omega arith)

used-put : (p : Pipe) (x : ℕ) → IsValid p → used p < pipesize → room p ≡ suc (room (put p x))
unfolding put
used-put p x v lt = omega arith

write_full :
    (killed : Bool) (p : Pipe) (x : ℕ) (xs : List ℕ)
    → used p ≡ pipesize
    → IsValid p
    → Wrote killed p (x ∷ xs) (write_loop killed p (x ∷ xs))
unfolding write_loop
write_full killed p x xs full v =
    let test : (p.nwrite == add32 p.nread pipesize) ≡ true = ground arith in
    rw test (stop killed (p.readopen) refl)
  where
    same : contents p ≡ contents p ++ take (room p) (x ∷ xs)
    same = rw (take-room-zero (room p) (x ∷ xs) (omega arith)) (sym (append-nil (contents p)))

    fails : {k : Bool} → (p.readopen ≡ false) ⊎ (k ≡ true) → Wrote k p (x ∷ xs) (failed, p, [])
    fails why = record {
      valid = v;
      bytes = same;
      all_fit = λ h. absurd (omega arith);
      too_many = λ h. (full, inl (refl, why));
      reader = refl;
      ends_open = (refl, refl);
    }

    left : x ∷ xs ≡ drop (room p) (x ∷ xs)
    left = sym (drop-room-zero (room p) (x ∷ xs) (omega arith))

    stop :
        (k o : Bool)
        → p.readopen ≡ o
        → Wrote k p
            (x ∷ xs)
            (if not o || k then (failed, p, []) else (sleeping (x ∷ xs), p, at_nread ∷ []))
    stop true true e = fails (inr refl)
    stop true false e = fails (inr refl)
    stop false false e = fails (inl e)
    stop false true e = record {
      valid = v;
      bytes = same;
      all_fit = λ h. absurd (omega arith);
      too_many = λ h. (full, inr (ap (λ l. sleeping l) left, refl, e, refl));
      reader = refl;
      ends_open = (refl, refl);
    }

write_room :
    (killed : Bool) (p : Pipe) (x : ℕ) (xs : List ℕ)
    → used p < pipesize
    → IsValid p
    → Wrote killed (put p x) xs (write_loop killed (put p x) xs)
    → Wrote killed p (x ∷ xs) (write_loop killed p (x ∷ xs))
unfolding write_loop
write_room killed p x xs lt v w =
    let test : (p.nwrite == add32 p.nread pipesize) ≡ false = ground arith in
    let r : room p ≡ suc (room (put p x)) = used-put p x v lt in
    let out = write_loop killed (put p x) xs in
    rw test (record {
      valid = w.valid;
      bytes =
          w.bytes
          ∙ ap (λ l. l ++ take (room (put p x)) xs) (contents-put p x v lt)
          ∙ append_assoc (contents p) (x ∷ []) (take (room (put p x)) xs)
          ∙ ap (λ n. contents p ++ take n (x ∷ xs)) (sym r);
      all_fit = λ h. w.all_fit (omega arith);
      too_many = λ h.
          subst
            (λ n.
              (used out.1 ≡ pipesize)
              × (((out.0 ≡ failed) × ((p.readopen ≡ false) ⊎ (killed ≡ true)))
                  ⊎ ((out.0 ≡ sleeping (drop n (x ∷ xs)))
                      × (out.2 ≡ at_nread ∷ [])
                      × (p.readopen ≡ true)
                      × (killed ≡ false))))
            (sym r) (unfold put in w.too_many (omega arith));
      reader = unfold put in w.reader;
      ends_open = unfold put in w.ends_open;
    })

write_loop-Wrote :
    (killed : Bool) (p : Pipe) (xs : List ℕ)
    → IsValid p
    → Wrote killed p xs (write_loop killed p xs)
unfolding write_loop
write_loop-Wrote killed p [] v = record {
  valid = v;
  bytes = nothing (room p);
  all_fit = λ h. (refl, refl);
  too_many = λ h. elim h [ ];
  reader = refl;
  ends_open = (refl, refl);
}
  where
    nothing : (n : ℕ) → contents p ≡ contents p ++ take n []
    nothing zero = sym (append-nil (contents p))
    nothing (suc n) = sym (append-nil (contents p))
write_loop-Wrote killed p (x ∷ xs) v = elim (dec_lt (used p) pipesize) [
  | yes lt ↦
      write_room killed p x xs lt v (write_loop-Wrote killed (put p x) xs (put-IsValid p x v lt))
  | no ge ↦ write_full killed p x xs (let f = v.fits in omega arith) v
]

-- `pipewrite` appends the bytes for which there is room, in order, and no others. It returns if
-- all fit; otherwise the pipe is full and it fails, when the read end is closed or the process
-- killed, or else sleeps with exactly the other bytes left.
pub pipewrite_refines :
    (killed : Bool) (p : Pipe) (xs : List ℕ) → IsValid p → Wrote killed p xs (pipewrite killed p xs)
unfolding pipewrite
pipewrite_refines killed p xs v = write_loop-Wrote killed p xs v
