-- ===== src/Kernel/Pipe/Stream.antt =====
-- Any interleaving of whole calls on a pipe: what the readers get is what the writers put in.
use os_ass.Base.{
  ℕ, zero, suc, ◌≤◌, ◌≡◌, inl, inr, refl, sym, ap, ◌∙◌, Bool, true, false, List, [], ◌∷◌, ◌++◌,
  append-nil, append_assoc, length, length-append, take, drop, sub32, arith, Bool-cases,
  if◌then◌else◌,
}
use native.Mathlib.Decide.{dec_le}
use os_ass.Kernel.Pipe.{
  pipesize, Pipe, Chan, End, returned, failed, sleeping, pipewrite, piperead, pipeclose,
}
use os_ass.Kernel.Pipe.Contents.{contents, is_nil, IsValid, length-contents, room}
use os_ass.Kernel.Pipe.Write.{pipewrite_refines}
use os_ass.Kernel.Pipe.Read.{piperead_refines}

-- One run of a call, from its start or its waking to its end or its sleep. A writer that was
-- asleep is a `write` of the bytes that it had left.
pub data Call : Type 0 where
  write : (killed : Bool) → List ℕ → Call
  read : (killed : Bool) → ℕ → Call
  close : (writable : Bool) → Call

-- The bytes that a run of `pipewrite` took: the write counter says how many, also when it fails.
abbrev pub sent : Pipe → List ℕ → Pipe → List ℕ
sent p xs p' = take (sub32 p'.nwrite p.nwrite) xs

abbrev pub delivered : End (List ℕ) ℕ → List ℕ
delivered (returned bytes) = bytes
delivered failed = []
delivered (sleeping n) = []

-- The bytes sent, the bytes delivered, and the pipe, after calls in the given order.
pub run : List Call → Pipe → List ℕ × List ℕ × Pipe
run [] p = ([], [], p)
run (write killed xs ∷ calls) p =
    let p' = (pipewrite killed p xs).1 in let (s, d, q) = run calls p' in (sent p xs p' ++ s, d, q)
run (read killed n ∷ calls) p =
    let r = piperead killed p n in let (s, d, q) = run calls r.1 in (s, delivered r.0 ++ d, q)
run (close writable ∷ calls) p = run calls (pipeclose p writable).0

take_all : (n : ℕ) (xs : List ℕ) → length xs ≤ n → take n xs ≡ xs
take_all zero [] h = refl
take_all zero (x ∷ xs) h = absurd (omega arith)
take_all (suc n) [] h = refl
take_all (suc n) (x ∷ xs) h = ap (λ l. x ∷ l) (take_all n xs (omega arith))

length-take_le : (n : ℕ) (xs : List ℕ) → n ≤ length xs → length (take n xs) ≡ n
length-take_le zero xs h = refl
length-take_le (suc n) [] h = absurd (omega arith)
length-take_le (suc n) (x ∷ xs) h = ap suc (length-take_le n xs (omega arith))

-- What the write counter counts is what was appended.
sent_lem :
    (killed : Bool) (p : Pipe) (xs : List ℕ)
    → IsValid p
    → sent p xs (pipewrite killed p xs).1 ≡ take (room p) xs
sent_lem killed p xs v =
    let w = pipewrite_refines killed p xs v in
    let valid = w.valid in
    let counts = ap length w.bytes in
    let before = length-contents p in
    let after = length-contents (pipewrite killed p xs).1 in
    let total = length-append (contents p) (take (room p) xs) in
    let reader = w.reader in
    elim (dec_le (length xs) (room p)) [
      | yes le ↦
          let all = take_all (room p) xs le in
          let n = ap length all in
          take_all (sub32 (pipewrite killed p xs).1.nwrite p.nwrite) xs (omega arith) ∙ sym all
      | no gt ↦
          let n = length-take_le (room p) xs (omega arith) in
          let count : sub32 (pipewrite killed p xs).1.nwrite p.nwrite ≡ room p = omega arith in
          ap (λ k. take k xs) count
    ]

take-append-drop : (n : ℕ) (xs : List ℕ) → take n xs ++ drop n xs ≡ xs
take-append-drop zero xs = refl
take-append-drop (suc n) [] = refl
take-append-drop (suc n) (x ∷ xs) = ap (λ l. x ∷ l) (take-append-drop n xs)

-- A run of `piperead` moves bytes from the pipe to its caller.
piperead_moves :
    (killed : Bool) (p : Pipe) (n : ℕ)
    → IsValid p
    → delivered (piperead killed p n).0 ++ contents (piperead killed p n).1 ≡ contents p
piperead_moves killed p n v =
    let r = piperead_refines killed p n v in
    elim (is_nil (contents p)) [
      | inr ne ↦ copies (piperead killed p n) (r.copied (inl ne))
      | inl e ↦ (elim (Bool-cases p.writeopen) [
        | inr c ↦ copies (piperead killed p n) (r.copied (inr c))
        | inl o ↦ rw (r.blocked e o) (blocks killed)
      ])
    ]
  where
    copies :
        (r : End (List ℕ) ℕ × Pipe × List Chan)
        → (r.0 ≡ returned (take n (contents p)))
          × (contents r.1 ≡ drop n (contents p))
          × (r.2 ≡ Chan.at_nwrite ∷ [])
          × (r.1.nwrite ≡ p.nwrite)
        → delivered r.0 ++ contents r.1 ≡ contents p
    copies r c = rw (c.0, c.1) (take-append-drop n (contents p))

    blocks :
        (k : Bool)
        → (let r : End (List ℕ) ℕ × Pipe × List Chan =
              if k then (failed, p, []) else (sleeping n, p, []) in
            delivered r.0 ++ contents r.1 ≡ contents p)
    blocks true = refl
    blocks false = refl

contents-pipeclose : (p : Pipe) (w : Bool) → contents (pipeclose p w).0 ≡ contents p
unfolding pipeclose
contents-pipeclose p true = refl
contents-pipeclose p false = refl

pub pipeclose-IsValid : (p : Pipe) (w : Bool) → IsValid p → IsValid (pipeclose p w).0
unfolding pipeclose
pipeclose-IsValid p true v = record {
  storage = v.storage;
  nread_word = v.nread_word;
  nwrite_word = v.nwrite_word;
  fits = v.fits;
}
pipeclose-IsValid p false v = record {
  storage = v.storage;
  nread_word = v.nread_word;
  nwrite_word = v.nwrite_word;
  fits = v.fits;
}

-- The bytes that were in the pipe and then those that any calls sent are, in this order, the bytes
-- that the calls delivered and then those still in the pipe: none is lost, doubled or reordered.
-- The pipe stays valid, so it never holds more than 512.
pub stream_fifo :
    (calls : List Call) (p : Pipe)
    → IsValid p
    → (contents p ++ (run calls p).0 ≡ (run calls p).1 ++ contents (run calls p).2)
      × IsValid (run calls p).2
      × (length (contents (run calls p).2) ≤ pipesize)
unfolding run
stream_fifo [] p v =
    (append-nil (contents p), v, let l = length-contents p in let f = v.fits in omega arith)
stream_fifo (write killed xs ∷ calls) p v =
    let p' = (pipewrite killed p xs).1 in
    let w = pipewrite_refines killed p xs v in
    let ih = stream_fifo calls p' w.valid in
    (
      sym (append_assoc (contents p) (sent p xs p') (run calls p').0)
          ∙ ap (λ l. l ++ (run calls p').0)
              (ap (λ l. contents p ++ l) (sent_lem killed p xs v) ∙ sym w.bytes)
          ∙ ih.0,
      ih.1,
      ih.2,
    )
stream_fifo (read killed n ∷ calls) p v =
    let r = piperead killed p n in
    let ih = stream_fifo calls r.1 (piperead_refines killed p n v).valid in
    (
      ap (λ l. l ++ (run calls r.1).0) (sym (piperead_moves killed p n v))
          ∙ append_assoc (delivered r.0) (contents r.1) (run calls r.1).0
          ∙ ap (λ l. delivered r.0 ++ l) ih.0
          ∙ sym (append_assoc (delivered r.0) (run calls r.1).1 (contents (run calls r.1).2)),
      ih.1,
      ih.2,
    )
stream_fifo (close writable ∷ calls) p v =
    let ih = stream_fifo calls (pipeclose p writable).0 (pipeclose-IsValid p writable v) in
    (
      ap (λ l. l ++ (run calls (pipeclose p writable).0).0) (sym (contents-pipeclose p writable))
          ∙ ih.0,
      ih.1,
      ih.2,
    )
