-- ===== src/Kernel/Pipe/Wakeups.antt =====
-- The wake-ups of a pipe: every sleeper has a reason to sleep, after any steps.
use os_ass.Base.{
  ℕ, ◌≡◌, ◌≢◌, ◌⊎◌, inl, inr, refl, sym, subst, ap, ◌∙◌, Bool, true, false, List, [], ◌∷◌, length,
  length-append, take, ◌==◌, if◌then◌else◌, arith, Bool-cases,
}
use native.Mathlib.Decide.{dec_le}
use os_ass.Kernel.Pipe.{
  pipesize, Pipe, Chan, at_nread, at_nwrite, End, returned, failed, sleeping, pipewrite, piperead,
  pipeclose,
}
use os_ass.Kernel.Pipe.Contents.{used, contents, is_nil, IsValid, length-contents, room}
use os_ass.Kernel.Pipe.Write.{Wrote, pipewrite_refines}
use os_ass.Kernel.Pipe.Read.{piperead_refines}
use os_ass.Kernel.Pipe.Stream.{pipeclose-IsValid}
use os_ass.Kernel.Pipe.Sleepers.{
  Side, idle, asleep, woken, System, rouse, same_chan, wake_all, assign, after, after_write,
  after_read, Step, writes, reads, closes_write, closes_read, kills_reader, Reach, here, there,
  Justified,
}

rouse_lem : {Rest : Type 0} (x : Side Rest) (r : Rest) → rouse x ≢ asleep r
rouse_lem idle r e = cc
rouse_lem (asleep q) r e = cc
rouse_lem (woken q) r e = cc

assign_lem :
    {A : Type 0} (i : ℕ) (a : A) (f : ℕ → A) (j : ℕ) (b : A)
    → assign i a f j ≡ b
    → (a ≡ b) ⊎ (f j ≡ b)
assign_lem i a f j b = elim (Bool-cases (j == i)) [
  | inl e ↦ rw e (λ h. inl h)
  | inr e ↦ rw e (λ h. inr h)
]

-- A `wakeup` puts nobody to sleep.
wake_all_lem :
    {Rest : Type 0} (on : Chan) (cs : List Chan) (f : ℕ → Side Rest) (j : ℕ) (r : Rest)
    → wake_all on cs f j ≡ asleep r
    → f j ≡ asleep r
wake_all_lem on [] f j r h = h
wake_all_lem on (c ∷ cs) f j r h =
    let ih = wake_all_lem on cs (if same_chan on c then (λ j. rouse (f j)) else f) j r h in
    by_chan (same_chan on c) ih
  where
    by_chan : (b : Bool) → (if b then (λ j. rouse (f j)) else f) j ≡ asleep r → f j ≡ asleep r
    by_chan true e = absurd (rouse_lem (f j) r e)
    by_chan false e = e

write-Justified :
    (s : System) (i : ℕ) (xs : List ℕ) (r : End (Unit {0}) (List ℕ) × Pipe × List Chan)
    → Justified s
    → Wrote false s.pipe xs r
    → Justified (after_write s i r)
write-Justified s i xs r v w = record {
  valid = w.valid;
  writer = λ j ys h.
      writer j ys (assign_lem i (after r.0) (wake_all at_nwrite r.2 s.writers) j (asleep ys) h);
  reader = λ j n h. reader j n h;
}
  where
    all_woken :
        (j n : ℕ) {G : Type 0}
        → r.2 ≡ at_nread ∷ []
        → wake_all at_nread r.2 s.readers j ≡ asleep n
        → G
    all_woken j n e h =
        absurd (
          rouse_lem (s.readers j) n (subst (λ cs. wake_all at_nread cs s.readers j ≡ asleep n) e h))

    reader :
        (j n : ℕ)
        → wake_all at_nread r.2 s.readers j ≡ asleep n
        → (used r.1 ≡ 0) × (r.1.writeopen ≡ true) × (r.1.readopen ≡ true)
    reader j n h = elim (dec_le (length xs) (room s.pipe)) [
      | yes le ↦ all_woken j n (w.all_fit le).1 h
      | no gt ↦ (elim (w.too_many (omega arith)).1 [
        | inr sleeps ↦ all_woken j n sleeps.1 h
        | inl fails ↦
            let old = (v.reader j n (wake_all_lem at_nread r.2 s.readers j n h)).2 in
            elim fails.1 [ inl shut ↦ cc | inr killed ↦ cc ]
      ])
    ]

    kept : (used s.pipe ≡ pipesize) → used r.1 ≡ pipesize
    kept full =
        let fits = w.valid.fits in
        let bytes = ap length w.bytes in
        let before = length-contents s.pipe in
        let now = length-contents r.1 in
        let total = length-append (contents s.pipe) (take (room s.pipe) xs) in omega arith

    writer :
        (j : ℕ) (ys : List ℕ)
        → (after r.0 ≡ asleep ys) ⊎ (wake_all at_nwrite r.2 s.writers j ≡ asleep ys)
        → (used r.1 ≡ pipesize) × (r.1.readopen ≡ true)
    writer j ys (inr h) =
        let old = v.writer j ys (wake_all_lem at_nwrite r.2 s.writers j ys h) in
        (kept old.0, w.ends_open.0 ∙ old.1)
    writer j ys (inl h) = elim (dec_le (length xs) (room s.pipe)) [
      | yes le ↦
          absurd
            (let e : idle ≡ asleep ys = subst (λ t. after t ≡ asleep ys) (w.all_fit le).0 h in cc e)
      | no gt ↦
          let many = w.too_many (omega arith) in
          elim many.1 [
            | inr sleeps ↦ (many.0, w.ends_open.0 ∙ sleeps.2)
            | inl fails ↦
                absurd
                  (let e : idle ≡ asleep ys = subst (λ t. after t ≡ asleep ys) fails.0 h in cc e)
          ]
    ]

empty : (p : Pipe) → used p ≡ 0 → contents p ≡ []
empty p e = elim (is_nil (contents p)) [
  | inl n ↦ n
  | inr ne ↦ absurd (ne (nothing (contents p) (length-contents p ∙ e)))
]
  where
    nothing : (xs : List ℕ) → length xs ≡ 0 → xs ≡ []
    nothing [] h = refl
    nothing (x ∷ xs) h = absurd (omega arith)

-- A reader that copies wakes every writer, and no reader was asleep.
copied-Justified :
    (s : System) (i n : ℕ) (r : End (List ℕ) ℕ × Pipe × List Chan)
    → Justified s
    → IsValid r.1
    → (contents s.pipe ≢ []) ⊎ (s.pipe.writeopen ≡ false)
    → r.0 ≡ returned (take n (contents s.pipe))
    → r.2 ≡ at_nwrite ∷ []
    → Justified (after_read s i r)
copied-Justified s i n r v valid why result wakes = record {
  valid = valid;
  writer = λ j ys h. absurd (
      rouse_lem (s.writers j) ys
        (subst (λ cs. wake_all at_nwrite cs s.writers j ≡ asleep ys) wakes h));
  reader = λ j m h.
      reader j m (assign_lem i (after r.0) (wake_all at_nread r.2 s.readers) j (asleep m) h);
}
  where
    reader :
        (j m : ℕ)
        → (after r.0 ≡ asleep m) ⊎ (wake_all at_nread r.2 s.readers j ≡ asleep m)
        → (used r.1 ≡ 0) × (r.1.writeopen ≡ true) × (r.1.readopen ≡ true)
    reader j m (inl h) =
        absurd (let e : idle ≡ asleep m = subst (λ t. after t ≡ asleep m) result h in cc e)
    reader j m (inr h) =
        let old = v.reader j m (wake_all_lem at_nread r.2 s.readers j m h) in
        elim why [
          | inl ne ↦ absurd (ne (empty s.pipe old.0))
          | inr shut ↦ absurd (let o = old.1 in cc)
        ]

-- A reader that blocks sleeps on an empty pipe with both ends open, or fails when it was killed.
blocked-Justified :
    (s : System) (killed : Bool) (i n : ℕ)
    → Justified s
    → contents s.pipe ≡ []
    → s.pipe.writeopen ≡ true
    → s.pipe.readopen ≡ true
    → Justified (after_read s i (if killed then (failed, s.pipe, []) else (sleeping n, s.pipe, [])))
blocked-Justified s true i n v e o q = record {
  valid = v.valid;
  writer = λ j ys h. v.writer j ys h;
  reader = λ j m h. elim (assign_lem i idle s.readers j (asleep m) h) [
    | inl new ↦ absurd (cc new)
    | inr old ↦ v.reader j m old
  ];
}
blocked-Justified s false i n v e o q = record {
  valid = v.valid;
  writer = λ j ys h. v.writer j ys h;
  reader = λ j m h. elim (assign_lem i (asleep n) s.readers j (asleep m) h) [
    | inl new ↦ (sym (length-contents s.pipe) ∙ ap length e, o, q)
    | inr old ↦ v.reader j m old
  ];
}

read-Justified :
    (s : System) (killed : Bool) (i n : ℕ)
    → Justified s
    → s.pipe.readopen ≡ true
    → Justified (after_read s i (piperead killed s.pipe n))
read-Justified s killed i n v q =
    let r = piperead_refines killed s.pipe n v.valid in
    let copies = λ (why : (contents s.pipe ≢ []) ⊎ (s.pipe.writeopen ≡ false)).
      let c = r.copied why in
      copied-Justified s i n (piperead killed s.pipe n) v r.valid why c.0 c.2 in
    elim (is_nil (contents s.pipe)) [
      | inr ne ↦ copies (inl ne)
      | inl e ↦ (elim (Bool-cases s.pipe.writeopen) [
        | inr c ↦ copies (inr c)
        | inl o ↦ rw (r.blocked e o) (blocked-Justified s killed i n v e o q)
      ])
    ]

step-Justified : {s t : System} → Justified s → Step s t → Justified t
unfolding pipeclose
step-Justified v (writes s i xs runs is_open) =
    write-Justified s i xs (pipewrite false s.pipe xs) v (pipewrite_refines false s.pipe xs v.valid)
step-Justified v (reads s killed i n runs is_open) = read-Justified s killed i n v is_open
step-Justified v (closes_write s) = record {
  valid = pipeclose-IsValid s.pipe true v.valid;
  writer = λ j ys h. v.writer j ys h;
  reader = λ j n h. absurd (rouse_lem (s.readers j) n h);
}
step-Justified v (closes_read s idle_readers) = record {
  valid = pipeclose-IsValid s.pipe false v.valid;
  writer = λ j ys h. absurd (rouse_lem (s.writers j) ys h);
  reader = λ j n h. absurd (let e = sym (idle_readers j) ∙ h in cc e);
}
step-Justified v (kills_reader s i) = record {
  valid = v.valid;
  writer = v.writer;
  reader = λ j n h. elim (assign_lem i (rouse (s.readers i)) s.readers j (asleep n) h) [
    | inl new ↦ absurd (rouse_lem (s.readers i) n new)
    | inr old ↦ v.reader j n old
  ];
}

-- No wake-up is lost: from a state in which every sleeper has a reason to sleep, for example one
-- in which nobody sleeps, the steps reach only such states. In each of them a writer sleeps only
-- while the pipe is full and its read end open, and a reader only while it is empty and both ends
-- are open; so a call that ends a reason has woken all who slept for it, and a writer and a reader
-- never sleep at the same time. No process that writes is killed.
pub no_lost_wakeup :
    {s t : System}
    → Justified s
    → Reach s t
    → Justified t × ((i j n : ℕ) (xs : List ℕ) → t.writers i ≡ asleep xs → t.readers j ≢ asleep n)
no_lost_wakeup v reach =
    let w = justified v reach in
    (w, λ i j n xs a b. let f = (w.writer i xs a).0 in let e = (w.reader j n b).0 in omega arith)
  where
    justified : {s t : System} → Justified s → Reach s t → Justified t
    justified v (here s) = v
    justified v (there reach step) = step-Justified (justified v reach) step
