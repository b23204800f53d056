-- ===== src/Kernel/Console/Edit.antt =====
-- The keyboard interrupt is the editor of Lines.
use os_ass.Base.{
  ℕ, ◌+◌, ◌≡◌, refl, sym, ap, ◌∙◌, subst, Bool, true, false, not, ◌&&◌, ◌||◌, List, [], ◌∷◌, length,
  ◌==◌, ltb, if◌then◌else◌, add32, sub32, arith, Bool-cases, inl, inr,
}
use os_ass.Base.Ring.{length-window}
use os_ass.Kernel.Console.{
  Input, input_buf, newline, ctrl_d, Effect, put, wake, kill_line, store, key, consoleintr,
}
use os_ass.Kernel.Console.Lines.{
  ready_count, typed_count, ready, typed, IsValid, Editor, accept, edit, editor,
}
use os_ass.Kernel.Console.Erase.{Edits, unchanged, kill_loop-Edits, backspace-Edits}
use os_ass.Kernel.Console.Append.{longer, ended, accept-Edits}

room_test :
    (i : Input)
    → IsValid i
    → ltb (sub32 i.e i.r) input_buf ≡ ltb (length (ready i) + length (typed i)) input_buf
room_test i v =
    ap (λ n. ltb n input_buf)
      (omega (
        arith,
        v.r_word,
        v.w_word,
        v.e_word,
        v.fits,
        length-window input_buf i.buf i.r 0 (ready_count i),
        length-window input_buf i.buf i.w 0 (typed_count i),
      ))

abbrev input_of : Input × List Effect → Input
input_of r = r.0

if-first :
    (b : Bool) (x y : Input) (k l : List Effect)
    → input_of (if b then (x, k) else (y, l)) ≡ (if b then x else y)
if-first true x y k l = refl
if-first false x y k l = refl

store-Edits :
    (c : ℕ) (i : Input)
    → IsValid i
    → Edits i
        (if not (c == 0) && ltb (length (ready i) + length (typed i)) input_buf
          then accept (if c == b'\r' then newline else c) (editor i)
          else editor i)
        (store c i).0
unfolding store longer ended
store-Edits c i v =
    subst
      (λ t.
        Edits i
          (if not (c == 0) && ltb (length (ready i) + length (typed i)) input_buf
            then accept c1 (editor i)
            else editor i)
          (input_of (
            if not (c == 0) && t
            then (if full then (ended (longer c1 i), k) else (longer c1 i, l))
            else (i, []))))
      (sym (room_test i v))
      (elim (Bool-cases (not (c == 0) && ltb (length (ready i) + length (typed i)) input_buf)) [
        | inl t ↦ rw t (
            subst (Edits i (accept c1 (editor i)))
              (sym (if-first full (ended (longer c1 i)) (longer c1 i) k l))
              (accept-Edits c1 i v (
                ground (
                  arith,
                  t,
                  length-window input_buf i.buf i.r 0 (ready_count i),
                  length-window input_buf i.buf i.w 0 (typed_count i),
                ))))
        | inr t ↦ rw t (unchanged i v)
      ])
  where
    c1 : ℕ
    c1 = if c == b'\r' then newline else c

    full : Bool
    full = c1 == newline || (c1 == ctrl_d || (longer c1 i).e == add32 i.r input_buf)

    k : List Effect
    k = put c1 ∷ wake ∷ []

    l : List Effect
    l = put c1 ∷ []

kill_line-Edits :
    (i : Input) → IsValid i → Edits i (record { lines = ready i; line = [] }) (kill_line i).0
unfolding kill_line
kill_line-Edits i v = kill_loop-Edits (typed_count i) i v (omega arith)

key-Edits : (c : ℕ) (i : Input) → IsValid i → Edits i (edit c (editor i)) (key c i).0
unfolding key
key-Edits c i v = elim (Bool-cases (c == 16)) [
  | inl a ↦ rw a (unchanged i v)
  | inr a ↦ elim (Bool-cases (c == 21)) [
    | inl b ↦ rw (a, b) (kill_line-Edits i v)
    | inr b ↦ elim (Bool-cases (c == 8 || c == 127)) [
      | inl d ↦ rw (a, b, d) (backspace-Edits i v)
      | inr d ↦ rw (a, b, d) (store-Edits c i v)
    ]
  ]
]

abbrev pub edits : List ℕ → Editor → Editor
edits [] x = x
edits (c ∷ cs) x = edits cs (edit c x)

-- However many characters arrive, the input buffer does what the editor of two lists does, across
-- the wrap of its counters, and never holds more than 128 bytes.
pub consoleintr_refines :
    (cs : List ℕ) (i : Input)
    → IsValid i
    → IsValid (consoleintr cs i).0 × (editor (consoleintr cs i).0 ≡ edits cs (editor i))
unfolding consoleintr
consoleintr_refines [] i v = (v, refl)
consoleintr_refines (c ∷ cs) i v =
    let k = key-Edits c i v in
    let (valid, same) = consoleintr_refines cs (key c i).0 k.valid in
    (valid, same ∙ ap (edits cs) k.same)
