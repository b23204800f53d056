-- ===== src/Kernel/Console/Append.antt =====
-- A character at the end of the line, and the end of a line.
use os_ass.Base.{
  ℕ, suc, ◌+◌, ◌%◌, ◌≤◌, ◌<◌, ◌≡◌, ◌≢◌, sym, ap, ap₂, ◌∙◌, subst, ◌||◌, [], ◌∷◌, ◌++◌, All, length,
  length-set, set, ◌==◌, if◌then◌else◌, add32, sub32, u32_mod, arith, Bool-cases, inl, inr,
}
use os_ass.Base.Ring.{
  window, length-window, window-push, window-set, window-append, window-shift, IsRingSize-128,
}
use os_ass.Kernel.Console.{Input, input_buf, newline, ctrl_d}
use os_ass.Kernel.Console.Lines.{ready_count, typed_count, ready, typed, IsValid, accept, editor}
use os_ass.Kernel.Console.Erase.{All-snoc, Edits}

-- The buffer with one more character at the end of the line.
unfoldable pub longer : ℕ → Input → Input
longer c i = record i { buf = set i.buf (i.e % input_buf) c; e = add32 i.e 1 }

module _ (c : ℕ) (i : Input) (v : IsValid i)
    (room : ready_count i + typed_count i < input_buf) where
  typed-longer : typed (longer c i) ≡ typed i ++ (c ∷ [])
  unfolding longer
  typed-longer =
      ap₂ (λ j n. window input_buf (set i.buf (j % input_buf) c) i.w 0 n) here count
      ∙ window-push input_buf i.buf i.w (typed_count i) c IsRingSize-128 v.storage
          (omega (arith, room))
    where
      here : i.e ≡ add32 i.w (typed_count i)
      here = omega (arith, v.e_word, v.w_word)

      count : typed_count (longer c i) ≡ suc (typed_count i)
      count = omega (arith, v.e_word, v.w_word, room)

  ready-longer : ready (longer c i) ≡ ready i
  unfolding longer
  ready-longer =
      ap (λ j. window input_buf (set i.buf (j % input_buf) c) i.r 0 (ready_count i)) here
      ∙ window-set input_buf i.buf i.r 0 (ready_count i) (ready_count i + typed_count i) c
          IsRingSize-128 (omega arith) room
    where
      here : i.e ≡ add32 i.r (ready_count i + typed_count i)
      here = omega (arith, v.e_word, v.w_word, v.r_word)

  longer-IsValid : c ≢ newline → IsValid (longer c i)
  unfolding longer
  longer-IsValid ne = record {
    storage = length-set i.buf (i.e % input_buf) c ∙ v.storage;
    r_word = v.r_word;
    w_word = v.w_word;
    e_word = omega arith;
    fits = omega (arith, v.e_word, v.w_word, v.r_word, room);
    one_line =
        subst (All (λ d. d ≢ newline)) (sym typed-longer)
          (All-snoc (λ d. d ≢ newline) (typed i) c v.one_line ne);
  }

-- The buffer with its line made ready.
unfoldable pub ended : Input → Input
ended i = record i { w = i.e }

ended-IsValid :
    (i : Input)
    → length i.buf ≡ input_buf
    → i.r < u32_mod
    → i.w < u32_mod
    → i.e < u32_mod
    → ready_count i + typed_count i ≤ input_buf
    → IsValid (ended i)
unfolding ended window
ended-IsValid i s r w e f = record {
  storage = s;
  r_word = r;
  w_word = e;
  e_word = e;
  fits = omega (arith, r, w, e, f);
  one_line = subst (λ n. All (λ d. d ≢ newline) (window input_buf i.buf i.e 0 n)) none tt;
}
  where
    none : 0 ≡ sub32 i.e i.e
    none = omega (arith, e)

editor-ended :
    (i : Input)
    → i.r < u32_mod
    → i.w < u32_mod
    → i.e < u32_mod
    → ready_count i + typed_count i ≤ input_buf
    → editor (ended i) ≡ record { lines = ready i ++ typed i; line = [] }
unfolding ended window
editor-ended i r w e f =
    ap₂ (λ a b. record { lines = a; line = b })
      (ap (λ n. window input_buf i.buf i.r 0 n) count
        ∙ window-append input_buf i.buf i.r 0 (ready_count i) (typed_count i)
        ∙ ap (λ t. ready i ++ t) shift)
      (ap (λ n. window input_buf i.buf i.e 0 n) none)
  where
    count : sub32 i.e i.r ≡ ready_count i + typed_count i
    count = omega (arith, r, w, e, f)

    none : sub32 i.e i.e ≡ 0
    none = omega (arith, e)

    there : i.w ≡ add32 i.r (ready_count i)
    there = omega (arith, r, w)

    shift : window input_buf i.buf i.r (0 + ready_count i) (typed_count i) ≡ typed i
    shift =
        ap (λ k. window input_buf i.buf i.r k (typed_count i)) (omega arith)
        ∙ sym (window-shift input_buf i.buf i.r (ready_count i) 0 (typed_count i))
        ∙ ap (λ h. window input_buf i.buf h 0 (typed_count i)) (sym there)

module _ (c : ℕ) (i : Input) (v : IsValid i)
    (room : ready_count i + typed_count i < input_buf) where
  longer-ended-Edits :
      Edits i (record { lines = ready i ++ (typed i ++ (c ∷ [])); line = [] }) (ended (longer c i))
  unfolding longer
  longer-ended-Edits = record {
    valid =
        ended-IsValid (longer c i) (length-set i.buf (i.e % input_buf) c ∙ v.storage) v.r_word
          v.w_word (omega arith) bound;
    same =
        editor-ended (longer c i) v.r_word v.w_word (omega arith) bound
        ∙ ap₂ (λ a b. record { lines = a ++ b; line = [] }) (ready-longer c i v room)
            (typed-longer c i v room);
  }
    where
      bound : ready_count (longer c i) + typed_count (longer c i) ≤ input_buf
      bound = omega (arith, v.e_word, v.w_word, v.r_word, room)

  -- The code's tests for room and for a full buffer are those of the editor.
  same_length : length (ready i) + suc (length (typed i)) ≡ suc (ready_count i + typed_count i)
  same_length = omega (
    arith,
    length-window input_buf i.buf i.r 0 (ready_count i),
    length-window input_buf i.buf i.w 0 (typed_count i),
  )

  full_test :
      ((longer c i).e == add32 i.r input_buf)
      ≡ (length (ready i) + suc (length (typed i)) == input_buf)
  unfolding longer
  full_test =
      subst (λ n. (add32 i.e 1 == add32 i.r input_buf) ≡ (n == input_buf)) (sym same_length)
        (ground (arith, v.e_word, v.w_word, v.r_word, room))

  pub accept-Edits : Edits i (accept c (editor i)) (
      if c == newline || (c == ctrl_d || (longer c i).e == add32 i.r input_buf)
      then ended (longer c i)
      else longer c i)
  accept-Edits =
      subst
        (λ t.
          Edits i (accept c (editor i))
            (if c == newline || (c == ctrl_d || t) then ended (longer c i) else longer c i))
        (sym full_test)
        (elim (Bool-cases (
          c == newline
          || (c == ctrl_d || length (ready i) + suc (length (typed i)) == input_buf))) [
            | inl t ↦ rw t longer-ended-Edits
            | inr t ↦ rw t (record {
              valid = longer-IsValid c i v room (ground (arith, t));
              same =
                  ap₂ (λ a b. record { lines = a; line = b }) (ready-longer c i v room)
                    (typed-longer c i v room);
            })
          ])
