-- ===== src/Kernel/Console/Erase.antt =====
-- ^U and backspace: taking characters off the line that is typed.
use os_ass.Base.{
  ℕ, zero, suc, ◌%◌, ◌≤◌, ◌≡◌, ◌≢◌, refl, sym, ap, ap₂, ◌∙◌, subst, true, ◌||◌, List, [], ◌∷◌, ◌++◌,
  All, get_or, ◌==◌, sub32, arith, Bool-cases, inl, inr, ==→eq, ==→ne,
}
use os_ass.Base.Ring.{window, window-snoc}
use os_ass.Kernel.Console.{Input, input_buf, newline, kill_loop, backspace}
use os_ass.Kernel.Console.Lines.{typed_count, ready, typed, IsValid, Editor, drop_last, editor}

module _ {ℓ} (P : ℕ → Type ℓ) where
  pub All-snoc : (xs : List ℕ) (x : ℕ) → All P xs → P x → All P (xs ++ (x ∷ []))
  All-snoc [] x h p = (p, tt)
  All-snoc (y ∷ xs) x h p = (h.0, All-snoc xs x h.1 p)

  All-init : (xs : List ℕ) (x : ℕ) → All P (xs ++ (x ∷ [])) → All P xs × P x
  All-init [] x h = (tt, h.0)
  All-init (y ∷ xs) x h = let r = All-init xs x h.1 in ((h.0, r.0), r.1)

drop_last-snoc : (xs : List ℕ) (x : ℕ) → drop_last (xs ++ (x ∷ [])) ≡ xs
drop_last-snoc [] x = refl
drop_last-snoc (y ∷ []) x = refl
drop_last-snoc (y ∷ z ∷ xs) x = ap (λ t. y ∷ t) (drop_last-snoc (z ∷ xs) x)

-- The line without its last character.
shorter : Input → Input
shorter i = record i { e = sub32 i.e 1 }

typed-shorter :
    (i : Input)
    → IsValid i
    → i.e ≢ i.w
    → typed i ≡ typed (shorter i) ++ (get_or i.buf (sub32 i.e 1 % input_buf) 0 ∷ [])
unfolding shorter
typed-shorter i v ne =
    ap (λ n. window input_buf i.buf i.w 0 n) count
    ∙ window-snoc input_buf i.buf i.w 0 (typed_count (shorter i))
    ∙ ap
        (λ j.
          window input_buf i.buf i.w 0 (typed_count (shorter i))
          ++ (get_or i.buf (j % input_buf) 0 ∷ []))
        (omega arith)
  where
    count : typed_count i ≡ suc (typed_count (shorter i))
    count = omega (arith, v.e_word, v.w_word)

shorter-IsValid : (i : Input) → IsValid i → i.e ≢ i.w → IsValid (shorter i)
unfolding shorter
shorter-IsValid i v ne = record {
  storage = v.storage;
  r_word = v.r_word;
  w_word = v.w_word;
  e_word = omega arith;
  fits = omega (arith, v.fits, v.e_word, v.w_word);
  one_line =
      (All-init (λ c. c ≢ newline) (typed (shorter i)) _
        (subst (All (λ c. c ≢ newline)) (typed-shorter i v ne) v.one_line)).0;
}

-- What a key does to the buffer, as the editor sees it.
pub record Edits (i : Input) (x : Editor) (j : Input) : Type 0 where
  pub valid : IsValid j
  pub same : editor j ≡ x

typed_nil : (i : Input) → IsValid i → i.e ≡ i.w → typed i ≡ []
unfolding window
typed_nil i v e =
    let z : typed_count i ≡ 0 = omega arith in ap (λ n. window input_buf i.buf i.w 0 n) z

pub unchanged : (i : Input) → IsValid i → Edits i (editor i) i
unchanged i v = record { valid = v; same = refl }

-- A typed character is no newline, so ^U stops only at the start of the line.
stops_at_start :
    (i : Input)
    → IsValid i
    → (i.e == i.w || get_or i.buf (sub32 i.e 1 % input_buf) 0 == newline) ≡ true
    → i.e ≡ i.w
stops_at_start i v t = elim (Bool-cases (i.e == i.w)) [
  | inl e ↦ ==→eq i.e i.w e
  | inr e ↦
      let last =
        (All-init (λ c. c ≢ newline) (typed (shorter i)) _
          (subst (All (λ c. c ≢ newline)) (typed-shorter i v (==→ne i.e i.w e)) v.one_line)).1 in
      absurd (
        last (
          ==→eq _ newline
            (ap (λ b. b || get_or i.buf (sub32 i.e 1 % input_buf) 0 == newline) (sym e) ∙ t)))
]

pub kill_loop-Edits :
    (n : ℕ) (i : Input)
    → IsValid i
    → typed_count i ≤ n
    → Edits i (record { lines = ready i; line = [] }) (kill_loop n i).0
unfolding kill_loop shorter
kill_loop-Edits zero i v l = record {
  valid = v;
  same =
      ap (λ t. record { lines = ready i; line = t })
        (typed_nil i v (omega (arith, v.e_word, v.w_word)));
}
kill_loop-Edits (suc n) i v l =
    elim (Bool-cases (i.e == i.w || get_or i.buf (sub32 i.e 1 % input_buf) 0 == newline)) [
      | inl t ↦ rw t (record {
        valid = v;
        same =
            ap (λ t. record { lines = ready i; line = t }) (typed_nil i v (stops_at_start i v t));
      })
      | inr t ↦
          let ne : i.e ≢ i.w = ground (arith, t) in
          let ih =
            kill_loop-Edits n (shorter i) (shorter-IsValid i v ne)
              (omega (arith, l, v.e_word, v.w_word)) in
          rw t (record { valid = ih.valid; same = ih.same })
    ]

pub backspace-Edits :
    (i : Input)
    → IsValid i
    → Edits i (record { lines = ready i; line = drop_last (typed i) }) (backspace i).0
unfolding backspace shorter
backspace-Edits i v = elim (Bool-cases (i.e == i.w)) [
  | inl t ↦ rw t (record {
    valid = v;
    same =
        ap₂ (λ a b. record { lines = ready i; line = a })
          (typed_nil i v (==→eq i.e i.w t) ∙ ap drop_last (sym (typed_nil i v (==→eq i.e i.w t))))
          t;
  })
  | inr t ↦
      let ne = ==→ne i.e i.w t in
      rw t (record {
        valid = shorter-IsValid i v ne;
        same =
            ap (λ a. record { lines = ready i; line = a })
              (sym (ap drop_last (typed-shorter i v ne) ∙ drop_last-snoc (typed (shorter i)) _));
      })
]
