-- ===== src/User/Grep/Correct.antt =====
-- The matcher of grep.c decides the meaning of its patterns.
use os_ass.Base.{
  ℕ, ◌≡◌, ◌↔◌, inl, inr, refl, ap, Bool, true, false, List, [], ◌∷◌, ◌++◌, All, ◌==◌, arith,
  Bool-cases,
}
use os_ass.User.Grep.{match_star, match_char, is_nul, match_here, match_from, match}
use os_ass.User.Grep.Spec.{
  Accepts, Here, done, eol, star, last, one, Somewhere, Matches, anchored, floating, empty,
}

-- A run of `c*` and then a text that the rest accepts.
abbrev Run : (List ℕ → Bool) → ℕ → List ℕ → Type 0
Run here c text =
    (run : List ℕ) × (rest : List ℕ) × (text ≡ run ++ rest)
    × All (Accepts c) run
    × (here rest ≡ true)

Run-cons :
    (here : List ℕ → Bool) (c t : ℕ) (text : List ℕ)
    → Accepts c t
    → Run here c text
    → Run here c (t ∷ text)
Run-cons here c t text a (run, rest, e, acc, h) = (t ∷ run, rest, ap (λ k. t ∷ k) e, (a, acc), h)

match_star_sound :
    (here : List ℕ → Bool) (c : ℕ) (text : List ℕ) → match_star here c text ≡ true → Run here c text
unfolding match_star
match_star_sound here c [] h = ([], [], refl, tt, h)
match_star_sound here c (t ∷ text) h = elim (Bool-cases (here (t ∷ text))) [
  | inl now ↦ ([], t ∷ text, refl, tt, now)
  | inr later ↦ Run-cons here c t text (ground arith) (match_star_sound here c text (ground arith))
]

match_star_complete :
    (here : List ℕ → Bool) (c : ℕ) (run rest : List ℕ)
    → All (Accepts c) run
    → here rest ≡ true
    → match_star here c (run ++ rest) ≡ true
unfolding match_star
match_star_complete here c [] [] a h = h
match_star_complete here c [] (t ∷ rest) a h = ground arith
match_star_complete here c (r ∷ run) rest a h =
    ground (arith, match_star_complete here c run rest a.1 h)

-- What `matchhere` reports is a match.
match_here_sound : (re text : List ℕ) → match_here re text ≡ true → Here re text
unfolding match_here match_char is_nul
match_here_sound [] text h = done text
match_here_sound (r ∷ []) [] h = eol (ground arith)
match_here_sound (r ∷ []) (t ∷ text) h = last (ground arith) (ground arith)
match_here_sound (r ∷ s ∷ re) text h = elim (Bool-cases (s == b'*')) [
  | inl e ↦
      let found : Run (match_here re) r text =
        match_star_sound (match_here re) r text (ground arith) in
      star found.0 found.1 (ground arith) found.2 found.3 (match_here_sound re found.1 found.4)
  | inr e ↦ plain text h e (match_here_sound (s ∷ re))
]
  where
    plain :
        (text : List ℕ)
        → match_here (r ∷ s ∷ re) text ≡ true
        → (s == b'*') ≡ false
        → ((rest : List ℕ) → match_here (s ∷ re) rest ≡ true → Here (s ∷ re) rest)
        → Here (r ∷ s ∷ re) text
    plain [] h e rec = cc (rw e at h)
    plain (t ∷ text) h e rec = one (ground arith) (ground arith) (rec text (ground arith))

match_here_complete : {re text : List ℕ} → Here re text → match_here re text ≡ true
unfolding match_here match_char is_nul
match_here_complete (done text) = refl
match_here_complete (eol e) = ground arith
match_here_complete (star {r} {s} {re} {text} run rest e split acc h) =
    ground
      (arith, match_star_complete (match_here re) r run rest acc (match_here_complete h), split)
match_here_complete (last n a) = ground arith
match_here_complete (one n a h) = ground (arith, match_here_complete h)

match_from_sound : (re text : List ℕ) → match_from re text ≡ true → Somewhere re text
unfolding match_from
match_from_sound re [] h = ([], [], refl, match_here_sound re [] h)
match_from_sound re (t ∷ text) h = elim (Bool-cases (match_here re (t ∷ text))) [
  | inl now ↦ ([], t ∷ text, refl, match_here_sound re (t ∷ text) now)
  | inr later ↦ further (match_from_sound re text (ground arith))
]
  where
    further : Somewhere re text → Somewhere re (t ∷ text)
    further (pre, rest, e, m) = (t ∷ pre, rest, ap (λ k. t ∷ k) e, m)

match_from_complete :
    (re pre rest : List ℕ) → match_here re rest ≡ true → match_from re (pre ++ rest) ≡ true
unfolding match_from
match_from_complete re [] [] h = h
match_from_complete re [] (t ∷ rest) h = ground arith
match_from_complete re (p ∷ pre) rest h = ground (arith, match_from_complete re pre rest h)

match_sound : (re text : List ℕ) → match re text ≡ true → Matches re text
unfolding match
match_sound [] text h = empty text
match_sound (r ∷ re) text h = elim (Bool-cases (r == b'^')) [
  | inl e ↦ anchored (ground arith) (match_here_sound re text (ground arith))
  | inr e ↦ floating (ground arith) (match_from_sound (r ∷ re) text (ground arith))
]

match_complete : {re text : List ℕ} → Matches re text → match re text ≡ true
unfolding match match_from match_here
match_complete (anchored e h) = ground (arith, match_here_complete h)
match_complete (floating {r} {re} n (pre, rest, e, h)) =
    ground (arith, match_from_complete (r ∷ re) pre rest (match_here_complete h), e)
match_complete (empty []) = refl
match_complete (empty (t ∷ text)) = match_from_complete [] [] (t ∷ text) refl

-- `match(re, text)` returns 1 exactly when the pattern means a match in the text: with a leading
-- `^` at its beginning, without it at the beginning of some tail.
pub match_iff : (re text : List ℕ) → (match re text ≡ true) ↔ Matches re text
match_iff re text = (match_sound re text, match_complete)
