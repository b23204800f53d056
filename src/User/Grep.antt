-- ===== src/User/Grep.antt =====
-- grep.c: the regular-expression matcher (`match`, `matchhere`, `matchstar`).
-- A C string is the list of its bytes before the NUL; `*p == 0` is the empty list.
pub mod Spec
pub mod Correct
mod Tests
use os_ass.Base.{ℕ, Bool, true, false, ◌||◌, List, [], ◌∷◌, ◌==◌, if◌then◌else◌}

-- `matchstar`; `here` is `matchhere` on the rest of the pattern.
pub match_star : (List ℕ → Bool) → ℕ → List ℕ → Bool
match_star here c [] = here []
match_star here c (t ∷ text) =
    let more = match_star here c text in
    if here (t ∷ text) then true else if t == c || c == b'.' then more else false

-- The last two tests of `matchhere`: `*text != 0 && (re[0] == '.' || re[0] == *text)`, and then
-- `matchhere(re + 1, text + 1)`, which is the argument `here`.
pub match_char : (List ℕ → Bool) → ℕ → List ℕ → Bool
match_char here r [] = false
match_char here r (t ∷ text) = if r == b'.' || r == t then here text else false

pub is_nul : List ℕ → Bool
is_nul [] = true
is_nul (t ∷ text) = false

pub match_here : List ℕ → List ℕ → Bool
match_here [] text = true
match_here (r ∷ []) text = if r == b'$' then is_nul text else match_char (match_here []) r text
match_here (r ∷ s ∷ re) text =
    if s == b'*' then match_star (match_here re) r text else match_char (match_here (s ∷ re)) r text

-- The `do … while(*text++ != 0)` of `match`.
pub match_from : List ℕ → List ℕ → Bool
match_from re [] = match_here re []
match_from re (t ∷ text) =
    let more = match_from re text in if match_here re (t ∷ text) then true else more

pub match : List ℕ → List ℕ → Bool
match [] text = match_from [] text
match (r ∷ re) text = if r == b'^' then match_here re text else match_from (r ∷ re) text
