-- ===== src/User/Grep/Spec.antt =====
-- What a pattern of grep.c means, without reference to the matcher.
use os_ass.Base.{ℕ, ◌≡◌, ◌≢◌, ◌⊎◌, List, [], ◌∷◌, ◌++◌, All}

-- One pattern character accepts one text character.
abbrev pub Accepts : ℕ → ℕ → Type 0
Accepts r t = (r ≡ b'.') ⊎ (r ≡ t)

-- The pattern matches at the beginning of the text. `c*` takes any number of characters that `c`
-- accepts; a last `$` takes the end of the text; anything else takes one character.
pub data Here : List ℕ → List ℕ → Type 0 where
  done : (text : List ℕ) → Here [] text
  eol : {r : ℕ} → r ≡ b'$' → Here (r ∷ []) []
  star :
      {r s : ℕ} {re text : List ℕ} (run rest : List ℕ)
      → s ≡ b'*'
      → text ≡ run ++ rest
      → All (Accepts r) run
      → Here re rest
      → Here (r ∷ s ∷ re) text
  last : {r t : ℕ} {text : List ℕ} → r ≢ b'$' → Accepts r t → Here (r ∷ []) (t ∷ text)
  one :
      {r s t : ℕ} {re text : List ℕ}
      → s ≢ b'*'
      → Accepts r t
      → Here (s ∷ re) text
      → Here (r ∷ s ∷ re) (t ∷ text)

-- The pattern matches at the beginning of some tail of the text.
abbrev pub Somewhere : List ℕ → List ℕ → Type 0
Somewhere re text = (pre : List ℕ) × (rest : List ℕ) × (text ≡ pre ++ rest) × Here re rest

-- A leading `^` holds the match to the beginning of the text.
pub data Matches : List ℕ → List ℕ → Type 0 where
  anchored : {r : ℕ} {re text : List ℕ} → r ≡ b'^' → Here re text → Matches (r ∷ re) text
  floating : {r : ℕ} {re text : List ℕ} → r ≢ b'^' → Somewhere (r ∷ re) text → Matches (r ∷ re) text
  empty : (text : List ℕ) → Matches [] text
