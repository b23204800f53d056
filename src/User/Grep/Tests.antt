-- ===== src/User/Grep/Tests.antt =====
-- Runs of the matcher, and its theorem at a concrete pattern.
use os_ass.Base.{ℕ, ◌≡◌, ◌↔◌, refl, true, false, List, [], ◌∷◌}
use os_ass.User.Grep.{match_star, match_char, is_nul, match_here, match_from, match}
use os_ass.User.Grep.Spec.{Matches}
use os_ass.User.Grep.Correct.{match_iff}

-- "b*c$" and "abbc"
abbrev pattern_bc : List ℕ
pattern_bc = b'b' ∷ b'*' ∷ b'c' ∷ b'$' ∷ []

abbrev text_abbc : List ℕ
text_abbc = b'a' ∷ b'b' ∷ b'b' ∷ b'c' ∷ []

match_tail : match pattern_bc text_abbc ≡ true
unfolding match match_from match_here match_star match_char is_nul
match_tail = refl

match_anchor : match (b'^' ∷ pattern_bc) text_abbc ≡ false
unfolding match match_from match_here match_star match_char is_nul
match_anchor = refl

match_iff_example : (match pattern_bc text_abbc ≡ true) ↔ Matches pattern_bc text_abbc
match_iff_example = match_iff pattern_bc text_abbc
