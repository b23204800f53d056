-- ===== src/Kernel/Console/Lines.antt =====
-- What the input buffer holds: the bytes that are ready and the line that is typed, and an editor on
-- these two lists.
use os_ass.Base.{
  ℕ, suc, ◌+◌, ◌≤◌, ◌<◌, ◌≡◌, ◌≢◌, not, ◌&&◌, ◌||◌, List, [], ◌∷◌, ◌++◌, All, length, ◌==◌, ltb,
  if◌then◌else◌, sub32, u32_mod,
}
use os_ass.Base.Ring.{window}
use os_ass.Kernel.Console.{Input, input_buf, newline, ctrl_d}

abbrev pub ready_count : Input → ℕ
ready_count i = sub32 i.w i.r

abbrev pub typed_count : Input → ℕ
typed_count i = sub32 i.e i.w

abbrev pub ready : Input → List ℕ
ready i = window input_buf i.buf i.r 0 (ready_count i)

abbrev pub typed : Input → List ℕ
typed i = window input_buf i.buf i.w 0 (typed_count i)

pub record IsValid (i : Input) : Type 0 where
  pub storage : length i.buf ≡ input_buf
  pub r_word : i.r < u32_mod
  pub w_word : i.w < u32_mod
  pub e_word : i.e < u32_mod
  pub fits : ready_count i + typed_count i ≤ input_buf
  pub one_line : All (λ c. c ≢ newline) (typed i)

-- The editor that a user knows.
pub record Editor : Type 0 where
  pub lines : List ℕ
  pub line : List ℕ

abbrev pub drop_last : List ℕ → List ℕ
drop_last [] = []
drop_last (c ∷ []) = []
drop_last (c ∷ d ∷ cs) = c ∷ drop_last (d ∷ cs)

-- A byte is appended to the line; at the end of a line, at ^D, or when 128 bytes wait, the line
-- becomes ready.
abbrev pub accept : ℕ → Editor → Editor
accept c x =
    if c == newline || (c == ctrl_d || length x.lines + suc (length x.line) == input_buf)
    then record { lines = x.lines ++ (x.line ++ (c ∷ [])); line = [] }
    else record x { line = x.line ++ (c ∷ []) }

abbrev pub edit : ℕ → Editor → Editor
edit c x =
    if c == 16
    then x
    else if c == 21
    then record x { line = [] }
    else if c == 8 || c == 127
    then record x { line = drop_last x.line }
    else if not (c == 0) && ltb (length x.lines + length x.line) input_buf
    then accept (if c == b'\r' then newline else c) x
    else x

abbrev pub editor : Input → Editor
editor i = record { lines = ready i; line = typed i }
