-- ===== src/Kernel/Console.antt =====
-- console.c: the line editor of the keyboard interrupt, reading from the console, and printing. The
-- input buffer is a ring of 128 bytes: `r` to `w` are the lines that are ready, `w` to `e` the line
-- that is typed. The screen is the list of what `consputc` was given.
pub mod Lines
pub mod Erase
pub mod Append
pub mod Edit
pub mod Reads
pub mod Print
pub mod Digits
mod Tests
use os_ass.Base.{
  ℕ, zero, suc, ◌+◌, ◌%◌, ◌-◌, Bool, true, false, not, ◌&&◌, ◌||◌, List, [], ◌∷◌, ◌++◌, get_or, set,
  ◌==◌, ltb, if◌then◌else◌, add32, sub32,
}

abbrev pub input_buf : ℕ
input_buf = 128

abbrev pub newline : ℕ
newline = b'\n'

-- `C('D')`
abbrev pub ctrl_d : ℕ
ctrl_d = 4

-- `input`
pub record Input : Type 0 where
  pub buf : List ℕ
  pub r : ℕ
  pub w : ℕ
  pub e : ℕ

-- What the handler does to the outside: `consputc` of a byte or of BACKSPACE, `procdump`, and
-- `wakeup(&input.r)`.
pub data Effect : Type 0 where
  put : ℕ → Effect
  erase : Effect
  process_list : Effect
  wake : Effect

-- The loop of ^U, with `rounds` characters left in the line at most.
pub kill_loop : ℕ → Input → Input × List Effect
kill_loop zero i = (i, [])
kill_loop (suc rounds) i =
    let rest = kill_loop rounds (record i { e = sub32 i.e 1 }) in
    if i.e == i.w || get_or i.buf (sub32 i.e 1 % input_buf) 0 == newline
    then (i, [])
    else (rest.0, erase ∷ rest.1)

-- `input.e != input.w` is tested before each round, so `e - w` rounds are all there can be.
pub kill_line : Input → Input × List Effect
kill_line i = kill_loop (sub32 i.e i.w) i

pub backspace : Input → Input × List Effect
backspace i = if i.e == i.w then (i, []) else (record i { e = sub32 i.e 1 }, erase ∷ [])

-- The `default` case. `c` is a byte: the buffer's `char` keeps it.
pub store : ℕ → Input → Input × List Effect
store c i =
    let c1 = if c == b'\r' then newline else c in
    let i1 = record i { buf = set i.buf (i.e % input_buf) c1; e = add32 i.e 1 } in
    if not (c == 0) && ltb (sub32 i.e i.r) input_buf
    then if c1 == newline || (c1 == ctrl_d || i1.e == add32 i1.r input_buf)
      then (record i1 { w = i1.e }, put c1 ∷ wake ∷ [])
      else (i1, put c1 ∷ [])
    else (i, [])

-- One round of the loop of `consoleintr`: ^P, ^U, ^H and DEL, or any other.
pub key : ℕ → Input → Input × List Effect
key c i =
    if c == 16
    then (i, process_list ∷ [])
    else if c == 21
    then kill_line i
    else if c == 8 || c == 127
    then backspace i
    else store c i

-- `consoleintr` on the characters that `getc` returns before it returns -1.
pub consoleintr : List ℕ → Input → Input × List Effect
consoleintr [] i = (i, [])
consoleintr (c ∷ cs) i =
    let (i1, now) = key c i in let (i2, later) = consoleintr cs i1 in (i2, now ++ later)

-- How a run of `consoleread` ends: it returns the number of bytes that it copied, here the bytes; it
-- returns -1; or it sleeps, having copied these, with `n` still to come.
pub data End : Type 0 where
  returned : List ℕ → End
  failed : End
  sleeping : (copied : List ℕ) → (n : ℕ) → End

abbrev pub copied_first : ℕ → End → End
copied_first c (returned cs) = returned (c ∷ cs)
copied_first c failed = failed
copied_first c (sleeping cs n) = sleeping (c ∷ cs) n

-- The loop of `consoleread` with `n` bytes to come of `target`. A sleeper runs it again.
pub read_loop : Bool → (target n : ℕ) → Input → End × Input
read_loop killed target zero i = (returned [], i)
read_loop killed target (suc n) i =
    let c = get_or i.buf (i.r % input_buf) 0 in
    let i1 = record i { r = add32 i.r 1 } in
    let rest = read_loop killed target n i1 in
    if i.r == i.w
    then if killed then (failed, i) else (sleeping [] (suc n), i)
    else if c == ctrl_d
    then (returned [], if ltb (suc n) target then i else i1)
    else if c == newline
    then (returned (c ∷ []), i1)
    else (copied_first c rest.0, rest.1)

-- `consoleread`; a negative `n` acts as 0.
pub consoleread : Bool → ℕ → Input → End × Input
consoleread killed n i = read_loop killed n n i
