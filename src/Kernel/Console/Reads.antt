-- ===== src/Kernel/Console/Reads.antt =====
-- `consoleread` takes a line, or what there is of it, from the bytes that are ready.
use os_ass.Base.{
  ℕ, ◌+◌, ◌%◌, ◌≤◌, ◌<◌, ◌≡◌, ◌≢◌, Bool, true, false, List, [], ◌∷◌, ◌++◌, All, length, get_or,
  add32,
}
use os_ass.Kernel.Console.{Input, input_buf, newline, ctrl_d, End, returned, failed, sleeping}
use os_ass.Kernel.Console.Lines.{ready, typed, IsValid}

-- A byte that a read copies and goes on after.
abbrev pub IsPlain : ℕ → Type 0
IsPlain c = (c ≢ ctrl_d) × (c ≢ newline)

-- Why a read ends, all bytes before being plain: it has `n` bytes, a newline, or a ^D is next, which
-- stays for the next read.
pub data Enough (n : ℕ) (bytes rest : List ℕ) : Type 0 where
  all : All IsPlain bytes → length bytes ≡ n → Enough n bytes rest
  whole_line : (cs : List ℕ) → All IsPlain cs → bytes ≡ cs ++ (newline ∷ []) → Enough n bytes rest
  end_next : (cs : List ℕ) → All IsPlain bytes → rest ≡ ctrl_d ∷ cs → Enough n bytes rest

-- The answers of `consoleread` for `n` bytes when `line` is ready, and what stays. `started` says
-- whether bytes have been copied before. A read fails or waits when all that was ready is copied, is
-- plain, and is less than `n` bytes.
pub data Reads (killed started : Bool) (n : ℕ) (line : List ℕ) : End → List ℕ → Type 0 where
  returns :
      {bytes rest : List ℕ}
      → line ≡ bytes ++ rest
      → length bytes ≤ n
      → All (λ c. c ≢ ctrl_d) bytes
      → Enough n bytes rest
      → Reads killed started n line (returned bytes) rest
  end_of_file :
      {rest : List ℕ}
      → started ≡ false
      → line ≡ ctrl_d ∷ rest
      → Reads killed started n line (returned []) rest
  fails : killed ≡ true → length line < n → All IsPlain line → Reads killed started n line failed []
  waits :
      {m : ℕ}
      → killed ≡ false
      → 0 < m
      → length line + m ≡ n
      → All IsPlain line
      → Reads killed started n line (sleeping line m) []

-- Taking the oldest byte that is ready.
advance : Input → Input
advance i = record i { r = add32 i.r 1 }

-- A run of the loop: what it answers, and that it keeps the line that is typed.
record Run (killed started : Bool) (n : ℕ) (i : Input) (r : End × Input) : Type 0 where
  answer : Reads killed started n (ready i) r.0 (ready r.1)
  valid : IsValid r.1
  line : typed r.1 ≡ typed i

-- A read of at least one byte, by what it finds first.
module _ (killed : Bool) (target n : ℕ) (i : Input) (v : IsValid i) where
  c : ℕ
  c = get_or i.buf (i.r % input_buf) 0
