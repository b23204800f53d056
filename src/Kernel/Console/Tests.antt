-- ===== src/Kernel/Console/Tests.antt =====
-- A line typed into an empty input buffer whose counters are about to wrap, and a negative number.
use os_ass.Base.{
  ℕ, ◌-◌, ◌^◌, ◌≡◌, refl, true, ◌&&◌, List, [], ◌∷◌, some, replicate, length-replicate, leb,
  if◌then◌else◌, arith,
}
use os_ass.Kernel.Console.{Input, consoleintr}
use os_ass.Kernel.Console.Print.{printint, digit_loop, backwards, int_chars, int_buf}
use os_ass.Kernel.Console.Digits.{number, printint_lem}
use os_ass.Base.Ring.{window}
use os_ass.Kernel.Console.Lines.{IsValid, editor}
use os_ass.Kernel.Console.Edit.{edits, consoleintr_refines}
use os_ass.Kernel.Console.Reads.{Reads}

abbrev wrapping : Input
wrapping = record { buf = replicate 128 0; r = 2 ^ 32 - 1; w = 2 ^ 32 - 1; e = 2 ^ 32 - 1 }

wrapping-IsValid : IsValid wrapping
unfolding window
wrapping-IsValid = record {
  storage = length-replicate {A = ℕ} 128 0;
  r_word = omega arith;
  w_word = omega arith;
  e_word = omega arith;
  fits = omega arith;
  one_line = tt;
}

-- "ax", backspace, "b", return.
abbrev keys : List ℕ
keys = b'a' ∷ b'x' ∷ 8 ∷ b'b' ∷ b'\r' ∷ []

consoleintr_refines_example :
    IsValid (consoleintr keys wrapping).0
    × (editor (consoleintr keys wrapping).0 ≡ edits keys (editor wrapping))
consoleintr_refines_example = consoleintr_refines keys wrapping wrapping-IsValid

typed_line :
    edits keys (record { lines = []; line = [] })
    ≡ record { lines = b'a' ∷ b'b' ∷ b'\n' ∷ []; line = [] }
typed_line = refl

minus_12 : printint (2 ^ 32 - 12) 10 true ≡ some (b'-' ∷ b'1' ∷ b'2' ∷ [])
unfolding printint int_buf int_chars backwards digit_loop
minus_12 = refl

printint_lem_example :
    (digits : List ℕ) × (printint (2 ^ 32 - 12) 10 true
      ≡ some (if true && leb (2 ^ 31) (2 ^ 32 - 12) then b'-' ∷ digits else digits))
    × (number 10 0 digits
        ≡ (if true && leb (2 ^ 31) (2 ^ 32 - 12) then 2 ^ 32 - (2 ^ 32 - 12) else 2 ^ 32 - 12))
printint_lem_example = printint_lem (2 ^ 32 - 12) 10 true (omega arith) (omega arith) (omega arith)
