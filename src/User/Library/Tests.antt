-- ===== src/User/Library/Tests.antt =====
-- A year, printed and read.
use os_ass.Base.{◌≡◌, refl, true, [], ◌∷◌, arith}
use os_ass.User.Library.{
  atoi, printint, printf_loop, printf, conversion, int_buf, digit_loop, backwards, Arguments,
}
use os_ass.User.Library.Decimal.{atoi-printint}

abbrev arguments : Arguments
arguments = record { word = λ n. 2015; text = λ a. [] }

printed :
    printf arguments (b'x' ∷ b'%' ∷ b'd' ∷ b'!' ∷ []) ≡ b'x' ∷ b'2' ∷ b'0' ∷ b'1' ∷ b'5' ∷ b'!' ∷ []
unfolding printf printf_loop conversion printint int_buf digit_loop backwards
printed = refl

atoi-printint_example : atoi (printint 2015 10 true) ≡ 2015
atoi-printint_example = atoi-printint 2015 true (omega arith)
