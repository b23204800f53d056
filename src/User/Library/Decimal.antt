-- ===== src/User/Library/Decimal.antt =====
-- `atoi` reads what `printint` prints in base 10.
use os_ass.Base.{
  ℕ, zero, suc, ◌+◌, ◌*◌, ◌%◌, ◌/◌, ◌-◌, ◌^◌, ◌<◌, ◌≡◌, refl, sym, ap, ◌∙◌, Bool, true, false, ◌&&◌,
  List, [], ◌∷◌, append-nil, ◌==◌, ltb, leb, u32_mod, arith, Bool-cases, inl, inr, ==→eq,
}
use os_ass.User.Library.{
  atoi_loop, atoi, digit, digit_loop, backwards, is_negative, int_buf, printint,
}

-- The numbers that `rounds` halvings bring to 0.
abbrev doubled : ℕ → ℕ
doubled zero = 1
doubled (suc n) = 2 * doubled n

-- One digit more.
atoi_digit :
    (q x : ℕ) (out : List ℕ)
    → q ≡ x / 10
    → x < 2 ^ 31
    → atoi_loop q (digit (x % 10) ∷ out) ≡ atoi_loop x out
unfolding atoi_loop
atoi_digit q x out e l =
    let t : ltb (x % 10) 10 ≡ true = ground arith in
    let u : (leb b'0' (b'0' + x % 10) && leb (b'0' + x % 10) b'9') ≡ true = ground arith in
    let v : (q * 10 + (b'0' + x % 10) + (u32_mod - b'0')) % u32_mod ≡ x = omega (arith, e, l) in
    rw (t, u, v) refl

atoi-digits :
    (rounds x : ℕ) (out : List ℕ)
    → x < doubled (suc rounds)
    → x < 2 ^ 31
    → atoi_loop 0 (backwards (digit_loop 10 (suc rounds) x) out) ≡ atoi_loop x out
unfolding digit_loop backwards
atoi-digits zero x out h l =
    let e : (x / 10 == 0) ≡ true = ground (arith, h) in
    rw e (atoi_digit 0 x out (omega (arith, h)) l)
atoi-digits (suc rounds) x out h l = elim (Bool-cases (x / 10 == 0)) [
  | inl e ↦ rw e (atoi_digit 0 x out (sym (==→eq (x / 10) 0 e)) l)
  | inr e ↦ rw e (
      atoi-digits rounds (x / 10) (digit (x % 10) ∷ out) (omega (arith, h)) (omega (arith, l))
      ∙ atoi_digit (x / 10) x out refl l)
]

-- `atoi` reads back what `printint` prints of a number in base 10, signed or not, that is not
-- negative as an `int`.
pub atoi-printint : (x : ℕ) (sgn : Bool) → x < 2 ^ 31 → atoi (printint x 10 sgn) ≡ x
unfolding atoi printint int_buf atoi_loop
atoi-printint x sgn l =
    let e : is_negative sgn x ≡ false = ground (arith, l) in
    rw e (
      ap (λ t. atoi_loop 0 (backwards t [])) (append-nil (digit_loop 10 32 x))
      ∙ atoi-digits 31 x [] (omega (arith, l)) l)
