-- ===== src/Kernel/Console/Digits.antt =====
-- The digits that `printint` prints, read back.
use os_ass.Base.{
  ℕ, zero, suc, ◌+◌, ◌*◌, ◌%◌, ◌/◌, ◌-◌, ◌^◌, ◌≤◌, ◌<◌, ◌≡◌, refl, sym, ap, ◌∙◌, subst, Bool, ◌&&◌,
  List, [], ◌∷◌, ◌++◌, append-nil, ◌==◌, leb, if◌then◌else◌, u32_mod, arith, Bool-cases, inl, inr,
  ==→eq, length, length-append, some, none,
}
use mathlib.Core.Option
use os_ass.Kernel.Console.Print.{
  digit, digit_loop, backwards, buf_size, int_chars, int_buf, printint,
}

abbrev pub digit_value : ℕ → ℕ
digit_value c = if leb b'a' c then c - b'a' + 10 else c - b'0'

-- The number that a text of digits stands for, behind a number that has been read.
abbrev pub number : (base seen : ℕ) → List ℕ → ℕ
number base seen [] = seen
number base seen (c ∷ cs) = number base (seen * base + digit_value c) cs

-- The same with the least digit first.
low_first : ℕ → List ℕ → ℕ
low_first base [] = 0
low_first base (c ∷ cs) = low_first base cs * base + digit_value c

number-backwards :
    (base : ℕ) (cs out : List ℕ)
    → number base 0 (backwards cs out) ≡ number base (low_first base cs) out
unfolding backwards low_first
number-backwards base [] out = refl
number-backwards base (c ∷ cs) out = number-backwards base cs (c ∷ out)

digit_value-digit : (d : ℕ) → d < 16 → digit_value (digit d) ≡ d
digit_value-digit d h = ground (arith, h)

abbrev doubled : ℕ → ℕ
doubled zero = 1
doubled (suc n) = 2 * doubled n

whole : (base x : ℕ) → 2 ≤ base → x / base * base + x % base ≡ x
whole base x h = grind arith

twice-le : (base q : ℕ) → 2 ≤ base → q * 2 ≤ q * base
twice-le base q h = grind arith

halved : (base x m : ℕ) → 2 ≤ base → x < 2 * m → x / base < m
halved base x m h l = omega (arith, whole base x h, twice-le base (x / base) h, l)

remainder : (base x : ℕ) → 2 ≤ base → x % base < base
remainder base x h = grind arith

last_round : (base x : ℕ) → 2 ≤ base → x < 2 → x / base ≡ 0
last_round base x h l = omega (arith, whole base x h, twice-le base (x / base) h, l)

one_digit :
    (base x low : ℕ)
    → 2 ≤ base
    → base ≤ 16
    → low ≡ x / base
    → low * base + digit_value (digit (x % base)) ≡ x
one_digit base x low h g e =
    ap (λ t. t * base + digit_value (digit (x % base))) e
    ∙ omega
        (arith, digit_value-digit (x % base) (omega (arith, remainder base x h, g)), whole base x h)

digits_back :
    (base n x : ℕ)
    → 2 ≤ base
    → base ≤ 16
    → x < doubled (suc n)
    → low_first base (digit_loop base (suc n) x) ≡ x
unfolding digit_loop low_first
digits_back base zero x h g l =
    let e = last_round base x h l in
    subst
      (λ q. low_first base (if q == 0 then [] else []) * base + digit_value (digit (x % base)) ≡ x)
      (sym e) (one_digit base x 0 h g (sym e))
digits_back base (suc n) x h g l = one_digit base x _ h g (elim (Bool-cases (x / base == 0)) [
  | inl e ↦ rw e (sym (==→eq (x / base) 0 e))
  | inr e ↦ rw e (digits_back base n (x / base) h g (halved base x (doubled (suc n)) h l))
])

backwards-append : (xs ys out : List ℕ) → backwards (xs ++ ys) out ≡ backwards ys (backwards xs out)
unfolding backwards
backwards-append [] ys out = refl
backwards-append (x ∷ xs) ys out = backwards-append xs ys (x ∷ out)

abbrev fives : ℕ → ℕ
fives zero = 1
fives (suc n) = 5 * fives n

five-le : (base q : ℕ) → 5 ≤ base → q * 5 ≤ q * base
five-le base q h = grind arith

fifth : (base x m : ℕ) → 5 ≤ base → x < 5 * m → x / base < m
fifth base x m h l = omega (arith, whole base x (omega (arith, h)), five-le base (x / base) h, l)

-- In base 5 and above, a number below 5^n has at most n digits, and 1 if it is 0.
length-digit_loop :
    (base n rounds x : ℕ) → 5 ≤ base → x < fives (suc n) → length (digit_loop base rounds x) ≤ suc n
unfolding digit_loop
length-digit_loop base n zero x h l = omega arith
length-digit_loop base zero (suc rounds) x h l =
    let e : x / base ≡ 0 = let q = fifth base x 1 h l in omega arith in
    subst (λ q. length (digit (x % base) ∷ (if q == 0 then [] else digit_loop base rounds q)) ≤ 1)
      (sym e) (omega arith)
length-digit_loop base (suc n) (suc rounds) x h l = elim (Bool-cases (x / base == 0)) [
  | inl e ↦ rw e (omega arith)
  | inr e ↦
      let ih = length-digit_loop base n rounds (x / base) h (fifth base x (fives (suc n)) h l) in
      rw e (omega arith)
]

within :
    (cs : List ℕ)
    → length cs ≤ buf_size
    → (if leb (length cs) buf_size then some cs else none) ≡ some cs
within cs h = ground (arith, h)

int_chars_fit :
    (xx base : ℕ) (sign : Bool)
    → xx < 2 ^ 32
    → 5 ≤ base
    → length (int_chars xx base sign) ≤ buf_size
unfolding int_chars
int_chars_fit xx base sign l h = elim (Bool-cases (sign && leb (2 ^ 31) xx)) [
  | inl e ↦ rw e (
      let d = length-digit_loop base 13 32 ((u32_mod - xx) % u32_mod) h (omega arith) in
      let a = length-append (digit_loop base 32 ((u32_mod - xx) % u32_mod)) (b'-' ∷ []) in
      omega arith)
  | inr e ↦ rw e (
      let d = length-digit_loop base 13 32 xx h (omega (arith, l)) in
      let a = length-append (digit_loop base 32 xx) [] in omega arith)
]

printint-int_chars :
    (xx base : ℕ) (sign : Bool)
    → xx < 2 ^ 32
    → 5 ≤ base
    → printint xx base sign ≡ some (backwards (int_chars xx base sign) [])
unfolding printint int_buf
printint-int_chars xx base sign l h =
    ap (Option.map (λ buf. backwards buf []))
      (within (int_chars xx base sign) (int_chars_fit xx base sign l h))

-- `printint` does not overrun its buffer in any base from 5 to 16: it prints a minus sign before a
-- word that stands for a negative number, when it is told to, and then digits that stand for its
-- absolute value.
pub printint_lem :
    (xx base : ℕ) (sign : Bool)
    → xx < 2 ^ 32
    → 5 ≤ base
    → base ≤ 16
    → (digits : List ℕ) × (printint xx base sign
        ≡ some (if sign && leb (2 ^ 31) xx then b'-' ∷ digits else digits))
      × (number base 0 digits ≡ (if sign && leb (2 ^ 31) xx then 2 ^ 32 - xx else xx))
unfolding int_chars backwards
printint_lem xx base sign l h g = elim (Bool-cases (sign && leb (2 ^ 31) xx)) [
  | inl e ↦
      let p = printint-int_chars xx base sign l h in
      rw e (
        printed ((u32_mod - xx) % u32_mod),
        p
            ∙ ap some (
                rw e (
                  backwards-append (digit_loop base 32 ((u32_mod - xx) % u32_mod)) (b'-' ∷ []) [])),
        read_back ((u32_mod - xx) % u32_mod) (omega arith) ∙ ground (arith, e, l),
      )
  | inr e ↦
      let p = printint-int_chars xx base sign l h in
      rw e (
        printed xx,
        p ∙ ap some (rw e (ap (λ t. backwards t []) (append-nil (digit_loop base 32 xx)))),
        read_back xx l,
      )
]
  where
    printed : ℕ → List ℕ
    printed x = backwards (digit_loop base 32 x) []

    read_back : (x : ℕ) → x < 2 ^ 32 → number base 0 (printed x) ≡ x
    read_back x b =
        number-backwards base (digit_loop base 32 x) []
        ∙ digits_back base 31 x (omega arith) g (omega (arith, b))
