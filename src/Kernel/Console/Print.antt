-- ===== src/Kernel/Console/Print.antt =====
-- console.c: `printint` and `cprintf`, as the bytes that they give to `consputc`. A word that is
-- printed as signed stands for a negative number from 2^31 on.
use os_ass.Base.{
  ℕ, zero, suc, ◌+◌, ◌%◌, ◌/◌, ◌-◌, ◌^◌, Bool, true, false, ◌&&◌, ◌||◌, List, [], ◌∷◌, ◌++◌, length,
  Option, none, some, ◌==◌, ltb, leb, if◌then◌else◌, u32_mod,
}
use os_ass.Base.Outcome.{Outcome, ok, panic}
use mathlib.Core.Option

-- `digits[d]`
abbrev pub digit : ℕ → ℕ
digit d = if ltb d 10 then b'0' + d else b'a' + (d - 10)

-- `do buf[i++] = digits[x % base]; while((x /= base) != 0)`, least digit first, in `rounds` rounds at
-- most.
unfoldable pub digit_loop : (base rounds x : ℕ) → List ℕ
digit_loop base zero x = []
digit_loop base (suc rounds) x =
    let rest = digit_loop base rounds (x / base) in
    digit (x % base) ∷ (if x / base == 0 then [] else rest)

-- The loop that prints `buf` from its end.
unfoldable pub backwards : List ℕ → List ℕ → List ℕ
backwards [] out = out
backwards (c ∷ cs) out = backwards cs (c ∷ out)

abbrev pub magnitude : Bool → ℕ → ℕ
magnitude negative xx = if negative then (u32_mod - xx) % u32_mod else xx

-- `char buf[16]`
abbrev pub buf_size : ℕ
buf_size = 16

-- The characters that are stored in `buf`, in the order of their places. 32 rounds are enough for a
-- word, in any base from 2 on.
unfoldable pub int_chars : (xx base : ℕ) → (sign : Bool) → List ℕ
int_chars xx base sign =
    let negative = sign && leb (2 ^ 31) xx in
    digit_loop base 32 (magnitude negative xx) ++ (if negative then b'-' ∷ [] else [])

-- `buf` when it is printed; none if the characters overrun it, and C says nothing of what happens.
unfoldable pub int_buf : (xx base : ℕ) → (sign : Bool) → Option (List ℕ)
int_buf xx base sign =
    if leb (length (int_chars xx base sign)) buf_size then some (int_chars xx base sign) else none

unfoldable pub printint : (xx base : ℕ) → (sign : Bool) → Option (List ℕ)
printint xx base sign = Option.map (λ buf. backwards buf []) (int_buf xx base sign)

-- What `cprintf` reads: the words after `fmt`, and the text at an address, which is up to its NUL.
pub record Arguments : Type 0 where
  pub word : ℕ → ℕ
  pub text : ℕ → List ℕ

-- The case of `%s`.
unfoldable pub print_text : Arguments → ℕ → List ℕ
print_text args s = if s == 0 then b'(' ∷ b'n' ∷ b'u' ∷ b'l' ∷ b'l' ∷ b')' ∷ [] else args.text s

-- The `switch` on the character behind a `%`, with the number of arguments that were read: what is
-- printed, none if `printint` overruns its buffer, and whether an argument was read.
unfoldable pub conversion : Arguments → ℕ → ℕ → Option (List ℕ) × Bool
conversion args n c =
    if c == b'd'
    then (printint (args.word n) 10 true, true)
    else if c == b'x' || c == b'p'
    then (printint (args.word n) 16 false, true)
    else if c == b's'
    then (some (print_text args (args.word n)), true)
    else if c == b'%'
    then (some (b'%' ∷ []), false)
    else (some (b'%' ∷ c ∷ []), false)

-- What is printed first and what is printed then.
abbrev pub and_then : Option (List ℕ) → Option (List ℕ) → Option (List ℕ)
and_then none later = none
and_then (some out) later = Option.map (λ rest. out ++ rest) later

-- The loop of `cprintf` over the characters of `fmt`. A `%` that is the last is dropped.
unfoldable pub cprintf_loop : Arguments → ℕ → List ℕ → Option (List ℕ)
cprintf_loop args n [] = some []
cprintf_loop args n (c ∷ []) = if c == b'%' then some [] else some (c ∷ [])
cprintf_loop args n (c ∷ d ∷ cs) =
    let (out, read) = conversion args n d in
    let plain = cprintf_loop args n (d ∷ cs) in
    let converted = cprintf_loop args (if read then suc n else n) cs in
    if c == b'%' then and_then out converted else and_then (some (c ∷ [])) plain

-- `fmt` is the address of the format.
unfoldable pub cprintf : Arguments → ℕ → Outcome (Option (List ℕ))
cprintf args fmt = if fmt == 0 then panic "null fmt" else ok (cprintf_loop args 0 (args.text fmt))
