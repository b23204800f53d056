-- ===== src/User/Library.antt =====
-- ulib.c and printf.c: the library of the user programs. A string is its bytes up to the NUL; what is
-- printed is the list of the bytes that `putc` writes. `gets` and `stat` only make system calls.
pub mod Decimal
mod Tests
use os_ass.Base.{
  ℕ, zero, suc, ◌+◌, ◌*◌, ◌%◌, ◌/◌, ◌-◌, ◌^◌, Bool, true, false, ◌&&◌, ◌||◌, List, [], ◌∷◌, ◌++◌,
  Option, none, some, ◌==◌, ltb, leb, if◌then◌else◌, u32_mod, update,
}

-- The loop of `atoi`, with the word `n`.
unfoldable pub atoi_loop : (n : ℕ) → List ℕ → ℕ
atoi_loop n [] = n
atoi_loop n (c ∷ cs) =
    let rest = atoi_loop ((n * 10 + c + (u32_mod - b'0')) % u32_mod) cs in
    if leb b'0' c && leb c b'9' then rest else n

unfoldable pub atoi : List ℕ → ℕ
atoi s = atoi_loop 0 s

-- `strchr`: the string from the character on.
unfoldable pub strchr : List ℕ → (c : ℕ) → Option (List ℕ)
strchr [] c = none
strchr (x ∷ xs) c = let later = strchr xs c in if x == c then some (x ∷ xs) else later

-- What `strcmp` returns: the two bytes whose difference it is.
unfoldable pub strcmp : List ℕ → List ℕ → ℕ × ℕ
strcmp [] [] = (0, 0)
strcmp [] (d ∷ ds) = (0, d)
strcmp (c ∷ cs) [] = (c, 0)
strcmp (c ∷ cs) (d ∷ ds) = let later = strcmp cs ds in if c == d then later else (c, d)

-- `memmove` of the library, which copies forward only.
unfoldable pub memmove : (mem : ℕ → ℕ) → (dst src n : ℕ) → ℕ → ℕ
memmove mem dst src zero = mem
memmove mem dst src (suc n) = memmove (update mem dst (mem src)) (dst + 1) (src + 1) n

abbrev pub digit : ℕ → ℕ
digit d = if ltb d 10 then b'0' + d else b'A' + (d - 10)

-- The first loop of `printint`, least digit first, in `rounds` rounds at most.
unfoldable pub digit_loop : (base rounds x : ℕ) → List ℕ
digit_loop base zero x = []
digit_loop base (suc rounds) x =
    let rest = digit_loop base rounds (x / base) in
    digit (x % base) ∷ (if x / base == 0 then [] else rest)

-- The loop that prints the buffer from its end.
unfoldable pub backwards : List ℕ → List ℕ → List ℕ
backwards [] out = out
backwards (c ∷ cs) out = backwards cs (c ∷ out)

abbrev pub is_negative : (sgn : Bool) → (xx : ℕ) → Bool
is_negative sgn xx = sgn && leb (2 ^ 31) xx

abbrev pub magnitude : (neg : Bool) → (xx : ℕ) → ℕ
magnitude neg xx = if neg then (u32_mod - xx) % u32_mod else xx

unfoldable pub int_buf : (xx base : ℕ) → (sgn : Bool) → List ℕ
int_buf xx base sgn =
    digit_loop base 32 (magnitude (is_negative sgn xx) xx)
    ++ (if is_negative sgn xx then b'-' ∷ [] else [])

unfoldable pub printint : (xx base : ℕ) → (sgn : Bool) → List ℕ
printint xx base sgn = backwards (int_buf xx base sgn) []

-- What `printf` reads: the words after `fmt`, and the text at an address.
pub record Arguments : Type 0 where
  pub word : ℕ → ℕ
  pub text : ℕ → List ℕ

unfoldable pub print_text : Arguments → ℕ → List ℕ
print_text args s = if s == 0 then b'(' ∷ b'n' ∷ b'u' ∷ b'l' ∷ b'l' ∷ b')' ∷ [] else args.text s

-- The branches behind a `%`, with the number of words that were read: what is printed, and
-- whether a word was read.
unfoldable pub conversion : Arguments → (n c : ℕ) → List ℕ × Bool
conversion args n c =
    if c == b'd'
    then (printint (args.word n) 10 true, true)
    else if c == b'x' || c == b'p'
    then (printint (args.word n) 16 false, true)
    else if c == b's'
    then (print_text args (args.word n), true)
    else if c == b'c'
    then (args.word n % 256 ∷ [], true)
    else if c == b'%'
    then (c ∷ [], false)
    else (b'%' ∷ c ∷ [], false)

-- The loop of `printf`; `percent` is its `state`.
unfoldable pub printf_loop : Arguments → (n : ℕ) → (percent : Bool) → List ℕ → List ℕ
printf_loop args n percent [] = []
printf_loop args n false (c ∷ cs) =
    let plain = printf_loop args n false cs in
    let behind = printf_loop args n true cs in if c == b'%' then behind else c ∷ plain
printf_loop args n true (c ∷ cs) =
    let (out, read) = conversion args n c in
    out ++ printf_loop args (if read then suc n else n) false cs

unfoldable pub printf : Arguments → (fmt : List ℕ) → List ℕ
printf args fmt = printf_loop args 0 false fmt
