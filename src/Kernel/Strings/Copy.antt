-- ===== src/Kernel/Strings/Copy.antt =====
-- `strncpy`, `safestrcpy` and `strncmp`: what a copy compares with.
use os_ass.Base.{
  ℕ, zero, suc, ◌+◌, ◌<◌, ◌≤◌, ◌≡◌, ◌≢◌, refl, sym, ap, ◌∙◌, subst, true, false, not, ◌&&◌, ◌==◌,
  leb, ltb, if◌then◌else◌, arith, update, Bool-cases, inl, inr, ==→eq, ==→ne, ◌↔◌, ◌⊎◌,
}
use os_ass.Kernel.Strings.{
  strncmp, is_zero, pad, strncpy_loop, strncpy, safestrcpy_loop, safestrcpy,
}

-- Two strings are equal in their first `n` bytes, or up to a NUL among them.
pub data AgreeFor (p q : ℕ → ℕ) (n : ℕ) : Type 0 where
  whole : ((k : ℕ) → k < n → p k ≡ q k) → AgreeFor p q n
  up_to : {m : ℕ} → m < n → p m ≡ 0 → q m ≡ 0 → ((k : ℕ) → k < m → p k ≡ q k) → AgreeFor p q n

abbrev tail : (ℕ → ℕ) → ℕ → ℕ
tail p k = p (suc k)

one_before :
    (p q : ℕ → ℕ) (m : ℕ)
    → p 0 ≡ q 0
    → ((k : ℕ) → k < m → tail p k ≡ tail q k)
    → (k : ℕ) → k < suc m
    → p k ≡ q k
one_before p q m e h zero l = e
one_before p q m e h (suc k) l = h k (omega (arith, l))

longer-AgreeFor :
    (p q : ℕ → ℕ) (n : ℕ) → p 0 ≡ q 0 → AgreeFor (tail p) (tail q) n → AgreeFor p q (suc n)
longer-AgreeFor p q n e (whole h) = whole (one_before p q n e h)
longer-AgreeFor p q n e (up_to {m = m} l a b h) =
    up_to {m = suc m} (omega (arith, l)) a b (one_before p q m e h)

shorter-AgreeFor :
    (p q : ℕ → ℕ) (n : ℕ) → p 0 ≢ 0 → AgreeFor p q (suc n) → AgreeFor (tail p) (tail q) n
shorter-AgreeFor p q n ne (whole h) = whole (λ k l. h (suc k) (omega (arith, l)))
shorter-AgreeFor p q n ne (up_to {m = zero} l a b h) = absurd (ne a)
shorter-AgreeFor p q n ne (up_to {m = suc m} l a b h) =
    up_to {m = m} (omega (arith, l)) a b (λ k s. h (suc k) (omega (arith, s)))

AgreeFor-first : (p q : ℕ → ℕ) (n : ℕ) → AgreeFor p q (suc n) → p 0 ≡ q 0
AgreeFor-first p q n (whole h) = h 0 (omega arith)
AgreeFor-first p q n (up_to {m = zero} l a b h) = a ∙ sym b
AgreeFor-first p q n (up_to {m = suc m} l a b h) = h 0 (omega arith)

-- `strncmp` gives 0 exactly for strings that are equal in their first `n` bytes or up to a NUL.
pub strncmp_iff : (n : ℕ) (p q : ℕ → ℕ) → (is_zero (strncmp p q n) ≡ true) ↔ AgreeFor p q n
unfolding strncmp
strncmp_iff zero p q = ((λ e. whole (λ k l. absurd (omega (arith, l)))), (λ a. refl))
strncmp_iff (suc n) p q =
    let (there, back) = strncmp_iff n (tail p) (tail q) in
    elim (Bool-cases (not (p 0 == 0) && p 0 == q 0)) [
      | inl e ↦ rw e (
        (λ z. longer-AgreeFor p q n (ground (arith, e)) (there z)),
        (λ a. back (shorter-AgreeFor p q n (λ z. absurd (ground (arith, e, z))) a)),
      )
      | inr e ↦ rw e (
        (λ z.
            let nul : p 0 ≡ 0 = ground (arith, e, z) in
            up_to {m = 0} (omega arith) nul (ground (arith, z, nul))
              (λ k l. absurd (omega (arith, l)))),
        (λ a. ground (arith, AgreeFor-first p q n a)),
      )
    ]

-- `pad` writes zeros from byte `i` on and nothing before it.
pad_lem : (s : ℕ → ℕ) (i n j : ℕ) → pad s i n j ≡ (if leb i j && ltb j (i + n) then 0 else s j)
unfolding pad
pad_lem s i zero j = let e : (leb i j && ltb j (i + 0)) ≡ false = ground arith in rw e refl
pad_lem s i (suc n) j = pad_lem (update s i 0) (suc i) n j ∙ ground arith

pub AgreeFor-same :
    {p q p' q' : ℕ → ℕ} (n : ℕ)
    → ((k : ℕ) → k < n → p k ≡ p' k)
    → ((k : ℕ) → k < n → q k ≡ q' k)
    → AgreeFor p q n
    → AgreeFor p' q' n
AgreeFor-same n e f (whole h) = whole (λ k l. sym (e k l) ∙ h k l ∙ f k l)
AgreeFor-same n e f (up_to {m = m} l a b h) =
    up_to {m = m} l (sym (e m l) ∙ a) (sym (f m l) ∙ b)
      (λ k g. let w : k < n = omega (arith, g, l) in sym (e k w) ∙ h k g ∙ f k w)

pub AgreeFor-flip : (p q : ℕ → ℕ) (n : ℕ) → AgreeFor p q n → AgreeFor q p n
AgreeFor-flip p q n (whole h) = whole (λ k l. sym (h k l))
AgreeFor-flip p q n (up_to {m = m} l a b h) = up_to {m = m} l b a (λ k g. sym (h k g))

-- What a copy of `n` bytes from byte `i` on leaves.
record Copied (s t : ℕ → ℕ) (i n : ℕ) (r : ℕ → ℕ) : Type 0 where
  before : (j : ℕ) → j < i → r j ≡ s j
  behind : (j : ℕ) → i + n ≤ j → r j ≡ s j
  agree : AgreeFor (λ k. r (i + k)) (λ k. t (i + k)) n

strncpy_loop-Copied : (n : ℕ) (s t : ℕ → ℕ) (i : ℕ) → Copied s t i n (strncpy_loop s t i n)
unfolding strncpy_loop
strncpy_loop-Copied zero s t i = record {
  before = λ j l. refl;
  behind = λ j l. refl;
  agree = whole (λ k l. absurd (omega (arith, l)));
}
strncpy_loop-Copied (suc n) s t i = elim (Bool-cases (t i == 0)) [
  | inl e ↦ rw e (record {
    before = λ j l. pad_lem (update s i 0) (suc i) n j ∙ ground (arith, l);
    behind = λ j l. pad_lem (update s i 0) (suc i) n j ∙ ground (arith, l);
    agree =
        up_to {m = 0} (omega arith) (pad_lem (update s i 0) (suc i) n (i + 0) ∙ ground arith)
          (ap t (omega arith) ∙ ==→eq (t i) 0 e) (λ k l. absurd (omega (arith, l)));
  })
  | inr e ↦
      let c = strncpy_loop-Copied n (update s i (t i)) t (suc i) in
      rw e (record {
        before = λ j l. c.before j (omega (arith, l)) ∙ ground (arith, l);
        behind = λ j l. c.behind j (omega (arith, l)) ∙ ground (arith, l);
        agree =
            longer-AgreeFor (λ k. strncpy_loop (update s i (t i)) t (suc i) n (i + k))
              (λ k. t (i + k)) n (c.before (i + 0) (omega arith) ∙ ground arith)
              (AgreeFor-same n
                (λ k l. ap (strncpy_loop (update s i (t i)) t (suc i) n) (omega arith))
                (λ k l. ap t (omega arith)) c.agree);
      })
]

pub strncpy-AgreeFor : (s t : ℕ → ℕ) (n : ℕ) → AgreeFor (strncpy s t n) t n
unfolding strncpy
strncpy-AgreeFor s t n =
    let c = strncpy_loop-Copied n s t 0 in
    AgreeFor-same n (λ k l. ap (strncpy_loop s t 0 n) (omega arith)) (λ k l. ap t (omega arith))
      c.agree

-- `strncmp` finds a string equal to what `strncpy` makes of it, for any length, and `strncpy`
-- writes nothing behind that length.
pub strncmp-strncpy :
    (s t : ℕ → ℕ) (n : ℕ)
    → (is_zero (strncmp (strncpy s t n) t n) ≡ true) × ((j : ℕ) → n ≤ j → strncpy s t n j ≡ s j)
unfolding strncpy
strncmp-strncpy s t n =
    let c = strncpy_loop-Copied n s t 0 in
    let (there, back) = strncmp_iff n (strncpy s t n) t in
    (back (strncpy-AgreeFor s t n), (λ j l. c.behind j (omega (arith, l))))

-- A string of `m` bytes, the first bytes of `t`, all of them unless there is only room for `n`.
pub record IsCut (t r : ℕ → ℕ) (n m : ℕ) : Type 0 where
  pub room : m < n
  pub ends : r m ≡ 0
  pub bytes : (k : ℕ) → k < m → r k ≡ t k
  pub whole : (suc m ≡ n) ⊎ (t m ≡ 0)
  pub inside : (k : ℕ) → k < m → t k ≢ 0

record CutFrom (s t r : ℕ → ℕ) (i n m : ℕ) : Type 0 where
  room : m ≤ n
  ends : r (i + m) ≡ 0
  bytes : (k : ℕ) → k < m → r (i + k) ≡ t (i + k)
  whole : (m ≡ n) ⊎ (t (i + m) ≡ 0)
  inside : (k : ℕ) → k < m → t (i + k) ≢ 0
  before : (j : ℕ) → j < i → r j ≡ s j
  behind : (j : ℕ) → i + n < j → r j ≡ s j

-- A property of the places from `i` on.
first_then :
    (P : ℕ → Type 0) (i m : ℕ)
    → P i
    → ((k : ℕ) → k < m → P (suc i + k))
    → (k : ℕ) → k < suc m
    → P (i + k)
first_then P i m now later zero l = subst P (omega arith) now
first_then P i m now later (suc k) l = subst P (omega arith) (later k (omega (arith, l)))

safestrcpy_loop_lem :
    (n : ℕ) (s t : ℕ → ℕ) (i : ℕ) → (m : ℕ) × CutFrom s t (safestrcpy_loop s t i n) i n m
unfolding safestrcpy_loop
safestrcpy_loop_lem zero s t i = (
  0,
  record {
    room = omega arith;
    ends = ground arith;
    bytes = λ k l. absurd (omega (arith, l));
    whole = inl refl;
    inside = λ k l. absurd (omega (arith, l));
    before = λ j l. ground (arith, l);
    behind = λ j l. ground (arith, l);
  },
)
safestrcpy_loop_lem (suc n) s t i = elim (Bool-cases (t i == 0)) [
  | inl e ↦ rw e (
    0,
    record {
      room = omega arith;
      ends = ground arith;
      bytes = λ k l. absurd (omega (arith, l));
      whole = inr (ap t (omega arith) ∙ ==→eq (t i) 0 e);
      inside = λ k l. absurd (omega (arith, l));
      before = λ j l. ground (arith, l);
      behind = λ j l. ground (arith, l);
    },
  )
  | inr e ↦
      let (m, c) = safestrcpy_loop_lem n (update s i (t i)) t (suc i) in
      rw e (
        suc m,
        record {
          room = omega (arith, c.room);
          ends = ap (safestrcpy_loop (update s i (t i)) t (suc i) n) (omega arith) ∙ c.ends;
          bytes =
              first_then (λ j. safestrcpy_loop (update s i (t i)) t (suc i) n j ≡ t j) i m
                (c.before i (omega arith) ∙ ground arith) c.bytes;
          whole = elim c.whole [ inl q ↦ inl (ap suc q) | inr q ↦ inr (ap t (omega arith) ∙ q) ];
          inside = first_then (λ j. t j ≢ 0) i m (==→ne (t i) 0 e) c.inside;
          before = λ j l. c.before j (omega (arith, l)) ∙ ground (arith, l);
          behind = λ j l. c.behind j (omega (arith, l)) ∙ ground (arith, l);
        },
      )
]

-- `safestrcpy` with room for at least a byte makes a string of the first bytes of its source, all
-- of them if there is room for them and a NUL, and writes nothing behind the room.
pub safestrcpy_lem :
    (s t : ℕ → ℕ) (n : ℕ)
    → ((m : ℕ) × IsCut t (safestrcpy s t (suc n)) (suc n) m)
      × ((j : ℕ) → suc n ≤ j → safestrcpy s t (suc n) j ≡ s j)
unfolding safestrcpy
safestrcpy_lem s t n =
    let (m, c) = safestrcpy_loop_lem n s t 0 in
    (
      (
        m,
        record {
          room = omega (arith, c.room);
          ends = ap (safestrcpy_loop s t 0 n) (omega arith) ∙ c.ends;
          bytes =
              λ k l. ap (safestrcpy_loop s t 0 n) (omega arith) ∙ c.bytes k l ∙ ap t (omega arith);
          whole = elim c.whole [ inl q ↦ inl (ap suc q) | inr q ↦ inr (ap t (omega arith) ∙ q) ];
          inside = λ k l z. c.inside k l (ap t (omega arith) ∙ z);
        },
      ),
      (λ j l. c.behind j (omega (arith, l))),
    )
