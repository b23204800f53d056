-- ===== src/Kernel/Fs/Path/Elements.antt =====
-- `skipelem` takes the elements of a path one after the other.
use os_ass.Base.{
  ℕ, ◌+◌, ◌<◌, ◌≤◌, ◌≡◌, refl, sym, ap, ap₂, ◌∙◌, Bool, true, false, ◌&&◌, ◌==◌, leb, ltb,
  if◌then◌else◌, arith, Bool-cases, inl, inr, ne→==, ==_refl, Option, none, some, List, [], ◌∷◌,
  length, take, get_or, get_or-take, length-take, min,
}
use os_ass.Kernel.Fs.Content.{splice}
use os_ass.Kernel.Fs.Content.Writing.{splice-written}
use os_ass.Kernel.Fs.Dir.{dirsiz}
use os_ass.Kernel.Fs.Path.{slash, skip_slashes, element, copy_name, take_element, skipelem}

-- A character in front of the first piece.
abbrev pub in_front : ℕ → List (List ℕ) → List (List ℕ)
in_front c [] = (c ∷ []) ∷ []
in_front c (p ∷ ps) = (c ∷ p) ∷ ps

-- The path, cut at its slashes.
abbrev pub pieces : List ℕ → List (List ℕ)
pieces [] = [] ∷ []
pieces (c ∷ cs) = if c == slash then [] ∷ pieces cs else in_front c (pieces cs)

abbrev pub without_empty : List (List ℕ) → List (List ℕ)
without_empty [] = []
without_empty ([] ∷ ps) = without_empty ps
without_empty ((c ∷ p) ∷ ps) = (c ∷ p) ∷ without_empty ps

-- The elements of a path: what is between slashes and not empty.
abbrev pub elements : List ℕ → List (List ℕ)
elements path = without_empty (pieces path)

-- The buffer holds the first 14 bytes of an element, and a NUL behind a shorter one.
pub record IsName (e : List ℕ) (name : ℕ → ℕ) : Type 0 where
  pub bytes : (k : ℕ) → k < min dirsiz (length e) → name k ≡ get_or e k 0
  pub ends : length e < dirsiz → name (length e) ≡ 0

abbrev pub starts_slash : List ℕ → Bool
starts_slash [] = false
starts_slash (c ∷ cs) = c == slash

-- What `skipelem` gives for a path.
pub data Skipped (path : List ℕ) : Option (List ℕ × (ℕ → ℕ)) → Type 0 where
  nothing : elements path ≡ [] → Skipped path none
  skips :
      {e rest : List ℕ} {name : ℕ → ℕ}
      → elements path ≡ e ∷ elements rest
      → starts_slash rest ≡ false
      → length rest < length path
      → IsName e name
      → Skipped path (some (rest, name))

elements-skip_slashes : (path : List ℕ) → elements (skip_slashes path) ≡ elements path
unfolding skip_slashes
elements-skip_slashes [] = refl
elements-skip_slashes (c ∷ cs) = elim (Bool-cases (c == slash)) [
  | inl e ↦ rw e (elements-skip_slashes cs)
  | inr e ↦ rw e (rw e refl)
]

skip_slashes_start : (path : List ℕ) → starts_slash (skip_slashes path) ≡ false
unfolding skip_slashes
skip_slashes_start [] = refl
skip_slashes_start (c ∷ cs) = elim (Bool-cases (c == slash)) [
  | inl e ↦ rw e (skip_slashes_start cs)
  | inr e ↦ rw e e
]

skip_slashes_shorter : (path : List ℕ) → length (skip_slashes path) ≤ length path
unfolding skip_slashes
skip_slashes_shorter [] = omega arith
skip_slashes_shorter (c ∷ cs) =
    let h = skip_slashes_shorter cs in
    elim (Bool-cases (c == slash)) [ inl e ↦ rw e (omega (arith, h)) | inr e ↦ rw e (omega arith) ]

-- The first piece is the element, and the rest holds the others.
element-pieces :
    (path : List ℕ)
    → (ps : List (List ℕ)) × (pieces path ≡ (element path).0 ∷ ps)
      × (without_empty ps ≡ elements (element path).1)
unfolding element
element-pieces [] = ([], refl, refl)
element-pieces (c ∷ cs) =
    let (ps, e, r) = element-pieces cs in
    elim (Bool-cases (c == slash)) [
      | inl t ↦ rw t (pieces cs, refl, rw t refl)
      | inr t ↦ rw t (ps, ap (in_front c) e, r)
    ]

element_shorter : (path : List ℕ) → length (element path).1 ≤ length path
unfolding element
element_shorter [] = omega arith
element_shorter (c ∷ cs) =
    let h = element_shorter cs in
    elim (Bool-cases (c == slash)) [ inl e ↦ rw e (omega arith) | inr e ↦ rw e (omega (arith, h)) ]

splice_lem : (name : ℕ → ℕ) (e : List ℕ) (k : ℕ) → k < length e → splice name 0 e k ≡ get_or e k 0
splice_lem name e k l =
    let t : (leb 0 k && ltb k (0 + length e)) ≡ true = ground (arith, l) in
    splice-written name 0 e k ∙ rw t (ap (λ j. get_or e j 0) (omega arith))

copy_name-IsName : (name : ℕ → ℕ) (e : List ℕ) → IsName e (copy_name name e)
unfolding copy_name
copy_name-IsName name e = elim (Bool-cases (leb dirsiz (length e))) [
  | inl t ↦ rw t (record {
    bytes = λ k l.
        let n = length-take dirsiz e (ground (arith, t)) in
        splice_lem name (take dirsiz e) k (rw n (omega (arith, l)))
        ∙ get_or-take dirsiz e k 0 (omega (arith, l));
    ends = λ l. absurd (ground (arith, t, l));
  })
  | inr t ↦ rw t (record {
    bytes = λ k l.
        let f : (length e == k) ≡ false = ne→== _ k (λ q. absurd (omega (arith, l, q))) in
        rw f (splice_lem name e k (omega (arith, l)));
    ends = λ l. let f : (length e == length e) ≡ true = ==_refl (length e) in rw f refl;
  })
]

element_head :
    (c : ℕ) (cs : List ℕ)
    → (c == slash) ≡ false
    → element (c ∷ cs) ≡ (c ∷ (element cs).0, (element cs).1)
unfolding element
element_head c cs s = rw s refl

take_element-Skipped :
    (path : List ℕ) (name : ℕ → ℕ)
    → starts_slash path ≡ false
    → Skipped path (take_element path name)
unfolding take_element
take_element-Skipped [] name s = nothing refl
take_element-Skipped (c ∷ cs) name s =
    let (ps, e, r) = element-pieces (c ∷ cs) in
    let q = element_head c cs s in
    let h : length (element (c ∷ cs)).1 ≤ length cs = rw q (element_shorter cs) in
    skips
      (ap without_empty (e ∙ ap (λ x. x.0 ∷ ps) q)
        ∙ ap₂ ◌∷◌ (ap (λ x. x.0) (sym q)) (r ∙ sym (elements-skip_slashes (element (c ∷ cs)).1)))
      (skip_slashes_start (element (c ∷ cs)).1)
      (omega (arith, h, skip_slashes_shorter (element (c ∷ cs)).1))
      (copy_name-IsName name (element (c ∷ cs)).0)

-- `skipelem` returns a null pointer exactly for a path without elements. Otherwise the rest that
-- it returns has the other elements, no leading slash, and is shorter, and the buffer holds
-- the first element, or its first 14 bytes.
pub skipelem_lem : (path : List ℕ) (name : ℕ → ℕ) → Skipped path (skipelem path name)
unfolding skipelem
skipelem_lem path name =
    back (take_element-Skipped (skip_slashes path) name (skip_slashes_start path))
  where
    back : {r : Option (List ℕ × (ℕ → ℕ))} → Skipped (skip_slashes path) r → Skipped path r
    back (nothing e) = nothing (sym (elements-skip_slashes path) ∙ e)
    back (skips e s l n) =
        skips (sym (elements-skip_slashes path) ∙ e) s (omega (arith, l, skip_slashes_shorter path))
          n
